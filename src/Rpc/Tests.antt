-- ===== src/Rpc/Tests.antt =====
-- The calls of gen-cpp over a protocol with one symbol for each part, and the handler of
-- Worker/RPCImplementation.h behind them.
use distributed_matrix_multi.Prelude.{
  ℕ, Bool, true, false, Option, none, some, [], ◌∷◌, ℤ, pos, negsuc, Bytes, pos_part,
}
use distributed_matrix_multi.Rpc.Task.{RpcMatrixTask}
use distributed_matrix_multi.Rpc.Protocol.{TType, t_stop, TMessageType, Reader, TProtocol}
use distributed_matrix_multi.Rpc.Wire.Defs.{WireTask, new_task}
use distributed_matrix_multi.Rpc.Calls.Parts.{Handled, returned, thrown}
use distributed_matrix_multi.Rpc.Calls.Server.{TasksIf}
use distributed_matrix_multi.Worker.Handler.Defs.{
  Handler, calc_task, is_mqtt_initialized, mqtt_ready, calculation_is_finished,
}

data Token : Type 0 where
  struct_begin struct_end field_end message_end list_end exception : Token
  field_begin : TType → ℕ → Token
  i32 : ℤ → Token
  i64 : ℤ → Token
  bool : Bool → Token
  list_begin : TType → ℕ → Token
  message_begin : Bytes → TMessageType → ℕ → Token

-- One symbol, if it is the one expected.
abbrev expect : {A : Type 0} → (Token → Option A) → Reader Token A
expect f [] = none
expect f (t ∷ s) = elim (f t) [ none ↦ none | some a ↦ some (a, s) ]

abbrev token_protocol : TProtocol
token_protocol = record {
  Symbol = Token;
  write_struct_begin = struct_begin ∷ [];
  write_struct_end = struct_end ∷ [];
  write_field_begin = λ t id. field_begin t id ∷ [];
  write_field_end = field_end ∷ [];
  write_field_stop = field_begin t_stop 0 ∷ [];
  write_i32 = λ v. i32 v ∷ [];
  write_i64 = λ v. i64 v ∷ [];
  write_bool = λ b. bool b ∷ [];
  write_list_begin = λ t n. list_begin t n ∷ [];
  write_list_end = list_end ∷ [];
  write_message_begin = λ name t seqid. message_begin name t seqid ∷ [];
  write_message_end = message_end ∷ [];
  write_exception = exception ∷ [];
  read_struct_begin = expect (λ t. elim t [ struct_begin ↦ some tt | _ ↦ none ]);
  read_struct_end = expect (λ t. elim t [ struct_end ↦ some tt | _ ↦ none ]);
  read_field_begin = expect (λ t. elim t [ field_begin ftype id ↦ some (ftype, id) | _ ↦ none ]);
  read_field_end = expect (λ t. elim t [ field_end ↦ some tt | _ ↦ none ]);
  read_i32 = expect (λ t. elim t [ i32 v ↦ some v | _ ↦ none ]);
  read_i64 = expect (λ t. elim t [ i64 v ↦ some v | _ ↦ none ]);
  read_bool = expect (λ t. elim t [ bool b ↦ some b | _ ↦ none ]);
  read_list_begin = expect (λ t. elim t [ list_begin etype n ↦ some (etype, n) | _ ↦ none ]);
  read_list_end = expect (λ t. elim t [ list_end ↦ some tt | _ ↦ none ]);
  read_message_begin =
      expect
        (λ t. elim t [ message_begin name mtype seqid ↦ some (name, mtype, seqid) | _ ↦ none ]);
  read_message_end = expect (λ t. elim t [ message_end ↦ some tt | _ ↦ none ]);
  read_exception = expect (λ t. elim t [ exception ↦ some tt | _ ↦ none ]);
  skip = λ _ s. none;
}

abbrev task : WireTask
task = record (new_task) {
  result_matrix = pos 1;
  row = pos 2;
  col = pos 0;
  matrix_chunk_a = pos 3 ∷ negsuc 1 ∷ [];
  matrix_chunk_b = pos 4 ∷ pos 5 ∷ [];
}

-- The worker's handler; a calculation that throws leaves it as it was.
abbrev to_task : WireTask → RpcMatrixTask
to_task t = record {
  result_matrix = pos_part t.result_matrix;
  row = pos_part t.row;
  col = pos_part t.col;
  matrix_chunk_a = t.matrix_chunk_a;
  matrix_chunk_b = t.matrix_chunk_b;
}

abbrev handled : {H : Type 0} → H → Option (Bool × H) → Handled Bool H
handled h none = thrown h
handled h (some (b, h')) = returned b h'

abbrev worker : TasksIf Handler
worker = record {
  on_calc_task = λ t h. handled h (calc_task (to_task t) h);
  on_send_task_result = λ last_chunk h. returned true h;
  on_is_mqtt_initialized = λ h. handled h (is_mqtt_initialized h);
  on_mqtt_ready = λ h. returned tt (mqtt_ready h);
  on_calculation_is_finished = λ h. returned tt (calculation_is_finished h);
}

abbrev fresh : Handler
fresh = record {
  current_task = to_task new_task;
  current_result = pos 0;
  sem_mqtt = 0;
  sem_mqtt_ready = 0;
  calculation_finished = false;
}

abbrev calculated : Handler
calculated = record fresh { current_task = to_task task; current_result = pos 2 }

-- A chunk of B that is too short.
abbrev short : WireTask
short = record task { matrix_chunk_b = pos 4 ∷ [] }
