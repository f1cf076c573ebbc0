-- ===== src/Rpc/Calls/Server.antt =====
-- The processor of gen-cpp/RPCSendMatrixTasks.cpp: for each call how the arguments are read, what the
-- handler is called with, and what is written back; and the choice of the call by its name.
use distributed_matrix_multi.Prelude.{
  ℕ, Bool, true, false, Option, none, some, Bytes, codes, ◌==◌, if◌then◌else◌,
}
use distributed_matrix_multi.Rpc.Protocol.{
  TType, t_bool, t_struct, t_exception, Reader, ◌>>=◌, ◌>>◌, pure, TProtocol, Stream, same_name,
}
use distributed_matrix_multi.Rpc.Wire.Defs.{WireTask, new_task, read_struct, skip_field, read_task}
use distributed_matrix_multi.Rpc.Calls.Parts.{
  TaskArgs, ChunkArgs, Handled, no_field, write_success, write_empty, send_message, process_message,
}

-- `RPCSendMatrixTasksIf`: the handler, over its state.
pub record TasksIf (H : Type 0) : Type 0 where
  pub on_calc_task : WireTask → H → Handled Bool H
  pub on_send_task_result : Bool → H → Handled Bool H
  pub on_is_mqtt_initialized : H → Handled Bool H
  pub on_mqtt_ready : H → Handled (Unit {0}) H
  pub on_calculation_is_finished : H → Handled (Unit {0}) H

module _ (P : TProtocol) where
  unfoldable pub calc_task_field : ℕ → ℕ → TType → TaskArgs → Reader (P.Symbol) TaskArgs
  calc_task_field rounds fid ftype args =
      if fid == 1
      then elim ftype [
        | t_struct ↦ do
          t ← read_task P rounds args.rpc_matrix_task
          pure (record { rpc_matrix_task = t; is_set = true })
        | wrong ↦ skip_field P wrong args
      ]
      else skip_field P ftype args

  unfoldable pub read_calc_task_args : ℕ → Reader (P.Symbol) TaskArgs
  read_calc_task_args rounds =
      read_struct P (calc_task_field rounds) rounds
        (record { rpc_matrix_task = new_task; is_set = false })

  unfoldable pub send_task_result_field : ℕ → TType → ChunkArgs → Reader (P.Symbol) ChunkArgs
  send_task_result_field fid ftype args =
      if fid == 1
      then elim ftype [
        | t_bool ↦ do b ← P.read_bool; pure (record { last_chunk = b; is_set = true })
        | wrong ↦ skip_field P wrong args
      ]
      else skip_field P ftype args

  unfoldable pub read_send_task_result_args : ℕ → Reader (P.Symbol) ChunkArgs
  read_send_task_result_args rounds =
      read_struct P send_task_result_field rounds (record { last_chunk = false; is_set = false })

  unfoldable pub read_is_mqtt_initialized_args : ℕ → Reader (P.Symbol) (Unit {0})
  read_is_mqtt_initialized_args rounds = read_struct P (no_field P) rounds tt

  unfoldable pub read_mqtt_ready_args : ℕ → Reader (P.Symbol) (Unit {0})
  read_mqtt_ready_args rounds = read_struct P (no_field P) rounds tt

  unfoldable pub read_calculation_is_finished_args : ℕ → Reader (P.Symbol) (Unit {0})
  read_calculation_is_finished_args rounds = read_struct P (no_field P) rounds tt

  -- The results of the handler, as they are marked as set.
  unfoldable pub write_calc_task_result : Bool → Stream P
  write_calc_task_result b = write_success P (record { success = b; is_set = true })

  unfoldable pub write_send_task_result_result : Bool → Stream P
  write_send_task_result_result b = write_success P (record { success = b; is_set = true })

  unfoldable pub write_is_mqtt_initialized_result : Bool → Stream P
  write_is_mqtt_initialized_result b = write_success P (record { success = b; is_set = true })

  unfoldable pub write_mqtt_ready_result : Unit {0} → Stream P
  write_mqtt_ready_result u = write_empty P

  unfoldable pub write_calculation_is_finished_result : Unit {0} → Stream P
  write_calculation_is_finished_result u = write_empty P

  abbrev pub skip_args : Reader (P.Symbol) (Unit {0})
  skip_args = do P.skip t_struct; P.read_message_end

  module _ {H : Type 0} (handler : TasksIf H) where
    unfoldable pub process_calc_task : ℕ → ℕ → Stream P → H → Option (Stream P × Stream P × H)
    process_calc_task rounds =
        process_message P (codes "calcTask") (read_calc_task_args rounds)
          (λ args h. handler.on_calc_task args.rpc_matrix_task h) write_calc_task_result

    unfoldable pub process_send_task_result :
        ℕ → ℕ → Stream P → H → Option (Stream P × Stream P × H)
    process_send_task_result rounds =
        process_message P (codes "sendTaskResult") (read_send_task_result_args rounds)
          (λ args h. handler.on_send_task_result args.last_chunk h) write_send_task_result_result

    unfoldable pub process_is_mqtt_initialized :
        ℕ → ℕ → Stream P → H → Option (Stream P × Stream P × H)
    process_is_mqtt_initialized rounds =
        process_message P (codes "isMQTTInitialized") (read_is_mqtt_initialized_args rounds)
          (λ _ h. handler.on_is_mqtt_initialized h) write_is_mqtt_initialized_result

    unfoldable pub process_mqtt_ready : ℕ → ℕ → Stream P → H → Option (Stream P × Stream P × H)
    process_mqtt_ready rounds =
        process_message P (codes "MQTTReady") (read_mqtt_ready_args rounds)
          (λ _ h. handler.on_mqtt_ready h) write_mqtt_ready_result

    unfoldable pub process_calculation_is_finished :
        ℕ → ℕ → Stream P → H → Option (Stream P × Stream P × H)
    process_calculation_is_finished rounds =
        process_message P (codes "calculationIsFinished") (read_calculation_is_finished_args rounds)
          (λ _ h. handler.on_calculation_is_finished h) write_calculation_is_finished_result

    -- A call of a name that is not in `processMap_`.
    unfoldable pub unknown_method : Bytes → ℕ → Stream P → H → Option (Stream P × Stream P × H)
    unknown_method fname seqid s h = elim (skip_args s) [
      | none ↦ none
      | some (u, rest) ↦ some (send_message P fname t_exception seqid (P.write_exception), rest, h)
    ]

    unfoldable pub dispatch_call : ℕ → Bytes → ℕ → Stream P → H → Option (Stream P × Stream P × H)
    dispatch_call rounds fname seqid s h =
        if same_name fname (codes "calcTask")
        then process_calc_task rounds seqid s h
        else if same_name fname (codes "sendTaskResult")
        then process_send_task_result rounds seqid s h
        else if same_name fname (codes "isMQTTInitialized")
        then process_is_mqtt_initialized rounds seqid s h
        else if same_name fname (codes "MQTTReady")
        then process_mqtt_ready rounds seqid s h
        else if same_name fname (codes "calculationIsFinished")
        then process_calculation_is_finished rounds seqid s h
        else unknown_method fname seqid s h
