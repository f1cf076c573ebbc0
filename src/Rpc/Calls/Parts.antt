-- ===== src/Rpc/Calls/Parts.antt =====
-- The structs with the arguments and the results of the calls in gen-cpp/RPCSendMatrixTasks.cpp, and what
-- the generated code does alike for each call.
use distributed_matrix_multi.Prelude.{
  ℕ, Bool, true, false, Option, none, some, [], ◌++◌, Bytes, ◌==◌, if◌then◌else◌,
}
use distributed_matrix_multi.Rpc.Protocol.{
  TType, t_bool, t_struct, TMessageType, t_reply, t_exception, Reader, ◌>>=◌, ◌>>◌, pure, throw,
  TProtocol, Stream, same_name,
}
use distributed_matrix_multi.Rpc.Wire.Defs.{WireTask, skip_field, write_field}

pub record TaskArgs : Type 0 where
  pub rpc_matrix_task : WireTask
  pub is_set : Bool

pub record ChunkArgs : Type 0 where
  pub last_chunk : Bool
  pub is_set : Bool

-- The result of a call that returns a Boolean.
pub record BoolResult : Type 0 where
  pub success : Bool
  pub is_set : Bool

-- A variable that the generated code does not initialize is read only where it is marked as set.
abbrev pub new_bool_result : BoolResult
new_bool_result = record { success = false; is_set = false }

-- What a handler does: it returns, or throws a `std::exception`. It may change its state either way.
pub data Handled (R H : Type 0) : Type 0 where
  returned : R → H → Handled R H
  thrown : H → Handled R H

module _ (P : TProtocol) where
  unfoldable pub success_field : ℕ → TType → BoolResult → Reader (P.Symbol) BoolResult
  success_field fid ftype r =
      if fid == 0
      then elim ftype [
        | t_bool ↦ do b ← P.read_bool; pure (record { success = b; is_set = true })
        | wrong ↦ skip_field P wrong r
      ]
      else skip_field P ftype r

  -- A struct without fields: every field is skipped.
  abbrev pub no_field : ℕ → TType → Unit {0} → Reader (P.Symbol) (Unit {0})
  no_field fid ftype u = skip_field P ftype u

  unfoldable pub write_success : BoolResult → Stream P
  write_success r =
      P.write_struct_begin
      ++ ((if r.is_set then write_field P t_bool 0 (P.write_bool r.success) else [])
          ++ (P.write_field_stop ++ P.write_struct_end))

  unfoldable pub write_empty : Stream P
  write_empty = P.write_struct_begin ++ (P.write_field_stop ++ P.write_struct_end)

  -- `send_…`: a message with the arguments.
  unfoldable pub send_message : Bytes → TMessageType → ℕ → Stream P → Stream P
  send_message name type seqid body =
      P.write_message_begin name type seqid ++ (body ++ P.write_message_end)

  -- What a client skips when a message is not the one that it waits for; it goes on all the same.
  abbrev pub skip_unless : Bool → Reader (P.Symbol) (Unit {0})
  skip_unless true = pure tt
  skip_unless false = do P.skip t_struct; P.read_message_end

  abbrev pub is_reply : TMessageType → Bool
  is_reply t_reply = true
  is_reply _ = false

  abbrev pub is_exception : TMessageType → Bool
  is_exception t_exception = true
  is_exception _ = false

  -- `recv_…`: the reply to a call, with the result that `read` reads.
  unfoldable pub recv_message : {R : Type 0} → Bytes → Reader (P.Symbol) R → Reader (P.Symbol) R
  recv_message name read = do
    (fname, mtype, rseqid) ← P.read_message_begin
    elim (is_exception mtype) [
      | true ↦ do P.read_exception; P.read_message_end; throw
      | false ↦ do
        skip_unless (is_reply mtype)
        skip_unless (same_name fname name)
        result ← read
        P.read_message_end
        pure result
    ]

  -- `MISSING_RESULT`, unless the result is set.
  abbrev pub success_or_throw : BoolResult → Reader (P.Symbol) Bool
  success_or_throw r = if r.is_set then pure (r.success) else throw

  abbrev pub read_args : {A : Type 0} → Reader (P.Symbol) A → Reader (P.Symbol) A
  read_args read = do a ← read; P.read_message_end; pure a

  -- The reply to what the handler did.
  abbrev pub reply_to_call :
      {R H : Type 0} → Bytes → (R → Stream P) → ℕ → Stream P → Handled R H → Stream P × Stream P × H
  reply_to_call name write seqid rest (returned r h') =
      (send_message name t_reply seqid (write r), rest, h')
  reply_to_call name write seqid rest (thrown h') =
      (send_message name t_exception seqid (P.write_exception), rest, h')

  -- `process_…`: the arguments are read, the handler is called, and its result or its exception is
  -- written. The result is what is written, what is left to read, and the state of the handler; `none` is
  -- an exception of the library.
  unfoldable pub process_message :
      {A R H : Type 0}
      → Bytes
      → Reader (P.Symbol) A
      → (A → H → Handled R H)
      → (R → Stream P)
      → ℕ
      → Stream P
      → H
      → Option (Stream P × Stream P × H)
  process_message name read handle write seqid s h = elim (read_args read s) [
    | none ↦ none
    | some (a, rest) ↦ some (reply_to_call name write seqid rest (handle a h))
  ]
