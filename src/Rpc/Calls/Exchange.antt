-- ===== src/Rpc/Calls/Exchange.antt =====
-- A call of gen-cpp/RPCSendMatrixTasks.cpp from the client through the server and back.
use distributed_matrix_multi.Prelude.{
  ℕ, ◌<◌, ◌≡◌, refl, Bool, true, none, some, ◌++◌, append_assoc, arith, Bytes, codes,
}
use distributed_matrix_multi.Rpc.Protocol.{
  t_reply, t_exception, Reader, ◌>>=◌, TProtocol, Stream, IsFaithful, same_name,
}
use distributed_matrix_multi.Rpc.Wire.Defs.{read_struct}
use distributed_matrix_multi.Rpc.Calls.Parts.{
  new_bool_result, success_field, no_field, write_success, write_empty, send_message, recv_message,
  process_message, reply_to_call, Handled, success_or_throw,
}
use distributed_matrix_multi.Rpc.Calls.Client
use distributed_matrix_multi.Rpc.Calls.Server
use distributed_matrix_multi.Rpc.Calls.Server.{TasksIf}
use distributed_matrix_multi.Rpc.Calls.Structs.{
  read-write_success, read-write_empty, read-write_calc_task_args, read-write_send_task_result_args,
}
use distributed_matrix_multi.Rpc.Calls.Each.{
  Call, calculate, send_result, ask_mqtt, announce_ready, announce_finished, Answer, name_of,
  CanSend, handle, body_of, recv_call, write_answer,
}

module _ {P : TProtocol} (L : IsFaithful P) where
  process_message_lem :
      {A R H : Type 0} (name : Bytes) (read : Reader (P.Symbol) A) (handle : A → H → Handled R H)
      (write : R → Stream P) (seqid : ℕ) (body s : Stream P) (a : A) (h : H)
      → read (body ++ (P.write_message_end ++ s)) ≡ some (a, P.write_message_end ++ s)
      → process_message P name read handle write seqid (body ++ (P.write_message_end ++ s)) h
        ≡ some (reply_to_call P name write seqid s (handle a h))
  unfolding process_message
  process_message_lem name read handle write seqid body s a h e = ground (arith, L.message_end s)

  recv_message-reply :
      {R : Type 0} (name : Bytes) (read : Reader (P.Symbol) R) (seqid : ℕ) (body s : Stream P)
      (r : R)
      → same_name name name ≡ true
      → read (body ++ (P.write_message_end ++ s)) ≡ some (r, P.write_message_end ++ s)
      → recv_message P name read (send_message P name t_reply seqid body ++ s) ≡ some (r, s)
  unfolding recv_message send_message
  recv_message-reply name read seqid body s r n e =
      rw (append_assoc, append_assoc)
        (ground (
          arith,
          L.message_begin name t_reply seqid (body ++ (P.write_message_end ++ s)),
          L.message_end s,
        ))

  recv_message-exception :
      {R : Type 0} (name fname : Bytes) (read : Reader (P.Symbol) R) (seqid : ℕ) (s : Stream P)
      → recv_message P name read (send_message P fname t_exception seqid (P.write_exception) ++ s)
        ≡ none
  unfolding recv_message send_message
  recv_message-exception name fname read seqid s =
      rw (append_assoc, append_assoc)
        (ground (
          arith,
          L.message_begin fname t_exception seqid (P.write_exception ++ (P.write_message_end ++ s)),
          L.exception (P.write_message_end ++ s),
          L.message_end s,
        ))

module _ {P : TProtocol} (L : IsFaithful P) (rounds : ℕ) (enough : 5 < rounds) where
  pub dispatch_call-call :
      {H : Type 0} (handler : TasksIf H) (c : Call) (seqid : ℕ) (s : Stream P) (h : H)
      → CanSend c
      → Server.dispatch_call P handler rounds
          (name_of c)
          seqid
          (body_of P c ++ (P.write_message_end ++ s))
          h
        ≡ some (reply_to_call P (name_of c) (write_answer P c) seqid s (handle handler c h))
  unfolding Server.dispatch_call Server.process_calc_task Server.process_send_task_result
      Server.process_is_mqtt_initialized Server.process_mqtt_ready
      Server.process_calculation_is_finished Server.read_is_mqtt_initialized_args
      Server.read_mqtt_ready_args Server.read_calculation_is_finished_args
      Client.write_is_mqtt_initialized_args Client.write_mqtt_ready_args
      Client.write_calculation_is_finished_args
  dispatch_call-call handler (calculate t) seqid s h ok =
      process_message_lem L (codes "calcTask") _ _ _ seqid (Client.write_calc_task_args P t) s _ h
        (read-write_calc_task_args L t rounds (P.write_message_end ++ s) ok enough)
  dispatch_call-call handler (send_result b) seqid s h ok =
      process_message_lem L (codes "sendTaskResult") _ _ _ seqid
        (Client.write_send_task_result_args P b) s _ h
        (read-write_send_task_result_args L b rounds (P.write_message_end ++ s) (omega arith))
  dispatch_call-call handler ask_mqtt seqid s h ok =
      process_message_lem L (codes "isMQTTInitialized") _ _ _ seqid (write_empty P) s tt h
        (read-write_empty L rounds (P.write_message_end ++ s) (omega arith))
  dispatch_call-call handler announce_ready seqid s h ok =
      process_message_lem L (codes "MQTTReady") _ _ _ seqid (write_empty P) s tt h
        (read-write_empty L rounds (P.write_message_end ++ s) (omega arith))
  dispatch_call-call handler announce_finished seqid s h ok =
      process_message_lem L (codes "calculationIsFinished") _ _ _ seqid (write_empty P) s tt h
        (read-write_empty L rounds (P.write_message_end ++ s) (omega arith))

  recv_success :
      (name : Bytes) (seqid : ℕ) (b : Bool) (s : Stream P)
      → same_name name name ≡ true
      → (recv_message P name (read_struct P (success_field P) rounds new_bool_result)
            >>= success_or_throw P)
          (send_message P name t_reply seqid
              (write_success P (record { success = b; is_set = true }))
            ++ s)
        ≡ some (b, s)
  recv_success name seqid b s n =
      rw
        (
          recv_message-reply L name (read_struct P (success_field P) rounds new_bool_result) seqid
              (write_success P (record { success = b; is_set = true })) s _ n
              (read-write_success L b rounds (P.write_message_end ++ s) (omega arith)),
          ◌>>=◌,
        )
        refl

  recv_empty :
      (name : Bytes) (seqid : ℕ) (s : Stream P)
      → same_name name name ≡ true
      → recv_message P name
          (read_struct P (no_field P) rounds tt)
          (send_message P name t_reply seqid (write_empty P) ++ s)
        ≡ some (tt, s)
  recv_empty name seqid s n =
      recv_message-reply L name (read_struct P (no_field P) rounds tt) seqid (write_empty P) s tt n
        (read-write_empty L rounds (P.write_message_end ++ s) (omega arith))

  pub recv_call-reply :
      (c : Call) (seqid : ℕ) (r : Answer c) (s : Stream P)
      → recv_call P c rounds (send_message P (name_of c) t_reply seqid (write_answer P c r) ++ s)
        ≡ some (r, s)
  unfolding Client.recv_calc_task Client.recv_send_task_result Client.recv_is_mqtt_initialized
      Client.recv_mqtt_ready Client.recv_calculation_is_finished Client.read_calc_task_result
      Client.read_send_task_result_result Client.read_is_mqtt_initialized_result
      Client.read_mqtt_ready_result Client.read_calculation_is_finished_result
      Server.write_calc_task_result Server.write_send_task_result_result
      Server.write_is_mqtt_initialized_result Server.write_mqtt_ready_result
      Server.write_calculation_is_finished_result
  recv_call-reply (calculate t) seqid b s = recv_success (codes "calcTask") seqid b s refl
  recv_call-reply (send_result l) seqid b s = recv_success (codes "sendTaskResult") seqid b s refl
  recv_call-reply ask_mqtt seqid b s = recv_success (codes "isMQTTInitialized") seqid b s refl
  recv_call-reply announce_ready seqid tt s = recv_empty (codes "MQTTReady") seqid s refl
  recv_call-reply announce_finished seqid tt s =
      recv_empty (codes "calculationIsFinished") seqid s refl

  pub recv_call-exception :
      (c : Call) (fname : Bytes) (seqid : ℕ) (s : Stream P)
      → recv_call P c rounds (send_message P fname t_exception seqid (P.write_exception) ++ s)
        ≡ none
  unfolding Client.recv_calc_task Client.recv_send_task_result Client.recv_is_mqtt_initialized
      Client.recv_mqtt_ready Client.recv_calculation_is_finished
  recv_call-exception (calculate t) fname seqid s =
      rw
        (
          recv_message-exception L (codes "calcTask") fname (Client.read_calc_task_result P rounds)
              seqid s,
          ◌>>=◌,
        )
        refl
  recv_call-exception (send_result l) fname seqid s =
      rw
        (
          recv_message-exception L (codes "sendTaskResult") fname
              (Client.read_send_task_result_result P rounds) seqid s,
          ◌>>=◌,
        )
        refl
  recv_call-exception ask_mqtt fname seqid s =
      rw
        (
          recv_message-exception L (codes "isMQTTInitialized") fname
              (Client.read_is_mqtt_initialized_result P rounds) seqid s,
          ◌>>=◌,
        )
        refl
  recv_call-exception announce_ready fname seqid s =
      recv_message-exception L (codes "MQTTReady") fname (Client.read_mqtt_ready_result P rounds)
        seqid s
  recv_call-exception announce_finished fname seqid s =
      recv_message-exception L (codes "calculationIsFinished") fname
        (Client.read_calculation_is_finished_result P rounds) seqid s
