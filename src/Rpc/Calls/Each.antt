-- ===== src/Rpc/Calls/Each.antt =====
-- The five calls of gen-cpp/RPCSendMatrixTasks.h, with what the client, the server and the handler do for
-- each.
use distributed_matrix_multi.Prelude.{ℕ, Bool, Bytes, codes}
use distributed_matrix_multi.Rpc.Protocol.{Reader, TProtocol, Stream}
use distributed_matrix_multi.Rpc.Wire.Defs.{WireTask}
use distributed_matrix_multi.Rpc.Wire.RoundTrip.{IsTransportable, all_set}
use distributed_matrix_multi.Rpc.Calls.Parts.{Handled}
use distributed_matrix_multi.Rpc.Calls.Client
use distributed_matrix_multi.Rpc.Calls.Server
use distributed_matrix_multi.Rpc.Calls.Server.{TasksIf}

-- The calls, with what they return.
pub data Call : Type 0 where
  calculate : WireTask → Call
  send_result : Bool → Call
  ask_mqtt announce_ready announce_finished : Call

abbrev pub Answer : Call → Type 0
Answer (calculate t) = Bool
Answer (send_result last_chunk) = Bool
Answer ask_mqtt = Bool
Answer announce_ready = Unit {0}
Answer announce_finished = Unit {0}

abbrev pub name_of : Call → Bytes
name_of (calculate t) = codes "calcTask"
name_of (send_result last_chunk) = codes "sendTaskResult"
name_of ask_mqtt = codes "isMQTTInitialized"
name_of announce_ready = codes "MQTTReady"
name_of announce_finished = codes "calculationIsFinished"

abbrev pub CanSend : Call → Type 0
CanSend (calculate t) = IsTransportable t
CanSend _ = Unit {0}

-- The method of the handler that a call is for.
abbrev pub handle : {H : Type 0} → TasksIf H → (c : Call) → H → Handled (Answer c) H
handle handler (calculate t) h = handler.on_calc_task (all_set t) h
handle handler (send_result last_chunk) h = handler.on_send_task_result last_chunk h
handle handler ask_mqtt h = handler.on_is_mqtt_initialized h
handle handler announce_ready h = handler.on_mqtt_ready h
handle handler announce_finished h = handler.on_calculation_is_finished h

module _ (P : TProtocol) where
  abbrev pub body_of : Call → Stream P
  body_of (calculate t) = Client.write_calc_task_args P t
  body_of (send_result last_chunk) = Client.write_send_task_result_args P last_chunk
  body_of ask_mqtt = Client.write_is_mqtt_initialized_args P
  body_of announce_ready = Client.write_mqtt_ready_args P
  body_of announce_finished = Client.write_calculation_is_finished_args P

  abbrev pub send_call : Call → Stream P
  send_call (calculate t) = Client.send_calc_task P t
  send_call (send_result last_chunk) = Client.send_send_task_result P last_chunk
  send_call ask_mqtt = Client.send_is_mqtt_initialized P
  send_call announce_ready = Client.send_mqtt_ready P
  send_call announce_finished = Client.send_calculation_is_finished P

  abbrev pub recv_call : (c : Call) → ℕ → Reader (P.Symbol) (Answer c)
  recv_call (calculate t) rounds = Client.recv_calc_task P rounds
  recv_call (send_result last_chunk) rounds = Client.recv_send_task_result P rounds
  recv_call ask_mqtt rounds = Client.recv_is_mqtt_initialized P rounds
  recv_call announce_ready rounds = Client.recv_mqtt_ready P rounds
  recv_call announce_finished rounds = Client.recv_calculation_is_finished P rounds

  -- How a result is written.
  abbrev pub write_answer : (c : Call) → Answer c → Stream P
  write_answer (calculate t) b = Server.write_calc_task_result P b
  write_answer (send_result last_chunk) b = Server.write_send_task_result_result P b
  write_answer ask_mqtt b = Server.write_is_mqtt_initialized_result P b
  write_answer announce_ready u = Server.write_mqtt_ready_result P u
  write_answer announce_finished u = Server.write_calculation_is_finished_result P u
