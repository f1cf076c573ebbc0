-- ===== src/Rpc/Calls/Client.antt =====
-- The client of gen-cpp/RPCSendMatrixTasks.cpp: for each call what is sent, and how the reply is read.
use distributed_matrix_multi.Prelude.{ℕ, Bool, ◌++◌, codes}
use distributed_matrix_multi.Rpc.Protocol.{
  t_bool, t_struct, t_call, Reader, ◌>>=◌, TProtocol, Stream,
}
use distributed_matrix_multi.Rpc.Wire.Defs.{WireTask, read_struct, write_task, write_field}
use distributed_matrix_multi.Rpc.Calls.Parts.{
  BoolResult, new_bool_result, success_field, no_field, write_empty, send_message, recv_message,
  success_or_throw,
}

module _ (P : TProtocol) where
  unfoldable pub write_calc_task_args : WireTask → Stream P
  write_calc_task_args t =
      P.write_struct_begin
      ++ (write_field P t_struct 1 (write_task P t) ++ (P.write_field_stop ++ P.write_struct_end))

  unfoldable pub send_calc_task : WireTask → Stream P
  send_calc_task t = send_message P (codes "calcTask") t_call 0 (write_calc_task_args t)

  unfoldable pub read_calc_task_result : ℕ → Reader (P.Symbol) BoolResult
  read_calc_task_result rounds = read_struct P (success_field P) rounds new_bool_result

  unfoldable pub recv_calc_task : ℕ → Reader (P.Symbol) Bool
  recv_calc_task rounds = do
    r ← recv_message P (codes "calcTask") (read_calc_task_result rounds)
    success_or_throw P r

  unfoldable pub write_send_task_result_args : Bool → Stream P
  write_send_task_result_args last_chunk =
      P.write_struct_begin
      ++ (write_field P t_bool 1 (P.write_bool last_chunk)
          ++ (P.write_field_stop ++ P.write_struct_end))

  unfoldable pub send_send_task_result : Bool → Stream P
  send_send_task_result last_chunk =
      send_message P (codes "sendTaskResult") t_call 0 (write_send_task_result_args last_chunk)

  unfoldable pub read_send_task_result_result : ℕ → Reader (P.Symbol) BoolResult
  read_send_task_result_result rounds = read_struct P (success_field P) rounds new_bool_result

  unfoldable pub recv_send_task_result : ℕ → Reader (P.Symbol) Bool
  recv_send_task_result rounds = do
    r ← recv_message P (codes "sendTaskResult") (read_send_task_result_result rounds)
    success_or_throw P r

  unfoldable pub write_is_mqtt_initialized_args : Stream P
  write_is_mqtt_initialized_args = write_empty P

  unfoldable pub send_is_mqtt_initialized : Stream P
  send_is_mqtt_initialized =
      send_message P (codes "isMQTTInitialized") t_call 0 write_is_mqtt_initialized_args

  unfoldable pub read_is_mqtt_initialized_result : ℕ → Reader (P.Symbol) BoolResult
  read_is_mqtt_initialized_result rounds = read_struct P (success_field P) rounds new_bool_result

  unfoldable pub recv_is_mqtt_initialized : ℕ → Reader (P.Symbol) Bool
  recv_is_mqtt_initialized rounds = do
    r ← recv_message P (codes "isMQTTInitialized") (read_is_mqtt_initialized_result rounds)
    success_or_throw P r

  unfoldable pub write_mqtt_ready_args : Stream P
  write_mqtt_ready_args = write_empty P

  unfoldable pub send_mqtt_ready : Stream P
  send_mqtt_ready = send_message P (codes "MQTTReady") t_call 0 write_mqtt_ready_args

  unfoldable pub read_mqtt_ready_result : ℕ → Reader (P.Symbol) (Unit {0})
  read_mqtt_ready_result rounds = read_struct P (no_field P) rounds tt

  unfoldable pub recv_mqtt_ready : ℕ → Reader (P.Symbol) (Unit {0})
  recv_mqtt_ready rounds = recv_message P (codes "MQTTReady") (read_mqtt_ready_result rounds)

  unfoldable pub write_calculation_is_finished_args : Stream P
  write_calculation_is_finished_args = write_empty P

  unfoldable pub send_calculation_is_finished : Stream P
  send_calculation_is_finished =
      send_message P (codes "calculationIsFinished") t_call 0 write_calculation_is_finished_args

  unfoldable pub read_calculation_is_finished_result : ℕ → Reader (P.Symbol) (Unit {0})
  read_calculation_is_finished_result rounds = read_struct P (no_field P) rounds tt

  unfoldable pub recv_calculation_is_finished : ℕ → Reader (P.Symbol) (Unit {0})
  recv_calculation_is_finished rounds =
      recv_message P (codes "calculationIsFinished") (read_calculation_is_finished_result rounds)
