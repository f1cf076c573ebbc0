-- ===== src/Worker/Mutex/System/Uninterrupted.antt =====
-- The steps of a worker of Worker/worker.cpp, taken one after the other with none in between, are the
-- functions `onMQTTMessage` and `mqtt_respond_to_open_requests` as a whole.
use distributed_matrix_multi.Prelude.{ℕ, List, [], ◌++◌}
use distributed_matrix_multi.Worker.Mutex.Defs.{MessageType, MqttPayload, LamportState, Published}
use distributed_matrix_multi.Worker.Mutex.System.Defs.{Callback, quiet, Phase, Node, Move}

-- Several steps of a worker, with all that they publish.
pub data Moves : Node → Node → Published → Type 0 where
  done : {v : Node} → Moves v v []
  go :
      {u v w : Node} {first rest : Published}
      → Move u v first
      → Moves v w rest
      → Moves u w (first ++ rest)

abbrev pub node : LamportState → List MqttPayload → Callback → Phase → Node
node w inbox callback phase = record {
  state = w;
  inbox = inbox;
  callback = callback;
  phase = phase;
}

-- The worker has come to `result`, and is outside of the callback.
abbrev Returns : Node → List MqttPayload → Phase → LamportState × Published → Type 0
Returns v inbox phase result = Moves v (node result.0 inbox quiet phase) result.1

abbrev message : MessageType → ℕ → ℕ → MqttPayload
message type time nr = record { message_type = type; lamport_time = time; worker_number = nr }
