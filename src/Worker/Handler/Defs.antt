-- ===== src/Worker/Handler/Defs.antt =====
-- Worker/RPCImplementation.h: the handler of the remote calls. The semaphores and the flag that it
-- points to are fields; `none` is an exception, undefined behaviour, or a wait that cannot go on.
use distributed_matrix_multi.Prelude.{
  ℕ, ◌+◌, ◌-◌, Bool, true, Option, none, some, List, [], ◌∷◌, ◌>>=◌, ◌==◌, if◌then◌else◌, ℤ, pos,
  mul_i32, add_i64,
}
use distributed_matrix_multi.Rpc.Task.{RpcMatrixTask}

pub record HttpTask : Type 0 where
  pub result_matrix : ℕ
  pub row : ℕ
  pub col : ℕ
  pub result : ℤ
  pub last_chunk : Bool

pub record Handler : Type 0 where
  pub current_task : RpcMatrixTask
  pub current_result : ℤ
  pub sem_mqtt : ℕ
  pub sem_mqtt_ready : ℕ
  pub calculation_finished : Bool

-- The loop over `matrix_chunk_a`, from the sum so far. `at` throws where `matrix_chunk_b` is shorter;
-- the products are of type `int`, and the sum is a `long long`.
unfoldable pub sum_products : List ℤ → List ℤ → ℤ → Option ℤ
sum_products [] bs current_result = some current_result
sum_products (a ∷ as') [] current_result = none
sum_products (a ∷ as') (b ∷ bs) current_result = do
  product ← mul_i32 a b
  total ← add_i64 current_result product
  sum_products as' bs total

unfoldable pub calc_task : RpcMatrixTask → Handler → Option (Bool × Handler)
unfolding sum_products
calc_task task h = do
  current_result ← sum_products task.matrix_chunk_a task.matrix_chunk_b (pos 0)
  some (true, record h { current_task = task; current_result = current_result })

-- The task for `httpFunc`, and its call.
unfoldable pub http_task : Bool → Handler → HttpTask
http_task last_chunk h = record {
  result_matrix = h.current_task.result_matrix;
  row = h.current_task.row;
  col = h.current_task.col;
  result = h.current_result;
  last_chunk = last_chunk;
}

unfoldable pub send_task_result :
    {W : Type 0} → (HttpTask → W → Option (Bool × W)) → Bool → Handler → W → Option (Bool × W)
unfolding http_task
send_task_result http_func last_chunk h world = http_func (http_task last_chunk h) world

-- `sem_wait`, for the thread that may go on now
unfoldable pub is_mqtt_initialized : Handler → Option (Bool × Handler)
is_mqtt_initialized h =
    if h.sem_mqtt == 0 then none else some (true, record h { sem_mqtt = h.sem_mqtt - 1 })

unfoldable pub mqtt_ready : Handler → Handler
mqtt_ready h = record h { sem_mqtt_ready = h.sem_mqtt_ready + 1 }

unfoldable pub calculation_is_finished : Handler → Handler
calculation_is_finished h = record h { calculation_finished = true }
