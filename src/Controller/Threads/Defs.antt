-- ===== src/Controller/Threads/Defs.antt =====
-- `controlWorker` of Controller/controller.cpp as the steps of one thread for each worker, over the
-- shared MatrixData. A step ends where the source calls a worker or waits, and each operation of
-- MatrixData is one step.
use distributed_matrix_multi.Prelude.{ℕ, ◌≡◌, Bool, true, false, some, List, ltb, get_elem?, set}
use distributed_matrix_multi.Rpc.Task.{RpcMatrixTask}
use distributed_matrix_multi.Controller.MatrixData.State.{MatrixData}
use distributed_matrix_multi.Controller.MatrixData.Queue.Defs.{
  NextTask, get_next_task, reassign_task, get_number_task_fields,
}
use distributed_matrix_multi.Controller.MatrixData.Progress.Defs.{
  inform_about_stored_result, all_tasks_finished,
}

-- Where a thread is: in the loop that waits for tasks, before `getNextTask`, in the call of `calcTask`
-- with its task, in the call of `sendTaskResult` under `mutex_store_result`, or behind `pthread_exit`.
pub data Phase : Type 0 where
  waiting fetching stopped : Phase
  computing storing : RpcMatrixTask → Phase

-- `blocked` is `worker_status == BLOCKED`.
pub record Thread : Type 0 where
  pub phase : Phase
  pub blocked : Bool

pub record Controller : Type 0 where
  pub m_data : MatrixData
  pub threads : List Thread
  pub store_locked : Bool

-- Thread `i` moves on, with what it leaves in MatrixData.
abbrev pub moved : Controller → ℕ → Thread → MatrixData → Bool → Controller
moved c i thread d locked = record {
  m_data = d;
  threads = set c.threads i thread;
  store_locked = locked;
}

-- The step of a thread that is `th` before it. A worker may refuse a task, compute it, store it or fail
-- to; the healthcheck may block it at any time. `getNextTask` has no step behind its error return, which
-- keeps the mutex locked.
pub data Step (c : Controller) (i : ℕ) (th : Thread) : Controller → Type 0 where
  -- `while (m_data.getNumberTaskFields() < 1)`
  finish :
      th.phase ≡ waiting
      → ltb (get_number_task_fields c.m_data) 1 ≡ true
      → all_tasks_finished c.m_data ≡ true
      → Step c i th (moved c i (record th { phase = stopped }) c.m_data c.store_locked)
  leave :
      th.phase ≡ waiting
      → ltb (get_number_task_fields c.m_data) 1 ≡ false
      → th.blocked ≡ true
      → Step c i th (moved c i (record th { phase = stopped }) c.m_data c.store_locked)
  go_on :
      th.phase ≡ waiting
      → ltb (get_number_task_fields c.m_data) 1 ≡ false
      → th.blocked ≡ false
      → Step c i th (moved c i (record th { phase = fetching }) c.m_data c.store_locked)
  fetch :
      (t : RpcMatrixTask) (d : MatrixData)
      → th.phase ≡ fetching
      → get_next_task c.m_data ≡ some (NextTask.task t, d)
      → Step c i th (moved c i (record th { phase = computing t }) d c.store_locked)
  stolen :
      (d : MatrixData)
      → th.phase ≡ fetching
      → get_next_task c.m_data ≡ some (NextTask.empty, d)
      → Step c i th (moved c i (record th { phase = waiting }) d c.store_locked)
  -- `calcTask` returned false.
  refused :
      (t : RpcMatrixTask) (d : MatrixData)
      → th.phase ≡ computing t
      → reassign_task t c.m_data ≡ some d
      → Step c i th (moved c i (record th { phase = waiting }) d c.store_locked)
  -- `calcTask` returned true.
  given_up :
      (t : RpcMatrixTask) (d : MatrixData)
      → th.phase ≡ computing t
      → th.blocked ≡ true
      → reassign_task t c.m_data ≡ some d
      → Step c i th (moved c i (record th { phase = stopped }) d c.store_locked)
  lock :
      (t : RpcMatrixTask)
      → th.phase ≡ computing t
      → th.blocked ≡ false
      → c.store_locked ≡ false
      → Step c i th (moved c i (record th { phase = storing t }) c.m_data true)
  -- `sendTaskResult` returned true, or false.
  stored :
      (t : RpcMatrixTask) (d : MatrixData)
      → th.phase ≡ storing t
      → inform_about_stored_result t c.m_data ≡ some d
      → Step c i th (moved c i (record th { phase = waiting }) d false)
  not_stored :
      (t : RpcMatrixTask) (d : MatrixData)
      → th.phase ≡ storing t
      → reassign_task t c.m_data ≡ some d
      → Step c i th (moved c i (record { phase = waiting; blocked = true }) d false)
  -- `healthcheck` blocks a worker, or writes the status of its response, which can come after the
  -- thread has blocked the worker.
  checked :
      (status : Bool)
      → Step c i th (moved c i (record th { blocked = status }) c.m_data c.store_locked)

-- The states that the threads can come to.
pub data Reachable (start : Controller) : Controller → Type 0 where
  here : Reachable start start
  step :
      (c c' : Controller) (i : ℕ) (th : Thread)
      → Reachable start c
      → get_elem? c.threads i ≡ some th
      → Step c i th c'
      → Reachable start c'
