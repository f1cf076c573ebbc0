-- ===== src/Controller/Threads/Steps.antt =====
-- Every step of a thread of Controller/controller.cpp keeps the balance of the tasks.
use mathlib.Core.Option.{some_inj}
use distributed_matrix_multi.Prelude.{
  ℕ, ◌<◌, ◌≡◌, refl, sym, ap, subst, ◌∙◌, some, List, [], ◌∷◌, ◌++◌, arith, All, All-append,
  length-append, get_elem?, set,
}
use distributed_matrix_multi.Rpc.Task.{RpcMatrixTask}
use distributed_matrix_multi.Controller.MatrixData.Plan.Defs.{Settings}
use distributed_matrix_multi.Controller.MatrixData.State.{ResultField, MatrixData}
use distributed_matrix_multi.Controller.MatrixData.Initialize.Fields.{IsInside}
use distributed_matrix_multi.Controller.MatrixData.Queue.Defs.{
  NextTask, get_next_task, field_of, reassign_task,
}
use distributed_matrix_multi.Controller.MatrixData.Queue.Ready.{IsReady}
use distributed_matrix_multi.Controller.MatrixData.Queue.Steps.{
  Fetched, fetched, none_left, get_next_task-GetsTask, reassign_task-Reassigns,
}
use distributed_matrix_multi.Controller.MatrixData.Progress.Defs.{inform_about_stored_result}
use distributed_matrix_multi.Controller.MatrixData.Progress.Finished.{
  Counted, inform_about_stored_result-Informs,
}
use distributed_matrix_multi.Controller.Threads.Defs.{
  waiting, fetching, computing, Thread, Controller, Step, finish, leave, go_on, fetch, stolen,
  refused, given_up, lock, stored, not_stored, checked,
}
use distributed_matrix_multi.Controller.Threads.Balance.{
  of_field, of_field_self, of_field_other, in_hand_of, in_hand, HandsInside, Invariant,
  hands_of_old, Invariant-keep, Invariant-queue, Invariant-stored,
}

Counted-same :
    (d d' : MatrixData)
    → d'.settings ≡ d.settings
    → d'.plan ≡ d.plan
    → d'.matrix_stored_chunks ≡ d.matrix_stored_chunks
    → d'.finished_fields ≡ d.finished_fields
    → Counted d
    → Counted d'
Counted-same d d' a b e f c = record {
  some_chunks = subst (λ p. 0 < p.chunks_per_row) (sym b) c.some_chunks;
  counts = rw (f, b, e) c.counts;
  all_fields = rw (a, e) c.all_fields;
}

module _ (s : Settings) (d : MatrixData) (threads : List Thread) (i : ℕ) (th : Thread)
    (at_i : get_elem? threads i ≡ some th) (inv : Invariant s d threads) where
  -- `getNextTask` gave a task.
  fetch-Invariant :
      (t : RpcMatrixTask) (d' : MatrixData)
      → th.phase ≡ fetching
      → Fetched d (NextTask.task t) d'
      → IsReady d'
      → Invariant s d' (set threads i (record th { phase = computing t }))
  fetch-Invariant t d' e (fetched f _ rest qs fields found w) ready =
      let f_inside = inv.inside f (t, rest, found) in
      let b = inv.balanced f f_inside in
      let same_queue : b.queue ≡ t ∷ rest = some_inj.0 (sym b.queue_found ∙ found) in
      let own = subst (All (λ u. field_of u ≡ f)) same_queue b.own in
      Invariant-queue s d threads i th (record th { phase = computing t }) at_i inv d' f (t ∷ rest)
        rest f_inside refl refl ready (Counted-same d d' refl refl refl refl inv.counted) found w
        own.1 (subst (IsInside s) (sym own.0) f_inside)
        (omega (arith, of_field_self f (field_of t) (sym own.0), ap (in_hand_of f) e))
        (λ g other.
          of_field_other g (field_of t) (λ same. other (sym (same ∙ own.0)))
          ∙ sym (ap (in_hand_of g) e))

  -- `reassignTask` put the task in hand back.
  reassign-Invariant :
      (t : RpcMatrixTask) (d' : MatrixData) (new : Thread)
      → IsInside s (field_of t)
      → ((f : ResultField) → in_hand f th ≡ of_field f (field_of t))
      → ((f : ResultField) → in_hand f new ≡ 0)
      → HandsInside s new.phase
      → reassign_task t d ≡ some d'
      → Invariant s d' (set threads i new)
  reassign-Invariant t d' new f_inside had has h e =
      let f = field_of t in
      let b = inv.balanced f f_inside in
      let r = reassign_task-Reassigns t d b.queue inv.ready b.queue_found in
      let same_queue : b.queue ≡ r.before_it = some_inj.0 (sym b.queue_found ∙ r.was) in
      subst (λ u. Invariant s u (set threads i new)) (some_inj.0 (sym r.returns ∙ e))
        (Invariant-queue s d threads i th new at_i inv r.after f r.before_it (r.before_it ++ t ∷ [])
          f_inside r.same_setup.1 r.same_progress.0 r.ready
          (Counted-same d r.after r.same_setup.0 r.same_setup.1 r.same_progress.0 r.same_progress.1
            inv.counted)
          r.was r.effect
          (All-append _ r.before_it (t ∷ []) (subst (All (λ u. field_of u ≡ f)) same_queue b.own)
            (refl, tt))
          h
          (omega (arith, length-append r.before_it (t ∷ []), had f, has f, of_field_self f f refl))
          (λ g other. has g ∙ sym (had g ∙ of_field_other g f (λ same. other (sym same)))))

  -- `informAboutStoredResult` counted the task in hand.
  inform-Invariant :
      (t : RpcMatrixTask) (d' : MatrixData) (new : Thread)
      → IsInside s (field_of t)
      → ((f : ResultField) → in_hand f th ≡ of_field f (field_of t))
      → ((f : ResultField) → in_hand f new ≡ 0)
      → HandsInside s new.phase
      → inform_about_stored_result t d ≡ some d'
      → Invariant s d' (set threads i new)
  inform-Invariant t d' new f_inside had has h e =
      let f = field_of t in
      let b = inv.balanced f f_inside in
      let r = inform_about_stored_result-Informs t d b.stored inv.counted b.stored_found in
      subst (λ u. Invariant s u (set threads i new)) (some_inj.0 (sym r.returns ∙ e))
        (Invariant-stored s d threads i th new at_i inv r.after f b.stored r.same_setup.1
          r.same_queue.0 (rw (r.same_queue.0, r.same_queue.1) inv.ready) r.counted f_inside
          b.stored_found r.effect h (omega (arith, had f, has f, of_field_self f f refl))
          (λ g other. has g ∙ sym (had g ∙ of_field_other g f (λ same. other (sym same)))))

-- What `getNextTask` gave, by what it returned.
returned_task :
    (d d' : MatrixData) (n : NextTask)
    → IsReady d
    → get_next_task d ≡ some (n, d')
    → Fetched d n d' × IsReady d'
returned_task d d' n ready e =
    let g = get_next_task-GetsTask d ready in
    let same : (g.result, g.after) ≡ (n, d') = some_inj.0 (sym g.returns ∙ e) in
    subst (λ (r : NextTask × MatrixData). Fetched d r.0 r.1 × IsReady r.1) same (g.effect, g.ready)

nothing-Fetched : (d d' : MatrixData) → Fetched d NextTask.empty d' → d ≡ d'
nothing-Fetched d d' (none_left empty) = refl

-- Every step of a thread keeps the invariant: the queue of tasks is in order, the finished fields are
-- counted, and for each field the queued tasks, the tasks in hand and the stored chunks are together the
-- chunks of a row.
pub step-Invariant :
    (s : Settings) (c c' : Controller) (i : ℕ) (th : Thread)
    → get_elem? c.threads i ≡ some th
    → Step c i th c'
    → Invariant s c.m_data c.threads
    → Invariant s c'.m_data c'.threads
step-Invariant s c c' i th at_i (finish e x y) inv =
    Invariant-keep s c.m_data c.threads i th _ at_i inv tt (λ f. sym (ap (in_hand_of f) e))
step-Invariant s c c' i th at_i (leave e x y) inv =
    Invariant-keep s c.m_data c.threads i th _ at_i inv tt (λ f. sym (ap (in_hand_of f) e))
step-Invariant s c c' i th at_i (go_on e x y) inv =
    Invariant-keep s c.m_data c.threads i th _ at_i inv tt (λ f. sym (ap (in_hand_of f) e))
step-Invariant s c c' i th at_i (fetch t d e x) inv =
    let (effect, ready) = returned_task c.m_data d (NextTask.task t) inv.ready x in
    fetch-Invariant s c.m_data c.threads i th at_i inv t d e effect ready
step-Invariant s c c' i th at_i (stolen d e x) inv =
    let (effect, ready) = returned_task c.m_data d NextTask.empty inv.ready x in
    subst (λ u. Invariant s u (set c.threads i (record th { phase = waiting })))
      (nothing-Fetched c.m_data d effect)
      (Invariant-keep s c.m_data c.threads i th _ at_i inv tt (λ f. sym (ap (in_hand_of f) e)))
step-Invariant s c c' i th at_i (refused t d e x) inv =
    let inside = subst (HandsInside s) e (hands_of_old s c.m_data c.threads i th th at_i inv) in
    reassign-Invariant s c.m_data c.threads i th at_i inv t d _ inside (λ f. ap (in_hand_of f) e)
      (λ f. refl) tt x
step-Invariant s c c' i th at_i (given_up t d e y x) inv =
    let inside = subst (HandsInside s) e (hands_of_old s c.m_data c.threads i th th at_i inv) in
    reassign-Invariant s c.m_data c.threads i th at_i inv t d _ inside (λ f. ap (in_hand_of f) e)
      (λ f. refl) tt x
step-Invariant s c c' i th at_i (lock t e x y) inv =
    let inside = subst (HandsInside s) e (hands_of_old s c.m_data c.threads i th th at_i inv) in
    Invariant-keep s c.m_data c.threads i th _ at_i inv inside (λ f. sym (ap (in_hand_of f) e))
step-Invariant s c c' i th at_i (stored t d e x) inv =
    let inside = subst (HandsInside s) e (hands_of_old s c.m_data c.threads i th th at_i inv) in
    inform-Invariant s c.m_data c.threads i th at_i inv t d _ inside (λ f. ap (in_hand_of f) e)
      (λ f. refl) tt x
step-Invariant s c c' i th at_i (not_stored t d e x) inv =
    let inside = subst (HandsInside s) e (hands_of_old s c.m_data c.threads i th th at_i inv) in
    reassign-Invariant s c.m_data c.threads i th at_i inv t d _ inside (λ f. ap (in_hand_of f) e)
      (λ f. refl) tt x
step-Invariant s c c' i th at_i (checked status) inv =
    Invariant-keep s c.m_data c.threads i th _ at_i inv
      (hands_of_old s c.m_data c.threads i th th at_i inv) (λ f. refl)
