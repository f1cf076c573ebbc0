-- ===== src/Controller/Threads/Balance.antt =====
-- The invariant of the threads of Controller/controller.cpp: for each field the tasks in its queue, the
-- tasks that threads have in hand and the stored chunks are together the chunks of a row.
use mathlib.Core.Option.{some_inj}
use distributed_matrix_multi.Prelude.{
  ℕ, ◌+◌, ◌≡◌, refl, sym, ap, subst, ◌∙◌, ◌≢◌, some, List, arith, All, total, total-set, length,
  get_elem?, set,
}
use distributed_matrix_multi.Rpc.Task.{RpcMatrixTask}
use distributed_matrix_multi.Controller.Matrix.Laws.{All-set, All-get_elem?}
use distributed_matrix_multi.Controller.MatrixData.Plan.Defs.{Settings}
use distributed_matrix_multi.Controller.MatrixData.State.{ResultField, MatrixData, field_at}
use distributed_matrix_multi.Controller.MatrixData.Fields.{ResultField-discrete, FieldWritten}
use distributed_matrix_multi.Controller.MatrixData.Initialize.Fields.{IsInside}
use distributed_matrix_multi.Controller.MatrixData.Queue.Defs.{field_of}
use distributed_matrix_multi.Controller.MatrixData.Queue.Ready.{IsReady, HasTask, HasTask-back}
use distributed_matrix_multi.Controller.MatrixData.Progress.Finished.{Counted, chunks}
use distributed_matrix_multi.Controller.Threads.Defs.{
  Phase, waiting, fetching, stopped, computing, storing, Thread,
}

abbrev weigh {ℓ} : {A : Type ℓ} → Dec A → ℕ
weigh (yes a) = 1
weigh (no n) = 0

weigh-yes {ℓ} : {A : Type ℓ} (x : Dec A) → A → weigh x ≡ 1
weigh-yes (yes a) b = refl
weigh-yes (no n) b = absurd (n b)

weigh-no {ℓ} : {A : Type ℓ} (x : Dec A) → ¬ A → weigh x ≡ 0
weigh-no (yes a) n = absurd (n a)
weigh-no (no n) m = refl

-- 1 for a task of the field
unfoldable pub of_field : ResultField → ResultField → ℕ
of_field f g = weigh (ResultField-discrete f g)

pub of_field_self : (f g : ResultField) → f ≡ g → of_field f g ≡ 1
unfolding of_field
of_field_self f g e = weigh-yes (ResultField-discrete f g) e

pub of_field_other : (f g : ResultField) → f ≢ g → of_field f g ≡ 0
unfolding of_field
of_field_other f g ne = weigh-no (ResultField-discrete f g) ne

-- The tasks of a field that a thread has in hand: one or none.
abbrev pub in_hand_of : ResultField → Phase → ℕ
in_hand_of f waiting = 0
in_hand_of f fetching = 0
in_hand_of f stopped = 0
in_hand_of f (computing t) = of_field f (field_of t)
in_hand_of f (storing t) = of_field f (field_of t)

abbrev pub in_hand : ResultField → Thread → ℕ
in_hand f th = in_hand_of f th.phase

-- The task in hand is of a field that exists.
abbrev pub HandsInside : Settings → Phase → Type 0
HandsInside s waiting = Unit
HandsInside s fetching = Unit
HandsInside s stopped = Unit
HandsInside s (computing t) = IsInside s (field_of t)
HandsInside s (storing t) = IsInside s (field_of t)

pub record Balanced (d : MatrixData) (threads : List Thread) (f : ResultField) : Type 0 where
  pub queue : List RpcMatrixTask
  pub queue_found : field_at d.matrix_tasks f ≡ some queue
  pub own : All (λ t. field_of t ≡ f) queue
  pub stored : ℕ
  pub stored_found : field_at d.matrix_stored_chunks f ≡ some stored
  pub balance : length queue + total (in_hand f) threads + stored ≡ chunks d

pub record Invariant (s : Settings) (d : MatrixData) (threads : List Thread) : Type 0 where
  pub ready : IsReady d
  pub counted : Counted d
  pub balanced : (f : ResultField) → IsInside s f → Balanced d threads f
  pub inside : (f : ResultField) → HasTask d.matrix_tasks f → IsInside s f
  pub stored_inside :
      (f : ResultField) (n : ℕ) → field_at d.matrix_stored_chunks f ≡ some n → IsInside s f
  pub hands_inside : All (λ th. HandsInside s th.phase) threads

-- A step of thread `i`, which was `old`, to `new`.
module _ (s : Settings) (d : MatrixData) (threads : List Thread) (i : ℕ) (old new : Thread)
    (found : get_elem? threads i ≡ some old) (inv : Invariant s d threads) where
  hands_kept : HandsInside s new.phase → All (λ th. HandsInside s th.phase) (set threads i new)
  hands_kept h = All-set (λ th. HandsInside s th.phase) threads i new inv.hands_inside h

  pub hands_of_old : HandsInside s old.phase
  hands_of_old = All-get_elem? (λ th. HandsInside s th.phase) threads i inv.hands_inside found

  trade :
      (f : ResultField)
      → total (in_hand f) (set threads i new) + in_hand f old
        ≡ total (in_hand f) threads + in_hand f new
  trade f = total-set (in_hand f) threads i new found

  -- The thread keeps what it has in hand.
  pub Invariant-keep :
      HandsInside s new.phase
      → ((f : ResultField) → in_hand f new ≡ in_hand f old)
      → Invariant s d (set threads i new)
  Invariant-keep h same = record {
    ready = inv.ready;
    counted = inv.counted;
    balanced = λ f h'.
        let b = inv.balanced f h' in
        record {
          queue = b.queue;
          queue_found = b.queue_found;
          own = b.own;
          stored = b.stored;
          stored_found = b.stored_found;
          balance = omega (arith, b.balance, trade f, same f);
        };
    inside = inv.inside;
    stored_inside = inv.stored_inside;
    hands_inside = hands_kept h;
  }

  -- One queue changes together with what the thread has in hand.
  pub Invariant-queue :
      (d' : MatrixData) (f : ResultField) (queue queue' : List RpcMatrixTask)
      → IsInside s f
      → d'.plan ≡ d.plan
      → d'.matrix_stored_chunks ≡ d.matrix_stored_chunks
      → IsReady d'
      → Counted d'
      → field_at d.matrix_tasks f ≡ some queue
      → FieldWritten d.matrix_tasks d'.matrix_tasks f queue'
      → All (λ t. field_of t ≡ f) queue'
      → HandsInside s new.phase
      → length queue' + in_hand f new ≡ length queue + in_hand f old
      → ((g : ResultField) → f ≢ g → in_hand g new ≡ in_hand g old)
      → Invariant s d' (set threads i new)
  Invariant-queue d' f queue queue' f_inside same_plan same_stored ready counted was w own h shift
        others =
      record {
        ready = ready;
        counted = counted;
        balanced = λ g h'. elim (ResultField-discrete f g) [
          | yes same ↦ subst (Balanced d' (set threads i new)) same (here (inv.balanced f f_inside))
          | no other ↦ there g other (inv.balanced g h')
        ];
        inside = λ g task_left. elim (ResultField-discrete f g) [
          | yes same ↦ subst (IsInside s) same f_inside
          | no other ↦ inv.inside g (HasTask-back g w other task_left)
        ];
        stored_inside =
            λ g n e. inv.stored_inside g n (ap (λ ms. field_at ms g) (sym same_stored) ∙ e);
        hands_inside = hands_kept h;
      }
    where
      same_chunks : chunks d' ≡ chunks d
      same_chunks = ap (λ p. p.chunks_per_row) same_plan

      here : Balanced d threads f → Balanced d' (set threads i new) f
      here b =
          let same_queue : b.queue ≡ queue = some_inj.0 (sym b.queue_found ∙ was) in
          record {
            queue = queue';
            queue_found = w.self;
            own = own;
            stored = b.stored;
            stored_found = ap (λ ms. field_at ms f) same_stored ∙ b.stored_found;
            balance = omega (arith, b.balance, trade f, shift, same_chunks, ap length same_queue);
          }

      there : (g : ResultField) → f ≢ g → Balanced d threads g → Balanced d' (set threads i new) g
      there g other b = record {
        queue = b.queue;
        queue_found = w.other g other ∙ b.queue_found;
        own = b.own;
        stored = b.stored;
        stored_found = ap (λ ms. field_at ms g) same_stored ∙ b.stored_found;
        balance = omega (arith, b.balance, trade g, others g other, same_chunks);
      }

  -- A chunk in hand becomes a stored one.
  pub Invariant-stored :
      (d' : MatrixData) (f : ResultField) (n : ℕ)
      → d'.plan ≡ d.plan
      → d'.matrix_tasks ≡ d.matrix_tasks
      → IsReady d'
      → Counted d'
      → IsInside s f
      → field_at d.matrix_stored_chunks f ≡ some n
      → FieldWritten d.matrix_stored_chunks d'.matrix_stored_chunks f (n + 1)
      → HandsInside s new.phase
      → in_hand f new + 1 ≡ in_hand f old
      → ((g : ResultField) → f ≢ g → in_hand g new ≡ in_hand g old)
      → Invariant s d' (set threads i new)
  Invariant-stored d' f n same_plan same_tasks ready counted f_inside was w h shift others =
      record {
        ready = ready;
        counted = counted;
        balanced = λ g h'. elim (ResultField-discrete f g) [
          | yes same ↦ subst (Balanced d' (set threads i new)) same (here (inv.balanced f f_inside))
          | no other ↦ there g other (inv.balanced g h')
        ];
        inside = λ g task_left. inv.inside g (subst (λ qs. HasTask qs g) same_tasks task_left);
        stored_inside = λ g m e. elim (ResultField-discrete f g) [
          | yes same ↦ subst (IsInside s) same f_inside
          | no other ↦ inv.stored_inside g m (sym (w.other g other) ∙ e)
        ];
        hands_inside = hands_kept h;
      }
    where
      same_chunks : chunks d' ≡ chunks d
      same_chunks = ap (λ p. p.chunks_per_row) same_plan

      here : Balanced d threads f → Balanced d' (set threads i new) f
      here b =
          let same_stored : b.stored ≡ n = some_inj.0 (sym b.stored_found ∙ was) in
          record {
            queue = b.queue;
            queue_found = ap (λ ms. field_at ms f) same_tasks ∙ b.queue_found;
            own = b.own;
            stored = n + 1;
            stored_found = w.self;
            balance = omega (arith, b.balance, trade f, shift, same_chunks, same_stored);
          }

      there : (g : ResultField) → f ≢ g → Balanced d threads g → Balanced d' (set threads i new) g
      there g other b = record {
        queue = b.queue;
        queue_found = ap (λ ms. field_at ms g) same_tasks ∙ b.queue_found;
        own = b.own;
        stored = b.stored;
        stored_found = w.other g other ∙ b.stored_found;
        balance = omega (arith, b.balance, trade g, others g other, same_chunks);
      }
