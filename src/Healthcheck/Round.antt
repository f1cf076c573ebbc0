-- ===== src/Healthcheck/Round.antt =====
-- A healthcheck of all workers: `healthcheck` of Controller/controller.cpp, with no thread of a worker
-- running in between.
use distributed_matrix_multi.Prelude.{
  ℕ, ◌+◌, ◌/◌, ◌%◌, ◌≤◌, ◌<◌, ◌≡◌, refl, true, false, Option, none, some, List, [], ◌∷◌, ◌>>=◌,
  arith, ◌==◌, if◌then◌else◌, Bool-cases, inl, inr, total, same, length, All,
}

-- The loop of the wait for worker `worker`: its new status, and what is still to come.
unfoldable pub await_status : ℕ → List (Option ℕ) → Option (ℕ × List (Option ℕ))
await_status worker [] = none
await_status worker (none ∷ received) = some (2, received)
await_status worker (some b ∷ received) =
    let rest = await_status worker received in
    if b % 128 == worker % 128 then some (b / 128 % 2, received) else rest

-- `worker_status` and `blocked_workers`.
pub record Checked : Type 0 where
  pub worker_status : List ℕ
  pub blocked_workers : ℕ
  pub received : List (Option ℕ)

abbrev pub checked : ℕ → Checked → Checked
checked status c = record c { worker_status = status ∷ c.worker_status }

-- From worker `worker` on; blocked workers are passed over.
unfoldable pub healthcheck_from : ℕ → List ℕ → ℕ → List (Option ℕ) → Option Checked
healthcheck_from worker [] blocked_workers received =
    some (record { worker_status = []; blocked_workers = blocked_workers; received = received })
healthcheck_from worker (status ∷ worker_status) blocked_workers received = elim (status == 2) [
  | true ↦ do
    rest ← healthcheck_from (worker + 1) worker_status blocked_workers received
    some (checked status rest)
  | false ↦ do
    (new_status, later) ← await_status worker received
    rest ←
        healthcheck_from (worker + 1) worker_status
          (if new_status == 2 then blocked_workers + 1 else blocked_workers) later
    some (checked new_status rest)
]

unfoldable pub healthcheck : List ℕ → ℕ → List (Option ℕ) → Option Checked
unfolding healthcheck_from
healthcheck worker_status blocked_workers received =
    healthcheck_from 0 worker_status blocked_workers received

-- How many workers are blocked.
abbrev pub blocked : List ℕ → ℕ
blocked worker_status = total (same 2) worker_status

-- A blocked worker stays blocked, and every status is one of the three.
abbrev pub KeepsBlocked : List ℕ → List ℕ → Type 0
KeepsBlocked [] [] = Unit {0}
KeepsBlocked (s ∷ ss) (s' ∷ ss') = ((s ≡ 2 → s' ≡ 2) × (s' ≤ 2)) × KeepsBlocked ss ss'
KeepsBlocked _ _ = ⊥

pub record Checks (worker_status : List ℕ) (blocked_workers : ℕ) (c : Checked) : Type 0 where
  pub kept : KeepsBlocked worker_status c.worker_status
  pub counted :
      c.blocked_workers + blocked worker_status ≡ blocked_workers + blocked c.worker_status

-- How many calls of `recvfrom` time out.
abbrev pub timeouts : List (Option ℕ) → ℕ
timeouts = total (λ r. elim r [ none ↦ 1 | some _ ↦ 0 ])

-- Waiting for one worker.
pub record Awaits (received : List (Option ℕ)) (result : Option (ℕ × List (Option ℕ)))
    : Type 0 where
  pub status : ℕ
  pub later : List (Option ℕ)
  pub returns : result ≡ some (status, later)
  pub in_range : status ≤ 2
  pub used : timeouts received ≤ timeouts later + 1

await_status-Awaits :
    (worker : ℕ) (received : List (Option ℕ))
    → 0 < timeouts received
    → Awaits received (await_status worker received)
unfolding await_status
await_status-Awaits worker [] h = absurd (omega arith)
await_status-Awaits worker (none ∷ received) h = record {
  status = 2;
  later = received;
  returns = refl;
  in_range = omega arith;
  used = omega arith;
}
await_status-Awaits worker (some b ∷ received) h = elim (Bool-cases (b % 128 == worker % 128)) [
  | inl own ↦ record {
    status = b / 128 % 2;
    later = received;
    returns = rw own refl;
    in_range = omega arith;
    used = omega arith;
  }
  | inr stray ↦
      let rest = await_status-Awaits worker received (omega (arith, h)) in
      record {
        status = rest.status;
        later = rest.later;
        returns = rw stray rest.returns;
        in_range = rest.in_range;
        used = omega (arith, rest.used);
      }
]

-- The result, and what holds of it.
pub record Returns (worker_status : List ℕ) (blocked_workers : ℕ) (result : Option Checked)
    : Type 0 where
  pub state : Checked
  pub returns : result ≡ some state
  pub checks : Checks worker_status blocked_workers state

healthcheck_from-Returns :
    (worker : ℕ) (worker_status : List ℕ) (blocked_workers : ℕ) (received : List (Option ℕ))
    → All (λ s. s ≤ 2) worker_status
    → length worker_status ≤ timeouts received
    → Returns worker_status blocked_workers
        (healthcheck_from worker worker_status blocked_workers received)
unfolding healthcheck_from
healthcheck_from-Returns worker [] n received valid enough = record {
  state = record { worker_status = []; blocked_workers = n; received = received };
  returns = refl;
  checks = record { kept = tt; counted = refl };
}
healthcheck_from-Returns worker (s ∷ ss) n received valid enough = elim (Bool-cases (s == 2)) [
  | inl is_blocked ↦
      let rest =
        healthcheck_from-Returns (worker + 1) ss n received valid.1 (omega (arith, enough)) in
      record {
        state = checked s rest.state;
        returns = ground (arith, rest.returns);
        checks = record {
          kept = ((λ e. e, valid.0), rest.checks.kept);
          counted = omega (arith, rest.checks.counted);
        };
      }
  | inr active ↦
      let got = await_status-Awaits worker received (omega (arith, enough)) in
      let n' = if got.status == 2 then n + 1 else n in
      let rest =
        healthcheck_from-Returns (worker + 1) ss n' got.later valid.1
          (omega (arith, enough, got.used)) in
      record {
        state = checked got.status rest.state;
        returns = ground (arith, got.returns, rest.returns);
        checks = record {
          kept = ((λ e. absurd (ground arith), got.in_range), rest.checks.kept);
          counted = ground (arith, rest.checks.counted);
        };
      }
]

-- A healthcheck ends as soon as `recvfrom` has timed out once for each worker, whatever messages come in
-- between. Then every blocked worker is still blocked, every status is waiting, working or blocked, and
-- `blocked_workers` has grown by the number of workers that were blocked anew.
pub healthcheck-Returns :
    (worker_status : List ℕ) (blocked_workers : ℕ) (received : List (Option ℕ))
    → All (λ s. s ≤ 2) worker_status
    → length worker_status ≤ timeouts received
    → Returns worker_status blocked_workers (healthcheck worker_status blocked_workers received)
unfolding healthcheck
healthcheck-Returns worker_status blocked_workers received valid enough =
    healthcheck_from-Returns 0 worker_status blocked_workers received valid enough
