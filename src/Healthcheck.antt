-- ===== src/Healthcheck.antt =====
-- The healthcheck between `healthcheck` of Controller/controller.cpp and `healthcheck` of
-- Worker/worker.cpp: one byte each way, with a status bit and seven bits of the worker's number. A byte
-- is the number of its eight bits, so that `b & 0x7F` is `b % 128`, and `(b & 0x80) >> 7` is `b / 128`.
mod Tests
pub mod Round
use mathlib.Core.Option.{none-ne-some}
use distributed_matrix_multi.Prelude.{
  ℕ, zero, suc, ◌+◌, ◌*◌, ◌/◌, ◌%◌, ◌≡◌, refl, sym, ◌↔◌, ◌≢◌, inl, inr, Bool, false, Option, none,
  some, List, [], ◌∷◌, arith, ◌==◌, if◌then◌else◌, Bool-cases,
}

-- HEALTHCHECK_MSG_STATUS | (HEALTHCHECK_MSG_WORKERNR & (worker % HEALTHCHECK_MSG_WORKERNR)), in both
-- programs.
unfoldable pub request_byte : ℕ → ℕ
request_byte worker = 128 + worker % 127 % 128

-- (HEALTHCHECK_MSG_STATUS & (worker_status << 7)) | (HEALTHCHECK_MSG_WORKERNR & (worker_nr % 128))
unfoldable pub response_byte : ℕ → ℕ → ℕ
response_byte worker_status worker_nr = worker_status % 2 * 128 + worker_nr % 128 % 128

-- The worker's side: a request that is not its own is only reported.
unfoldable pub answer_healthcheck : ℕ → ℕ → ℕ → Option ℕ
unfolding request_byte response_byte
answer_healthcheck worker_status worker_nr received =
    if received == request_byte worker_nr
    then some (response_byte worker_status worker_nr)
    else none

-- The controller's side: what `receiveMsgTimeout` gives, one after the other, where `none` is a timeout;
-- the new status, if the loop ends with these.
unfoldable pub await_response : ℕ → List (Option ℕ) → Option ℕ
await_response worker [] = none
await_response worker (none ∷ received) = some 2
await_response worker (some b ∷ received) =
    let rest = await_response worker received in
    if b % 128 == worker % 128 then some (b / 128 % 2) else rest

-- A message that the controller passes over.
abbrev pub IsStray : ℕ → Option ℕ → Type 0
IsStray worker none = ⊥
IsStray worker (some b) = (b % 128 == worker % 128) ≡ false

-- A worker takes a request for its own exactly when the two numbers are the same modulo 127.
pub answer_healthcheck_iff :
    (worker_status worker_nr worker : ℕ)
    → (answer_healthcheck worker_status worker_nr (request_byte worker) ≢ none)
      ↔ (worker % 127 ≡ worker_nr % 127)
unfolding answer_healthcheck
answer_healthcheck_iff worker_status worker_nr worker =
    elim (Bool-cases (128 + worker % 127 % 128 == 128 + worker_nr % 127 % 128)) [
      | inl same ↦
          let equal : worker % 127 ≡ worker_nr % 127 = ground arith in
          (λ answered. equal, λ e nothing. none-ne-some _ (sym (rw same at nothing)))
      | inr differ ↦ (λ answered. absurd (answered (rw differ refl)), λ e. absurd (ground arith))
    ]
