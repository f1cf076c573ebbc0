-- ===== src/Registration.antt =====
-- The registration of the workers: `registerWorkers` of Controller/controller.cpp and
-- `registerAtController` of Worker/worker.cpp. An address is what `recvfrom` and `sendto` use.
mod Tests
use mathlib.Core.Option.{some_inj, none-ne-some}
use distributed_matrix_multi.Prelude.{
  ℕ, zero, suc, ◌+◌, ◌*◌, ◌/◌, ◌%◌, ◌≤◌, ◌<◌, ◌≡◌, refl, sym, subst, true, ap, ◌∙◌, Option, none,
  some, List, [], ◌∷◌, ◌>>=◌, >>=-eq-some, arith, ltb, if◌then◌else◌, get_elem?, length, ℤ, pos,
  negsuc, ◌-◌, i32_bound, Bytes,
}
use distributed_matrix_multi.Healthcheck.{request_byte}

-- `writeToBuffer` of an `int`: its four bytes, the lowest first.
unfoldable pub int_bytes : ℕ → Bytes
int_bytes i = (i % 256) ∷ (i / 256 % 256) ∷ (i / 65536 % 256) ∷ (i / 16777216 % 256) ∷ []

-- `*(int *)buf`.
unfoldable pub read_int : Bytes → Option ℤ
read_int (a ∷ b ∷ c ∷ d ∷ rest) =
    let u = a + 256 * b + 65536 * c + 16777216 * d in
    some (if ltb u 2147483648 then pos u else negsuc (4294967296 - u - 1))
read_int _ = none

-- The vectors that the controller fills, and what it sends.
pub record Registered (A : Type 0) : Type 0 where
  pub worker_addr : List A
  pub worker_status : List ℕ
  pub messages : List (A × Bytes)

module _ {A : Type 0} where
  abbrev pub registered : A → ℕ → Registered A → Registered A
  registered address i r = record {
    worker_addr = address ∷ r.worker_addr;
    worker_status = 0 ∷ r.worker_status;
    messages = (address, int_bytes i) ∷ r.messages;
  }

  -- `rounds` workers from number `i` on; the addresses are those of the messages that arrive. `none` means
  -- that the controller still waits.
  unfoldable pub register_from : ℕ → ℕ → List A → Option (Registered A)
  unfolding int_bytes
  register_from zero i arriving =
      some (record { worker_addr = []; worker_status = []; messages = [] })
  register_from (suc rounds) i [] = none
  register_from (suc rounds) i (address ∷ arriving) = do
    rest ← register_from rounds (i + 1) arriving
    some (registered address i rest)

  unfoldable pub register_workers : ℕ → List A → Option (Registered A)
  unfolding register_from
  register_workers number_workers arriving = register_from number_workers 0 arriving

-- What the worker keeps of the reply: its number, and the request of the healthcheck that it expects.
pub record Registration : Type 0 where
  pub worker_nr : ℤ
  pub healthcheck_request_msg : ℕ

abbrev pub keep_number : ℤ → Option Registration
keep_number (pos n) = some (record { worker_nr = pos n; healthcheck_request_msg = request_byte n })
keep_number (negsuc n) = none

-- A negative number, which the controller does not send, is left out.
unfoldable pub register_at_controller : Bytes → Option Registration
unfolding read_int
register_at_controller buf = do worker_nr ← read_int buf; keep_number worker_nr

read_int-int_bytes : (i : ℕ) → i < i32_bound → read_int (int_bytes i) ≡ some (pos i)
unfolding read_int int_bytes
read_int-int_bytes i h =
    let u =
      i % 256
      + 256 * (i / 256 % 256)
      + 65536 * (i / 65536 % 256)
      + 16777216 * (i / 16777216 % 256) in
    let whole : u ≡ i = omega arith in
    let small : ltb i 2147483648 ≡ true = ground arith in rw (whole, small) refl

-- What worker `i` of those at `arriving` has, and the controller of it; the numbers start at `low`.
pub record HasNumber {A : Type 0} (low i : ℕ) (address : A) (r : Registered A) : Type 0 where
  pub reachable : get_elem? r.worker_addr i ≡ some address
  pub waits : get_elem? r.worker_status i ≡ some 0
  pub sent : get_elem? r.messages i ≡ some (address, int_bytes (low + i))
  pub kept :
      register_at_controller (int_bytes (low + i))
      ≡ some
          (record { worker_nr = pos (low + i); healthcheck_request_msg = request_byte (low + i) })

pub record Registers {A : Type 0} (rounds low : ℕ) (arriving : List A)
    (result : Option (Registered A)) : Type 0 where
  pub state : Registered A
  pub returns : result ≡ some state
  pub numbers :
      (i : ℕ) (address : A)
      → i < rounds
      → get_elem? arriving i ≡ some address
      → HasNumber low i address state

register_at_controller-int_bytes :
    (i : ℕ)
    → i < i32_bound
    → register_at_controller (int_bytes i)
      ≡ some (record { worker_nr = pos i; healthcheck_request_msg = request_byte i })
unfolding register_at_controller
register_at_controller-int_bytes i h = rw (read_int-int_bytes i h) refl

module _ {A : Type 0} where
  first-HasNumber :
      (low : ℕ) (address : A) (r : Registered A)
      → low < i32_bound
      → HasNumber low 0 address (registered address low r)
  first-HasNumber low address r h =
      let same : low + 0 ≡ low = omega arith in
      record {
        reachable = refl;
        waits = refl;
        sent = rw same refl;
        kept = rw same (register_at_controller-int_bytes low h);
      }

  next-HasNumber :
      (low i : ℕ) (first address : A) (r : Registered A)
      → HasNumber (low + 1) i address r
      → HasNumber low (suc i) address (registered first low r)
  next-HasNumber low i first address r h =
      let same : low + suc i ≡ low + 1 + i = omega arith in
      record {
        reachable = h.reachable;
        waits = h.waits;
        sent = rw same (h.sent);
        kept = rw same (h.kept);
      }

  register_from-Registers :
      (rounds low : ℕ) (arriving : List A)
      → rounds ≤ length arriving
      → low + rounds ≤ i32_bound
      → Registers rounds low arriving (register_from rounds low arriving)
  unfolding register_from
  register_from-Registers zero low arriving h k = record {
    state = record { worker_addr = []; worker_status = []; messages = [] };
    returns = refl;
    numbers = λ i address lt e. absurd (omega arith);
  }
  register_from-Registers (suc rounds) low [] h k = absurd (omega arith)
  register_from-Registers (suc rounds) low (first ∷ arriving) h k =
      let rest = register_from-Registers rounds (low + 1) arriving (omega arith) (omega arith) in
      record {
        state = registered first low rest.state;
        returns = rw rest.returns refl;
        numbers = λ i address lt e. found rest.state (rest.numbers) i address lt e;
      }
    where
      found :
          (r : Registered A)
          → ((i : ℕ) (address : A)
              → i < rounds
              → get_elem? arriving i ≡ some address
              → HasNumber (low + 1) i address r)
          → (i : ℕ) (address : A) → i < suc rounds
          → get_elem? (first ∷ arriving) i ≡ some address
          → HasNumber low i address (registered first low r)
      found r rest zero address lt e =
          subst (λ a. HasNumber low 0 a (registered first low r)) (some_inj.0 e)
            (first-HasNumber low first r (omega arith))
      found r rest (suc i) address lt e =
          next-HasNumber low i first address r (rest i address (omega arith) e)

  -- When as many registrations arrive as workers are expected, the registration ends. The worker whose
  -- message came as number `i`, counted from zero, is then known under its address and waits for a task,
  -- and it is sent the number `i`, from whose four bytes it reads `i` and makes the request of the
  -- healthcheck that the controller will send to it.
  pub register_workers-Registers :
      (number_workers : ℕ) (arriving : List A)
      → number_workers ≤ length arriving
      → number_workers ≤ i32_bound
      → Registers number_workers 0 arriving (register_workers number_workers arriving)
  unfolding register_workers
  register_workers-Registers number_workers arriving h k =
      register_from-Registers number_workers 0 arriving h (omega arith)
