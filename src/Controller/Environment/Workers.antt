-- ===== src/Controller/Environment/Workers.antt =====
-- `readNumberWorkers`, of which Controller/controller.cpp and Worker/worker.cpp have a copy each: unlike
-- `readMatrixSize` it only reports a character that is no digit, and goes on.
use distributed_matrix_multi.Prelude.{
  ℕ, ◌-◌, ◌≡◌, refl, ap, ◌∙◌, true, Option, none, some, [], ◌∷◌, ◌>>=◌, arith, ltb, if◌then◌else◌,
  ℤ, pos, sub_ℕ, ◌+ℤ◌, ◌*ℤ◌, fits, i32_bound, mul_i32, Bytes,
}
use distributed_matrix_multi.Decimal.Read.{is_digit, add_digit}
use distributed_matrix_multi.Decimal.RoundTrip.{IsDigits}
use distributed_matrix_multi.Controller.Environment.{read_value, read_matrix_size}

-- The value of a character, which is a signed byte, minus that of the character 0.
abbrev pub digit_value : ℕ → ℤ
digit_value c = if ltb c 128 then sub_ℕ c 48 else sub_ℕ c 304

abbrev pub add_i32 : ℤ → ℤ → Option ℤ
add_i32 a b = let s = a +ℤ b in if fits i32_bound s then some s else none

-- The loop up to the zero byte; `none` is an overflow of `int`.
unfoldable pub read_number_from : Bytes → ℤ → Option ℤ
read_number_from [] number_workers = some number_workers
read_number_from (c ∷ text) number_workers = do
  tens ← mul_i32 number_workers (pos 10)
  number ← add_i32 tens (digit_value c)
  read_number_from text number

-- On what `getenv` returns.
unfoldable pub read_number_workers : Option Bytes → Option ℤ
unfolding read_number_from
read_number_workers none = some (pos 1)
read_number_workers (some text) = read_number_from text (pos 0)

bind_assoc :
    {A B C : Type 0} (m : Option A) (f : A → Option B) (g : B → Option C)
    → (m >>= λ a. f a >>= g) ≡ (m >>= f >>= g)
bind_assoc none f g = refl
bind_assoc (some a) f g = refl

-- A digit is added as `readMatrixSize` adds it, and overflows where it does.
add_digit-add_i32 :
    (number c : ℕ)
    → is_digit c ≡ true
    → (mul_i32 (pos number) (pos 10) >>= λ tens. add_i32 tens (digit_value c))
      ≡ (add_digit number (c - 48) >>= λ n. some (pos n))
unfolding add_digit mul_i32 ◌+ℤ◌ ◌*ℤ◌
add_digit-add_i32 number c d = ground arith

continued :
    (o : Option ℕ) (f : ℤ → Option ℤ) (g : ℕ → Option ℕ)
    → ((n : ℕ) → f (pos n) ≡ (g n >>= λ k. some (pos k)))
    → ((o >>= λ n. some (pos n)) >>= f) ≡ ((o >>= g) >>= λ k. some (pos k))
continued none f g h = refl
continued (some n) f g h = h n

read_number_from-read_value :
    (text : Bytes) (value : ℕ)
    → IsDigits text
    → read_number_from text (pos value) ≡ (read_value text value >>= λ n. some (pos n))
unfolding read_number_from read_value
read_number_from-read_value [] value h = refl
read_number_from-read_value (c ∷ text) value h =
    bind_assoc (mul_i32 (pos value) (pos 10)) (λ tens. add_i32 tens (digit_value c))
      (read_number_from text)
    ∙ (ap (λ m. m >>= read_number_from text) (add_digit-add_i32 value c h.0)
        ∙ rw h.0 (
            continued (add_digit value (c - 48)) (read_number_from text) (read_value text)
              (λ n. read_number_from-read_value text n h.1)))

-- On digits alone the two programs read the number of workers as the controller reads the size of a
-- matrix, up to an overflow of `int`: `readNumberWorkers` and `readMatrixSize` agree.
pub read_number_workers-read_matrix_size :
    (text : Bytes)
    → IsDigits text
    → read_number_workers (some text) ≡ (read_matrix_size (some text) >>= λ n. some (pos n))
unfolding read_number_workers read_matrix_size
read_number_workers-read_matrix_size text h = read_number_from-read_value text 0 h
