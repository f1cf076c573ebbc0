-- ===== src/Decimal/Printed.antt =====
-- The shape of what `numberToString` of Database/database.cpp and Worker/worker.cpp writes.
use mathlib.Core.Option.{some_inj}
use distributed_matrix_multi.Prelude.{
  ℕ, zero, suc, ◌/◌, ◌≤◌, ◌<◌, ◌≡◌, refl, sym, ◌∙◌, subst, false, some, [], ◌∷◌, arith, ltb, ◌==◌,
  i32_bound, Bool-cases, inl, inr, ℤ, pos, negsuc, neg_part, Bytes, codes, length,
}
use distributed_matrix_multi.Decimal.Print.{number_to_string}
use distributed_matrix_multi.Decimal.RoundTrip.{width, length-push_digits}
use distributed_matrix_multi.Decimal.ReadBack.{
  digits_of, StartsWithDigit, starts, digits_of-StartsWithDigit, number_to_string-pos,
  number_to_string-negsuc, IsReadable,
}

-- Not empty, not longer than a sign and 20 digits, and it does not begin with a line ending.
pub data Printed (t : Bytes) : Type 0 where
  printed : (c : ℕ) (cs : Bytes) → t ≡ c ∷ cs → (c == b'\r') ≡ false → length t ≤ 21 → Printed t

pub Printed-length : (t : Bytes) → Printed t → length t ≤ 21
Printed-length t (printed c cs e d l) = l

width-AtMost : (rounds n : ℕ) → width rounds n ≤ rounds
unfolding width
width-AtMost zero n = omega arith
width-AtMost (suc rounds) n = elim (Bool-cases (ltb 0 n)) [
  | inl more ↦ rw more (omega (arith, width-AtMost rounds (n / 10)))
  | inr done ↦ rw done (omega arith)
]

length-digits_of : (n : ℕ) → length (digits_of n) ≤ 20
length-digits_of n = omega (arith, length-push_digits 20 n [], width-AtMost 20 n)

digits-Printed : (t : Bytes) → StartsWithDigit t → length t ≤ 20 → Printed t
digits-Printed t (starts c cs e d) h = printed c cs e (ground arith) (omega arith)

pub number_to_string-Printed :
    (bound : ℕ) (x : ℤ) (t : Bytes) → number_to_string bound x ≡ some t → Printed t
number_to_string-Printed bound (pos zero) t e =
    let zero_text : codes "0" ≡ t = some_inj.0 (unfold number_to_string in e) in
    subst Printed zero_text (printed b'0' [] refl refl (omega arith))
number_to_string-Printed bound (pos (suc n)) t e =
    subst Printed (some_inj.0 (sym (number_to_string-pos bound n) ∙ e)) (
      digits-Printed (digits_of (suc n)) (digits_of-StartsWithDigit (suc n) (omega arith))
        (length-digits_of (suc n)))
number_to_string-Printed bound (negsuc n) t e =
    subst Printed (number_to_string-negsuc bound n e)
      (printed b'-' (digits_of (suc n)) refl refl (omega (arith, length-digits_of (suc n))))

-- Only the least value of a type has no print.
pub number_to_string_below :
    (bound : ℕ) (x : ℤ) → neg_part x < bound → (t : Bytes) × (number_to_string bound x ≡ some t)
unfolding number_to_string
number_to_string_below bound (pos zero) h = (codes "0", refl)
number_to_string_below bound (pos (suc n)) h = (digits_of (suc n), refl)
number_to_string_below bound (negsuc n) h =
    let other : (suc n == bound) ≡ false = ground arith in (b'-' ∷ digits_of (suc n), rw other refl)

pub number_to_string_total :
    (bound : ℕ) (x : ℤ)
    → IsReadable x
    → i32_bound ≤ bound
    → (t : Bytes) × (number_to_string bound x ≡ some t)
number_to_string_total bound x r h = number_to_string_below bound x (omega (arith, r.1))
