-- ===== src/Controller/Environment.antt =====
-- `readMatrixSize` of Controller/controller.cpp: a setting from the environment, which is a decimal
-- number without a sign; anything else counts as 1. `none` is an overflow of `int`.
mod Tests
pub mod Workers
use mathlib.Core.Option.{some_inj}
use distributed_matrix_multi.Prelude.{
  ℕ, zero, suc, ◌+◌, ◌-◌, ◌≤◌, ◌<◌, ◌≡◌, refl, sym, ap, subst, ◌∙◌, Bool, true, false, Option, none,
  some, List, [], ◌∷◌, ◌++◌, append-nil, ◌>>=◌, >>=-eq-some, arith, if◌then◌else◌, inl, inr, ℤ, pos,
  Bytes, codes, length, i32_bound, All,
}
use distributed_matrix_multi.Decimal.Print.{number_to_string}
use distributed_matrix_multi.Decimal.Read.{is_digit, add_digit, read_digits, minus_one}
use distributed_matrix_multi.Decimal.RoundTrip.{IsDigits, push_digits-IsDigits}
use distributed_matrix_multi.Decimal.ReadBack.{
  digits_of, number_to_string-pos, read_digits-digits_of, LengthOf-Allows,
}

-- The loop up to the zero byte at the end.
unfoldable pub read_value : Bytes → ℕ → Option ℕ
unfolding add_digit
read_value [] value = some value
read_value (c ∷ text) value =
    let rest = add_digit value (c - b'0') >>= λ next. read_value text next in
    if is_digit c then rest else some 1

-- On what `getenv` returns.
unfoldable pub read_matrix_size : Option Bytes → Option ℕ
unfolding read_value
read_matrix_size none = some 1
read_matrix_size (some text) = read_value text 0

-- On digits alone the loop is that of `readNumberFromChars`.
read_value-read_digits :
    (text : Bytes) (i value n k : ℕ)
    → IsDigits text
    → read_digits minus_one text i value ≡ some (n, k)
    → read_value text value ≡ some n
unfolding read_value read_digits
read_value-read_digits [] i value n k h e = ap (λ r. some r.0) (some_inj.0 e)
read_value-read_digits (c ∷ text) i value n k h e =
    let (next, added, more) = >>=-eq-some (add_digit value (c - b'0')) _ (rw h.0 at e) in
    rw (h.0, added, ◌>>=◌) (read_value-read_digits text (i + 1) next n k h.1 more)

-- A number below 2^31, written in decimal as `numberToString` does, is read back as it was.
pub read_matrix_size-number_to_string :
    (bound n : ℕ) (text : Bytes)
    → n < i32_bound
    → number_to_string bound (pos n) ≡ some text
    → read_matrix_size (some text) ≡ some n
unfolding read_matrix_size
read_matrix_size-number_to_string bound zero text h e =
    let zero_text : codes "0" ≡ text = some_inj.0 (unfold number_to_string in e) in
    subst (λ u. read_value u 0 ≡ some 0) zero_text (unfold read_value add_digit in refl)
read_matrix_size-number_to_string bound (suc n) text h e =
    let digits = digits_of (suc n) in
    let read =
      read_digits-digits_of minus_one (suc n) 0 [] h
        (LengthOf-Allows minus_one (0 + length digits) (inl refl)) tt in
    subst (λ u. read_value u 0 ≡ some (suc n)) (some_inj.0 (sym (number_to_string-pos bound n) ∙ e))
      (read_value-read_digits digits 0 0 (suc n) (0 + length digits)
        (push_digits-IsDigits 20 (suc n) [] tt)
        (subst (λ u. read_digits minus_one u 0 0 ≡ some (suc n, 0 + length digits))
          (append-nil digits) read))
