-- ===== src/Decimal/ReadBack.antt =====
-- Every number whose magnitude is a positive `int` is read back from its print, with or without the
-- length given: `numberToString` and `readNumberFromChars` of Database/database.cpp.
use native.Mathlib.Nat.{zero-add}
use mathlib.Core.Option.{some_inj, none-ne-some}
use distributed_matrix_multi.Prelude.{
  ℕ, zero, suc, ◌+◌, ◌<◌, ◌≡◌, refl, ap, sym, ◌∙◌, subst, ◌⊎◌, inl, inr, true, false, some, [], ◌∷◌,
  ◌++◌, ◌>>=◌, arith, ◌==◌, Bool-cases, ℤ, pos, negsuc, pos_part, neg_part, sub_ℕ, Bytes, codes,
  length, i32_bound,
}
use distributed_matrix_multi.Decimal.Print.{push_digits, number_to_string}
use distributed_matrix_multi.Decimal.Read.{
  add_digit, read_digits, read_number, number, is_digit, minus_one, check_length,
}
use distributed_matrix_multi.Decimal.RoundTrip.{
  NoDigit, IsDigits, Allows, width, length-push_digits, push_digits-IsDigits,
  read_digits-push_digits,
}

read_digits_stop : (len : ℤ) (s : Bytes) (i n : ℕ) → NoDigit s → read_digits len s i n ≡ some (n, i)
unfolding read_digits
read_digits_stop len [] i n h = refl
read_digits_stop len (c ∷ s) i n h = rw h refl

abbrev pub digits_of : ℕ → Bytes
digits_of n = push_digits 20 n []

-- The digits of a number, read to the end.
pub read_digits-digits_of :
    (len : ℤ) (n i : ℕ) (s : Bytes)
    → n < i32_bound
    → Allows len (i + length (digits_of n))
    → NoDigit s
    → read_digits len (digits_of n ++ s) i 0 ≡ some (n, i + length (digits_of n))
read_digits-digits_of len n i s h a d =
    let same : length (digits_of n) ≡ width 20 n = omega (arith, length-push_digits 20 n []) in
    rw same (
      read_digits-push_digits len 20 n i [] s (omega arith) h (λ j l. a j (omega (arith, same)))
      ∙ read_digits_stop len s (i + width 20 n) n d)

-- A print begins with a digit.
pub data StartsWithDigit (s : Bytes) : Type 0 where
  starts : (c : ℕ) (cs : Bytes) → s ≡ c ∷ cs → is_digit c ≡ true → StartsWithDigit s

starts_of : (s : Bytes) → IsDigits s → 0 < length s → StartsWithDigit s
starts_of [] h l = elim l [ ]
starts_of (c ∷ cs) h l = starts c cs refl h.0

width_pos : (n : ℕ) → 0 < n → 0 < width 20 n
unfolding width
width_pos n h = ground arith

pub digits_of-StartsWithDigit : (n : ℕ) → 0 < n → StartsWithDigit (digits_of n)
digits_of-StartsWithDigit n h =
    starts_of (digits_of n) (push_digits-IsDigits 20 n [] tt)
      (omega (arith, length-push_digits 20 n [], width_pos n h))

-- The length that is given is that of the print, or none is given.
abbrev pub LengthOf : ℤ → ℕ → Type 0
LengthOf len k = (len ≡ minus_one) ⊎ (len ≡ pos k)

pub LengthOf-Allows : (len : ℤ) (k : ℕ) → LengthOf len k → Allows len k
LengthOf-Allows len k h j l = ground arith

check_length_lem : (len x : ℤ) (k : ℕ) → LengthOf len k → check_length len x k ≡ number x k
check_length_lem len x k h = ground arith

read_number-digit :
    (len : ℤ) (t s : Bytes) (n k : ℕ)
    → StartsWithDigit t
    → read_digits len (t ++ s) 0 0 ≡ some (n, k)
    → read_number len (t ++ s) ≡ some (check_length len (pos n) k)
unfolding read_number
read_number-digit len t s n k (starts c cs e d) r =
    let no_sign : (c == b'-') ≡ false = ground arith in rw e (rw (no_sign, rw e at r, ◌>>=◌) refl)

-- A number whose magnitude is a positive `int`, in the type of the given bound.
abbrev pub IsReadable : ℤ → Type 0
IsReadable x = (pos_part x < i32_bound) × (neg_part x < i32_bound)

pub number_to_string-pos :
    (bound n : ℕ) → number_to_string bound (pos (suc n)) ≡ some (digits_of (suc n))
unfolding number_to_string
number_to_string-pos bound n = refl

pub number_to_string-negsuc :
    (bound n : ℕ) {t : Bytes}
    → number_to_string bound (negsuc n) ≡ some t
    → b'-' ∷ digits_of (suc n) ≡ t
number_to_string-negsuc bound n {t} e = elim (Bool-cases (suc n == bound)) [
  | inl least ↦ absurd (none-ne-some t (unfold number_to_string in rw least at e))
  | inr other ↦ some_inj.0 (unfold number_to_string in rw other at e)
]

read_zero :
    (len : ℤ) (s : Bytes)
    → LengthOf len 1
    → NoDigit s
    → read_number len (codes "0" ++ s) ≡ some (number (pos 0) 1)
unfolding read_number read_digits add_digit
read_zero len s l d =
    let allowed = LengthOf-Allows len 1 l 0 (omega arith) in
    rw (allowed, read_digits_stop len s 1 0 d, ◌>>=◌, check_length_lem len (pos 0) 1 l) refl

read_positive :
    (len : ℤ) (n : ℕ) (s : Bytes)
    → suc n < i32_bound
    → LengthOf len (length (digits_of (suc n)))
    → NoDigit s
    → read_number len (digits_of (suc n) ++ s)
      ≡ some (number (pos (suc n)) (length (digits_of (suc n))))
read_positive len n s h l d =
    let k = length (digits_of (suc n)) in
    let allowed = LengthOf-Allows len k l in
    read_number-digit len (digits_of (suc n)) s (suc n) k
      (digits_of-StartsWithDigit (suc n) (omega arith))
      (read_digits-digits_of len (suc n) 0 s h (λ j lt. allowed j (omega arith)) d
        ∙ ap (λ i. some (suc n, i)) (zero-add k))
    ∙ ap some (check_length_lem len (pos (suc n)) k l)

read_negative :
    (len : ℤ) (n : ℕ) (s : Bytes)
    → suc n < i32_bound
    → LengthOf len (suc (length (digits_of (suc n))))
    → NoDigit s
    → read_number len ((b'-' ∷ digits_of (suc n)) ++ s)
      ≡ some (number (negsuc n) (suc (length (digits_of (suc n)))))
unfolding read_number
read_negative len n s h l d =
    let k = length (digits_of (suc n)) in
    let allowed = LengthOf-Allows len (suc k) l in
    let minus : sub_ℕ 0 (suc n) ≡ negsuc n = ground arith in
    let count : 1 + k ≡ suc k = omega arith in
    rw
      (
        read_digits-digits_of len (suc n) 1 s h (λ j lt. allowed j (omega arith)) d,
        ◌>>=◌,
        minus,
        count,
      )
      (ap some (check_length_lem len (negsuc n) (suc k) l))

-- What `numberToString` prints, followed by anything but a digit, is read by `readNumberFromChars` as
-- the same number over the same characters, if the number and its negation are `int`s and the length
-- that is given, if any, is that of the print.
pub read_number-number_to_string :
    (bound : ℕ) (len x : ℤ) (t s : Bytes)
    → IsReadable x
    → number_to_string bound x ≡ some t
    → LengthOf len (length t)
    → NoDigit s
    → read_number len (t ++ s) ≡ some (number x (length t))
read_number-number_to_string bound len (pos zero) t s r e l d =
    let printed : codes "0" ≡ t = some_inj.0 (unfold number_to_string in e) in
    let read = λ (l' : LengthOf len (length (codes "0"))). read_zero len s l' d in
    subst
      (λ u. LengthOf len (length u) → read_number len (u ++ s) ≡ some (number (pos 0) (length u)))
      printed read l
read_number-number_to_string bound len (pos (suc n)) t s r e l d =
    let printed : digits_of (suc n) ≡ t = some_inj.0 (sym (number_to_string-pos bound n) ∙ e) in
    subst
      (λ u.
        LengthOf len (length u) → read_number len (u ++ s) ≡ some (number (pos (suc n)) (length u)))
      printed (λ l'. read_positive len n s r.0 l' d) l
read_number-number_to_string bound len (negsuc n) t s r e l d =
    subst
      (λ u.
        LengthOf len (length u) → read_number len (u ++ s) ≡ some (number (negsuc n) (length u)))
      (number_to_string-negsuc bound n e) (λ l'. read_negative len n s r.1 l' d) l
