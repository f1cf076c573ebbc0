-- ===== src/Decimal/RoundTrip.antt =====
-- What `numberToString` writes is read back by `readNumberFromChars` of Database/database.cpp.
use distributed_matrix_multi.Prelude.{
  ℕ, zero, suc, ◌+◌, ◌-◌, ◌*◌, ◌/◌, ◌%◌, ◌^◌, ◌<◌, ◌≡◌, refl, ap, ◌∙◌, true, false, [], ◌∷◌, ◌++◌,
  arith, ltb, if◌then◌else◌, Bool-cases, inl, inr, ℤ, Bytes, length, i32_bound, All,
}
use native.Mathlib.Nat.{add-zero, add_assoc, pow-suc}
use distributed_matrix_multi.Decimal.Print.{push_digits}
use distributed_matrix_multi.Decimal.Read.{add_digit, read_digits, is_digit, past_length}

-- The text that follows a number does not go on with a digit.
abbrev pub NoDigit : Bytes → Type 0
NoDigit [] = Unit
NoDigit (c ∷ s) = is_digit c ≡ false

-- The number of rounds, which is the number of digits.
unfoldable pub width : ℕ → ℕ → ℕ
width zero n = 0
width (suc rounds) n = let rest = width rounds (n / 10) in if ltb 0 n then rest + 1 else 0

pub length-push_digits :
    (rounds n : ℕ) (out : Bytes) → length (push_digits rounds n out) ≡ width rounds n + length out
unfolding push_digits width
length-push_digits zero n out = omega arith
length-push_digits (suc rounds) n out = elim (Bool-cases (ltb 0 n)) [
  | inr done ↦ rw done (omega arith)
  | inl more ↦ rw more (omega (arith, length-push_digits rounds (n / 10) ((n % 10 + b'0') ∷ out)))
]

abbrev pub IsDigits : Bytes → Type 0
IsDigits = All (λ c. is_digit c ≡ true)

digit_IsDigit : (n : ℕ) → is_digit (n % 10 + b'0') ≡ true
digit_IsDigit n = ground arith

pub push_digits-IsDigits :
    (rounds n : ℕ) (out : Bytes) → IsDigits out → IsDigits (push_digits rounds n out)
unfolding push_digits
push_digits-IsDigits zero n out h = h
push_digits-IsDigits (suc rounds) n out h = elim (Bool-cases (ltb 0 n)) [
  | inr done ↦ rw done h
  | inl more ↦
      rw more (push_digits-IsDigits rounds (n / 10) ((n % 10 + b'0') ∷ out) (digit_IsDigit n, h))
]

-- The limit on the length lets the first `k` characters pass.
abbrev pub Allows : ℤ → ℕ → Type 0
Allows len k = (j : ℕ) → j < k → past_length len j ≡ false

read_digits-step :
    (len : ℤ) (n i : ℕ) (s : Bytes)
    → past_length len i ≡ false
    → n < i32_bound
    → read_digits len ((n % 10 + b'0') ∷ s) i (n / 10) ≡ read_digits len s (i + 1) n
unfolding read_digits add_digit
read_digits-step len n i s h k =
    let back : n / 10 * 10 + (n % 10 + b'0' - b'0') ≡ n = omega arith in
    let fits : ltb n i32_bound ≡ true = ground arith in rw (digit_IsDigit n, h, back, fits) refl

-- Reading the digits of `n` comes to `n`, and then goes on with what stands behind them.
pub read_digits-push_digits :
    (len : ℤ) (rounds n i : ℕ) (out s : Bytes)
    → n < 10 ^ rounds
    → n < i32_bound
    → Allows len (i + width rounds n)
    → read_digits len (push_digits rounds n out ++ s) i 0
      ≡ read_digits len (out ++ s) (i + width rounds n) n
unfolding push_digits width
read_digits-push_digits len zero n i out s h k a =
    let zero_n : n ≡ 0 = omega arith in rw (zero_n, add-zero) refl
read_digits-push_digits len (suc rounds) n i out s h k a = elim (Bool-cases (ltb 0 n)) [
  | inr done ↦ let zero_n : n ≡ 0 = ground arith in rw (done, zero_n, add-zero) refl
  | inl more ↦
      let w = width rounds (n / 10) in
      let small : n / 10 < 10 ^ rounds = omega (arith, pow-suc 10 rounds) in
      let allowed = rw more at a in
      let more_digits =
        read_digits-push_digits len rounds (n / 10) i ((n % 10 + b'0') ∷ out) s small (omega arith)
          (λ j l. allowed j (omega arith)) in
      rw more (
        more_digits
        ∙ read_digits-step len n (i + w) (out ++ s) (allowed (i + w) (omega arith)) k
        ∙ ap (λ j. read_digits len (out ++ s) j n) (add_assoc i w 1))
]
