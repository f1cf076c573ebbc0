-- ===== src/Decimal/Read.antt =====
-- `readNumberFromChars` of Database/database.cpp. The text is what is left of the receive buffer from
-- `input` on; `none` is a read behind the buffer or an overflow of `int`.
use distributed_matrix_multi.Prelude.{
  ℕ, ◌+◌, ◌-◌, ◌*◌, Bool, not, ◌&&◌, Option, none, some, [], ◌∷◌, ◌>>=◌, leb, ltb, ◌==◌,
  if◌then◌else◌, ℤ, pos, negsuc, pos_part, neg_part, ltb_ℤ, sub_ℕ, Bytes, i32_bound,
}

infix 50 ◌==ℤ◌
abbrev pub ◌==ℤ◌ : ℤ → ℤ → Bool
a ==ℤ b = (pos_part a == pos_part b) && (neg_part a == neg_part b)

abbrev pub minus_one : ℤ
minus_one = negsuc 0

abbrev pub is_digit : ℕ → Bool
is_digit c = leb b'0' c && leb c b'9'

-- `length != -1 && i > length`
abbrev pub past_length : ℤ → ℕ → Bool
past_length len i = not (len ==ℤ minus_one) && ltb_ℤ len (pos i)

-- `number * 10 + digit` in `int`
unfoldable pub add_digit : ℕ → ℕ → Option ℕ
add_digit number digit =
    if ltb (number * 10 + digit) i32_bound then some (number * 10 + digit) else none

-- The loop: the number, and the characters that were read.
unfoldable pub read_digits : ℤ → Bytes → ℕ → ℕ → Option (ℕ × ℕ)
unfolding add_digit
read_digits len [] i number = some (number, i)
read_digits len (c ∷ input) i number =
    let rest = add_digit number (c - b'0') >>= λ n. read_digits len input (i + 1) n in
    if is_digit c then (if past_length len i then some (number, i) else rest) else some (number, i)

-- What the function returns: the number with how many characters it has, or -1.
pub data ReadNumber : Type 0 where
  number : ℤ → ℕ → ReadNumber
  wrong_length : ReadNumber

abbrev pub check_length : ℤ → ℤ → ℕ → ReadNumber
check_length len value i =
    if not (len ==ℤ minus_one) && not (len ==ℤ pos i) then wrong_length else number value i

unfoldable pub read_number : ℤ → Bytes → Option ReadNumber
unfolding read_digits
read_number len [] = none
read_number len (c ∷ input) =
    if c == b'-'
    then (do (n, i) ← read_digits len input 1 0; some (check_length len (sub_ℕ 0 n) i))
    else (do (n, i) ← read_digits len (c ∷ input) 0 0; some (check_length len (pos n) i))
