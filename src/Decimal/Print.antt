-- ===== src/Decimal/Print.antt =====
-- `numberToString`, in the copy of Database/database.cpp (Worker/worker.cpp and
-- Database/ResultMatrix.h have the same text for `int` and `long long`).
use distributed_matrix_multi.Prelude.{
  ℕ, zero, suc, ◌+◌, ◌/◌, ◌%◌, Option, none, some, [], ◌∷◌, ◌++◌, ltb, ◌==◌, if◌then◌else◌, ℤ, pos,
  negsuc, Bytes, codes,
}

-- `while (number > 0)`: the digits go on a stack, the last digit first, so that its top is the first
-- digit; at most 20 rounds, enough for every `long long`.
unfoldable pub push_digits : ℕ → ℕ → Bytes → Bytes
push_digits zero number reverse_number = reverse_number
push_digits (suc rounds) number reverse_number =
    let rest = push_digits rounds (number / 10) ((number % 10 + b'0') ∷ reverse_number) in
    if ltb 0 number then rest else reverse_number

abbrev pub max_digits : ℕ
max_digits = 20

unfoldable pub magnitude_to_string : ℕ → Bytes
unfolding push_digits
magnitude_to_string number = push_digits max_digits number []

-- For a signed type whose least value is -bound: `number *= -1` overflows at the least value.
unfoldable pub number_to_string : ℕ → ℤ → Option Bytes
unfolding magnitude_to_string
number_to_string bound (pos zero) = some (codes "0")
number_to_string bound (pos (suc n)) = some (magnitude_to_string (suc n))
number_to_string bound (negsuc n) =
    if suc n == bound then none else some (codes "-" ++ magnitude_to_string (suc n))
