-- ===== src/Controller/MatrixData/Plan/Float.antt =====
-- The comparison `(float(remaining_chunk_size) / chunk_size) < MAX_REMAINDER_FRACTION` of
-- Controller/MatrixData.h, in IEEE binary32 with rounding to nearest, ties to even.
use distributed_matrix_multi.Prelude.{
  ℕ, zero, suc, ◌+◌, ◌*◌, ◌/◌, ◌%◌, ◌^◌, ◌≤◌, ◌<◌, ◌≡◌, ◌↔◌, Bool, true, ◌&&◌, ◌||◌, arith, lt→ltb,
  leb, ltb, ◌==◌, if◌then◌else◌,
}

-- The number of low bits that do not fit into a significand of 24 bits.
unfoldable pub excess_bits : ℕ → ℕ → ℕ
excess_bits zero n = 0
excess_bits (suc fuel) n =
    let more = excess_bits fuel (n / 2) in if ltb n (2 ^ 24) then 0 else more + 1

-- `n / unit`, rounded to the nearest whole number and at a tie to the even one
unfoldable pub round_even : ℕ → ℕ → ℕ
round_even n unit =
    let q = n / unit in
    let twice = 2 * (n % unit) in
    if ltb unit twice || (twice == unit && q % 2 == 1) then q + 1 else q

-- The conversion of a `long long` that is not negative to `float`, as the number it stands for.
unfoldable pub to_float : ℕ → ℕ
unfolding excess_bits round_even
to_float n =
    if ltb n (2 ^ 24) then n else (let unit = 2 ^ excess_bits 64 n in round_even n unit * unit)

-- `float(1) / 7` is 9586981 / 2^26, the float next below it is 9586980 / 2^26, and the number halfway
-- is 19173961 / 2^27. The quotient is rounded to a float below `float(1) / 7` exactly when it is at
-- most halfway (a tie goes to the even significand, the lower one).
unfoldable pub below_fraction : ℕ → ℕ → Bool
unfolding to_float
below_fraction remaining chunk_size =
    leb (to_float remaining * 2 ^ 27) (19173961 * to_float chunk_size)

to_float_exact : (n : ℕ) → n < 2 ^ 24 → to_float n ≡ n
unfolding to_float
to_float_exact n h = rw (lt→ltb n (2 ^ 24) h)

leb_iff : (a b : ℕ) → (leb a b ≡ true) ↔ (a ≤ b)
leb_iff a b = ground arith

-- For a chunk size below 2^24 and a remainder below it, the test in `float` is true exactly when seven
-- times the remainder is less than the chunk size.
pub below_fraction_iff :
    (remaining chunk_size : ℕ)
    → remaining < chunk_size
    → chunk_size < 2 ^ 24
    → (below_fraction remaining chunk_size ≡ true) ↔ (7 * remaining < chunk_size)
unfolding below_fraction
below_fraction_iff r c h k =
    let er = to_float_exact r (omega arith) in
    let ec = to_float_exact c k in
    rw (er, ec)
      ((λ e. let le = (leb_iff _ _).0 e in omega arith), (λ e. (leb_iff _ _).1 (omega arith)))
