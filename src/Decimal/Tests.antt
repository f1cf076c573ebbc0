-- ===== src/Decimal/Tests.antt =====
-- A number as `numberToString` and `readNumberFromChars` of Database/database.cpp see it.
use distributed_matrix_multi.Prelude.{◌≡◌, refl, inl, some, ◌++◌, arith, negsuc, codes, i32_bound}
use distributed_matrix_multi.Decimal.Print.{number_to_string}
use distributed_matrix_multi.Decimal.Read.{read_number, number, minus_one}
use distributed_matrix_multi.Decimal.ReadBack.{read_number-number_to_string}

minus_forty : number_to_string i32_bound (negsuc 39) ≡ some (codes "-40")
unfolding number_to_string
minus_forty = refl

read_number-number_to_string_example :
    read_number minus_one (codes "-40" ++ codes "\r\n") ≡ some (number (negsuc 39) 3)
read_number-number_to_string_example =
    read_number-number_to_string i32_bound minus_one (negsuc 39) (codes "-40") (codes "\r\n")
      (omega arith, omega arith) minus_forty (inl refl) refl
