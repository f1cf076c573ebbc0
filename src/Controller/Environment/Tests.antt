-- ===== src/Controller/Environment/Tests.antt =====
-- Two settings that `readMatrixSize` of Controller/controller.cpp takes for 1, and numbers of workers.
use distributed_matrix_multi.Prelude.{◌≡◌, refl, none, some, pos, codes, mul_i32, ◌+ℤ◌, ◌*ℤ◌, ◌>>=◌}
use distributed_matrix_multi.Controller.Environment.{read_matrix_size}
use distributed_matrix_multi.Controller.Environment.Workers.{
  read_number_workers, read_number_workers-read_matrix_size,
}

not_set : read_matrix_size none ≡ some 1
unfolding read_matrix_size
not_set = refl

negative : read_matrix_size (some (codes "-5")) ≡ some 1
unfolding read_matrix_size
negative = refl

-- A letter in the number of workers is counted by its code: "2x" is 2 * 10 + 72.
letter : read_number_workers (some (codes "2x")) ≡ some (pos 92)
unfolding read_number_workers mul_i32 ◌+ℤ◌ ◌*ℤ◌
letter = refl

read_number_workers-read_matrix_size_example :
    read_number_workers (some (codes "12"))
    ≡ (read_matrix_size (some (codes "12")) >>= λ n. some (pos n))
read_number_workers-read_matrix_size_example =
    read_number_workers-read_matrix_size (codes "12") (refl, (refl, tt))
