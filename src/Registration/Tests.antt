-- ===== src/Registration/Tests.antt =====
-- Two workers register at Controller/controller.cpp; a third one comes too late.
use distributed_matrix_multi.Prelude.{ℕ, [], ◌∷◌, arith}
use distributed_matrix_multi.Registration.{Registers, register_workers, register_workers-Registers}

register_workers-Registers_example :
    Registers {A = ℕ} 2 0 (7 ∷ 5 ∷ 9 ∷ []) (register_workers 2 (7 ∷ 5 ∷ 9 ∷ []))
register_workers-Registers_example =
    register_workers-Registers 2 (7 ∷ 5 ∷ 9 ∷ []) (omega arith) (omega arith)
