-- ===== src/Healthcheck/Tests.antt =====
-- Worker 130 of Controller/controller.cpp, whose number does not fit into seven bits, answers behind a
-- message of worker 4.
use distributed_matrix_multi.Prelude.{◌≡◌, refl, none, some, [], ◌∷◌, arith}
use distributed_matrix_multi.Healthcheck.Round.{
  Returns, await_status, healthcheck, healthcheck-Returns,
}

-- Worker 0 answers behind a message of worker 5, worker 1 is blocked, and worker 2 does not answer.
healthcheck-Returns_example :
    Returns
      (0 ∷ 2 ∷ 1 ∷ [])
      1
      (healthcheck (0 ∷ 2 ∷ 1 ∷ []) 1 (some 133 ∷ some 128 ∷ none ∷ none ∷ none ∷ []))
healthcheck-Returns_example =
    healthcheck-Returns (0 ∷ 2 ∷ 1 ∷ []) 1 (some 133 ∷ some 128 ∷ none ∷ none ∷ none ∷ [])
      (omega arith, (omega arith, (omega arith, tt))) (omega arith)

healthcheck_run :
    healthcheck (0 ∷ 2 ∷ 1 ∷ []) 1 (some 133 ∷ some 128 ∷ none ∷ none ∷ none ∷ [])
    ≡ some (record {
      worker_status = 1 ∷ 2 ∷ 2 ∷ [];
      blocked_workers = 2;
      received = none ∷ none ∷ [];
    })
unfolding healthcheck await_status
healthcheck_run = refl
