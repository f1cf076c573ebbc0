-- ===== src/Database/Server/Posts.antt =====
-- The request of a worker, from `writeToDatabase` of Worker/worker.cpp to the map of result matrices of
-- Database/database.cpp.
use distributed_matrix_multi.Prelude.{
  ◌+◌, ◌<◌, ◌≡◌, refl, ap, ◌∙◌, inl, inr, true, false, some, [], ◌∷◌, ◌++◌, ◌>>=◌, arith,
  if◌then◌else◌, Bool-cases, ℤ, pos, eq_of_parts, Bytes, i32_bound, AtMost,
}
use distributed_matrix_multi.Decimal.Read.{◌==ℤ◌}
use distributed_matrix_multi.Decimal.RoundTrip.{NoDigit}
use distributed_matrix_multi.Worker.Handler.Defs.{HttpTask}
use distributed_matrix_multi.Worker.Message.{post_message}
use distributed_matrix_multi.Database.Http.Posted.{IsPostable, http_parse-post_message}
use distributed_matrix_multi.Database.ResultMatrix.Defs.{ResultMatrix}
use distributed_matrix_multi.Database.ResultMatrix.Stores.{IsShaped, Stores, add_result-Stores}
use distributed_matrix_multi.Database.Server.Defs.{
  Matrices, find, put, post_response, matrix_of, handle_outcome, handle_message,
}

same_key : (a b : ℤ) → (a ==ℤ b) ≡ true → a ≡ b
same_key a b h = eq_of_parts a b (ground arith)

other_key : (a b k : ℤ) → (a ==ℤ b) ≡ false → (a ==ℤ k) ≡ true → (b ==ℤ k) ≡ false
other_key a b k h e = ground arith

-- A matrix that is put in is found, and every other key finds what it found before.
pub find-put :
    (key : ℤ) (m : ResultMatrix) (ms : Matrices) (k : ℤ)
    → find k (put key m ms) ≡ (if key ==ℤ k then some m else find k ms)
unfolding find put
find-put key m [] k = refl
find-put key m ((k₀, old) ∷ ms) k = elim (Bool-cases (k₀ ==ℤ key)) [
  | inl same ↦
      let is_key = same_key k₀ key same in
      rw same (elim (Bool-cases (key ==ℤ k)) [
        | inl hit ↦ rw (is_key, hit) refl
        | inr miss ↦ rw (is_key, miss) refl
      ])
  | inr other ↦ rw other (elim (Bool-cases (k₀ ==ℤ k)) [
    | inl hit ↦ rw (hit, other_key k₀ key k other hit) refl
    | inr miss ↦ rw miss (find-put key m ms k)
  ])
]

-- What a worker's request does to the database.
pub record PostsTo (task : HttpTask) (rest : Bytes) (ms : Matrices) : Type 0 where
  pub message : Bytes
  pub written : post_message task ≡ some message
  pub stores :
      Stores
        (matrix_of (pos task.result_matrix) (find (pos task.result_matrix) ms))
        task.result
        task.row
        task.col
        true
  pub after : Matrices
  pub handled : handle_message (message ++ rest) ms ≡ some (some post_response, after)
  pub found :
      (k : ℤ)
      → find k after ≡ (if pos task.result_matrix ==ℤ k then some stores.after else find k ms)

pub handle_message-PostsTo :
    (task : HttpTask) (rest : Bytes) (ms : Matrices)
    → IsPostable task
    → NoDigit rest
    → task.row + 1 < i32_bound
    → task.col + 1 < i32_bound
    → IsShaped (matrix_of (pos task.result_matrix) (find (pos task.result_matrix) ms))
    → PostsTo task rest ms
unfolding handle_message handle_outcome
handle_message-PostsTo task rest ms h d row_small col_small shaped =
    let (message, written, parsed) = http_parse-post_message task rest h d in
    let m = matrix_of (pos task.result_matrix) (find (pos task.result_matrix) ms) in
    let small : AtMost i32_bound task.result = record {
      above = omega (arith, h.result_readable.0);
      below = omega (arith, h.result_readable.1);
    } in
    let s =
      add_result-Stores m task.result task.row task.col true shaped row_small col_small small in
    record {
      message = message;
      written = written;
      stores = s;
      after = put (pos task.result_matrix) s.after ms;
      handled =
          ap (λ o. handle_outcome o ms) parsed
          ∙ ap
              (λ o. o >>= λ after. some (some post_response, put (pos task.result_matrix) after ms))
              s.added;
      found = find-put (pos task.result_matrix) s.after ms;
    }
