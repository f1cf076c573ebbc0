-- ===== src/Database/Server/Served.antt =====
-- Many requests of workers for one cell, as Database/database.cpp takes them one after the other, and the
-- request of a reader behind them.
use distributed_matrix_multi.Prelude.{
  ℕ, ◌+◌, ◌≤◌, ◌<◌, ◌≡◌, refl, sym, ap, subst, ◌∙◌, ◌⊎◌, inl, inr, Bool, true, Option, some, List,
  [], ◌∷◌, ◌++◌, ◌>>=◌, arith, map, ℤ, pos, length, false, Bytes, i32_bound, All,
}
use distributed_matrix_multi.Decimal.Read.{◌==ℤ◌}
use distributed_matrix_multi.Decimal.ReadBack.{IsReadable}
use distributed_matrix_multi.Decimal.RoundTrip.{NoDigit}
use distributed_matrix_multi.Worker.Handler.Defs.{HttpTask}
use distributed_matrix_multi.Worker.Message.{post_message}
use distributed_matrix_multi.Database.Http.Gets.{get_message, http_parse-get_message}
use distributed_matrix_multi.Database.ResultMatrix.Defs.{ResultMatrix, get_result}
use distributed_matrix_multi.Database.ResultMatrix.Stores.{IsShaped}
use distributed_matrix_multi.Database.ResultMatrix.Sums.{store_results}
use distributed_matrix_multi.Database.Server.Defs.{
  Matrices, find, matrix_of, handle_request, handle_outcome, handle_message,
}
use distributed_matrix_multi.Database.Server.Posts.{PostsTo, handle_message-PostsTo}
use distributed_matrix_multi.Database.Server.Gets.{value_response, write_get_response-value}

-- The values that came with their flags for the last chunk.
abbrev pub values : List (ℤ × Bool) → List ℤ
values = map (λ p. p.0)

-- The matrix with a number, which is new if there is none.
abbrev pub matrix_in : ℕ → Matrices → ResultMatrix
matrix_in key ms = matrix_of (pos key) (find (pos key) ms)

module _ (key row col : ℕ) (padding : Bytes) where
  abbrev pub task_of : ℤ × Bool → HttpTask
  task_of (value, last) = record {
    result_matrix = key;
    row = row;
    col = col;
    result = value;
    last_chunk = last;
  }

  -- Each worker's request, with `padding` behind it in the buffer.
  unfoldable pub post_each : List (ℤ × Bool) → Matrices → Option Matrices
  unfolding post_message handle_message
  post_each [] ms = some ms
  post_each (v ∷ vs) ms = do
    message ← post_message (task_of v)
    (response, ms') ← handle_message (message ++ padding) ms
    post_each vs ms'

  -- The requests are handled, and the results are stored in the matrix one after the other.
  pub record PostsEach (arrived : List (ℤ × Bool)) (ms : Matrices) : Type 0 where
    pub after : Matrices
    pub handled : post_each arrived ms ≡ some after
    pub stored :
        store_results (values arrived) row col (matrix_in key ms) ≡ some (matrix_in key after)
    pub found :
        (0 < length (values arrived)) ⊎ (find (pos key) ms ≡ some (matrix_in key ms))
        → find (pos key) after ≡ some (matrix_in key after)
    pub others : (k : ℤ) → (pos key ==ℤ k) ≡ false → find k after ≡ find k ms

  no_posts : (ms : Matrices) → PostsEach [] ms
  unfolding post_each store_results
  no_posts ms = record {
    after = ms;
    handled = refl;
    stored = refl;
    found = λ h. elim h [ inl l ↦ elim l [ ] | inr e ↦ e ];
    others = λ k other. refl;
  }

  found_itself :
      (ms : Matrices) (m : ResultMatrix)
      → find (pos key) ms ≡ some m
      → find (pos key) ms ≡ some (matrix_in key ms)
  found_itself ms m e = e ∙ ap some (sym (ap (matrix_of (pos key)) e))

  one_post :
      (v : ℤ × Bool) (vs : List (ℤ × Bool)) (ms : Matrices) (p : PostsTo (task_of v) padding ms)
      → PostsEach vs p.after
      → PostsEach (v ∷ vs) ms
  unfolding post_each store_results
  one_post v vs ms p rest =
      let same : (pos key ==ℤ pos key) ≡ true = ground arith in
      let here : find (pos key) p.after ≡ some p.stores.after = p.found (pos key) ∙ rw same refl in
      record {
        after = rest.after;
        handled = rw (p.written, ◌>>=◌, p.handled, ◌>>=◌) rest.handled;
        stored =
            rw (p.stores.added, ◌>>=◌)
              (ap (store_results (values vs) row col) (sym (ap (matrix_of (pos key)) here))
                ∙ rest.stored);
        found = λ h. rest.found (inr (found_itself p.after p.stores.after here));
        others = λ k other. rest.others k other ∙ p.found k ∙ rw other refl;
      }

  pub post_each-PostsEach :
      (arrived : List (ℤ × Bool)) (ms : Matrices)
      → NoDigit padding
      → key < i32_bound
      → row + 1 < i32_bound
      → col + 1 < i32_bound
      → All IsReadable (values arrived)
      → IsShaped (matrix_in key ms)
      → PostsEach arrived ms
  post_each-PostsEach [] ms d hk hr hc readable shaped = no_posts ms
  post_each-PostsEach (v ∷ vs) ms d hk hr hc readable shaped =
      let p =
        handle_message-PostsTo (task_of v) padding ms
          (record {
            matrix_readable = hk;
            row_readable = omega (arith, hr);
            col_readable = omega (arith, hc);
            result_readable = readable.0;
          })
          d hr hc shaped in
      let same : (pos key ==ℤ pos key) ≡ true = ground arith in
      let here : find (pos key) p.after ≡ some p.stores.after = p.found (pos key) ∙ rw same refl in
      one_post v vs ms p (
        post_each-PostsEach vs p.after d hk hr hc readable.1
          (subst IsShaped (sym (ap (matrix_of (pos key)) here)) p.stores.shaped))

-- The response to a reader who asks for a cell of a matrix that is there.
pub handle_message-value :
    (key row col : ℕ) (rest : Bytes) (ms : Matrices) (m : ResultMatrix) (value : Bytes)
    → key < i32_bound
    → row < i32_bound
    → col < i32_bound
    → find (pos key) ms ≡ some m
    → get_result m (pos row) (pos col) ≡ some value
    → length value ≤ 21
    → (message : Bytes) × (get_message key (some row) (some col) ≡ some message)
      × (response : Bytes) × (value_response key row col value ≡ some response)
      × (handle_message (message ++ rest) ms ≡ some (some response, ms))
unfolding handle_message handle_outcome handle_request
handle_message-value key row col rest ms m value hk hr hc found got short =
    let (message, e, parsed) = http_parse-get_message key (some row) (some col) rest hk hr hc in
    let (response, e', written) =
      write_get_response-value ms key row col m value hk hr hc found got short in
    (message, e, response, e', ap (λ o. handle_outcome o ms) parsed ∙ rw (written, ◌>>=◌) refl)
