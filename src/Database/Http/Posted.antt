-- ===== src/Database/Http/Posted.antt =====
-- What the database reads from the request of a worker: `writeToDatabase` of Worker/worker.cpp, and
-- `httpParse` of Database/database.cpp.
use distributed_matrix_multi.Prelude.{
  ℕ, ◌<◌, ◌≡◌, refl, ap, ◌∙◌, inl, inr, some, ◌++◌, ◌>>=◌, arith, ℤ, pos, Bytes, length, i32_bound,
  i64_bound,
}
use distributed_matrix_multi.Decimal.Print.{number_to_string}
use distributed_matrix_multi.Decimal.Read.{minus_one}
use distributed_matrix_multi.Decimal.RoundTrip.{NoDigit}
use distributed_matrix_multi.Decimal.ReadBack.{IsReadable, LengthOf, read_number-number_to_string}
use distributed_matrix_multi.Decimal.Printed.{
  Printed, printed, number_to_string-Printed, number_to_string_total,
}
use distributed_matrix_multi.Worker.Handler.Defs.{HttpTask}
use distributed_matrix_multi.Worker.Message.{post_text, post_message}
use distributed_matrix_multi.Database.Http.Parse.{post, Outcome, done, valid, http_parse}
use distributed_matrix_multi.Database.Http.RoundTrip.{
  Reads, ReadsFields, http_parse_lem, post_text-append,
}

pub Reads-of :
    (bound : ℕ) (len x : ℤ) (t s : Bytes)
    → IsReadable x
    → number_to_string bound x ≡ some t
    → LengthOf len (length t)
    → NoDigit s
    → Reads len x t s
Reads-of bound len x t s r e l d = record {
  shape = number_to_string-Printed bound x t e;
  reads = read_number-number_to_string bound len x t s r e l d;
}

Printed-short : (t : Bytes) → Printed t → length t < i32_bound
Printed-short t (printed c cs e d l) = omega arith

-- The numbers of the task are `int`s, as the database stores them; -2147483648 is left out, which
-- `readNumberFromChars` cannot read.
pub record IsPostable (task : HttpTask) : Type 0 where
  pub matrix_readable : task.result_matrix < i32_bound
  pub row_readable : task.row < i32_bound
  pub col_readable : task.col < i32_bound
  pub result_readable : IsReadable task.result

abbrev pub request_of : HttpTask → Outcome
request_of task = done (
    valid (record {
      http_command = post;
      target_matrix = pos task.result_matrix;
      row = pos task.row;
      col = pos task.col;
      last_chunk = task.last_chunk;
      content = some task.result;
    }))

-- If the numbers of a task are `int`s other than the least, then the worker has a request for it, and the
-- database's parser reads from that request, with anything but a digit behind it in the buffer, exactly
-- the task: a POST with the same matrix, row, column, last-chunk flag and result.
pub http_parse-post_message :
    (task : HttpTask) (rest : Bytes)
    → IsPostable task
    → NoDigit rest
    → (message : Bytes) × (post_message task ≡ some message)
      × (http_parse (message ++ rest) ≡ request_of task)
unfolding post_message
http_parse-post_message task rest h d =
    let (target, et) =
      number_to_string_total i32_bound (pos task.result_matrix) (h.matrix_readable, omega arith)
        (omega arith) in
    let (row, er) =
      number_to_string_total i64_bound (pos task.row) (h.row_readable, omega arith) (omega arith) in
    let (col, ec) =
      number_to_string_total i64_bound (pos task.col) (h.col_readable, omega arith) (omega arith) in
    let (result, es) =
      number_to_string_total i64_bound task.result h.result_readable (omega arith) in
    let short = Printed-short result (number_to_string-Printed i64_bound task.result result es) in
    let (len, el) =
      number_to_string_total i64_bound (pos (length result)) (short, omega arith) (omega arith) in
    let fields : ReadsFields (pos task.result_matrix) (pos task.row) (pos task.col) task.result
        task.last_chunk target row col len result rest =
      record {
        reads_row =
            Reads-of i64_bound minus_one (pos task.row) row _ (h.row_readable, omega arith) er
              (inl refl) refl;
        reads_col =
            Reads-of i64_bound minus_one (pos task.col) col _ (h.col_readable, omega arith) ec
              (inl refl) refl;
        reads_length =
            Reads-of i64_bound minus_one (pos (length result)) len _ (short, omega arith) el
              (inl refl) refl;
        reads_result =
            Reads-of i64_bound (pos (length result)) task.result result rest h.result_readable es
              (inr refl) d;
      } in
    let target_read =
      Reads-of i32_bound minus_one (pos task.result_matrix) target _
        (h.matrix_readable, omega arith) et (inl refl) refl in
    (
      post_text target row col task.last_chunk len result,
      rw (et, er, ec, es, el, ◌>>=◌) refl,
      ap http_parse (post_text-append target row col task.last_chunk len result rest)
          ∙ http_parse_lem (pos task.result_matrix) (pos task.row) (pos task.col) task.result
              task.last_chunk target row col len result rest target_read fields,
    )
