-- ===== src/Database/Http/Gets.antt =====
-- What `httpParse` of Database/database.cpp reads from the request of a reader, who names a result matrix
-- and, as the fields Row and Column, a row, a column, both or none.
use distributed_matrix_multi.Prelude.{
  ℕ, suc, ◌+◌, ◌-◌, ◌≤◌, ◌<◌, ◌≡◌, refl, sym, ap, subst, ◌∙◌, Option, none, some, [], ◌++◌, ◌>>=◌,
  append_assoc, arith, ℤ, pos, Bytes, codes, length, length-append, i32_bound, inl, false,
}
use distributed_matrix_multi.Decimal.Print.{number_to_string}
use distributed_matrix_multi.Decimal.Read.{minus_one}
use distributed_matrix_multi.Decimal.Printed.{number_to_string_total}
use distributed_matrix_multi.Database.Http.Parse.{
  get, Header, Outcome, done, valid, crlf, next, end_of_header, header_round, no_fields, skip_to_cr,
  parse_header, parse_version, http_parse, request, finish,
}
use distributed_matrix_multi.Database.Http.RoundTrip.{
  Reads, target_of_lem, row_round, col_round, parse_header_next, parse_header_finish,
}
use distributed_matrix_multi.Database.Http.Posted.{Reads-of}

-- A line of the header, if there is a number for it.
unfoldable pub field_line : Bytes → Option ℕ → Option Bytes
unfolding number_to_string
field_line name none = some []
field_line name (some n) = do
  text ← number_to_string i32_bound (pos n)
  some (name ++ (text ++ crlf))

-- The request for a matrix, a row, a column or a value.
unfoldable pub get_message : ℕ → Option ℕ → Option ℕ → Option Bytes
unfolding number_to_string field_line
get_message target row col = do
  text ← number_to_string i32_bound (pos target)
  row_line ← field_line (codes "Row: ") row
  col_line ← field_line (codes "Column: ") col
  some (codes "GET /" ++ (text ++ (codes " HTTP/1.1\r\n" ++ (row_line ++ (col_line ++ crlf)))))

-- A number that was left out is -1.
abbrev pub number_of : Option ℕ → ℤ
number_of none = minus_one
number_of (some n) = pos n

abbrev pub IsSmall : Option ℕ → Type 0
IsSmall none = Unit
IsSmall (some n) = n < i32_bound

Reads-small :
    (n : ℕ) (t s : Bytes)
    → n < i32_bound
    → number_to_string i32_bound (pos n) ≡ some t
    → Reads minus_one (pos n) t (crlf ++ s)
Reads-small n t s h e =
    Reads-of i32_bound minus_one (pos n) t (crlf ++ s) (h, omega arith) e (inl refl) refl

-- The loop comes to an outcome from `enough` rounds on.
record Ends (target : ℤ) (enough : ℕ) (h : Header) (message : Bytes) (o : Outcome) : Type 0 where
  ends : (fuel : ℕ) → enough ≤ fuel → parse_header fuel get target h message ≡ o

one_round :
    (target : ℤ) (enough : ℕ) (h h' : Header) (message rest : Bytes) (o : Outcome)
    → header_round get target h message ≡ next h' rest
    → Ends target enough h' rest o
    → Ends target (enough + 1) h message o
one_round target enough h h' message rest o e r = record {
  ends = λ fuel l.
      let one_more : fuel ≡ suc (fuel - 1) = omega arith in
      subst (λ f. parse_header f get target h message ≡ o) (sym one_more)
        (parse_header_next (fuel - 1) get target h h' message rest e
          ∙ r.ends (fuel - 1) (omega arith));
}

last_round :
    (target : ℤ) (h : Header) (rest : Bytes)
    → Ends target 1 h (crlf ++ rest) (done (request get target h none))
last_round target h rest = record {
  ends = λ fuel l.
      let one_more : fuel ≡ suc (fuel - 1) = omega arith in
      let blank : header_round get target h (crlf ++ rest) ≡ finish (request get target h none) =
        unfold header_round in unfold end_of_header in refl in
      subst (λ f. parse_header f get target h (crlf ++ rest) ≡ done (request get target h none))
        (sym one_more)
        (parse_header_finish (fuel - 1) get target h (crlf ++ rest) (request get target h none)
          blank);
}

-- What a line of the header consists of.
data Line (name : Bytes) : Option ℕ → Bytes → Type 0 where
  left_out : Line name none []
  given :
      (n : ℕ) (t : Bytes)
      → n < i32_bound
      → number_to_string i32_bound (pos n) ≡ some t
      → Line name (some n) (name ++ (t ++ crlf))

field_line-Line :
    (name : Bytes) (n : Option ℕ)
    → IsSmall n
    → (line : Bytes) × (field_line name n ≡ some line) × (Line name n line)
unfolding field_line
field_line-Line name none h = ([], refl, left_out)
field_line-Line name (some n) h =
    let (t, e) = number_to_string_total i32_bound (pos n) (h, omega arith) (omega arith) in
    (name ++ (t ++ crlf), rw (e, ◌>>=◌) refl, given n t h e)

abbrev row_given : ℤ → Header
row_given row = record no_fields { row = row }

abbrev both_given : ℤ → ℤ → Header
both_given row col = record no_fields { row = row; col = col }

row_line_lem :
    (target : ℤ) (enough : ℕ) (row : Option ℕ) (line s : Bytes) (o : Outcome)
    → Line (codes "Row: ") row line
    → Ends target enough (row_given (number_of row)) s o
    → Ends target (enough + 1) no_fields (line ++ s) o
row_line_lem target enough row line s o left_out r = record {
  ends = λ fuel l. r.ends fuel (omega arith);
}
row_line_lem target enough row line s o (given n t h e) r =
    subst (λ z. Ends target (enough + 1) no_fields (codes "Row: " ++ z) o)
      (sym (append_assoc t crlf s))
      (one_round target enough no_fields (row_given (pos n)) (codes "Row: " ++ (t ++ (crlf ++ s))) s
        o (row_round get target (pos n) no_fields t s refl (Reads-small n t s h e)) r)

col_line_lem :
    (target row : ℤ) (enough : ℕ) (col : Option ℕ) (line s : Bytes) (o : Outcome)
    → Line (codes "Column: ") col line
    → Ends target enough (both_given row (number_of col)) s o
    → Ends target (enough + 1) (row_given row) (line ++ s) o
col_line_lem target row enough col line s o left_out r = record {
  ends = λ fuel l. r.ends fuel (omega arith);
}
col_line_lem target row enough col line s o (given n t h e) r =
    subst (λ z. Ends target (enough + 1) (row_given row) (codes "Column: " ++ z) o)
      (sym (append_assoc t crlf s))
      (one_round target enough (row_given row) (both_given row (pos n))
        (codes "Column: " ++ (t ++ (crlf ++ s))) s o
        (col_round get target (pos n) (row_given row) t s refl (Reads-small n t s h e)) r)

-- The parser on the text of a target and the rest of a request.
parse_fields :
    (target : ℤ) (text fields : Bytes) (o : Outcome)
    → Reads minus_one target text (codes " HTTP/1.1\r\n" ++ fields)
    → 2 ≤ length fields
    → Ends target 3 no_fields fields o
    → http_parse (codes "GET /" ++ (text ++ (codes " HTTP/1.1\r\n" ++ fields))) ≡ o
unfolding http_parse parse_version skip_to_cr
parse_fields target text fields o t enough r =
    target_of_lem get target text (codes " HTTP/1.1\r\n" ++ fields) t
    ∙ r.ends (length fields + 1) (omega arith)

message-append :
    (text row_line col_line rest : Bytes)
    → (text ++ (codes " HTTP/1.1\r\n" ++ (row_line ++ (col_line ++ crlf)))) ++ rest
      ≡ text ++ (codes " HTTP/1.1\r\n" ++ (row_line ++ (col_line ++ (crlf ++ rest))))
message-append text row_line col_line rest = simp (append_assoc) refl

abbrev pub get_request : ℕ → Option ℕ → Option ℕ → Outcome
get_request target row col = done (
    valid (record {
      http_command = get;
      target_matrix = pos target;
      row = number_of row;
      col = number_of col;
      last_chunk = false;
      content = none;
    }))

-- A reader has a request for a matrix, with or without a row and a column that are `int`s, and the
-- database's parser reads from it, whatever follows it in the buffer, a GET with that matrix, row and
-- column, each -1 where it was left out.
pub http_parse-get_message :
    (target : ℕ) (row col : Option ℕ) (rest : Bytes)
    → target < i32_bound
    → IsSmall row
    → IsSmall col
    → (message : Bytes) × (get_message target row col ≡ some message)
      × (http_parse (message ++ rest) ≡ get_request target row col)
unfolding get_message
http_parse-get_message target row col rest h row_small col_small =
    let (text, e) = number_to_string_total i32_bound (pos target) (h, omega arith) (omega arith) in
    let (row_line, er, is_row) = field_line-Line (codes "Row: ") row row_small in
    let (col_line, ec, is_col) = field_line-Line (codes "Column: ") col col_small in
    let fields = row_line ++ (col_line ++ (crlf ++ rest)) in
    let s = codes " HTTP/1.1\r\n" ++ fields in
    let read : Reads minus_one (pos target) text s =
      Reads-of i32_bound minus_one (pos target) text s (h, omega arith) e (inl refl) refl in
    let all =
      row_line_lem (pos target) 2 row row_line (col_line ++ (crlf ++ rest))
        (get_request target row col) is_row
        (col_line_lem (pos target) (number_of row) 1 col col_line (crlf ++ rest)
          (get_request target row col) is_col
          (last_round (pos target) (both_given (number_of row) (number_of col)) rest)) in
    (
      codes "GET /" ++ (text ++ (codes " HTTP/1.1\r\n" ++ (row_line ++ (col_line ++ crlf)))),
      rw (e, er, ec, ◌>>=◌) refl,
      ap (λ m. http_parse (codes "GET /" ++ m)) (message-append text row_line col_line rest)
          ∙ parse_fields (pos target) text fields (get_request target row col) read
              (omega (
                arith,
                length-append row_line (col_line ++ (crlf ++ rest)),
                length-append col_line (crlf ++ rest),
              ))
              all,
    )
