-- ===== src/Database/Http/RoundTrip.antt =====
-- The request that a worker writes is the one that `httpParse` of Database/database.cpp reads.
use distributed_matrix_multi.Prelude.{
  ℕ, suc, ◌+◌, ◌-◌, ◌≤◌, ◌≡◌, refl, sym, subst, ◌∙◌, Bool, true, false, some, [], ◌∷◌, ◌++◌,
  append_assoc, arith, ◌==◌, ℤ, pos, Bytes, codes, length, drop-length-append,
}
use distributed_matrix_multi.Decimal.Read.{read_number, number, minus_one, ◌==ℤ◌}
use distributed_matrix_multi.Decimal.Printed.{Printed, printed}
use distributed_matrix_multi.Worker.Message.{last_chunk_text, post_text}
use distributed_matrix_multi.Database.Http.Parse.{
  HttpCommand, get, post, Header, Parsed, done, field_of, body_of, crlf, finish, next, request,
  field, read_field, skip_blank_lines, end_of_header, last_chunk_field, header_round, no_fields,
  skip_to_cr, parse_header, parse_version, target_of, http_parse,
}

-- A number with the text that stands for it at the front of the message.
pub record Reads (len x : ℤ) (t s : Bytes) : Type 0 where
  pub shape : Printed t
  pub reads : read_number len (t ++ s) ≡ some (number x (length t))

pub target_of_lem :
    (command : HttpCommand) (x : ℤ) (t s : Bytes)
    → Reads minus_one x t s
    → target_of command (read_number minus_one (t ++ s)) (t ++ s) ≡ parse_version command x s
unfolding target_of
target_of_lem command x [] s r = elim r.shape [ printed c cs e d l ↦ cc ]
target_of_lem command x (c ∷ t) s r = rw (r.reads, drop-length-append t s) refl

read_field_lem :
    (x : ℤ) (t s : Bytes)
    → Reads minus_one x t (crlf ++ s)
    → read_field (t ++ (crlf ++ s)) ≡ field x s
unfolding read_field field_of
read_field_lem x [] s r = elim r.shape [ printed c cs e d l ↦ cc ]
read_field_lem x (c ∷ t) s r = rw (r.reads, drop-length-append t (crlf ++ s)) refl

skip_blank_lines_stop :
    (c : ℕ) (s : Bytes) → (c == b'\r') ≡ false → skip_blank_lines (c ∷ s) ≡ c ∷ s
unfolding skip_blank_lines
skip_blank_lines_stop c [] h = refl
skip_blank_lines_stop c (d ∷ s) h = rw h refl

skip_blank_lines_lem : (t s : Bytes) → Printed t → skip_blank_lines (crlf ++ (t ++ s)) ≡ t ++ s
unfolding skip_blank_lines
skip_blank_lines_lem t s (printed c cs e d l) = rw e (skip_blank_lines_stop c (cs ++ s) d)

body_of_lem :
    (target : ℤ) (h : Header) (x len : ℤ) (t s : Bytes)
    → Reads len x t s
    → body_of target h (read_number len (t ++ s)) ≡ finish (request post target h (some x))
unfolding body_of
body_of_lem target h x len [] s r = elim r.shape [ printed c cs e d l ↦ cc ]
body_of_lem target h x len (c ∷ t) s r = rw r.reads refl

-- The rounds of the loop, one for each line of the header.
pub row_round :
    (command : HttpCommand) (target x : ℤ) (h : Header) (t s : Bytes)
    → h.row ≡ minus_one
    → Reads minus_one x t (crlf ++ s)
    → header_round command target h (codes "Row: " ++ (t ++ (crlf ++ s)))
      ≡ next (record h { row = x }) s
unfolding header_round
row_round get target x h t s e r = rw (e, read_field_lem x t s r) refl
row_round post target x h t s e r = rw (e, read_field_lem x t s r) refl

pub col_round :
    (command : HttpCommand) (target x : ℤ) (h : Header) (t s : Bytes)
    → h.col ≡ minus_one
    → Reads minus_one x t (crlf ++ s)
    → header_round command target h (codes "Column: " ++ (t ++ (crlf ++ s)))
      ≡ next (record h { col = x }) s
unfolding header_round
col_round get target x h t s e r = rw (e, read_field_lem x t s r) refl
col_round post target x h t s e r = rw (e, read_field_lem x t s r) refl

content_length_round :
    (target x : ℤ) (h : Header) (t s : Bytes)
    → h.content_length ≡ minus_one
    → Reads minus_one x t (crlf ++ s)
    → header_round post target h (codes "Content-Length: " ++ (t ++ (crlf ++ s)))
      ≡ next (record h { content_length = x }) s
unfolding header_round
content_length_round target x h t s e r = rw (e, read_field_lem x t s r) refl

last_chunk_round :
    (target : ℤ) (h : Header) (b : Bool) (s : Bytes)
    → header_round post target h (codes "Last-Chunk: " ++ (last_chunk_text b ++ (crlf ++ s)))
      ≡ next (record h { last_chunk = b }) s
unfolding header_round last_chunk_field
last_chunk_round target h true s = refl
last_chunk_round target h false s = refl

body_round :
    (target x : ℤ) (h : Header) (t s : Bytes) (n : ℕ)
    → h.content_length ≡ pos n
    → Reads (pos n) x t s
    → header_round post target h (crlf ++ (crlf ++ (t ++ s)))
      ≡ finish (request post target h (some x))
unfolding header_round end_of_header
body_round target x h t s n e r =
    let given : (pos n ==ℤ minus_one) ≡ false = ground arith in
    rw (e, given, skip_blank_lines_lem t s r.shape, body_of_lem target h x (pos n) t s r) refl

pub parse_header_next :
    (fuel : ℕ) (command : HttpCommand) (target : ℤ) (h h' : Header) (message rest : Bytes)
    → header_round command target h message ≡ next h' rest
    → parse_header (suc fuel) command target h message ≡ parse_header fuel command target h' rest
unfolding parse_header
parse_header_next fuel command target h h' message rest e = rw e refl

pub parse_header_finish :
    (fuel : ℕ) (command : HttpCommand) (target : ℤ) (h : Header) (message : Bytes) (p : Parsed)
    → header_round command target h message ≡ finish p
    → parse_header (suc fuel) command target h message ≡ done p
unfolding parse_header
parse_header_finish fuel command target h message p e = rw e refl

-- The five numbers of a request with their texts, where `rest` stands behind the request.
module _ (target row col result : ℤ) (last : Bool)
    (target_text row_text col_text len_text result_text rest : Bytes) where
  abbrev body_part : Bytes
  body_part = crlf ++ (crlf ++ (result_text ++ rest))

  abbrev length_part : Bytes
  length_part = codes "Content-Length: " ++ (len_text ++ (crlf ++ body_part))

  abbrev last_part : Bytes
  last_part = codes "Last-Chunk: " ++ (last_chunk_text last ++ (crlf ++ length_part))

  abbrev col_part : Bytes
  col_part = codes "Column: " ++ (col_text ++ (crlf ++ last_part))

  abbrev fields_part : Bytes
  fields_part = codes "Row: " ++ (row_text ++ (crlf ++ col_part))

  abbrev posted : Parsed
  posted =
      request post target
        (record {
          row = row;
          col = col;
          content_length = pos (length result_text);
          last_chunk = last;
        })
        (some result)

  pub record ReadsFields : Type 0 where
    pub reads_row : Reads minus_one row row_text (crlf ++ col_part)
    pub reads_col : Reads minus_one col col_text (crlf ++ last_part)
    pub reads_length : Reads minus_one (pos (length result_text)) len_text (crlf ++ body_part)
    pub reads_result : Reads (pos (length result_text)) result result_text rest

  parse_header_lem :
      (fuel : ℕ)
      → 5 ≤ fuel
      → ReadsFields
      → parse_header fuel post target no_fields fields_part ≡ done posted
  parse_header_lem fuel enough r =
      let five : fuel ≡ suc (suc (suc (suc (suc (fuel - 5))))) = omega arith in
      subst (λ f. parse_header f post target no_fields fields_part ≡ done posted) (sym five)
        (parse_header_next _ post target no_fields _ _ _
            (row_round post target row no_fields row_text col_part refl r.reads_row)
          ∙ parse_header_next _ post target _ _ _ _
              (col_round post target col _ col_text last_part refl r.reads_col)
          ∙ parse_header_next _ post target _ _ _ _ (last_chunk_round target _ last length_part)
          ∙ parse_header_next _ post target _ _ _ _ (
              content_length_round target (pos (length result_text)) _ len_text body_part refl
                r.reads_length)
          ∙ parse_header_finish _ post target _ _ posted (
              body_round target result _ result_text rest (length result_text) refl r.reads_result))

  pub http_parse_lem :
      Reads minus_one target target_text (codes " HTTP/1.1\r\n" ++ fields_part)
      → ReadsFields
      → http_parse (codes "POST /" ++ (target_text ++ (codes " HTTP/1.1\r\n" ++ fields_part)))
        ≡ done posted
  unfolding http_parse parse_version skip_to_cr
  http_parse_lem t r =
      target_of_lem post target target_text (codes " HTTP/1.1\r\n" ++ fields_part) t
      ∙ parse_header_lem (length fields_part + 1) (omega arith) r

pub post_text-append :
    (target row col : Bytes) (last : Bool) (len result s : Bytes)
    → post_text target row col last len result ++ s
      ≡ post_text target row col last len (result ++ s)
post_text-append target row col last len result s = simp (append_assoc) refl
