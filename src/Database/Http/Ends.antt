-- ===== src/Database/Http/Ends.antt =====
-- The loops of `httpParse` in Database/database.cpp end: every round over the header fields that goes
-- on has read at least one byte.
use distributed_matrix_multi.Prelude.{
  ℕ, zero, suc, ◌+◌, ◌≤◌, ◌<◌, ◌≡◌, ◌≢◌, inl, inr, Bool, true, false, not, ◌&&◌, Option, none, some,
  [], ◌∷◌, arith, ◌==◌, if◌then◌else◌, Bool-cases, ℤ, Bytes, codes, starts_with, length, drop,
  length-drop,
}
use distributed_matrix_multi.Decimal.Read.{
  read_number, ReadNumber, number, wrong_length, minus_one, ◌==ℤ◌,
}
use distributed_matrix_multi.Database.Http.Parse.{
  HttpCommand, get, post, Header, Outcome, done, out_of_fuel, field_of, body_of, store_field, once,
  crlf, Round, finish, next, crash, request, is_post, is_content_length, Field, field, malformed,
  unreadable, read_field, skip_line, end_of_header, last_chunk_field, header_round, after_round,
  no_fields, skip_to_cr, parse_header, parse_version, target_of, http_parse, invalid,
}

starts_with-length : (p s : Bytes) → starts_with p s ≡ true → length p ≤ length s
starts_with-length [] s h = omega arith
starts_with-length (c ∷ p) [] h = cc
starts_with-length (c ∷ p) (d ∷ s) h = ground (arith, starts_with-length p s)

-- A round that goes on leaves less than `n` bytes.
abbrev Shorter : ℕ → Round → Type 0
Shorter n (finish p) = Unit
Shorter n (next h rest) = length rest < n
Shorter n crash = Unit

Shorter-mono : (m n : ℕ) (r : Round) → Shorter m r → m ≤ n → Shorter n r
Shorter-mono m n (finish p) h k = tt
Shorter-mono m n (next g rest) h k = omega arith
Shorter-mono m n crash h k = tt

skip_line-Shorter : (h : Header) (message : Bytes) → Shorter (length message) (skip_line h message)
unfolding skip_line
skip_line-Shorter h [] = tt
skip_line-Shorter h (c ∷ []) = ground arith
skip_line-Shorter h (c ∷ d ∷ message) = elim (Bool-cases (c == b'\r' && d == b'\n')) [
  | inl ending ↦ rw ending (omega arith)
  | inr other ↦ rw other (
      Shorter-mono _ _ (skip_line h (d ∷ message)) (skip_line-Shorter h (d ∷ message))
        (omega arith))
]

abbrev ShorterField : ℕ → Field → Type 0
ShorterField n (field value rest) = length rest < n
ShorterField n malformed = Unit
ShorterField n unreadable = Unit

field_of-Shorter :
    (r : Option ReadNumber) (message : Bytes) → ShorterField (length message) (field_of r message)
unfolding field_of
field_of-Shorter none message = tt
field_of-Shorter (some wrong_length) message = tt
field_of-Shorter (some (number value zero)) message = tt
field_of-Shorter (some (number value (suc n))) message =
    let rest = drop (suc n) message in
    elim (Bool-cases (starts_with crlf rest)) [
      | inr other ↦ rw other tt
      | inl ending ↦ rw ending (
          omega (
            arith,
            starts_with-length crlf rest ending,
            length-drop 2 rest,
            length-drop (suc n) message,
          ))
    ]

read_field-Shorter : (message : Bytes) → ShorterField (length message) (read_field message)
unfolding read_field
read_field-Shorter message = field_of-Shorter (read_number minus_one message) message

store_field-Shorter :
    (n : ℕ) (f : Field) (set : ℤ → Header) → ShorterField n f → Shorter n (store_field f set)
store_field-Shorter n (field value rest) set h = h
store_field-Shorter n malformed set h = tt
store_field-Shorter n unreadable set h = tt

once-Shorter :
    (old : ℤ) (message : Bytes) (set : ℤ → Header) → Shorter (length message) (once old message set)
once-Shorter old message set = elim (Bool-cases (not (old ==ℤ minus_one))) [
  | inl again ↦ rw again tt
  | inr first ↦
      rw first
        (store_field-Shorter (length message) (read_field message) set (read_field-Shorter message))
]

last_chunk_field-Shorter :
    (h : Header) (message : Bytes) → Shorter (length message) (last_chunk_field h message)
unfolding last_chunk_field
last_chunk_field-Shorter h message = elim (Bool-cases (starts_with (codes "TRUE\r\n") message)) [
  | inl yes_last ↦
      rw yes_last (
        omega
          (arith, starts_with-length (codes "TRUE\r\n") message yes_last, length-drop 6 message))
  | inr no_true ↦ elim (Bool-cases (starts_with (codes "FALSE\r\n") message)) [
    | inl not_last ↦
        rw (no_true, not_last)
          (omega
            (arith, starts_with-length (codes "FALSE\r\n") message not_last, length-drop 7 message))
    | inr no_false ↦ rw (no_true, no_false) (skip_line-Shorter h message)
  ]
]

body_of-Shorter :
    (n : ℕ) (target : ℤ) (h : Header) (r : Option ReadNumber) → Shorter n (body_of target h r)
unfolding body_of
body_of-Shorter n target h none = tt
body_of-Shorter n target h (some wrong_length) = tt
body_of-Shorter n target h (some (number value zero)) = tt
body_of-Shorter n target h (some (number value (suc k))) = tt

end_of_header-Shorter :
    (n : ℕ) (command : HttpCommand) (target : ℤ) (h : Header) (message : Bytes)
    → Shorter n (end_of_header command target h message)
unfolding end_of_header
end_of_header-Shorter n get target h message = tt
end_of_header-Shorter n post target h message = elim (Bool-cases (h.content_length ==ℤ minus_one)) [
  | inl missing ↦ rw missing tt
  | inr given ↦ rw given (body_of-Shorter n target h _)
]

record Shortens (n : ℕ) (r : Round) : Type 0 where
  shorter : Shorter n r

-- A choice between two rounds.
if-Shortens :
    (n : ℕ) (b : Bool) (r s : Round) → Shortens n r → Shortens n s → Shortens n (if b then r else s)
if-Shortens n true r s h k = h
if-Shortens n false r s h k = k

drop-Shortens :
    (k : ℕ) (message : Bytes) (r : Round)
    → Shorter (length (drop k message)) r
    → Shortens (length message) r
drop-Shortens k message r h = record {
  shorter =
      Shorter-mono (length (drop k message)) (length message) r h
        (omega (arith, length-drop k message));
}

header_round-Shortens :
    (command : HttpCommand) (target : ℤ) (h : Header) (message : Bytes)
    → Shortens (length message) (header_round command target h message)
unfolding header_round
header_round-Shortens command target h message =
    let n = length message in
    let line_end : Round = end_of_header command target h (drop 2 message) in
    if-Shortens n (not (is_post command) && starts_with (0 ∷ []) message)
      (finish (request command target h none)) _ (record { shorter = tt })
      (if-Shortens n (starts_with crlf message) line_end _
        (record { shorter = end_of_header-Shorter n command target h (drop 2 message) })
        (if-Shortens n (starts_with (codes "Row: ") message) _ _
          (drop-Shortens 5 message _
            (once-Shorter h.row (drop 5 message) (λ v. record h { row = v })))
          (if-Shortens n (starts_with (codes "Column: ") message) _ _
            (drop-Shortens 8 message _
              (once-Shorter h.col (drop 8 message) (λ v. record h { col = v })))
            (if-Shortens n (is_post command && is_content_length message) _ _
              (drop-Shortens 16 message _ (
                once-Shorter h.content_length (drop 16 message)
                  (λ v. record h { content_length = v })))
              (if-Shortens n (is_post command && starts_with (codes "Last-Chunk: ") message) _ _
                (drop-Shortens 12 message _ (last_chunk_field-Shorter h (drop 12 message)))
                (record { shorter = skip_line-Shorter h message }))))))

after_round_ends :
    (n : ℕ) (more : Header → Bytes → Outcome)
    → ((h : Header) (rest : Bytes) → length rest < n → more h rest ≢ out_of_fuel)
    → (r : Round) → Shorter n r
    → after_round more r ≢ out_of_fuel
after_round_ends n more ends (finish parsed) h e = cc
after_round_ends n more ends (next g rest) h e = ends g rest h e
after_round_ends n more ends crash h e = cc

-- With more fuel than bytes the loop ends.
parse_header_ends :
    (fuel : ℕ) (command : HttpCommand) (target : ℤ) (h : Header) (message : Bytes)
    → length message < fuel
    → parse_header fuel command target h message ≢ out_of_fuel
unfolding parse_header
parse_header_ends zero command target h message enough e = ground arith
parse_header_ends (suc fuel) command target h message enough e =
    after_round_ends (length message) (λ h' rest. parse_header fuel command target h' rest)
      (λ h' rest less. parse_header_ends fuel command target h' rest (omega arith))
      (header_round command target h message)
      (Shortens.shorter (header_round-Shortens command target h message)) e

if_ends :
    (b : Bool) (r s : Outcome)
    → r ≢ out_of_fuel
    → s ≢ out_of_fuel
    → (if b then r else s) ≢ out_of_fuel
if_ends true r s h k = h
if_ends false r s h k = k

parse_version_ends :
    (command : HttpCommand) (target : ℤ) (message : Bytes)
    → parse_version command target message ≢ out_of_fuel
unfolding parse_version
parse_version_ends command target message =
    let fields = drop 2 (skip_to_cr (drop 6 message)) in
    if_ends (not (starts_with (codes " HTTP/") message)) (done invalid) _ (λ e. cc)
      (if_ends (not (starts_with crlf (skip_to_cr (drop 6 message)))) (done invalid) _ (λ e. cc)
        (parse_header_ends (length fields + 1) command target no_fields fields (omega arith)))

target_of_ends :
    (command : HttpCommand) (r : Option ReadNumber) (message : Bytes)
    → target_of command r message ≢ out_of_fuel
unfolding target_of
target_of_ends command none message e = cc
target_of_ends command (some wrong_length) message e = cc
target_of_ends command (some (number target zero)) message e = cc
target_of_ends command (some (number target (suc n))) message e =
    parse_version_ends command target (drop (suc n) message) e

-- The parser ends on every content of the receive buffer: a round of its loop over the header fields for
-- each byte behind the first line, and one more, are enough.
pub http_parse_ends : (message : Bytes) → http_parse message ≢ out_of_fuel
unfolding http_parse
http_parse_ends message =
    if_ends (starts_with (codes "GET /") message) _ _
      (target_of_ends get (read_number minus_one (drop 5 message)) (drop 5 message))
      (if_ends (starts_with (codes "POST /") message) _ _
        (target_of_ends post (read_number minus_one (drop 6 message)) (drop 6 message)) (λ e. cc))
