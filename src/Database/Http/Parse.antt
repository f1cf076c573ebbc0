-- ===== src/Database/Http/Parse.antt =====
-- `httpParse` of Database/database.cpp. `message` is what is left of the receive buffer, so that it is
-- empty where `byteAddressInTCPBuf` is false. A fault is a read behind the buffer or an overflow.
use distributed_matrix_multi.Prelude.{
  ℕ, zero, suc, ◌+◌, Bool, true, false, not, ◌&&◌, ◌||◌, Option, none, some, [], ◌∷◌, ◌==◌,
  if◌then◌else◌, ℤ, Bytes, codes, starts_with, length, drop,
}
use distributed_matrix_multi.Decimal.Read.{
  read_number, ReadNumber, number, wrong_length, minus_one, ◌==ℤ◌,
}

pub data HttpCommand : Type 0 where
  get post : HttpCommand

-- What the parser writes through its pointers. A GET leaves `content` alone: `none`.
pub record Request : Type 0 where
  pub http_command : HttpCommand
  pub target_matrix : ℤ
  pub row : ℤ
  pub col : ℤ
  pub last_chunk : Bool
  pub content : Option ℤ

-- The returned Boolean, with what was parsed if it is true.
pub data Parsed : Type 0 where
  valid : Request → Parsed
  invalid : Parsed

pub data Outcome : Type 0 where
  done : Parsed → Outcome
  fault : Outcome
  out_of_fuel : Outcome

-- The variables of the loop over the header fields.
pub record Header : Type 0 where
  pub row : ℤ
  pub col : ℤ
  pub content_length : ℤ
  pub last_chunk : Bool

-- One round of the loop: it returns, or goes on behind a line.
pub data Round : Type 0 where
  finish : Parsed → Round
  next : Header → Bytes → Round
  crash : Round

-- A number with the line ending behind it, as the fields Row, Column and Content-Length have it.
pub data Field : Type 0 where
  field : ℤ → Bytes → Field
  malformed : Field
  unreadable : Field

abbrev pub crlf : Bytes
crlf = codes "\r\n"

-- `<= 0` on the result of `readNumberFromChars`; then the line ending.
unfoldable pub field_of : Option ReadNumber → Bytes → Field
field_of none message = unreadable
field_of (some wrong_length) message = malformed
field_of (some (number value zero)) message = malformed
field_of (some (number value (suc n))) message =
    let rest = drop (suc n) message in
    if starts_with crlf rest then field value (drop 2 rest) else malformed

unfoldable pub read_field : Bytes → Field
unfolding field_of read_number
read_field message = field_of (read_number minus_one message) message

abbrev pub store_field : Field → (ℤ → Header) → Round
store_field (field value rest) set = next (set value) rest
store_field malformed set = finish invalid
store_field unreadable set = crash

-- A field that must not be given twice.
abbrev pub once : ℤ → Bytes → (ℤ → Header) → Round
once old message set =
    let stored = store_field (read_field message) set in
    if not (old ==ℤ minus_one) then finish invalid else stored

-- The search for the end of a line. `\r` in the last byte of the buffer makes it read one byte too far.
unfoldable pub skip_line : Header → Bytes → Round
skip_line h [] = finish invalid
skip_line h (c ∷ []) = if c == b'\r' then crash else finish invalid
skip_line h (c ∷ d ∷ message) =
    let rest = skip_line h (d ∷ message) in
    if c == b'\r' && d == b'\n' then next h message else rest

unfoldable pub skip_blank_lines : Bytes → Bytes
skip_blank_lines [] = []
skip_blank_lines (c ∷ []) = c ∷ []
skip_blank_lines (c ∷ d ∷ message) =
    let rest = skip_blank_lines message in
    if c == b'\r' && d == b'\n' then rest else c ∷ d ∷ message

abbrev pub request : HttpCommand → ℤ → Header → Option ℤ → Parsed
request command target h content = valid (record {
  http_command = command;
  target_matrix = target;
  row = h.row;
  col = h.col;
  last_chunk = h.last_chunk;
  content = content;
})

-- The body of a POST, by the result of `readNumberFromChars`.
unfoldable pub body_of : ℤ → Header → Option ReadNumber → Round
body_of target h none = crash
body_of target h (some wrong_length) = finish invalid
body_of target h (some (number value zero)) = finish invalid
body_of target h (some (number value (suc n))) = finish (request post target h (some value))

-- Behind the blank line that ends the header.
unfoldable pub end_of_header : HttpCommand → ℤ → Header → Bytes → Round
unfolding body_of skip_blank_lines read_number
end_of_header get target h message = finish (request get target h none)
end_of_header post target h message =
    if h.content_length ==ℤ minus_one
    then finish invalid
    else body_of target h (read_number h.content_length (skip_blank_lines message))

abbrev pub is_post : HttpCommand → Bool
is_post get = false
is_post post = true

-- The value of Last-Chunk, or a line to skip.
unfoldable pub last_chunk_field : Header → Bytes → Round
unfolding skip_line
last_chunk_field h message =
    if starts_with (codes "TRUE\r\n") message
    then next (record h { last_chunk = true }) (drop 6 message)
    else if starts_with (codes "FALSE\r\n") message
    then next (record h { last_chunk = false }) (drop 7 message)
    else skip_line h message

abbrev pub is_content_length : Bytes → Bool
is_content_length message =
    starts_with (codes "Content-Length: ") message
    || starts_with (codes "content-length: ") message
    || starts_with (codes "Content-length: ") message

unfoldable pub header_round : HttpCommand → ℤ → Header → Bytes → Round
unfolding read_field skip_line end_of_header last_chunk_field
header_round command target h message =
    if not (is_post command) && starts_with (0 ∷ []) message
    then finish (request command target h none)
    else if starts_with crlf message
    then end_of_header command target h (drop 2 message)
    else if starts_with (codes "Row: ") message
    then once h.row (drop 5 message) (λ v. record h { row = v })
    else if starts_with (codes "Column: ") message
    then once h.col (drop 8 message) (λ v. record h { col = v })
    else if is_post command && is_content_length message
    then once h.content_length (drop 16 message) (λ v. record h { content_length = v })
    else if is_post command && starts_with (codes "Last-Chunk: ") message
    then last_chunk_field h (drop 12 message)
    else skip_line h message

-- What becomes of a round, where `more` is the rest of the loop.
abbrev pub after_round : (Header → Bytes → Outcome) → Round → Outcome
after_round more (finish parsed) = done parsed
after_round more (next h rest) = more h rest
after_round more crash = fault

-- `while (1)`, with at most `fuel` rounds.
unfoldable pub parse_header : ℕ → HttpCommand → ℤ → Header → Bytes → Outcome
unfolding header_round
parse_header zero command target h message = out_of_fuel
parse_header (suc fuel) command target h message =
    after_round (λ h' rest. parse_header fuel command target h' rest)
      (header_round command target h message)

abbrev pub no_fields : Header
no_fields = record {
  row = minus_one;
  col = minus_one;
  content_length = minus_one;
  last_chunk = false;
}

-- `while (byteAddressInTCPBuf(message) && *message != '\r')`
unfoldable pub skip_to_cr : Bytes → Bytes
skip_to_cr [] = []
skip_to_cr (c ∷ message) = let rest = skip_to_cr message in if c == b'\r' then c ∷ message else rest

-- The version number, and the loop with a round for each byte that is left, and one more.
unfoldable pub parse_version : HttpCommand → ℤ → Bytes → Outcome
unfolding parse_header skip_to_cr
parse_version command target message =
    let line_end = skip_to_cr (drop 6 message) in
    let fields = drop 2 line_end in
    let parsed = parse_header (length fields + 1) command target no_fields fields in
    if not (starts_with (codes " HTTP/") message)
    then done invalid
    else if not (starts_with crlf line_end)
    then done invalid
    else parsed

-- The target, by the result of `readNumberFromChars`.
unfoldable pub target_of : HttpCommand → Option ReadNumber → Bytes → Outcome
unfolding parse_version
target_of command none message = fault
target_of command (some wrong_length) message = done invalid
target_of command (some (number target zero)) message = done invalid
target_of command (some (number target (suc n))) message =
    parse_version command target (drop (suc n) message)

unfoldable pub http_parse : Bytes → Outcome
unfolding target_of read_number
http_parse message =
    let target = λ (command : HttpCommand) (rest : Bytes).
      target_of command (read_number minus_one rest) rest in
    if starts_with (codes "GET /") message
    then target get (drop 5 message)
    else if starts_with (codes "POST /") message
    then target post (drop 6 message)
    else done invalid
