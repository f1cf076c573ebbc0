-- ===== src/Database/Server/Defs.antt =====
-- `writeGETResponseToBuf`, `writePOSTResponseToBuf` and the body of the loop in `main` of
-- Database/database.cpp. `none` is a fault: in the parser, in a result matrix, or a response that does
-- not fit into the buffer, which is written before `main` looks at its length.
use distributed_matrix_multi.Prelude.{
  ℕ, true, Option, none, some, List, [], ◌∷◌, ◌++◌, ◌>>=◌, ltb, if◌then◌else◌, ℤ, pos, Bytes, codes,
  length, i32_bound,
}
use distributed_matrix_multi.Decimal.Print.{number_to_string}
use distributed_matrix_multi.Decimal.Read.{minus_one, ◌==ℤ◌}
use distributed_matrix_multi.Database.Http.Parse.{
  get, post, Request, valid, invalid, Outcome, done, fault, out_of_fuel, http_parse,
}
use distributed_matrix_multi.Database.ResultMatrix.Defs.{ResultMatrix, get_result, add_result}
use distributed_matrix_multi.Database.ResultMatrix.Html.{
  get_html_matrix, get_html_row, get_html_col,
}

-- `map<int, ResultMatrix>`
abbrev pub Matrices : Type 0
Matrices = List (ℤ × ResultMatrix)

-- `count` and `at`
unfoldable pub find : ℤ → Matrices → Option ResultMatrix
find key [] = none
find key ((k, m) ∷ rest) = let later = find key rest in if k ==ℤ key then some m else later

-- The matrix of a key becomes another one, or is added.
unfoldable pub put : ℤ → ResultMatrix → Matrices → Matrices
put key m [] = (key, m) ∷ []
put key m ((k, old) ∷ rest) =
    let later = put key m rest in if k ==ℤ key then (k, m) ∷ rest else (k, old) ∷ later

abbrev pub tcp_buflen : ℕ
tcp_buflen = 50000

-- `writeToTCPBuffer`, and the length of what was written.
unfoldable pub write_to_tcp_buffer : Bytes → Option Bytes
write_to_tcp_buffer msg = if ltb tcp_buflen (length msg) then none else some msg

-- The content of a response from a matrix that is there, by which of row and column are given.
unfoldable pub get_content : ResultMatrix → ℤ → ℤ → ℤ → Option Bytes
unfolding get_result get_html_matrix get_html_row get_html_col number_to_string
get_content m target row col =
    let whole = (do
      t ← number_to_string i32_bound target
      view ← get_html_matrix m
      some (codes "<h2>Result Matrix " ++ (t ++ (codes "</h2>" ++ view)))) in
    let single_row = (do
      t ← number_to_string i32_bound target
      r ← number_to_string i32_bound row
      view ← get_html_row m row
      some (
          codes "<h2>Result Matrix "
          ++ (t ++ (codes ", row " ++ (r ++ (codes "</h2>" ++ view)))))) in
    let single_column = (do
      t ← number_to_string i32_bound target
      c ← number_to_string i32_bound col
      some (
          codes "<h2>Result Matrix "
          ++ (t ++ (codes ", column " ++ (c ++ (codes "</h2>" ++ get_html_col)))))) in
    let single_value = (do
      t ← number_to_string i32_bound target
      r ← number_to_string i32_bound row
      c ← number_to_string i32_bound col
      value ← get_result m row col
      some (
          codes "<span>Value of result matrix "
          ++ (t
              ++ (codes " at row "
                  ++ (r
                      ++ (codes ", column "
                          ++ (c ++ (codes ": " ++ (value ++ codes "</span>"))))))))) in
    if row ==ℤ minus_one
    then (if col ==ℤ minus_one then whole else single_column)
    else (if col ==ℤ minus_one then single_row else single_value)

-- No matrix has that number yet.
unfoldable pub missing_content : ℤ → Option Bytes
unfolding number_to_string
missing_content target = do
  t ← number_to_string i32_bound target
  some (codes "<span>Result Matrix " ++ (t ++ codes " could not be found</span>"))

unfoldable pub write_get_response : Matrices → ℤ → ℤ → ℤ → Option Bytes
unfolding find get_content missing_content write_to_tcp_buffer number_to_string
write_get_response ms target row col = do
  content ← elim (find target ms) [
    | none ↦ missing_content target
    | some m ↦ get_content m target row col
  ]
  len ← number_to_string i32_bound (pos (length content))
  write_to_tcp_buffer (
      codes "HTTP/1.1 200 OK\r\nContent-Type: text/html; charset=utf-8\r\nContent-Length: "
      ++ (len ++ (codes "\r\n\r\n" ++ content)))

abbrev pub post_response : Bytes
post_response = codes "HTTP/1.1 200 OK\r\n\r\n"

abbrev pub new_result_matrix : ℤ → ResultMatrix
new_result_matrix target = record { matrix_index = target; result_matrix = []; final_value = [] }

-- The matrix that a result goes to.
abbrev pub matrix_of : ℤ → Option ResultMatrix → ResultMatrix
matrix_of target none = new_result_matrix target
matrix_of target (some m) = m

-- What is sent, with the map behind it. The flag of the request is not used: every value is final.
unfoldable pub handle_request : Request → Matrices → Option (Option Bytes × Matrices)
unfolding write_get_response find put add_result
handle_request r ms =
    let got = write_get_response ms r.target_matrix r.row r.col >>= λ text. some (some text, ms) in
    let posted = (do
      content ← r.content
      m ← add_result (matrix_of r.target_matrix (find r.target_matrix ms)) content r.row r.col true
      some (some post_response, put r.target_matrix m ms)) in
    elim r.http_command [ get ↦ got | post ↦ posted ]

-- By what the parser returned.
unfoldable pub handle_outcome : Outcome → Matrices → Option (Option Bytes × Matrices)
unfolding handle_request
handle_outcome (done (valid r)) ms = handle_request r ms
handle_outcome (done invalid) ms = some (none, ms)
handle_outcome fault ms = none
handle_outcome out_of_fuel ms = none

-- One round of the loop in `main`, behind `recv`.
unfoldable pub handle_message : Bytes → Matrices → Option (Option Bytes × Matrices)
unfolding http_parse handle_outcome
handle_message buf ms = handle_outcome (http_parse buf) ms
