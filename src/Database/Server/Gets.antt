-- ===== src/Database/Server/Gets.antt =====
-- The request of a reader for one value, and the response of Database/database.cpp.
use distributed_matrix_multi.Prelude.{
  ℕ, ◌≤◌, ◌<◌, ◌≡◌, refl, false, ℤ, Option, some, ◌++◌, ◌>>=◌, arith, ltb, pos, Bytes, codes,
  length, length-append, i32_bound,
}
use distributed_matrix_multi.Decimal.Print.{number_to_string}
use distributed_matrix_multi.Decimal.Printed.{
  Printed-length, number_to_string-Printed, number_to_string_total,
}
use distributed_matrix_multi.Decimal.Read.{minus_one, ◌==ℤ◌}
use distributed_matrix_multi.Database.ResultMatrix.Defs.{ResultMatrix, get_result}
use distributed_matrix_multi.Database.Server.Defs.{
  Matrices, find, tcp_buflen, write_to_tcp_buffer, get_content, write_get_response,
}

-- The value of one cell as it is put before a reader.
abbrev pub value_content : Bytes → Bytes → Bytes → Bytes → Bytes
value_content target row col value =
    codes "<span>Value of result matrix "
    ++ (target
        ++ (codes " at row "
            ++ (row ++ (codes ", column " ++ (col ++ (codes ": " ++ (value ++ codes "</span>")))))))

abbrev pub html_response : Bytes → Bytes → Bytes
html_response len content =
    codes "HTTP/1.1 200 OK\r\nContent-Type: text/html; charset=utf-8\r\nContent-Length: "
    ++ (len ++ (codes "\r\n\r\n" ++ content))

-- A content of which the length is given.
unfoldable pub with_length : Bytes → Option Bytes
unfolding number_to_string
with_length content = do
  len ← number_to_string i32_bound (pos (length content))
  some (html_response len content)

-- The whole response with a value, with the numbers in decimal.
unfoldable pub value_response : ℕ → ℕ → ℕ → Bytes → Option Bytes
unfolding number_to_string with_length
value_response target row col value = do
  target_text ← number_to_string i32_bound (pos target)
  row_text ← number_to_string i32_bound (pos row)
  col_text ← number_to_string i32_bound (pos col)
  with_length (value_content target_text row_text col_text value)

-- A number with its text, which has at most 21 bytes.
text_of :
    (n : ℕ)
    → n < i32_bound
    → (t : Bytes) × (number_to_string i32_bound (pos n) ≡ some t) × (length t ≤ 21)
text_of n h =
    let (t, e) = number_to_string_total i32_bound (pos n) (h, omega arith) (omega arith) in
    (t, e, Printed-length t (number_to_string-Printed i32_bound (pos n) t e))

length-value_content :
    (target row col value : Bytes)
    → length target ≤ 21
    → length row ≤ 21
    → length col ≤ 21
    → length value ≤ 21
    → length (value_content target row col value) ≤ 200
length-value_content target row col value h₁ h₂ h₃ h₄ = omega (
  arith,
  length-append target (
      codes " at row "
      ++ (row ++ (codes ", column " ++ (col ++ (codes ": " ++ (value ++ codes "</span>")))))),
  length-append row (codes ", column " ++ (col ++ (codes ": " ++ (value ++ codes "</span>")))),
  length-append col (codes ": " ++ (value ++ codes "</span>")),
  length-append value (codes "</span>"),
)

fits_buffer :
    (len content : Bytes)
    → length len ≤ 21
    → length content ≤ 200
    → write_to_tcp_buffer (html_response len content) ≡ some (html_response len content)
unfolding write_to_tcp_buffer
fits_buffer len content h k =
    let small : ltb tcp_buflen (length (html_response len content)) ≡ false =
      ground (arith, length-append len (codes "\r\n\r\n" ++ content)) in
    rw small refl

content_response :
    (ms : Matrices) (m : ResultMatrix) (target row col : ℤ) (content : Bytes)
    → find target ms ≡ some m
    → get_content m target row col ≡ some content
    → length content ≤ 200
    → (response : Bytes) × (with_length content ≡ some response)
      × (write_get_response ms target row col ≡ some response)
unfolding with_length write_get_response
content_response ms m target row col content found e small =
    let (len, el, ll) = text_of (length content) (omega arith) in
    (
      html_response len content,
      rw (el, ◌>>=◌) refl,
      rw (found, e, ◌>>=◌, el, ◌>>=◌) (fits_buffer len content ll small),
    )

get_content-value :
    (m : ResultMatrix) (target row col : ℕ) (t r c value : Bytes)
    → number_to_string i32_bound (pos target) ≡ some t
    → number_to_string i32_bound (pos row) ≡ some r
    → number_to_string i32_bound (pos col) ≡ some c
    → get_result m (pos row) (pos col) ≡ some value
    → get_content m (pos target) (pos row) (pos col) ≡ some (value_content t r c value)
unfolding get_content
get_content-value m target row col t r c value et er ec got =
    let row_given : (pos row ==ℤ minus_one) ≡ false = ground arith in
    let col_given : (pos col ==ℤ minus_one) ≡ false = ground arith in
    rw (row_given, col_given, et, ◌>>=◌, er, ◌>>=◌, ec, ◌>>=◌, got, ◌>>=◌) refl

-- The response that the database writes for a value that it has.
pub write_get_response-value :
    (ms : Matrices) (target row col : ℕ) (m : ResultMatrix) (value : Bytes)
    → target < i32_bound
    → row < i32_bound
    → col < i32_bound
    → find (pos target) ms ≡ some m
    → get_result m (pos row) (pos col) ≡ some value
    → length value ≤ 21
    → (response : Bytes) × (value_response target row col value ≡ some response)
      × (write_get_response ms (pos target) (pos row) (pos col) ≡ some response)
unfolding value_response
write_get_response-value ms target row col m value ht hr hc found got short =
    let (t, et, lt) = text_of target ht in
    let (r, er, lr) = text_of row hr in
    let (c, ec, lc) = text_of col hc in
    let (response, e, written) =
      content_response ms m (pos target) (pos row) (pos col) (value_content t r c value) found
        (get_content-value m target row col t r c value et er ec got)
        (length-value_content t r c value lt lr lc short) in
    (response, rw (et, ◌>>=◌, er, ◌>>=◌, ec, ◌>>=◌) e, written)
