-- ===== src/Database/Http/Tests.antt =====
-- Runs of `httpParse` of Database/database.cpp, on requests of readers and on a worker's request.
use distributed_matrix_multi.Prelude.{
  ◌≡◌, ◌≢◌, refl, true, false, some, none, [], ◌∷◌, ◌++◌, arith, pos, negsuc, Bytes, codes,
}
use distributed_matrix_multi.Decimal.Read.{minus_one}
use distributed_matrix_multi.Worker.Handler.Defs.{HttpTask}
use distributed_matrix_multi.Worker.Message.{post_message}
use distributed_matrix_multi.Database.Http.Parse.{get, done, out_of_fuel, valid, http_parse}
use distributed_matrix_multi.Database.Http.Ends.{http_parse_ends}
use distributed_matrix_multi.Database.Http.Gets.{get_message, get_request, http_parse-get_message}
use distributed_matrix_multi.Database.Http.Posted.{IsPostable, request_of, http_parse-post_message}

abbrev get_text : Bytes
get_text = codes "GET /7 HTTP/1.1\r\nRow: 2\r\nHost: db\r\n\r\n"

get_text_parses :
    http_parse get_text
    ≡ done (
        valid (record {
          http_command = get;
          target_matrix = pos 7;
          row = pos 2;
          col = minus_one;
          last_chunk = false;
          content = none;
        }))
unfolding http_parse
get_text_parses = refl

http_parse_ends_example : http_parse get_text ≢ out_of_fuel
http_parse_ends_example = http_parse_ends get_text

abbrev stored : HttpTask
stored = record { result_matrix = 3; row = 10; col = 0; result = negsuc 1204; last_chunk = true }

stored-IsPostable : IsPostable stored
stored-IsPostable = record {
  matrix_readable = omega arith;
  row_readable = omega arith;
  col_readable = omega arith;
  result_readable = (omega arith, omega arith);
}

http_parse-post_message_example :
    (message : Bytes) × (post_message stored ≡ some message)
    × (http_parse (message ++ (0 ∷ 0 ∷ [])) ≡ request_of stored)
http_parse-post_message_example = http_parse-post_message stored (0 ∷ 0 ∷ []) stored-IsPostable refl

http_parse-get_message_example :
    (message : Bytes) × (get_message 7 none (some 2) ≡ some message)
    × (http_parse (message ++ (0 ∷ [])) ≡ get_request 7 none (some 2))
http_parse-get_message_example =
    http_parse-get_message 7 none (some 2) (0 ∷ []) (omega arith) tt (omega arith)
