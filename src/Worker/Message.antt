-- ===== src/Worker/Message.antt =====
-- The request that `writeToDatabase` of Worker/worker.cpp sends to the database: the text that it
-- puts together from the task and writes to its buffer.
use distributed_matrix_multi.Prelude.{
  Bool, Option, some, ◌++◌, ◌>>=◌, if◌then◌else◌, pos, Bytes, codes, length, i32_bound, i64_bound,
}
use distributed_matrix_multi.Decimal.Print.{number_to_string}
use distributed_matrix_multi.Worker.Handler.Defs.{HttpTask}

-- The text of the Last-Chunk field.
abbrev pub last_chunk_text : Bool → Bytes
last_chunk_text last_chunk = if last_chunk then codes "TRUE" else codes "FALSE"

abbrev pub post_text : Bytes → Bytes → Bytes → Bool → Bytes → Bytes → Bytes
post_text target row col last_chunk len result =
    codes "POST /"
    ++ (target
        ++ (codes " HTTP/1.1\r\nRow: "
            ++ (row
                ++ (codes "\r\nColumn: "
                    ++ (col
                        ++ (codes "\r\nLast-Chunk: "
                            ++ (last_chunk_text last_chunk
                                ++ (codes "\r\nContent-Length: "
                                    ++ (len ++ (codes "\r\n\r\n\r\n" ++ result))))))))))

-- `result_matrix` is an `int`; the other numbers are of type `long long`.
unfoldable pub post_message : HttpTask → Option Bytes
unfolding number_to_string
post_message task = do
  target ← number_to_string i32_bound (pos task.result_matrix)
  row ← number_to_string i64_bound (pos task.row)
  col ← number_to_string i64_bound (pos task.col)
  result ← number_to_string i64_bound task.result
  len ← number_to_string i64_bound (pos (length result))
  some (post_text target row col task.last_chunk len result)
