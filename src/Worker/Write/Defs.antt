-- ===== src/Worker/Write/Defs.antt =====
-- `writeToDatabase` of Worker/worker.cpp behind `mqtt_request`.
use distributed_matrix_multi.Prelude.{
  ℕ, ◌+◌, Bool, true, false, Option, none, some, List, [], ◌∷◌, ◌++◌, ◌>>=◌, if◌then◌else◌, Bytes,
  codes, starts_with, length, drop,
}
use distributed_matrix_multi.Worker.Handler.Defs.{HttpTask}
use distributed_matrix_multi.Worker.Message.{post_message}
use distributed_matrix_multi.Worker.Mutex.Defs.{
  LamportState, Published, mqtt_respond_to_open_requests,
}

-- What `recv` gives: an error, as after a timeout; zero, when the database has closed the connection; or
-- bytes, at most 19.
pub data Recv : Type 0 where
  failed closed : Recv
  received : Bytes → Recv

pub record Writer : Type 0 where
  pub lamport : LamportState
  pub buf_tcp : Bytes
  pub count_calculations : ℕ
  pub rtt_count : ℕ

-- The bytes go to the front of the buffer.
abbrev pub fill : Bytes → Bytes → Bytes
fill bytes buffer = bytes ++ drop (length bytes) buffer

abbrev pub http_ok : Bytes
http_ok = codes "HTTP/1.1 200 OK\r\n\r\n"

-- The loop goes on until `recv` returns zero; the buffer then. `none` means that it has not yet.
unfoldable pub await_close : List Recv → Bytes → Option Bytes
await_close [] buffer = none
await_close (closed ∷ rest) buffer = some buffer
await_close (failed ∷ rest) buffer = await_close rest buffer
await_close (received bytes ∷ rest) buffer = await_close rest (fill bytes buffer)

-- Only after the expected response the open requests are answered.
unfoldable pub conclude : Bytes → Writer → Bool × Writer × Published
conclude buffer w =
    if starts_with http_ok buffer
    then (let (lamport, published) = mqtt_respond_to_open_requests w.lamport in
        (
          true,
          record {
            lamport = lamport;
            buf_tcp = buffer;
            count_calculations = w.count_calculations + 1;
            rtt_count = w.rtt_count + 1;
          },
          published,
        ))
    else (false, record w { buf_tcp = buffer; rtt_count = w.rtt_count + 1 }, [])

unfoldable pub write_to_database :
    HttpTask → List Recv → Writer → Option (Bool × Writer × Published)
unfolding await_close conclude
write_to_database task incoming w = do
  msg ← post_message task
  buffer ← await_close incoming (fill msg w.buf_tcp)
  some (conclude buffer w)
