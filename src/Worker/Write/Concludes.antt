-- ===== src/Worker/Write/Concludes.antt =====
-- How a call of `writeToDatabase` of Worker/worker.cpp ends, by what the database sends and when.
use mathlib.Core.Option.{some_inj}
use distributed_matrix_multi.Decimal.Print.{number_to_string}
use distributed_matrix_multi.Prelude.{
  ℕ, ◌+◌, ◌≡◌, ◌≢◌, refl, sym, ap, subst, ◌∙◌, Bool, true, false, some, List, [], ◌∷◌, ◌++◌, arith,
  >>=-eq-some, i32_bound, i64_bound, pos, ◌==◌, Bytes, codes, starts_with, length, drop, All,
  All-append_split,
}
use distributed_matrix_multi.Worker.Handler.Defs.{HttpTask}
use distributed_matrix_multi.Worker.Message.{post_message}
use distributed_matrix_multi.Worker.Mutex.Defs.{Published, mqtt_respond_to_open_requests}
use distributed_matrix_multi.Worker.Write.Defs.{
  Recv, failed, closed, received, Writer, fill, http_ok, await_close, conclude, write_to_database,
}

abbrev pub IsFailure : Recv → Type 0
IsFailure r = r ≡ failed

await_close-failures :
    (failures rest : List Recv) (buffer : Bytes)
    → All IsFailure failures
    → await_close (failures ++ rest) buffer ≡ await_close rest buffer
unfolding await_close
await_close-failures [] rest buffer h = refl
await_close-failures (r ∷ failures) rest buffer h =
    rw h.0 (await_close-failures failures rest buffer h.1)

-- The first byte of the response does not come again in it.
abbrev IsLater : ℕ → Type 0
IsLater c = (c == b'H') ≡ false

tail-IsLater : All IsLater (codes "TTP/1.1 200 OK\r\n\r\n")
tail-IsLater = (
  refl,
  (
    refl,
    (
      refl,
      (
        refl,
        (
          refl,
          (
            refl,
            (
              refl,
              (
                refl,
                (refl, (refl, (refl, (refl, (refl, (refl, (refl, (refl, (refl, (refl, tt)))))))))),
              ),
            ),
          ),
        ),
      ),
    ),
  ),
)

starts_with-append : (xs ys : Bytes) → starts_with xs (xs ++ ys) ≡ true
starts_with-append [] ys = refl
starts_with-append (x ∷ xs) ys =
    let e : (x == x) ≡ true = ground arith in rw e (starts_with-append xs ys)

second_part-refused :
    (first second rest : Bytes)
    → first ++ second ≡ http_ok
    → first ≢ []
    → second ≢ []
    → starts_with http_ok (second ++ rest) ≡ false
second_part-refused [] second rest e n m = absurd (n refl)
second_part-refused (c ∷ first) [] rest e n m = absurd (m refl)
second_part-refused (c ∷ first) (d ∷ second) rest e n m =
    let same_tail : first ++ d ∷ second ≡ codes "TTP/1.1 200 OK\r\n\r\n" = ap (drop 1) e in
    let parts =
      All-append_split IsLater first (d ∷ second)
        (subst (All IsLater) (sym same_tail) tail-IsLater) in
    rw parts.1.0 refl

-- What the buffer has at its front when nothing has come.
post_message-refused :
    (task : HttpTask) (msg rest : Bytes)
    → post_message task ≡ some msg
    → starts_with http_ok (msg ++ rest) ≡ false
unfolding post_message
post_message-refused task msg rest e =
    let (target, e0, e1) = >>=-eq-some (number_to_string i32_bound (pos task.result_matrix)) _ e in
    let (row, e2, e3) = >>=-eq-some (number_to_string i64_bound (pos task.row)) _ e1 in
    let (col, e4, e5) = >>=-eq-some (number_to_string i64_bound (pos task.col)) _ e3 in
    let (result, e6, e7) = >>=-eq-some (number_to_string i64_bound task.result) _ e5 in
    let (len, e8, e9) = >>=-eq-some (number_to_string i64_bound (pos (length result))) _ e7 in
    subst (λ m. starts_with http_ok (m ++ rest) ≡ false) (some_inj.0 e9) refl

-- The call has succeeded, and the requests that were held back are answered.
abbrev pub succeeded : Bytes → Writer → Bool × Writer × Published
succeeded buffer w = (
  true,
  record {
    lamport = (mqtt_respond_to_open_requests w.lamport).0;
    buf_tcp = buffer;
    count_calculations = w.count_calculations + 1;
    rtt_count = w.rtt_count + 1;
  },
  (mqtt_respond_to_open_requests w.lamport).1,
)

-- The call has failed: the own request stays open, and nothing is published.
abbrev pub not_answered : Bytes → Writer → Bool × Writer × Published
not_answered buffer w = (false, record w { buf_tcp = buffer; rtt_count = w.rtt_count + 1 }, [])

conclude-succeeded :
    (buffer : Bytes) (w : Writer)
    → starts_with http_ok buffer ≡ true
    → conclude buffer w ≡ succeeded buffer w
unfolding conclude
conclude-succeeded buffer w e = rw e refl

conclude-not_answered :
    (buffer : Bytes) (w : Writer)
    → starts_with http_ok buffer ≡ false
    → conclude buffer w ≡ not_answered buffer w
unfolding conclude
conclude-not_answered buffer w e = rw e refl

-- How the call ends, when the response comes in one piece, in two, or not at all; `before`, `between` and
-- `behind` are failed calls of `recv`, and `buffer` is the buffer with the request.
pub record Concludes (task : HttpTask) (buffer : Bytes) (w : Writer)
    (before between behind rest : List Recv) : Type 0 where
  pub whole :
      write_to_database task (before ++ received http_ok ∷ (behind ++ closed ∷ rest)) w
      ≡ some (succeeded (fill http_ok buffer) w)
  pub in_parts :
      (first second : Bytes)
      → first ++ second ≡ http_ok
      → first ≢ []
      → second ≢ []
      → write_to_database task
          (before ++ received first ∷ (between ++ received second ∷ (behind ++ closed ∷ rest)))
          w
        ≡ some (not_answered (fill second (fill first buffer)) w)
  pub nothing : write_to_database task (before ++ closed ∷ rest) w ≡ some (not_answered buffer w)

module _ (task : HttpTask) (msg : Bytes) (w : Writer) (sent : post_message task ≡ some msg) where
  write_to_database-await_close :
      (incoming : List Recv) (buffer : Bytes)
      → await_close incoming (fill msg w.buf_tcp) ≡ some buffer
      → write_to_database task incoming w ≡ some (conclude buffer w)
  unfolding write_to_database
  write_to_database-await_close incoming buffer e = rw (sent, e) refl

  -- The call succeeds when the response `HTTP/1.1 200 OK` of the database comes in one piece before the
  -- database closes the connection, however many calls of `recv` fail in between: then the requests that
  -- were held back are answered. When it comes in two pieces, of which the second overwrites the first in
  -- the buffer, or not at all, the call fails, the worker's request stays open, and nothing is answered.
  pub write_to_database-Concludes :
      (before between behind rest : List Recv)
      → All IsFailure before
      → All IsFailure between
      → All IsFailure behind
      → Concludes task (fill msg w.buf_tcp) w before between behind rest
  unfolding await_close
  write_to_database-Concludes before between behind rest h k l =
      let buffer = fill msg w.buf_tcp in
      record {
        whole =
            write_to_database-await_close _ (fill http_ok buffer) (
              await_close-failures before _ buffer h
              ∙ await_close-failures behind (closed ∷ rest) (fill http_ok buffer) l)
            ∙ ap some (
                conclude-succeeded (fill http_ok buffer) w
                  (starts_with-append http_ok (drop 19 buffer)));
        in_parts = λ first second e n m.
            write_to_database-await_close _ (fill second (fill first buffer)) (
              await_close-failures before _ buffer h
              ∙ (await_close-failures between _ (fill first buffer) k
                  ∙ await_close-failures behind (closed ∷ rest) (fill second (fill first buffer))
                      l))
            ∙ ap some (
                conclude-not_answered (fill second (fill first buffer)) w
                  (second_part-refused first second _ e n m));
        nothing =
            write_to_database-await_close _ buffer (await_close-failures before _ buffer h)
            ∙ ap some (conclude-not_answered buffer w (post_message-refused task msg _ sent));
      }
