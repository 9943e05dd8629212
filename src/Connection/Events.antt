-- ===== src/Connection/Events.antt =====
-- src/connection.cpp: what `stream_closed` and `stream_receive` do to the map, to ngtcp2 and to the
-- user's callbacks.
use oxen_libquic.Base.{
  ℕ, suc, ◌+◌, ◌≡◌, refl, Bool, true, false, ◌&&◌, ◌||◌, Option, none, some, is_some, List, [], ◌∷◌,
  ◌++◌, ◌==◌, if◌then◌else◌, length, arith,
}
use oxen_libquic.Base.Outcome.{done}
use oxen_libquic.Stream.{
  Stream, io_ready, shutdown_stream, run_close_callback, close, shut, destroy,
  stream_error_exception,
}
use oxen_libquic.Connection.{
  Connection, Call, of_stream, extend_max_streams, extend_max_stream_offset, extend_max_offset,
  Answer, zero_rv, callback_failure, stream_closed, stream_receive, receive_by, of_streams, extend,
}
use oxen_libquic.Connection.Streams.{find}
use oxen_libquic.Connection.Streams.Order.{IsOrdered, find-erase, find-here, find-assign_any}

-- How often the calls run a close callback, shut a stream down, or let the peer open another stream.
abbrev pub close_callbacks : List Call → ℕ
close_callbacks [] = 0
close_callbacks (of_stream (run_close_callback f id code) ∷ cs) = suc (close_callbacks cs)
close_callbacks (_ ∷ cs) = close_callbacks cs

abbrev pub shutdowns : List Call → ℕ
shutdowns [] = 0
shutdowns (of_stream (shutdown_stream id code) ∷ cs) = suc (shutdowns cs)
shutdowns (_ ∷ cs) = shutdowns cs

abbrev pub streams_granted : List Call → ℕ
streams_granted [] = 0
streams_granted (extend_max_streams ∷ cs) = suc (streams_granted cs)
streams_granted (_ ∷ cs) = streams_granted cs

-- By how many bytes the calls extend what the peer may send on a stream, and on the connection.
abbrev pub stream_credit : ℕ → List Call → ℕ
stream_credit id [] = 0
stream_credit id (extend_max_stream_offset k n ∷ cs) =
    let rest = stream_credit id cs in if k == id then n + rest else rest
stream_credit id (_ ∷ cs) = stream_credit id cs

abbrev pub credit : List Call → ℕ
credit [] = 0
credit (extend_max_offset n ∷ cs) = n + credit cs
credit (_ ∷ cs) = credit cs

-- In an ordered map, a stream that ngtcp2 reports closed leaves the map and every other stays; its
-- close callback has run once, unless it was closing already; the peer may open another stream
-- unless this one was local; and the pending streams stay.
pub stream_closed_lem :
    (c : Connection) (id app_code : ℕ) (is_local : Bool) (s : Stream)
    → IsOrdered c.streams
    → find id c.streams ≡ some s
    → let (c', calls) = stream_closed c id app_code is_local in
      ((k : ℕ) → find k c'.streams ≡ (if k == id then none else find k c.streams))
      × (close_callbacks calls ≡ (if s.is_closing then 0 else 1))
      × (streams_granted calls ≡ (if is_local then 0 else 1))
      × (c'.pending_streams ≡ c.pending_streams)
unfolding stream_closed destroy
stream_closed_lem c id app_code is_local s o e =
    rw (e, stream_closed)
      (
        λ k. find-erase id k c.streams o,
        closes s.is_closing is_local,
        grants s.is_closing is_local,
        refl,
      )
  where
    calls : Bool → Bool → List Call
    calls closing is_local =
        of_streams (
          (if closing then [] else run_close_callback s.close_callback s.stream_id app_code ∷ [])
          ++ destroy (record s { is_closing = true; is_shutdown = true }))
        ++ (if is_local then [] else extend_max_streams ∷ [])
        ++ (of_stream io_ready ∷ [])

    closes :
        (closing is_local : Bool)
        → close_callbacks (calls closing is_local) ≡ (if closing then 0 else 1)
    closes closing is_local = ground arith

    grants :
        (closing is_local : Bool)
        → streams_granted (calls closing is_local) ≡ (if is_local then 0 else 1)
    grants closing is_local = ground arith

credit-close :
    (s : Stream) (code id : ℕ)
    → (stream_credit id (of_streams (close s code).1) ≡ 0)
      × (credit (of_streams (close s code).1) ≡ 0)
unfolding close shut
credit-close s code id = (ground arith, ground arith)

credit-extend :
    (id : ℕ) (bytes : List ℕ) (fin : Bool)
    → (stream_credit id (extend id bytes fin) ≡ (if fin then 0 else length bytes))
      × (credit (extend id bytes fin) ≡ (if fin then 0 else length bytes))
credit-extend id bytes fin = (ground arith, ground arith)

receive_by_lem :
    (c : Connection) (id : ℕ) (s : Stream) (cb : Option ℕ) (bytes : List ℕ) (fin cb_throws : Bool)
    → find id c.streams ≡ some s
    → let (c', calls, a) = receive_by c id s cb bytes fin cb_throws in
      let raised = is_some cb && cb_throws in
      let given = if raised || fin then 0 else length bytes in
      (a ≡ (if raised then callback_failure else zero_rv))
      × (stream_credit id calls ≡ given)
      × (credit calls ≡ given)
      × ((k : ℕ)
          → find k c'.streams ≡ (
              if k == id
              then some (if raised then (close s stream_error_exception).0 else s)
              else find k c.streams))
unfolding receive_by
receive_by_lem c id s none bytes fin cb_throws e =
    let (a, b) = credit-extend id bytes fin in (refl, a, b, λ k. find-here id k s c.streams e)
receive_by_lem c id s (some f) bytes fin false e =
    let (a, b) = credit-extend id bytes fin in (refl, a, b, λ k. find-here id k s c.streams e)
receive_by_lem c id s (some f) bytes fin true e =
    let s' : Stream = (close s stream_error_exception).0 in
    let (a, b) = credit-close s stream_error_exception id in
    (refl, a, b, λ k. find-assign_any id k s' c.streams)

-- Data for a stream of the map: where the data callback raises, ngtcp2 is told of a failure, the stream
-- is closed, and no credit is given; else the stream stays as it is, and the peer gets credit for just
-- the bytes received, on the stream and on the connection, unless they were the last.
pub stream_receive_lem :
    (c : Connection) (id : ℕ) (bytes : List ℕ) (fin cb_throws : Bool) (s : Stream)
    → find id c.streams ≡ some s
    → let raised = is_some s.data_callback && cb_throws in
      let given = if raised || fin then 0 else length bytes in
      (c' : Connection) × (calls : List Call) × (a : Answer) × (stream_receive c id bytes fin
          cb_throws
        ≡ done (c', calls, a))
      × (a ≡ (if raised then callback_failure else zero_rv))
      × (stream_credit id calls ≡ given)
      × (credit calls ≡ given)
      × ((k : ℕ)
          → find k c'.streams ≡ (
              if k == id
              then some (if raised then (close s stream_error_exception).0 else s)
              else find k c.streams))
unfolding stream_receive
stream_receive_lem c id bytes fin cb_throws s e =
    let r : Connection × List Call × Answer =
      receive_by c id s s.data_callback bytes fin cb_throws in
    let (a, on_stream, on_conn, found) =
      receive_by_lem c id s s.data_callback bytes fin cb_throws e in
    (r.0, r.1, r.2, rw (e, stream_receive) refl, a, on_stream, on_conn, found)
