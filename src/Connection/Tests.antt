-- ===== src/Connection/Tests.antt =====
-- The theorems on a connection, with one stream open and two pending.
use oxen_libquic.Base.{
  ◌<◌, ◌^◌, ◌*◌, ◌-◌, ℕ, zero, suc, ◌≤◌, ◌≡◌, refl, Bool, true, false, Option, none, some, List, [],
  ◌∷◌, ◌++◌, ◌==◌, if◌then◌else◌, arith, length, map, take, drop,
}
use oxen_libquic.Base.Int.{ℤ, pos, negsuc}
use oxen_libquic.Base.Outcome.{done}
use oxen_libquic.IoResult.{good}
use oxen_libquic.Stream.{Stream, CloseCallback, close, stream_error_exception}
use oxen_libquic.Stream.Contents.{concat}
use oxen_libquic.Context.{Context}
use oxen_libquic.Connection.{
  Connection, Call, Answer, callback_failure, zero_rv, check_pending_streams, stream_receive,
  get_new_stream,
}
use oxen_libquic.Connection.Streams.{find}
use oxen_libquic.Connection.Pending.{moves, placed, check_pending_streams_lem}
use oxen_libquic.Connection.Callbacks.{
  on_stream_reset, on_stream_close, on_stream_close-on_stream_reset,
}
use oxen_libquic.Connection.Events.{
  close_callbacks, streams_granted, stream_credit, credit, stream_receive_lem,
}
use oxen_libquic.Connection.Timer.{
  schedule_retransmit, after, micros, schedule_retransmit_exact, schedule_retransmit_overdue,
}
use oxen_libquic.Connection.Flush.{Write, congested, packet, Loop, flush_streams}
use oxen_libquic.Connection.Flush.Ends.{Obeys, IsFlushed}
use oxen_libquic.Connection.Flush.Total.{flush_streams-done}

abbrev stream : ℤ → Bool → Stream
stream id is_ready = record {
  stream_id = id;
  data_callback = some 1;
  close_callback = CloseCallback.user_cb 2;
  user_buffers = record { view = 5 ∷ 6 ∷ []; keep_alive = none } ∷ [];
  unacked_size = 0;
  is_closing = false;
  is_shutdown = false;
  sent_fin = false;
  ready = is_ready;
}

abbrev context : Context
context = record {
  tls_creds = none;
  stream_data_cb = some 1;
  stream_open_cb = none;
  stream_close_cb = some 2;
  max_streams = pos 0;
}

abbrev conn : Connection
conn = record {
  context = context;
  streams = (4, stream (pos 4) true) ∷ [];
  pending_streams = stream (negsuc 0) false ∷ stream (negsuc 0) false ∷ [];
}

check_pending_streams_lem_example :
    let c' = check_pending_streams conn 1 (some 8 ∷ some 12 ∷ []) in
    let es = moves 1 (some 8 ∷ some 12 ∷ []) conn.pending_streams in
    (c'.pending_streams ≡ drop (length es) conn.pending_streams)
    × (map (λ e. e.1) es ≡ take (length es) conn.pending_streams)
    × (length es ≤ 1)
    × ((k : ℕ) → find k c'.streams ≡ placed k es (find k conn.streams))
check_pending_streams_lem_example =
    check_pending_streams_lem conn 1 (some 8 ∷ some 12 ∷ []) (tt, tt)

on_stream_close-on_stream_reset_example :
    let (c1, calls1, answer1) = on_stream_reset conn 4 9 false in
    let (c2, calls2, answer2) = on_stream_close c1 4 7 false in
    ((k : ℕ) → find k c2.streams ≡ (if k == 4 then none else find k conn.streams))
    × (close_callbacks (calls1 ++ calls2) ≡ 1)
    × (streams_granted (calls1 ++ calls2) ≡ 1)
    × (c2.pending_streams ≡ conn.pending_streams)
    × (answer1 ≡ zero_rv)
    × (answer2 ≡ zero_rv)
unfolding find
on_stream_close-on_stream_reset_example =
    on_stream_close-on_stream_reset conn 4 9 7 false (stream (pos 4) true) ((refl, refl), tt, tt)
      refl

stream_receive_lem_example :
    (c' : Connection) × (calls : List Call) × (a : Answer) × (stream_receive conn 4
        (1 ∷ 2 ∷ 3 ∷ [])
        false
        true
      ≡ done (c', calls, a))
    × (a ≡ callback_failure)
    × (stream_credit 4 calls ≡ 0)
    × (credit calls ≡ 0)
    × ((k : ℕ)
        → find k c'.streams ≡ (
            if k == 4
            then some (close (stream (pos 4) true) stream_error_exception).0
            else find k conn.streams))
unfolding find
stream_receive_lem_example =
    stream_receive_lem conn 4 (1 ∷ 2 ∷ 3 ∷ []) false true (stream (pos 4) true) refl

abbrev fresh : Connection
fresh = record { context = context; streams = []; pending_streams = [] }

-- A stream that must wait, and is opened later.
abbrev waits : Connection
waits = (get_new_stream fresh none none none).0

-- An ngtcp2 that packs all that it is offered into a packet, once for a stream.
abbrev answer : ℕ → Option ℕ → Bool → List (List ℕ) → Write
answer zero who fin bufs = packet (1 ∷ []) (length (concat bufs))
answer (suc k) who fin bufs = congested

answer-Obeys : Obeys answer
answer-Obeys zero who fin bufs = omega arith
answer-Obeys (suc k) who fin bufs = omega arith

flush_streams-done_example :
    (l : Loop) × (flush_streams 24 answer
        (λ k. (good, 1))
        20
        12000
        1200
        0
        conn.streams
        (record { buf = []; bufsize = []; n_pkts = 0 })
      ≡ done l)
    × IsFlushed 24 conn.streams l
flush_streams-done_example =
    flush_streams-done 24 answer (λ k. (good, 1)) 20 12000 1200 0 conn.streams
      (record { buf = []; bufsize = []; n_pkts = 0 }) answer-Obeys
      (record { in_queue = omega arith; fits = omega arith }, tt) refl (omega arith) (omega arith)
      (omega arith)

schedule_retransmit_exact_example :
    (sec usec : ℕ) × (schedule_retransmit 5000000001 1000000000 ≡ after sec usec)
    × (usec < 1000000)
    × (4000000001 ≤ micros sec usec * 1000)
    × (micros sec usec * 1000 < 4000001001)
schedule_retransmit_exact_example =
    schedule_retransmit_exact 5000000001 1000000000 (omega arith) (omega arith) (omega arith)

schedule_retransmit_overdue_example :
    (sec usec : ℕ) × (schedule_retransmit 1000000000 1000001000 ≡ after sec usec)
    × (2 ^ 64 - 1000 ≤ micros sec usec * 1000)
schedule_retransmit_overdue_example =
    schedule_retransmit_overdue 1000000000 1000001000 (omega arith) (omega arith)
