-- ===== src/Connection/Life/Tests.antt =====
-- The life of a connection that opens a stream, sends two bytes and flushes them.
use oxen_libquic.Base.{
  ℕ, zero, suc, ◌≤◌, ◌≡◌, refl, Bool, false, Option, none, some, List, [], ◌∷◌, arith, length,
}
use oxen_libquic.Base.Int.{pos}
use oxen_libquic.Base.Outcome.{done}
use oxen_libquic.IoResult.{IoResult, good}
use oxen_libquic.Context.{empty_context}
use oxen_libquic.Endpoint.Packets.{Queued, send_packets}
use oxen_libquic.Stream.{Stream, new_stream, set_ready, send, append_buffer, pending, wrote, unsent}
use oxen_libquic.Stream.Buffers.{Buffer, size, get_buffer_it, from_iterator}
use oxen_libquic.Stream.Contents.{concat, contents}
use oxen_libquic.Connection.{Connection, Answer, get_new_stream, stream_ack}
use oxen_libquic.Connection.Streams.{find, assign}
use oxen_libquic.Connection.Flush.{Write, congested, packet, Loop, flush_streams, flush_loop, body}
use oxen_libquic.Connection.Flush
use oxen_libquic.Connection.Flush.Ends.{Obeys, IsFlushed}
use oxen_libquic.Connection.Life.{Lives, born, then_lives, creates, sends, flushes}
use oxen_libquic.Connection.Life.Safe.{Lives-flush_streams}

abbrev fresh : Connection
fresh = record { context = empty_context; streams = []; pending_streams = [] }

abbrev opened : Connection
opened = (get_new_stream fresh none none (some 4)).0

abbrev stream : Stream
stream = set_ready (record (new_stream none none (pos 4)) { stream_id = pos 4 })

abbrev sent : Connection
sent = record opened { streams = assign 4 (send stream (5 ∷ 6 ∷ []) none).0 opened.streams }

-- An ngtcp2 that packs all that it is offered into a packet, once for a stream.
abbrev answer : ℕ → Option ℕ → Bool → List (List ℕ) → Write
answer zero who fin bufs = packet (1 ∷ []) (length (concat bufs))
answer (suc k) who fin bufs = congested

answer-Obeys : Obeys answer
answer-Obeys zero who fin bufs = omega arith
answer-Obeys (suc k) who fin bufs = omega arith

abbrev no_packets : Queued
no_packets = record { buf = []; bufsize = []; n_pkts = 0 }

abbrev socket : ℕ → IoResult × ℕ
socket k = (good, 1)

abbrev keep_owner : ℕ → ℕ → ℕ × List Buffer
keep_owner n s = (s, [])

abbrev in_flight : Stream
in_flight = record (send stream (5 ∷ 6 ∷ []) none).0 { unacked_size = 2 }

abbrev flushed : Connection
flushed = record sent { streams = (4, in_flight) ∷ [] }

abbrev end_loop : Loop
end_loop = record {
  streams = (4, in_flight) ∷ [];
  strs = [];
  queued = record { buf = 1 ∷ []; bufsize = 1 ∷ []; n_pkts = 0 };
  buf_pos = 1;
  stream_packets = 1;
  writes = 2;
  sends = 1;
  waiting = false;
  cancelled = false;
  written = (1 ∷ []) ∷ [];
  accepted = (1 ∷ []) ∷ [];
}

ends : flush_streams 24 answer socket 20 12000 1200 0 sent.streams no_packets ≡ done end_loop
unfolding flush_streams flush_loop body get_new_stream assign find send append_buffer set_ready
    new_stream pending wrote unsent size get_buffer_it from_iterator send_packets Flush.send
ends = refl

life : Lives keep_owner 0 fresh flushed
unfolding get_new_stream assign find send append_buffer set_ready new_stream
life =
    then_lives _ _
      (then_lives _ _ (then_lives _ _ born (creates fresh none none (some 4)))
        (sends opened 4 stream (5 ∷ 6 ∷ []) none refl (omega arith)))
      (flushes sent 24 answer socket 20 12000 1200 0 no_packets end_loop answer-Obeys refl
        (omega arith) (omega arith) (omega arith) ends)

Lives-flush_streams_example :
    ((l : Loop) × (flush_streams 24 answer socket 20 12000 1200 0 flushed.streams no_packets
        ≡ done l)
      × IsFlushed 24 flushed.streams l)
    × ((s' : Stream) × (o : ℕ) × (a : Answer) × (stream_ack keep_owner (some 0) flushed 4 2 7
          ≡ done (record flushed { streams = assign 4 s' flushed.streams }, o, a))
        × (s'.unacked_size ≤ length (contents s'.user_buffers)))
unfolding find
Lives-flush_streams_example =
    Lives-flush_streams keep_owner 0 fresh flushed 24 answer socket 20 12000 1200 0 no_packets 4 2 7
      in_flight refl refl life answer-Obeys refl (omega arith) (omega arith) (omega arith) refl
      (omega arith)
