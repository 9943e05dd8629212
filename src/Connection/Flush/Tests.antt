-- ===== src/Connection/Flush/Tests.antt =====
-- A stream whose bytes go into a packet, a second packet, and a socket that takes one of the two.
use oxen_libquic.Base.{
  ℕ, zero, suc, ◌≡◌, refl, Bool, true, false, Option, none, List, [], ◌∷◌, arith, inl, inr, length,
}
use oxen_libquic.Base.Int.{pos}
use oxen_libquic.Base.Outcome.{done}
use oxen_libquic.IoResult.{IoResult, good}
use oxen_libquic.Endpoint.Packets.{Queued, send_packets, shift}
use oxen_libquic.Stream.{Stream, new_stream, pending, wrote, unsent}
use oxen_libquic.Stream.Buffers.{size, get_buffer_it, from_iterator}
use oxen_libquic.Stream.Contents.{concat}
use oxen_libquic.Connection.Streams.{find, assign}
use oxen_libquic.Connection.Flush.{Write, congested, packet, Loop, flush_streams, flush_loop, body}
use oxen_libquic.Connection.Flush
use oxen_libquic.Connection.Flush.Ends.{Obeys}
use oxen_libquic.Connection.Flush.Conserved.{IsConserved, flush_streams-IsConserved}
use oxen_libquic.Connection.Flush.Resume.{resume}
use oxen_libquic.Connection.Flush.Drained.{flush_streams-resume}

abbrev stream : ℕ → Stream
stream unacked = record {
  stream_id = pos 4;
  data_callback = none;
  close_callback = (new_stream none none (pos 4)).close_callback;
  user_buffers = record { view = 5 ∷ 6 ∷ []; keep_alive = none } ∷ [];
  unacked_size = unacked;
  is_closing = false;
  is_shutdown = false;
  sent_fin = false;
  ready = true;
}

-- An ngtcp2 that has something of its own to send after the first packet.
abbrev answer : ℕ → Option ℕ → Bool → List (List ℕ) → Write
answer zero who fin bufs = packet (1 ∷ []) (length (concat bufs))
answer (suc zero) who fin bufs = packet (2 ∷ 3 ∷ []) 0
answer (suc (suc k)) who fin bufs = congested

answer-Obeys : Obeys answer
answer-Obeys zero who fin bufs = omega arith
answer-Obeys (suc zero) who fin bufs = omega arith
answer-Obeys (suc (suc k)) who fin bufs = omega arith

abbrev socket : ℕ → IoResult × ℕ
socket k = (good, 1)

-- What an earlier batch has left in the arrays.
abbrev old_bytes : Queued
old_bytes = record { buf = 9 ∷ 9 ∷ 9 ∷ 9 ∷ []; bufsize = 4 ∷ []; n_pkts = 0 }

abbrev end_loop : Loop
end_loop = record {
  streams = (4, stream 2) ∷ [];
  strs = [];
  queued = record { buf = 2 ∷ 3 ∷ 3 ∷ 9 ∷ []; bufsize = 2 ∷ 2 ∷ []; n_pkts = 1 };
  buf_pos = 3;
  stream_packets = 2;
  writes = 2;
  sends = 1;
  waiting = true;
  cancelled = false;
  written = (1 ∷ []) ∷ (2 ∷ 3 ∷ []) ∷ [];
  accepted = (1 ∷ []) ∷ [];
}

ends : flush_streams 2 answer socket 20 12000 1200 0 ((4, stream 0) ∷ []) old_bytes ≡ done end_loop
unfolding flush_streams flush_loop body assign find pending wrote unsent size get_buffer_it
    from_iterator send_packets shift new_stream Flush.send Flush.send_batch
ends = refl

flush_streams-IsConserved_example :
    (l : Loop) × (flush_streams 2 answer socket 20 12000 1200 0 ((4, stream 0) ∷ []) old_bytes
      ≡ done l)
    × IsConserved socket l
flush_streams-IsConserved_example =
    flush_streams-IsConserved 2 answer socket 20 12000 1200 0 ((4, stream 0) ∷ []) old_bytes
      answer-Obeys (record { in_queue = omega arith; fits = omega arith }, tt) refl (omega arith)
      (omega arith) (omega arith)

flush_streams-resume_example :
    let (ready, l') = resume end_loop ((good, 0) ∷ (good, 1) ∷ []) in
    (ready ≡ true) × (l'.queued.n_pkts ≡ 0) × (l'.accepted ≡ (1 ∷ []) ∷ (2 ∷ 3 ∷ []) ∷ [])
flush_streams-resume_example =
    flush_streams-resume 2 answer socket 20 12000 1200 0 ((4, stream 0) ∷ []) old_bytes end_loop
      ((good, 0) ∷ (good, 1) ∷ []) refl ends refl
      (inr (omega arith, refl, inl (omega arith, refl, refl)))
