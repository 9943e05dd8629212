-- ===== src/Stream/Tests.antt =====
-- The theorems on a stream, at small queues.
use oxen_libquic.Base.{
  ℕ, zero, suc, ◌+◌, ◌≤◌, ◌<◌, ◌≡◌, refl, List, [], ◌∷◌, ◌++◌, true, false, none, some, arith,
  length, if◌then◌else◌, ◌&&◌, ◌⊎◌,
}
use oxen_libquic.Base.Int.{pos}
use oxen_libquic.Base.Outcome.{done}
use oxen_libquic.Stream.Buffers.{Buffer, Left, views}
use oxen_libquic.Stream.{Stream, CloseCallback, pending, acknowledge, available, destroy}
use oxen_libquic.Stream.Contents.{contents, concat, IsValid}
use oxen_libquic.Stream.Pending.{pending-contents}
use oxen_libquic.Stream.Acks.{acknowledge-contents}
use oxen_libquic.Stream.Window.{queued, took, acked, run, window, spec_run, spec_step, run-window}
use oxen_libquic.Stream.Emptied.{quiet}
use oxen_libquic.Stream.Closing.{close_all, shutdowns, close_all_lem}
use oxen_libquic.Stream.Chunks.{ChunkSender, new_sender, queue_chunks, release_chunk}
use oxen_libquic.Stream.Chunks.Order.{queue_chunks-chunks}
use oxen_libquic.Stream.Chunks.Flight.{acknowledge-in_flight, in_flight}

abbrev buffer : List ℕ → Buffer
buffer v = record { view = v; keep_alive = some 0 }

-- Three bytes in two buffers, of which the first two bytes are in flight.
abbrev two_buffers : Stream
two_buffers = record {
  stream_id = pos 4;
  data_callback = none;
  close_callback = CloseCallback.log_only;
  user_buffers = buffer (1 ∷ []) ∷ buffer (2 ∷ 3 ∷ []) ∷ [];
  unacked_size = 2;
  is_closing = false;
  is_shutdown = false;
  sent_fin = false;
  ready = true;
}

two_buffers-IsValid : IsValid two_buffers
two_buffers-IsValid = record { in_queue = omega arith; fits = omega arith }

pending-contents_example :
    (vs : List (List ℕ)) × (pending two_buffers ≡ done vs) × (concat vs ≡ 3 ∷ [])
pending-contents_example = pending-contents two_buffers two_buffers-IsValid

acknowledge-contents_example :
    (s' : Stream) × (l : Left Unit) × (acknowledge quiet (some 7) 3 two_buffers 2 tt ≡ done (s', l))
    × (contents s'.user_buffers ≡ (3 ∷ []) ++ contents l.appended)
    × (s'.unacked_size + 2 ≡ 2)
    × (s' ≡ record two_buffers { user_buffers = s'.user_buffers; unacked_size = s'.unacked_size })
acknowledge-contents_example =
    acknowledge-contents quiet 7 two_buffers 2 3 tt two_buffers-IsValid (omega arith) (omega arith)

-- The owner counts the objects that have gone.
abbrev counted : ℕ → ℕ → ℕ × List Buffer
counted j n = (suc n, [])

run-window_example :
    (s' : Stream) × (n : ℕ) × (run counted 0
        (two_buffers, 0)
        (acked 2 ∷ queued (buffer (9 ∷ [])) ∷ took 2 ∷ [])
      ≡ done (s', n))
    × (window s' ≡ record { in_flight = 3 ∷ 9 ∷ []; waiting = [] })
    × IsValid s'
unfolding window spec_run spec_step
run-window_example =
    run-window counted (λ j n. refl) 0 (acked 2 ∷ queued (buffer (9 ∷ [])) ∷ took 2 ∷ [])
      two_buffers 0 (record { in_flight = 3 ∷ 9 ∷ []; waiting = [] }) two_buffers-IsValid refl

close_all_lem_example :
    (shutdowns (close_all two_buffers (7 ∷ 8 ∷ [])).1 ≡ 1)
    × (available (close_all two_buffers (7 ∷ 8 ∷ [])).0 ≡ false)
    × ((close_all two_buffers (7 ∷ 8 ∷ [])).0.data_callback ≡ none)
    × (destroy (close_all two_buffers (7 ∷ 8 ∷ [])).0 ≡ [])
close_all_lem_example = close_all_lem two_buffers 7 (8 ∷ []) refl

-- Three chunks and then nothing.
abbrev next_chunk : ℕ → List ℕ
next_chunk zero = 1 ∷ 2 ∷ []
next_chunk (suc zero) = 3 ∷ []
next_chunk (suc (suc n)) = []

queue_chunks-chunks_example :
    let (c', bs) = queue_chunks next_chunk true 2 new_sender in
    (views bs ≡ (1 ∷ 2 ∷ []) ∷ (3 ∷ []) ∷ [])
    × (c'.done_calls ≡ (if c'.finished && true then 1 else 0))
    × (length bs ≤ 2)
    × ((c'.finished ≡ false) ⊎ (length bs < 2))
queue_chunks-chunks_example = queue_chunks-chunks next_chunk true 2 new_sender refl refl

-- A stream that holds the first chunk, sent in full.
abbrev one_chunk : Stream
one_chunk = record two_buffers {
  user_buffers = buffer (1 ∷ 2 ∷ []) ∷ buffer (7 ∷ []) ∷ [];
  unacked_size = 3;
}

acknowledge-in_flight_example :
    (s' : Stream) × (l : Left ChunkSender) × (acknowledge
        (release_chunk next_chunk true)
        (some 0)
        9
        one_chunk
        2
        (record { calls = 1; finished = false; done_calls = 0 })
      ≡ done (s', l))
    × (in_flight s'.user_buffers ≤ 2)
acknowledge-in_flight_example =
    acknowledge-in_flight next_chunk true 0 9 one_chunk 2
      (record { calls = 1; finished = false; done_calls = 0 })
      (record { in_queue = omega arith; fits = omega arith }) (omega arith) (omega arith)
