-- ===== src/Stream/Chunks/Flight.antt =====
-- How many chunks of a sender are in the stream at once.
use oxen_libquic.Base.{
  ◌<◌, length, ℕ, zero, suc, ◌+◌, ◌≤◌, ◌≡◌, Bool, ◌&&◌, not, List, [], ◌∷◌, ◌++◌, arith, length,
  inl, inr, Bool-cases, none, some, Option, leb, ◌==◌, sub_size,
}
use oxen_libquic.Base.Outcome.{Outcome, done, >>=-eq-done}
use oxen_libquic.Stream.{Stream, acknowledge}
use oxen_libquic.Stream.Buffers.{Buffer, Left, released, ack_loop, remove_rest}
use oxen_libquic.Stream.Contents.{IsValid}
use oxen_libquic.Stream.Acks.{acknowledge_full}
use oxen_libquic.Stream.Chunks.{ChunkSender, queue_next_chunk, release_chunk, take_chunk}

abbrev weight : Option ℕ → ℕ
weight none = 0
weight (some zero) = 1
weight (some (suc k)) = 0

-- The buffers that a chunk of the sender keeps alive.
abbrev pub in_flight : List Buffer → ℕ
in_flight [] = 0
in_flight (b ∷ bs) = weight b.keep_alive + in_flight bs

in_flight-append : (bs cs : List Buffer) → in_flight (bs ++ cs) ≡ in_flight bs + in_flight cs
in_flight-append [] cs = omega arith
in_flight-append (b ∷ bs) cs = omega (arith, in_flight-append bs cs)

module _ (next : ℕ → List ℕ) (has_done : Bool) where
  take_chunk-in_flight :
      (c : ChunkSender) (xs : List ℕ) → in_flight (take_chunk next has_done c xs).1 ≤ 1
  unfolding take_chunk
  take_chunk-in_flight c [] = omega arith
  take_chunk-in_flight c (x ∷ xs) = omega arith

  release_chunk-in_flight :
      (k : ℕ) (c : ChunkSender) → in_flight (release_chunk next has_done k c).1 ≤ weight (some k)
  unfolding release_chunk queue_next_chunk
  release_chunk-in_flight (suc k) c = omega arith
  release_chunk-in_flight zero c = elim (Bool-cases c.finished) [
    | inl e ↦ rw e (omega arith)
    | inr e ↦ rw e (take_chunk-in_flight _ _)
  ]

  released-in_flight :
      (a : Option ℕ) (c : ChunkSender)
      → in_flight (released (release_chunk next has_done) a c).1 ≤ weight a
  released-in_flight none c = omega arith
  released-in_flight (some k) c = release_chunk-in_flight k c

  popped-in_flight :
      (b : Buffer) (bs : List Buffer) (c : ChunkSender)
      → in_flight (bs ++ (released (release_chunk next has_done) b.keep_alive c).1)
        ≤ in_flight (b ∷ bs)
  popped-in_flight b bs c = omega (
    arith,
    in_flight-append bs (released (release_chunk next has_done) b.keep_alive c).1,
    released-in_flight b.keep_alive c,
  )

  ack_loop-in_flight :
      (empty_front : Option ℕ) (fuel : ℕ) (bufs : List Buffer) (bytes : ℕ) (c : ChunkSender)
      (app : List Buffer) (l : Left ChunkSender)
      → ack_loop (release_chunk next has_done) empty_front fuel bufs bytes c app ≡ done l
      → in_flight l.bufs ≤ in_flight bufs
  unfolding ack_loop
  ack_loop-in_flight o zero bufs bytes c app l h = absurd (cc)
  ack_loop-in_flight none (suc fuel) [] bytes c app l h = absurd (cc)
  ack_loop-in_flight (some k) (suc fuel) [] bytes c app l h = ground arith
  ack_loop-in_flight o (suc fuel) (b ∷ bs) bytes c app l h =
      elim (Bool-cases (leb (length b.view) bytes && not (bytes == 0))) [
        | inl e ↦
            omega (arith, popped-in_flight b bs c, ack_loop-in_flight o fuel _ _ _ _ l (rw e at h))
        | inr e ↦ ground (arith, e)
      ]

  remove_rest-in_flight :
      (l : Left ChunkSender) (bs : List Buffer) (l' : Left ChunkSender)
      → remove_rest l bs ≡ done l'
      → in_flight l'.bufs ≡ in_flight bs
  unfolding remove_rest
  remove_rest-in_flight l [] l' h = ground arith
  remove_rest-in_flight l (b ∷ bs) l' h = ground arith

  acknowledged-in_flight :
      (empty_front : Option ℕ) (fuel : ℕ) (s : Stream) (bytes : ℕ) (c : ChunkSender) (s' : Stream)
      (l : Left ChunkSender)
      → acknowledge (release_chunk next has_done) empty_front fuel s bytes c ≡ done (s', l)
      → in_flight s'.user_buffers ≤ in_flight s.user_buffers
  unfolding acknowledge
  acknowledged-in_flight o fuel s bytes c s' l h =
      let (l0, e0, h0) = >>=-eq-done _ _ h in
      let (l1, e1, h1) = >>=-eq-done _ _ h0 in
      omega (
        arith,
        ack_loop-in_flight o fuel s.user_buffers bytes c [] l0 e0,
        remove_rest-in_flight l0 l0.bufs l1 e1,
        same_bufs l1 h1,
      )
    where
      same_bufs :
          (l1 : Left ChunkSender)
          → ◌≡◌ {A = Outcome (Stream × Left ChunkSender)}
              (done (
                record s { user_buffers = l1.bufs; unacked_size = sub_size s.unacked_size bytes },
                l1,
              ))
              (done (s', l))
          → in_flight s'.user_buffers ≡ in_flight l1.bufs
      same_bufs l1 e = ground arith

  -- Acknowledging bytes that are in flight on a valid stream, whatever the read of an emptied deque gives,
  -- comes to an end with more fuel than the queue has buffers, and lets the sender queue at most one chunk
  -- for each that goes: the stream holds no more of the sender's chunks after it than before.
  pub acknowledge-in_flight :
      (k fuel : ℕ) (s : Stream) (bytes : ℕ) (c : ChunkSender)
      → IsValid s
      → bytes ≤ s.unacked_size
      → length s.user_buffers < fuel
      → (s' : Stream) × (l : Left ChunkSender) × (acknowledge
            (release_chunk next has_done)
            (some k)
            fuel
            s
            bytes
            c
          ≡ done (s', l))
        × (in_flight s'.user_buffers ≤ in_flight s.user_buffers)
  acknowledge-in_flight k fuel s bytes c v b f =
      let (s', l, e, c1, u1, same, none_more) =
        acknowledge_full (release_chunk next has_done) k s bytes fuel c v b f in
      (s', l, e, acknowledged-in_flight (some k) fuel s bytes c s' l e)
