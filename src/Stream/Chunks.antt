-- ===== src/Stream/Chunks.antt =====
-- include/quic/stream.hpp: `chunk_sender`, which feeds a stream chunk by chunk.
pub mod Order
pub mod Flight
use oxen_libquic.Base.{
  ℕ, zero, suc, ◌+◌, ◌≤◌, ◌≡◌, refl, Bool, true, false, Option, none, some, List, [], ◌∷◌, ◌++◌,
  arith, length, if◌then◌else◌, ◌∙◌, ap, sym, append_assoc, append-nil,
}
use oxen_libquic.Base.Int.{ℤ, pos, negsuc}
use oxen_libquic.Base.Outcome.{Outcome, done, throws}
use oxen_libquic.Stream.Buffers.{Buffer}
use oxen_libquic.Stream.Contents.{contents, contents-append}

-- One `chunk_sender`: how often it has called `next_chunk`, whether it has set it to null, and how
-- often it has called `done`.
pub record ChunkSender : Type 0 where
  pub calls : ℕ
  pub finished : Bool
  pub done_calls : ℕ

abbrev pub new_sender : ChunkSender
new_sender = record { calls = 0; finished = false; done_calls = 0 }

-- `next i` is what the user's `next_chunk` returns at its call number `i`; an empty container or a
-- null pointer is `[]`. `has_done` tells whether a `done` callback was given.
module _ (next : ℕ → List ℕ) (has_done : Bool) where
  -- What `queue_next_chunk` does with the chunk that it has been given.
  take_chunk : ChunkSender → List ℕ → ChunkSender × List Buffer
  take_chunk c [] = (
    record c { finished = true; done_calls = if has_done then suc c.done_calls else c.done_calls },
    [],
  )
  take_chunk c (x ∷ xs) = (c, record { view = x ∷ xs; keep_alive = some 0 } ∷ [])

  -- `queue_next_chunk`: the buffers are those that it sends into the stream.
  unfoldable pub queue_next_chunk : ChunkSender → ChunkSender × List Buffer
  unfolding take_chunk
  queue_next_chunk c =
      if c.finished then (c, []) else take_chunk (record c { calls = suc c.calls }) (next c.calls)

  -- `make`: the loop that fills the queue. It serves as well for any later run of destructors.
  unfoldable pub queue_chunks : ℕ → ChunkSender → ChunkSender × List Buffer
  queue_chunks zero c = (c, [])
  queue_chunks (suc n) c =
      let (c1, bs) = queue_next_chunk c in let (c2, more) = queue_chunks n c1 in (c2, bs ++ more)

  -- `send_chunks`.
  unfoldable pub send_chunks : ℤ → Outcome (ChunkSender × List Buffer)
  send_chunks (negsuc n) = throws
  send_chunks (pos zero) = throws
  send_chunks (pos (suc n)) = done (queue_chunks (suc n) new_sender)

  -- What an acknowledgement runs for an object that a buffer has kept alive: the destructor of a
  -- `single_chunk` of this sender, which is the object 0. Other objects are not the sender's.
  unfoldable pub release_chunk : ℕ → ChunkSender → ChunkSender × List Buffer
  release_chunk zero c = queue_next_chunk c
  release_chunk (suc k) c = (c, [])

-- The chunks that `n` calls of `next_chunk` from the call `i` on give, up to the first empty one.
abbrev pub chunks : (ℕ → List ℕ) → ℕ → ℕ → List (List ℕ)
chunks next i zero = []
chunks next i (suc n) =
    let rest = chunks next (suc i) n in elim (next i) [ [] ↦ [] | x ∷ xs ↦ (x ∷ xs) ∷ rest ]
