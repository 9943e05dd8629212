-- ===== src/Stream/Chunks/Order.antt =====
-- Which chunks a sender puts into the stream, and when it says that it is done.
use oxen_libquic.Base.{
  ℕ, zero, suc, ◌≤◌, ◌<◌, ◌⊎◌, ◌≡◌, refl, Bool, true, false, ◌&&◌, List, some, [], ◌∷◌, arith,
  length, if◌then◌else◌, inl,
}
use oxen_libquic.Stream.Buffers.{views}
use oxen_libquic.Stream.Chunks.{ChunkSender, queue_next_chunk, queue_chunks, chunks}

module _ (next : ℕ → List ℕ) (has_done : Bool) where
  next_finished : (c : ChunkSender) → c.finished ≡ true → queue_next_chunk next has_done c ≡ (c, [])
  unfolding queue_next_chunk
  next_finished c h = ground arith

  next_empty :
      (c : ChunkSender)
      → c.finished ≡ false
      → next c.calls ≡ []
      → queue_next_chunk next has_done c ≡ (
        record {
          calls = suc c.calls;
          finished = true;
          done_calls = if has_done then suc c.done_calls else c.done_calls;
        },
        [],
      )
  unfolding queue_next_chunk
  next_empty c h e = ground arith

  next_chunk :
      (c : ChunkSender) (x : ℕ) (xs : List ℕ)
      → c.finished ≡ false
      → next c.calls ≡ x ∷ xs
      → queue_next_chunk next has_done c
        ≡ (record c { calls = suc c.calls }, record { view = x ∷ xs; keep_alive = some 0 } ∷ [])
  unfolding queue_next_chunk
  next_chunk c x xs h e = ground arith

  queue_chunks_finished :
      (n : ℕ) (c : ChunkSender) → c.finished ≡ true → queue_chunks next has_done n c ≡ (c, [])
  unfolding queue_chunks
  queue_chunks_finished zero c h = refl
  queue_chunks_finished (suc n) c h = ground (arith, next_finished c h, queue_chunks_finished n c h)

  -- The result of `n` calls.
  abbrev Good : ℕ → ChunkSender → Type 0
  Good n c =
      let (c', bs) = queue_chunks next has_done n c in
      (views bs ≡ chunks next c.calls n)
      × (c'.done_calls ≡ (if c'.finished && has_done then 1 else 0))
      × (length bs ≤ n)
      × ((c'.finished ≡ false) ⊎ (length bs < n))

  first :
      (n : ℕ) (c : ChunkSender)
      → c.finished ≡ false
      → c.done_calls ≡ 0
      → Good n (record c { calls = suc c.calls })
      → (xs : List ℕ) → next c.calls ≡ xs
      → Good (suc n) c
  unfolding queue_chunks
  first n c h d ih [] e =
      let c' : ChunkSender = record {
        calls = suc c.calls;
        finished = true;
        done_calls = if has_done then suc c.done_calls else c.done_calls;
      } in
      ground (arith, next_empty c h e, queue_chunks_finished n c' refl)
  first n c h d ih (x ∷ xs) e = ground (arith, next_chunk c x xs h e)

  -- From a sender that has not finished and not called `done`, the `n` next calls put the chunks up
  -- to the first empty one into the stream, in order, at most `n`. Then `done` has been called once
  -- if the sender has finished and has a `done`, else never; and a sender that has finished has put
  -- in fewer than `n`.
  pub queue_chunks-chunks :
      (n : ℕ) (c : ChunkSender)
      → c.finished ≡ false
      → c.done_calls ≡ 0
      → let (c', bs) = queue_chunks next has_done n c in
        (views bs ≡ chunks next c.calls n)
        × (c'.done_calls ≡ (if c'.finished && has_done then 1 else 0))
        × (length bs ≤ n)
        × ((c'.finished ≡ false) ⊎ (length bs < n))
  unfolding queue_chunks
  queue_chunks-chunks zero c h d = (refl, rw (h, d) refl, omega arith, inl h)
  queue_chunks-chunks (suc n) c h d =
      first n c h d (queue_chunks-chunks n (record c { calls = suc c.calls }) h d) (next c.calls)
        refl
