-- ===== src/Stream/Acks.antt =====
-- `acknowledge` against the bytes of the queue.
use oxen_libquic.Base.{
  ℕ, zero, suc, ◌+◌, ◌-◌, ◌≤◌, ◌<◌, ◌≡◌, ◌⊎◌, refl, sym, ap, ◌∙◌, List, [], ◌∷◌, ◌++◌, true, not,
  ◌&&◌, inl, inr, Bool-cases, arith, length, length-append, drop, drop-append_le, drop-append_ge,
  drop_all, leb, ◌==◌, append_assoc, append-nil, none, some, Option, sub_size,
}
use oxen_libquic.Base.Outcome.{Outcome, done}
use oxen_libquic.Stream.Buffers.{Buffer, Left, released, ack_loop, remove_rest}
use oxen_libquic.Stream.{Stream, acknowledge}
use oxen_libquic.Stream.Contents.{contents, contents-append, IsValid}

abbrev front_length : List Buffer → ℕ
front_length [] = 0
front_length (b ∷ bs) = length b.view

shift :
    (b : Buffer) (bufs more fresh : List Buffer) (bytes : ℕ)
    → length b.view ≤ bytes
    → bytes - length b.view ≤ length (contents bufs)
    → drop (bytes - length b.view) (contents (bufs ++ more)) ++ contents fresh
      ≡ drop bytes (b.view ++ contents bufs) ++ contents (more ++ fresh)
shift b bufs more fresh bytes h hb =
    rw
      (
        contents-append bufs more,
        drop-append_le (bytes - length b.view) (contents bufs) (contents more) hb,
        drop-append_ge bytes b.view (contents bufs) h,
        contents-append more fresh,
      )
      (append_assoc (drop (bytes - length b.view) (contents bufs)) (contents more) (contents fresh))

module _ {S : Type 0} (release : ℕ → S → S × List Buffer) (k : ℕ) where
  -- The loop has ended with the right bytes, and what is left to take off lies in the first buffer.
  record Acked (r : Outcome (Left S)) (bufs : List Buffer) (bytes : ℕ) (app : List Buffer)
      : Type 0 where
    left : Left S
    fresh : List Buffer
    result : r ≡ done left
    appended : left.appended ≡ app ++ fresh
    remains : drop left.bytes (contents left.bufs) ≡ drop bytes (contents bufs) ++ contents fresh
    inside : (left.bytes ≡ 0) ⊎ (left.bytes < front_length left.bufs)
    nothing : ((j : ℕ) (o : S) → (release j o).1 ≡ []) → fresh ≡ []

  released_nothing :
      ((j : ℕ) (o : S) → (release j o).1 ≡ [])
      → (a : Option ℕ) (o : S) → (released release a o).1 ≡ []
  released_nothing q none o = refl
  released_nothing q (some j) o = q j o

  stop-eq :
      (fuel : ℕ) (bufs : List Buffer) (bytes : ℕ) (s : S) (app : List Buffer)
      → (bytes ≡ 0) ⊎ (bytes < front_length bufs)
      → ack_loop release (some k) (suc fuel) bufs bytes s app
        ≡ done (record { bufs = bufs; bytes = bytes; owner = s; appended = app })
  unfolding ack_loop
  stop-eq fuel [] bytes s app h = ground arith
  stop-eq fuel (b ∷ bs) bytes s app h = ground arith

  stop :
      (fuel : ℕ) (bufs : List Buffer) (bytes : ℕ) (s : S) (app : List Buffer)
      → (bytes ≡ 0) ⊎ (bytes < front_length bufs)
      → Acked (ack_loop release (some k) (suc fuel) bufs bytes s app) bufs bytes app
  stop fuel bufs bytes s app h = record {
    left = record { bufs = bufs; bytes = bytes; owner = s; appended = app };
    fresh = [];
    result = stop-eq fuel bufs bytes s app h;
    appended = sym (append-nil app);
    remains = sym (append-nil (drop bytes (contents bufs)));
    inside = h;
    nothing = λ q. refl;
  }

  -- Popping one buffer, when its destructor appends `more`.
  popped :
      (fuel : ℕ) (b : Buffer) (bufs : List Buffer) (bytes : ℕ) (s : S) (app : List Buffer)
      → (leb (length b.view) bytes && not (bytes == 0)) ≡ true
      → bytes - length b.view ≤ length (contents bufs)
      → let s' = (released release b.keep_alive s).0 in
        let more = (released release b.keep_alive s).1 in
        Acked
          (ack_loop release (some k) fuel (bufs ++ more) (bytes - length b.view) s' (app ++ more))
          (bufs ++ more)
          (bytes - length b.view)
          (app ++ more)
        → Acked (ack_loop release (some k) (suc fuel) (b ∷ bufs) bytes s app) (b ∷ bufs) bytes app
  unfolding ack_loop
  popped fuel b bufs bytes s app test hb r = record {
    left = r.left;
    fresh = more ++ r.fresh;
    result = rw test r.result;
    appended = r.appended ∙ append_assoc app more r.fresh;
    remains = r.remains ∙ shift b bufs more r.fresh bytes (ground arith) hb;
    inside = r.inside;
    nothing = λ q. rw (released_nothing q b.keep_alive s, r.nothing q) refl;
  }
    where
      more : List Buffer
      more = (released release b.keep_alive s).1

  ack_loop-Acked :
      (fuel : ℕ) (old new : List Buffer) (bytes : ℕ) (s : S) (app : List Buffer)
      → length old < fuel
      → bytes ≤ length (contents old)
      → Acked (ack_loop release (some k) fuel (old ++ new) bytes s app) (old ++ new) bytes app
  ack_loop-Acked zero old new bytes s app hf hb = elim hf [ ]
  ack_loop-Acked (suc fuel) [] new bytes s app hf hb = stop fuel new bytes s app (inl (omega arith))
  ack_loop-Acked (suc fuel) (b ∷ old) new bytes s app hf hb =
      elim (Bool-cases (leb (length b.view) bytes && not (bytes == 0))) [
        | inl test ↦
            popped fuel b (old ++ new) bytes s app test
              (omega (
                arith,
                length-append b.view (contents old),
                ap length (contents-append old new),
                length-append (contents old) (contents new),
              ))
              (rw (append_assoc old new (released release b.keep_alive s).1) (
                ack_loop-Acked fuel old (new ++ (released release b.keep_alive s).1)
                  (bytes - length b.view) (released release b.keep_alive s).0
                  (app ++ (released release b.keep_alive s).1) (omega arith)
                  (omega (arith, length-append b.view (contents old)))))
        | inr test ↦ stop fuel (b ∷ (old ++ new)) bytes s app (ground arith)
      ]

  remove_rest-contents :
      (l : Left S)
      → (l.bytes ≡ 0) ⊎ (l.bytes < front_length l.bufs)
      → (l' : Left S) × (remove_rest l l.bufs ≡ done l')
        × (contents l'.bufs ≡ drop l.bytes (contents l.bufs))
        × (l'.appended ≡ l.appended)
        × (l'.owner ≡ l.owner)
  unfolding remove_rest
  remove_rest-contents l h = go l.bufs h
    where
      go :
          (bufs : List Buffer)
          → (l.bytes ≡ 0) ⊎ (l.bytes < front_length bufs)
          → (l' : Left S) × (remove_rest l bufs ≡ done l')
            × (contents l'.bufs ≡ drop l.bytes (contents bufs))
            × (l'.appended ≡ l.appended)
            × (l'.owner ≡ l.owner)
      go [] h = (
        record l { bufs = [] },
        ground arith,
        sym (drop_all l.bytes [] (omega arith)),
        refl,
        refl,
      )
      go (b ∷ bs) h = (
        record l { bufs = record b { view = drop l.bytes b.view } ∷ bs },
        refl,
        sym (drop-append_le l.bytes b.view (contents bs) (omega arith)),
        refl,
        refl,
      )

  pub acknowledge_full :
      (s : Stream) (bytes fuel : ℕ) (owner : S)
      → IsValid s
      → bytes ≤ s.unacked_size
      → length s.user_buffers < fuel
      → (s' : Stream) × (l : Left S) × (acknowledge release (some k) fuel s bytes owner
          ≡ done (s', l))
        × (contents s'.user_buffers ≡ drop bytes (contents s.user_buffers) ++ contents l.appended)
        × (s'.unacked_size + bytes ≡ s.unacked_size)
        × (s' ≡ record s { user_buffers = s'.user_buffers; unacked_size = s'.unacked_size })
        × (((j : ℕ) (o : S) → (release j o).1 ≡ []) → l.appended ≡ [])
  unfolding acknowledge
  acknowledge_full s bytes fuel owner v hb hf =
      let r : Acked (ack_loop release (some k) fuel s.user_buffers bytes owner []) s.user_buffers
          bytes [] =
        rw (append-nil s.user_buffers) at
          (ack_loop-Acked fuel s.user_buffers [] bytes owner [] hf (omega arith)) in
      let (l', e, c, a, _) = remove_rest-contents r.left r.inside in
      (
        record s { user_buffers = l'.bufs; unacked_size = sub_size s.unacked_size bytes },
        l',
        rw (r.result, e) refl,
        c
            ∙ r.remains
            ∙ ap (λ t. drop bytes (contents s.user_buffers) ++ contents t) (sym (a ∙ r.appended)),
        omega arith,
        refl,
        λ q. a ∙ r.appended ∙ r.nothing q,
      )

  -- On a valid stream, acknowledging bytes that are in flight, with more fuel than there are
  -- buffers, comes to an end, whatever the read of an emptied deque gives. It takes exactly these
  -- bytes off the front of the queue, keeps what the destructors append, at the end, takes the
  -- bytes off the count of unacknowledged ones, and leaves the rest of the stream.
  pub acknowledge-contents :
      (s : Stream) (bytes fuel : ℕ) (owner : S)
      → IsValid s
      → bytes ≤ s.unacked_size
      → length s.user_buffers < fuel
      → (s' : Stream) × (l : Left S) × (acknowledge release (some k) fuel s bytes owner
          ≡ done (s', l))
        × (contents s'.user_buffers ≡ drop bytes (contents s.user_buffers) ++ contents l.appended)
        × (s'.unacked_size + bytes ≡ s.unacked_size)
        × (s' ≡ record s { user_buffers = s'.user_buffers; unacked_size = s'.unacked_size })
  acknowledge-contents s bytes fuel owner v hb hf =
      let (s', l, e, c, u, same, _) = acknowledge_full s bytes fuel owner v hb hf in
      (s', l, e, c, u, same)
