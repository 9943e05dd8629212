-- ===== src/Connection/Flush/Total.antt =====
-- `flush_streams` as a whole: it comes to an end.
use oxen_libquic.Base.{
  ℕ, zero, suc, ◌+◌, ◌/◌, ◌≤◌, ◌<◌, ◌≡◌, refl, sym, ap, Bool, false, Option, none, List, [], ◌∷◌,
  ◌++◌, ltb, length, length-append, length-drop, length-take, take, drop, arith, inl, inr,
  Bool-cases,
}
use oxen_libquic.Base.Outcome.{done}
use oxen_libquic.IoResult.{IoResult}
use oxen_libquic.Endpoint.Packets.{Queued}
use oxen_libquic.Connection.Streams.{StreamMap}
use oxen_libquic.Connection.Flush.{
  Write, Loop, Next, continue_loop, break_loop, return_now, send, body, finish, flush_loop,
  flush_streams, visit, open_ids, start_loop,
}
use oxen_libquic.Connection.Flush.Sound.{IsSound, IsFrom, IsFrom-first, Sent, send-Sent}
use oxen_libquic.Connection.Flush.Ends.{Obeys, IsFlushed, Runs, size, Ends, body-Ends}
use mathlib.Core.Path.{subst}

module _ (max_batch : ℕ) (writev : ℕ → Option ℕ → Bool → List (List ℕ) → Write)
    (socket : ℕ → IoResult × ℕ) (first : StreamMap) where
  finish-IsFlushed :
      (l : Loop)
      → IsFrom first l.streams
      → l.queued.n_pkts ≤ max_batch
      → IsFlushed max_batch first (finish max_batch writev socket l)
  finish-IsFlushed l v b = elim (Bool-cases (ltb 0 l.queued.n_pkts)) [
    | inl some_packets ↦
        let sent : Sent l (send l (socket l.sends)) = send-Sent l (socket l.sends) in
        rw some_packets (
          subst (λ (x : Loop). IsFrom first x.streams) (sym sent.same) v,
          omega (arith, sent.fewer),
          sent.left,
        )
    | inr no_packets ↦ rw no_packets (v, b, inl (ground arith))
  ]

  module _ (max_packets : ℕ) (obeys : Obeys writev) where
    -- The loop ends with a value.
    abbrev Returns : ℕ → Loop → Type 0
    Returns fuel l =
        (l' : Loop) × (flush_loop max_batch writev socket fuel max_packets l ≡ done l')
        × IsFlushed max_batch first l'

    -- One pass, for a loop whose shorter runs return.
    pass-Returns :
        (fuel : ℕ) (l : Loop) (who : Option ℕ) (rest : List (Option ℕ)) (n : Next)
        → ((l' : Loop)
            → Runs max_batch writev socket max_packets first l'
            → size max_batch writev socket max_packets first l' < fuel
            → Returns fuel l')
        → size max_batch writev socket max_packets first (record l { strs = rest }) < fuel
        → l.strs ≡ who ∷ rest
        → body max_batch writev socket max_packets (record l { strs = rest }) who ≡ done n
        → Ends max_batch writev socket max_packets first
            (size max_batch writev socket max_packets first (record l { strs = rest }))
            n
        → Returns (suc fuel) l
    unfolding flush_loop
    pass-Returns fuel l who rest (continue_loop l') again h s e (r', h') =
        let (l2, e2, f2) = again l' r' (omega arith) in (l2, rw (s, e, flush_loop) e2, f2)
    pass-Returns fuel l who rest (break_loop l') again h s e (v, b) = (
      finish max_batch writev socket l',
      rw (s, e, flush_loop) refl,
      finish-IsFlushed l' v (omega arith),
    )
    pass-Returns fuel l who rest (return_now l') again h s e f = (l', rw (s, e, flush_loop) refl, f)

    flush_loop-Returns :
        (fuel : ℕ) (l : Loop)
        → Runs max_batch writev socket max_packets first l
        → size max_batch writev socket max_packets first l < fuel
        → Returns fuel l
    unfolding flush_loop
    flush_loop-Returns zero l r h = absurd (omega arith)
    flush_loop-Returns (suc fuel) l r h = go l.strs refl (flush_loop-Returns fuel)
      where
        go :
            (strs : List (Option ℕ))
            → l.strs ≡ strs
            → ((l' : Loop)
                → Runs max_batch writev socket max_packets first l'
                → size max_batch writev socket max_packets first l' < fuel
                → Returns fuel l')
            → Returns (suc fuel) l
        go [] s again =
            let l' : Loop = record l { strs = [] } in
            subst (Returns (suc fuel)) {x = l'} {y = l} (ap (λ t. record l { strs = t }) (sym s))
              (finish max_batch writev socket l', refl, finish-IsFlushed l' r.0 (omega (arith, r)))
        go (who ∷ rest) s again =
            let l' : Loop = record l { strs = rest } in
            let k : ℕ = size max_batch writev socket max_packets first l' in
            let (n, e, ends) =
              body-Ends max_batch writev socket max_packets first obeys l' who k r (omega arith) in
            pass-Returns fuel l who rest n again (omega (arith, ap length s)) s e ends

length-open_ids : (m : StreamMap) → length (open_ids m) ≤ length m
length-open_ids [] = omega arith
length-open_ids ((k, s) ∷ m) = ground (arith, length-open_ids m)

length-visit : (start : ℕ) (m : StreamMap) → length (visit start m) ≤ suc (length m)
length-visit start m = omega (
  arith,
  length-append (open_ids (drop start m)) (open_ids (take start m) ++ (none ∷ [])),
  length-append (open_ids (take start m)) (none ∷ []),
  length-open_ids (drop start m),
  length-open_ids (take start m),
  length-drop start m,
  length-take start m,
)

-- A call of `flush_streams` with an empty batch comes to an end, with no undefined step, for whatever
-- ngtcp2 and the socket answer: the passes are at most the streams, the pseudo stream and the packets
-- that may be sent. It needs valid streams, room for at least one packet, and an ngtcp2 that takes no
-- more bytes than it is offered. It leaves valid streams under the same ids, each with the buffers that it
-- had and no fewer bytes sent, and a batch that fits its arrays, in which packets are left only where a
-- callback waits for the socket.
pub flush_streams-done :
    (max_batch : ℕ) (writev : ℕ → Option ℕ → Bool → List (List ℕ) → Write)
    (socket : ℕ → IoResult × ℕ) (fuel quantum payload start : ℕ) (m : StreamMap) (q : Queued)
    → Obeys writev
    → IsSound m
    → q.n_pkts ≡ 0
    → 0 < max_batch
    → 0 < quantum / payload
    → suc (length m) + quantum / payload < fuel
    → (l : Loop) × (flush_streams max_batch writev socket fuel quantum payload start m q ≡ done l)
      × IsFlushed max_batch m l
unfolding flush_streams
flush_streams-done max_batch writev socket fuel quantum payload start m q obeys v none_left b p h =
    let full : ltb 0 q.n_pkts ≡ false = ground arith in
    let l : Loop = start_loop m (visit start m) q in
    let (l', e, f) =
      flush_loop-Returns max_batch writev socket m (quantum / payload) obeys fuel l
        (IsFrom-first m v, p, omega arith) (omega (arith, length-visit start m)) in
    (l', rw full e, f)
