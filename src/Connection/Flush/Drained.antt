-- ===== src/Connection/Flush/Drained.antt =====
-- A batch that was blocked, sent by the callbacks for a writeable socket.
use mathlib.Core.Path.{subst}
use oxen_libquic.Base.{
  ℕ, ◌-◌, ◌≤◌, ◌<◌, ◌≡◌, refl, sym, ap, ◌∙◌, Bool, true, false, not, ◌&&◌, Option, List, [], ◌∷◌,
  ◌++◌, ◌==◌, arith, inl, inr, ◌⊎◌, append-nil, if◌then◌else◌,
}
use oxen_libquic.Base.Outcome.{done}
use oxen_libquic.IoResult.{IoResult, failure, blocked, from_errno, eagain}
use oxen_libquic.Endpoint.Packets.{Queued, shift, send_packets}
use oxen_libquic.Endpoint.Packets.Contract.{
  IsPacked, send_packets_short, send_packets_all, n_pkts_left,
}
use oxen_libquic.Endpoint.Packets.Packed.{left-IsPacked}
use oxen_libquic.Connection.Streams.{StreamMap}
use oxen_libquic.Connection.Flush.{Write, Loop, flush_streams, updates_pkt_tx_time}
use oxen_libquic.Connection.Flush.Sound.{after_attempt, send-blocked, send_through}
use oxen_libquic.Connection.Flush.Batch.{packets_out, after_attempt-packets, empty-packets}
use oxen_libquic.Connection.Flush.Conserved.{IsLeft, flush_streams-IsLeft}
use oxen_libquic.Connection.Flush.Resume.{on_writeable, resume}

-- Replies of the socket that together send `n` packets: none a hard error, each but the last leaves
-- some unsent, and the last, which is no error, sends the rest.
abbrev pub Drains : ℕ → List (IoResult × ℕ) → Type 0
Drains n [] = ⊥
Drains n ((ret, sent) ∷ replies) =
    ((n ≤ sent) × (failure ret ≡ false) × (blocked ret ≡ false))
    ⊎ ((sent < n) × ((failure ret && not (blocked ret)) ≡ false) × Drains (n - sent) replies)

module _ (l : Loop) (ret : IoResult) (sent : ℕ) where
  abbrev now : Loop
  now = record l { waiting = false }

  on_writeable_through :
      l.queued.n_pkts ≤ sent
      → failure ret ≡ false
      → blocked ret ≡ false
      → on_writeable l (ret, sent) ≡ (true, after_attempt now (ret, sent))
  unfolding on_writeable
  on_writeable_through all ok free =
      let soft : (failure ret && not (blocked ret)) ≡ false = ground arith in
      let e : send_packets true l.queued (ret, sent) ≡ (ret, record l.queued { n_pkts = 0 }) =
        send_packets_all l.queued ret sent soft (ground arith) in
      rw
        (send_through now (ret, sent) (ap (λ r. blocked r.0) e ∙ free)
          (ap (λ r. failure r.0) e ∙ ok))
        refl

  on_writeable-blocked :
      sent < l.queued.n_pkts
      → (failure ret && not (blocked ret)) ≡ false
      → on_writeable l (ret, sent)
        ≡ (false, record (after_attempt now (ret, sent)) { waiting = true })
  unfolding on_writeable
  on_writeable-blocked short soft =
      let e : send_packets true l.queued (ret, sent)
          ≡ (from_errno eagain, if sent == 0 then l.queued else shift l.queued sent) =
        send_packets_short l.queued ret sent soft (ground arith) in
      rw (send-blocked now (ret, sent) (ap (λ r. blocked r.0) e)) refl

-- All that was written has gone to the socket, in order.
abbrev pub IsDrained : Loop → Bool × Loop → Type 0
IsDrained l (ready, l') = (ready ≡ true) × (l'.queued.n_pkts ≡ 0) × (l'.accepted ≡ packets_out l)

after_attempt-IsDrained :
    (l : Loop) (ret : IoResult) (sent : ℕ)
    → IsPacked l.queued
    → l.queued.n_pkts ≤ sent
    → failure ret ≡ false
    → blocked ret ≡ false
    → IsDrained l (true, after_attempt (now l ret sent) (ret, sent))
after_attempt-IsDrained l ret sent v all ok free =
    let soft : (failure ret && not (blocked ret)) ≡ false = ground arith in
    let e : send_packets true l.queued (ret, sent) ≡ (ret, record l.queued { n_pkts = 0 }) =
      send_packets_all l.queued ret sent soft (ground arith) in
    let l' : Loop = after_attempt (now l ret sent) (ret, sent) in
    let none_left : l'.queued.n_pkts ≡ 0 = ap (λ r. r.1.n_pkts) e in
    (
      refl,
      none_left,
      sym (ap (λ t. l'.accepted ++ t) (empty-packets l'.queued none_left) ∙ append-nil l'.accepted)
          ∙ after_attempt-packets (now l ret sent) ret sent v soft,
    )

resume-IsDrained :
    (replies : List (IoResult × ℕ)) (l : Loop)
    → IsPacked l.queued
    → Drains l.queued.n_pkts replies
    → IsDrained l (resume l replies)
unfolding resume
resume-IsDrained [] l v d = absurd d
resume-IsDrained ((ret, sent) ∷ replies) l v (inl (all, ok, free)) =
    rw (on_writeable_through l ret sent all ok free)
      (after_attempt-IsDrained l ret sent v all ok free)
resume-IsDrained ((ret, sent) ∷ replies) l v (inr (short, soft, d)) =
    let q : Queued = if sent == 0 then l.queued else shift l.queued sent in
    let e : (send_packets true l.queued (ret, sent)).1 ≡ q =
      ap (λ r. r.1) (send_packets_short l.queued ret sent soft (ground arith)) in
    let count : l.queued.n_pkts - sent ≡ q.n_pkts =
      omega (arith, n_pkts_left l.queued sent short) in
    let l' : Loop = record (after_attempt (now l ret sent) (ret, sent)) { waiting = true } in
    let d' : Drains l'.queued.n_pkts replies =
      subst (λ n. Drains n replies) (count ∙ ap (λ (x : Queued). x.n_pkts) (sym e)) d in
    let v' : IsPacked l'.queued = subst IsPacked (sym e) (left-IsPacked l.queued sent v short) in
    let (ready, gone, taken) = resume-IsDrained replies l' v' d' in
    rw (on_writeable-blocked l ret sent short soft)
      (ready, gone, taken ∙ after_attempt-packets (now l ret sent) ret sent v soft)

-- What a call of `flush_streams` with an empty batch leaves, where ngtcp2's time of the last
-- packet is updated: when the socket then takes it, in however many callbacks, each but the
-- last blocked again, the last one calls `on_io_ready`, and all the packets that ngtcp2 has made have
-- gone to the socket, each once and in order.
pub flush_streams-resume :
    (max_batch : ℕ) (writev : ℕ → Option ℕ → Bool → List (List ℕ) → Write)
    (socket : ℕ → IoResult × ℕ) (fuel quantum payload start : ℕ) (m : StreamMap) (q : Queued)
    (l : Loop) (replies : List (IoResult × ℕ))
    → q.n_pkts ≡ 0
    → flush_streams max_batch writev socket fuel quantum payload start m q ≡ done l
    → updates_pkt_tx_time l ≡ true
    → Drains l.queued.n_pkts replies
    → let (ready, l') = resume l replies in
      (ready ≡ true) × (l'.queued.n_pkts ≡ 0) × (l'.accepted ≡ l.written)
flush_streams-resume max_batch writev socket fuel quantum payload start m q l replies e run ok d =
    let (v, conserved) : IsLeft socket l =
      flush_streams-IsLeft max_batch writev socket fuel quantum payload start m q l e run in
    let (ready, gone, taken) = resume-IsDrained replies l v d in
    elim conserved [
      | inl (updated, all) ↦ (ready, gone, taken ∙ all)
      | inr (cancelled, failed) ↦ absurd cc
    ]
