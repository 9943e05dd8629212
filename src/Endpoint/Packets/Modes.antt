-- ===== src/Endpoint/Packets/Modes.antt =====
-- The three modes of compilation of `UDPSocket::send`, below `send_packets`.
use oxen_libquic.Base.{
  ℕ, zero, suc, ◌+◌, ◌<◌, ◌≤◌, ◌≡◌, refl, sym, ap, ◌∙◌, true, false, Option, none, some, List, [],
  ◌∷◌, ◌++◌, ◌==◌, ltb, if◌then◌else◌, length, length-take, take, replicate, arith, All, inl, inr,
  Bool-cases,
}
use oxen_libquic.Base.Int.{ℤ}
use oxen_libquic.Base.Outcome.{done}
use oxen_libquic.IoResult.{IoResult, from_errno, good, eagain}
use oxen_libquic.Endpoint.Packets.{Queued, send_packets}
use oxen_libquic.Endpoint.Packets.Contract.{IsPacked, send_packets_short}
use oxen_libquic.Endpoint.Packets.Sending.{retry_lem, send_gso-sent}
use oxen_libquic.Udp.Gso.{batches}
use oxen_libquic.Udp.Gso.Cover.{IsSize}
use oxen_libquic.Udp.Gso.Counts.{lengths_of}
use oxen_libquic.Udp.Send.{
  Reply, interrupted, failed, accepted, retry, send_gso, send_mmsg, send_each, gso_result,
  mmsg_result,
}

-- A kernel that takes the first `p` packets and then would block: what it answers to sendmmsg on the
-- batches, to sendmmsg on the packets, and to each sendmsg.
abbrev pub gso_replies : ℕ → List ℕ → List Reply
gso_replies p sizes =
    if p == 0
    then failed eagain ∷ []
    else accepted (length (batches 0 0 0 0 sizes)) (lengths_of p (batches 0 0 0 0 sizes)) ∷ []

abbrev pub mmsg_replies : ℕ → List ℕ → List Reply
mmsg_replies p sizes = if p == 0 then failed eagain ∷ [] else accepted p sizes ∷ []

abbrev pub each_replies : ℕ → List (Option ℤ)
each_replies zero = some eagain ∷ []
each_replies (suc p) = none ∷ each_replies p

send_each-some :
    (sizes : List ℕ) (p sent : ℕ)
    → p < length sizes
    → send_each sizes (each_replies p) sent ≡ done (from_errno eagain, p + sent)
unfolding send_each
send_each-some [] p sent h = absurd (omega arith)
send_each-some (n ∷ ns) zero sent h = ap (λ k. done (from_errno eagain, k)) {x = sent} (omega arith)
send_each-some (n ∷ ns) (suc p) sent h =
    send_each-some ns p (suc sent) (omega arith)
    ∙ ap (λ k. done (from_errno eagain, k)) {x = p + suc sent} {y = suc p + sent} (omega arith)

send_each-all :
    (sizes : List ℕ) (sent : ℕ)
    → send_each sizes (each_replies (length sizes)) sent ≡ done (good, length sizes + sent)
unfolding send_each
send_each-all [] sent = ap (λ k. done (good, k)) {x = sent} (omega arith)
send_each-all (n ∷ ns) sent =
    send_each-all ns (suc sent)
    ∙ ap (λ k. done (good, k)) {x = length ns + suc sent} {y = suc (length ns) + sent} (omega arith)

-- What both forms of sendmmsg tell, and what the loop of sendmsg tells.
abbrev batch_result : ℕ → IoResult × ℕ
batch_result p = if p == 0 then (from_errno eagain, 0) else (good, p)

abbrev each_result : ℕ → ℕ → IoResult × ℕ
each_result p n = if ltb p n then (from_errno eagain, p) else (good, p)

retry-failed :
    (k : ℕ) (e : ℤ) (rs : List Reply)
    → retry (replicate k interrupted ++ (failed e ∷ rs)) ≡ done (failed e)
unfolding retry
retry-failed zero e rs = refl
retry-failed (suc k) e rs = retry-failed k e rs

module _ (q : Queued) (p : ℕ) (v : IsPacked q) (h : p ≤ q.n_pkts) where
  abbrev sizes : List ℕ
  sizes = take q.n_pkts q.bufsize

  length-sizes : length sizes ≡ q.n_pkts
  length-sizes = omega (arith, length-take q.n_pkts q.bufsize, v.sizes)

  gso_lem :
      (k : ℕ)
      → All IsSize sizes
      → send_gso sizes (replicate k interrupted ++ gso_replies p sizes) ≡ done (batch_result p)
  unfolding send_gso gso_result
  gso_lem k a = elim (Bool-cases (p == 0)) [
    | inl none_sent ↦ rw none_sent (rw (retry-failed k eagain []) refl)
    | inr some_sent ↦ rw some_sent (send_gso-sent q p v h k (length (batches 0 0 0 0 sizes)) [] a)
  ]

  mmsg_lem :
      (k : ℕ) → send_mmsg (replicate k interrupted ++ mmsg_replies p sizes) ≡ done (batch_result p)
  unfolding send_mmsg mmsg_result
  mmsg_lem k = elim (Bool-cases (p == 0)) [
    | inl none_sent ↦ rw none_sent (rw (retry-failed k eagain []) refl)
    | inr some_sent ↦ rw some_sent (rw (retry_lem k p sizes []) refl)
  ]

  each_lem : send_each sizes (each_replies p) 0 ≡ done (each_result p q.n_pkts)
  each_lem = elim (Bool-cases (ltb p q.n_pkts)) [
    | inl short ↦ rw short (
        send_each-some sizes p 0 (ground (arith, length-sizes))
        ∙ ap (λ k. done (from_errno eagain, k)) {x = p + 0} {y = p} (omega arith))
    | inr all ↦
        let e : length sizes ≡ p = ground (arith, length-sizes) in
        rw all (
          ap (λ k. send_each sizes (each_replies k) 0) (sym e)
          ∙ send_each-all sizes 0
          ∙ ap (λ k. done (good, k)) {x = length sizes + 0} {y = p} (omega (arith, e)))
  ]

  batch-each :
      0 < q.n_pkts
      → send_packets true q (batch_result p) ≡ send_packets true q (each_result p q.n_pkts)
  batch-each n = elim (Bool-cases (ltb p q.n_pkts)) [
    | inr all ↦ let some_sent : (p == 0) ≡ false = ground arith in rw (all, some_sent) refl
    | inl short ↦ elim (Bool-cases (p == 0)) [
      | inr some_sent ↦
          rw (short, some_sent)
            (send_packets_short q good p refl short
              ∙ sym (send_packets_short q (from_errno eagain) p refl short))
      | inl none_sent ↦
          rw (short, none_sent)
            (ap (λ t. send_packets true q (from_errno eagain, t)) {x = 0} {y = p} (ground arith))
    ]
  ]

-- The three modes of compilation, on a batch of packets that are not empty and shorter than 2^16 bytes
-- and a kernel that takes the first `p` of them and then would block, after any number of interruptions
-- of sendmmsg: each call of `send` comes to an end, and `send_packets` returns the same and leaves the
-- same packets, whichever mode it is built on.
pub send_packets_modes :
    (q : Queued) (p k j : ℕ)
    → IsPacked q
    → All IsSize (take q.n_pkts q.bufsize)
    → p ≤ q.n_pkts
    → 0 < q.n_pkts
    → let sizes = take q.n_pkts q.bufsize in
      (gso : IoResult × ℕ) × (mmsg : IoResult × ℕ) × (each : IoResult × ℕ) × (send_gso sizes
          (replicate k interrupted ++ gso_replies p sizes)
        ≡ done gso)
      × (send_mmsg (replicate j interrupted ++ mmsg_replies p sizes) ≡ done mmsg)
      × (send_each sizes (each_replies p) 0 ≡ done each)
      × (send_packets true q gso ≡ send_packets true q mmsg)
      × (send_packets true q mmsg ≡ send_packets true q each)
send_packets_modes q p k j v a h n = (
  batch_result p,
  batch_result p,
  each_result p q.n_pkts,
  gso_lem q p v h k a,
  mmsg_lem q p v h j,
  each_lem q p v h,
  refl,
  batch-each q p v h n,
)
