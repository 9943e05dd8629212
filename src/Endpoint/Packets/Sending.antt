-- ===== src/Endpoint/Packets/Sending.antt =====
-- `Endpoint::send_packets` on top of `UDPSocket::send` with segmentation offload.
use oxen_libquic.Base.{
  ℕ, zero, suc, ◌+◌, ◌≤◌, ◌≡◌, refl, sym, ap, true, List, [], ◌∷◌, ◌++◌, ltb, take, drop, length,
  length-take, drop_all, replicate, All, arith, inl, inr, Bool-cases,
}
use oxen_libquic.Base.Outcome.{done}
use oxen_libquic.IoResult.{IoResult, good, blocked}
use oxen_libquic.Endpoint.Packets.{Queued, send_packets}
use oxen_libquic.Endpoint.Packets.Contract.{
  IsPacked, packets, cut, send_packets_all, send_packets_short, packets_left, n_pkts_left,
}
use oxen_libquic.Udp.Gso.{batches}
use oxen_libquic.Udp.Gso.Cover.{IsSize}
use oxen_libquic.Udp.Gso.Counts.{lengths_of, count_sent_exact}
use oxen_libquic.Udp.Send.{Reply, interrupted, accepted, retry, gso_result, send_gso}

pub retry_lem :
    (k rv : ℕ) (lens : List ℕ) (rs : List Reply)
    → retry (replicate k interrupted ++ (accepted rv lens ∷ rs)) ≡ done (accepted rv lens)
unfolding retry
retry_lem zero rv lens rs = refl
retry_lem (suc k) rv lens rs = retry_lem k rv lens rs

length-cut : (buf sizes : List ℕ) → length (cut buf sizes) ≡ length sizes
length-cut buf [] = refl
length-cut buf (n ∷ ns) = ap suc (length-cut (drop n buf) ns)

module _ (q : Queued) (p : ℕ) (v : IsPacked q) (h : p ≤ q.n_pkts) where
  -- The sizes that the socket is given, and what the kernel writes back.
  abbrev sizes : List ℕ
  sizes = take q.n_pkts q.bufsize

  abbrev lens : List ℕ
  lens = lengths_of p (batches 0 0 0 0 sizes)

  length-sizes : length sizes ≡ q.n_pkts
  length-sizes = omega (arith, length-take q.n_pkts q.bufsize, v.sizes)

  pub send_gso-sent :
      (k rv : ℕ) (rs : List Reply)
      → All IsSize sizes
      → send_gso sizes (replicate k interrupted ++ (accepted rv lens ∷ rs)) ≡ done (good, p)
  unfolding send_gso gso_result
  send_gso-sent k rv rs a =
      rw (retry_lem k rv lens rs)
        (ap (λ t. done (good, t)) (count_sent_exact sizes p a (omega (arith, length-sizes))))

  send_packets-sent :
      let (res, q') = send_packets true q (good, p) in
      (packets q' ≡ drop p (packets q))
      × (blocked res ≡ ltb p q.n_pkts)
      × (q'.n_pkts + p ≡ q.n_pkts)
  send_packets-sent = elim (Bool-cases (ltb p q.n_pkts)) [
    | inl short ↦
        rw (send_packets_short q good p refl short)
          (packets_left q p v (ground arith), sym short, n_pkts_left q p (ground arith))
    | inr all ↦ rw (send_packets_all q good p refl all) (
      sym (drop_all p (packets q) (ground (arith, length-cut q.buf sizes, length-sizes))),
      sym all,
      ground arith,
    )
  ]

-- One call of `send_packets` over a socket that sends with segmentation offload, on packed arrays
-- of packets that are not empty and shorter than 2^16 bytes, where the kernel takes the first `p`
-- packets, after any number of interruptions: the packets left are those after the first `p`, in
-- order, and the caller is told that it is blocked just where some are left.
pub send_packets-send_gso :
    (q : Queued) (p k rv : ℕ) (rs : List Reply)
    → IsPacked q
    → All IsSize (take q.n_pkts q.bufsize)
    → p ≤ q.n_pkts
    → (reply : IoResult × ℕ) × (send_gso (take q.n_pkts q.bufsize) (
          replicate k interrupted
          ++ (accepted rv (lengths_of p (batches 0 0 0 0 (take q.n_pkts q.bufsize))) ∷ rs))
        ≡ done reply)
      × (packets (send_packets true q reply).1 ≡ drop p (packets q))
      × (blocked (send_packets true q reply).0 ≡ ltb p q.n_pkts)
      × ((send_packets true q reply).1.n_pkts + p ≡ q.n_pkts)
send_packets-send_gso q p k rv rs v a h =
    let (left, told, count) = send_packets-sent q p v h in
    ((good, p), send_gso-sent q p v h k rv rs a, left, told, count)
