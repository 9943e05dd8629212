-- ===== src/Endpoint/Packets/Packed.antt =====
-- What `send_packets` leaves of a batch is packed as the batch was.
use oxen_libquic.Base.{
  ℕ, ◌-◌, ◌<◌, ◌≡◌, refl, ap, true, not, ◌&&◌, List, [], ◌++◌, ◌==◌, ltb, if◌then◌else◌, length,
  take, drop, length-append, length-take, length-drop, take_front, arith, inl, inr, Bool-cases,
}
use oxen_libquic.IoResult.{IoResult, failure, blocked}
use oxen_libquic.Endpoint.Packets.{Queued, sum, shift, send_packets}
use oxen_libquic.Endpoint.Packets.Contract.{
  IsPacked, sum-take-drop, send_packets_hard, send_packets_short, send_packets_all,
}

shift-IsPacked : (q : Queued) (sent : ℕ) → IsPacked q → sent < q.n_pkts → IsPacked (shift q sent)
unfolding shift
shift-IsPacked q sent v h =
    let k : ℕ = q.n_pkts - sent in
    let sizes : List ℕ = take k (drop sent q.bufsize) in
    let offset : ℕ = sum (take sent q.bufsize) in
    let count : length sizes ≡ k =
      omega (arith, length-take k (drop sent q.bufsize), length-drop sent q.bufsize, v.sizes) in
    let front : take k (sizes ++ drop k q.bufsize) ≡ sizes =
      take_front k sizes (drop k q.bufsize) count in
    let bytes : List ℕ = take (sum sizes) (drop offset q.buf) in
    record {
      sizes = omega (arith, count, length-append sizes (drop k q.bufsize));
      bytes = omega (
        arith,
        ap sum front,
        length-append bytes (drop (sum sizes) q.buf),
        length-take (sum sizes) (drop offset q.buf),
        length-drop offset q.buf,
        v.bytes,
        sum-take-drop sent q.n_pkts q.bufsize (omega arith),
      );
    }

pub left-IsPacked :
    (q : Queued) (sent : ℕ)
    → IsPacked q
    → sent < q.n_pkts
    → IsPacked (if sent == 0 then q else shift q sent)
left-IsPacked q sent v h = elim (Bool-cases (sent == 0)) [
  | inl none_sent ↦ rw none_sent v
  | inr some_sent ↦ rw some_sent (shift-IsPacked q sent v h)
]

pub empty-IsPacked : (q : Queued) → q.n_pkts ≡ 0 → IsPacked q
empty-IsPacked q e =
    let none_left : take q.n_pkts q.bufsize ≡ [] = rw e refl in
    record { sizes = omega (arith, e); bytes = omega (arith, ap sum none_left) }

pub send_packets-IsPacked :
    (q : Queued) (reply : IoResult × ℕ) → IsPacked q → IsPacked (send_packets true q reply).1
send_packets-IsPacked q (ret, sent) v = elim (Bool-cases (failure ret && not (blocked ret))) [
  | inl hard ↦
      rw (send_packets_hard q ret sent hard) (empty-IsPacked (record q { n_pkts = 0 }) refl)
  | inr soft ↦ elim (Bool-cases (ltb sent q.n_pkts)) [
    | inl short ↦
        rw (send_packets_short q ret sent soft short) (left-IsPacked q sent v (ground arith))
    | inr all ↦
        rw (send_packets_all q ret sent soft all) (empty-IsPacked (record q { n_pkts = 0 }) refl)
  ]
]
