-- ===== src/Endpoint/Packets/Contract.antt =====
-- What `send_packets` promises its callers, who send the rest again.
use oxen_libquic.Base.{
  ℕ, zero, suc, ◌+◌, ◌-◌, ◌<◌, ◌≤◌, ◌≡◌, refl, sym, ap, ◌∙◌, true, false, not, ◌&&◌, List, [], ◌∷◌,
  ◌++◌, ◌==◌, ltb, inl, inr, Bool-cases, if◌then◌else◌, length, length-take, length-drop, take,
  drop, arith, take-append_le, drop-append_le, drop_add, take_all, take-drop, take-take, take_front,
  ◌⊎◌,
}
use oxen_libquic.IoResult.{IoResult, from_errno, failure, blocked, eagain}
use oxen_libquic.Endpoint.Packets.{Queued, sum, shift, send_packets}

-- The packets that packed bytes hold.
abbrev pub cut : List ℕ → List ℕ → List (List ℕ)
cut buf [] = []
cut buf (n ∷ ns) = take n buf ∷ cut (drop n buf) ns

abbrev pub packets : Queued → List (List ℕ)
packets q = cut q.buf (take q.n_pkts q.bufsize)

-- The arrays hold the packets.
pub record IsPacked (q : Queued) : Type 0 where
  pub sizes : q.n_pkts ≤ length q.bufsize
  pub bytes : sum (take q.n_pkts q.bufsize) ≤ length q.buf

drop-cut :
    (k : ℕ) (buf sizes : List ℕ)
    → k ≤ length sizes
    → drop k (cut buf sizes) ≡ cut (drop (sum (take k sizes)) buf) (drop k sizes)
drop-cut zero buf sizes h = refl
drop-cut (suc k) buf [] h = elim h [ ]
drop-cut (suc k) buf (n ∷ ns) h =
    drop-cut k (drop n buf) ns (omega arith)
    ∙ ap (λ t. cut t (drop k ns)) (sym (drop_add n (sum (take k ns)) buf))

-- Only the first bytes of a buffer matter.
pub cut-take :
    (buf rest sizes : List ℕ) (m : ℕ)
    → sum sizes ≤ m
    → m ≤ length buf
    → cut (take m buf ++ rest) sizes ≡ cut buf sizes
cut-take buf rest [] m h hb = refl
cut-take buf rest (n ∷ ns) m h hb =
    let e1 : take n (take m buf ++ rest) ≡ take n buf =
      take-append_le n (take m buf) rest (omega (arith, length-take m buf))
      ∙ take-take n m buf (omega arith) in
    let e2 : drop n (take m buf ++ rest) ≡ take (m - n) (drop n buf) ++ rest =
      drop-append_le n (take m buf) rest (omega (arith, length-take m buf))
      ∙ ap (λ t. t ++ rest) (sym (take-drop n m buf (omega arith))) in
    rw (e1, e2)
      (ap (λ t. take n buf ∷ t)
        (cut-take (drop n buf) rest ns (m - n) (omega arith) (omega (arith, length-drop n buf))))

pub sum-take-drop :
    (k n : ℕ) (sizes : List ℕ)
    → k ≤ n
    → sum (take k sizes) + sum (take (n - k) (drop k sizes)) ≡ sum (take n sizes)
sum-take-drop zero n sizes h = let e : n - 0 ≡ n = omega arith in rw e (omega arith)
sum-take-drop (suc k) zero sizes h = elim h [ ]
sum-take-drop (suc k) (suc n) [] h =
    omega (arith, ap sum (take_all (suc n - suc k) [] (omega arith)))
sum-take-drop (suc k) (suc n) (x ∷ xs) h =
    let e : suc n - suc k ≡ n - k = omega arith in
    rw e (omega (arith, sum-take-drop k n xs (omega arith)))

packets-shift :
    (q : Queued) (sent : ℕ)
    → IsPacked q
    → sent < q.n_pkts
    → packets (shift q sent) ≡ drop sent (packets q)
unfolding shift
packets-shift q sent v h =
    let sizes : List ℕ = take (q.n_pkts - sent) (drop sent q.bufsize) in
    let bytes : List ℕ = drop (sum (take sent q.bufsize)) q.buf in
    let total : sum (take sent q.bufsize) + sum sizes ≡ sum (take q.n_pkts q.bufsize) =
      sum-take-drop sent q.n_pkts q.bufsize (omega arith) in
    let e1 : take (q.n_pkts - sent) (sizes ++ drop (q.n_pkts - sent) q.bufsize) ≡ sizes =
      take_front (q.n_pkts - sent) sizes (drop (q.n_pkts - sent) q.bufsize) (
        omega (
          arith,
          length-take (q.n_pkts - sent) (drop sent q.bufsize),
          length-drop sent q.bufsize,
          v.sizes,
        )) in
    ap (cut (take (sum sizes) bytes ++ drop (sum sizes) q.buf)) e1
    ∙ cut-take bytes (drop (sum sizes) q.buf) sizes (sum sizes) (omega arith)
        (omega (arith, total, v.bytes, length-drop (sum (take sent q.bufsize)) q.buf))
    ∙ sym (
        drop-cut sent q.buf (take q.n_pkts q.bufsize)
          (omega (arith, length-take q.n_pkts q.bufsize, v.sizes))
        ∙ ap (λ t. cut (drop (sum t) q.buf) (drop sent (take q.n_pkts q.bufsize)))
            (take-take sent q.n_pkts q.bufsize (omega arith))
        ∙ ap (cut bytes) (sym (take-drop sent q.n_pkts q.bufsize (omega arith))))

module _ (q : Queued) (ret : IoResult) (sent : ℕ) where
  pub send_packets_hard :
      (failure ret && not (blocked ret)) ≡ true
      → send_packets true q (ret, sent) ≡ (ret, record q { n_pkts = 0 })
  unfolding send_packets
  send_packets_hard hard = rw hard refl

  pub send_packets_short :
      (failure ret && not (blocked ret)) ≡ false
      → ltb sent q.n_pkts ≡ true
      → send_packets true q (ret, sent) ≡ (from_errno eagain, if sent == 0 then q else shift q sent)
  unfolding send_packets
  send_packets_short soft short = rw (soft, short) refl

  pub send_packets_all :
      (failure ret && not (blocked ret)) ≡ false
      → ltb sent q.n_pkts ≡ false
      → send_packets true q (ret, sent) ≡ (ret, record q { n_pkts = 0 })
  unfolding send_packets
  send_packets_all soft all = rw (soft, all) refl

pub packets_left :
    (q : Queued) (sent : ℕ)
    → IsPacked q
    → sent < q.n_pkts
    → packets (if sent == 0 then q else shift q sent) ≡ drop sent (packets q)
packets_left q zero v h = refl
packets_left q (suc k) v h =
    let e : (suc k == 0) ≡ false = ground arith in rw e (packets-shift q (suc k) v h)

pub n_pkts_left :
    (q : Queued) (sent : ℕ)
    → sent < q.n_pkts
    → (if sent == 0 then q else shift q sent).n_pkts + sent ≡ q.n_pkts
unfolding shift
n_pkts_left q zero h = omega arith
n_pkts_left q (suc k) h = let e : (suc k == 0) ≡ false = ground arith in rw e (omega arith)

-- No attempt adds packets, and packets are left only where the result is blocked.
pub send_packets-n_pkts :
    (q : Queued) (ret : IoResult) (sent : ℕ)
    → let (res, q') = send_packets true q (ret, sent) in
      (q'.n_pkts ≤ q.n_pkts) × ((blocked res ≡ true) ⊎ (q'.n_pkts ≡ 0))
unfolding send_packets
send_packets-n_pkts q ret sent = elim (Bool-cases (failure ret && not (blocked ret))) [
  | inl hard ↦ rw (send_packets_hard q ret sent hard) (omega arith, inr refl)
  | inr soft ↦ elim (Bool-cases (ltb sent q.n_pkts)) [
    | inl short ↦
        rw (send_packets_short q ret sent soft short)
          (omega (arith, n_pkts_left q sent (ground arith)), inl refl)
    | inr all ↦ rw (send_packets_all q ret sent soft all) (omega arith, inr refl)
  ]
]

-- What `send_packets` returns and leaves behind, for packed arrays and a socket that has sent
-- `sent` of the packets and reports `ret`. A hard error: the socket's result, and no packet is left.
-- No hard error and some unsent: the result is blocked, and the packets left are the unsent ones, in
-- order. No hard error and all sent: the socket's result, and no packet is left.
pub send_packets_contract :
    (q : Queued) (ret : IoResult) (sent : ℕ)
    → IsPacked q
    → sent ≤ q.n_pkts
    → let (res, q') = send_packets true q (ret, sent) in
      ((failure ret && not (blocked ret)) ≡ true × (res ≡ ret) × (packets q' ≡ []))
      ⊎ ((failure ret && not (blocked ret)) ≡ false
          × (sent < q.n_pkts)
          × (blocked res ≡ true)
          × (packets q' ≡ drop sent (packets q))
          × (q'.n_pkts + sent ≡ q.n_pkts))
      ⊎ ((failure ret && not (blocked ret)) ≡ false
          × (sent ≡ q.n_pkts)
          × (res ≡ ret)
          × (packets q' ≡ []))
unfolding send_packets
send_packets_contract q ret sent v h = elim (Bool-cases (failure ret && not (blocked ret))) [
  | inl hard ↦ rw (send_packets_hard q ret sent hard) (inl (hard, refl, refl))
  | inr soft ↦ elim (Bool-cases (ltb sent q.n_pkts)) [
    | inl short ↦ rw (send_packets_short q ret sent soft short) (
        inr (
          inl (
            soft,
            ground arith,
            refl,
            packets_left q sent v (ground arith),
            n_pkts_left q sent (ground arith),
          )))
    | inr all ↦
        rw (send_packets_all q ret sent soft all) (inr (inr (soft, ground arith, refl, refl)))
  ]
]
