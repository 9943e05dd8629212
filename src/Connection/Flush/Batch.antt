-- ===== src/Connection/Flush/Batch.antt =====
-- The packets of a batch, as `flush_streams` packs them into `send_buffer` and `send` takes them out.
use oxen_libquic.Base.{
  ℕ, suc, ◌+◌, ◌-◌, ◌≤◌, ◌≡◌, refl, sym, ap, ◌∙◌, List, [], ◌∷◌, ◌++◌, length, take, drop,
  length-append, length-take, take-append_ge, drop-append_ge, take_front, take_all, arith, drop_add,
  append-nil, ltb, true, false, append_assoc, take-append-drop, not, ◌&&◌, ◌⊎◌, inl, inr,
  Bool-cases,
}
use oxen_libquic.IoResult.{IoResult, failure, blocked}
use oxen_libquic.Endpoint.Packets.{Queued, sum, send_packets}
use oxen_libquic.Endpoint.Packets.Contract.{
  packets, cut, IsPacked, cut-take, packets_left, send_packets_hard, send_packets_short,
  send_packets_all,
}
use oxen_libquic.Endpoint.Packets.Packed.{empty-IsPacked, send_packets-IsPacked}
use oxen_libquic.Connection.Flush.{Loop, store, queue, send}
use oxen_libquic.Connection.Flush.Sound.{after_attempt, send-blocked, send-failure, send_through}

module _ {ℓ} {A : Type ℓ} where
  take-store :
      (at : ℕ) (new old : List A)
      → at ≤ length old
      → take (at + length new) (store at new old) ≡ take at old ++ new
  take-store at new old h =
      let rest : List A = drop (at + length new) old in
      take-append_ge (at + length new) (take at old) (new ++ rest)
        (omega (arith, length-take at old))
      ∙ ap (λ t. take at old ++ t)
          (take_front (at + length new - length (take at old)) new rest
            (omega (arith, length-take at old)))

  drop-store :
      (at : ℕ) (new old : List A)
      → at ≤ length old
      → drop at (store at new old) ≡ new ++ drop (at + length new) old
  drop-store at new old h =
      drop-append_ge at (take at old) (new ++ drop (at + length new) old)
        (omega (arith, length-take at old))
      ∙ ap (λ n. drop n (new ++ drop (at + length new) old)) {y = 0}
          (omega (arith, length-take at old))

  length-store :
      (at : ℕ) (new old : List A) → at ≤ length old → at + length new ≤ length (store at new old)
  length-store at new old h = omega (
    arith,
    length-append (take at old) (new ++ drop (at + length new) old),
    length-append new (drop (at + length new) old),
    length-take at old,
  )

sum_last : (ns : List ℕ) (n : ℕ) → sum (ns ++ (n ∷ [])) ≡ sum ns + n
sum_last [] n = omega arith
sum_last (m ∷ ns) n = omega (arith, sum_last ns n)

cut_last :
    (buf ns : List ℕ) (n : ℕ)
    → cut buf (ns ++ (n ∷ [])) ≡ cut buf ns ++ (take n (drop (sum ns) buf) ∷ [])
cut_last buf [] n = refl
cut_last buf (m ∷ ns) n =
    ap (λ t. take m buf ∷ t)
      (cut_last (drop m buf) ns n
        ∙ ap (λ t. cut (drop m buf) ns ++ (take n t ∷ [])) (sym (drop_add m (sum ns) buf)))

-- The packets are packed, and the next one goes behind them.
pub record IsBatch (q : Queued) (buf_pos : ℕ) : Type 0 where
  pub packed : IsPacked q
  pub position : buf_pos ≡ sum (take q.n_pkts q.bufsize)

module _ (q : Queued) (buf_pos : ℕ) (bytes : List ℕ) (b : IsBatch q buf_pos) where
  sizes :
      take (suc q.n_pkts) (store q.n_pkts (length bytes ∷ []) q.bufsize)
      ≡ take q.n_pkts q.bufsize ++ (length bytes ∷ [])
  sizes =
      ap (λ k. take k (store q.n_pkts (length bytes ∷ []) q.bufsize)) {x = suc q.n_pkts}
        (omega arith)
      ∙ take-store q.n_pkts (length bytes ∷ []) q.bufsize b.packed.sizes

  in_buf : buf_pos ≤ length q.buf
  in_buf = omega (arith, b.packed.bytes, b.position)

  pub packets-queue : packets (queue q buf_pos bytes) ≡ packets q ++ (bytes ∷ [])
  packets-queue =
      let rest : List ℕ = bytes ++ drop (buf_pos + length bytes) q.buf in
      let s : List ℕ = store buf_pos bytes q.buf in
      let before : cut s (take q.n_pkts q.bufsize) ≡ packets q =
        cut-take q.buf rest (take q.n_pkts q.bufsize) buf_pos (omega (arith, b.position)) in_buf in
      let last : take (length bytes) (drop (sum (take q.n_pkts q.bufsize)) s) ≡ bytes =
        ap (λ k. take (length bytes) (drop k s)) (sym b.position)
        ∙ ap (take (length bytes)) (drop-store buf_pos bytes q.buf in_buf)
        ∙ take_front (length bytes) bytes (drop (buf_pos + length bytes) q.buf) refl in
      ap (cut s) sizes
      ∙ cut_last s (take q.n_pkts q.bufsize) (length bytes)
      ∙ ap (λ t. t ++ (take (length bytes) (drop (sum (take q.n_pkts q.bufsize)) s) ∷ [])) before
      ∙ ap (λ t. packets q ++ (t ∷ [])) last

  pub queue-IsBatch : IsBatch (queue q buf_pos bytes) (buf_pos + length bytes)
  queue-IsBatch =
      let total : sum (take (suc q.n_pkts) (store q.n_pkts (length bytes ∷ []) q.bufsize))
          ≡ sum (take q.n_pkts q.bufsize) + length bytes =
        ap sum sizes ∙ sum_last (take q.n_pkts q.bufsize) (length bytes) in
      record {
        packed = record {
          sizes = omega (arith, length-store q.n_pkts (length bytes ∷ []) q.bufsize b.packed.sizes);
          bytes = omega (arith, total, b.position, length-store buf_pos bytes q.buf in_buf);
        };
        position = omega (arith, total, b.position);
      }

pub empty-IsBatch : (q : Queued) → q.n_pkts ≡ 0 → IsBatch q 0
empty-IsBatch q e =
    let none_left : take q.n_pkts q.bufsize ≡ [] = rw e refl in
    record { packed = empty-IsPacked q e; position = omega (arith, ap sum none_left) }

pub empty-packets : (q : Queued) → q.n_pkts ≡ 0 → packets q ≡ []
empty-packets q e = rw e refl

length-cut : (buf ns : List ℕ) → length (cut buf ns) ≡ length ns
length-cut buf [] = refl
length-cut buf (n ∷ ns) = ap suc (length-cut (drop n buf) ns)

length-packets : (q : Queued) → IsPacked q → length (packets q) ≡ q.n_pkts
length-packets q v =
    omega
      (arith, length-cut q.buf (take q.n_pkts q.bufsize), length-take q.n_pkts q.bufsize, v.sizes)

-- What the socket has taken, and what is left.
abbrev pub packets_out : Loop → List (List ℕ)
packets_out l = l.accepted ++ packets l.queued

-- Where the socket does not fail, an attempt only moves packets from the queue to it.
pub after_attempt-packets :
    (l : Loop) (ret : IoResult) (sent : ℕ)
    → IsPacked l.queued
    → (failure ret && not (blocked ret)) ≡ false
    → packets_out (after_attempt l (ret, sent)) ≡ packets_out l
after_attempt-packets l ret sent v soft = elim (Bool-cases (ltb sent l.queued.n_pkts)) [
  | inl short ↦ rw (send_packets_short l.queued ret sent soft short) (
      ap (λ t. (l.accepted ++ take sent (packets l.queued)) ++ t)
        (packets_left l.queued sent v (ground arith))
      ∙ append_assoc l.accepted (take sent (packets l.queued)) (drop sent (packets l.queued))
      ∙ ap (λ t. l.accepted ++ t) (take-append-drop sent (packets l.queued)))
  | inr all ↦ rw (send_packets_all l.queued ret sent soft all) (
      append-nil (l.accepted ++ take sent (packets l.queued))
      ∙ ap (λ t. l.accepted ++ t)
          (take_all sent (packets l.queued) (ground (arith, length-packets l.queued v))))
]

-- Without a hard error, a result that is not blocked is none.
send_packets-failure :
    (q : Queued) (ret : IoResult) (sent : ℕ)
    → (failure ret && not (blocked ret)) ≡ false
    → blocked (send_packets true q (ret, sent)).0 ≡ false
    → failure (send_packets true q (ret, sent)).0 ≡ false
send_packets-failure q ret sent soft nb = elim (Bool-cases (ltb sent q.n_pkts)) [
  | inl short ↦
      let told : blocked (send_packets true q (ret, sent)).0 ≡ true =
        ap (λ r. blocked r.0) (send_packets_short q ret sent soft short) in
      absurd cc
  | inr all ↦
      let told : (send_packets true q (ret, sent)).0 ≡ ret =
        ap (λ r. r.0) (send_packets_all q ret sent soft all) in
      let free : blocked ret ≡ false = ap blocked (sym told) ∙ nb in ap failure told ∙ ground arith
]

-- What an attempt does to the packets: a hard error cancels the update, anything else keeps them.
pub send-packets_out :
    (l : Loop) (reply : IoResult × ℕ)
    → IsPacked l.queued
    → ((failure reply.0 && not (blocked reply.0)) ≡ true
        × ((send l reply).0 ≡ false)
        × ((send l reply).1.cancelled ≡ true)
        × ((send l reply).1.sends ≡ suc l.sends))
      ⊎ ((packets_out (send l reply).1 ≡ packets_out l)
          × ((send l reply).1.cancelled ≡ l.cancelled))
send-packets_out l (ret, sent) v = elim (Bool-cases (failure ret && not (blocked ret))) [
  | inl hard ↦
      let e : send_packets true l.queued (ret, sent) ≡ (ret, record l.queued { n_pkts = 0 }) =
        send_packets_hard l.queued ret sent hard in
      let f : failure ret ≡ true = ground arith in
      let b : blocked ret ≡ false = ground arith in
      rw (send-failure l (ret, sent) (ap (λ r. blocked r.0) e ∙ b) (ap (λ r. failure r.0) e ∙ f))
        (inl (hard, refl, refl, refl))
  | inr soft ↦
      let kept : packets_out (after_attempt l (ret, sent)) ≡ packets_out l =
        after_attempt-packets l ret sent v soft in
      elim (Bool-cases (blocked (send_packets true l.queued (ret, sent)).0)) [
        | inl b ↦ rw (send-blocked l (ret, sent) b) (inr (kept, refl))
        | inr nb ↦
            rw (send_through l (ret, sent) nb (send_packets-failure l.queued ret sent soft nb))
              (inr (kept, refl))
      ]
]

pub send-IsPacked :
    (l : Loop) (reply : IoResult × ℕ) → IsPacked l.queued → IsPacked (send l reply).1.queued
send-IsPacked l reply v =
    let kept : IsPacked (send_packets true l.queued reply).1 =
      send_packets-IsPacked l.queued reply v in
    elim (Bool-cases (blocked (send_packets true l.queued reply).0)) [
      | inl b ↦ rw (send-blocked l reply b) kept
      | inr nb ↦ elim (Bool-cases (failure (send_packets true l.queued reply).0)) [
        | inl f ↦ rw (send-failure l reply nb f) kept
        | inr nf ↦ rw (send_through l reply nb nf) kept
      ]
    ]
