-- ===== src/Udp/Gso/Cover.antt =====
-- The messages of a send with segmentation offload against the packets.
use oxen_libquic.Base.{
  none, some, true, Option, ltb, ℕ, zero, suc, ◌+◌, ◌*◌, ◌^◌, ◌<◌, ◌≤◌, ◌≡◌, refl, ◌∙◌, inl, inr,
  List, [], ◌∷◌, ◌++◌, arith, length, All, replicate, ◌==◌, ==_iff, Bool-cases,
}
use oxen_libquic.Udp.Gso.{finish, Batch, batches, size_with}

-- A packet's size is that of a UDP payload.
abbrev pub IsSize : ℕ → Type 0
IsSize n = (0 < n) × (n < 2 ^ 16)

-- The sizes of the packets that the messages are cut into.
abbrev pub packets : List Batch → List ℕ
packets [] = []
packets (b ∷ bs) = replicate b.gso_count b.gso_size ++ packets bs

replicate_shift :
    (k n m : ℕ) (xs : List ℕ) → m ≡ n → replicate (suc k) m ++ xs ≡ replicate k n ++ (n ∷ xs)
replicate_shift zero n m xs e = ground arith
replicate_shift (suc k) n m xs e = ground (arith, replicate_shift k n m xs e)

packets-batches_from :
    (mc base size count n : ℕ) (ns : List ℕ)
    → size_with size n ≡ n
    → All IsSize (n ∷ ns)
    → packets (batches mc base size count (n ∷ ns)) ≡ replicate count n ++ (n ∷ ns)
unfolding batches
packets-batches_from mc base size count n [] e a = rw e (replicate_shift count n n [] refl)
packets-batches_from mc base size count n (m ∷ ns) e a = elim (Bool-cases (m == n)) [
  | inl same ↦
      rw (e, same)
        (packets-batches_from mc base n (suc count) m ns (ground (arith, a.0)) a.1
          ∙ replicate_shift count n m (m ∷ ns) ((==_iff m n).0 same))
  | inr other ↦
      rw (e, other)
        (rw (packets-batches_from (suc mc) (base + suc count * n) 0 0 m ns (ground arith) a.1)
          (replicate_shift count n n (m ∷ ns) refl))
]

-- For packets that are not empty and shorter than 2^16 bytes, the messages, cut at their segment
-- sizes, are the packets of the call, in order.
pub packets-batches : (ns : List ℕ) → All IsSize ns → packets (batches 0 0 0 0 ns) ≡ ns
unfolding batches
packets-batches [] a = refl
packets-batches (n ∷ ns) a = packets-batches_from 0 0 0 0 n ns (ground arith) a

-- Each message starts where the one before it ends.
abbrev pub IsLaid : ℕ → List Batch → Type 0
IsLaid base [] = Unit {0}
IsLaid base (b ∷ bs) = (b.iov_base ≡ base) × IsLaid (base + b.iov_len) bs

IsLaid-batches_from :
    (mc base size count : ℕ) (ns : List ℕ) → IsLaid base (batches mc base size count ns)
unfolding batches
IsLaid-batches_from mc base size count [] = tt
IsLaid-batches_from mc base size count (n ∷ []) = (refl, tt)
IsLaid-batches_from mc base size count (n ∷ m ∷ ns) = elim (Bool-cases (m == size_with size n)) [
  | inl same ↦ rw same (IsLaid-batches_from mc base (size_with size n) (suc count) (m ∷ ns))
  | inr other ↦ rw other (refl, IsLaid-batches_from (suc mc) _ 0 0 (m ∷ ns))
]

abbrev pub IsBelow : ℕ → Option ℕ → Type 0
IsBelow limit none = Unit {0}
IsBelow limit (some j) = j < limit

-- The control element of a message lies in an array of the length `limit`.
abbrev pub UsesControl : ℕ → Batch → Type 0
UsesControl limit b = IsBelow limit b.control

finish-UsesControl :
    (mc base size count limit : ℕ)
    → (ltb 1 count ≡ true → suc mc < limit)
    → UsesControl limit (finish mc base size count)
finish-UsesControl mc base size count limit h = elim (Bool-cases (ltb 1 count)) [
  | inl several ↦ rw several (h several)
  | inr one ↦ rw one tt
]

UsesControl-batches_from :
    (mc base size count limit : ℕ) (ns : List ℕ)
    → mc + count + length ns ≤ limit
    → All (UsesControl limit) (batches mc base size count ns)
unfolding batches
UsesControl-batches_from mc base size count limit [] h = tt
UsesControl-batches_from mc base size count limit (n ∷ []) h =
    (finish-UsesControl mc base (size_with size n) (suc count) limit (λ e. ground arith), tt)
UsesControl-batches_from mc base size count limit (n ∷ m ∷ ns) h =
    elim (Bool-cases (m == size_with size n)) [
      | inl same ↦ rw same (
          UsesControl-batches_from mc base (size_with size n) (suc count) limit (m ∷ ns)
            (omega arith))
      | inr other ↦ rw other (
        finish-UsesControl mc base (size_with size n) (suc count) limit (λ e. ground arith),
        UsesControl-batches_from (suc mc) _ 0 0 limit (m ∷ ns) (omega arith),
      )
    ]

-- The element of `controls` that a message takes lies in an array with an element for each packet,
-- although it is the one after the message's own index; and each message's bytes start where those
-- of the message before it end.
pub batches_in_bounds :
    (ns : List ℕ)
    → All (UsesControl (length ns)) (batches 0 0 0 0 ns) × IsLaid 0 (batches 0 0 0 0 ns)
batches_in_bounds ns =
    (UsesControl-batches_from 0 0 0 0 (length ns) ns (omega arith), IsLaid-batches_from 0 0 0 0 ns)
