-- ===== src/Udp/Gso/Counts.antt =====
-- The count of packets sent with segmentation offload.
use native.Mathlib.Nat.{mul-div_cancel, zero-div}
use oxen_libquic.Base.{
  ℕ, zero, suc, ◌+◌, ◌-◌, ◌*◌, ◌<◌, ◌≤◌, ◌≡◌, refl, ap, inl, inr, List, [], ◌∷◌, arith, length,
  length-append, All, replicate, ◌==◌, ltb, leb, Bool-cases, if◌then◌else◌,
}
use oxen_libquic.Udp.Gso.{Batch, batches, size_with, packets_sent, count_sent}
use oxen_libquic.Udp.Gso.Cover.{IsSize, packets, packets-batches}

-- A message that the loop builds: its length is that of its packets, which are not empty.
abbrev pub IsMessage : Batch → Type 0
IsMessage b = (b.iov_len ≡ b.gso_count * b.gso_size) × (0 < b.gso_count) × (0 < b.gso_size)

IsMessage-batches_from :
    (mc base size count : ℕ) (ns : List ℕ)
    → All IsSize ns
    → All IsMessage (batches mc base size count ns)
unfolding batches
IsMessage-batches_from mc base size count [] a = tt
IsMessage-batches_from mc base size count (n ∷ []) a = ((refl, omega arith, ground arith), tt)
IsMessage-batches_from mc base size count (n ∷ m ∷ ns) a =
    elim (Bool-cases (m == size_with size n)) [
      | inl same ↦
          rw same (IsMessage-batches_from mc base (size_with size n) (suc count) (m ∷ ns) a.1)
      | inr other ↦
          rw other
            ((refl, omega arith, ground arith), IsMessage-batches_from (suc mc) _ 0 0 (m ∷ ns) a.1)
    ]

total : List Batch → ℕ
total [] = 0
total (b ∷ bs) = b.gso_count + total bs

length-replicate : (n m : ℕ) → length (replicate n m) ≡ n
length-replicate zero m = refl
length-replicate (suc n) m = ap suc (length-replicate n m)

total-packets : (bs : List Batch) → total bs ≡ length (packets bs)
unfolding total
total-packets [] = refl
total-packets (b ∷ bs) = omega (
  arith,
  length-append (replicate b.gso_count b.gso_size) (packets bs),
  length-replicate b.gso_count b.gso_size,
  total-packets bs,
)

-- What a kernel that takes the first `p` packets writes back: whole messages, then part of one.
abbrev pub lengths_of : ℕ → List Batch → List ℕ
lengths_of p [] = []
lengths_of p (b ∷ bs) =
    let rest = lengths_of (p - b.gso_count) bs in
    if leb b.gso_count p then b.iov_len ∷ rest else p * b.gso_size ∷ []

packets_sent_zero : (b : Batch) → IsMessage b → packets_sent b 0 ≡ 0
packets_sent_zero b m = elim (Bool-cases (ltb 0 b.iov_len)) [
  | inl some_bytes ↦ rw some_bytes (zero-div b.gso_size)
  | inr empty ↦ absurd (grind arith)
]

-- A message sent whole, and one of which `p` packets went out.
packets_sent_whole : (b : Batch) → packets_sent b b.iov_len ≡ b.gso_count
packets_sent_whole b = ground arith

packets_sent_part :
    (b : Batch) (p : ℕ) → IsMessage b → p < b.gso_count → packets_sent b (p * b.gso_size) ≡ p
packets_sent_part b p m h = elim (Bool-cases (ltb (p * b.gso_size) b.iov_len)) [
  | inl short ↦ rw short (mul-div_cancel p m.2)
  | inr full ↦ absurd (grind arith)
]

count_sent_none : (bs : List Batch) → All IsMessage bs → count_sent bs [] ≡ 0
unfolding count_sent
count_sent_none [] a = refl
count_sent_none (b ∷ bs) a = omega (arith, packets_sent_zero b a.0, count_sent_none bs a.1)

count_sent-lengths_of :
    (bs : List Batch) (p : ℕ)
    → All IsMessage bs
    → p ≤ total bs
    → count_sent bs (lengths_of p bs) ≡ p
unfolding count_sent total
count_sent-lengths_of [] p a h = omega arith
count_sent-lengths_of (b ∷ bs) p a h = elim (Bool-cases (leb b.gso_count p)) [
  | inl whole ↦
      let le : b.gso_count ≤ p = ground arith in
      rw whole (
        omega (
          arith,
          packets_sent_whole b,
          count_sent-lengths_of bs (p - b.gso_count) a.1 (ground arith),
        ))
  | inr part ↦
      rw part (omega (arith, packets_sent_part b p a.0 (ground arith), count_sent_none bs a.1))
]

-- For packets that are not empty and shorter than 2^16 bytes, of which the kernel takes the first
-- `p`, exactly `p` packets count as sent.
pub count_sent_exact :
    (ns : List ℕ) (p : ℕ)
    → All IsSize ns
    → p ≤ length ns
    → count_sent (batches 0 0 0 0 ns) (lengths_of p (batches 0 0 0 0 ns)) ≡ p
count_sent_exact ns p a h =
    count_sent-lengths_of (batches 0 0 0 0 ns) p (IsMessage-batches_from 0 0 0 0 ns a)
      (omega (arith, total-packets (batches 0 0 0 0 ns), ap length (packets-batches ns a)))
