-- ===== src/Udp/Gso.antt =====
-- src/udp.cpp: the messages that `UDPSocket::send` builds for sendmmsg with segmentation offload, and
-- the count of packets sent that it makes from what the kernel wrote back.
pub mod Cover
pub mod Counts
use oxen_libquic.Base.{
  ℕ, zero, suc, ◌+◌, ◌*◌, ◌/◌, ◌%◌, ◌^◌, Bool, Option, none, some, List, [], ◌∷◌, ◌==◌, ltb,
  if◌then◌else◌,
}

-- One element of `msgs`, with its `iovs`, `gso_sizes` and `gso_counts`, the index into `controls`
-- that it takes, and where its bytes start.
pub record Batch : Type 0 where
  pub gso_size : ℕ
  pub gso_count : ℕ
  pub iov_base : ℕ
  pub iov_len : ℕ
  pub control : Option ℕ

-- `msg_count` is the index of the batch that is being built; the control comes after `msg_count++`.
abbrev pub finish : ℕ → ℕ → ℕ → ℕ → Batch
finish msg_count base size count = record {
  gso_size = size;
  gso_count = count;
  iov_base = base;
  iov_len = count * size;
  control = if ltb 1 count then some (suc msg_count) else none;
}

-- The size of the batch after a packet of `n` bytes: a `uint16_t`, 0 in a batch not yet begun.
abbrev pub size_with : ℕ → ℕ → ℕ
size_with gso_size n = if gso_size == 0 then n % 2 ^ 16 else gso_size

-- The loop over `i`: the list is `bufsize[i..n_pkts)`, `gso_size` and `gso_count` are those of the
-- batch under `msg_count`, and `base` is `next_buf`.
unfoldable pub batches : ℕ → ℕ → ℕ → ℕ → List ℕ → List Batch
batches msg_count base gso_size gso_count [] = []
batches msg_count base gso_size gso_count (n ∷ []) =
    finish msg_count base (size_with gso_size n) (suc gso_count) ∷ []
batches msg_count base gso_size gso_count (n ∷ m ∷ rest) =
    let size = size_with gso_size n in
    let joined = batches msg_count base size (suc gso_count) (m ∷ rest) in
    let split = batches (suc msg_count) (base + suc gso_count * size) 0 0 (m ∷ rest) in
    if m == size then joined else finish msg_count base size (suc gso_count) ∷ split

-- The packets that a message with `msg_len` bytes sent counts for.
abbrev pub packets_sent : Batch → ℕ → ℕ
packets_sent b msg_len = if ltb msg_len b.iov_len then msg_len / b.gso_size else b.gso_count

-- The sum over `msgs`; `msg_len` is 0 in the messages that the kernel did not update.
unfoldable pub count_sent : List Batch → List ℕ → ℕ
count_sent [] lens = 0
count_sent (b ∷ bs) [] = packets_sent b 0 + count_sent bs []
count_sent (b ∷ bs) (len ∷ lens) = packets_sent b len + count_sent bs lens
