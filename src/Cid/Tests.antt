-- ===== src/Cid/Tests.antt =====
-- The theorems on connection ids, at ids of 8 and of 2 bytes.
use oxen_libquic.Base.{
  ℕ, zero, suc, ◌<◌, ap, ◌≡◌, ◌≢◌, refl, true, List, [], ◌∷◌, replicate, arith, All,
}
use oxen_libquic.Address.{same_bytes}
use oxen_libquic.Cid.{make_cid, same_cid, hash_cid}
use oxen_libquic.Cid.Hash.{same_cid-hash_cid, left_over, IsByte}

abbrev eight : List ℕ
eight = 1 ∷ 2 ∷ 3 ∷ 4 ∷ 5 ∷ 6 ∷ 7 ∷ 8 ∷ []

abbrev zeroes : List ℕ
zeroes = replicate 20 0

abbrev ones : List ℕ
ones = replicate 20 1

same_cid-hash_cid_example :
    (eight ≡ eight)
    × (same_cid (make_cid ones eight) (make_cid zeroes eight) ≡ true)
    × (hash_cid (make_cid zeroes eight) ≡ hash_cid (make_cid ones eight))
unfolding same_cid make_cid same_bytes
same_cid-hash_cid_example = same_cid-hash_cid zeroes ones eight eight (omega arith) refl

abbrev first : List ℕ → ℕ
first [] = 0
first (x ∷ xs) = x

zeroes_not_ones : left_over zeroes (7 ∷ 9 ∷ []) ≢ left_over ones (7 ∷ 9 ∷ [])
zeroes_not_ones e = let h : 0 ≡ 1 = ap first e in omega (arith, h)

replicate-IsByte : (n b : ℕ) → b < 256 → All IsByte (replicate n b)
replicate-IsByte zero b h = tt
replicate-IsByte (suc n) b h = (h, replicate-IsByte n b h)
