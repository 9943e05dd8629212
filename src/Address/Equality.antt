-- ===== src/Address/Equality.antt =====
-- The equality of addresses, as the keys of an unordered map need it.
use oxen_libquic.Base.{
  ℕ, ◌≡◌, refl, sym, ◌∙◌, Bool, true, false, ◌&&◌, List, [], ◌∷◌, inl, inr, Bool-cases, arith,
  ==_iff, ◌⊎◌,
}
use oxen_libquic.Address.{Address, is_ipv4, is_ipv6, same_bytes, same_address, hash}

pub same_bytes-eq : (xs ys : List ℕ) → same_bytes xs ys ≡ true → xs ≡ ys
unfolding same_bytes
same_bytes-eq [] [] h = refl
same_bytes-eq [] (y ∷ ys) h = absurd cc
same_bytes-eq (x ∷ xs) [] h = absurd cc
same_bytes-eq (x ∷ xs) (y ∷ ys) h = ground (arith, same_bytes-eq xs ys)

pub same_bytes_refl : (xs : List ℕ) → same_bytes xs xs ≡ true
unfolding same_bytes
same_bytes_refl [] = refl
same_bytes_refl (x ∷ xs) = ground (arith, same_bytes_refl xs)

not_both : (a : Address) → is_ipv6 a ≡ true → is_ipv4 a ≡ false
unfolding is_ipv4 is_ipv6
not_both a h = ground arith

-- What equal addresses share.
abbrev pub Alike : Address → Address → Type 0
Alike a b =
    (a.port_bits ≡ b.port_bits)
    × (((is_ipv4 a ≡ true) × (is_ipv4 b ≡ true) × (a.in4 ≡ b.in4))
        ⊎ ((is_ipv6 a ≡ true) × (is_ipv6 b ≡ true) × (a.in6 ≡ b.in6)))

&&-true : (x y : Bool) → (x && y) ≡ true → (x ≡ true) × (y ≡ true)
&&-true x y h = (ground arith, ground arith)

same_address-Alike : (a b : Address) → same_address a b ≡ true → Alike a b
unfolding same_address
same_address-Alike a b h = elim (Bool-cases (is_ipv4 a && is_ipv4 b)) [
  | inl v4 ↦
      let (pa, pb) = &&-true _ _ v4 in
      let (p, q) = &&-true _ _ (rw v4 at h) in ((==_iff _ _).0 p, inl (pa, pb, same_bytes-eq _ _ q))
  | inr not4 ↦ elim (Bool-cases (is_ipv6 a && is_ipv6 b)) [
    | inl v6 ↦
        let (pa, pb) = &&-true _ _ v6 in
        let (p, q) = &&-true _ _ (rw (not4, v6) at h) in
        ((==_iff _ _).0 p, inr (pa, pb, same_bytes-eq _ _ q))
    | inr not6 ↦ absurd (false_not_true (rw (not4, not6) at h))
  ]
]
  where
    false_not_true : false ≡ true → ⊥
    false_not_true e = cc

pub Alike-same_address : (a b : Address) → Alike a b → same_address a b ≡ true
unfolding same_address
Alike-same_address a b (p, inl (v, w, e)) = rw (v, w, p, e) (ground (arith, same_bytes_refl b.in4))
Alike-same_address a b (p, inr (v, w, e)) =
    rw (not_both a v, v, w, p, e) (ground (arith, same_bytes_refl b.in6))

not_two : (a : Address) → is_ipv4 a ≡ true → is_ipv6 a ≡ true → ⊥
not_two a v w = let n : is_ipv4 a ≡ false = not_both a w in cc

Alike-sym : (a b : Address) → Alike a b → Alike b a
Alike-sym a b (p, inl (v, w, e)) = (sym p, inl (w, v, sym e))
Alike-sym a b (p, inr (v, w, e)) = (sym p, inr (w, v, sym e))

Alike-trans : (a b c : Address) → Alike a b → Alike b c → Alike a c
Alike-trans a b c (p, inl (v, w, e)) (q, inl (x, y, f)) = (p ∙ q, inl (v, y, e ∙ f))
Alike-trans a b c (p, inr (v, w, e)) (q, inr (x, y, f)) = (p ∙ q, inr (v, y, e ∙ f))
Alike-trans a b c (p, inl (v, w, e)) (q, inr (x, y, f)) = absurd (not_two b w x)
Alike-trans a b c (p, inr (v, w, e)) (q, inl (x, y, f)) = absurd (not_two b x w)

Alike-hash :
    (hash_bytes : List ℕ → ℕ) (hash_port : ℕ → ℕ) (a b : Address)
    → Alike a b
    → hash hash_bytes hash_port a ≡ hash hash_bytes hash_port b
unfolding hash
Alike-hash hash_bytes hash_port a b (p, inl (v, w, e)) = rw (v, w, p, e) refl
Alike-hash hash_bytes hash_port a b (p, inr (v, w, e)) = rw (not_both a v, not_both b w, p, e) refl

-- Two addresses that compare equal have the same hash, so that a map finds the one under the other, and
-- compare equal the other way round; and what compares equal to the second compares equal to the first.
pub same_address-hash :
    (hash_bytes : List ℕ → ℕ) (hash_port : ℕ → ℕ) (a b c : Address)
    → same_address a b ≡ true
    → same_address b c ≡ true
    → (hash hash_bytes hash_port a ≡ hash hash_bytes hash_port b)
      × (same_address b a ≡ true)
      × (same_address a c ≡ true)
same_address-hash hash_bytes hash_port a b c h g =
    let l : Alike a b = same_address-Alike a b h in
    let m : Alike b c = same_address-Alike b c g in
    (
      Alike-hash hash_bytes hash_port a b l,
      Alike-same_address b a (Alike-sym a b l),
      Alike-same_address a c (Alike-trans a b c l m),
    )
