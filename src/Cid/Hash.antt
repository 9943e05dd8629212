-- ===== src/Cid/Hash.antt =====
-- The equality of connection ids and their hash, on ids that are made from bytes.
use oxen_libquic.Base.{
  ℕ, ◌-◌, ◌≤◌, ◌<◌, ◌≡◌, ◌≢◌, refl, sym, ap, ◌∙◌, Bool, true, ◌&&◌, List, [], ◌∷◌, ◌++◌, arith,
  ==_iff, length, take, drop, All, length-take, length-drop, take_front, All-take, All-drop,
  take-append_le, take-append_ge,
}
use oxen_libquic.Address.Equality.{same_bytes-eq, same_bytes_refl}
use oxen_libquic.Cid.{max_cidlen, make_cid, same_cid, little_endian, hash_cid}

abbrev pub IsByte : ℕ → Type 0
IsByte b = b < 256

-- What of the memory before is read by the hash.
abbrev pub left_over : List ℕ → List ℕ → List ℕ
left_over old cid = take (8 - length cid) (drop (length cid) old)

&&-split : (x y : Bool) → (x && y) ≡ true → (x ≡ true) × (y ≡ true)
&&-split x y h = (ground arith, ground arith)

same_cid-eq :
    (old older xs ys : List ℕ) → same_cid (make_cid old xs) (make_cid older ys) ≡ true → xs ≡ ys
unfolding same_cid make_cid
same_cid-eq old older xs ys h =
    let (p, q) = &&-split _ _ h in
    let len : length xs ≡ length ys = (==_iff _ _).0 p in
    sym (take_front (length xs) xs (drop (length xs) old) refl)
    ∙ same_bytes-eq _ _ q
    ∙ take_front (length xs) ys (drop (length ys) older) (sym len)

same_cid-make_cid : (old older xs : List ℕ) → same_cid (make_cid old xs) (make_cid older xs) ≡ true
unfolding same_cid make_cid
same_cid-make_cid old older xs =
    rw
      (
        take_front (length xs) xs (drop (length xs) old) refl,
        take_front (length xs) xs (drop (length xs) older) refl,
      )
      (ground (arith, same_bytes_refl xs))

hash_long :
    (old xs : List ℕ) → 8 ≤ length xs → hash_cid (make_cid old xs) ≡ little_endian (take 8 xs)
unfolding hash_cid make_cid
hash_long old xs h = ap little_endian (take-append_le 8 xs (drop (length xs) old) h)

hash_short :
    (old xs : List ℕ)
    → length xs ≤ 8
    → hash_cid (make_cid old xs) ≡ little_endian (xs ++ left_over old xs)
unfolding hash_cid make_cid
hash_short old xs h = ap little_endian (take-append_ge 8 xs (drop (length xs) old) h)

little_endian-cancel :
    (xs ys zs : List ℕ)
    → little_endian (xs ++ ys) ≡ little_endian (xs ++ zs)
    → little_endian ys ≡ little_endian zs
unfolding little_endian
little_endian-cancel [] ys zs h = h
little_endian-cancel (x ∷ xs) ys zs h = little_endian-cancel xs ys zs (omega arith)

little_endian-injective :
    (xs ys : List ℕ)
    → All IsByte xs
    → All IsByte ys
    → length xs ≡ length ys
    → little_endian xs ≡ little_endian ys
    → xs ≡ ys
unfolding little_endian
little_endian-injective [] [] a b l h = refl
little_endian-injective [] (y ∷ ys) a b l h = absurd (omega arith)
little_endian-injective (x ∷ xs) [] a b l h = absurd (omega arith)
little_endian-injective (x ∷ xs) (y ∷ ys) (p, a) (q, b) l h =
    let head : x ≡ y = omega arith in
    let tail : xs ≡ ys = little_endian-injective xs ys a b (omega arith) (omega arith) in
    ap (λ k. k ∷ xs) head ∙ ap (◌∷◌ y) tail

length-left_over :
    (old xs : List ℕ)
    → length old ≡ max_cidlen
    → length xs ≤ 8
    → length (left_over old xs) ≡ 8 - length xs
length-left_over old xs h s =
    omega (arith, length-take (8 - length xs) (drop (length xs) old), length-drop (length xs) old)

-- Two ids of at least 8 bytes that compare equal, whatever the memory held before, are made of the
-- same bytes, compare equal the other way round, and have the same hash.
pub same_cid-hash_cid :
    (old older xs ys : List ℕ)
    → 8 ≤ length xs
    → same_cid (make_cid old xs) (make_cid older ys) ≡ true
    → (xs ≡ ys)
      × (same_cid (make_cid older ys) (make_cid old xs) ≡ true)
      × (hash_cid (make_cid old xs) ≡ hash_cid (make_cid older ys))
same_cid-hash_cid old older xs ys l h =
    let e : xs ≡ ys = same_cid-eq old older xs ys h in
    (
      e,
      rw (sym e) (same_cid-make_cid older old xs),
      hash_long old xs l ∙ rw (sym e) (sym (hash_long older xs l)),
    )

-- Two ids made of the same bytes, fewer than 8, compare equal, but have different hashes where the
-- bytes that the memory held behind them, up to the 8th, differ.
pub same_cid_short :
    (old older xs : List ℕ)
    → length xs < 8
    → length old ≡ max_cidlen
    → length older ≡ max_cidlen
    → All IsByte old
    → All IsByte older
    → left_over old xs ≢ left_over older xs
    → (same_cid (make_cid old xs) (make_cid older xs) ≡ true)
      × (hash_cid (make_cid old xs) ≢ hash_cid (make_cid older xs))
same_cid_short old older xs s l m a b differ = (
  same_cid-make_cid old older xs,
  λ e. differ (
      little_endian-injective _ _
        (All-take IsByte (8 - length xs) _ (All-drop IsByte (length xs) old a))
        (All-take IsByte (8 - length xs) _ (All-drop IsByte (length xs) older b))
        (length-left_over old xs l (omega arith) ∙ sym (length-left_over older xs m (omega arith)))
        (little_endian-cancel xs _ _
          (sym (hash_short old xs (omega arith)) ∙ e ∙ hash_short older xs (omega arith)))),
)
