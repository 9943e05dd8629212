-- ===== src/Endpoint/Receive/Drawn.antt =====
-- Random ids against the map of connections: among more distinct ids than it has entries, one is free.
use oxen_libquic.Base.{
  ℕ, suc, ◌<◌, ◌≡◌, refl, sym, ◌∙◌, false, Option, none, some, List, [], ◌∷◌, ◌==◌, length, All,
  arith, inl, inr, ◌⊎◌, Option-cases, Bool-cases,
}
use oxen_libquic.Base.Outcome.{IsDone}
use oxen_libquic.Endpoint.{Endpoint, Conn, find, erase}
use oxen_libquic.Endpoint.Incoming.{fresh_cid}
use oxen_libquic.Endpoint.Registry.{IsMap, erase-IsMap, find-erase}

abbrev pub Distinct : List ℕ → Type 0
Distinct [] = Unit {0}
Distinct (x ∷ xs) = All (λ y. (y == x) ≡ false) xs × Distinct xs

-- An id of the list is not in the map.
abbrev pub HasFree : List ℕ → List (ℕ × Option Conn) → Type 0
HasFree [] cs = ⊥
HasFree (r ∷ rs) cs = (find r cs ≡ none) ⊎ HasFree rs cs

pub length-erase :
    (cid : ℕ) (cs : List (ℕ × Option Conn)) (v : Option Conn)
    → find cid cs ≡ some v
    → suc (length (erase cid cs)) ≡ length cs
unfolding find erase
length-erase cid [] v e = absurd cc
length-erase cid ((k, c) ∷ cs) v e = elim (Bool-cases (k == cid)) [
  | inl same ↦ rw same refl
  | inr other ↦ rw other (omega (arith, length-erase cid cs v (rw other at e)))
]

-- An id that is free beside another one's entry.
HasFree-erase :
    (cid : ℕ) (rs : List ℕ) (cs : List (ℕ × Option Conn))
    → IsMap cs
    → All (λ y. (y == cid) ≡ false) rs
    → HasFree rs (erase cid cs)
    → HasFree rs cs
HasFree-erase cid [] cs m a h = h
HasFree-erase cid (r ∷ rs) cs m a (inl e) = inl (sym (find-erase cid r cs m ∙ rw a.0 refl) ∙ e)
HasFree-erase cid (r ∷ rs) cs m a (inr h) = inr (HasFree-erase cid rs cs m a.1 h)

pub Distinct-HasFree :
    (rs : List ℕ) (cs : List (ℕ × Option Conn))
    → IsMap cs
    → Distinct rs
    → length cs < length rs
    → HasFree rs cs
Distinct-HasFree [] cs m d h = absurd (omega arith)
Distinct-HasFree (r ∷ rs) cs m d h = elim (Option-cases (find r cs)) [
  | inl e ↦ inl e
  | inr (v, e) ↦ inr (
      HasFree-erase r rs cs m d.0 (
        Distinct-HasFree rs (erase r cs) (erase-IsMap r cs m) d.1
          (omega (arith, length-erase r cs v e))))
]

pub fresh_cid-IsDone :
    (ep : Endpoint) (rs : List ℕ) → HasFree rs ep.conns → IsDone (fresh_cid ep rs)
unfolding fresh_cid
fresh_cid-IsDone ep [] h = absurd h
fresh_cid-IsDone ep (r ∷ rs) h = elim (Option-cases (find r ep.conns)) [
  | inl e ↦ rw (e, IsDone) tt
  | inr (v, e) ↦ elim h [
    | inl free ↦ absurd cc
    | inr more ↦ rw (e, IsDone) (fresh_cid-IsDone ep rs more)
  ]
]
