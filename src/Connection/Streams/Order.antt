-- ===== src/Connection/Streams/Order.antt =====
-- The map of streams: its keys ascend, and a stream in it is ready and knows its key.
use mathlib.Core.Path.{subst}
use oxen_libquic.Base.{
  ap, ◌∙◌, ℕ, ◌<◌, ◌≡◌, ◌≢◌, refl, true, none, some, [], ◌∷◌, ◌==◌, ltb, if◌then◌else◌, arith, All,
  inl, inr, Bool-cases, some-injective, sym, ==_iff,
}
use oxen_libquic.Base.Int.{pos}
use oxen_libquic.Stream.{Stream}
use oxen_libquic.Connection.Streams.{StreamMap, find, assign, emplace, erase}

-- A stream under the key `id`.
abbrev pub IsEntry : ℕ → Stream → Type 0
IsEntry id s = (s.stream_id ≡ pos id) × (s.ready ≡ true)

abbrev pub IsAbove : ℕ → StreamMap → Type 0
IsAbove id m = All (λ e. id < e.0) m

abbrev pub IsOrdered : StreamMap → Type 0
IsOrdered [] = Unit {0}
IsOrdered ((k, s) ∷ m) = IsEntry k s × IsAbove k m × IsOrdered m

IsAbove-trans : (j k : ℕ) (m : StreamMap) → j < k → IsAbove k m → IsAbove j m
IsAbove-trans j k [] h a = tt
IsAbove-trans j k (e ∷ m) h a = (omega (arith, a.0), IsAbove-trans j k m h a.1)

assign-IsAbove :
    (j id : ℕ) (s : Stream) (m : StreamMap) → j < id → IsAbove j m → IsAbove j (assign id s m)
unfolding assign
assign-IsAbove j id s [] h a = (h, tt)
assign-IsAbove j id s ((k, t) ∷ m) h a = elim (Bool-cases (id == k)) [
  | inl same ↦ rw same (h, a.1)
  | inr other ↦ elim (Bool-cases (ltb id k)) [
    | inl before ↦ rw (other, before) (h, a)
    | inr after ↦ rw (other, after) (a.0, assign-IsAbove j id s m h a.1)
  ]
]

pub assign-IsOrdered :
    (id : ℕ) (s : Stream) (m : StreamMap) → IsEntry id s → IsOrdered m → IsOrdered (assign id s m)
unfolding assign
assign-IsOrdered id s [] e o = (e, tt, tt)
assign-IsOrdered id s ((k, t) ∷ m) e o = elim (Bool-cases (id == k)) [
  | inl same ↦ rw same (e, subst (λ i. IsAbove i m) (sym ((==_iff id k).0 same)) o.1, o.2)
  | inr other ↦ elim (Bool-cases (ltb id k)) [
    | inl before ↦
        rw (other, before) (e, (ground arith, IsAbove-trans id k m (ground arith) o.1), o)
    | inr after ↦
        rw (other, after)
          (o.0, assign-IsAbove k id s m (ground arith) o.1, assign-IsOrdered id s m e o.2)
  ]
]

emplace-IsAbove :
    (j id : ℕ) (s : Stream) (m : StreamMap) → j < id → IsAbove j m → IsAbove j (emplace id s m)
unfolding emplace
emplace-IsAbove j id s [] h a = (h, tt)
emplace-IsAbove j id s ((k, t) ∷ m) h a = elim (Bool-cases (id == k)) [
  | inl same ↦ rw same a
  | inr other ↦ elim (Bool-cases (ltb id k)) [
    | inl before ↦ rw (other, before) (h, a)
    | inr after ↦ rw (other, after) (a.0, emplace-IsAbove j id s m h a.1)
  ]
]

pub emplace-IsOrdered :
    (id : ℕ) (s : Stream) (m : StreamMap) → IsEntry id s → IsOrdered m → IsOrdered (emplace id s m)
unfolding emplace
emplace-IsOrdered id s [] e o = (e, tt, tt)
emplace-IsOrdered id s ((k, t) ∷ m) e o = elim (Bool-cases (id == k)) [
  | inl same ↦ rw same o
  | inr other ↦ elim (Bool-cases (ltb id k)) [
    | inl before ↦
        rw (other, before) (e, (ground arith, IsAbove-trans id k m (ground arith) o.1), o)
    | inr after ↦
        rw (other, after)
          (o.0, emplace-IsAbove k id s m (ground arith) o.1, emplace-IsOrdered id s m e o.2)
  ]
]

erase-IsAbove : (j id : ℕ) (m : StreamMap) → IsAbove j m → IsAbove j (erase id m)
unfolding erase
erase-IsAbove j id [] a = tt
erase-IsAbove j id ((k, t) ∷ m) a = elim (Bool-cases (k == id)) [
  | inl same ↦ rw same a.1
  | inr other ↦ rw other (a.0, erase-IsAbove j id m a.1)
]

pub erase-IsOrdered : (id : ℕ) (m : StreamMap) → IsOrdered m → IsOrdered (erase id m)
unfolding erase
erase-IsOrdered id [] o = tt
erase-IsOrdered id ((k, t) ∷ m) o = elim (Bool-cases (k == id)) [
  | inl same ↦ rw same o.2
  | inr other ↦ rw other (o.0, erase-IsAbove k id m o.1, erase-IsOrdered id m o.2)
]

pub find-IsEntry :
    (id : ℕ) (m : StreamMap) (s : Stream) → IsOrdered m → find id m ≡ some s → IsEntry id s
unfolding find
find-IsEntry id [] s o h = absurd cc
find-IsEntry id ((k, t) ∷ m) s o h = elim (Bool-cases (k == id)) [
  | inl same ↦
      let t_s : t ≡ s = some-injective (rw same at h) in
      let id_k : k ≡ id = (==_iff k id).0 same in
      subst (λ (x : Stream). IsEntry id x) t_s (subst (λ i. IsEntry i t) id_k o.0)
  | inr other ↦ find-IsEntry id m s o.2 (rw other at h)
]

find-IsAbove : (id : ℕ) (m : StreamMap) → IsAbove id m → find id m ≡ none
unfolding find
find-IsAbove id [] a = refl
find-IsAbove id ((k, t) ∷ m) a = ground (arith, a.0, find-IsAbove id m a.1)

-- An id that is erased is gone, and every other stays.
pub find-erase :
    (id k : ℕ) (m : StreamMap)
    → IsOrdered m
    → find k (erase id m) ≡ (if k == id then none else find k m)
unfolding find erase
find-erase id k [] o = ground arith
find-erase id k ((j, t) ∷ m) o = ground (arith, find-erase id k m o.2, find-IsAbove j m o.1)

pub find-assign_other :
    (id k : ℕ) (s : Stream) (m : StreamMap) → k ≢ id → find k (assign id s m) ≡ find k m
unfolding find assign
find-assign_other id k s [] h = ground arith
find-assign_other id k s ((j, t) ∷ m) h = ground (arith, find-assign_other id k s m h)

pub find-assign : (id : ℕ) (s : Stream) (m : StreamMap) → find id (assign id s m) ≡ some s
unfolding find assign
find-assign id s [] = ground arith
find-assign id s ((k, t) ∷ m) = ground (arith, find-assign id s m)

pub find-assign_any :
    (id k : ℕ) (s : Stream) (m : StreamMap)
    → find k (assign id s m) ≡ (if k == id then some s else find k m)
unfolding find assign
find-assign_any id k s [] = ground arith
find-assign_any id k s ((j, t) ∷ m) = ground (arith, find-assign_any id k s m)

pub find-here :
    (id k : ℕ) (s : Stream) (m : StreamMap)
    → find id m ≡ some s
    → find k m ≡ (if k == id then some s else find k m)
find-here id k s m h = elim (Bool-cases (k == id)) [
  | inl same ↦ rw same (ap (λ t. find t m) ((==_iff k id).0 same) ∙ h)
  | inr other ↦ rw other refl
]
