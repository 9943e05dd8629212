-- ===== src/Base/Calls.antt =====
-- Calls that are made one after another, up to the first that fails.
use oxen_libquic.Base.Lists.{All}
use oxen_libquic.Base.Bools.{if◌then◌else◌, Bool-cases}
use mathlib.Core.Path.{◌≡◌, refl, ap}
use mathlib.Core.Logic.{◌↔◌, inl, inr}
use mathlib.Core.Bool.{Bool, true, false}
use mathlib.Core.List.{List, [], ◌∷◌, ◌++◌}

module _ {A : Type 0} (fails : A → Bool) where
  -- The calls that are made, and whether none of them fails.
  unfoldable pub check_each : List A → List A × Bool
  check_each [] = ([], true)
  check_each (c ∷ cs) =
      let (made, ok) = check_each cs in if fails c then (c ∷ [], false) else (c ∷ made, ok)

  pub check_each-All : (cs : List A) → ((check_each cs).1 ≡ true) ↔ All (λ c. fails c ≡ false) cs
  unfolding check_each
  check_each-All [] = ((λ e. tt), (λ a. refl))
  check_each-All (c ∷ cs) = elim (Bool-cases (fails c)) [
    | inl f ↦ rw f ((λ e. cc), (λ a. cc))
    | inr f ↦ rw f ((λ e. (refl, (check_each-All cs).0 e)), (λ a. (check_each-All cs).1 a.1))
  ]

  pub check_each_prefix : (cs : List A) → (rest : List A) × ((check_each cs).0 ++ rest ≡ cs)
  unfolding check_each
  check_each_prefix [] = ([], refl)
  check_each_prefix (c ∷ cs) = elim (Bool-cases (fails c)) [
    | inl f ↦ (cs, rw f refl)
    | inr f ↦ let (rest, e) = check_each_prefix cs in (rest, rw f (ap (◌∷◌ c) e))
  ]

  pub check_each_all : (cs : List A) → (check_each cs).1 ≡ true → (check_each cs).0 ≡ cs
  unfolding check_each
  check_each_all [] h = refl
  check_each_all (c ∷ cs) h = elim (Bool-cases (fails c)) [
    | inl f ↦ absurd (false-ne-true (rw (f, check_each) at h))
    | inr f ↦ rw f (ap (◌∷◌ c) (check_each_all cs (rw (f, check_each) at h)))
  ]
    where
      false-ne-true : false ≡ true → ⊥
      false-ne-true e = cc
