-- ===== src/Base/Outcome.antt =====
-- How a run of the code can end: with a value, in undefined behaviour, by an exception, or with the
-- fuel of a loop used up before the loop has ended.
use mathlib.Core.Path.{◌≡◌, refl}
use mathlib.Core.Bool.{Bool, true, false}
use oxen_libquic.Base.Bools.{if◌then◌else◌}

pub data Outcome {ℓ} (A : Type ℓ) : Type ℓ where
  done : A → Outcome A
  undefined throws out_of_fuel : Outcome A

infixl 5 ◌>>=◌
abbrev pub ◌>>=◌ {ℓ κ} : {A : Type ℓ} {B : Type κ} → Outcome A → (A → Outcome B) → Outcome B
done a >>= f = f a
undefined >>= f = undefined
throws >>= f = throws
out_of_fuel >>= f = out_of_fuel

-- Inversion of a run that comes to a value.
pub >>=-eq-done {ℓ κ} :
    {A : Type ℓ} {B : Type κ} (m : Outcome A) (f : A → Outcome B) {b : B}
    → (m >>= f) ≡ done b
    → (a : A) × (m ≡ done a) × (f a ≡ done b)
>>=-eq-done (done a) f h = (a, refl, h)
>>=-eq-done undefined f h = cc
>>=-eq-done throws f h = cc
>>=-eq-done out_of_fuel f h = cc

pub done-injective {ℓ} : {A : Type ℓ} {a b : A} → done a ≡ done b → a ≡ b
done-injective h = cc

-- What an outcome holds, if it holds anything.
abbrev pub Holds {ℓ} : {A : Type 0} → (A → Type ℓ) → Outcome A → Type ℓ
Holds P (done a) = P a
Holds P _ = Unit

pub Holds-if {ℓ} :
    {A : Type 0} (b : Bool) (P : A → Type ℓ) (x y : Outcome A)
    → Holds P x
    → Holds P y
    → Holds P (if b then x else y)
Holds-if true P x y hx hy = hx
Holds-if false P x y hx hy = hy

pub Holds-bind {ℓ κ} :
    {A B : Type 0} (P : A → Type ℓ) (Q : B → Type κ) (m : Outcome A) (f : A → Outcome B)
    → Holds P m
    → ((a : A) → P a → Holds Q (f a))
    → Holds Q (m >>= f)
Holds-bind P Q (done a) f h k = k a h
Holds-bind P Q (undefined) f h k = tt
Holds-bind P Q (throws) f h k = tt
Holds-bind P Q (out_of_fuel) f h k = tt

-- What a run that has come to a value holds.
pub Holds-done {ℓ} :
    {A : Type 0} (P : A → Type ℓ) (m : Outcome A) (a : A) → Holds P m → m ≡ done a → P a
Holds-done P m a h e = rw e at h

pub Holds-Unit {ℓ} : {A : Type 0} (m : Outcome A) → Holds (λ _. Unit {ℓ}) m
Holds-Unit (done a) = tt
Holds-Unit undefined = tt
Holds-Unit throws = tt
Holds-Unit out_of_fuel = tt

-- A run comes to a value.
abbrev pub IsDone {ℓ} : {A : Type ℓ} → Outcome A → Type 0
IsDone (done a) = Unit {0}
IsDone _ = ⊥

pub IsDone-if {ℓ} :
    {A : Type ℓ} (b : Bool) (x y : Outcome A) → IsDone x → IsDone y → IsDone (if b then x else y)
IsDone-if true x y hx hy = hx
IsDone-if false x y hx hy = hy

pub IsDone-bind {ℓ} :
    {A B : Type 0} (P : A → Type ℓ) (m : Outcome A) (f : A → Outcome B)
    → IsDone m
    → Holds P m
    → ((a : A) → P a → IsDone (f a))
    → IsDone (m >>= f)
IsDone-bind P (done a) f d h k = k a h
IsDone-bind P undefined f d h k = absurd d
IsDone-bind P throws f d h k = absurd d
IsDone-bind P out_of_fuel f d h k = absurd d

-- The value that it comes to.
pub IsDone-value {ℓ} : {A : Type ℓ} (m : Outcome A) → IsDone m → (a : A) × (m ≡ done a)
IsDone-value (done a) d = (a, refl)
IsDone-value undefined d = absurd d
IsDone-value throws d = absurd d
IsDone-value out_of_fuel d = absurd d
