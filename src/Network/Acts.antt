-- ===== src/Network/Acts.antt =====
-- The acts of a shutdown: which there are, and in which order.
use mathlib.Core.Path.{subst}
use oxen_libquic.Base.{
  ℕ, ◌≤◌, ◌≡◌, refl, sym, ap, ◌∙◌, Bool, true, false, Option, none, some, List, [], ◌∷◌, ◌++◌, map,
  All, if◌then◌else◌, append-nil, arith,
}
use oxen_libquic.Network.{Act, close_conns, clear_endpoint, loop_exit, join_thread, set_value}

-- The numbers that a test picks out of acts.
abbrev pub pick : (Act → Option ℕ) → List Act → List ℕ
pick f [] = []
pick f (a ∷ acts) = let rest = pick f acts in elim (f a) [ none ↦ rest | some x ↦ x ∷ rest ]

abbrev pub closed : Act → Option ℕ
closed (close_conns e) = some e
closed _ = none

abbrev pub cleared : Act → Option ℕ
cleared (clear_endpoint e) = some e
cleared _ = none

abbrev pub exited : Act → Option ℕ
exited loop_exit = some 0
exited _ = none

abbrev pub kept : Act → Option ℕ
kept (set_value prom) = some prom
kept _ = none

abbrev pub rank : Act → ℕ
rank (close_conns e) = 0
rank (clear_endpoint e) = 1
rank loop_exit = 2
rank (set_value prom) = 3
rank join_thread = 4

-- First the closing of connections, then the end of the endpoints, then of the loop, then the promises.
abbrev pub InOrder : List Act → Type 0
InOrder [] = Unit {0}
InOrder (a ∷ acts) = All (λ b. rank a ≤ rank b) acts × InOrder acts

pick_one :
    (o : Option ℕ) (all some_first more : List ℕ)
    → all ≡ some_first ++ more
    → elim o [ none ↦ all | some x ↦ x ∷ all ]
      ≡ elim o [ none ↦ some_first | some x ↦ x ∷ some_first ] ++ more
pick_one none all some_first more e = e
pick_one (some x) all some_first more e = ap (◌∷◌ x) e

pick-append :
    (f : Act → Option ℕ) (acts more : List Act) → pick f (acts ++ more) ≡ pick f acts ++ pick f more
pick-append f [] more = refl
pick-append f (a ∷ acts) more =
    pick_one (f a) (pick f (acts ++ more)) (pick f acts) (pick f more) (pick-append f acts more)

pick_all :
    (f : Act → Option ℕ) (g : ℕ → Act) (xs : List ℕ)
    → ((x : ℕ) → f (g x) ≡ some x)
    → pick f (map g xs) ≡ xs
pick_all f g [] h = refl
pick_all f g (x ∷ xs) h = rw (h x) (ap (◌∷◌ x) (pick_all f g xs h))

pick_nothing :
    (f : Act → Option ℕ) (g : ℕ → Act) (xs : List ℕ)
    → ((x : ℕ) → f (g x) ≡ none)
    → pick f (map g xs) ≡ []
pick_nothing f g [] h = refl
pick_nothing f g (x ∷ xs) h = rw (h x) (pick_nothing f g xs h)

-- Acts of one rank go before acts of no smaller one.
abbrev OrderedFrom : ℕ → List Act → Type 0
OrderedFrom r acts = All (λ b. r ≤ rank b) acts × InOrder acts

map-OrderedFrom :
    (f : ℕ → Act) (r : ℕ) (xs : List ℕ) (rest : List Act)
    → ((x : ℕ) → rank (f x) ≡ r)
    → OrderedFrom r rest
    → OrderedFrom r (map f xs ++ rest)
map-OrderedFrom f r [] rest h o = o
map-OrderedFrom f r (x ∷ xs) rest h o =
    let (a, i) = map-OrderedFrom f r xs rest h o in
    (
      (omega (arith, h x), a),
      (subst (λ n. All (λ b. n ≤ rank b) (map f xs ++ rest)) (sym (h x)) a, i),
    )

lower : (q r : ℕ) (acts : List Act) → q ≤ r → OrderedFrom r acts → OrderedFrom q acts
lower q r [] h o = o
lower q r (a ∷ acts) h (b, i) = ((omega (arith, b.0), (lower q r acts h (b.1, i.1)).0), i)

-- The acts of all the calls.
abbrev pub all_acts : (graceful own : Bool) (es proms : List ℕ) → List Act
all_acts graceful own es proms =
    (if graceful then map close_conns es else [])
    ++ (map clear_endpoint es ++ ((if own then loop_exit ∷ [] else []) ++ map set_value proms))

pub all_acts-InOrder :
    (graceful own : Bool) (es proms : List ℕ) → InOrder (all_acts graceful own es proms)
all_acts-InOrder graceful own es proms = conns graceful
  where
    promises : OrderedFrom 3 (map set_value proms)
    promises =
        subst (OrderedFrom 3) (append-nil (map set_value proms))
          (map-OrderedFrom set_value 3 proms [] (λ x. refl) (tt, tt))

    exits :
        (own : Bool) → OrderedFrom 1 ((if own then loop_exit ∷ [] else []) ++ map set_value proms)
    exits true =
        let (a, i) = lower 2 3 (map set_value proms) (omega arith) promises in
        let o : OrderedFrom 2 (loop_exit ∷ map set_value proms) = ((omega arith, a), (a, i)) in
        lower 1 2 (loop_exit ∷ map set_value proms) (omega arith) o
    exits false = lower 1 3 _ (omega arith) promises

    ends :
        OrderedFrom 0
          (map clear_endpoint es ++ ((if own then loop_exit ∷ [] else []) ++ map set_value proms))
    ends = lower 0 1 _ (omega arith) (map-OrderedFrom clear_endpoint 1 es _ (λ x. refl) (exits own))

    conns : (graceful : Bool) → InOrder (all_acts graceful own es proms)
    conns true = (map-OrderedFrom close_conns 0 es _ (λ x. refl) ends).1
    conns false = ends.1

-- What one test picks out of all the acts, by the parts.
pick-all_acts :
    (f : Act → Option ℕ) (graceful own : Bool) (es proms : List ℕ)
    → pick f (all_acts graceful own es proms)
      ≡ pick f (if graceful then map close_conns es else [])
        ++ (pick f (map clear_endpoint es)
            ++ (pick f (if own then loop_exit ∷ [] else []) ++ pick f (map set_value proms)))
pick-all_acts f graceful own es proms =
    pick-append f (if graceful then map close_conns es else []) _
    ∙ ap (λ t. pick f (if graceful then map close_conns es else []) ++ t)
        (pick-append f (map clear_endpoint es) _
          ∙ ap (λ t. pick f (map clear_endpoint es) ++ t)
              (pick-append f (if own then loop_exit ∷ [] else []) (map set_value proms)))

pub all_acts-closed :
    (graceful own : Bool) (es proms : List ℕ)
    → pick closed (all_acts graceful own es proms) ≡ (if graceful then es else [])
all_acts-closed graceful own es proms =
    pick-all_acts closed graceful own es proms
    ∙ rw
        (
          pick_nothing closed clear_endpoint es (λ x. refl),
          pick_nothing closed set_value proms (λ x. refl),
        )
        (go graceful own)
  where
    go :
        (graceful own : Bool)
        → pick closed (if graceful then map close_conns es else [])
            ++ (pick closed (if own then loop_exit ∷ [] else []) ++ [])
          ≡ (if graceful then es else [])
    go true true = append-nil _ ∙ pick_all closed close_conns es (λ x. refl)
    go true false = append-nil _ ∙ pick_all closed close_conns es (λ x. refl)
    go false true = refl
    go false false = refl

pub all_acts-cleared :
    (graceful own : Bool) (es proms : List ℕ) → pick cleared (all_acts graceful own es proms) ≡ es
all_acts-cleared graceful own es proms =
    pick-all_acts cleared graceful own es proms
    ∙ rw
        (
          pick_all cleared clear_endpoint es (λ x. refl),
          pick_nothing cleared set_value proms (λ x. refl),
        )
        (go graceful own)
  where
    go :
        (graceful own : Bool)
        → pick cleared (if graceful then map close_conns es else [])
            ++ (es ++ (pick cleared (if own then loop_exit ∷ [] else []) ++ []))
          ≡ es
    go true true = rw (pick_nothing cleared close_conns es (λ x. refl)) (append-nil es)
    go true false = rw (pick_nothing cleared close_conns es (λ x. refl)) (append-nil es)
    go false true = append-nil es
    go false false = append-nil es

pub all_acts-exited :
    (graceful own : Bool) (es proms : List ℕ)
    → pick exited (all_acts graceful own es proms) ≡ (if own then 0 ∷ [] else [])
all_acts-exited graceful own es proms =
    pick-all_acts exited graceful own es proms
    ∙ rw
        (
          pick_nothing exited clear_endpoint es (λ x. refl),
          pick_nothing exited set_value proms (λ x. refl),
        )
        (go graceful own)
  where
    go :
        (graceful own : Bool)
        → pick exited (if graceful then map close_conns es else [])
            ++ (pick exited (if own then loop_exit ∷ [] else []) ++ [])
          ≡ (if own then 0 ∷ [] else [])
    go true true = rw (pick_nothing exited close_conns es (λ x. refl)) refl
    go true false = rw (pick_nothing exited close_conns es (λ x. refl)) refl
    go false true = refl
    go false false = refl

pub all_acts-kept :
    (graceful own : Bool) (es proms : List ℕ) → pick kept (all_acts graceful own es proms) ≡ proms
all_acts-kept graceful own es proms =
    pick-all_acts kept graceful own es proms
    ∙ rw
        (pick_nothing kept clear_endpoint es (λ x. refl), pick_all kept set_value proms (λ x. refl))
        (go graceful own)
  where
    go :
        (graceful own : Bool)
        → pick kept (if graceful then map close_conns es else [])
            ++ (pick kept (if own then loop_exit ∷ [] else []) ++ proms)
          ≡ proms
    go true true = rw (pick_nothing kept close_conns es (λ x. refl)) refl
    go true false = rw (pick_nothing kept close_conns es (λ x. refl)) refl
    go false true = refl
    go false false = refl
