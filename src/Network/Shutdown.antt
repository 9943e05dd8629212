-- ===== src/Network/Shutdown.antt =====
-- One call of `close`, and the map of endpoints.
use oxen_libquic.Base.{
  ap, sym, ◌∙◌, Bool-cases, ==_iff, inl, inr, ℕ, ◌≡◌, refl, Bool, true, false, Option, none, some,
  List, map, All, is_some, ◌⊎◌, [], ◌∷◌, ◌++◌, ◌==◌, if◌then◌else◌, append_assoc, arith,
  Option-cases,
}
use oxen_libquic.Base.Outcome.{done, undefined}
use oxen_libquic.Network.{
  Network, Act, close_conns, clear_endpoint, loop_exit, set_value, act, endpoints, is_empty, find,
  gave, raised, given, endpoint, close_each, close_final, close_all, close_job, close,
  close_in_loop,
}

-- The acts of a shutdown of the endpoints in a map.
abbrev pub shutdown_acts : Bool → Bool → List (ℕ × Option ℕ) → ℕ → List Act
shutdown_acts graceful own m prom =
    (if graceful then map close_conns (endpoints m) else [])
    ++ (map clear_endpoint (endpoints m)
        ++ (if own then loop_exit ∷ [] else [])
        ++ (set_value prom ∷ []))

abbrev pub IsMade : ℕ × Option ℕ → Type 0
IsMade (a, e) = is_some e ≡ true

close_each-endpoints :
    (m : List (ℕ × Option ℕ)) → All IsMade m → close_each m ≡ done (map close_conns (endpoints m))
unfolding close_each
close_each-endpoints [] a = refl
close_each-endpoints ((k, none) ∷ m) a = absurd cc
close_each-endpoints ((k, some e) ∷ m) a = rw (close_each-endpoints m a.1) refl

-- `close` in the event loop comes to an end where no endpoint is null. On a network that runs, a
-- graceful one first has every endpoint close its connections; then, gracefully or not, every endpoint
-- goes, the loop of an own thread is left, and the promise is kept, as the last of it. On a network that
-- does not run, only the promise is kept. After it the network does not run.
pub close_in_loop_lem :
    (n : Network) (prom : ℕ) (graceful : Bool)
    → All IsMade n.endpoint_map
    → (n' : Network) × (close_in_loop n prom graceful ≡ done n')
      × (n'.running ≡ false)
      × (n'.endpoint_map ≡ (if n.running then [] else n.endpoint_map))
      × (n'.acts
          ≡ n.acts
            ++ (if n.running
                then shutdown_acts graceful n.own_thread n.endpoint_map prom
                else set_value prom ∷ []))
unfolding close_in_loop close close_job close_final close_all
close_in_loop_lem n prom graceful = go n.running n.endpoint_map graceful
  where
    at : Bool → List (ℕ × Option ℕ) → Network
    at running m = record n { running = running; endpoint_map = m }

    go :
        (running : Bool) (m : List (ℕ × Option ℕ)) (graceful : Bool)
        → All IsMade m
        → (n' : Network) × (close_in_loop (at running m) prom graceful ≡ done n')
          × (n'.running ≡ false)
          × (n'.endpoint_map ≡ (if running then [] else m))
          × (n'.acts
              ≡ n.acts
                ++ (if running
                    then shutdown_acts graceful n.own_thread m prom
                    else set_value prom ∷ []))
    go false m graceful a = (act (set_value prom ∷ []) (at false m), refl, refl, refl, refl)
    go true [] true a = (close_final (at false []) prom, refl, refl, refl, refl)
    go true [] false a = (close_final (at false []) prom, refl, refl, refl, refl)
    go true (e ∷ m) false a = (close_final (at false (e ∷ m)) prom, refl, refl, refl, refl)
    go true (e ∷ m) true a = (
      close_final (act (map close_conns (endpoints (e ∷ m))) (at false (e ∷ m))) prom,
      rw (close_each-endpoints (e ∷ m) a) refl,
      refl,
      refl,
      append_assoc n.acts (map close_conns (endpoints (e ∷ m))) _,
    )

-- Called from another thread on a network that runs and has an endpoint, `close` leaves a job that is
-- undefined where it runs after the parameter of `close` is gone.
pub close_dangling :
    (n : Network) (prom : ℕ) (e : ℕ × Option ℕ) (m : List (ℕ × Option ℕ))
    → n.running ≡ true
    → n.endpoint_map ≡ e ∷ m
    → let (n', runs) = close n prom in (runs ≡ true) × (close_job n' prom none ≡ undefined)
unfolding close close_job
close_dangling n prom e m r h = rw r (refl, rw h refl)

find-snoc :
    (addr k : ℕ) (made : Option ℕ) (m : List (ℕ × Option ℕ))
    → find addr m ≡ none
    → find k (m ++ ((addr, made) ∷ [])) ≡ (if addr == k then some made else find k m)
unfolding find
find-snoc addr k made [] h = refl
find-snoc addr k made ((a, e) ∷ m) h = ground (arith, find-snoc addr k made m)

pub endpoint-some :
    (n : Network) (addr : ℕ) (made e : Option ℕ)
    → find addr n.endpoint_map ≡ some e
    → endpoint n addr made ≡ (n, gave e)
unfolding endpoint
endpoint-some n addr made e h = rw (h, endpoint) refl

pub endpoint-none :
    (n : Network) (addr : ℕ) (made : Option ℕ)
    → find addr n.endpoint_map ≡ none
    → endpoint n addr made
      ≡ (record n { endpoint_map = n.endpoint_map ++ ((addr, made) ∷ []) }, given made)
unfolding endpoint
endpoint-none n addr made h = rw (h, endpoint) refl

find_same :
    (addr k : ℕ) (e : Option ℕ) (m : List (ℕ × Option ℕ))
    → find addr m ≡ some e
    → find k m ≡ (if addr == k then some e else find k m)
find_same addr k e m h = elim (Bool-cases (addr == k)) [
  | inl same ↦ rw same (ap (λ t. find t m) (sym ((==_iff addr k).0 same)) ∙ h)
  | inr other ↦ rw other refl
]

-- Asked again for an address, `endpoint` gives what the first call left for it, whatever a constructor
-- would make: the endpoint that the first call gave, or null, where the constructor threw then. The
-- entries of other addresses stay.
pub endpoint_again :
    (n : Network) (addr : ℕ) (made later : Option ℕ)
    → let (n1, g) = endpoint n addr made in
      (e : Option ℕ) × (endpoint n1 addr later ≡ (n1, gave e))
      × ((g ≡ gave e) ⊎ ((g ≡ raised) × (e ≡ none)))
      × ((k : ℕ) → find k n1.endpoint_map ≡ (if addr == k then some e else find k n.endpoint_map))
endpoint_again n addr made later = elim (Option-cases (find addr n.endpoint_map)) [
  | inl new ↦
      let n1 : Network = record n { endpoint_map = n.endpoint_map ++ ((addr, made) ∷ []) } in
      let here : (addr == addr) ≡ true = ground arith in
      let found : find addr n1.endpoint_map ≡ some made =
        rw here at (find-snoc addr addr made n.endpoint_map new) in
      rw (endpoint-none n addr made new) (
        made,
        endpoint-some n1 addr later made found,
        how made,
        λ k. find-snoc addr k made n.endpoint_map new,
      )
  | inr (e, old) ↦
      rw (endpoint-some n addr made e old)
        (e, endpoint-some n addr later e old, inl refl, λ k. find_same addr k e n.endpoint_map old)
]
  where
    how : (m : Option ℕ) → (given m ≡ gave m) ⊎ ((given m ≡ raised) × (m ≡ none))
    how none = inr (refl, refl)
    how (some e) = inl refl

close_each-null : (m : List (ℕ × Option ℕ)) (a : ℕ) → close_each (m ++ ((a, none) ∷ [])) ≡ undefined
unfolding close_each
close_each-null [] a = refl
close_each-null ((k, none) ∷ m) a = refl
close_each-null ((k, some e) ∷ m) a = rw (close_each-null m a) refl

pub not_empty : (m : List (ℕ × Option ℕ)) (e : ℕ × Option ℕ) → is_empty (m ++ (e ∷ [])) ≡ false
not_empty [] e = refl
not_empty (d ∷ m) e = refl

-- After an endpoint's constructor has thrown for an address that was not there, a graceful `close`
-- of a network that runs reads through the null pointer that it left.
pub close_in_loop_null :
    (n : Network) (addr prom : ℕ)
    → n.running ≡ true
    → find addr n.endpoint_map ≡ none
    → close_in_loop (endpoint n addr none).0 prom true ≡ undefined
unfolding close_in_loop close close_job close_all
close_in_loop_null n addr prom r new = rw (endpoint-none n addr none new) (
    rw r
      (rw (not_empty n.endpoint_map (addr, none)) (rw (close_each-null n.endpoint_map addr) refl)))
