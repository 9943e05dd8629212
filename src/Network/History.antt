-- ===== src/Network/History.antt =====
-- All the calls of `close` in the event loop, one after another.
use mathlib.Core.Path.{subst}
use oxen_libquic.Base.{
  ℕ, ◌≡◌, refl, sym, ap, ◌∙◌, Bool, true, false, Option, List, [], ◌∷◌, ◌++◌, map, All,
  if◌then◌else◌, append_assoc, append-nil,
}
use oxen_libquic.Base.Outcome.{Outcome, done, ◌>>=◌}
use oxen_libquic.Network.{
  Network, close_conns, clear_endpoint, loop_exit, set_value, endpoints, close_in_loop,
}
use oxen_libquic.Network.Shutdown.{shutdown_acts, IsMade, close_in_loop_lem}
use oxen_libquic.Network.Acts.{
  pick, closed, cleared, exited, kept, InOrder, all_acts, all_acts-InOrder, all_acts-closed,
  all_acts-cleared, all_acts-exited, all_acts-kept,
}

-- Calls of `close`, each with its promise and whether it is graceful.
abbrev pub close_calls : List (ℕ × Bool) → Network → Outcome Network
close_calls [] n = done n
close_calls ((prom, graceful) ∷ calls) n = close_in_loop n prom graceful >>= close_calls calls

-- Calls on a network that does not run.
stopped :
    (calls : List (ℕ × Bool)) (n : Network)
    → n.running ≡ false
    → All IsMade n.endpoint_map
    → (n' : Network) × (close_calls calls n ≡ done n')
      × (n'.running ≡ false)
      × (n'.endpoint_map ≡ n.endpoint_map)
      × (n'.acts ≡ n.acts ++ map set_value (map (λ c. c.0) calls))
stopped [] n h a = (n, refl, h, refl, sym (append-nil n.acts))
stopped ((prom, graceful) ∷ calls) n h a =
    let (n1, run, off, left, acts) = close_in_loop_lem n prom graceful a in
    let left' : n1.endpoint_map ≡ n.endpoint_map =
      left ∙ ap (λ b. if b then [] else n.endpoint_map) h in
    let acts' : n1.acts ≡ n.acts ++ (set_value prom ∷ []) =
      acts
      ∙ ap
          (λ b.
            n.acts
            ++ (if b
                then shutdown_acts graceful n.own_thread n.endpoint_map prom
                else set_value prom ∷ []))
          h in
    let (n', rest, off', same, more) = stopped calls n1 off (subst (All IsMade) (sym left') a) in
    (
      n',
      rw run rest,
      off',
      same ∙ left',
      more
          ∙ ap (λ t. t ++ map set_value (map (λ c. c.0) calls)) acts'
          ∙ append_assoc n.acts (set_value prom ∷ []) (map set_value (map (λ c. c.0) calls)),
    )

shutdown_acts-all_acts :
    (graceful own : Bool) (m : List (ℕ × Option ℕ)) (prom : ℕ) (proms : List ℕ)
    → shutdown_acts graceful own m prom ++ map set_value proms
      ≡ all_acts graceful own (endpoints m) (prom ∷ proms)
shutdown_acts-all_acts graceful own m prom proms =
    append_assoc (if graceful then map close_conns (endpoints m) else []) _ (map set_value proms)
    ∙ ap (λ t. (if graceful then map close_conns (endpoints m) else []) ++ t)
        (append_assoc (map clear_endpoint (endpoints m) ++ (if own then loop_exit ∷ [] else []))
            (set_value prom ∷ []) (map set_value proms)
          ∙ append_assoc (map clear_endpoint (endpoints m)) (if own then loop_exit ∷ [] else [])
              (map set_value (prom ∷ proms)))

-- Any number of calls of `close` in the event loop, one after another, on a network that runs and has no
-- null endpoint: they come to an end, and the network does not run and has no endpoints. Each call's
-- promise is kept once, in the order of the calls; each endpoint goes once; each has been told once to
-- close its connections where the first call was graceful, and never where it was not, whatever the
-- later calls were; and the loop of an own thread is left once. All endpoints are told before the first
-- goes, all have gone before the loop is left, and that before the first promise is kept.
pub close_calls_lem :
    (n : Network) (prom : ℕ) (graceful : Bool) (calls : List (ℕ × Bool))
    → n.running ≡ true
    → n.acts ≡ []
    → All IsMade n.endpoint_map
    → (n' : Network) × (close_calls ((prom, graceful) ∷ calls) n ≡ done n')
      × (n'.running ≡ false)
      × (n'.endpoint_map ≡ [])
      × (pick kept n'.acts ≡ prom ∷ map (λ c. c.0) calls)
      × (pick cleared n'.acts ≡ endpoints n.endpoint_map)
      × (pick closed n'.acts ≡ (if graceful then endpoints n.endpoint_map else []))
      × (pick exited n'.acts ≡ (if n.own_thread then 0 ∷ [] else []))
      × InOrder n'.acts
close_calls_lem n prom graceful calls on new a =
    let (n1, run, off, left, acts) = close_in_loop_lem n prom graceful a in
    let left' : n1.endpoint_map ≡ [] = left ∙ ap (λ b. if b then [] else n.endpoint_map) on in
    let acts' : n1.acts ≡ shutdown_acts graceful n.own_thread n.endpoint_map prom =
      acts
      ∙ ap
          (λ b.
            n.acts
            ++ (if b
                then shutdown_acts graceful n.own_thread n.endpoint_map prom
                else set_value prom ∷ []))
          on
      ∙ ap (λ t. t ++ shutdown_acts graceful n.own_thread n.endpoint_map prom) new in
    let (n', rest, off', same, more) = stopped calls n1 off (subst (All IsMade) (sym left') tt) in
    let es : List ℕ = endpoints n.endpoint_map in
    let proms : List ℕ = prom ∷ map (λ c. c.0) calls in
    let all : n'.acts ≡ all_acts graceful n.own_thread es proms =
      more
      ∙ ap (λ t. t ++ map set_value (map (λ c. c.0) calls)) acts'
      ∙ shutdown_acts-all_acts graceful n.own_thread n.endpoint_map prom (map (λ c. c.0) calls) in
    (
      n',
      rw run rest,
      off',
      same ∙ left',
      ap (pick kept) all ∙ all_acts-kept graceful n.own_thread es proms,
      ap (pick cleared) all ∙ all_acts-cleared graceful n.own_thread es proms,
      ap (pick closed) all ∙ all_acts-closed graceful n.own_thread es proms,
      ap (pick exited) all ∙ all_acts-exited graceful n.own_thread es proms,
      subst InOrder (sym all) (all_acts-InOrder graceful n.own_thread es proms),
    )
