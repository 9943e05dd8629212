-- ===== src/Network.antt =====
-- src/network.cpp and include/quic/network.hpp: the class Network.
-- The queue of jobs, which several threads use, is in `Jobs`; the map of endpoints and the shutdown are
-- here; its making is in `Lifetime`.
pub mod Jobs
pub mod Shutdown
pub mod Acts
pub mod History
pub mod Lifetime
mod Tests
use oxen_libquic.Base.{
  ℕ, zero, suc, Bool, true, false, not, ◌||◌, Option, none, some, List, [], ◌∷◌, ◌++◌, ◌==◌,
  if◌then◌else◌, map,
}
use oxen_libquic.Base.Outcome.{Outcome, done, undefined, ◌>>=◌}

-- What a shutdown does, in order: `Endpoint::close_conns` of an endpoint, the end of the endpoint,
-- event_base_loopexit, the keeping of a promise, and the wait for the end of the loop's thread.
pub data Act : Type 0 where
  close_conns clear_endpoint : ℕ → Act
  loop_exit join_thread : Act
  set_value : ℕ → Act

-- `endpoint_map` maps addresses, by number, to endpoints, by number, or to null. A promise is a number.
pub record Network : Type 0 where
  pub running : Bool
  pub own_thread : Bool
  pub endpoint_map : List (ℕ × Option ℕ)
  pub acts : List Act

unfoldable pub find : ℕ → List (ℕ × Option ℕ) → Option (Option ℕ)
find addr [] = none
find addr ((a, e) ∷ m) = if a == addr then some e else find addr m

-- How `endpoint` ends: with a pointer, perhaps null, or with the exception of the constructor.
pub data Given : Type 0 where
  gave : Option ℕ → Given
  raised : Given

-- The entry and the result of a constructor that makes an endpoint, or throws (`none`).
abbrev pub given : Option ℕ → Given
given none = raised
given (some e) = gave (some e)

-- `Network::endpoint`; `made` is what the constructor gives, which is not called for an address that is
-- there. Where it throws, the null entry stays.
unfoldable pub endpoint : Network → ℕ → Option ℕ → Network × Given
unfolding find
endpoint n addr made = elim (find addr n.endpoint_map) [
  | some e ↦ (n, gave e)
  | none ↦ (record n { endpoint_map = n.endpoint_map ++ ((addr, made) ∷ []) }, given made)
]

abbrev pub act : List Act → Network → Network
act more n = record n { acts = n.acts ++ more }

-- The endpoints of a map.
abbrev pub endpoints : List (ℕ × Option ℕ) → List ℕ
endpoints [] = []
endpoints ((a, none) ∷ m) = endpoints m
endpoints ((a, some e) ∷ m) = e ∷ endpoints m

-- `close_final`.
unfoldable pub close_final : Network → ℕ → Network
close_final n prom =
    record (act
      (map clear_endpoint (endpoints n.endpoint_map)
        ++ (if n.own_thread then loop_exit ∷ [] else [])
        ++ (set_value prom ∷ []))
      n) { endpoint_map = [] }

-- The loop of `close_all`, which reads through each pointer.
unfoldable pub close_each : List (ℕ × Option ℕ) → Outcome (List Act)
close_each [] = done []
close_each ((a, none) ∷ m) = undefined
close_each ((a, some e) ∷ m) = close_each m >>= λ more. done (close_conns e ∷ more)

-- `close_all`, in the event loop, where its own call runs at once.
unfoldable pub close_all : Network → ℕ → Outcome Network
unfolding close_final close_each
close_all n prom = close_each n.endpoint_map >>= λ more. done (close_final (act more n) prom)

abbrev pub is_empty : List (ℕ × Option ℕ) → Bool
is_empty [] = true
is_empty (e ∷ es) = false

-- The job of `close`. It captured `graceful` by reference: it reads the parameter, where that is still
-- there. In the event loop it is, since the job runs at once. From another thread the event loop may run
-- the job before the parameter's lifetime has ended, or after it (`none`).
unfoldable pub close_job : Network → ℕ → Option Bool → Outcome Network
unfolding close_final close_all
close_job n prom none = if is_empty n.endpoint_map then done (close_final n prom) else undefined
close_job n prom (some graceful) =
    if is_empty n.endpoint_map || not graceful then done (close_final n prom) else close_all n prom

-- `close` up to its call: the network afterwards, and whether the job is to run. `exchange` lets one
-- caller through.
unfoldable pub close : Network → ℕ → Network × Bool
close n prom =
    if n.running then (record n { running = false }, true) else (act (set_value prom ∷ []) n, false)

-- `close` in the event loop, with its job.
unfoldable pub close_in_loop : Network → ℕ → Bool → Outcome Network
unfolding close close_job
close_in_loop n prom graceful =
    let (n', runs) = close n prom in if runs then close_job n' prom (some graceful) else done n'

-- The destructor, not called in the event loop: it waits for the promise of `close`, whose job has run by
-- then, and for the end of an own thread. `alive` is whether the event loop has run the job in the
-- lifetime of the parameter of `close`, which is true by default.
unfoldable pub destroy : Network → ℕ → Bool → Outcome Network
unfolding close close_job
destroy n prom alive =
    let (n', runs) = close n prom in
    (if runs then close_job n' prom (if alive then some true else none) else done n') >>= λ d.
    done (if d.own_thread then act (join_thread ∷ []) d else d)
