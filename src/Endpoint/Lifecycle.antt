-- ===== src/Endpoint/Lifecycle.antt =====
-- src/endpoint.cpp: `check_timeouts`, `get_all_conns` and `close_conns`.
pub mod Timeouts
pub mod Closing
use oxen_libquic.Base.{
  ℕ, zero, suc, Bool, true, false, Option, none, some, is_some, List, [], ◌∷◌, ◌++◌, ltb,
  if◌then◌else◌,
}
use oxen_libquic.Base.Int.{ℤ}
use oxen_libquic.Base.Outcome.{Outcome, done, undefined, ◌>>=◌}
use oxen_libquic.Endpoint.{
  Endpoint, Conn, Direction, same_direction, Code, no_error, find, erase, close_connection,
}

-- One pass of the loop of `check_timeouts`, and the test that follows it. `f` is the iterator to the
-- first element, taken once: after the first pass it is that of the erased element.
unfoldable pub expire : Endpoint → ℕ × ℕ → List (ℕ × ℕ) → Outcome Endpoint
expire ep (t, cid) [] = done (record ep { conns = erase cid ep.conns; draining = [] })
expire ep (t, cid) (d ∷ ds) = undefined

unfoldable pub check_timeouts : Endpoint → ℕ → Outcome Endpoint
check_timeouts ep now = elim ep.draining [
  | [] ↦ done ep
  | d ∷ ds ↦ if ltb d.0 now then expire ep d ds else done ep
]

-- `std::optional<Direction>` against a connection's.
abbrev pub selects : Option Direction → Conn → Bool
selects none c = true
selects (some d) c = same_direction c.dir d

abbrev pub cons_to {ℓ} : {A : Type ℓ} → A → Outcome (List A) → Outcome (List A)
cons_to c m = m >>= λ cs. done (c ∷ cs)

-- `get_all_conns`: with a direction it dereferences a null entry.
unfoldable pub get_all_conns :
    List (ℕ × Option Conn) → Option Direction → Outcome (List (Option Conn))
get_all_conns [] d = done []
get_all_conns ((k, none) ∷ cs) none = cons_to none (get_all_conns cs none)
get_all_conns ((k, none) ∷ cs) (some d) = undefined
get_all_conns ((k, some c) ∷ cs) d =
    let rest = get_all_conns cs d in if selects d c then cons_to (some c) rest else rest

-- The loop of `close_conns` over the entries that are left. Where the body has erased the entry of
-- the iterator, the step to the next one is undefined. `written` gives what
-- ngtcp2_conn_write_connection_close returns for each connection.
unfoldable pub close_from :
    List (ℕ × Option Conn) → Option Direction → (ℕ → ℤ) → Endpoint → Outcome Endpoint
close_from [] d written ep = done ep
close_from ((k, none) ∷ cs) d written ep = undefined
close_from ((k, some c) ∷ cs) d written ep =
    let closed = close_connection ep c no_error (written k) >>= λ ep'.
    if is_some (find k ep'.conns) then close_from cs d written ep' else undefined in
    let rest = close_from cs d written ep in if selects d c then closed else rest

unfoldable pub close_conns : Endpoint → Option Direction → (ℕ → ℤ) → Outcome Endpoint
close_conns ep d written = close_from ep.conns d written ep
