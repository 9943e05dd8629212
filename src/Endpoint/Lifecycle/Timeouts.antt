-- ===== src/Endpoint/Lifecycle/Timeouts.antt =====
-- `check_timeouts` and the map of draining connections.
use oxen_libquic.Base.{
  ℕ, ◌+◌, ◌*◌, ◌<◌, ◌≡◌, ◌⊎◌, inl, inr, none, List, [], ◌∷◌, ◌==◌, ltb, if◌then◌else◌, arith,
}
use oxen_libquic.Base.Outcome.{done, undefined}
use oxen_libquic.Endpoint.{Endpoint, Conn, erase, get_conn, emplace_time, drain_connection}
use oxen_libquic.Endpoint.Lifecycle.{expire, check_timeouts}
use oxen_libquic.Endpoint.Registry.{IsWf, find-erase}

-- In a sound map, when the only draining connection has passed its time, it goes and every other
-- stays; before its time nothing changes.
pub check_timeouts-get_conn :
    (ep : Endpoint) (now t cid : ℕ)
    → IsWf ep
    → ep.draining ≡ (t, cid) ∷ []
    → (ep' : Endpoint) × (check_timeouts ep now ≡ done ep')
      × ((k : ℕ)
          → get_conn ep' k
            ≡ (if ltb t now then (if k == cid then none else get_conn ep k) else get_conn ep k))
      × (ep'.draining ≡ (if ltb t now then [] else ep.draining))
unfolding check_timeouts expire get_conn
check_timeouts-get_conn ep now t cid m h = (
  if ltb t now then record ep { conns = erase cid ep.conns; draining = [] } else ep,
  ground (arith, h),
  λ k. ground (arith, find-erase cid k ep.conns m),
  ground arith,
)

-- With a second draining connection in the map, where the first one has passed its time, the pass
-- that removes it is followed by a test through the iterator to the element just erased.
pub check_timeouts_dangling :
    (ep : Endpoint) (now t cid : ℕ) (d : ℕ × ℕ) (ds : List (ℕ × ℕ))
    → ep.draining ≡ (t, cid) ∷ d ∷ ds
    → t < now
    → check_timeouts ep now ≡ undefined
unfolding check_timeouts expire
check_timeouts_dangling ep now t cid d ds h lt = ground (arith, h)

-- The keys of `std::map`, in order.
abbrev pub IsAscending : List (ℕ × ℕ) → Type 0
IsAscending [] = Unit {0}
IsAscending (d ∷ []) = Unit {0}
IsAscending (d ∷ e ∷ ds) = (d.0 < e.0) × IsAscending (e ∷ ds)

abbrev pub HasTime : ℕ → List (ℕ × ℕ) → Type 0
HasTime t [] = ⊥
HasTime t (d ∷ ds) = (d.0 ≡ t) ⊎ HasTime t ds

time_after : (t : ℕ) (d : ℕ × ℕ) (ds : List (ℕ × ℕ)) → IsAscending (d ∷ ds) → HasTime t ds → d.0 < t
time_after t d [] a h = absurd h
time_after t d (e ∷ ds) a (inl p) = omega arith
time_after t d (e ∷ ds) a (inr h) = omega (arith, time_after t e ds a.1 h)

tail-IsAscending : (d : ℕ × ℕ) (ds : List (ℕ × ℕ)) → IsAscending (d ∷ ds) → IsAscending ds
tail-IsAscending d [] a = tt
tail-IsAscending d (e ∷ ds) a = a.1

emplace_time_taken :
    (t cid : ℕ) (ds : List (ℕ × ℕ)) → IsAscending ds → HasTime t ds → emplace_time t cid ds ≡ ds
unfolding emplace_time
emplace_time_taken t cid [] a h = absurd h
emplace_time_taken t cid (d ∷ ds) a (inl e) = ground (arith, e)
emplace_time_taken t cid (d ∷ ds) a (inr h) =
    ground (arith, time_after t d ds a h, emplace_time_taken t cid ds (tail-IsAscending d ds a) h)

-- Where the draining map is in order and holds an entry for the time at which a connection's
-- draining is to end, `drain_connection` leaves that map as it is, so that no timeout will remove
-- the connection.
pub drain_connection_lost :
    (ep : Endpoint) (c : Conn) (now pto : ℕ)
    → IsAscending ep.draining
    → HasTime (now + pto * 3) ep.draining
    → (drain_connection ep c now pto).draining ≡ ep.draining
unfolding drain_connection
drain_connection_lost ep c now pto a h =
    ground (arith, emplace_time_taken (now + pto * 3) c.scid ep.draining a h)
