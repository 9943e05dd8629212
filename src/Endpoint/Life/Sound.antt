-- ===== src/Endpoint/Life/Sound.antt =====
-- What an endpoint keeps through its life: a sound map of connections, and a map of draining
-- connections in the order of time.
use oxen_libquic.Base.{ℕ, ◌≡◌, Option, none, some, is_some, List, [], ◌∷◌, ltb, if◌then◌else◌}
use oxen_libquic.Base.Int.{ℤ}
use oxen_libquic.Base.Outcome.{Outcome, done, Holds, Holds-if, Holds-bind, Holds-done}
use oxen_libquic.Endpoint.{Endpoint, Conn, Direction, Code, find, close_connection, no_error}
use oxen_libquic.Endpoint.Incoming.{Made, made, raised, refused, listen}
use oxen_libquic.Endpoint.Lifecycle.{expire, check_timeouts, selects, close_from, close_conns}
use oxen_libquic.Endpoint.Registry.{
  IsWf, erase-IsMap, delete_connection-IsWf, drain_connection-IsWf, close_connection-IsWf,
}
use oxen_libquic.Endpoint.Accepting.{handle_packet-IsWf, connect-IsWf, get_conn-closing, WellMade}
use oxen_libquic.Endpoint.Life.{
  Life, gets_packet, connects, listens, drains, deletes, closes, closes_all, passes_time, Lives,
  born, then_lives,
}
use oxen_libquic.Endpoint.Life.Timed.{
  IsTimed, IsTimedMade, delete_connection-IsTimed, drain_connection-IsTimed,
  close_connection-IsTimed, handle_packet-IsTimed, connect-IsTimed,
}

-- What an endpoint keeps.
pub record IsSound (ep : Endpoint) : Type 0 where
  pub conns_map : IsWf ep
  pub in_time : IsTimed ep

Holds-both : (m : Outcome Endpoint) → Holds IsWf m → Holds IsTimed m → Holds IsSound m
Holds-both (done ep) w t = record { conns_map = w; in_time = t }
Holds-both Outcome.undefined w t = tt
Holds-both Outcome.throws w t = tt
Holds-both Outcome.out_of_fuel w t = tt

close_connection-IsSound :
    (ep : Endpoint) (c : Conn) (code : Code) (written : ℤ)
    → IsSound ep
    → Holds IsSound (close_connection ep c code written)
close_connection-IsSound ep c code written s =
    Holds-both _ (close_connection-IsWf ep c code written s.conns_map)
      (close_connection-IsTimed ep c code written s.in_time)

close_from-IsSound :
    (cs : List (ℕ × Option Conn)) (d : Option Direction) (written : ℕ → ℤ) (ep : Endpoint)
    → IsSound ep
    → Holds IsSound (close_from cs d written ep)
unfolding close_from
close_from-IsSound [] d written ep s = s
close_from-IsSound ((k, none) ∷ cs) d written ep s = tt
close_from-IsSound ((k, some c) ∷ cs) d written ep s =
    Holds-if (selects d c) IsSound _ _
      (Holds-bind IsSound IsSound (close_connection ep c no_error (written k)) _
        (close_connection-IsSound ep c no_error (written k) s)
        (λ ep' s'.
          Holds-if (is_some (find k ep'.conns)) IsSound _ _ (close_from-IsSound cs d written ep' s')
            tt))
      (close_from-IsSound cs d written ep s)

close_conns-IsSound :
    (ep : Endpoint) (d : Option Direction) (written : ℕ → ℤ)
    → IsSound ep
    → Holds IsSound (close_conns ep d written)
unfolding close_conns
close_conns-IsSound ep d written s = close_from-IsSound ep.conns d written ep s

check_timeouts-IsSound :
    (ep : Endpoint) (now : ℕ) → IsSound ep → Holds IsSound (check_timeouts ep now)
unfolding check_timeouts
check_timeouts-IsSound ep now s = passed ep.draining
  where
    expired : (d : ℕ × ℕ) (ds : List (ℕ × ℕ)) → Holds IsSound (expire ep d ds)
    expired (t, cid) [] =
        unfold expire in record { conns_map = erase-IsMap cid ep.conns s.conns_map; in_time = tt }
    expired (t, cid) (d ∷ ds) = unfold expire in tt

    passed :
        (ds : List (ℕ × ℕ))
        → Holds IsSound
            (elim ds [ [] ↦ done ep | d ∷ es ↦ if ltb d.0 now then expire ep d es else done ep ])
    passed [] = s
    passed (d ∷ es) = Holds-if (ltb d.0 now) IsSound _ _ (expired d es) s

WellMade-IsWf : (m : Endpoint × Made) → WellMade m → IsWf m.0
WellMade-IsWf (ep, made c) w = w.0
WellMade-IsWf (ep, raised) w = w
WellMade-IsWf (ep, refused) w = w

pub Life-IsSound : (ep ep' : Endpoint) → Life ep ep' → IsSound ep → IsSound ep'
unfolding listen
Life-IsSound ep _ (gets_packet _ ep' r h) s =
    Holds-done IsSound _ ep'
      (Holds-both _ (handle_packet-IsWf ep r s.conns_map) (handle_packet-IsTimed ep r s.in_time)) h
Life-IsSound ep _ (connects _ randoms constructed m h) s = record {
  conns_map =
      WellMade-IsWf m (Holds-done WellMade _ m (connect-IsWf ep randoms constructed s.conns_map) h);
  in_time = Holds-done IsTimedMade _ m (connect-IsTimed ep randoms constructed s.in_time) h;
}
Life-IsSound ep _ (listens _) s = record { conns_map = s.conns_map; in_time = s.in_time }
Life-IsSound ep _ (drains _ cid c now pto e) s = record {
  conns_map =
      drain_connection-IsWf ep c now pto (get_conn-closing ep cid c s.conns_map e) s.conns_map;
  in_time = drain_connection-IsTimed ep c now pto s.in_time;
}
Life-IsSound ep _ (deletes _ ep' cid h) s =
    Holds-done IsSound _ ep'
      (Holds-both _ (delete_connection-IsWf ep cid s.conns_map)
        (delete_connection-IsTimed ep cid s.in_time))
      h
Life-IsSound ep _ (closes _ ep' cid c code written e h) s =
    Holds-done IsSound _ ep' (close_connection-IsSound ep c code written s) h
Life-IsSound ep _ (closes_all _ ep' d written h) s =
    Holds-done IsSound _ ep' (close_conns-IsSound ep d written s) h
Life-IsSound ep _ (passes_time _ ep' now h) s =
    Holds-done IsSound _ ep' (check_timeouts-IsSound ep now s) h

-- Through every history of packets, of connections made, closed, drained and deleted, and of timeouts,
-- from an endpoint with no connection, as long as each comes to an end without exception or fault: no id
-- stands twice in the map of connections, each connection is under its own source id and none marked
-- closing, and the draining connections are in the order of their times.
pub Lives-IsSound :
    (first ep : Endpoint) → first.conns ≡ [] → first.draining ≡ [] → Lives first ep → IsSound ep
Lives-IsSound first _ c d born = record { conns_map = rw c tt; in_time = rw d tt }
Lives-IsSound first _ c d (then_lives ep ep' r l) =
    Life-IsSound ep ep' l (Lives-IsSound first ep c d r)
