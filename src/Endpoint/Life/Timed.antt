-- ===== src/Endpoint/Life/Timed.antt =====
-- The map of draining connections, in the order of time, under all that an endpoint does.
use mathlib.Core.Path.{subst}
use oxen_libquic.Base.{
  ℕ, sym, ◌+◌, ◌*◌, ◌<◌, ◌≡◌, refl, Bool, true, false, not, ◌&&◌, ◌||◌, none, some, List, [], ◌∷◌,
  ◌==◌, ltb, arith, inl, inr, Bool-cases, Option-cases,
}
use oxen_libquic.Base.Int.{ℤ}
use oxen_libquic.Base.Outcome.{Outcome, done, Holds, Holds-if, Holds-bind, Holds-Unit}
use oxen_libquic.Endpoint.{
  Endpoint, Conn, Direction, Code, outbound, inbound, is_idle_close, is_positive, find,
  emplace_time, get_conn, delete_connection, drain_connection, close_connection, read_packet,
  no_error, err_draining, err_drop_conn, err_crypto,
}
use oxen_libquic.Endpoint.Incoming.{
  Replies, Made, made, raised, refused, is_negative, fresh_cid, make_conn,
  accept_initial_connection, handle_conn_packet, with_made, dispatch, handle_packet_connid,
  negotiate, handle_packet, connect,
}
use oxen_libquic.Endpoint.Lifecycle.Timeouts.{IsAscending}

abbrev pub IsTimed : Endpoint → Type 0
IsTimed ep = IsAscending ep.draining

abbrev StartsAfter : ℕ → List (ℕ × ℕ) → Type 0
StartsAfter u [] = Unit {0}
StartsAfter u (d ∷ ds) = u < d.0

cons-IsAscending :
    (d : ℕ × ℕ) (ds : List (ℕ × ℕ)) → StartsAfter d.0 ds → IsAscending ds → IsAscending (d ∷ ds)
cons-IsAscending d [] h a = tt
cons-IsAscending d (e ∷ ds) h a = (h, a)

IsAscending-StartsAfter :
    (d : ℕ × ℕ) (ds : List (ℕ × ℕ)) → IsAscending (d ∷ ds) → StartsAfter d.0 ds × IsAscending ds
IsAscending-StartsAfter d [] a = (tt, tt)
IsAscending-StartsAfter d (e ∷ ds) a = a

emplace_time-StartsAfter :
    (u t cid : ℕ) (ds : List (ℕ × ℕ))
    → u < t
    → StartsAfter u ds
    → StartsAfter u (emplace_time t cid ds)
unfolding emplace_time
emplace_time-StartsAfter u t cid [] h s = h
emplace_time-StartsAfter u t cid (d ∷ ds) h s = elim (Bool-cases (ltb t d.0)) [
  | inl before ↦ rw before h
  | inr after ↦ elim (Bool-cases (d.0 == t)) [
    | inl same ↦ rw (after, same) s
    | inr other ↦ rw (after, other) s
  ]
]

emplace_time-IsAscending :
    (t cid : ℕ) (ds : List (ℕ × ℕ)) → IsAscending ds → IsAscending (emplace_time t cid ds)
unfolding emplace_time
emplace_time-IsAscending t cid [] a = tt
emplace_time-IsAscending t cid (d ∷ ds) a = elim (Bool-cases (ltb t d.0)) [
  | inl before ↦ rw before (ground arith, a)
  | inr after ↦ elim (Bool-cases (d.0 == t)) [
    | inl same ↦ rw (after, same) a
    | inr other ↦
        let (s, b) = IsAscending-StartsAfter d ds a in
        rw (after, other)
          (cons-IsAscending d (emplace_time t cid ds)
            (emplace_time-StartsAfter d.0 t cid ds (ground arith) s)
            (emplace_time-IsAscending t cid ds b))
  ]
]

pub delete_connection-IsTimed :
    (ep : Endpoint) (cid : ℕ) → IsTimed ep → Holds IsTimed (delete_connection ep cid)
unfolding delete_connection
delete_connection-IsTimed ep cid t = elim (Option-cases (find cid ep.conns)) [
  | inl e ↦ rw (e, Holds) t
  | inr (none, e) ↦ rw (e, Holds) tt
  | inr (some c, e) ↦ rw (e, Holds) t
]

pub drain_connection-IsTimed :
    (ep : Endpoint) (c : Conn) (now pto : ℕ) → IsTimed ep → IsTimed (drain_connection ep c now pto)
unfolding drain_connection
drain_connection-IsTimed ep c now pto t = elim (Bool-cases c.draining) [
  | inl e ↦ rw e t
  | inr e ↦ rw e (emplace_time-IsAscending (now + pto * 3) c.scid ep.draining t)
]

pub close_connection-IsTimed :
    (ep : Endpoint) (c : Conn) (code : Code) (written : ℤ)
    → IsTimed ep
    → Holds IsTimed (close_connection ep c code written)
unfolding close_connection
close_connection-IsTimed ep c code written t = Holds-if (c.closing || c.draining) IsTimed _ _ t (
    Holds-if (is_idle_close code) IsTimed _ _ (delete_connection-IsTimed ep c.scid t) (
      Holds-if (not (is_positive written)) IsTimed _ _ (delete_connection-IsTimed ep c.scid t)
        (Holds-if ep.has_socket IsTimed _ _ t (delete_connection-IsTimed ep c.scid t))))

read_packet-IsTimed :
    (ep : Endpoint) (c : Conn) (rv : Code) (now pto : ℕ) (written : ℤ)
    → IsTimed ep
    → Holds IsTimed (read_packet ep c rv now pto written)
unfolding read_packet
read_packet-IsTimed ep c no_error now pto written t = t
read_packet-IsTimed ep c err_draining now pto written t = drain_connection-IsTimed ep c now pto t
read_packet-IsTimed ep c err_drop_conn now pto written t = delete_connection-IsTimed ep c.scid t
read_packet-IsTimed ep c err_crypto now pto written t = delete_connection-IsTimed ep c.scid t
read_packet-IsTimed ep c code now pto written t = close_connection-IsTimed ep c code written t

handle_conn_packet-IsTimed :
    (ep : Endpoint) (c : Conn) (r : Replies)
    → IsTimed ep
    → Holds IsTimed (handle_conn_packet ep c r)
unfolding handle_conn_packet
handle_conn_packet-IsTimed ep c r t =
    Holds-if r.in_closing_period IsTimed _ _ (delete_connection-IsTimed ep c.scid t)
      (read_packet-IsTimed ep c r.read r.now r.pto r.written t)

make_conn-draining :
    (ep : Endpoint) (cid dcid : ℕ) (dir : Direction) (b : Bool)
    → (make_conn ep cid dcid dir b).0.draining ≡ ep.draining
unfolding make_conn
make_conn-draining ep cid dcid dir true = refl
make_conn-draining ep cid dcid dir false = refl

-- What an attempt to make a connection leaves.
abbrev pub IsTimedMade : Endpoint × Made → Type 0
IsTimedMade m = IsTimed m.0

make_conn-IsTimed :
    (ep : Endpoint) (cid dcid : ℕ) (dir : Direction) (b : Bool)
    → IsTimed ep
    → IsTimedMade (make_conn ep cid dcid dir b)
make_conn-IsTimed ep cid dcid dir b t =
    subst IsAscending (sym (make_conn-draining ep cid dcid dir b)) t

accept_initial_connection-IsTimed :
    (ep : Endpoint) (r : Replies) → IsTimed ep → Holds IsTimedMade (accept_initial_connection ep r)
unfolding accept_initial_connection
accept_initial_connection-IsTimed ep r t = Holds-if (is_negative r.accepted) IsTimedMade _ _ t (
    Holds-if r.is_0rtt IsTimedMade _ _ t (
      Holds-if (r.is_initial && not (r.tokenlen == 0)) IsTimedMade _ _ t (
        Holds-bind (λ _. Unit {0}) IsTimedMade (fresh_cid ep r.randoms) _ (Holds-Unit _)
          (λ c _. make_conn-IsTimed ep c.0 r.hdr_scid inbound r.constructed t))))

with_made-IsTimed :
    (m : Endpoint × Made) (r : Replies) → IsTimedMade m → Holds IsTimed (with_made m r)
with_made-IsTimed (ep, refused) r t = t
with_made-IsTimed (ep, raised) r t = tt
with_made-IsTimed (ep, made c) r t = handle_conn_packet-IsTimed ep c r t

dispatch-IsTimed :
    (ep : Endpoint) (r : Replies) (cid : ℕ) → IsTimed ep → Holds IsTimed (dispatch ep r cid)
unfolding dispatch
dispatch-IsTimed ep r cid t = elim (Option-cases (get_conn ep cid)) [
  | inl e ↦
      rw (e, Holds)
        (Holds-if ep.accepting_inbound IsTimed _ _
          (Holds-bind IsTimedMade IsTimed (accept_initial_connection ep r) _
            (accept_initial_connection-IsTimed ep r t) (λ a h. with_made-IsTimed a r h))
          t)
  | inr (c, e) ↦ rw (e, Holds) (handle_conn_packet-IsTimed ep c r t)
]

handle_packet_connid-draining :
    (ep : Endpoint) (r : Replies) → (handle_packet_connid ep r).0.draining ≡ ep.draining
unfolding handle_packet_connid negotiate
handle_packet_connid-draining ep r = ground arith

pub handle_packet-IsTimed :
    (ep : Endpoint) (r : Replies) → IsTimed ep → Holds IsTimed (handle_packet ep r)
unfolding handle_packet
handle_packet-IsTimed ep r t =
    let kept : IsTimed (handle_packet_connid ep r).0 =
      subst IsAscending (sym (handle_packet_connid-draining ep r)) t in
    elim (Option-cases (handle_packet_connid ep r).1) [
      | inl e ↦ rw (e, Holds) kept
      | inr (cid, e) ↦ rw (e, Holds) (dispatch-IsTimed (handle_packet_connid ep r).0 r cid kept)
    ]

pub connect-IsTimed :
    (ep : Endpoint) (randoms : List ℕ) (b : Bool)
    → IsTimed ep
    → Holds IsTimedMade (connect ep randoms b)
unfolding connect
connect-IsTimed ep randoms b t =
    Holds-bind (λ _. Unit {0}) IsTimedMade (fresh_cid ep randoms) _ (Holds-Unit _)
      (λ c _. drawn c.0 c.1)
  where
    drawn :
        (cid : ℕ) (rest : List ℕ)
        → Holds IsTimedMade (elim rest [
          | [] ↦ Outcome.out_of_fuel
          | dcid ∷ more ↦ done (make_conn ep cid dcid outbound b)
        ])
    drawn cid [] = tt
    drawn cid (dcid ∷ more) = make_conn-IsTimed ep cid dcid outbound b t
