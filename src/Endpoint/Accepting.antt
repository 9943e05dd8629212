-- ===== src/Endpoint/Accepting.antt =====
-- Packets and new connections against the map of connections.
use mathlib.Core.Path.{subst}
use oxen_libquic.Base.{
  ℕ, ◌≡◌, inl, inr, refl, sym, Bool, true, false, not, ◌&&◌, Option, none, some, List, [], ◌∷◌,
  ◌++◌, ◌==◌, if◌then◌else◌, arith, Option-cases,
}
use oxen_libquic.Base.Outcome.{Holds, Holds-if, Holds-bind, Outcome, done}
use oxen_libquic.Endpoint.{Endpoint, Conn, Direction, inbound, outbound, find, update, get_conn}
use oxen_libquic.Endpoint.Incoming.{
  Replies, Made, made, raised, refused, new_conn, make_conn, fresh_cid, is_negative,
  accept_initial_connection, handle_conn_packet, with_made, dispatch, handle_packet_connid,
  handle_packet, connect, negotiate,
}
use oxen_libquic.Endpoint.Registry.{
  IsMap, IsWf, snoc-IsMap, update-IsMap, find-IsEntry, delete_connection-IsWf, read_packet-IsWf,
}

-- The id that the loop settles on is new.
pub fresh_cid-find :
    (ep : Endpoint) (randoms : List ℕ)
    → Holds (λ c. find c.0 ep.conns ≡ none) (fresh_cid ep randoms)
unfolding fresh_cid
fresh_cid-find ep [] = tt
fresh_cid-find ep (cid ∷ rest) = elim (Option-cases (find cid ep.conns)) [
  | inl e ↦ rw (e, Holds) e
  | inr (v, e) ↦ rw (e, Holds) (fresh_cid-find ep rest)
]

find-snoc :
    (cid k : ℕ) (v : Option Conn) (cs : List (ℕ × Option Conn))
    → find cid cs ≡ none
    → find k (update cid v (cs ++ ((cid, none) ∷ []))) ≡ (if k == cid then some v else find k cs)
unfolding find update
find-snoc cid k v [] n = ground arith
find-snoc cid k v ((j, c) ∷ cs) n = ground (arith, find-snoc cid k v cs)

handle_conn_packet-IsWf :
    (ep : Endpoint) (c : Conn) (r : Replies)
    → c.closing ≡ false
    → IsWf ep
    → Holds IsWf (handle_conn_packet ep c r)
unfolding handle_conn_packet
handle_conn_packet-IsWf ep c r h m =
    Holds-if r.in_closing_period IsWf _ _ (delete_connection-IsWf ep c.scid m)
      (read_packet-IsWf ep c r.read r.now r.pto r.written h m)

-- What an attempt leaves: a sound map, and a connection that is not closing.
abbrev pub WellMade : Endpoint × Made → Type 0
WellMade (ep, made c) = IsWf ep × (c.closing ≡ false)
WellMade (ep, raised) = IsWf ep
WellMade (ep, refused) = IsWf ep

make_conn-WellMade :
    (ep : Endpoint) (cid dcid : ℕ) (dir : Direction) (b : Bool)
    → find cid ep.conns ≡ none
    → IsWf ep
    → WellMade (make_conn ep cid dcid dir b)
unfolding make_conn
make_conn-WellMade ep cid dcid dir true n m = (
  update-IsMap cid (some (new_conn cid dcid dir)) (ep.conns ++ ((cid, none) ∷ [])) (refl, refl)
      (snoc-IsMap cid none ep.conns n tt m),
  refl,
)
make_conn-WellMade ep cid dcid dir false n m = snoc-IsMap cid none ep.conns n tt m

accept_initial_connection-WellMade :
    (ep : Endpoint) (r : Replies) → IsWf ep → Holds WellMade (accept_initial_connection ep r)
unfolding accept_initial_connection
accept_initial_connection-WellMade ep r m = Holds-if (is_negative r.accepted) WellMade _ _ m (
    Holds-if r.is_0rtt WellMade _ _ m (
      Holds-if (r.is_initial && not (r.tokenlen == 0)) WellMade _ _ m (
        Holds-bind (λ c. find c.0 ep.conns ≡ none) WellMade (fresh_cid ep r.randoms) _
          (fresh_cid-find ep r.randoms)
          (λ c n. make_conn-WellMade ep c.0 r.hdr_scid inbound r.constructed n m))))

with_made-IsWf : (m : Endpoint × Made) (r : Replies) → WellMade m → Holds IsWf (with_made m r)
with_made-IsWf (ep, refused) r h = h
with_made-IsWf (ep, raised) r h = tt
with_made-IsWf (ep, made c) r h = handle_conn_packet-IsWf ep c r h.1 h.0

pub get_conn-closing :
    (ep : Endpoint) (cid : ℕ) (c : Conn) → IsWf ep → get_conn ep cid ≡ some c → c.closing ≡ false
unfolding get_conn
get_conn-closing ep cid c m h = elim (Option-cases (find cid ep.conns)) [
  | inl e ↦ absurd (ground (arith, e))
  | inr (none, e) ↦ absurd (ground (arith, e))
  | inr (some d, e) ↦
      subst (λ (x : Conn). x.closing ≡ false) {x = d} {y = c} (ground (arith, e))
        (find-IsEntry cid ep.conns (some d) m e).1
]

dispatch-IsWf : (ep : Endpoint) (r : Replies) (cid : ℕ) → IsWf ep → Holds IsWf (dispatch ep r cid)
unfolding dispatch
dispatch-IsWf ep r cid m = elim (Option-cases (get_conn ep cid)) [
  | inl e ↦
      rw (e, Holds)
        (Holds-if ep.accepting_inbound IsWf _ _
          (Holds-bind WellMade IsWf (accept_initial_connection ep r) _
            (accept_initial_connection-WellMade ep r m) (λ a h. with_made-IsWf a r h))
          m)
  | inr (c, e) ↦ rw (e, Holds) (handle_conn_packet-IsWf ep c r (get_conn-closing ep cid c m e) m)
]

pub handle_packet_connid-conns :
    (ep : Endpoint) (r : Replies) → (handle_packet_connid ep r).0.conns ≡ ep.conns
unfolding handle_packet_connid negotiate
handle_packet_connid-conns ep r = ground arith

-- Whatever a packet makes the endpoint do, if it comes to an end without exception or fault, a
-- sound map of connections stays sound: no id twice, each connection under its own source id, and
-- none marked closing.
pub handle_packet-IsWf : (ep : Endpoint) (r : Replies) → IsWf ep → Holds IsWf (handle_packet ep r)
unfolding handle_packet
handle_packet-IsWf ep r m = elim (Option-cases (handle_packet_connid ep r).1) [
  | inl e ↦ rw (e, Holds) kept
  | inr (cid, e) ↦ rw (e, Holds) (dispatch-IsWf (handle_packet_connid ep r).0 r cid kept)
]
  where
    kept : IsWf (handle_packet_connid ep r).0
    kept = subst IsMap (sym (handle_packet_connid-conns ep r)) m

pub connect-IsWf :
    (ep : Endpoint) (randoms : List ℕ) (b : Bool) → IsWf ep → Holds WellMade (connect ep randoms b)
unfolding connect
connect-IsWf ep randoms b m =
    Holds-bind (λ c. find c.0 ep.conns ≡ none) WellMade (fresh_cid ep randoms) _
      (fresh_cid-find ep randoms) (λ c n. drawn c.0 c.1 n)
  where
    drawn :
        (cid : ℕ) (rest : List ℕ)
        → find cid ep.conns ≡ none
        → Holds WellMade (elim rest [
          | [] ↦ Outcome.out_of_fuel
          | dcid ∷ more ↦ done (make_conn ep cid dcid outbound b)
        ])
    drawn cid [] n = tt
    drawn cid (dcid ∷ more) n = make_conn-WellMade ep cid dcid outbound b n m

pub get_conn-make_conn :
    (ep : Endpoint) (cid dcid k : ℕ) (dir : Direction)
    → find cid ep.conns ≡ none
    → get_conn (make_conn ep cid dcid dir true).0 k
      ≡ (if k == cid then some (new_conn cid dcid dir) else get_conn ep k)
unfolding make_conn get_conn
get_conn-make_conn ep cid dcid k dir n =
    ground (arith, find-snoc cid k (some (new_conn cid dcid dir)) ep.conns n)

-- What an accepted connection is to the endpoint before.
abbrev IsNew : Endpoint → Replies → Endpoint × Made → Type 0
IsNew ep r (ep', made c) =
    (get_conn ep c.scid ≡ none)
    × ((k : ℕ) → get_conn ep' k ≡ (if k == c.scid then some c else get_conn ep k))
    × (c.dcid ≡ r.hdr_scid)
    × (c.dir ≡ inbound)
IsNew ep r (ep', raised) = Unit {0}
IsNew ep r (ep', refused) = Unit {0}

get_conn-none : (ep : Endpoint) (cid : ℕ) → find cid ep.conns ≡ none → get_conn ep cid ≡ none
unfolding get_conn
get_conn-none ep cid n = rw (n, get_conn) refl

make_conn-IsNew :
    (ep : Endpoint) (r : Replies) (cid : ℕ) (b : Bool)
    → find cid ep.conns ≡ none
    → IsNew ep r (make_conn ep cid r.hdr_scid inbound b)
unfolding make_conn
make_conn-IsNew ep r cid false n = tt
make_conn-IsNew ep r cid true n =
    (get_conn-none ep cid n, λ k. get_conn-make_conn ep cid r.hdr_scid k inbound n, refl, refl)

accept_initial_connection-IsNew :
    (ep : Endpoint) (r : Replies) → Holds (IsNew ep r) (accept_initial_connection ep r)
unfolding accept_initial_connection
accept_initial_connection-IsNew ep r = Holds-if (is_negative r.accepted) (IsNew ep r) _ _ tt (
    Holds-if r.is_0rtt (IsNew ep r) _ _ tt (
      Holds-if (r.is_initial && not (r.tokenlen == 0)) (IsNew ep r) _ _ tt (
        Holds-bind (λ c. find c.0 ep.conns ≡ none) (IsNew ep r) (fresh_cid ep r.randoms) _
          (fresh_cid-find ep r.randoms) (λ c n. make_conn-IsNew ep r c.0 r.constructed n))))

-- Where `accept_initial_connection` makes a connection, it is under an id that led nowhere before,
-- and every other id still leads where it led; it is inbound, and its destination is the source of
-- the packet.
pub accept_initial_connection-get_conn :
    (ep : Endpoint) (r : Replies) (ep' : Endpoint) (c : Conn)
    → accept_initial_connection ep r ≡ done (ep', made c)
    → (get_conn ep c.scid ≡ none)
      × ((k : ℕ) → get_conn ep' k ≡ (if k == c.scid then some c else get_conn ep k))
      × (c.dcid ≡ r.hdr_scid)
      × (c.dir ≡ inbound)
accept_initial_connection-get_conn ep r ep' c h =
    subst (Holds (IsNew ep r)) h (accept_initial_connection-IsNew ep r)
