-- ===== src/Endpoint/Receive/Handled.antt =====
-- A packet is handled to the end, with no undefined step and no exception.
use mathlib.Core.Path.{subst}
use oxen_libquic.Base.{
  ℕ, ◌<◌, ◌≡◌, refl, sym, ◌∙◌, ap, Bool, true, false, not, ◌&&◌, ◌||◌, none, some, ◌==◌, length,
  arith, inl, inr, Option-cases,
}
use oxen_libquic.Base.Int.{ℤ}
use oxen_libquic.Base.Outcome.{Holds, Holds-if, Holds-bind, IsDone, IsDone-if, IsDone-bind}
use oxen_libquic.Endpoint.{
  Endpoint, Conn, inbound, Code, no_error, err_draining, err_drop_conn, err_crypto, find, get_conn,
  delete_connection, is_idle_close, is_positive, close_connection, read_packet,
}
use oxen_libquic.Endpoint.Incoming.{
  Replies, Made, made, raised, refused, new_conn, make_conn, fresh_cid, is_negative,
  accept_initial_connection, handle_conn_packet, with_made, dispatch, handle_packet_connid,
  handle_packet,
}
use oxen_libquic.Endpoint.Registry.{IsMap, IsWf, find-IsEntry}
use oxen_libquic.Endpoint.Accepting.{get_conn-make_conn, fresh_cid-find, handle_packet_connid-conns}
use oxen_libquic.Endpoint.Receive.Drawn.{Distinct, Distinct-HasFree, fresh_cid-IsDone}

-- The id leads to a connection.
abbrev Leads : Endpoint → ℕ → Type 0
Leads ep cid = (c : Conn) × (get_conn ep cid ≡ some c)

delete_connection-IsDone :
    (ep : Endpoint) (cid : ℕ) → Leads ep cid → IsDone (delete_connection ep cid)
unfolding delete_connection get_conn
delete_connection-IsDone ep cid (c, h) = elim (Option-cases (find cid ep.conns)) [
  | inl e ↦ rw (e, IsDone) tt
  | inr (none, e) ↦ absurd (ground (arith, e))
  | inr (some d, e) ↦ rw (e, IsDone) tt
]

close_connection-IsDone :
    (ep : Endpoint) (c : Conn) (code : Code) (written : ℤ)
    → Leads ep c.scid
    → IsDone (close_connection ep c code written)
unfolding close_connection
close_connection-IsDone ep c code written h =
    let deleted : IsDone (delete_connection ep c.scid) = delete_connection-IsDone ep c.scid h in
    IsDone-if (c.closing || c.draining) _ _ tt (
      IsDone-if (is_idle_close code) _ _ deleted (
        IsDone-if (not (is_positive written)) _ _ deleted (IsDone-if ep.has_socket _ _ tt deleted)))

read_packet-IsDone :
    (ep : Endpoint) (c : Conn) (rv : Code) (now pto : ℕ) (written : ℤ)
    → Leads ep c.scid
    → IsDone (read_packet ep c rv now pto written)
unfolding read_packet
read_packet-IsDone ep c no_error now pto written h = tt
read_packet-IsDone ep c err_draining now pto written h = tt
read_packet-IsDone ep c err_drop_conn now pto written h = delete_connection-IsDone ep c.scid h
read_packet-IsDone ep c err_crypto now pto written h = delete_connection-IsDone ep c.scid h
read_packet-IsDone ep c code now pto written h = close_connection-IsDone ep c code written h

handle_conn_packet-IsDone :
    (ep : Endpoint) (c : Conn) (r : Replies) → Leads ep c.scid → IsDone (handle_conn_packet ep c r)
unfolding handle_conn_packet
handle_conn_packet-IsDone ep c r h =
    IsDone-if r.in_closing_period _ _ (delete_connection-IsDone ep c.scid h)
      (read_packet-IsDone ep c r.read r.now r.pto r.written h)

-- An attempt that does not raise, whose connection is in the map.
abbrev Usable : Endpoint × Made → Type 0
Usable (ep, made c) = Leads ep c.scid
Usable (ep, raised) = ⊥
Usable (ep, refused) = Unit {0}

make_conn-Usable :
    (ep : Endpoint) (cid dcid : ℕ) (b : Bool)
    → b ≡ true
    → find cid ep.conns ≡ none
    → Usable (make_conn ep cid dcid inbound b)
unfolding make_conn
make_conn-Usable ep cid dcid false t n = absurd cc
make_conn-Usable ep cid dcid true t n =
    let here : (cid == cid) ≡ true = ground arith in
    (new_conn cid dcid inbound, get_conn-make_conn ep cid dcid cid inbound n ∙ rw here refl)

accept_initial_connection-Usable :
    (ep : Endpoint) (r : Replies)
    → r.constructed ≡ true
    → Holds Usable (accept_initial_connection ep r)
unfolding accept_initial_connection
accept_initial_connection-Usable ep r t = Holds-if (is_negative r.accepted) Usable _ _ tt (
    Holds-if r.is_0rtt Usable _ _ tt (
      Holds-if (r.is_initial && not (r.tokenlen == 0)) Usable _ _ tt (
        Holds-bind (λ c. find c.0 ep.conns ≡ none) Usable (fresh_cid ep r.randoms) _
          (fresh_cid-find ep r.randoms)
          (λ c n. make_conn-Usable ep c.0 r.hdr_scid r.constructed t n))))

accept_initial_connection-IsDone :
    (ep : Endpoint) (r : Replies)
    → IsWf ep
    → Distinct r.randoms
    → length ep.conns < length r.randoms
    → IsDone (accept_initial_connection ep r)
unfolding accept_initial_connection
accept_initial_connection-IsDone ep r m d h =
    let drawn : IsDone (fresh_cid ep r.randoms) =
      fresh_cid-IsDone ep r.randoms (Distinct-HasFree r.randoms ep.conns m d h) in
    IsDone-if (is_negative r.accepted) _ _ tt (
      IsDone-if r.is_0rtt _ _ tt (
        IsDone-if (r.is_initial && not (r.tokenlen == 0)) _ _ tt (
          IsDone-bind (λ c. find c.0 ep.conns ≡ none) (fresh_cid ep r.randoms) _ drawn
            (fresh_cid-find ep r.randoms) (λ c n. tt))))

with_made-IsDone : (m : Endpoint × Made) (r : Replies) → Usable m → IsDone (with_made m r)
with_made-IsDone (ep, refused) r h = tt
with_made-IsDone (ep, raised) r h = absurd h
with_made-IsDone (ep, made c) r h = handle_conn_packet-IsDone ep c r h

-- A connection that is found is found under its own id.
get_conn-Leads :
    (ep : Endpoint) (cid : ℕ) (c : Conn) → IsWf ep → get_conn ep cid ≡ some c → Leads ep c.scid
unfolding get_conn
get_conn-Leads ep cid c m h = elim (Option-cases (find cid ep.conns)) [
  | inl e ↦ absurd (ground (arith, e))
  | inr (none, e) ↦ absurd (ground (arith, e))
  | inr (some d, e) ↦
      let same : d ≡ c = ground (arith, e) in
      let own : c.scid ≡ cid =
        ap (λ (x : Conn). x.scid) (sym same) ∙ (find-IsEntry cid ep.conns (some d) m e).0 in
      (c, ap (get_conn ep) own ∙ h)
]

dispatch-IsDone :
    (ep : Endpoint) (r : Replies) (cid : ℕ)
    → IsWf ep
    → r.constructed ≡ true
    → Distinct r.randoms
    → length ep.conns < length r.randoms
    → IsDone (dispatch ep r cid)
unfolding dispatch
dispatch-IsDone ep r cid m t d h = elim (Option-cases (get_conn ep cid)) [
  | inl e ↦
      rw (e, IsDone)
        (IsDone-if ep.accepting_inbound _ _
          (IsDone-bind Usable (accept_initial_connection ep r) _
            (accept_initial_connection-IsDone ep r m d h) (accept_initial_connection-Usable ep r t)
            (λ a u. with_made-IsDone a r u))
          tt)
  | inr (c, e) ↦ rw (e, IsDone) (handle_conn_packet-IsDone ep c r (get_conn-Leads ep cid c m e))
]

pub handle_packet-IsDone :
    (ep : Endpoint) (r : Replies)
    → IsWf ep
    → r.constructed ≡ true
    → Distinct r.randoms
    → length ep.conns < length r.randoms
    → IsDone (handle_packet ep r)
unfolding handle_packet
handle_packet-IsDone ep r m t d h = elim (Option-cases (handle_packet_connid ep r).1) [
  | inl e ↦ rw (e, IsDone) tt
  | inr (cid, e) ↦
      let ep' : Endpoint = (handle_packet_connid ep r).0 in
      let same : ep'.conns ≡ ep.conns = handle_packet_connid-conns ep r in
      rw (e, IsDone)
        (dispatch-IsDone ep' r cid (subst IsMap (sym same) m) t d (omega (arith, ap length same)))
]
