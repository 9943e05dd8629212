-- ===== src/Endpoint/Receive/Sized.antt =====
-- A packet adds at most one connection.
use mathlib.Core.Path.{subst}
use oxen_libquic.Base.{
  ℕ, suc, ◌+◌, ◌≤◌, ◌≡◌, refl, ap, Bool, not, ◌&&◌, ◌||◌, Option, none, some, List, [], ◌∷◌, ◌==◌,
  ◌++◌, length, length-append, arith, inl, inr, Option-cases, Bool-cases,
}
use oxen_libquic.Base.Int.{ℤ}
use oxen_libquic.Base.Outcome.{Holds, Holds-if, Holds-bind, Holds-Unit}
use oxen_libquic.Endpoint.{
  Endpoint, Conn, Direction, inbound, Code, no_error, err_draining, err_drop_conn, err_crypto, find,
  erase, update, get_conn, delete_connection, drain_connection, is_idle_close, is_positive,
  close_connection, read_packet,
}
use oxen_libquic.Endpoint.Incoming.{
  Replies, Made, made, raised, refused, new_conn, make_conn, fresh_cid, is_negative,
  accept_initial_connection, handle_conn_packet, with_made, dispatch, handle_packet_connid,
  handle_packet,
}
use oxen_libquic.Endpoint.Accepting.{handle_packet_connid-conns}

-- No more than `n` entries.
abbrev pub WithinSize : ℕ → Endpoint → Type 0
WithinSize n ep = length ep.conns ≤ n

length-erase_le : (cid : ℕ) (cs : List (ℕ × Option Conn)) → length (erase cid cs) ≤ length cs
unfolding erase
length-erase_le cid [] = omega arith
length-erase_le cid ((k, c) ∷ cs) = ground (arith, length-erase_le cid cs)

length-update :
    (cid : ℕ) (v : Option Conn) (cs : List (ℕ × Option Conn)) → length (update cid v cs) ≡ length cs
unfolding update
length-update cid v [] = refl
length-update cid v ((k, c) ∷ cs) = ground (arith, length-update cid v cs)

module _ (n : ℕ) where
  delete_connection-WithinSize :
      (ep : Endpoint) (cid : ℕ) → WithinSize n ep → Holds (WithinSize n) (delete_connection ep cid)
  unfolding delete_connection
  delete_connection-WithinSize ep cid h = elim (Option-cases (find cid ep.conns)) [
    | inl e ↦ rw (e, Holds) h
    | inr (none, e) ↦ rw (e, Holds) tt
    | inr (some d, e) ↦ rw (e, Holds) (omega (arith, length-erase_le cid ep.conns))
  ]

  close_connection-WithinSize :
      (ep : Endpoint) (c : Conn) (code : Code) (written : ℤ)
      → WithinSize n ep
      → Holds (WithinSize n) (close_connection ep c code written)
  unfolding close_connection
  close_connection-WithinSize ep c code written h =
      let deleted : Holds (WithinSize n) (delete_connection ep c.scid) =
        delete_connection-WithinSize ep c.scid h in
      Holds-if (c.closing || c.draining) (WithinSize n) _ _ h (
        Holds-if (is_idle_close code) (WithinSize n) _ _ deleted (
          Holds-if (not (is_positive written)) (WithinSize n) _ _ deleted
            (Holds-if ep.has_socket (WithinSize n) _ _ h deleted)))

  drain_connection-WithinSize :
      (ep : Endpoint) (c : Conn) (now pto : ℕ)
      → WithinSize n ep
      → WithinSize n (drain_connection ep c now pto)
  unfolding drain_connection
  drain_connection-WithinSize ep c now pto h = elim (Bool-cases c.draining) [
    | inl e ↦ rw e h
    | inr e ↦ rw e (omega (arith, length-update c.scid _ ep.conns))
  ]

  read_packet-WithinSize :
      (ep : Endpoint) (c : Conn) (rv : Code) (now pto : ℕ) (written : ℤ)
      → WithinSize n ep
      → Holds (WithinSize n) (read_packet ep c rv now pto written)
  unfolding read_packet
  read_packet-WithinSize ep c no_error now pto written h = h
  read_packet-WithinSize ep c err_draining now pto written h =
      drain_connection-WithinSize ep c now pto h
  read_packet-WithinSize ep c err_drop_conn now pto written h =
      delete_connection-WithinSize ep c.scid h
  read_packet-WithinSize ep c err_crypto now pto written h =
      delete_connection-WithinSize ep c.scid h
  read_packet-WithinSize ep c code now pto written h =
      close_connection-WithinSize ep c code written h

  handle_conn_packet-WithinSize :
      (ep : Endpoint) (c : Conn) (r : Replies)
      → WithinSize n ep
      → Holds (WithinSize n) (handle_conn_packet ep c r)
  unfolding handle_conn_packet
  handle_conn_packet-WithinSize ep c r h =
      Holds-if r.in_closing_period (WithinSize n) _ _ (delete_connection-WithinSize ep c.scid h)
        (read_packet-WithinSize ep c r.read r.now r.pto r.written h)

  with_made-WithinSize :
      (m : Endpoint × Made) (r : Replies) → WithinSize n m.0 → Holds (WithinSize n) (with_made m r)
  with_made-WithinSize (ep, refused) r h = h
  with_made-WithinSize (ep, raised) r h = tt
  with_made-WithinSize (ep, made c) r h = handle_conn_packet-WithinSize ep c r h

make_conn-WithinSize :
    (ep : Endpoint) (cid dcid : ℕ) (dir : Direction) (b : Bool)
    → WithinSize (suc (length ep.conns)) (make_conn ep cid dcid dir b).0
unfolding make_conn
make_conn-WithinSize ep cid dcid dir b =
    let entry : List (ℕ × Option Conn) = (cid, none) ∷ [] in
    let more : length (ep.conns ++ entry) ≡ length ep.conns + 1 = length-append ep.conns entry in
    elim (Bool-cases b) [
      | inl e ↦
          rw (e, make_conn)
            (omega
              (arith, more, length-update cid (some (new_conn cid dcid dir)) (ep.conns ++ entry)))
      | inr e ↦ rw (e, make_conn) (omega (arith, more))
    ]

accept_initial_connection-WithinSize :
    (ep : Endpoint) (r : Replies)
    → Holds (λ m. WithinSize (suc (length ep.conns)) m.0) (accept_initial_connection ep r)
unfolding accept_initial_connection
accept_initial_connection-WithinSize ep r =
    let n : ℕ = suc (length ep.conns) in
    let same : WithinSize n ep = omega arith in
    Holds-if (is_negative r.accepted) (λ m. WithinSize n m.0) _ _ same
      (Holds-if r.is_0rtt (λ m. WithinSize n m.0) _ _ same
        (Holds-if (r.is_initial && not (r.tokenlen == 0)) (λ m. WithinSize n m.0) _ _ same
          (Holds-bind (λ _. Unit {0}) (λ m. WithinSize n m.0) (fresh_cid ep r.randoms) _
            (Holds-Unit (fresh_cid ep r.randoms))
            (λ c u. make_conn-WithinSize ep c.0 r.hdr_scid inbound r.constructed))))

dispatch-WithinSize :
    (ep : Endpoint) (r : Replies) (cid : ℕ)
    → Holds (WithinSize (suc (length ep.conns))) (dispatch ep r cid)
unfolding dispatch
dispatch-WithinSize ep r cid =
    let n : ℕ = suc (length ep.conns) in
    elim (Option-cases (get_conn ep cid)) [
      | inl e ↦
          rw (e, Holds)
            (Holds-if ep.accepting_inbound (WithinSize n) _ _
              (Holds-bind (λ m. WithinSize n m.0) (WithinSize n) (accept_initial_connection ep r) _
                (accept_initial_connection-WithinSize ep r) (λ a h. with_made-WithinSize n a r h))
              (omega arith))
      | inr (c, e) ↦ rw (e, Holds) (handle_conn_packet-WithinSize n ep c r (omega arith))
    ]

pub handle_packet-WithinSize :
    (ep : Endpoint) (r : Replies) → Holds (WithinSize (suc (length ep.conns))) (handle_packet ep r)
unfolding handle_packet
handle_packet-WithinSize ep r =
    let ep' : Endpoint = (handle_packet_connid ep r).0 in
    let same : length ep'.conns ≡ length ep.conns = ap length (handle_packet_connid-conns ep r) in
    elim (Option-cases (handle_packet_connid ep r).1) [
      | inl e ↦ rw (e, Holds) (omega (arith, same))
      | inr (cid, e) ↦
          rw (e, Holds)
            (subst (λ m. Holds (WithinSize (suc m)) (dispatch ep' r cid)) same
              (dispatch-WithinSize ep' r cid))
    ]
