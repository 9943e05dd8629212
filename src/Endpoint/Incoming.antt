-- ===== src/Endpoint/Incoming.antt =====
-- src/endpoint.cpp and include/quic/endpoint.hpp: what an endpoint does with a packet, and how it
-- makes connections.
use oxen_libquic.Base.{
  ℕ, zero, suc, Bool, true, false, not, ◌&&◌, Option, none, some, is_some, List, [], ◌∷◌, ◌++◌,
  ◌==◌, ltb, if◌then◌else◌,
}
use oxen_libquic.Base.Int.{ℤ, pos, negsuc}
use oxen_libquic.Base.Outcome.{Outcome, done, out_of_fuel, throws, ◌>>=◌}
use oxen_libquic.Endpoint.{
  Endpoint, Conn, Direction, inbound, outbound, Code, no_error, err_version_negotiation, do_action,
  send_version_negotiation, new_connection, is_positive, find, update, get_conn, delete_connection,
  read_packet,
}

-- What ngtcp2 and the random numbers give while one packet is handled.
pub record Replies : Type 0 where
  -- ngtcp2_pkt_decode_version_cid
  pub decoded : Code
  pub dcid : ℕ
  pub dcidlen : ℕ
  -- ngtcp2_pkt_write_version_negotiation
  pub negotiation_size : ℤ
  -- ngtcp2_accept and the header that it fills in
  pub accepted : ℤ
  pub is_0rtt : Bool
  pub is_initial : Bool
  pub tokenlen : ℕ
  pub hdr_scid : ℕ
  -- ConnectionID::random, call after call
  pub randoms : List ℕ
  -- whether the constructor of Connection returns
  pub constructed : Bool
  -- ngtcp2_conn_in_closing_period
  pub in_closing_period : Bool
  -- ngtcp2_conn_read_pkt, the clock, ngtcp2_conn_get_pto and ngtcp2_conn_write_connection_close
  pub read : Code
  pub now : ℕ
  pub pto : ℕ
  pub written : ℤ

abbrev pub max_cidlen : ℕ
max_cidlen = 20

-- The versions that `send_version_negotiation` offers, for the least and the number above it.
abbrev pub count_from : ℕ → ℕ → List ℕ
count_from zero m = []
count_from (suc n) m = m ∷ count_from n (suc m)

unfoldable pub versions : ℕ → ℕ → List ℕ
versions least more = 0x1a2a3a4a ∷ count_from (suc more) least

unfoldable pub negotiate : Endpoint → ℤ → Endpoint
negotiate ep nwrite = if is_positive nwrite then do_action send_version_negotiation ep else ep

-- `handle_packet_connid`.
unfoldable pub handle_packet_connid : Endpoint → Replies → Endpoint × Option ℕ
unfolding negotiate
handle_packet_connid ep r = elim r.decoded [
  | err_version_negotiation ↦ (negotiate ep r.negotiation_size, none)
  | no_error ↦ if ltb max_cidlen r.dcidlen then (ep, none) else (ep, some r.dcid)
  | _ ↦ (ep, none)
]

-- What an attempt to make a connection ends in.
pub data Made : Type 0 where
  refused raised : Made
  made : Conn → Made

abbrev pub new_conn : ℕ → ℕ → Direction → Conn
new_conn scid dcid dir = record {
  scid = scid;
  dcid = dcid;
  dir = dir;
  draining = false;
  closing = false;
  on_closing = false;
}

-- `itr->second = Connection::make_conn(...)`, which ends by `io_ready`. Where the constructor
-- throws, the null entry stays.
unfoldable pub make_conn : Endpoint → ℕ → ℕ → Direction → Bool → Endpoint × Made
make_conn ep cid dcid dir constructed =
    let ep' = record ep { conns = ep.conns ++ ((cid, none) ∷ []) } in
    if constructed
    then (
      do_action (new_connection cid)
          (record ep' { conns = update cid (some (new_conn cid dcid dir)) ep'.conns }),
      made (new_conn cid dcid dir),
    )
    else (ep', raised)

-- The loop that draws connection ids until one is not in `conns`; the ids not drawn come back.
unfoldable pub fresh_cid : Endpoint → List ℕ → Outcome (ℕ × List ℕ)
fresh_cid ep [] = out_of_fuel
fresh_cid ep (cid ∷ rest) =
    let again = fresh_cid ep rest in if is_some (find cid ep.conns) then again else done (cid, rest)

abbrev pub is_negative : ℤ → Bool
is_negative (pos n) = false
is_negative (negsuc n) = true

-- `accept_initial_connection`.
unfoldable pub accept_initial_connection : Endpoint → Replies → Outcome (Endpoint × Made)
unfolding fresh_cid make_conn
accept_initial_connection ep r =
    if is_negative r.accepted
    then done (ep, refused)
    else if r.is_0rtt
    then done (ep, refused)
    else if r.is_initial && not (r.tokenlen == 0)
    then done (ep, refused)
    else fresh_cid ep r.randoms >>= λ c. done (make_conn ep c.0 r.hdr_scid inbound r.constructed)

-- `handle_conn_packet`. A connection that is draining is only logged as dropped.
unfoldable pub handle_conn_packet : Endpoint → Conn → Replies → Outcome Endpoint
unfolding delete_connection read_packet
handle_conn_packet ep c r =
    if r.in_closing_period
    then delete_connection ep c.scid
    else read_packet ep c r.read r.now r.pto r.written

-- What follows an attempt to accept: an exception leaves the handler.
abbrev pub with_made : Endpoint × Made → Replies → Outcome Endpoint
with_made (ep, refused) r = done ep
with_made (ep, raised) r = throws
with_made (ep, made c) r = handle_conn_packet ep c r

-- The part of `handle_packet` from the connection id on.
unfoldable pub dispatch : Endpoint → Replies → ℕ → Outcome Endpoint
dispatch ep r cid = elim (get_conn ep cid) [
  | some c ↦ handle_conn_packet ep c r
  | none ↦
      if ep.accepting_inbound
      then (accept_initial_connection ep r >>= λ m. with_made m r)
      else done ep
]

-- `handle_packet`.
unfoldable pub handle_packet : Endpoint → Replies → Outcome Endpoint
handle_packet ep r =
    let (ep', cid) = handle_packet_connid ep r in
    elim cid [ none ↦ done ep' | some id ↦ dispatch ep' r id ]

-- The job of `connect`: it draws the connection's own id, then the other side's. An exception goes
-- into the promise.
unfoldable pub connect : Endpoint → List ℕ → Bool → Outcome (Endpoint × Made)
unfolding fresh_cid make_conn
connect ep randoms constructed = fresh_cid ep randoms >>= λ c. elim c.1 [
  | [] ↦ out_of_fuel
  | dcid ∷ rest ↦ done (make_conn ep c.0 dcid outbound constructed)
]

-- The job of `listen`.
unfoldable pub listen : Endpoint → Endpoint
listen ep = record ep { accepting_inbound = true }
