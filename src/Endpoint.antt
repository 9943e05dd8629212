-- ===== src/Endpoint.antt =====
-- src/endpoint.cpp: the class Endpoint. Its connections are those of `conns`; ngtcp2, the clock and
-- the random numbers are arguments.
pub mod Packets
pub mod Incoming
pub mod Lifecycle
pub mod Registry
pub mod Accepting
pub mod Life
pub mod Receive
mod Tests
use oxen_libquic.Base.{
  ℕ, zero, suc, ◌+◌, ◌*◌, Bool, true, false, not, ◌&&◌, ◌||◌, Option, none, some, is_some, List, [],
  ◌∷◌, ◌++◌, ◌==◌, ltb, if◌then◌else◌, length,
}
use oxen_libquic.Base.Int.{ℤ, pos, negsuc}
use oxen_libquic.Base.Outcome.{Outcome, done, undefined, out_of_fuel, throws, ◌>>=◌}

pub data Direction : Type 0 where
  outbound inbound : Direction

abbrev pub same_direction : Direction → Direction → Bool
same_direction outbound outbound = true
same_direction inbound inbound = true
same_direction outbound inbound = false
same_direction inbound outbound = false

-- What an endpoint sees of a Connection. A ConnectionID is the number that its bytes spell.
pub record Conn : Type 0 where
  pub scid : ℕ
  pub dcid : ℕ
  pub dir : Direction
  pub draining : Bool
  pub closing : Bool
  pub on_closing : Bool

-- A code of ngtcp2, where the endpoint tells it apart.
pub data Code : Type 0 where
  no_error err_draining err_proto err_drop_conn err_crypto err_idle_close : Code
  err_handshake_timeout err_version_negotiation : Code
  other : ℤ → Code

-- What the endpoint calls.
pub data Action : Type 0 where
  closing_callback io_ready send_close_packet : ℕ → Action
  send_version_negotiation : Action
  new_connection : ℕ → Action

-- `conns` maps to null while a connection is being made. `draining` is ordered by time.
pub record Endpoint : Type 0 where
  pub conns : List (ℕ × Option Conn)
  pub draining : List (ℕ × ℕ)
  pub accepting_inbound : Bool
  pub has_socket : Bool
  pub log : List Action

-- `conns.find(cid)`: the entry, which may be null.
unfoldable pub find : ℕ → List (ℕ × Option Conn) → Option (Option Conn)
find cid [] = none
find cid ((k, c) ∷ cs) = if k == cid then some c else find cid cs

unfoldable pub erase : ℕ → List (ℕ × Option Conn) → List (ℕ × Option Conn)
erase cid [] = []
erase cid ((k, c) ∷ cs) = if k == cid then cs else (k, c) ∷ erase cid cs

-- A write through the pointer of an entry.
unfoldable pub update : ℕ → Option Conn → List (ℕ × Option Conn) → List (ℕ × Option Conn)
update cid v [] = []
update cid v ((k, c) ∷ cs) = if k == cid then (k, v) ∷ cs else (k, c) ∷ update cid v cs

abbrev pub do_action : Action → Endpoint → Endpoint
do_action a ep = record ep { log = ep.log ++ (a ∷ []) }

-- `Connection::call_closing`: the callback runs once, if it is set.
unfoldable pub call_closing : Conn → Conn × List Action
call_closing c =
    if c.on_closing
    then (record c { on_closing = false }, closing_callback c.scid ∷ [])
    else (c, [])

-- `Endpoint::get_conn`.
unfoldable pub get_conn : Endpoint → ℕ → Option Conn
unfolding find
get_conn ep cid = elim (find cid ep.conns) [ none ↦ none | some c ↦ c ]

-- `delete_connection`. A null entry would be dereferenced.
unfoldable pub delete_connection : Endpoint → ℕ → Outcome Endpoint
unfolding find erase call_closing
delete_connection ep cid = elim (find cid ep.conns) [
  | none ↦ done ep
  | some none ↦ undefined
  | some (some c) ↦
      done (record ep { conns = erase cid ep.conns; log = ep.log ++ (call_closing c).1 })
]

-- `std::map::emplace`: an element with an equal key stays as it is.
unfoldable pub emplace_time : ℕ → ℕ → List (ℕ × ℕ) → List (ℕ × ℕ)
emplace_time t cid [] = (t, cid) ∷ []
emplace_time t cid ((u, k) ∷ ds) =
    if ltb t u
    then (t, cid) ∷ (u, k) ∷ ds
    else if u == t
    then (u, k) ∷ ds
    else (u, k) ∷ emplace_time t cid ds

-- `drain_connection`, on the connection under its own source id; `pto` is what
-- ngtcp2_conn_get_pto gives.
unfoldable pub drain_connection : Endpoint → Conn → ℕ → ℕ → Endpoint
unfolding call_closing update emplace_time
drain_connection ep c now pto = if c.draining then ep else record ep {
  conns = update c.scid (some (record (call_closing c).0 { draining = true })) ep.conns;
  log = ep.log ++ (call_closing c).1;
  draining = emplace_time (now + pto * 3) c.scid ep.draining;
}

abbrev pub is_idle_close : Code → Bool
is_idle_close err_idle_close = true
is_idle_close _ = false

-- `written <= 0`.
abbrev pub is_positive : ℤ → Bool
is_positive (pos zero) = false
is_positive (pos (suc n)) = true
is_positive (negsuc n) = false

-- `close_connection`; `written` is what ngtcp2_conn_write_connection_close gives. The packet goes
-- through `send_or_queue_packet`, whose callback runs only without a socket.
unfoldable pub close_connection : Endpoint → Conn → Code → ℤ → Outcome Endpoint
unfolding delete_connection
close_connection ep c code written =
    if c.closing || c.draining
    then done ep
    else if is_idle_close code
    then delete_connection ep c.scid
    else if not (is_positive written)
    then delete_connection ep c.scid
    else if ep.has_socket
    then done (do_action (send_close_packet c.scid) ep)
    else delete_connection ep c.scid

-- `read_packet`, by what ngtcp2_conn_read_pkt gives.
unfoldable pub read_packet : Endpoint → Conn → Code → ℕ → ℕ → ℤ → Outcome Endpoint
unfolding drain_connection close_connection delete_connection
read_packet ep c rv now pto written = elim rv [
  | no_error ↦ done (do_action (io_ready c.scid) ep)
  | err_draining ↦ done (drain_connection ep c now pto)
  | err_proto ↦ close_connection ep c err_proto written
  | err_drop_conn ↦ delete_connection ep c.scid
  | err_crypto ↦ delete_connection ep c.scid
  | code ↦ close_connection ep c code written
]
