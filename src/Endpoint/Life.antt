-- ===== src/Endpoint/Life.antt =====
-- src/endpoint.cpp and include/quic/endpoint.hpp: the life of an endpoint, as its operations one after
-- another, each with what the outside answers.
pub mod Timed
pub mod Sound
mod Tests
use oxen_libquic.Base.{ℕ, Bool, Option, some, List, [], ◌≡◌}
use oxen_libquic.Base.Int.{ℤ}
use oxen_libquic.Base.Outcome.{done}
use oxen_libquic.Endpoint.{
  Endpoint, Conn, Direction, Code, get_conn, delete_connection, close_connection, drain_connection,
}
use oxen_libquic.Endpoint.Incoming.{Replies, Made, handle_packet, connect, listen}
use oxen_libquic.Endpoint.Lifecycle.{check_timeouts, close_conns}

pub data Life : Endpoint → Endpoint → Type 0 where
  gets_packet : (ep ep' : Endpoint) (r : Replies) → handle_packet ep r ≡ done ep' → Life ep ep'
  connects :
      (ep : Endpoint) (randoms : List ℕ) (constructed : Bool) (m : Endpoint × Made)
      → connect ep randoms constructed ≡ done m
      → Life ep m.0
  listens : (ep : Endpoint) → Life ep (listen ep)
  drains :
      (ep : Endpoint) (cid : ℕ) (c : Conn) (now pto : ℕ)
      → get_conn ep cid ≡ some c
      → Life ep (drain_connection ep c now pto)
  deletes : (ep ep' : Endpoint) (cid : ℕ) → delete_connection ep cid ≡ done ep' → Life ep ep'
  closes :
      (ep ep' : Endpoint) (cid : ℕ) (c : Conn) (code : Code) (written : ℤ)
      → get_conn ep cid ≡ some c
      → close_connection ep c code written ≡ done ep'
      → Life ep ep'
  closes_all :
      (ep ep' : Endpoint) (d : Option Direction) (written : ℕ → ℤ)
      → close_conns ep d written ≡ done ep'
      → Life ep ep'
  passes_time : (ep ep' : Endpoint) (now : ℕ) → check_timeouts ep now ≡ done ep' → Life ep ep'

pub data Lives (start : Endpoint) : Endpoint → Type 0 where
  born : Lives start start
  then_lives : (ep ep' : Endpoint) → Lives start ep → Life ep ep' → Lives start ep'
