-- ===== src/Endpoint/Receive.antt =====
-- src/endpoint.cpp and src/udp.cpp: the socket's event for datagrams to read, which hands each good one
-- to the endpoint's `handle_packet`.
pub mod Drawn
pub mod Handled
pub mod Sized
pub mod Readable
mod Tests
use oxen_libquic.Base.{ℕ, suc, List, [], ◌∷◌}
use oxen_libquic.Base.Outcome.{Outcome, done, ◌>>=◌}
use oxen_libquic.Udp.Receive.{Read, Datagram, receive_mmsg}
use oxen_libquic.Endpoint.{Endpoint}
use oxen_libquic.Endpoint.Incoming.{Replies, handle_packet}

-- The calls of `receive_callback_`, which is `handle_packet`. `outside` is what ngtcp2 and the random
-- numbers give for a packet, by its number and its bytes.
unfoldable pub handle_each :
    (ℕ → List ℕ → Replies) → ℕ → List (List ℕ) → Endpoint → Outcome Endpoint
handle_each outside k [] ep = done ep
handle_each outside k (p ∷ ps) ep =
    handle_packet ep (outside k p) >>= λ ep'. handle_each outside (suc k) ps ep'

-- The handler of `rev_`, with OXEN_LIBQUIC_RECVMMSG. What the endpoint does with a packet does not
-- change what is read after it.
unfoldable pub on_readable :
    (ℕ → List ℕ → Replies) → List (Read (List Datagram)) → Endpoint → Outcome Endpoint
on_readable outside reads ep = receive_mmsg reads 0 >>= λ r. handle_each outside 0 r.1 ep
