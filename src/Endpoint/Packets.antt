-- ===== src/Endpoint/Packets.antt =====
-- src/endpoint.cpp: `Endpoint::send_packets` and `Endpoint::send_or_queue_packet`.
pub mod Contract
pub mod Sending
pub mod Modes
pub mod Packed
use oxen_libquic.Base.{
  ℕ, zero, suc, ◌+◌, ◌-◌, Bool, true, false, not, ◌&&◌, Option, none, some, List, [], ◌∷◌, ◌++◌,
  ◌==◌, ltb, if◌then◌else◌, length, take, drop,
}
use oxen_libquic.Base.Int.{pos}
use oxen_libquic.Base.Outcome.{Outcome, done, out_of_fuel}
use oxen_libquic.IoResult.{IoResult, from_errno, failure, blocked, eagain, ebadf}

-- What the caller holds: the packed bytes, the array of sizes, and how many packets there are.
pub record Queued : Type 0 where
  pub buf : List ℕ
  pub bufsize : List ℕ
  pub n_pkts : ℕ

-- `std::accumulate` over sizes.
abbrev pub sum : List ℕ → ℕ
sum [] = 0
sum (n ∷ ns) = n + sum ns

-- The unsent packets moved to the front: `memmove` and `std::copy` leave what lies behind.
unfoldable pub shift : Queued → ℕ → Queued
shift q sent =
    let sizes = take (q.n_pkts - sent) (drop sent q.bufsize) in
    let offset = sum (take sent q.bufsize) in
    record {
      buf = take (sum sizes) (drop offset q.buf) ++ drop (sum sizes) q.buf;
      bufsize = sizes ++ drop (q.n_pkts - sent) q.bufsize;
      n_pkts = q.n_pkts - sent;
    }

-- The rest of `send_packets`, from what `UDPSocket::send` returns.
unfoldable pub after_send : Queued → IoResult × ℕ → IoResult × Queued
after_send q (ret, sent) =
    if failure ret && not (blocked ret)
    then (ret, record q { n_pkts = 0 })
    else if ltb sent q.n_pkts
    then (from_errno eagain, if sent == 0 then q else shift q sent)
    else (ret, record q { n_pkts = 0 })

-- `send_packets`; `open_socket` is whether the endpoint has its socket.
unfoldable pub send_packets : Bool → Queued → IoResult × ℕ → IoResult × Queued
unfolding after_send
send_packets open_socket q reply = if open_socket then after_send q reply else (from_errno ebadf, q)

-- `send_or_queue_packet` for one packet: what its callback is called with, if it is called. Each
-- reply is that of one attempt; after a blocked one the endpoint tries again when the socket is
-- writeable.
unfoldable pub send_or_queue_packet :
    Bool → List ℕ → List (IoResult × ℕ) → Outcome (Option IoResult)
unfolding send_packets
send_or_queue_packet false buf replies = done (some (from_errno ebadf))
send_or_queue_packet true buf [] = out_of_fuel
send_or_queue_packet true buf (r ∷ rs) =
    let again = send_or_queue_packet true buf rs in
    let (res, q) =
      send_packets true (record { buf = buf; bufsize = length buf ∷ []; n_pkts = 1 }) r in
    if blocked res then again else done none
