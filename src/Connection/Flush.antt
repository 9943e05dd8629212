-- ===== src/Connection/Flush.antt =====
-- src/connection.cpp: `Connection::send` and `Connection::flush_streams`. ngtcp2 and the socket are
-- functions to their result from the number of the call; for ngtcp2 also from the stream, whether it
-- is to send FIN, and the bytes that it is offered.
pub mod Sound
pub mod Ends
pub mod Total
pub mod Batch
pub mod Conserved
pub mod Resume
pub mod Drained
mod Tests
use oxen_libquic.Base.{
  ℕ, zero, suc, ◌+◌, ◌/◌, Bool, true, false, not, ◌&&◌, Option, none, some, List, [], ◌∷◌, ◌++◌,
  ◌==◌, ltb, if◌then◌else◌, length, take, drop,
}
use oxen_libquic.Base.Outcome.{Outcome, done, out_of_fuel, ◌>>=◌}
use oxen_libquic.IoResult.{IoResult, failure, blocked}
use oxen_libquic.Endpoint.Packets.{Queued, send_packets}
use oxen_libquic.Endpoint.Packets.Contract.{packets}
use oxen_libquic.Stream.{Stream, pending, wrote, unsent}
use oxen_libquic.Connection.Streams.{StreamMap, find, assign}

-- What ngtcp2_conn_writev_stream gives. `packet bytes n` is a packet of `bytes`, at least one, that
-- took `n` bytes of the stream (0 for none, or where `ndatalen` is -1).
pub data Write : Type 0 where
  write_more : ℕ → Write
  write_error : Write
  congested : Write
  packet : List ℕ → ℕ → Write

-- The variables of the loop, with the counts of calls to ngtcp2 and to the socket, and whether a
-- callback waits for the socket to be writeable. `none` in `strs` is the pseudo stream -1,
-- `buf_pos` is an offset in the buffer, and `cancelled` is the flag of `pkt_updater`. `written` and
-- `accepted` log the packets that ngtcp2 has made, and those that the socket has taken.
pub record Loop : Type 0 where
  pub streams : StreamMap
  pub strs : List (Option ℕ)
  pub queued : Queued
  pub buf_pos : ℕ
  pub stream_packets : ℕ
  pub writes : ℕ
  pub sends : ℕ
  pub waiting : Bool
  pub cancelled : Bool
  pub written : List (List ℕ)
  pub accepted : List (List ℕ)

-- The destructor of `pkt_updater`: whether it has ngtcp2 update the time of the last packet.
abbrev pub updates_pkt_tx_time : Loop → Bool
updates_pkt_tx_time l = not l.cancelled

-- How the body of the loop ends.
pub data Next : Type 0 where
  continue_loop break_loop return_now : Loop → Next

-- `strs.insert(streams_end_it, stream)`: before the last element.
abbrev pub insert_before_last : Option ℕ → List (Option ℕ) → List (Option ℕ)
insert_before_last s [] = s ∷ []
insert_before_last s (t ∷ []) = s ∷ t ∷ []
insert_before_last s (t ∷ u ∷ ts) = t ∷ insert_before_last s (u ∷ ts)

-- `strs.erase(strs.begin(), streams_end_it)`: all but the last element.
abbrev pub only_last : List (Option ℕ) → List (Option ℕ)
only_last [] = []
only_last (t ∷ []) = t ∷ []
only_last (t ∷ u ∷ ts) = only_last (u ∷ ts)

-- The streams to visit, from the `start`th on and round, those that have not sent FIN.
abbrev pub open_ids : StreamMap → List (Option ℕ)
open_ids [] = []
open_ids ((k, s) ∷ m) = let rest = open_ids m in if not s.sent_fin then some k ∷ rest else rest

abbrev pub visit : ℕ → StreamMap → List (Option ℕ)
visit start m = open_ids (drop start m) ++ (open_ids (take start m) ++ (none ∷ []))

-- `Connection::send(&pkt_updater)` on what is queued: whether the caller may go on.
unfoldable pub send : Loop → IoResult × ℕ → Bool × Loop
send l reply =
    let (res, q) = send_packets true l.queued reply in
    let l' = record l {
      queued = q;
      sends = suc l.sends;
      accepted = l.accepted ++ take reply.1 (packets l.queued);
    } in
    if blocked res
    then (false, record l' { waiting = true })
    else if failure res
    then (false, record l' { cancelled = true })
    else (true, l')

-- A full batch: after it the next packet goes to the start of the buffer.
unfoldable pub send_batch : Loop → IoResult × ℕ → Bool × Loop
send_batch l reply =
    let (go_on, l') = send l reply in
    if go_on then (true, record l' { buf_pos = 0 }) else (false, l')

-- `stream->wrote(ndatalen)`.
abbrev pub took : Option ℕ → ℕ → StreamMap → StreamMap
took none n m = m
took (some id) n m = elim (find id m) [ none ↦ m | some s ↦ assign id (wrote s n) m ]

-- Elements of an array that are written over, from the index `at` on.
abbrev pub store {ℓ} : {A : Type ℓ} → ℕ → List A → List A → List A
store at new old = take at old ++ (new ++ drop (at + length new) old)

abbrev pub queue : Queued → ℕ → List ℕ → Queued
queue q buf_pos bytes = record {
  buf = store buf_pos bytes q.buf;
  bufsize = store q.n_pkts (length bytes ∷ []) q.bufsize;
  n_pkts = suc q.n_pkts;
}

abbrev sends_fin : Stream → Bool
sends_fin s = s.is_closing && (not s.sent_fin && (unsent s == 0))

abbrev no_bytes : List (List ℕ) → Bool
no_bytes [] = true
no_bytes (b ∷ bs) = false

-- From the insertion at the end of the body.
pub requeue : Loop → Option ℕ → Loop
requeue l none = record l { strs = l.strs ++ (none ∷ []) }
requeue l (some id) = elim (find id l.streams) [
  | none ↦ l
  | some s ↦ if ltb 0 (unsent s) then record l { strs = insert_before_last (some id) l.strs } else l
]

abbrev pub start_loop : StreamMap → List (Option ℕ) → Queued → Loop
start_loop m strs q = record {
  streams = m;
  strs = strs;
  queued = q;
  buf_pos = 0;
  stream_packets = 0;
  writes = 0;
  sends = 0;
  waiting = false;
  cancelled = false;
  written = [];
  accepted = [];
}

module _ (max_batch : ℕ) (writev : ℕ → Option ℕ → Bool → List (List ℕ) → Write)
    (socket : ℕ → IoResult × ℕ) where
  -- From the test for a full batch on.
  after_packet : ℕ → Loop → Option ℕ → Next
  unfolding requeue
  after_packet max_packets l who =
      let (go_on, l') =
        if l.queued.n_pkts == max_batch then send_batch l (socket l.sends) else (true, l) in
      if not go_on
      then return_now l'
      else if l'.stream_packets == max_packets
      then break_loop l'
      else continue_loop (requeue l' who)

  -- The body from the call of ngtcp2 on.
  after_write : ℕ → Loop → Option ℕ → Write → Next
  unfolding after_packet
  after_write max_packets l who (write_more n) =
      continue_loop (record l { streams = took who n l.streams })
  after_write max_packets l who write_error = continue_loop l
  after_write max_packets l none congested = continue_loop l
  after_write max_packets l (some id) congested =
      continue_loop (record l { strs = only_last l.strs })
  after_write max_packets l who (packet bytes n) =
      after_packet max_packets
        (record l {
          streams = took who n l.streams;
          queued = queue l.queued l.buf_pos bytes;
          buf_pos = l.buf_pos + length bytes;
          written = l.written ++ (bytes ∷ []);
          stream_packets = suc l.stream_packets;
        })
        who

  call_ngtcp2 : ℕ → Loop → Option ℕ → Bool → List (List ℕ) → Next
  unfolding after_write
  call_ngtcp2 max_packets l who fin bufs =
      after_write max_packets (record l { writes = suc l.writes }) who
        (writev l.writes who fin bufs)

  -- A stream's turn: `l` has it off the list already.
  visit_stream : ℕ → Loop → ℕ → Stream → List (List ℕ) → Next
  unfolding call_ngtcp2
  visit_stream max_packets l id s bufs =
      if sends_fin s
      then call_ngtcp2 max_packets
          (record l { streams = assign id (record s { sent_fin = true }) l.streams }) (some id) true
          bufs
      else if no_bytes bufs
      then continue_loop l
      else call_ngtcp2 max_packets l (some id) false bufs

  -- The body of the loop, with the element that it pops. A stream stays in the map during the call.
  unfoldable pub body : ℕ → Loop → Option ℕ → Outcome Next
  unfolding visit_stream
  body max_packets l none = done (call_ngtcp2 max_packets l none false [])
  body max_packets l (some id) = elim (find id l.streams) [
    | none ↦ done (continue_loop l)
    | some s ↦ pending s >>= λ bufs. done (visit_stream max_packets l id s bufs)
  ]

  -- What follows the loop: the last, partial batch.
  abbrev pub finish : Loop → Loop
  finish l = if ltb 0 l.queued.n_pkts then (send l (socket l.sends)).1 else l

  unfoldable pub flush_loop : ℕ → ℕ → Loop → Outcome Loop
  flush_loop zero max_packets l = out_of_fuel
  flush_loop (suc fuel) max_packets l = elim l.strs [
    | [] ↦ done (finish l)
    | who ∷ rest ↦ body max_packets (record l { strs = rest }) who >>= λ n. elim n [
      | continue_loop l' ↦ flush_loop fuel max_packets l'
      | break_loop l' ↦ done (finish l')
      | return_now l' ↦ done l'
    ]
  ]

  -- `flush_streams`: `quantum` and `payload` are ngtcp2_conn_get_send_quantum and
  -- ngtcp2_conn_get_path_max_tx_udp_payload_size, `start` is the random position.
  unfoldable pub flush_streams : ℕ → ℕ → ℕ → ℕ → StreamMap → Queued → Outcome Loop
  flush_streams fuel quantum payload start m q =
      if ltb 0 q.n_pkts
      then done (start_loop m [] q)
      else flush_loop fuel (quantum / payload) (start_loop m (visit start m) q)
