-- ===== src/Connection/Flush/Conserved.antt =====
-- No packet is lost on the way from ngtcp2 through `flush_streams` to the socket.
use oxen_libquic.Base.{
  ℕ, zero, suc, ◌+◌, ◌/◌, ◌<◌, ◌≡◌, refl, sym, ap, ◌∙◌, Bool, true, false, not, ◌&&◌, Option, none,
  some, List, [], ◌∷◌, ◌++◌, ◌==◌, ltb, if◌then◌else◌, length, append_assoc, arith, inl, inr, ◌⊎◌,
  Bool-cases, Option-cases,
}
use oxen_libquic.Base.Outcome.{done, Holds, Holds-bind, Holds-done, Holds-Unit}
use oxen_libquic.IoResult.{IoResult, failure, blocked}
use oxen_libquic.Stream.{Stream, pending, unsent}
use oxen_libquic.Endpoint.Packets.{Queued}
use oxen_libquic.Endpoint.Packets.Contract.{packets, IsPacked}
use oxen_libquic.Connection.Streams.{StreamMap, find, assign}
use oxen_libquic.Connection.Flush.{
  Write, write_more, write_error, congested, packet, Loop, Next, continue_loop, break_loop,
  return_now, took, send, send_batch, queue, requeue, after_packet, after_write, call_ngtcp2,
  visit_stream, sends_fin, no_bytes, body, finish, flush_loop, flush_streams, visit, start_loop,
  updates_pkt_tx_time,
}
use oxen_libquic.Connection.Flush.Sound.{IsSound, Sent, send-Sent}
use oxen_libquic.Connection.Flush.Ends.{Obeys}
use oxen_libquic.Connection.Flush.Total.{flush_streams-done}
use oxen_libquic.Connection.Flush.Batch.{
  IsBatch, packets-queue, queue-IsBatch, empty-IsBatch, empty-packets, packets_out,
  send-packets_out, send-IsPacked,
}

-- The last reply of the socket is a hard error.
abbrev pub IsFailed : (ℕ → IoResult × ℕ) → Loop → Type 0
IsFailed socket l =
    (k : ℕ) × (l.sends ≡ suc k) × ((failure (socket k).0 && not (blocked (socket k).0)) ≡ true)

-- Every packet that ngtcp2 has made is taken by the socket or is left, in order, and ngtcp2's time is
-- updated; or the socket has failed at last, and the time is not updated.
abbrev pub IsConserved : (ℕ → IoResult × ℕ) → Loop → Type 0
IsConserved socket l =
    ((updates_pkt_tx_time l ≡ true) × (packets_out l ≡ l.written))
    ⊎ ((updates_pkt_tx_time l ≡ false) × IsFailed socket l)

-- What the loop leaves at its end.
abbrev pub IsLeft : (ℕ → IoResult × ℕ) → Loop → Type 0
IsLeft socket l = IsPacked l.queued × IsConserved socket l

-- The same at the loop's test.
abbrev Keeps : Loop → Type 0
Keeps l = IsBatch l.queued l.buf_pos × (packets_out l ≡ l.written) × (l.cancelled ≡ false)

abbrev KeepsNext : (ℕ → IoResult × ℕ) → Next → Type 0
KeepsNext socket (continue_loop l) = Keeps l
KeepsNext socket (break_loop l) = Keeps l
KeepsNext socket (return_now l) = IsLeft socket l

send-IsLeft :
    (socket : ℕ → IoResult × ℕ) (l : Loop) → Keeps l → IsLeft socket (send l (socket l.sends)).1
send-IsLeft socket l (b, e, on) =
    let reply : IoResult × ℕ = socket l.sends in
    let sent : Sent l (send l reply) = send-Sent l reply in
    let same : (send l reply).1.written ≡ l.written = ap (λ (x : Loop). x.written) sent.same in
    (
      send-IsPacked l reply b.packed,
      elim (send-packets_out l reply b.packed) [
        | inl (hard, stopped, cancelled, count) ↦ inr (ap not cancelled, (l.sends, count, hard))
        | inr (kept, quiet) ↦ inl (ap not (quiet ∙ on), kept ∙ e ∙ sym same)
      ],
    )

send_batch_stopped :
    (l : Loop) (reply : IoResult × ℕ)
    → (send l reply).0 ≡ false
    → send_batch l reply ≡ (false, (send l reply).1)
unfolding send_batch
send_batch_stopped l reply e = rw e refl

send_batch_on :
    (l : Loop) (reply : IoResult × ℕ)
    → (send l reply).0 ≡ true
    → send_batch l reply ≡ (true, record (send l reply).1 { buf_pos = 0 })
unfolding send_batch
send_batch_on l reply e = rw e refl

send_batch-Keeps :
    (l : Loop) (reply : IoResult × ℕ)
    → Keeps l
    → (send l reply).0 ≡ true
    → Keeps (record (send l reply).1 { buf_pos = 0 })
send_batch-Keeps l reply (b, e, on) go_on =
    let sent : Sent l (send l reply) = send-Sent l reply in
    let same : (send l reply).1.written ≡ l.written = ap (λ (x : Loop). x.written) sent.same in
    elim (send-packets_out l reply b.packed) [
      | inl (hard, stopped, cancelled, count) ↦ absurd cc
      | inr (kept, quiet) ↦ (
        empty-IsBatch (send l reply).1.queued (sent.emptied go_on),
        kept ∙ e ∙ sym same,
        quiet ∙ on,
      )
    ]

requeue-Keeps : (l : Loop) (who : Option ℕ) → Keeps l → Keeps (requeue l who)
unfolding requeue
requeue-Keeps l none k = k
requeue-Keeps l (some id) k = elim (Option-cases (find id l.streams)) [
  | inl e ↦ rw (e, requeue) k
  | inr (s, e) ↦ elim (Bool-cases (ltb 0 (unsent s))) [
    | inl more ↦ rw (e, more, requeue) k
    | inr all ↦ rw (e, all, requeue) k
  ]
]

module _ (max_batch : ℕ) (writev : ℕ → Option ℕ → Bool → List (List ℕ) → Write)
    (socket : ℕ → IoResult × ℕ) (max_packets : ℕ) where
  limit-Keeps :
      (l : Loop) (who : Option ℕ)
      → Keeps l
      → KeepsNext socket
          (if l.stream_packets == max_packets then break_loop l else continue_loop (requeue l who))
  limit-Keeps l who k = elim (Bool-cases (l.stream_packets == max_packets)) [
    | inl full ↦ rw full k
    | inr room ↦ rw room (requeue-Keeps l who k)
  ]

  after_packet-Keeps :
      (l : Loop) (who : Option ℕ)
      → Keeps l
      → KeepsNext socket (after_packet max_batch writev socket max_packets l who)
  unfolding after_packet
  after_packet-Keeps l who k = elim (Bool-cases (l.queued.n_pkts == max_batch)) [
    | inr room ↦ rw room (limit-Keeps l who k)
    | inl full ↦ elim (Bool-cases (send l (socket l.sends)).0) [
      | inl go_on ↦
          rw (full, send_batch_on l (socket l.sends) go_on)
            (limit-Keeps (record (send l (socket l.sends)).1 { buf_pos = 0 }) who
              (send_batch-Keeps l (socket l.sends) k go_on))
      | inr stop ↦ rw (full, send_batch_stopped l (socket l.sends) stop) (send-IsLeft socket l k)
    ]
  ]

  after_write-Keeps :
      (l : Loop) (who : Option ℕ) (w : Write)
      → Keeps l
      → KeepsNext socket (after_write max_batch writev socket max_packets l who w)
  unfolding after_write
  after_write-Keeps l who (write_more n) k = k
  after_write-Keeps l who write_error k = k
  after_write-Keeps l none congested k = k
  after_write-Keeps l (some id) congested k = k
  after_write-Keeps l who (packet bytes n) (b, e, on) =
      after_packet-Keeps
        (record l {
          streams = took who n l.streams;
          queued = queue l.queued l.buf_pos bytes;
          buf_pos = l.buf_pos + length bytes;
          written = l.written ++ (bytes ∷ []);
          stream_packets = suc l.stream_packets;
        })
        who
        (
          queue-IsBatch l.queued l.buf_pos bytes b,
          ap (λ t. l.accepted ++ t) (packets-queue l.queued l.buf_pos bytes b)
              ∙ sym (append_assoc l.accepted (packets l.queued) (bytes ∷ []))
              ∙ ap (λ t. t ++ (bytes ∷ [])) e,
          on,
        )

  call_ngtcp2-Keeps :
      (l : Loop) (who : Option ℕ) (fin : Bool) (bufs : List (List ℕ))
      → Keeps l
      → KeepsNext socket (call_ngtcp2 max_batch writev socket max_packets l who fin bufs)
  unfolding call_ngtcp2
  call_ngtcp2-Keeps l who fin bufs k =
      after_write-Keeps (record l { writes = suc l.writes }) who (writev l.writes who fin bufs) k

  visit_stream-Keeps :
      (l : Loop) (id : ℕ) (s : Stream) (bufs : List (List ℕ))
      → Keeps l
      → KeepsNext socket (visit_stream max_batch writev socket max_packets l id s bufs)
  unfolding visit_stream
  visit_stream-Keeps l id s bufs k = elim (Bool-cases (sends_fin s)) [
    | inl fin ↦ rw fin (
        call_ngtcp2-Keeps
          (record l { streams = assign id (record s { sent_fin = true }) l.streams }) (some id) true
          bufs k)
    | inr not_fin ↦ elim (Bool-cases (no_bytes bufs)) [
      | inl empty ↦ rw (not_fin, empty) k
      | inr some_bytes ↦ rw (not_fin, some_bytes) (call_ngtcp2-Keeps l (some id) false bufs k)
    ]
  ]

  body-Keeps :
      (l : Loop) (who : Option ℕ)
      → Keeps l
      → Holds (KeepsNext socket) (body max_batch writev socket max_packets l who)
  unfolding body
  body-Keeps l none k = call_ngtcp2-Keeps l none false [] k
  body-Keeps l (some id) k = elim (Option-cases (find id l.streams)) [
    | inl e ↦ rw (e, body) k
    | inr (s, e) ↦
        rw (e, body)
          (Holds-bind (λ _. Unit {0}) (KeepsNext socket) (pending s) _ (Holds-Unit (pending s))
            (λ bufs u. visit_stream-Keeps l id s bufs k))
  ]

  finish-IsLeft : (l : Loop) → Keeps l → IsLeft socket (finish max_batch writev socket l)
  finish-IsLeft l k = elim (Bool-cases (ltb 0 l.queued.n_pkts)) [
    | inl some_packets ↦ rw some_packets (send-IsLeft socket l k)
    | inr no_packets ↦ rw no_packets (k.0.packed, inl (ap not k.2, k.1))
  ]

  flush_loop-IsLeft :
      (fuel : ℕ) (l : Loop)
      → Keeps l
      → Holds (IsLeft socket) (flush_loop max_batch writev socket fuel max_packets l)
  unfolding flush_loop
  flush_loop-IsLeft zero l k = tt
  flush_loop-IsLeft (suc fuel) l k = go l.strs refl (flush_loop-IsLeft fuel)
    where
      next :
          ((l' : Loop)
            → Keeps l'
            → Holds (IsLeft socket) (flush_loop max_batch writev socket fuel max_packets l'))
          → (n : Next) → KeepsNext socket n
          → Holds (IsLeft socket) (elim n [
            | continue_loop l' ↦ flush_loop max_batch writev socket fuel max_packets l'
            | break_loop l' ↦ done (finish max_batch writev socket l')
            | return_now l' ↦ done l'
          ])
      next again (continue_loop l') h = again l' h
      next again (break_loop l') h = finish-IsLeft l' h
      next again (return_now l') h = h

      go :
          (strs : List (Option ℕ))
          → l.strs ≡ strs
          → ((l' : Loop)
              → Keeps l'
              → Holds (IsLeft socket) (flush_loop max_batch writev socket fuel max_packets l'))
          → Holds (IsLeft socket) (flush_loop max_batch writev socket (suc fuel) max_packets l)
      go [] s again = rw (s, flush_loop) (finish-IsLeft l k)
      go (who ∷ rest) s again =
          rw (s, flush_loop)
            (Holds-bind (KeepsNext socket) (IsLeft socket)
              (body max_batch writev socket max_packets (record l { strs = rest }) who) _
              (body-Keeps (record l { strs = rest }) who k) (next again))

pub flush_streams-IsLeft :
    (max_batch : ℕ) (writev : ℕ → Option ℕ → Bool → List (List ℕ) → Write)
    (socket : ℕ → IoResult × ℕ) (fuel quantum payload start : ℕ) (m : StreamMap) (q : Queued)
    (l : Loop)
    → q.n_pkts ≡ 0
    → flush_streams max_batch writev socket fuel quantum payload start m q ≡ done l
    → IsLeft socket l
unfolding flush_streams
flush_streams-IsLeft max_batch writev socket fuel quantum payload start m q l e run =
    let full : ltb 0 q.n_pkts ≡ false = ground arith in
    let started : Keeps (start_loop m (visit start m) q) =
      (empty-IsBatch q e, empty-packets q e, refl) in
    let held : Holds (IsLeft socket)
        (flush_streams max_batch writev socket fuel quantum payload start m q) =
      rw full (
        flush_loop-IsLeft max_batch writev socket (quantum / payload) fuel
          (start_loop m (visit start m) q) started) in
    Holds-done (IsLeft socket) _ l held run

-- Whatever ngtcp2 and the socket answer, `flush_streams` with an empty batch comes to an end in one of
-- two ways. Either no packet that ngtcp2 has made is lost, doubled or out of order: those that the
-- socket has taken, then those left in the batch, are all the packets made, and ngtcp2's time of the
-- last packet is updated. Or the last reply of the socket is a failure other than being blocked, and
-- the time is not updated. It needs valid streams, room for at least one packet, and an ngtcp2 that
-- takes no more bytes than it is offered.
pub flush_streams-IsConserved :
    (max_batch : ℕ) (writev : ℕ → Option ℕ → Bool → List (List ℕ) → Write)
    (socket : ℕ → IoResult × ℕ) (fuel quantum payload start : ℕ) (m : StreamMap) (q : Queued)
    → Obeys writev
    → IsSound m
    → q.n_pkts ≡ 0
    → 0 < max_batch
    → 0 < quantum / payload
    → suc (length m) + quantum / payload < fuel
    → (l : Loop) × (flush_streams max_batch writev socket fuel quantum payload start m q ≡ done l)
      × IsConserved socket l
flush_streams-IsConserved max_batch writev socket fuel quantum payload start m q obeys v e b p h =
    let (l, run, f) =
      flush_streams-done max_batch writev socket fuel quantum payload start m q obeys v e b p h in
    (
      l,
      run,
      (flush_streams-IsLeft max_batch writev socket fuel quantum payload start m q l e run).1,
    )
