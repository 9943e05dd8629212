-- ===== src/Connection/Flush/Ends.antt =====
-- The loop of `flush_streams` ends, and what it leaves behind.
use mathlib.Core.Path.{subst}
use oxen_libquic.Base.{
  ◌++◌, ℕ, suc, ◌+◌, ◌-◌, ◌≤◌, ◌<◌, ◌≡◌, refl, sym, ap, ◌∙◌, Bool, true, false, Option, none, some,
  List, [], ◌∷◌, ◌==◌, ltb, if◌then◌else◌, length, length-append, length-drop, arith, inl, inr, ◌⊎◌,
  Bool-cases, Option-cases, some-injective, drop,
}
use oxen_libquic.Base.Outcome.{done}
use oxen_libquic.IoResult.{IoResult}
use oxen_libquic.Stream.{Stream, unsent}
use oxen_libquic.Stream.Contents.{contents, concat, IsValid}
use oxen_libquic.Stream.Pending.{pending-contents}
use oxen_libquic.Connection.Streams.{StreamMap, find, assign}
use oxen_libquic.Connection.Streams.Order.{find-assign}
use oxen_libquic.Connection.Flush.{
  Write, write_more, write_error, congested, packet, Loop, Next, continue_loop, break_loop,
  return_now, took, send_batch, queue, requeue, after_packet, after_write, call_ngtcp2,
  visit_stream, sends_fin, no_bytes, body,
}
use oxen_libquic.Connection.Flush.Sound.{
  find-IsSound, IsFrom, assign-IsFrom, Fits, took-IsFrom, Sent, send_batch-Sent,
  length-insert_before_last, length-only_last,
}

-- The bytes of the stream that a result of ngtcp2 has taken.
abbrev pub taken : Write → ℕ
taken (write_more n) = n
taken write_error = 0
taken congested = 0
taken (packet bytes n) = n

-- ngtcp2 takes no more than it is offered.
abbrev pub Obeys : (ℕ → Option ℕ → Bool → List (List ℕ) → Write) → Type 0
Obeys writev =
    (k : ℕ) (who : Option ℕ) (fin : Bool) (bufs : List (List ℕ))
    → taken (writev k who fin bufs) ≤ length (concat bufs)

-- The streams are valid, the batch fits its arrays, and packets are left in it only while a callback
-- waits for the socket.
abbrev pub IsFlushed : ℕ → StreamMap → Loop → Type 0
IsFlushed max_batch first l =
    IsFrom first l.streams
    × (l.queued.n_pkts ≤ max_batch)
    × ((l.queued.n_pkts ≡ 0) ⊎ (l.waiting ≡ true))

module _ (max_batch : ℕ) (writev : ℕ → Option ℕ → Bool → List (List ℕ) → Write)
    (socket : ℕ → IoResult × ℕ) (max_packets : ℕ) (first : StreamMap) where
  -- The state at the loop's test: there is room for a packet.
  abbrev pub Runs : Loop → Type 0
  Runs l = IsFrom first l.streams × (l.stream_packets < max_packets) × (l.queued.n_pkts < max_batch)

  -- What bounds the passes that are left.
  abbrev pub size : Loop → ℕ
  size l = length l.strs + (max_packets - l.stream_packets)

  abbrev pub Ends : ℕ → Next → Type 0
  Ends k (continue_loop l) = Runs l × (size l ≤ k)
  Ends k (break_loop l) = IsFrom first l.streams × (l.queued.n_pkts < max_batch)
  Ends k (return_now l) = IsFlushed max_batch first l

  requeue-Ends :
      (l : Loop) (who : Option ℕ) (k : ℕ)
      → Runs l
      → suc (size l) ≤ k
      → Ends k (continue_loop (requeue l who))
  unfolding requeue
  requeue-Ends l none k r h = (r, omega (arith, length-append l.strs (none ∷ [])))
  requeue-Ends l (some id) k r h = elim (Option-cases (find id l.streams)) [
    | inl e ↦ rw (e, requeue) (r, omega arith)
    | inr (s, e) ↦ elim (Bool-cases (ltb 0 (unsent s))) [
      | inl more ↦
          rw (e, more, requeue) (r, omega (arith, length-insert_before_last (some id) l.strs))
      | inr all ↦ rw (e, all, requeue) (r, omega arith)
    ]
  ]

  -- From the test for the number of packets on, in a loop that has room in its batch.
  limit-Ends :
      (l : Loop) (who : Option ℕ) (k : ℕ)
      → IsFrom first l.streams
      → l.queued.n_pkts < max_batch
      → l.stream_packets ≤ max_packets
      → suc (size l) ≤ k
      → Ends k
          (if l.stream_packets == max_packets then break_loop l else continue_loop (requeue l who))
  limit-Ends l who k v b p h = elim (Bool-cases (l.stream_packets == max_packets)) [
    | inl full ↦ rw full (v, b)
    | inr room ↦ rw room (requeue-Ends l who k (v, ground arith, b) h)
  ]

  after_packet-Ends :
      (l : Loop) (who : Option ℕ) (k : ℕ)
      → IsFrom first l.streams
      → l.queued.n_pkts ≤ max_batch
      → 0 < max_batch
      → l.stream_packets ≤ max_packets
      → suc (size l) ≤ k
      → Ends k (after_packet max_batch writev socket max_packets l who)
  unfolding after_packet
  after_packet-Ends l who k v b pos_b p h = elim (Bool-cases (l.queued.n_pkts == max_batch)) [
    | inr room ↦ rw room (limit-Ends l who k v (ground arith) p h)
    | inl full ↦
        let sent : Sent l (send_batch l (socket l.sends)) = send_batch-Sent l (socket l.sends) in
        let l' : Loop = (send_batch l (socket l.sends)).1 in
        let strs : length l'.strs ≡ length l.strs = ap (λ (x : Loop). length x.strs) sent.same in
        let count : l'.stream_packets ≡ l.stream_packets =
          ap (λ (x : Loop). x.stream_packets) sent.same in
        let sound : IsFrom first l'.streams =
          subst (λ (x : Loop). IsFrom first x.streams) (sym sent.same) v in
        elim (Bool-cases (send_batch l (socket l.sends)).0) [
          | inl go_on ↦
              rw (full, go_on)
                (limit-Ends l' who k sound (omega (arith, sent.emptied go_on)) (omega arith)
                  (omega arith))
          | inr stop ↦ rw (full, stop) (sound, omega (arith, sent.fewer), sent.left)
        ]
  ]

  after_write-Ends :
      (l : Loop) (who : Option ℕ) (w : Write) (k : ℕ)
      → Runs l
      → Fits who (taken w) l.streams
      → size l ≤ k
      → Ends k (after_write max_batch writev socket max_packets l who w)
  unfolding after_write
  after_write-Ends l who (write_more n) k r f h =
      ((took-IsFrom first who n l.streams r.0 f, r.1, r.2), h)
  after_write-Ends l who write_error k r f h = (r, h)
  after_write-Ends l none congested k r f h = (r, h)
  after_write-Ends l (some id) congested k r f h = (r, omega (arith, length-only_last l.strs))
  after_write-Ends l who (packet bytes n) k r f h =
      after_packet-Ends
        (record l {
          streams = took who n l.streams;
          queued = queue l.queued l.buf_pos bytes;
          buf_pos = l.buf_pos + length bytes;
          written = l.written ++ (bytes ∷ []);
          stream_packets = suc l.stream_packets;
        })
        who k (took-IsFrom first who n l.streams r.0 f) (omega (arith, r)) (omega (arith, r))
        (omega (arith, r)) (omega (arith, r))

  module _ (obeys : Obeys writev) where
    call_ngtcp2-Ends :
        (l : Loop) (who : Option ℕ) (fin : Bool) (bufs : List (List ℕ)) (k : ℕ)
        → Runs l
        → ((n : ℕ) → n ≤ length (concat bufs) → Fits who n l.streams)
        → size l ≤ k
        → Ends k (call_ngtcp2 max_batch writev socket max_packets l who fin bufs)
    unfolding call_ngtcp2
    call_ngtcp2-Ends l who fin bufs k r f h =
        after_write-Ends (record l { writes = suc l.writes }) who (writev l.writes who fin bufs) k r
          (f _ (obeys l.writes who fin bufs)) h

    visit_stream-Ends :
        (l : Loop) (id : ℕ) (s : Stream) (bufs : List (List ℕ)) (k : ℕ)
        → Runs l
        → find id l.streams ≡ some s
        → concat bufs ≡ drop s.unacked_size (contents s.user_buffers)
        → size l ≤ k
        → Ends k (visit_stream max_batch writev socket max_packets l id s bufs)
    unfolding visit_stream
    visit_stream-Ends l id s bufs k r e c h =
        let v : IsValid s = find-IsSound id l.streams s r.0.0 e in
        let s' : Stream = record s { sent_fin = true } in
        let m' : StreamMap = assign id s' l.streams in
        let room : (n : ℕ)
            → n ≤ length (concat bufs)
            → s.unacked_size + n ≤ length (contents s.user_buffers) =
          λ n b. omega (
            arith,
            v.in_queue,
            ap length c,
            length-drop s.unacked_size (contents s.user_buffers),
          ) in
        elim (Bool-cases (sends_fin s)) [
          | inl fin ↦ rw fin (
              call_ngtcp2-Ends (record l { streams = m' }) (some id) true bufs k
                (
                  assign-IsFrom first l.streams id s s' r.0 e
                      (record { in_queue = v.in_queue; fits = v.fits }) refl (omega arith),
                  r.1,
                  r.2,
                )
                (λ n b t f.
                  subst (λ (x : Stream). x.unacked_size + n ≤ length (contents x.user_buffers))
                    (some-injective (sym (find-assign id s' l.streams) ∙ f)) (room n b))
                h)
          | inr not_fin ↦ elim (Bool-cases (no_bytes bufs)) [
            | inl empty ↦ rw (not_fin, empty) (r, h)
            | inr some_bytes ↦
                rw (not_fin, some_bytes)
                  (call_ngtcp2-Ends l (some id) false bufs k r
                    (λ n b t f.
                      subst (λ (x : Stream). x.unacked_size + n ≤ length (contents x.user_buffers))
                        (some-injective (sym e ∙ f)) (room n b))
                    h)
          ]
        ]

    -- A pass is defined, and leaves fewer passes.
    pub body-Ends :
        (l : Loop) (who : Option ℕ) (k : ℕ)
        → Runs l
        → size l ≤ k
        → (n : Next) × (body max_batch writev socket max_packets l who ≡ done n) × Ends k n
    unfolding body
    body-Ends l none k r h = (
      call_ngtcp2 max_batch writev socket max_packets l none false [],
      refl,
      call_ngtcp2-Ends l none false [] k r (λ n b. tt) h,
    )
    body-Ends l (some id) k r h = elim (Option-cases (find id l.streams)) [
      | inl e ↦ (continue_loop l, rw (e, body) refl, (r, h))
      | inr (s, e) ↦
          let (bufs, p, c) = pending-contents s (find-IsSound id l.streams s r.0.0 e) in
          (
            visit_stream max_batch writev socket max_packets l id s bufs,
            rw (e, p, body) refl,
            visit_stream-Ends l id s bufs k r e c h,
          )
    ]
