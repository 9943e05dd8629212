-- ===== src/Connection/Life/Safe.antt =====
-- Whatever a connection has lived through, its streams are valid, so that its output loop and its
-- acknowledgements come to an end.
use mathlib.Core.Path.{subst}
use oxen_libquic.Base.{
  ℕ, zero, suc, ◌+◌, ◌/◌, ◌≤◌, ◌<◌, ◌≡◌, refl, sym, ap, ◌∙◌, Bool, true, false, Option, none, some,
  is_some, List, [], ◌∷◌, ◌++◌, ◌==◌, if◌then◌else◌, ltb, length, All, All-append, arith, inl, inr,
  Bool-cases, Option-cases, length-append, length-drop, drop,
}
use oxen_libquic.Base.Outcome.{done, done-injective, Holds, Holds-done}
use oxen_libquic.IoResult.{IoResult}
use oxen_libquic.Endpoint.Packets.{Queued}
use oxen_libquic.Stream.{
  Stream, new_stream, set_ready, set_not_ready, append_buffer, close, shut, send,
}
use oxen_libquic.Stream.Acks.{acknowledge-contents}
use oxen_libquic.Stream.Buffers.{Buffer}
use oxen_libquic.Stream.Contents.{contents, contents-append, IsValid}
use oxen_libquic.Connection.{
  Connection, Call, Answer, zero_rv, get_new_stream, open_pending, check_pending_streams,
  stream_opened, stream_closed, stream_ack, stream_receive, receive_by,
}
use oxen_libquic.Connection.Streams.Order.{find-assign}
use oxen_libquic.Connection.Streams.{StreamMap, find, assign, emplace, erase}
use oxen_libquic.Connection.Flush.{Write, Loop, flush_streams}
use oxen_libquic.Connection.Flush.Sound.{IsSound, find-IsSound, assign-IsSound}
use oxen_libquic.Connection.Flush.Ends.{Obeys, IsFlushed}
use oxen_libquic.Connection.Flush.Total.{flush_streams-done}
use oxen_libquic.Connection.Life.{
  IsInMemory, Life, creates, opens_pending, is_opened, is_closed, is_acked, receives, sends,
  sends_pending, closes, closes_pending, flushes, Lives, born, then_lives,
}

-- Every stream of the connection is valid.
abbrev pub IsSafe : Connection → Type 0
IsSafe c = IsSound c.streams × All IsValid c.pending_streams

emplace-IsSound :
    (id : ℕ) (s : Stream) (m : StreamMap) → IsValid s → IsSound m → IsSound (emplace id s m)
unfolding emplace
emplace-IsSound id s [] w v = (w, tt)
emplace-IsSound id s ((k, t) ∷ m) w v = elim (Bool-cases (id == k)) [
  | inl here ↦ rw here v
  | inr other ↦ elim (Bool-cases (ltb id k)) [
    | inl before ↦ rw (other, before) (w, v)
    | inr after ↦ rw (other, after) (v.0, emplace-IsSound id s m w v.1)
  ]
]

erase-IsSound : (id : ℕ) (m : StreamMap) → IsSound m → IsSound (erase id m)
unfolding erase
erase-IsSound id [] v = tt
erase-IsSound id ((k, t) ∷ m) v = elim (Bool-cases (k == id)) [
  | inl here ↦ rw here v.1
  | inr other ↦ rw other (v.0, erase-IsSound id m v.1)
]

get_new_stream-IsSafe :
    (c : Connection) (data_cb close_cb opened : Option ℕ)
    → IsSafe c
    → IsSafe (get_new_stream c data_cb close_cb opened).0
unfolding get_new_stream set_ready set_not_ready new_stream
get_new_stream-IsSafe c data_cb close_cb none (m, p) = (
  m,
  All-append IsValid c.pending_streams _ p
      (record { in_queue = omega arith; fits = omega arith }, tt),
)
get_new_stream-IsSafe c data_cb close_cb (some id) (m, p) =
    (assign-IsSound id _ c.streams (record { in_queue = omega arith; fits = omega arith }) m, p)

open_pending-IsSafe :
    (room : ℕ) (opened : List (Option ℕ)) (m : StreamMap) (ps : List Stream)
    → IsSound m
    → All IsValid ps
    → let (m', ps') = open_pending room opened m ps in IsSound m' × All IsValid ps'
unfolding open_pending set_ready
open_pending-IsSafe zero opened m ps o p = (o, p)
open_pending-IsSafe (suc room) opened m [] o p = (o, tt)
open_pending-IsSafe (suc room) [] m (s ∷ ps) o p = (o, p)
open_pending-IsSafe (suc room) (none ∷ opened) m (s ∷ ps) o p = (o, p)
open_pending-IsSafe (suc room) (some id ∷ opened) m (s ∷ ps) o p =
    open_pending-IsSafe room opened _ ps
      (assign-IsSound id _ m (record { in_queue = p.0.in_queue; fits = p.0.fits }) o) p.1

stream_opened-IsSafe :
    (c : Connection) (id app_code : ℕ) → IsSafe c → IsSafe (stream_opened c id app_code).0
unfolding stream_opened set_ready new_stream
stream_opened-IsSafe c id app_code (o, p) =
    elim (Bool-cases ((if is_some c.context.stream_open_cb then app_code else 0) == 0)) [
      | inl ok ↦ rw ok (
        emplace-IsSound id _ c.streams (record { in_queue = omega arith; fits = omega arith }) o,
        p,
      )
      | inr refused ↦ rw refused (o, p)
    ]

stream_closed-IsSafe :
    (c : Connection) (id app_code : ℕ) (is_local : Bool)
    → IsSafe c
    → IsSafe (stream_closed c id app_code is_local).0
unfolding stream_closed
stream_closed-IsSafe c id app_code is_local (o, p) = elim (Option-cases (find id c.streams)) [
  | inl e ↦ rw (e, stream_closed) (o, p)
  | inr (s, e) ↦ rw (e, stream_closed) (erase-IsSound id c.streams o, p)
]

close-IsValid : (s : Stream) (code : ℕ) → IsValid s → IsValid (close s code).0
unfolding close shut
close-IsValid s code v = elim (Bool-cases s.is_shutdown) [
  | inl down ↦ rw (down, close) (record { in_queue = v.in_queue; fits = v.fits })
  | inr up ↦ elim (Bool-cases s.is_closing) [
    | inl shutting ↦ rw (up, shutting) (record { in_queue = v.in_queue; fits = v.fits })
    | inr open_yet ↦ rw (up, open_yet) (record { in_queue = v.in_queue; fits = v.fits })
  ]
]

send-IsValid :
    (s : Stream) (bytes : List ℕ) (keep_alive : Option ℕ)
    → IsValid s
    → IsInMemory (send s bytes keep_alive).0
    → IsValid (send s bytes keep_alive).0
unfolding send append_buffer
send-IsValid s bytes keep_alive v h = record {
  in_queue = omega (
    arith,
    v.in_queue,
    ap length
        (contents-append s.user_buffers (record { view = bytes; keep_alive = keep_alive } ∷ [])),
    length-append (contents s.user_buffers)
        (contents (record { view = bytes; keep_alive = keep_alive } ∷ [])),
  );
  fits = h;
}

-- A stream among others that changes.
All-change :
    (before after : List Stream) (s t : Stream)
    → All IsValid (before ++ s ∷ after)
    → (IsValid s → IsValid t)
    → All IsValid (before ++ t ∷ after)
All-change [] after s t (v, p) f = (f v, p)
All-change (b ∷ before) after s t (v, p) f = (v, All-change before after s t p f)

receive_by-IsSafe :
    (c : Connection) (id : ℕ) (s : Stream) (cb : Option ℕ) (bytes : List ℕ) (fin cb_throws : Bool)
    → IsValid s
    → IsSafe c
    → IsSafe (receive_by c id s cb bytes fin cb_throws).0
unfolding receive_by
receive_by-IsSafe c id s none bytes fin cb_throws v w = w
receive_by-IsSafe c id s (some f) bytes fin true v (m, p) =
    (assign-IsSound id _ c.streams (close-IsValid s _ v) m, p)
receive_by-IsSafe c id s (some f) bytes fin false v w = w

stream_receive-IsSafe :
    (c : Connection) (id : ℕ) (bytes : List ℕ) (fin cb_throws : Bool)
    → IsSafe c
    → Holds (λ r. IsSafe r.0) (stream_receive c id bytes fin cb_throws)
unfolding stream_receive
stream_receive-IsSafe c id bytes fin cb_throws (m, p) = elim (Option-cases (find id c.streams)) [
  | inl e ↦ rw (e, stream_receive, Holds) tt
  | inr (s, e) ↦
      rw (e, stream_receive, Holds)
        (receive_by-IsSafe c id s s.data_callback bytes fin cb_throws
          (find-IsSound id c.streams s m e) (m, p))
]

module _ {S : Type 0} (release : ℕ → S → S × List Buffer) (k : ℕ) where
  -- An acknowledgement of bytes in flight comes to an end, and what it leaves of the stream is valid
  -- where it is in memory.
  stream_ack-done :
      (c : Connection) (id size : ℕ) (owner : S) (s : Stream)
      → find id c.streams ≡ some s
      → IsSafe c
      → size ≤ s.unacked_size
      → (s' : Stream) × (o : S) × (a : Answer) × (stream_ack release (some k) c id size owner
          ≡ done (record c { streams = assign id s' c.streams }, o, a))
        × (s'.unacked_size ≤ length (contents s'.user_buffers))
  unfolding stream_ack
  stream_ack-done c id size owner s e (m, p) h =
      let v : IsValid s = find-IsSound id c.streams s m e in
      let (s', l, a, b, u, _) =
        acknowledge-contents release k s size (suc (length s.user_buffers)) owner v h
          (omega arith) in
      (
        s',
        l.owner,
        zero_rv,
        rw (e, stream_ack) (rw a refl),
        omega (
          arith,
          v.in_queue,
          ap length b,
          length-append (drop size (contents s.user_buffers)) (contents l.appended),
          length-drop size (contents s.user_buffers),
        ),
      )

  Life-IsSafe : (c d : Connection) → Life release k c d → IsSafe c → IsSafe d
  unfolding check_pending_streams
  Life-IsSafe c _ (creates _ data_cb close_cb opened) w =
      get_new_stream-IsSafe c data_cb close_cb opened w
  Life-IsSafe c _ (opens_pending _ available opened) (m, p) =
      open_pending-IsSafe available opened c.streams c.pending_streams m p
  Life-IsSafe c _ (is_opened _ id app_code) w = stream_opened-IsSafe c id app_code w
  Life-IsSafe c _ (is_closed _ id app_code is_local) w =
      stream_closed-IsSafe c id app_code is_local w
  Life-IsSafe c _ (is_acked _ id size owner s r e h done_r memory) (m, p) =
      let (s', o, a, q, u) = stream_ack-done c id size owner s e (m, p) h in
      let same : record c { streams = assign id s' c.streams } ≡ r.0 =
        ap (λ (x : Connection × S × Answer). x.0) (done-injective (sym q ∙ done_r)) in
      let fits : IsInMemory s' =
        memory s'
          (ap (λ (x : Connection). find id x.streams) (sym same) ∙ find-assign id s' c.streams) in
      subst IsSafe same (assign-IsSound id s' c.streams (record { in_queue = u; fits = fits }) m, p)
  Life-IsSafe c _ (receives _ id bytes fin cb_throws r h) w =
      Holds-done (λ (x : Connection × List Call × Answer). IsSafe x.0) _ r
        (stream_receive-IsSafe c id bytes fin cb_throws w) h
  Life-IsSafe c _ (sends _ id s bytes keep_alive e h) (m, p) = (
    assign-IsSound id _ c.streams
        (send-IsValid s bytes keep_alive (find-IsSound id c.streams s m e) h) m,
    p,
  )
  Life-IsSafe c _ (sends_pending _ before after s bytes keep_alive e h) (m, p) = (
    m,
    All-change before after s _ (subst (All IsValid) e p)
        (λ v. send-IsValid s bytes keep_alive v h),
  )
  Life-IsSafe c _ (closes _ id s code e) (m, p) =
      (assign-IsSound id _ c.streams (close-IsValid s code (find-IsSound id c.streams s m e)) m, p)
  Life-IsSafe c _ (closes_pending _ before after s code e) (m, p) =
      (m, All-change before after s _ (subst (All IsValid) e p) (λ v. close-IsValid s code v))
  Life-IsSafe c _ (flushes _ max_batch writev socket fuel quantum payload start q l o n b i f h)
        (m, p) =
      let (l', e, flushed) =
        flush_streams-done max_batch writev socket fuel quantum payload start c.streams q o m n b i
          f in
      let same : l' ≡ l = done-injective (sym e ∙ h) in
      (subst (λ (x : Loop). IsSound x.streams) same flushed.0.0, p)

  Lives-IsSafe : (first c : Connection) → Lives release k first c → IsSafe first → IsSafe c
  Lives-IsSafe first _ born w = w
  Lives-IsSafe first _ (then_lives c d r l) w = Life-IsSafe c d l (Lives-IsSafe first c r w)

-- Through every history of calls of ngtcp2, of the event loop and of the application, from a connection
-- with no streams: the next call of `flush_streams` with an empty batch comes to an end, as
-- `IsFlushed` says, and so does the next acknowledgement of bytes that are in flight on a stream of the
-- map, which keeps no more bytes unacknowledged than the stream holds. ngtcp2 takes no more than it is
-- offered, and acknowledges no more than it has taken; no stream holds 2^64 bytes.
pub Lives-flush_streams :
    {S : Type 0} (release : ℕ → S → S × List Buffer) (k : ℕ) (first c : Connection) (max_batch : ℕ)
    (writev : ℕ → Option ℕ → Bool → List (List ℕ) → Write) (socket : ℕ → IoResult × ℕ)
    (fuel quantum payload start : ℕ) (q : Queued) (id size : ℕ) (owner : S) (s : Stream)
    → first.streams ≡ []
    → first.pending_streams ≡ []
    → Lives release k first c
    → Obeys writev
    → q.n_pkts ≡ 0
    → 0 < max_batch
    → 0 < quantum / payload
    → suc (length c.streams) + quantum / payload < fuel
    → find id c.streams ≡ some s
    → size ≤ s.unacked_size
    → ((l : Loop) × (flush_streams max_batch writev socket fuel quantum payload start c.streams q
          ≡ done l)
        × IsFlushed max_batch c.streams l)
      × ((s' : Stream) × (o : S) × (a : Answer) × (stream_ack release (some k) c id size owner
            ≡ done (record c { streams = assign id s' c.streams }, o, a))
          × (s'.unacked_size ≤ length (contents s'.user_buffers)))
Lives-flush_streams release k first c max_batch writev socket fuel quantum payload start q id size
      owner s m p lives o n b i f e h =
    let w : IsSafe c = Lives-IsSafe release k first c lives (rw (m, p) (tt, tt)) in
    (
      flush_streams-done max_batch writev socket fuel quantum payload start c.streams q o w.0 n b i
          f,
      stream_ack-done release k c id size owner s e w h,
    )
