-- ===== src/Connection/Callbacks.antt =====
-- src/connection.cpp: the functions that ngtcp2 calls on the streams of a connection.
use oxen_libquic.Base.{
  ℕ, ◌/◌, ◌%◌, ◌≡◌, refl, ap, ◌∙◌, Bool, true, Option, none, some, List, [], ◌++◌, ◌==◌,
  if◌then◌else◌, append-nil, arith,
}
use oxen_libquic.Base.Outcome.{Outcome}
use oxen_libquic.Stream.{Stream}
use oxen_libquic.Stream.Buffers.{Buffer}
use oxen_libquic.Connection.{
  Connection, Call, Answer, zero_rv, stream_opened, stream_closed, stream_ack, stream_receive,
}
use oxen_libquic.Connection.Streams.{find}
use oxen_libquic.Connection.Streams.Order.{IsOrdered}
use oxen_libquic.Connection.Events.{close_callbacks, streams_granted, stream_closed_lem}

-- `recv_stream_data`: `fin_flag` is NGTCP2_STREAM_DATA_FLAG_FIN, a power of 2.
unfoldable pub recv_stream_data :
    ℕ → Connection → ℕ → ℕ → List ℕ → Bool → Outcome (Connection × List Call × Answer)
recv_stream_data fin_flag c flags stream_id bytes cb_throws =
    stream_receive c stream_id bytes (flags / fin_flag % 2 == 1) cb_throws

module _ {S : Type 0} (release : ℕ → S → S × List Buffer) (empty_front : Option ℕ) where
  unfoldable pub acked_stream_data_offset :
      Connection → ℕ → ℕ → ℕ → S → Outcome (Connection × S × Answer)
  acked_stream_data_offset c stream_id offset datalen owner =
      stream_ack release empty_front c stream_id datalen owner

-- `stream_opened` returns 0 for a stream that is refused, too.
unfoldable pub on_stream_open : Connection → ℕ → ℕ → Connection × List Call × Answer
on_stream_open c stream_id app_code =
    let (c', calls) = stream_opened c stream_id app_code in (c', calls, zero_rv)

unfoldable pub on_stream_close : Connection → ℕ → ℕ → Bool → Connection × List Call × Answer
on_stream_close c stream_id app_error_code is_local =
    let (c', calls) = stream_closed c stream_id app_error_code is_local in (c', calls, zero_rv)

unfoldable pub on_stream_reset : Connection → ℕ → ℕ → Bool → Connection × List Call × Answer
on_stream_reset c stream_id app_error_code is_local =
    let (c', calls) = stream_closed c stream_id app_error_code is_local in (c', calls, zero_rv)

stream_closed_missing :
    (c : Connection) (id app_code : ℕ) (is_local : Bool)
    → find id c.streams ≡ none
    → stream_closed c id app_code is_local ≡ (c, [])
unfolding stream_closed
stream_closed_missing c id app_code is_local e = rw (e, stream_closed) refl

-- In an ordered map, a stream that ngtcp2 reports reset, and then closed: it leaves the map and
-- every other stays; its close callback has run once in all, unless it was closing already; the peer
-- may open one stream more, none if this one was local; the pending streams stay, and neither report
-- is answered with a failure.
pub on_stream_close-on_stream_reset :
    (c : Connection) (id reset_code close_code : ℕ) (is_local : Bool) (s : Stream)
    → IsOrdered c.streams
    → find id c.streams ≡ some s
    → let (c1, calls1, answer1) = on_stream_reset c id reset_code is_local in
      let (c2, calls2, answer2) = on_stream_close c1 id close_code is_local in
      ((k : ℕ) → find k c2.streams ≡ (if k == id then none else find k c.streams))
      × (close_callbacks (calls1 ++ calls2) ≡ (if s.is_closing then 0 else 1))
      × (streams_granted (calls1 ++ calls2) ≡ (if is_local then 0 else 1))
      × (c2.pending_streams ≡ c.pending_streams)
      × (answer1 ≡ zero_rv)
      × (answer2 ≡ zero_rv)
unfolding on_stream_reset on_stream_close
on_stream_close-on_stream_reset c id reset_code close_code is_local s o e =
    let (gone, closes, grants, pending) = stream_closed_lem c id reset_code is_local s o e in
    let c1 : Connection = (stream_closed c id reset_code is_local).0 in
    let calls1 : List Call = (stream_closed c id reset_code is_local).1 in
    let here : (id == id) ≡ true = ground arith in
    let missing : find id c1.streams ≡ none = gone id ∙ rw here refl in
    rw (stream_closed_missing c1 id close_code is_local missing) (
      gone,
      ap close_callbacks (append-nil calls1) ∙ closes,
      ap streams_granted (append-nil calls1) ∙ grants,
      pending,
      refl,
      refl,
    )
