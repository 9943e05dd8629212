-- ===== src/Connection.antt =====
-- src/connection.cpp and include/quic/connection.hpp: the class Connection, without its output
-- (`Connection.Flush`). What ngtcp2 and the user's callbacks give is an argument.
pub mod Streams
pub mod Flush
pub mod Steps
pub mod Pending
pub mod Events
pub mod Callbacks
pub mod Timer
pub mod Setup
pub mod Life
mod Tests
use oxen_libquic.Base.{
  ℕ, zero, suc, ◌+◌, Bool, true, false, not, Option, none, some, is_some, List, [], ◌∷◌, ◌++◌, ◌==◌,
  ltb, if◌then◌else◌, length,
}
use oxen_libquic.Base.Int.{ℤ, pos, negsuc}
use oxen_libquic.Base.Outcome.{Outcome, done, throws, ◌>>=◌}
use oxen_libquic.Stream.Buffers.{Buffer, Left}
use oxen_libquic.Context.{Context}
use oxen_libquic.Stream.{
  Stream, Effect, io_ready, run_close_callback, new_stream, set_ready, set_not_ready, close,
  destroy, acknowledge, stream_error_exception,
}
use Streams.{StreamMap, find, assign, emplace, erase}

-- The part of a Connection that its stream functions use.
pub record Connection : Type 0 where
  pub context : Context
  pub streams : StreamMap
  pub pending_streams : List Stream

-- What a call of a function does to ngtcp2 and to the event loop.
pub data Call : Type 0 where
  of_stream : Effect → Call
  extend_max_streams : Call
  extend_max_stream_offset : ℕ → ℕ → Call
  extend_max_offset : ℕ → Call
  data_callback : ℕ → List ℕ → Call

abbrev pub of_streams : List Effect → List Call
of_streams [] = []
of_streams (e ∷ es) = of_stream e ∷ of_streams es

abbrev or_default : Option ℕ → Option ℕ → Option ℕ
or_default none d = d
or_default (some f) d = some f

-- `get_new_stream`; `opened` is the id from ngtcp2_conn_open_bidi_stream, or `none` for an error.
unfoldable pub get_new_stream : Connection → Option ℕ → Option ℕ → Option ℕ → Connection × Stream
get_new_stream c data_cb close_cb opened =
    let s = new_stream (or_default data_cb c.context.stream_data_cb) close_cb (negsuc 0) in
    elim opened [
      | none ↦ (
        record c { pending_streams = c.pending_streams ++ (set_not_ready s ∷ []) },
        set_not_ready s,
      )
      | some id ↦
          let s' = set_ready (record s { stream_id = pos id }) in
          (record c { streams = assign id s' c.streams }, s')
    ]

-- The loop of `check_pending_streams` over `pending_streams`: `room` is `available - popped`, and the
-- list holds what ngtcp2_conn_open_bidi_stream gives call after call.
unfoldable pub open_pending :
    ℕ → List (Option ℕ) → StreamMap → List Stream → StreamMap × List Stream
open_pending zero opened m ps = (m, ps)
open_pending (suc room) opened m [] = (m, [])
open_pending (suc room) [] m (s ∷ ps) = (m, s ∷ ps)
open_pending (suc room) (none ∷ opened) m (s ∷ ps) = (m, s ∷ ps)
open_pending (suc room) (some id ∷ opened) m (s ∷ ps) =
    open_pending room opened (assign id (set_ready (record s { stream_id = pos id })) m) ps

unfoldable pub check_pending_streams : Connection → ℕ → List (Option ℕ) → Connection
check_pending_streams c available opened =
    let (m, ps) = open_pending available opened c.streams c.pending_streams in
    record c { streams = m; pending_streams = ps }

-- `stream_opened`; `app_code` is what the open callback returns. A stream that is refused is closed
-- and destroyed.
unfoldable pub stream_opened : Connection → ℕ → ℕ → Connection × List Call
stream_opened c id app_code =
    let s = set_ready (new_stream c.context.stream_data_cb c.context.stream_close_cb (pos id)) in
    let code = if is_some c.context.stream_open_cb then app_code else 0 in
    if code == 0
    then (record c { streams = emplace id s c.streams }, [])
    else let (s', es) = close s code in (c, of_streams (es ++ destroy s'))

-- `stream_closed`; `local` is ngtcp2_conn_is_local_stream.
unfoldable pub stream_closed : Connection → ℕ → ℕ → Bool → Connection × List Call
stream_closed c id app_code is_local = elim (find id c.streams) [
  | none ↦ (c, [])
  | some s ↦ (
    record c { streams = erase id c.streams },
    of_streams (
          (if s.is_closing
            then []
            else run_close_callback s.close_callback s.stream_id app_code ∷ [])
          ++ destroy (record s { is_closing = true; is_shutdown = true }))
        ++ (if is_local then [] else extend_max_streams ∷ [])
        ++ (of_stream io_ready ∷ []),
  )
]

-- Whether a callback of ngtcp2 answers NGTCP2_ERR_CALLBACK_FAILURE.
pub data Answer : Type 0 where
  zero_rv callback_failure : Answer

module _ {S : Type 0} (release : ℕ → S → S × List Buffer) (empty_front : Option ℕ) where
  -- `stream_ack`.
  unfoldable pub stream_ack : Connection → ℕ → ℕ → S → Outcome (Connection × S × Answer)
  stream_ack c id size owner = elim (find id c.streams) [
    | none ↦ done (c, owner, callback_failure)
    | some s ↦ acknowledge release empty_front (suc (length s.user_buffers)) s size owner >>= λ r.
        done (record c { streams = assign id r.0 c.streams }, r.1.owner, zero_rv)
  ]

abbrev pub extend : ℕ → List ℕ → Bool → List Call
extend id bytes fin =
    if fin
    then []
    else extend_max_stream_offset id (length bytes) ∷ extend_max_offset (length bytes) ∷ []

-- The call of the data callback; `cb_throws` is whether it raises.
unfoldable pub receive_by :
    Connection → ℕ → Stream → Option ℕ → List ℕ → Bool → Bool → Connection × List Call × Answer
receive_by c id s none bytes fin cb_throws = (c, extend id bytes fin, zero_rv)
receive_by c id s (some f) bytes fin cb_throws =
    let (s', es) = close s stream_error_exception in
    if cb_throws
    then (
      record c { streams = assign id s' c.streams },
      data_callback f bytes ∷ of_streams es,
      callback_failure,
    )
    else (c, data_callback f bytes ∷ extend id bytes fin, zero_rv)

-- `stream_receive`: `streams.at` throws for an id that is not there.
unfoldable pub stream_receive :
    Connection → ℕ → List ℕ → Bool → Bool → Outcome (Connection × List Call × Answer)
unfolding receive_by
stream_receive c id bytes fin cb_throws = elim (find id c.streams) [
  | none ↦ throws
  | some s ↦ done (receive_by c id s s.data_callback bytes fin cb_throws)
]
