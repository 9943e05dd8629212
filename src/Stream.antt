-- ===== src/Stream.antt =====
-- src/stream.cpp and include/quic/stream.hpp: the class Stream. A method returns the new stream and
-- what it calls of the connection and of ngtcp2, in order.
pub mod Buffers
pub mod Contents
pub mod Pending
pub mod Acks
pub mod Window
pub mod Chunks
pub mod Emptied
pub mod Closing
mod Tests
use oxen_libquic.Base.{
  ℕ, suc, ◌+◌, ◌-◌, ◌^◌, Bool, true, false, not, ◌&&◌, ◌||◌, Option, none, some, List, [], ◌∷◌,
  ◌++◌, ◌==◌, if◌then◌else◌, length, add_size, sub_size,
}
use oxen_libquic.Base.Int.{ℤ}
use oxen_libquic.Base.Outcome.{Outcome, done, ◌>>=◌}
use Buffers.{Buffer, Left, size, get_buffer_it, from_iterator, ack_loop, remove_rest}

-- `close_callback`: the user's function, by a number, or the one that the constructor puts in and
-- which only logs.
pub data CloseCallback : Type 0 where
  user_cb : ℕ → CloseCallback
  log_only : CloseCallback

pub record Stream : Type 0 where
  pub stream_id : ℤ
  pub data_callback : Option ℕ
  pub close_callback : CloseCallback
  pub user_buffers : List Buffer
  pub unacked_size : ℕ
  pub is_closing : Bool
  pub is_shutdown : Bool
  pub sent_fin : Bool
  pub ready : Bool

-- What a stream does to its surroundings.
pub data Effect : Type 0 where
  io_ready : Effect
  shutdown_stream : ℤ → ℕ → Effect
  run_close_callback : CloseCallback → ℤ → ℕ → Effect

abbrev pub stream_error_exception : ℕ
stream_error_exception = 2 ^ 62 - 2

abbrev pub stream_error_connection_expired : ℕ
stream_error_connection_expired = 2 ^ 62 + 1

abbrev close_or_log : Option ℕ → CloseCallback
close_or_log none = log_only
close_or_log (some f) = user_cb f

-- `Stream::Stream`.
unfoldable pub new_stream : Option ℕ → Option ℕ → ℤ → Stream
new_stream data_cb close_cb id = record {
  stream_id = id;
  data_callback = data_cb;
  close_callback = close_or_log close_cb;
  user_buffers = [];
  unacked_size = 0;
  is_closing = false;
  is_shutdown = false;
  sent_fin = false;
  ready = false;
}

-- `Stream::~Stream`: what it calls.
unfoldable pub destroy : Stream → List Effect
destroy s =
    if not s.is_closing
    then run_close_callback s.close_callback s.stream_id stream_error_connection_expired ∷ []
    else []

unfoldable pub available : Stream → Bool
available s = not (s.is_closing || s.is_shutdown || s.sent_fin)

unfoldable pub unsent : Stream → ℕ
unsent s = sub_size (size s.user_buffers) s.unacked_size

unfoldable pub set_ready : Stream → Stream
set_ready s = record s { ready = true }

unfoldable pub set_not_ready : Stream → Stream
set_not_ready s = record s { ready = false }

-- `Stream::close`, in the event loop.
unfoldable pub shut : Stream → ℕ → Stream × List Effect
shut s code =
    if s.is_shutdown
    then (s, [])
    else if s.is_closing
    then (s, [])
    else (record s { is_closing = true; is_shutdown = true }, shutdown_stream s.stream_id code ∷ [])

unfoldable pub close : Stream → ℕ → Stream × List Effect
unfolding shut
close s code =
    let (s', es) = shut s code in
    (
      record s' { data_callback = if s'.is_shutdown then none else s'.data_callback },
      es ++ (io_ready ∷ []),
    )

unfoldable pub append_buffer : Stream → Buffer → Stream × List Effect
append_buffer s b =
    (record s { user_buffers = s.user_buffers ++ (b ∷ []) }, if s.ready then io_ready ∷ [] else [])

-- `Stream::send`, in the event loop.
unfoldable pub send : Stream → List ℕ → Option ℕ → Stream × List Effect
unfolding append_buffer
send s bytes keep_alive = append_buffer s (record { view = bytes; keep_alive = keep_alive })

unfoldable pub wrote : Stream → ℕ → Stream
wrote s bytes = record s { unacked_size = add_size s.unacked_size bytes }

is_empty : List Buffer → Bool
is_empty [] = true
is_empty (b ∷ bs) = false

-- `Stream::pending`.
unfoldable pub pending : Stream → Outcome (List (List ℕ))
unfolding unsent is_empty
pending s =
    if is_empty s.user_buffers || (unsent s == 0)
    then done []
    else get_buffer_it s.user_buffers s.unacked_size >>= from_iterator

module _ {S : Type 0} (release : ℕ → S → S × List Buffer) (empty_front : Option ℕ) where
  -- `Stream::acknowledge`; the fuel is for its loop.
  unfoldable pub acknowledge : ℕ → Stream → ℕ → S → Outcome (Stream × Left S)
  acknowledge fuel s bytes owner =
      ack_loop release empty_front fuel s.user_buffers bytes owner [] >>= λ l.
      remove_rest l l.bufs >>= λ l'.
      done (record s { user_buffers = l'.bufs; unacked_size = sub_size s.unacked_size bytes }, l')
