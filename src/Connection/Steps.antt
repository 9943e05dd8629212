-- ===== src/Connection/Steps.antt =====
-- A connection as a state machine: what ngtcp2 and the application do to its streams.
pub mod Wf
pub mod Open
use mathlib.Core.Path.{subst}
use oxen_libquic.Base.{
  ℕ, zero, suc, ◌≡◌, refl, Bool, true, false, Option, none, some, is_some, List, [], ◌∷◌, ◌++◌, ◌∙◌,
  ◌==◌, if◌then◌else◌, All, All-append, inl, inr, Bool-cases, Option-cases, length, arith,
}
use oxen_libquic.Base.Outcome.{Outcome, done, >>=-eq-done, done-injective}
use oxen_libquic.Stream.{
  Stream, acknowledge, send, append_buffer, new_stream, set_ready, set_not_ready, close, shut,
  stream_error_exception,
}
use oxen_libquic.Stream.Buffers.{Buffer, Left, ack_loop, remove_rest}
use oxen_libquic.Connection.{
  Connection, Call, Answer, get_new_stream, open_pending, check_pending_streams, stream_opened,
  stream_closed, stream_ack, stream_receive, receive_by,
}
use oxen_libquic.Connection.Streams.{StreamMap, find, assign}
use oxen_libquic.Connection.Streams.Order.{
  IsEntry, IsOrdered, assign-IsOrdered, emplace-IsOrdered, erase-IsOrdered, find-IsEntry,
}

-- What a step does to the ids: it opens streams, perhaps none, or closes one.
pub data Change : Type 0 where
  opens : List ℕ → Change
  closes : ℕ → Change

abbrev pub id_of : Option ℕ → List ℕ
id_of none = []
id_of (some id) = id ∷ []

-- The ids that ngtcp2 gives the pending streams, up to its first error.
abbrev pub granted : ℕ → List (Option ℕ) → List Stream → List ℕ
granted zero opened ps = []
granted (suc room) opened [] = []
granted (suc room) [] (s ∷ ps) = []
granted (suc room) (none ∷ opened) (s ∷ ps) = []
granted (suc room) (some id ∷ opened) (s ∷ ps) = id ∷ granted room opened ps

-- Whether the open callback, if there is one, takes a stream.
abbrev pub accepted : Option ℕ → ℕ → ℕ → List ℕ
accepted none app_code id = id ∷ []
accepted (some f) zero id = id ∷ []
accepted (some f) (suc code) id = []

-- What the application does to a stream that it has.
pub data Use : Stream → Stream → Type 0 where
  sends : (s : Stream) (bytes : List ℕ) (keep_alive : Option ℕ) → Use s (send s bytes keep_alive).0
  shuts : (s : Stream) (code : ℕ) → Use s (close s code).0

-- The steps, with what the outside gives: each is one call.
pub data Step {S : Type 0} (release : ℕ → S → S × List Buffer) (empty_front : Option ℕ)
    : Connection → Change → Connection → Type 0 where
  new_stream_step :
      (c : Connection) (data_cb close_cb opened : Option ℕ)
      → Step release empty_front c
          (opens (id_of opened))
          (get_new_stream c data_cb close_cb opened).0
  check_pending_step :
      (c : Connection) (available : ℕ) (opened : List (Option ℕ))
      → Step release empty_front c
          (opens (granted available opened c.pending_streams))
          (check_pending_streams c available opened)
  opened_step :
      (c : Connection) (id app_code : ℕ)
      → Step release empty_front c
          (opens (accepted c.context.stream_open_cb app_code id))
          (stream_opened c id app_code).0
  closed_step :
      (c : Connection) (id app_code : ℕ) (is_local : Bool)
      → Step release empty_front c (closes id) (stream_closed c id app_code is_local).0
  ack_step :
      (c : Connection) (id size : ℕ) (owner : S) (r : Connection × S × Answer)
      → stream_ack release empty_front c id size owner ≡ done r
      → Step release empty_front c (opens []) r.0
  receive_step :
      (c : Connection) (id : ℕ) (bytes : List ℕ) (fin cb_throws : Bool)
      (r : Connection × List Call × Answer)
      → stream_receive c id bytes fin cb_throws ≡ done r
      → Step release empty_front c (opens []) r.0
  use_step :
      (c : Connection) (id : ℕ) (s s' : Stream)
      → find id c.streams ≡ some s
      → Use s s'
      → Step release empty_front c (opens []) (record c { streams = assign id s' c.streams })
  use_pending_step :
      (c : Connection) (front back : List Stream) (s s' : Stream)
      → c.pending_streams ≡ front ++ (s ∷ back)
      → Use s s'
      → Step release empty_front c (opens []) (record c { pending_streams = front ++ (s' ∷ back) })

-- Steps one after another, with their changes, the last one first.
pub data Run {S : Type 0} (release : ℕ → S → S × List Buffer) (empty_front : Option ℕ)
    (start : Connection) : List Change → Connection → Type 0 where
  started : Run release empty_front start [] start
  then_step :
      (c d : Connection) (before : List Change) (change : Change)
      → Run release empty_front start before c
      → Step release empty_front c change d
      → Run release empty_front start (change ∷ before) d
