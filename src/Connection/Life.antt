-- ===== src/Connection/Life.antt =====
-- src/connection.cpp and src/stream.cpp: the life of a connection, as the calls of ngtcp2, of the event
-- loop and of the application on its streams, one after another.
pub mod Safe
mod Tests
use oxen_libquic.Base.{
  ℕ, suc, ◌+◌, ◌/◌, ◌≤◌, ◌<◌, ◌^◌, ◌≡◌, Bool, Option, some, List, [], ◌∷◌, ◌++◌, length,
}
use oxen_libquic.Base.Outcome.{done}
use oxen_libquic.IoResult.{IoResult}
use oxen_libquic.Endpoint.Packets.{Queued}
use oxen_libquic.Stream.{Stream, close, send}
use oxen_libquic.Stream.Buffers.{Buffer}
use oxen_libquic.Stream.Contents.{contents}
use oxen_libquic.Connection.{
  Connection, Call, Answer, get_new_stream, check_pending_streams, stream_opened, stream_closed,
  stream_ack, stream_receive,
}
use oxen_libquic.Connection.Streams.{StreamMap, find, assign}
use oxen_libquic.Connection.Flush.{Write, Loop, flush_streams}
use oxen_libquic.Connection.Flush.Ends.{Obeys}

-- A stream queues less than 2^64 bytes.
abbrev pub IsInMemory : Stream → Type 0
IsInMemory s = length (contents s.user_buffers) < 2 ^ 64

-- ngtcp2 acknowledges only bytes that it has taken, and takes only bytes that it is offered.
pub data Life {S : Type 0} (release : ℕ → S → S × List Buffer) (empty_front : ℕ)
    : Connection → Connection → Type 0 where
  creates :
      (c : Connection) (data_cb close_cb opened : Option ℕ)
      → Life release empty_front c (get_new_stream c data_cb close_cb opened).0
  opens_pending :
      (c : Connection) (available : ℕ) (opened : List (Option ℕ))
      → Life release empty_front c (check_pending_streams c available opened)
  is_opened :
      (c : Connection) (id app_code : ℕ)
      → Life release empty_front c (stream_opened c id app_code).0
  is_closed :
      (c : Connection) (id app_code : ℕ) (is_local : Bool)
      → Life release empty_front c (stream_closed c id app_code is_local).0
  is_acked :
      (c : Connection) (id size : ℕ) (owner : S) (s : Stream) (r : Connection × S × Answer)
      → find id c.streams ≡ some s
      → size ≤ s.unacked_size
      → stream_ack release (some empty_front) c id size owner ≡ done r
      → ((t : Stream) → find id r.0.streams ≡ some t → IsInMemory t)
      → Life release empty_front c r.0
  receives :
      (c : Connection) (id : ℕ) (bytes : List ℕ) (fin cb_throws : Bool)
      (r : Connection × List Call × Answer)
      → stream_receive c id bytes fin cb_throws ≡ done r
      → Life release empty_front c r.0
  sends :
      (c : Connection) (id : ℕ) (s : Stream) (bytes : List ℕ) (keep_alive : Option ℕ)
      → find id c.streams ≡ some s
      → IsInMemory (send s bytes keep_alive).0
      → Life release empty_front c
          (record c { streams = assign id (send s bytes keep_alive).0 c.streams })
  sends_pending :
      (c : Connection) (before after : List Stream) (s : Stream) (bytes : List ℕ)
      (keep_alive : Option ℕ)
      → c.pending_streams ≡ before ++ s ∷ after
      → IsInMemory (send s bytes keep_alive).0
      → Life release empty_front c
          (record c { pending_streams = before ++ (send s bytes keep_alive).0 ∷ after })
  closes :
      (c : Connection) (id : ℕ) (s : Stream) (code : ℕ)
      → find id c.streams ≡ some s
      → Life release empty_front c (record c { streams = assign id (close s code).0 c.streams })
  closes_pending :
      (c : Connection) (before after : List Stream) (s : Stream) (code : ℕ)
      → c.pending_streams ≡ before ++ s ∷ after
      → Life release empty_front c
          (record c { pending_streams = before ++ (close s code).0 ∷ after })
  flushes :
      (c : Connection) (max_batch : ℕ) (writev : ℕ → Option ℕ → Bool → List (List ℕ) → Write)
      (socket : ℕ → IoResult × ℕ) (fuel quantum payload start : ℕ) (q : Queued) (l : Loop)
      → Obeys writev
      → q.n_pkts ≡ 0
      → 0 < max_batch
      → 0 < quantum / payload
      → suc (length c.streams) + quantum / payload < fuel
      → flush_streams max_batch writev socket fuel quantum payload start c.streams q ≡ done l
      → Life release empty_front c (record c { streams = l.streams })

pub data Lives {S : Type 0} (release : ℕ → S → S × List Buffer) (empty_front : ℕ)
    (start : Connection) : Connection → Type 0 where
  born : Lives release empty_front start start
  then_lives :
      (c d : Connection)
      → Lives release empty_front start c
      → Life release empty_front c d
      → Lives release empty_front start d
