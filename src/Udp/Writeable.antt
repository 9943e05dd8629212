-- ===== src/Udp/Writeable.antt =====
-- src/udp.cpp: `UDPSocket::when_writeable` and the handler of the event `wev_`. Each call of
-- `when_writeable` has a callback of its own, known by its number.
pub mod Order
use oxen_libquic.Base.{ℕ, Bool, true, false, List, [], ◌∷◌, ◌++◌, ◌≡◌}

-- `writeable_callbacks_`, and whether `wev_` has been added and has not fired since.
pub record Writer : Type 0 where
  pub writeable_callbacks : List ℕ
  pub armed : Bool

abbrev pub new_writer : Writer
new_writer = record { writeable_callbacks = []; armed = false }

unfoldable pub when_writeable : Writer → ℕ → Writer
when_writeable w cb = record {
  writeable_callbacks = w.writeable_callbacks ++ (cb ∷ []);
  armed = true;
}

abbrev pub when_writeable_each : Writer → List ℕ → Writer
when_writeable_each w [] = w
when_writeable_each w (cb ∷ cbs) = when_writeable_each (when_writeable w cb) cbs

-- The loop over `callbacks`. A callback may itself call `when_writeable`, with those of `queues`.
-- With the socket, the callbacks that have been called, in order.
unfoldable pub call_each : (ℕ → List ℕ) → List ℕ → Writer → Writer × List ℕ
call_each queues [] w = (w, [])
call_each queues (cb ∷ cbs) w =
    let (w', called) = call_each queues cbs (when_writeable_each w (queues cb)) in (w', cb ∷ called)

-- The event, which is not persistent, fires: the callbacks are moved out, and called.
unfoldable pub on_writeable : (ℕ → List ℕ) → Writer → Writer × List ℕ
on_writeable queues w =
    call_each queues w.writeable_callbacks (record { writeable_callbacks = []; armed = false })

-- A socket with the callbacks that `when_writeable` has had and those that have been called.
pub record Log : Type 0 where
  pub writer : Writer
  pub queued : List ℕ
  pub called : List ℕ

abbrev pub new_log : Log
new_log = record { writer = new_writer; queued = []; called = [] }

-- What the callbacks of a list queue, in order.
abbrev pub queued_by : (ℕ → List ℕ) → List ℕ → List ℕ
queued_by queues [] = []
queued_by queues (cb ∷ cbs) = queues cb ++ queued_by queues cbs

-- The event loop fires the event only where it has been added.
pub data Step : Log → Log → Type 0 where
  queue_one :
      (l : Log) (cb : ℕ)
      → Step l (record l { writer = when_writeable l.writer cb; queued = l.queued ++ (cb ∷ []) })
  fire :
      (l : Log) (queues : ℕ → List ℕ)
      → l.writer.armed ≡ true
      → Step l (record {
        writer = (on_writeable queues l.writer).0;
        queued = l.queued ++ queued_by queues (on_writeable queues l.writer).1;
        called = l.called ++ (on_writeable queues l.writer).1;
      })

pub data Reachable : Log → Type 0 where
  start : Reachable new_log
  next : {l m : Log} → Reachable l → Step l m → Reachable m
