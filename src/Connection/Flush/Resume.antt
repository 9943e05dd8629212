-- ===== src/Connection/Flush/Resume.antt =====
-- src/connection.cpp: `Connection::on_io_ready`, and what `Connection::send` has the socket call when it
-- is writeable again.
use oxen_libquic.Base.{ℕ, Bool, true, false, Option, List, [], ◌∷◌, if◌then◌else◌}
use oxen_libquic.Base.Outcome.{Outcome, done, ◌>>=◌}
use oxen_libquic.IoResult.{IoResult}
use oxen_libquic.Endpoint.Packets.{Queued}
use oxen_libquic.Connection.Streams.{StreamMap}
use oxen_libquic.Connection.Timer.{Timer, schedule_retransmit}
use oxen_libquic.Connection.Flush.{Write, Loop, send, flush_streams}

-- `on_io_ready`: `expiry` is ngtcp2_conn_get_expiry after the flush, `ts` the time in nanoseconds.
unfoldable pub on_io_ready :
    ℕ
    → (ℕ → Option ℕ → Bool → List (List ℕ) → Write)
    → (ℕ → IoResult × ℕ)
    → ℕ
    → ℕ
    → ℕ
    → ℕ
    → StreamMap
    → Queued
    → ℕ
    → ℕ
    → Outcome (Loop × Timer)
on_io_ready max_batch writev socket fuel quantum payload start m q expiry ts =
    flush_streams max_batch writev socket fuel quantum payload start m q >>= λ l.
    done (l, schedule_retransmit expiry ts)

-- The callback for a writeable socket, which is called once: `send(nullptr)`, with no update to
-- cancel. The result is whether it calls `on_io_ready`.
unfoldable pub on_writeable : Loop → IoResult × ℕ → Bool × Loop
on_writeable l reply =
    let (go_on, l') = send (record l { waiting = false }) reply in
    (go_on, record l' { cancelled = l.cancelled })

-- The callbacks one after another, with what the socket gives to each, until one calls `on_io_ready` or
-- none waits.
unfoldable pub resume : Loop → List (IoResult × ℕ) → Bool × Loop
resume l [] = (false, l)
resume l (reply ∷ replies) =
    let (go_on, l') = on_writeable l reply in
    let rest = resume l' replies in
    if go_on then (true, l') else if l'.waiting then rest else (false, l')
