-- ===== src/Connection/Setup/Tests.antt =====
-- The theorems on the making of connections, at a client and at a server.
use oxen_libquic.Base.{ℕ, ◌≡◌, refl, Bool, true, false, Option, none, some, is_some, List, [], ◌∷◌}
use oxen_libquic.Base.Int.{pos}
use oxen_libquic.Base.Calls.{check_each}
use oxen_libquic.Context.{Context, empty_context}
use oxen_libquic.Connection.{Connection, stream_opened}
use oxen_libquic.Stream.{Stream, new_stream, set_ready, close}
use oxen_libquic.Connection.Streams.{find, assign, emplace}
use oxen_libquic.Connection.Steps.{Run, started, then_step, opened_step, use_step, opens, shuts}
use oxen_libquic.Connection.Steps.Wf.{IsWf}
use oxen_libquic.Connection.Steps.Open.{is_open}
use oxen_libquic.Connection.Setup.{
  Header, NewCall, MadeConnection, new_call, setup_tls_session, with_conn, construct, make_conn,
}
use oxen_libquic.Connection.Setup.Made.{make_conn-IsWf}
use oxen_libquic.Stream.Buffers.{Buffer}
use oxen_libquic.Tls.{SessionCall, session_calls, make_session}

abbrev with_creds : Context
with_creds = record empty_context { tls_creds = some 1 }

abbrev header : Header
header = record { hdr_dcid = 5; hdr_token = [] }

abbrev given : NewCall → Option ℕ
given nc = some 77

abbrev no_failure : SessionCall → Bool
no_failure c = false

abbrev keep_owner : ℕ → ℕ → ℕ × List Buffer
keep_owner n s = (s, [])

abbrev server : MadeConnection
server = record {
  connection = record { context = with_creds; streams = []; pending_streams = [] };
  ngtcp2_conn = 77;
  session = session_calls false;
  io_triggered = true;
}

-- The peer opens a stream, and the application closes it, before ngtcp2 does.
abbrev peer_opens : Connection
peer_opens = (stream_opened server.connection 4 0).0

abbrev with_stream : Stream
with_stream = set_ready (new_stream none none (pos 4))

abbrev app_closes : Connection
app_closes = record peer_opens { streams = assign 4 (close with_stream 9).0 peer_opens.streams }

history : Run keep_owner none server.connection (opens [] ∷ opens (4 ∷ []) ∷ []) app_closes
unfolding stream_opened emplace find
history =
    then_step peer_opens app_closes (opens (4 ∷ []) ∷ []) (opens [])
      (then_step server.connection peer_opens [] (opens (4 ∷ [])) started
        (opened_step server.connection 4 0))
      (use_step peer_opens 4 with_stream (close with_stream 9).0 refl (shuts with_stream 9))

make_conn-IsWf_example :
    (server.session ≡ session_calls false)
    × (server.io_triggered ≡ true)
    × IsWf app_closes
    × ((id : ℕ)
        → is_some (find id app_closes.streams) ≡ is_open (opens [] ∷ opens (4 ∷ []) ∷ []) id)
unfolding make_conn construct new_call with_conn setup_tls_session make_session check_each
make_conn-IsWf_example =
    make_conn-IsWf keep_owner none 9 1452 given no_failure with_creds 6 8 false (some header) server
      app_closes (opens [] ∷ opens (4 ∷ []) ∷ []) refl history
