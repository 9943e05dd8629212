-- ===== src/Endpoint/Life/Tests.antt =====
-- The life of an endpoint that listens, accepts a connection, connects, and closes what it can.
use oxen_libquic.Base.{true, false, some, [], ◌∷◌, ◌≡◌, refl}
use oxen_libquic.Base.Int.{pos}
use oxen_libquic.Base.Outcome.{done}
use oxen_libquic.Endpoint.{
  Endpoint, inbound, no_error, io_ready, new_connection, find, update, get_conn, drain_connection,
  read_packet,
}
use oxen_libquic.Endpoint.Incoming.{
  Replies, new_conn, fresh_cid, make_conn, accept_initial_connection, handle_conn_packet, dispatch,
  handle_packet_connid, handle_packet, listen,
}
use oxen_libquic.Endpoint.Life.{born, then_lives, gets_packet, listens, drains}
use oxen_libquic.Endpoint.Life.Sound.{IsSound, Lives-IsSound}

abbrev idle : Endpoint
idle = record { conns = []; draining = []; accepting_inbound = false; has_socket = true; log = [] }

-- A packet for an id that leads nowhere, with the id 7 drawn for its connection.
abbrev initial : Replies
initial = record {
  decoded = no_error;
  dcid = 5;
  dcidlen = 8;
  negotiation_size = pos 0;
  accepted = pos 0;
  is_0rtt = false;
  is_initial = true;
  tokenlen = 0;
  hdr_scid = 6;
  randoms = 7 ∷ [];
  constructed = true;
  in_closing_period = false;
  read = no_error;
  now = 100;
  pto = 10;
  written = pos 0;
}

abbrev accepted : Endpoint
accepted = record (listen idle) {
  conns = (7, some (new_conn 7 6 inbound)) ∷ [];
  log = new_connection 7 ∷ io_ready 7 ∷ [];
}

accepts : handle_packet (listen idle) initial ≡ done accepted
unfolding listen handle_packet handle_packet_connid dispatch get_conn find accept_initial_connection
    fresh_cid make_conn update handle_conn_packet read_packet
accepts = refl

Lives-IsSound_example : IsSound (drain_connection (listen accepted) (new_conn 7 6 inbound) 100 10)
Lives-IsSound_example =
    Lives-IsSound idle (drain_connection (listen accepted) (new_conn 7 6 inbound) 100 10) refl refl
      (then_lives _ _
        (then_lives _ _
          (then_lives _ _ (then_lives _ _ born (listens idle))
            (gets_packet (listen idle) accepted initial accepts))
          (listens accepted))
        (drains (listen accepted) 7 (new_conn 7 6 inbound) 100 10 found))
  where
    found : get_conn (listen accepted) 7 ≡ some (new_conn 7 6 inbound)
    found = unfold listen in unfold get_conn in unfold find in refl
