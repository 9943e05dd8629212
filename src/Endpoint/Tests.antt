-- ===== src/Endpoint/Tests.antt =====
-- The theorems on an endpoint, with two connections.
use oxen_libquic.Base.{
  replicate, ℕ, ◌+◌, ◌<◌, ◌≡◌, refl, List, [], ◌∷◌, ◌++◌, true, false, not, ◌&&◌, none, some, arith,
  ◌⊎◌, ◌==◌, if◌then◌else◌,
}
use oxen_libquic.Base.Int.{pos}
use oxen_libquic.Base.Outcome.{done}
use oxen_libquic.IoResult.{IoResult, good, failure, blocked}
use oxen_libquic.Endpoint.{Endpoint, Code, Action, inbound, outbound, find, update, get_conn}
use oxen_libquic.Endpoint.Packets.{Queued, send_packets}
use oxen_libquic.Endpoint.Packets.Contract.{packets, send_packets_contract}
use oxen_libquic.Endpoint.Packets.Sending.{send_packets-send_gso}
use oxen_libquic.Endpoint.Packets.Modes.{
  gso_replies, mmsg_replies, each_replies, send_packets_modes,
}
use oxen_libquic.Udp.Gso.{batches}
use oxen_libquic.Udp.Gso.Counts.{lengths_of}
use oxen_libquic.Udp.Send.{send_gso, send_mmsg, send_each, interrupted, accepted}
use oxen_libquic.Endpoint.Incoming.{
  Replies, new_conn, accept_initial_connection, fresh_cid, make_conn,
}
use oxen_libquic.Endpoint.Lifecycle.{check_timeouts, close_conns}
use oxen_libquic.Endpoint.Lifecycle.Timeouts.{check_timeouts-get_conn}
use oxen_libquic.Endpoint.Lifecycle.Closing.{close_conns-closing_ids}
use oxen_libquic.Endpoint.Registry.{IsWf}
use oxen_libquic.Endpoint.Accepting.{accept_initial_connection-get_conn}

abbrev two_conns : Endpoint
two_conns = record {
  conns = (1, some (new_conn 1 10 inbound)) ∷ (2, some (new_conn 2 20 outbound)) ∷ [];
  draining = (50, 2) ∷ [];
  accepting_inbound = true;
  has_socket = true;
  log = [];
}

two_conns-IsWf : IsWf two_conns
unfolding find
two_conns-IsWf = (refl, (refl, refl), (refl, (refl, refl), tt))

abbrev replies : Replies
replies = record {
  decoded = Code.no_error;
  dcid = 7;
  dcidlen = 18;
  negotiation_size = pos 0;
  accepted = pos 0;
  is_0rtt = false;
  is_initial = true;
  tokenlen = 0;
  hdr_scid = 30;
  randoms = 2 ∷ 3 ∷ 4 ∷ [];
  constructed = true;
  in_closing_period = false;
  read = Code.no_error;
  now = 40;
  pto = 1;
  written = pos 9;
}

-- Two packets, of which the socket sends one.
abbrev two_packets : Queued
two_packets = record { buf = 1 ∷ 2 ∷ 3 ∷ []; bufsize = 1 ∷ 2 ∷ []; n_pkts = 2 }

send_packets_contract_example :
    let (res, q') = send_packets true two_packets (good, 1) in
    ((failure good && not (blocked good)) ≡ true × (res ≡ good) × (packets q' ≡ []))
    ⊎ ((failure good && not (blocked good)) ≡ false
        × (1 < 2)
        × (blocked res ≡ true)
        × (packets q' ≡ (2 ∷ 3 ∷ []) ∷ [])
        × (q'.n_pkts + 1 ≡ 2))
    ⊎ ((failure good && not (blocked good)) ≡ false
        × (◌≡◌ {A = ℕ} 1 2)
        × (res ≡ good)
        × (packets q' ≡ []))
send_packets_contract_example =
    send_packets_contract two_packets good 1 (record { sizes = omega arith; bytes = omega arith })
      (omega arith)

-- The kernel takes the first packet, after one interruption.
send_packets-send_gso_example :
    (reply : IoResult × ℕ) × (send_gso
        (1 ∷ 2 ∷ [])
        (replicate 1 interrupted ++ (accepted 1 (lengths_of 1 (batches 0 0 0 0 (1 ∷ 2 ∷ []))) ∷ []))
      ≡ done reply)
    × (packets (send_packets true two_packets reply).1 ≡ (2 ∷ 3 ∷ []) ∷ [])
    × (blocked (send_packets true two_packets reply).0 ≡ true)
    × ((send_packets true two_packets reply).1.n_pkts + 1 ≡ 2)
send_packets-send_gso_example =
    send_packets-send_gso two_packets 1 1 1 [] (record { sizes = omega arith; bytes = omega arith })
      ((omega arith, omega arith), ((omega arith, omega arith), tt)) (omega arith)

-- A kernel that takes one of the packets, told of it in each of the three modes.
send_packets_modes_example :
    let sizes : List ℕ = 1 ∷ 2 ∷ [] in
    (gso : IoResult × ℕ) × (mmsg : IoResult × ℕ) × (each : IoResult × ℕ) × (send_gso sizes
        (replicate 2 interrupted ++ gso_replies 1 sizes)
      ≡ done gso)
    × (send_mmsg (replicate 0 interrupted ++ mmsg_replies 1 sizes) ≡ done mmsg)
    × (send_each sizes (each_replies 1) 0 ≡ done each)
    × (send_packets true two_packets gso ≡ send_packets true two_packets mmsg)
    × (send_packets true two_packets mmsg ≡ send_packets true two_packets each)
send_packets_modes_example =
    send_packets_modes two_packets 1 2 0 (record { sizes = omega arith; bytes = omega arith })
      ((omega arith, omega arith), ((omega arith, omega arith), tt)) (omega arith) (omega arith)

abbrev three_conns : Endpoint
three_conns = record two_conns {
  conns = two_conns.conns ++ ((3, some (new_conn 3 30 inbound)) ∷ []);
  log = Action.new_connection 3 ∷ [];
}

accept_initial_connection-get_conn_example :
    (get_conn two_conns 3 ≡ none)
    × ((k : ℕ)
        → get_conn three_conns k
          ≡ (if k == 3 then some (new_conn 3 30 inbound) else get_conn two_conns k))
    × (replies.hdr_scid ≡ replies.hdr_scid)
    × (inbound ≡ inbound)
unfolding accept_initial_connection fresh_cid make_conn find update
accept_initial_connection-get_conn_example =
    accept_initial_connection-get_conn two_conns replies three_conns (new_conn 3 30 inbound) refl

check_timeouts-get_conn_example :
    (ep' : Endpoint) × (check_timeouts two_conns 60 ≡ done ep')
    × ((k : ℕ) → get_conn ep' k ≡ (if k == 2 then none else get_conn two_conns k))
    × (ep'.draining ≡ [])
check_timeouts-get_conn_example = check_timeouts-get_conn two_conns 60 50 2 two_conns-IsWf refl

abbrev both_draining : Endpoint
both_draining = record two_conns { draining = (50, 2) ∷ (70, 1) ∷ [] }

close_conns-closing_ids_example :
    close_conns two_conns (some outbound) (λ k. pos 9)
    ≡ done (record two_conns { log = Action.send_close_packet 2 ∷ [] })
close_conns-closing_ids_example =
    close_conns-closing_ids two_conns (some outbound) (λ k. pos 9) two_conns-IsWf refl
