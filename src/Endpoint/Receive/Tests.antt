-- ===== src/Endpoint/Receive/Tests.antt =====
-- Two datagrams for an endpoint that listens, one of them cut short.
use oxen_libquic.Base.{
  ℕ, zero, suc, ◌<◌, ◌≤◌, ◌≡◌, refl, true, false, List, [], ◌∷◌, ◌==◌, length, All, arith,
}
use oxen_libquic.Base.Int.{pos}
use oxen_libquic.Base.Outcome.{done}
use oxen_libquic.IoResult.{eagain}
use oxen_libquic.Udp.Receive.{Read, Datagram, interrupted, failed, got, process_all}
use oxen_libquic.Udp.Receive.Limits.{IsRead, taken}
use oxen_libquic.Endpoint.{Endpoint, no_error}
use oxen_libquic.Endpoint.Incoming.{Replies, count_from}
use oxen_libquic.Endpoint.Life.Sound.{IsSound}
use oxen_libquic.Endpoint.Receive.{handle_each, on_readable}
use oxen_libquic.Endpoint.Receive.Drawn.{Distinct}
use oxen_libquic.Endpoint.Receive.Readable.{Supplies, on_readable-IsSound}

abbrev listening : Endpoint
listening = record {
  conns = [];
  draining = [];
  accepting_inbound = true;
  has_socket = true;
  log = [];
}

-- Each packet begins a connection.
abbrev initial : ℕ → List ℕ → Replies
initial k p = record {
  decoded = no_error;
  dcid = k;
  dcidlen = 8;
  negotiation_size = pos 0;
  accepted = pos 0;
  is_0rtt = false;
  is_initial = true;
  tokenlen = 0;
  hdr_scid = 6;
  randoms = count_from 80 100;
  constructed = true;
  in_closing_period = false;
  read = no_error;
  now = 100;
  pto = 10;
  written = pos 0;
}

count_from_greater : (n m k : ℕ) → m < k → All (λ y. (y == m) ≡ false) (count_from n k)
count_from_greater zero m k h = tt
count_from_greater (suc n) m k h = (ground arith, count_from_greater n m (suc k) (omega arith))

count_from-Distinct : (n m : ℕ) → Distinct (count_from n m)
count_from-Distinct zero m = tt
count_from-Distinct (suc n) m =
    (count_from_greater n m (suc m) (omega arith), count_from-Distinct n (suc m))

initial-Supplies : Supplies 72 initial
initial-Supplies = record {
  distinct = λ k p. count_from-Distinct 80 100;
  many = λ k p. omega arith;
  constructs = λ k p. refl;
}

abbrev reads : List (Read (List Datagram))
reads =
    interrupted
    ∷ got (
        record { payload = 1 ∷ 2 ∷ []; truncated = false }
        ∷ record { payload = 3 ∷ []; truncated = true }
        ∷ [])
    ∷ failed eagain
    ∷ failed eagain
    ∷ []

on_readable-IsSound_example :
    (ep' : Endpoint) × (k : ℕ) × (on_readable initial reads listening ≡ done ep')
    × IsRead k reads 0
    × (handle_each initial 0 (process_all (taken k reads)) listening ≡ done ep')
    × IsSound ep'
    × (length ep'.conns ≤ 72)
on_readable-IsSound_example =
    on_readable-IsSound initial reads listening (tt, (omega arith, (tt, (tt, tt)))) (omega arith)
      initial-Supplies (record { conns_map = tt; in_time = tt })
