-- ===== src/Endpoint/Receive/Readable.antt =====
-- The whole way of the datagrams of one event, from the system to the connections.
use mathlib.Core.Path.{subst}
use oxen_libquic.Base.{
  ap, length-append, if◌then◌else◌, ℕ, suc, ◌+◌, ◌<◌, ◌≤◌, ◌≡◌, refl, true, List, [], ◌∷◌, length,
  All, arith,
}
use oxen_libquic.Base.Outcome.{done, Holds-done, IsDone-value}
use oxen_libquic.Udp.Receive.{Read, Datagram, process_all, process_packet}
use oxen_libquic.Udp.Receive.Limits.{WithinBatch, IsRead, answers, taken, receive_mmsg_lem}
use oxen_libquic.Endpoint.{Endpoint}
use oxen_libquic.Endpoint.Incoming.{Replies, handle_packet}
use oxen_libquic.Endpoint.Life.{gets_packet}
use oxen_libquic.Endpoint.Life.Sound.{IsSound, Life-IsSound}
use oxen_libquic.Endpoint.Receive.{handle_each, on_readable}
use oxen_libquic.Endpoint.Receive.Drawn.{Distinct}
use oxen_libquic.Endpoint.Receive.Handled.{handle_packet-IsDone}
use oxen_libquic.Endpoint.Receive.Sized.{WithinSize, handle_packet-WithinSize}

-- For each packet, more than `n` different random ids, and a connection that can be constructed.
pub record Supplies (n : ℕ) (outside : ℕ → List ℕ → Replies) : Type 0 where
  pub distinct : (k : ℕ) (p : List ℕ) → Distinct (outside k p).randoms
  pub many : (k : ℕ) (p : List ℕ) → n < length (outside k p).randoms
  pub constructs : (k : ℕ) (p : List ℕ) → (outside k p).constructed ≡ true

handle_each_lem :
    (n : ℕ) (outside : ℕ → List ℕ → Replies) (k : ℕ) (ps : List (List ℕ)) (ep : Endpoint)
    → Supplies n outside
    → length ep.conns + length ps ≤ n
    → IsSound ep
    → (ep' : Endpoint) × (handle_each outside k ps ep ≡ done ep')
      × IsSound ep'
      × (length ep'.conns ≤ length ep.conns + length ps)
unfolding handle_each
handle_each_lem n outside k [] ep o h s = (ep, refl, s, omega arith)
handle_each_lem n outside k (p ∷ ps) ep o h s =
    let r : Replies = outside k p in
    let (ep1, e) = IsDone-value (handle_packet ep r) (
      handle_packet-IsDone ep r s.conns_map (o.constructs k p) (o.distinct k p)
        (omega (arith, o.many k p))) in
    let size : WithinSize (suc (length ep.conns)) ep1 =
      Holds-done (WithinSize (suc (length ep.conns))) _ ep1 (handle_packet-WithinSize ep r) e in
    let (ep2, e2, s2, size2) =
      handle_each_lem n outside (suc k) ps ep1 o (omega arith)
        (Life-IsSound ep ep1 (gets_packet ep ep1 r e) s) in
    (ep2, rw (e, handle_each) e2, s2, omega arith)

length-process_packet : (d : Datagram) → length (process_packet d) ≤ 1
unfolding process_packet
length-process_packet d = go d.payload
  where
    go :
        (bytes : List ℕ)
        → length {A = List ℕ}
            (elim bytes [ [] ↦ [] | x ∷ xs ↦ if d.truncated then [] else (x ∷ xs) ∷ [] ])
          ≤ 1
    go [] = omega arith
    go (x ∷ xs) = ground arith

length-process_all : (ds : List Datagram) → length (process_all ds) ≤ length ds
unfolding process_all
length-process_all [] = omega arith
length-process_all (d ∷ ds) = omega (
  arith,
  length-append (process_packet d) (process_all ds),
  length-process_packet d,
  length-process_all ds,
)

-- One event for datagrams to read, in batches of at most 24, on a sound endpoint: it comes to an end
-- by the third call of recvmmsg that is not interrupted, with no undefined step. It makes exactly the
-- calls up to the first that fails, that reads less than a full batch, or that makes 64 datagrams. The
-- endpoint has handled exactly the good datagrams that these calls have read, in order, is sound, and
-- has at most 72 connections more. It needs, for each packet, more distinct random ids than the endpoint has
-- connections then, and a constructor that does not throw.
pub on_readable-IsSound :
    (outside : ℕ → List ℕ → Replies) (reads : List (Read (List Datagram))) (ep : Endpoint)
    → All WithinBatch reads
    → 3 ≤ answers reads
    → Supplies (length ep.conns + 72) outside
    → IsSound ep
    → (ep' : Endpoint) × (k : ℕ) × (on_readable outside reads ep ≡ done ep')
      × IsRead k reads 0
      × (handle_each outside 0 (process_all (taken k reads)) ep ≡ done ep')
      × IsSound ep'
      × (length ep'.conns ≤ length ep.conns + 72)
unfolding on_readable
on_readable-IsSound outside reads ep a h o s =
    let (r, k, run, read, delivered, count, limit) = receive_mmsg_lem reads a h in
    let few : length r.1 ≤ 72 =
      omega (arith, ap length delivered, length-process_all (taken k reads)) in
    let (ep', e, s', size) =
      handle_each_lem (length ep.conns + 72) outside 0 r.1 ep o (omega arith) s in
    (
      ep',
      k,
      rw run e,
      read,
      subst (λ ps. handle_each outside 0 ps ep ≡ done ep') delivered e,
      s',
      omega arith,
    )
