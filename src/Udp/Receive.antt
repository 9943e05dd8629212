-- ===== src/Udp/Receive.antt =====
-- src/udp.cpp: `UDPSocket::process_packet` and `UDPSocket::receive`.
pub mod Limits
use oxen_libquic.Base.{
  ℕ, zero, suc, ◌+◌, Bool, Option, none, some, List, [], ◌∷◌, ◌++◌, ◌==◌, ltb, if◌then◌else◌,
  length,
}
use oxen_libquic.Base.Int.{ℤ, ◌==ℤ◌, pos}
use oxen_libquic.Base.Outcome.{Outcome, done, out_of_fuel, ◌>>=◌}
use oxen_libquic.IoResult.{IoResult, from_errno, good, eagain}

-- A datagram as the kernel hands it over: its bytes, and the flag MSG_TRUNC.
pub record Datagram : Type 0 where
  pub payload : List ℕ
  pub truncated : Bool

abbrev pub datagram_batch_size : ℕ
datagram_batch_size = 24

abbrev pub max_receive_per_loop : ℕ
max_receive_per_loop = 64

-- `process_packet`: the packets that reach `receive_callback_`.
unfoldable pub process_packet : Datagram → List (List ℕ)
process_packet d = elim d.payload [ [] ↦ [] | x ∷ xs ↦ if d.truncated then [] else (x ∷ xs) ∷ [] ]

unfoldable pub process_all : List Datagram → List (List ℕ)
process_all [] = []
process_all (d ∷ ds) = process_packet d ++ process_all ds

-- A reply of recvmmsg, which reads several datagrams, or of recvmsg, which reads one.
pub data Read (A : Type 0) : Type 0 where
  interrupted : Read A
  failed : ℤ → Read A
  got : A → Read A

-- How `receive` ends on an `errno`.
abbrev pub on_error : ℤ → IoResult
on_error e = if e ==ℤ eagain then good else from_errno e

-- What `receive` returns, what has reached the callback, and `count`.
abbrev pub Received : Type 0
Received = IoResult × List (List ℕ) × ℕ

abbrev pub prepend : List (List ℕ) → Outcome Received → Outcome Received
prepend ps m = m >>= λ r. done (r.0, ps ++ r.1, r.2)

-- With OXEN_LIBQUIC_RECVMMSG.
unfoldable pub receive_mmsg : List (Read (List Datagram)) → ℕ → Outcome Received
receive_mmsg [] count = out_of_fuel
receive_mmsg (interrupted ∷ rs) count = receive_mmsg rs count
receive_mmsg (failed e ∷ rs) count = done (on_error e, [], count)
receive_mmsg (got ds ∷ rs) count =
    let nread = length ds in
    let more = receive_mmsg rs (count + nread) in
    if nread == 0
    then done (good, [], count)
    else if ltb nread datagram_batch_size
    then done (good, process_all ds, count + nread)
    else if ltb (count + nread) max_receive_per_loop
    then prepend (process_all ds) more
    else done (good, process_all ds, count + nread)

-- Without it.
unfoldable pub receive_each : List (Read Datagram) → ℕ → Outcome Received
receive_each [] count = out_of_fuel
receive_each (interrupted ∷ rs) count = receive_each rs count
receive_each (failed e ∷ rs) count = done (on_error e, [], count)
receive_each (got d ∷ rs) count =
    let more = receive_each rs (count + 1) in
    if ltb (count + 1) max_receive_per_loop
    then prepend (process_packet d) more
    else done (good, process_packet d, count + 1)
