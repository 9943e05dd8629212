-- ===== src/Udp/Send.antt =====
-- src/udp.cpp: `UDPSocket::send` in its three modes of compilation, and the setting of ECN.
use oxen_libquic.Base.{ℕ, suc, Bool, not, Option, none, some, List, [], ◌∷◌, ◌==◌}
use oxen_libquic.Base.Int.{ℤ, pos}
use oxen_libquic.Base.Outcome.{Outcome, done, out_of_fuel, ◌>>=◌}
use oxen_libquic.IoResult.{IoResult, from_errno}
use oxen_libquic.Udp.Gso.{Batch, batches, count_sent}

-- What a call of sendmmsg or sendmsg gives: -1 with EINTR, -1 with another `errno`, or the number of
-- messages that it took, with the bytes sent of each.
pub data Reply : Type 0 where
  interrupted : Reply
  failed : ℤ → Reply
  accepted : ℕ → List ℕ → Reply

-- `do { rv = sendmmsg(...); } while (rv == -1 && errno == EINTR)`.
unfoldable pub retry : List Reply → Outcome Reply
retry [] = out_of_fuel
retry (interrupted ∷ rs) = retry rs
retry (failed e ∷ rs) = done (failed e)
retry (accepted rv lens ∷ rs) = done (accepted rv lens)

unfoldable pub gso_result : List Batch → Reply → IoResult × ℕ
gso_result bs interrupted = (from_errno (pos 4), 0)
gso_result bs (failed e) = (from_errno e, 0)
gso_result bs (accepted rv lens) = (from_errno (pos 0), count_sent bs lens)

-- With OXEN_LIBQUIC_UDP_GSO.
unfoldable pub send_gso : List ℕ → List Reply → Outcome (IoResult × ℕ)
send_gso bufsize replies = retry replies >>= λ r. done (gso_result (batches 0 0 0 0 bufsize) r)

unfoldable pub mmsg_result : Reply → IoResult × ℕ
mmsg_result interrupted = (from_errno (pos 4), 0)
mmsg_result (failed e) = (from_errno e, 0)
mmsg_result (accepted rv lens) = (from_errno (pos 0), rv)

-- With OXEN_LIBQUIC_UDP_SENDMMSG.
unfoldable pub send_mmsg : List Reply → Outcome (IoResult × ℕ)
send_mmsg replies = retry replies >>= λ r. done (mmsg_result r)

-- With neither: one sendmsg for each packet; `none` is a packet sent whole, `some e` an `errno`.
-- There is no test for EINTR.
unfoldable pub send_each : List ℕ → List (Option ℤ) → ℕ → Outcome (IoResult × ℕ)
send_each [] replies sent = done (from_errno (pos 0), sent)
send_each (n ∷ ns) [] sent = out_of_fuel
send_each (n ∷ ns) (none ∷ rs) sent = send_each ns rs (suc sent)
send_each (n ∷ ns) (some e ∷ rs) sent = done (from_errno e, sent)

-- The ECN value of the socket, and whether `set_ecn` calls setsockopt for it.
unfoldable pub update_ecn : ℕ → ℕ → ℕ × Bool
update_ecn ecn_ ecn = (ecn, not (ecn == ecn_))
