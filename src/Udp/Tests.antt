-- ===== src/Udp/Tests.antt =====
-- The theorems on the socket, at a few packets.
use oxen_libquic.Base.{
  ◌⊎◌, ◌↔◌, ◌++◌, ◌==◌, refl, Bool, if◌then◌else◌, ℕ, ◌≡◌, List, [], ◌∷◌, true, false, arith, All,
}
use oxen_libquic.Address.{Address, zeroed, af_inet, sizeof_in}
use oxen_libquic.Udp.Writeable.{
  Log, new_log, new_writer, when_writeable, on_writeable, queued_by, queue_one, start, next,
}
use oxen_libquic.Udp.Writeable.Order.{Reachable-fire}
use oxen_libquic.Udp.Setup.{SystemCall, make_socket, destroy_socket, open_after}
use oxen_libquic.Udp.Setup.Opened.{make_socket-open_after, level}
use oxen_libquic.Udp.Gso.{batches}
use oxen_libquic.Udp.Gso.Cover.{
  IsSize, packets, packets-batches, batches_in_bounds, UsesControl, IsLaid,
}

-- Two packets of 1200 bytes, one of 40, two of 1200.
abbrev sizes : List ℕ
sizes = 1200 ∷ 1200 ∷ 40 ∷ 1200 ∷ 1200 ∷ []

sizes-IsSize : All IsSize sizes
sizes-IsSize =
    let wide : IsSize 1200 = (omega arith, omega arith) in
    let narrow : IsSize 40 = (omega arith, omega arith) in
    (wide, (wide, (narrow, (wide, (wide, tt)))))

packets-batches_example : packets (batches 0 0 0 0 sizes) ≡ sizes
packets-batches_example = packets-batches sizes sizes-IsSize

batches_in_bounds_example :
    All (UsesControl 5) (batches 0 0 0 0 sizes) × IsLaid 0 (batches 0 0 0 0 sizes)
batches_in_bounds_example = batches_in_bounds sizes

-- Callback 1 is queued; when it is called it queues 2.
abbrev queues_again : ℕ → List ℕ
queues_again n = if n == 1 then 2 ∷ [] else []

abbrev one_queued : Log
one_queued = record new_log { writer = when_writeable new_writer 1; queued = 1 ∷ [] }

Reachable-fire_example :
    (one_queued.queued ≡ one_queued.called)
    ⊎ ((one_queued.writer.armed ≡ true)
        × (one_queued.called ++ (on_writeable queues_again one_queued.writer).1 ≡ one_queued.queued)
        × ((on_writeable queues_again one_queued.writer).0.writeable_callbacks
            ≡ queued_by queues_again (on_writeable queues_again one_queued.writer).1))
Reachable-fire_example =
    Reachable-fire {l = one_queued} queues_again (next start (queue_one new_log 1))

-- The address is IPv4; bind fails.
abbrev any_v4 : Address
any_v4 = record zeroed { family = af_inet; addrlen = sizeof_in }

abbrev bind_fails : SystemCall → Bool
bind_fails SystemCall.bind = true
bind_fails other = false

make_socket-open_after_example :
    (open_after bind_fails 7 (make_socket bind_fails true any_v4 any_v4).0 ≡ 8)
    × (((make_socket bind_fails true any_v4 any_v4).1 ≡ true) ↔ (
        (bind_fails SystemCall.bind ≡ false)
        × (bind_fails SystemCall.getsockname ≡ false)
        × (bind_fails SystemCall.set_nonblocking ≡ false)
        × (bind_fails (SystemCall.setsockopt_receive_ecn (level any_v4)) ≡ false)))
    × (open_after bind_fails 7 ((make_socket bind_fails true any_v4 any_v4).0 ++ destroy_socket)
        ≡ 7)
make_socket-open_after_example = make_socket-open_after bind_fails any_v4 any_v4 7 refl
