-- ===== src/Udp/Setup/Opened.antt =====
-- The descriptor of a socket, through its construction and its destruction.
use oxen_libquic.Base.{
  ℕ, ◌+◌, ◌≡◌, refl, Bool, true, false, ◌++◌, if◌then◌else◌, inl, inr, Bool-cases, arith, ◌↔◌,
}
use oxen_libquic.Base.Calls.{check_each}
use oxen_libquic.Address.{Address, is_ipv6, af_inet, af_inet6}
use oxen_libquic.Udp.Setup.{
  SystemCall, socket, bind, getsockname, set_nonblocking, setsockopt_receive_ecn, set_ecn,
  make_socket, destroy_socket, open_after, ipproto_ip, ipproto_ipv6,
}

abbrev pub family : Address → ℕ
family addr = if is_ipv6 addr then af_inet6 else af_inet

abbrev pub level : Address → ℕ
level addr = if is_ipv6 addr then ipproto_ipv6 else ipproto_ip

-- A socket that is constructed holds one descriptor more, which its destruction gives back. A
-- constructor that throws after the system has made a socket leaves that descriptor open.
pub make_socket-open_after :
    (fails : SystemCall → Bool) (addr bound : Address) (n : ℕ)
    → fails (socket (family addr)) ≡ false
    → (open_after fails n (make_socket fails true addr bound).0 ≡ n + 1)
      × (((make_socket fails true addr bound).1 ≡ true) ↔ (
          (fails bind ≡ false)
          × (fails getsockname ≡ false)
          × (fails set_nonblocking ≡ false)
          × (fails (setsockopt_receive_ecn (level addr)) ≡ false)))
      × (open_after fails n ((make_socket fails true addr bound).0 ++ destroy_socket) ≡ n)
unfolding make_socket check_each set_ecn destroy_socket
make_socket-open_after fails addr bound n h = elim (Bool-cases (fails bind)) [
  | inl a ↦ rw (h, a, h) (refl, ((λ e. cc), (λ e. cc)), omega arith)
  | inr a ↦ elim (Bool-cases (fails getsockname)) [
    | inl b ↦ rw (h, a, b, h) (refl, ((λ e. cc), (λ e. cc)), omega arith)
    | inr b ↦ elim (Bool-cases (fails set_nonblocking)) [
      | inl c ↦ rw (h, a, b, c, h) (refl, ((λ e. cc), (λ e. cc)), omega arith)
      | inr c ↦ elim (Bool-cases (fails (setsockopt_receive_ecn (level addr)))) [
        | inl d ↦ rw (h, a, b, c, d, h) (refl, ((λ e. cc), (λ e. cc)), omega arith)
        | inr d ↦
            rw (h, a, b, c, d, h)
              (refl, ((λ e. (refl, refl, refl, refl)), (λ e. refl)), omega arith)
      ]
    ]
  ]
]
