-- ===== src/Udp/Setup.antt =====
-- src/udp.cpp: the constructor and the destructor of UDPSocket, `set_ecn`, and the constructor of
-- Packet that reads the header of a datagram.
pub mod Opened
use oxen_libquic.Base.{
  ℕ, suc, ◌+◌, ◌-◌, Bool, true, false, not, ◌&&◌, List, [], ◌∷◌, ◌++◌, ◌==◌, ltb, if◌then◌else◌,
}
use oxen_libquic.Base.Calls.{check_each}
use oxen_libquic.Address.{Address, is_ipv4, is_ipv6, af_inet, af_inet6}

abbrev pub ipproto_ip : ℕ
ipproto_ip = 0

abbrev pub ipproto_ipv6 : ℕ
ipproto_ipv6 = 41

abbrev pub ip_tos : ℕ
ip_tos = 1

abbrev pub ipv6_tclass : ℕ
ipv6_tclass = 67

-- The system calls, of which `setsockopt` has a level.
pub data SystemCall : Type 0 where
  socket setsockopt_receive_ecn setsockopt_ecn : ℕ → SystemCall
  bind getsockname set_nonblocking close_socket : SystemCall

unfoldable pub set_ecn : Address → List SystemCall
set_ecn bound = setsockopt_ecn (if is_ipv6 bound then ipproto_ipv6 else ipproto_ip) ∷ []

abbrev pub required_calls : Address → List SystemCall
required_calls addr =
    socket (if is_ipv6 addr then af_inet6 else af_inet)
    ∷ bind
    ∷ getsockname
    ∷ set_nonblocking
    ∷ setsockopt_receive_ecn (if is_ipv6 addr then ipproto_ipv6 else ipproto_ip)
    ∷ []

-- The constructor, with the address that getsockname gives: the calls that it makes, each under
-- `check_rv` but the last, and whether it returns; otherwise it throws.
unfoldable pub make_socket : (SystemCall → Bool) → Bool → Address → Address → List SystemCall × Bool
make_socket fails has_callback addr bound =
    let (made, ok) = check_each fails (required_calls addr) in
    if not has_callback
    then ([], false)
    else if ok
    then (made ++ set_ecn bound, true)
    else (made, false)

-- The destructor. A constructor that throws has no destructor called after it.
unfoldable pub destroy_socket : List SystemCall
destroy_socket = close_socket ∷ []

-- How many descriptors are open after some calls, before which there were `n`.
abbrev pub open_after : (SystemCall → Bool) → ℕ → List SystemCall → ℕ
open_after fails n [] = n
open_after fails n (socket family ∷ cs) =
    open_after fails (if fails (socket family) then n else n + 1) cs
open_after fails n (close_socket ∷ cs) = open_after fails (n - 1) cs
open_after fails n (c ∷ cs) = open_after fails n cs

-- A control message: its level, its type, its length and its first byte.
pub record ControlMessage : Type 0 where
  pub cmsg_level : ℕ
  pub cmsg_type : ℕ
  pub cmsg_len : ℕ
  pub first_byte : ℕ

abbrev pub has_ecn : Address → ControlMessage → Bool
has_ecn remote c =
    (if is_ipv4 remote
      then (c.cmsg_level == ipproto_ip) && (c.cmsg_type == ip_tos)
      else (c.cmsg_level == ipproto_ipv6) && (c.cmsg_type == ipv6_tclass))
    && ltb 0 c.cmsg_len

-- `pkt_info.ecn`, from the control messages of the header.
unfoldable pub packet_ecn : Address → List ControlMessage → ℕ
packet_ecn remote [] = 0
packet_ecn remote (c ∷ cs) =
    let rest = packet_ecn remote cs in if has_ecn remote c then c.first_byte else rest
