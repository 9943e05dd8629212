-- ===== src/Address.antt =====
-- include/quic/utils.hpp and src/utils.cpp: the class Address, with the hash by which maps find it.
-- inet_pton, inet_ntop, and std::hash of bytes and of a number, are arguments.
pub mod Equality
pub mod Parsing
pub mod Storage
mod Tests
use Prim.Native.Nat.{bit_xor}
use oxen_libquic.Base.{
  ℕ, zero, suc, ◌+◌, ◌*◌, ◌/◌, ◌%◌, ◌^◌, Bool, true, false, ◌&&◌, ◌||◌, List, [], ◌∷◌, ◌==◌,
  if◌then◌else◌, replicate,
}
use oxen_libquic.Base.Outcome.{Outcome, done, throws}

abbrev pub af_inet : ℕ
af_inet = 2

abbrev pub af_inet6 : ℕ
af_inet6 = 10

-- sizeof(sockaddr_in) and sizeof(sockaddr_in6).
abbrev pub sizeof_in : ℕ
sizeof_in = 16

abbrev pub sizeof_in6 : ℕ
sizeof_in6 = 28

-- `_sock_addr`, of which the port stands at one place for both families and the addresses at two, and
-- the length in `_addr`. The port is in the host's order.
pub record Address : Type 0 where
  pub family : ℕ
  pub port_bits : ℕ
  pub in4 : List ℕ
  pub in6 : List ℕ
  pub addrlen : ℕ

abbrev pub zeroed : Address
zeroed = record {
  family = 0;
  port_bits = 0;
  in4 = replicate 4 0;
  in6 = replicate 16 0;
  addrlen = 0;
}

-- The default constructor.
abbrev pub any_address : Address
any_address = record zeroed { family = af_inet6; addrlen = sizeof_in6 }

unfoldable pub is_ipv4 : Address → Bool
is_ipv4 a = (a.addrlen == sizeof_in) && (a.family == af_inet)

unfoldable pub is_ipv6 : Address → Bool
is_ipv6 a = (a.addrlen == sizeof_in6) && (a.family == af_inet6)

-- `port`, for an address of one of the two families.
unfoldable pub port : Address → ℕ
port a = a.port_bits

-- memcmp against 0, over blocks of the same size.
unfoldable pub same_bytes : List ℕ → List ℕ → Bool
same_bytes [] [] = true
same_bytes [] (y ∷ ys) = false
same_bytes (x ∷ xs) [] = false
same_bytes (x ∷ xs) (y ∷ ys) = (x == y) && same_bytes xs ys

-- `Address::operator==`.
unfoldable pub same_address : Address → Address → Bool
same_address a b =
    if is_ipv4 a && is_ipv4 b
    then (a.port_bits == b.port_bits) && same_bytes a.in4 b.in4
    else if is_ipv6 a && is_ipv6 b
    then (a.port_bits == b.port_bits) && same_bytes a.in6 b.in6
    else false

abbrev pub has_colon : List ℕ → Bool
has_colon [] = false
has_colon (c ∷ cs) = (c == 58) || has_colon cs

-- What inet_pton answers: 0, a negative number, or 1 with the bytes that it has written.
pub data Pton : Type 0 where
  no_address failed : Pton
  read : List ℕ → Pton

module _ (pton4 pton6 : List ℕ → Pton) where
  -- The end of the constructor, where `unset` is the address with the bytes that inet_pton has left. On
  -- a negative number the code makes an exception, which it does not throw.
  abbrev pub or_throw : Address → (List ℕ → Address) → Pton → Outcome Address
  or_throw unset f no_address = throws
  or_throw unset f failed = done unset
  or_throw unset f (read bytes) = done (f bytes)

  -- The constructor from a string. For an empty string it sets the port, and goes on.
  unfoldable pub from_string : List ℕ → ℕ → Outcome Address
  from_string addr p =
      let a6 = record zeroed { family = af_inet6; port_bits = p; addrlen = sizeof_in6 } in
      let a4 = record zeroed { family = af_inet; port_bits = p; addrlen = sizeof_in } in
      if has_colon addr
      then or_throw a6 (λ bytes. record a6 { in6 = bytes }) (pton6 addr)
      else or_throw a4 (λ bytes. record a4 { in4 = bytes }) (pton4 addr)

module _ (ntop4 ntop6 : List ℕ → List ℕ) where
  -- The text that `to_string` has inet_ntop make of the bytes.
  unfoldable pub host_text : Address → List ℕ
  unfolding is_ipv6
  host_text a = if is_ipv6 a then ntop6 a.in6 else ntop4 a.in4

abbrev pub inverse_golden_ratio : ℕ
inverse_golden_ratio = 0x9e3779b97f4a7c15

module _ (hash_bytes : List ℕ → ℕ) (hash_port : ℕ → ℕ) where
  abbrev pub mix : ℕ → ℕ → ℕ
  mix h p =
      bit_xor h ((hash_port p + inverse_golden_ratio + h * 2 ^ 6 % 2 ^ 64 + h / 2 ^ 2) % 2 ^ 64)

  -- `std::hash<Address>`.
  unfoldable pub hash : Address → ℕ
  hash a =
      if is_ipv4 a then mix (hash_bytes a.in4) a.port_bits else mix (hash_bytes a.in6) a.port_bits
