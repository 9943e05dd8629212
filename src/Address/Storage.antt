-- ===== src/Address/Storage.antt =====
-- include/quic/utils.hpp: the object of the class Address in memory, and the class Path, which holds two
-- of them and what ngtcp2 is given of them. A place is a number.
pub mod Owned
mod Tests
use oxen_libquic.Base.{ℕ, ◌+◌, ◌*◌, List, [], ◌∷◌, ◌++◌, ◌==◌, if◌then◌else◌, take, drop, replicate}
use oxen_libquic.Address.{Address, af_inet, af_inet6, sizeof_in, sizeof_in6}

-- `_sock_addr`, its place and its bytes, and the pointer and the length in `_addr`.
pub record Stored : Type 0 where
  pub place : ℕ
  pub bytes : List ℕ
  pub addr : ℕ
  pub addrlen : ℕ

-- sizeof(sockaddr_storage).
abbrev pub sizeof_storage : ℕ
sizeof_storage = 128

-- The first two bytes as a number of a little-endian machine, and as one in network order.
abbrev pub little : List ℕ → ℕ
little [] = 0
little (a ∷ []) = a
little (a ∷ b ∷ bs) = a + 256 * b

abbrev pub big : List ℕ → ℕ
big [] = 0
big (a ∷ []) = a
big (a ∷ b ∷ bs) = 256 * a + b

-- The `m` bytes from the `k`th on.
abbrev pub window : ℕ → ℕ → List ℕ → List ℕ
window k m bytes = take m (drop k bytes)

-- `sa_family`.
abbrev pub family : List ℕ → ℕ
family bytes = little (window 0 2 bytes)

-- The fields, at their offsets in sockaddr_in and sockaddr_in6.
abbrev pub read_address : Stored → Address
read_address a = record {
  family = family a.bytes;
  port_bits = big (window 2 2 a.bytes);
  in4 = window 4 4 a.bytes;
  in6 = window 8 16 a.bytes;
  addrlen = a.addrlen;
}

-- std::memmove of `n` bytes to the start of `old`.
abbrev pub memmove : ℕ → List ℕ → List ℕ → List ℕ
memmove n new old = take n new ++ drop n old

-- The constructors, at a place.
unfoldable pub default_address : ℕ → Stored
default_address place = record {
  place = place;
  bytes = af_inet6 ∷ 0 ∷ replicate 126 0;
  addr = place;
  addrlen = sizeof_in6;
}

unfoldable pub from_bytes : ℕ → List ℕ → ℕ → Stored
from_bytes place s n = record {
  place = place;
  bytes = memmove n s (replicate sizeof_storage 0);
  addr = place;
  addrlen = n;
}

abbrev pub sockaddr_size : List ℕ → ℕ
sockaddr_size s = if family s == af_inet then sizeof_in else sizeof_in6

unfoldable pub from_sockaddr : ℕ → List ℕ → Stored
unfolding from_bytes
from_sockaddr place s = from_bytes place s (sockaddr_size s)

-- `_copy_internals`.
unfoldable pub copy_internals : Stored → Stored → Stored
copy_internals self other = record self { bytes = other.bytes; addrlen = other.addrlen }

unfoldable pub copy_address : ℕ → Stored → Stored
unfolding copy_internals
copy_address place other =
    copy_internals
      (record { place = place; bytes = replicate sizeof_storage 0; addr = place; addrlen = 0 })
      other

-- The assignment from a pointer to a sockaddr.
unfoldable pub assign_sockaddr : Stored → List ℕ → Stored
assign_sockaddr self s = record self {
  addrlen = sockaddr_size s;
  bytes = memmove (sockaddr_size s) s self.bytes;
}

-- The class Path: its addresses, and `_path`, the pointer and the length for each.
pub record AddressPath : Type 0 where
  pub local : Stored
  pub remote : Stored
  pub path_local : ℕ × ℕ
  pub path_remote : ℕ × ℕ

-- `ngtcp2_addr` of an address, as it is copied into `_path`.
abbrev pub ngtcp2_addr : Stored → ℕ × ℕ
ngtcp2_addr a = (a.addr, a.addrlen)

abbrev pub with_path : Stored → Stored → AddressPath
with_path l r = record {
  local = l;
  remote = r;
  path_local = ngtcp2_addr l;
  path_remote = ngtcp2_addr r;
}

unfoldable pub default_path : ℕ → ℕ → AddressPath
unfolding default_address
default_path at_local at_remote = with_path (default_address at_local) (default_address at_remote)

unfoldable pub make_path : ℕ → ℕ → Stored → Stored → AddressPath
unfolding copy_address
make_path at_local at_remote l r = with_path (copy_address at_local l) (copy_address at_remote r)

unfoldable pub copy_path : ℕ → ℕ → AddressPath → AddressPath
unfolding make_path
copy_path at_local at_remote p = make_path at_local at_remote p.local p.remote

-- `Path::operator=`.
unfoldable pub assign_path : AddressPath → AddressPath → AddressPath
unfolding copy_internals
assign_path self p =
    with_path (copy_internals self.local p.local) (copy_internals self.remote p.remote)
