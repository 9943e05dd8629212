-- ===== src/Cid.antt =====
-- include/quic/utils.hpp and src/utils.cpp: ConnectionID, the key of the map of connections, with its
-- hash. The bytes of `ngtcp2_cid` that a constructor does not write are what the memory held before.
pub mod Hash
mod Tests
use oxen_libquic.Base.{ℕ, ◌+◌, ◌*◌, Bool, ◌&&◌, List, [], ◌∷◌, ◌++◌, ◌==◌, length, take, drop}
use oxen_libquic.Address.{same_bytes}

-- `data`, an array of NGTCP2_MAX_CIDLEN = 20 bytes, and `datalen`.
pub record ConnectionId : Type 0 where
  pub data_bytes : List ℕ
  pub datalen : ℕ

abbrev pub max_cidlen : ℕ
max_cidlen = 20

-- The constructor from bytes, in the memory `old`.
unfoldable pub make_cid : List ℕ → List ℕ → ConnectionId
make_cid old cid = record { data_bytes = cid ++ drop (length cid) old; datalen = length cid }

-- `ConnectionID::operator==`, by memcmp of `datalen` bytes.
unfoldable pub same_cid : ConnectionId → ConnectionId → Bool
same_cid a b =
    (a.datalen == b.datalen)
    && same_bytes (take a.datalen a.data_bytes) (take a.datalen b.data_bytes)

-- The number that bytes hold in memory, the least significant first.
unfoldable pub little_endian : List ℕ → ℕ
little_endian [] = 0
little_endian (b ∷ bs) = b + 256 * little_endian bs

-- `std::hash<ConnectionID>`: the first `size_t` of the data.
unfoldable pub hash_cid : ConnectionId → ℕ
hash_cid c = little_endian (take 8 c.data_bytes)
