-- ===== src/Address/Tests.antt =====
-- The theorems on addresses, with texts that are simpler than inet_ntop's.
use oxen_libquic.Base.{ℕ, ◌+◌, ◌-◌, ap, inl, arith, ◌≡◌, refl, true, false, List, [], ◌∷◌, length}
use oxen_libquic.Base.Outcome.{done}
use oxen_libquic.Address.{
  Address, zeroed, af_inet, sizeof_in, is_ipv4, is_ipv6, port, same_address, same_bytes, has_colon,
  from_string, hash, host_text, Pton, read, no_address,
}
use oxen_libquic.Address.Equality.{same_address-hash}
use oxen_libquic.Address.Parsing.{from_string-host_text}

abbrev localhost : Address
localhost = record zeroed {
  family = af_inet;
  addrlen = sizeof_in;
  port_bits = 443;
  in4 = 127 ∷ 0 ∷ 0 ∷ 1 ∷ [];
}

-- Bytes that do not count for an IPv4 address.
abbrev same_host : Address
same_host = record localhost { in6 = 9 ∷ [] }

same_address-hash_example :
    (hash length (λ p. p) localhost ≡ hash length (λ p. p) same_host)
    × (same_address same_host localhost ≡ true)
    × (same_address localhost localhost ≡ true)
unfolding same_address same_bytes is_ipv4 is_ipv6
same_address-hash_example =
    same_address-hash length (λ p. p) localhost same_host localhost refl refl

-- Texts of letters, the first of an IPv6 one a colon.
abbrev letters : List ℕ → List ℕ
letters [] = []
letters (x ∷ xs) = (x + 100) ∷ letters xs

abbrev bytes_of : List ℕ → List ℕ
bytes_of [] = []
bytes_of (c ∷ cs) = (c - 100) ∷ bytes_of cs

bytes_of-letters : (xs : List ℕ) → bytes_of (letters xs) ≡ xs
bytes_of-letters [] = refl
bytes_of-letters (x ∷ xs) = ground (arith, bytes_of-letters xs)

no_colon : (xs : List ℕ) → has_colon (letters xs) ≡ false
no_colon [] = refl
no_colon (x ∷ xs) = ground (arith, no_colon xs)

abbrev pton4 : List ℕ → Pton
pton4 text = read (bytes_of text)

abbrev pton6 : List ℕ → Pton
pton6 [] = no_address
pton6 (c ∷ cs) = read (bytes_of cs)

abbrev ntop6 : List ℕ → List ℕ
ntop6 bytes = 58 ∷ letters bytes

from_string-host_text_example :
    (b : Address) × (from_string pton4 pton6 (host_text letters ntop6 localhost) 443 ≡ done b)
    × (same_address localhost b ≡ true)
unfolding port is_ipv4
from_string-host_text_example =
    from_string-host_text pton4 pton6 letters ntop6 localhost
      (record {
        reads = λ bytes h. ap read (bytes_of-letters bytes);
        form = λ bytes h. no_colon bytes;
      })
      (record { reads = λ bytes h. ap read (bytes_of-letters bytes); form = λ bytes h. refl })
      (inl refl) (omega arith) (omega arith)
