-- ===== src/Address/Parsing.antt =====
-- The constructor of an address from a string, against the text that `to_string` makes of one.
use oxen_libquic.Base.{ℕ, ◌≡◌, refl, Bool, true, false, List, [], ◌⊎◌, inl, inr, arith, length}
use oxen_libquic.Base.Outcome.{done, throws}
use oxen_libquic.Address.{
  Address, Pton, no_address, failed, read, is_ipv4, is_ipv6, port, has_colon, from_string,
  host_text, zeroed, same_address, af_inet, af_inet6, sizeof_in, sizeof_in6,
}
use oxen_libquic.Address.Equality.{Alike-same_address}

-- inet_ntop and inet_pton of one family: what the one writes the other reads, and a text has a colon
-- exactly for IPv6.
pub record IsText (pton : List ℕ → Pton) (ntop : List ℕ → List ℕ) (size : ℕ) (colon : Bool)
    : Type 0 where
  pub reads : (bytes : List ℕ) → length bytes ≡ size → pton (ntop bytes) ≡ read bytes
  pub form : (bytes : List ℕ) → length bytes ≡ size → has_colon (ntop bytes) ≡ colon

-- Where inet_pton reads what inet_ntop has written, and of their texts just those of IPv6 addresses have a
-- colon: an address of either family, with all its bytes, is got back from the text that inet_ntop makes
-- of it and from its port. The constructor returns an address that is the same.
pub from_string-host_text :
    (pton4 pton6 : List ℕ → Pton) (ntop4 ntop6 : List ℕ → List ℕ) (a : Address)
    → IsText pton4 ntop4 4 false
    → IsText pton6 ntop6 16 true
    → (is_ipv4 a ≡ true) ⊎ (is_ipv6 a ≡ true)
    → length a.in4 ≡ 4
    → length a.in6 ≡ 16
    → (b : Address) × (from_string pton4 pton6 (host_text ntop4 ntop6 a) (port a) ≡ done b)
      × (same_address a b ≡ true)
unfolding from_string host_text port is_ipv4 is_ipv6
from_string-host_text pton4 pton6 ntop4 ntop6 a t4 t6 (inl v4) n4 n6 =
    let b : Address = record zeroed {
      family = af_inet;
      port_bits = a.port_bits;
      addrlen = sizeof_in;
      in4 = a.in4;
    } in
    let not_v6 : is_ipv6 a ≡ false = ground arith in
    (
      b,
      rw (not_v6, t4.form a.in4 n4, t4.reads a.in4 n4) refl,
      Alike-same_address a b (refl, inl (v4, refl, refl)),
    )
from_string-host_text pton4 pton6 ntop4 ntop6 a t4 t6 (inr v6) n4 n6 =
    let b : Address = record zeroed {
      family = af_inet6;
      port_bits = a.port_bits;
      addrlen = sizeof_in6;
      in6 = a.in6;
    } in
    (
      b,
      rw (v6, t6.form a.in6 n6, t6.reads a.in6 n6) refl,
      Alike-same_address a b (refl, inr (v6, refl, refl)),
    )

-- The empty string, which is meant for the address `::`, is an exception at every port, where
-- inet_pton reads no IPv4 address in it.
pub from_string_empty :
    (pton4 pton6 : List ℕ → Pton) (p : ℕ)
    → pton4 [] ≡ no_address
    → from_string pton4 pton6 [] p ≡ throws
unfolding from_string
from_string_empty pton4 pton6 p h = rw h refl

-- Where inet_pton fails, the constructor returns the address of zeros.
pub from_string_failed :
    (pton4 pton6 : List ℕ → Pton) (addr : List ℕ) (p : ℕ)
    → has_colon addr ≡ false
    → pton4 addr ≡ failed
    → from_string pton4 pton6 addr p
      ≡ done (record zeroed { family = af_inet; port_bits = p; addrlen = sizeof_in })
unfolding from_string
from_string_failed pton4 pton6 addr p colon h = rw (colon, h) refl
