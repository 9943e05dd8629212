-- ===== src/Address/Storage/Owned.antt =====
-- Copies of addresses and of paths: they own what they point at, and equal what they copy.
use oxen_libquic.Base.{
  ℕ, ◌+◌, ◌-◌, ◌≤◌, ◌≡◌, refl, sym, ap, ◌∙◌, true, List, length, take, drop, length-take,
  length-drop, drop-append_le, take-append_le, take-take, take-drop, arith, inl, inr, ◌⊎◌,
  replicate,
}
use oxen_libquic.Address.{af_inet, af_inet6, sizeof_in, sizeof_in6, is_ipv4, is_ipv6, same_address}
use oxen_libquic.Address.Equality.{Alike, Alike-same_address}
use oxen_libquic.Address.Storage.{
  Stored, sizeof_storage, little, big, window, family, read_address, memmove, sockaddr_size,
  from_sockaddr, copy_internals, copy_address, assign_sockaddr, default_address, AddressPath,
  with_path, default_path, make_path, copy_path, assign_path,
}

-- The address points at its own bytes.
abbrev pub OwnsBytes : Stored → Type 0
OwnsBytes a = a.addr ≡ a.place

-- What ngtcp2 is given of a path are the path's own addresses, with their lengths.
pub record IsOwn (p : AddressPath) : Type 0 where
  pub local_bytes : OwnsBytes p.local
  pub remote_bytes : OwnsBytes p.remote
  pub path_local : p.path_local ≡ (p.local.place, p.local.addrlen)
  pub path_remote : p.path_remote ≡ (p.remote.place, p.remote.addrlen)

-- The paths that the constructors and the assignment make, one from others.
pub data Built : AddressPath → Type 0 where
  by_default : (at_local at_remote : ℕ) → Built (default_path at_local at_remote)
  of_addresses : (at_local at_remote : ℕ) (l r : Stored) → Built (make_path at_local at_remote l r)
  copied :
      (at_local at_remote : ℕ) (p : AddressPath) → Built p → Built (copy_path at_local at_remote p)
  assigned : (self p : AddressPath) → Built self → Built p → Built (assign_path self p)

with_path-IsOwn : (l r : Stored) → OwnsBytes l → OwnsBytes r → IsOwn (with_path l r)
with_path-IsOwn l r hl hr = record {
  local_bytes = hl;
  remote_bytes = hr;
  path_local = ap (λ n. (n, l.addrlen)) hl;
  path_remote = ap (λ n. (n, r.addrlen)) hr;
}

pub Built-IsOwn : (p : AddressPath) → Built p → IsOwn p
unfolding default_path make_path copy_path assign_path copy_address copy_internals default_address
Built-IsOwn _ (by_default a b) = with_path-IsOwn _ _ refl refl
Built-IsOwn _ (of_addresses a b l r) = with_path-IsOwn _ _ refl refl
Built-IsOwn _ (copied a b p h) = with_path-IsOwn _ _ refl refl
Built-IsOwn _ (assigned self p h k) =
    let o : IsOwn self = Built-IsOwn self h in with_path-IsOwn _ _ o.local_bytes o.remote_bytes

-- However paths have been made, copied and assigned: a path that is assigned another one keeps its
-- own places, holds the other's addresses, and gives ngtcp2 pointers to its own bytes with the new
-- lengths, never to those of the other path. The other path is as it was.
pub assign_path-IsOwn :
    (self p : AddressPath)
    → Built self
    → Built p
    → let q = assign_path self p in
      IsOwn q
      × IsOwn p
      × (q.local.place ≡ self.local.place)
      × (q.remote.place ≡ self.remote.place)
      × (read_address q.local ≡ read_address p.local)
      × (read_address q.remote ≡ read_address p.remote)
unfolding assign_path copy_internals
assign_path-IsOwn self p h k = (
  unfold assign_path in unfold copy_internals in Built-IsOwn _ (assigned self p h k),
  Built-IsOwn p k,
  refl,
  refl,
  refl,
  refl,
)

-- A window into what memmove has moved does not see what was there before.
window-memmove :
    (k m n : ℕ) (new old : List ℕ)
    → k + m ≤ n
    → n ≤ length new
    → window k m (memmove n new old) ≡ window k m new
window-memmove k m n new old h w =
    ap (take m) (drop-append_le k (take n new) (drop n old) (omega (arith, length-take n new)))
    ∙ take-append_le m (drop k (take n new)) (drop n old)
        (omega (arith, length-drop k (take n new), length-take n new))
    ∙ ap (take m) (sym (take-drop k n new (omega arith)))
    ∙ take-take m (n - k) (drop k new) (omega arith)

-- An address whose first bytes have been set from a sockaddr of `n` bytes, at the end of which `old`
-- remains.
abbrev set_from : ℕ → List ℕ → ℕ → List ℕ → Stored
set_from place s n old = record {
  place = place;
  bytes = memmove n s old;
  addr = place;
  addrlen = n;
}

module _ (s : List ℕ) (p q : ℕ) (old1 old2 : List ℕ) where
  family_set : (n : ℕ) (old : List ℕ) → 16 ≤ n → n ≤ length s → family (memmove n s old) ≡ family s
  family_set n old h w = ap little (window-memmove 0 2 n s old (omega arith) w)

  port_set :
      (n : ℕ)
      → 16 ≤ n
      → n ≤ length s
      → big (window 2 2 (memmove n s old1)) ≡ big (window 2 2 (memmove n s old2))
  port_set n h w = ap big (
      window-memmove 2 2 n s old1 (omega arith) w
      ∙ sym (window-memmove 2 2 n s old2 (omega arith) w))

  same_ipv4 :
      family s ≡ af_inet
      → 16 ≤ length s
      → Alike
          (read_address (set_from p s sizeof_in old1))
          (read_address (set_from q s sizeof_in old2))
  unfolding is_ipv4
  same_ipv4 f w = (
    port_set 16 (omega arith) w,
    inl (
      rw (family_set 16 old1 (omega arith) w ∙ f) refl,
      rw (family_set 16 old2 (omega arith) w ∙ f) refl,
      window-memmove 4 4 16 s old1 (omega arith) w
          ∙ sym (window-memmove 4 4 16 s old2 (omega arith) w),
    ),
  )

  same_ipv6 :
      family s ≡ af_inet6
      → 28 ≤ length s
      → Alike
          (read_address (set_from p s sizeof_in6 old1))
          (read_address (set_from q s sizeof_in6 old2))
  unfolding is_ipv6
  same_ipv6 f w = (
    port_set 28 (omega arith) w,
    inr (
      rw (family_set 28 old1 (omega arith) w ∙ f) refl,
      rw (family_set 28 old2 (omega arith) w ∙ f) refl,
      window-memmove 8 16 28 s old1 (omega arith) w
          ∙ sym (window-memmove 8 16 28 s old2 (omega arith) w),
    ),
  )

-- An address that is assigned a sockaddr of one of the two families, of as many bytes as its family
-- says, equals the address that is constructed from it, whatever it held before: of an IPv6 address that
-- becomes an IPv4 one, the bytes that are left behind make no difference.
pub assign_sockaddr-same_address :
    (self : Stored) (place : ℕ) (s : List ℕ)
    → (family s ≡ af_inet) ⊎ (family s ≡ af_inet6)
    → sockaddr_size s ≤ length s
    → same_address (read_address (assign_sockaddr self s)) (read_address (from_sockaddr place s))
      ≡ true
unfolding assign_sockaddr from_sockaddr
assign_sockaddr-same_address self place s (inl f) w =
    let n : sockaddr_size s ≡ sizeof_in = rw f refl in
    rw n (
      Alike-same_address _ _
        (same_ipv4 s self.place place self.bytes (replicate sizeof_storage 0) f (omega arith)))
assign_sockaddr-same_address self place s (inr f) w =
    let n : sockaddr_size s ≡ sizeof_in6 = rw f refl in
    rw n (
      Alike-same_address _ _
        (same_ipv6 s self.place place self.bytes (replicate sizeof_storage 0) f (omega arith)))
