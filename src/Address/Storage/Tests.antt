-- ===== src/Address/Storage/Tests.antt =====
-- A path that is assigned another one, and an IPv6 address that becomes an IPv4 one.
use oxen_libquic.Base.{ℕ, ◌≡◌, refl, true, List, ◌∷◌, inl, replicate, arith}
use oxen_libquic.Address.{same_address}
use oxen_libquic.Address.Storage.{
  Stored, read_address, from_sockaddr, assign_sockaddr, default_address, AddressPath, default_path,
  make_path, assign_path,
}
use oxen_libquic.Address.Storage.Owned.{
  IsOwn, by_default, of_addresses, assign_path-IsOwn, assign_sockaddr-same_address,
}

-- 127.0.0.1, port 443, as a sockaddr_in.
abbrev localhost : List ℕ
localhost = 2 ∷ 0 ∷ 1 ∷ 187 ∷ 127 ∷ 0 ∷ 0 ∷ 1 ∷ replicate 8 0

abbrev source : AddressPath
source = make_path 5000 6000 (from_sockaddr 3000 localhost) (default_address 4000)

assign_path-IsOwn_example :
    let q = assign_path (default_path 1000 2000) source in
    IsOwn q
    × IsOwn source
    × (q.local.place ≡ (default_path 1000 2000).local.place)
    × (q.remote.place ≡ (default_path 1000 2000).remote.place)
    × (read_address q.local ≡ read_address source.local)
    × (read_address q.remote ≡ read_address source.remote)
assign_path-IsOwn_example =
    assign_path-IsOwn (default_path 1000 2000) source (by_default 1000 2000)
      (of_addresses 5000 6000 (from_sockaddr 3000 localhost) (default_address 4000))

-- ::ff:…:ff with bytes everywhere.
abbrev old : Stored
old = record { place = 7; bytes = 10 ∷ 0 ∷ replicate 126 255; addr = 7; addrlen = 28 }

assign_sockaddr-same_address_example :
    same_address
      (read_address (assign_sockaddr old localhost))
      (read_address (from_sockaddr 9 localhost))
    ≡ true
assign_sockaddr-same_address_example =
    assign_sockaddr-same_address old 9 localhost (inl refl) (omega arith)
