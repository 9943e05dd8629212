-- ===== src/Endpoint/Registry.antt =====
-- The map of connections: its invariant under all that an endpoint does.
use mathlib.Core.Path.{subst, subst₂}
use oxen_libquic.Base.{
  ℕ, ◌≡◌, ◌≢◌, inl, inr, refl, sym, false, not, ◌||◌, Option, none, some, List, [], ◌∷◌, ◌++◌, ◌==◌,
  ==_iff, if◌then◌else◌, arith, Bool-cases, Option-cases,
}
use oxen_libquic.Base.Int.{ℤ}
use oxen_libquic.Base.Outcome.{Holds, Holds-if}
use oxen_libquic.Endpoint.{
  Endpoint, Conn, Code, is_idle_close, is_positive, no_error, err_draining, err_drop_conn,
  err_crypto, find, update, erase, delete_connection, drain_connection, close_connection,
  read_packet,
}

-- An entry is null, or its connection has the key for its source id and is not marked closing.
abbrev pub IsEntry : ℕ × Option Conn → Type 0
IsEntry (k, none) = Unit {0}
IsEntry (k, some c) = (c.scid ≡ k) × (c.closing ≡ false)

-- No key stands twice.
abbrev pub IsMap : List (ℕ × Option Conn) → Type 0
IsMap [] = Unit {0}
IsMap ((k, c) ∷ cs) = (find k cs ≡ none) × IsEntry (k, c) × IsMap cs

abbrev pub IsWf : Endpoint → Type 0
IsWf ep = IsMap ep.conns

find_ne-erase :
    (cid k : ℕ) (cs : List (ℕ × Option Conn)) → find k cs ≡ none → find k (erase cid cs) ≡ none
unfolding find erase
find_ne-erase cid k [] h = refl
find_ne-erase cid k ((j, c) ∷ cs) h = ground (arith, find_ne-erase cid k cs)

pub erase-IsMap : (cid : ℕ) (cs : List (ℕ × Option Conn)) → IsMap cs → IsMap (erase cid cs)
unfolding erase
erase-IsMap cid [] m = tt
erase-IsMap cid ((k, c) ∷ cs) m = elim (Bool-cases (k == cid)) [
  | inl e ↦ rw e m.2
  | inr e ↦ rw e (find_ne-erase cid k cs m.0, m.1, erase-IsMap cid cs m.2)
]

-- The entry is gone, and no other is touched.
pub find-erase :
    (cid k : ℕ) (cs : List (ℕ × Option Conn))
    → IsMap cs
    → find k (erase cid cs) ≡ (if k == cid then none else find k cs)
unfolding find erase
find-erase cid k [] m = ground arith
find-erase cid k ((j, c) ∷ cs) m = ground (arith, m.0, find-erase cid k cs m.2)

find-none-update :
    (cid k : ℕ) (v : Option Conn) (cs : List (ℕ × Option Conn))
    → find k cs ≡ none
    → find k (update cid v cs) ≡ none
unfolding find update
find-none-update cid k v [] h = refl
find-none-update cid k v ((j, c) ∷ cs) h = ground (arith, find-none-update cid k v cs)

pub update-IsMap :
    (cid : ℕ) (v : Option Conn) (cs : List (ℕ × Option Conn))
    → IsEntry (cid, v)
    → IsMap cs
    → IsMap (update cid v cs)
unfolding update
update-IsMap cid v [] e m = tt
update-IsMap cid v ((k, c) ∷ cs) e m = elim (Bool-cases (k == cid)) [
  | inl same ↦ rw same (m.0, subst (λ x. IsEntry (x, v)) (sym ((==_iff k cid).0 same)) e, m.2)
  | inr other ↦ rw other (find-none-update cid k v cs m.0, m.1, update-IsMap cid v cs e m.2)
]

pub delete_connection-IsWf :
    (ep : Endpoint) (cid : ℕ) → IsWf ep → Holds IsWf (delete_connection ep cid)
unfolding delete_connection
delete_connection-IsWf ep cid m = elim (Option-cases (find cid ep.conns)) [
  | inl e ↦ rw (e, Holds) m
  | inr (none, e) ↦ rw (e, Holds) tt
  | inr (some c, e) ↦ rw (e, Holds) (erase-IsMap cid ep.conns m)
]

pub drain_connection-IsWf :
    (ep : Endpoint) (c : Conn) (now pto : ℕ)
    → c.closing ≡ false
    → IsWf ep
    → IsWf (drain_connection ep c now pto)
unfolding drain_connection
drain_connection-IsWf ep c now pto h m = elim (Bool-cases c.draining) [
  | inl e ↦ rw e m
  | inr e ↦ rw e (update-IsMap c.scid _ ep.conns (ground (arith, h)) m)
]

pub close_connection-IsWf :
    (ep : Endpoint) (c : Conn) (code : Code) (written : ℤ)
    → IsWf ep
    → Holds IsWf (close_connection ep c code written)
unfolding close_connection
close_connection-IsWf ep c code written m = Holds-if (c.closing || c.draining) IsWf _ _ m (
    Holds-if (is_idle_close code) IsWf _ _ (delete_connection-IsWf ep c.scid m) (
      Holds-if (not (is_positive written)) IsWf _ _ (delete_connection-IsWf ep c.scid m)
        (Holds-if ep.has_socket IsWf _ _ m (delete_connection-IsWf ep c.scid m))))

pub read_packet-IsWf :
    (ep : Endpoint) (c : Conn) (rv : Code) (now pto : ℕ) (written : ℤ)
    → c.closing ≡ false
    → IsWf ep
    → Holds IsWf (read_packet ep c rv now pto written)
unfolding read_packet
read_packet-IsWf ep c no_error now pto written h m = m
read_packet-IsWf ep c err_draining now pto written h m = drain_connection-IsWf ep c now pto h m
read_packet-IsWf ep c err_drop_conn now pto written h m = delete_connection-IsWf ep c.scid m
read_packet-IsWf ep c err_crypto now pto written h m = delete_connection-IsWf ep c.scid m
read_packet-IsWf ep c code now pto written h m = close_connection-IsWf ep c code written m

-- An entry that is found has the key for its source id, and is not closing.
pub find-IsEntry :
    (cid : ℕ) (cs : List (ℕ × Option Conn)) (v : Option Conn)
    → IsMap cs
    → find cid cs ≡ some v
    → IsEntry (cid, v)
unfolding find
find-IsEntry cid [] v m h = absurd (cc)
find-IsEntry cid ((k, c) ∷ cs) v m h = elim (Bool-cases (k == cid)) [
  | inl e ↦ subst₂ (λ x y. IsEntry (x, y)) ((==_iff k cid).0 e) (ground arith) m.1
  | inr e ↦ find-IsEntry cid cs v m.2 (rw e at h)
]

find-none-snoc :
    (cid k : ℕ) (v : Option Conn) (cs : List (ℕ × Option Conn))
    → cid ≢ k
    → find k cs ≡ none
    → find k (cs ++ ((cid, v) ∷ [])) ≡ none
unfolding find
find-none-snoc cid k v [] h n = ground arith
find-none-snoc cid k v ((j, c) ∷ cs) h n = ground (arith, find-none-snoc cid k v cs h)

-- A key that is not in the map, put at its end.
pub snoc-IsMap :
    (cid : ℕ) (v : Option Conn) (cs : List (ℕ × Option Conn))
    → find cid cs ≡ none
    → IsEntry (cid, v)
    → IsMap cs
    → IsMap (cs ++ ((cid, v) ∷ []))
unfolding find
snoc-IsMap cid v [] n e m = (refl, e, tt)
snoc-IsMap cid v ((k, c) ∷ cs) n e m =
    (find-none-snoc cid k v cs (ground arith) m.0, m.1, snoc-IsMap cid v cs (ground arith) e m.2)
