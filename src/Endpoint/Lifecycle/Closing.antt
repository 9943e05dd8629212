-- ===== src/Endpoint/Lifecycle/Closing.antt =====
-- `close_conns` and `get_all_conns`.
use mathlib.Core.Path.{subst}
use oxen_libquic.Base.{
  ℕ, ◌≡◌, refl, ap, sym, ◌∙◌, true, false, Option, none, some, List, [], ◌∷◌, ◌++◌, map, not, ◌&&◌,
  Bool, ◌==◌, ==_iff, if◌then◌else◌, arith, All, append-nil, append_assoc, Bool-cases, inl, inr,
}
use oxen_libquic.Base.Int.{ℤ}
use oxen_libquic.Base.Outcome.{Outcome, done, undefined, out_of_fuel, done-injective, >>=-eq-done}
use oxen_libquic.Endpoint.{
  Endpoint, Conn, Direction, same_direction, outbound, inbound, no_error, send_close_packet,
  is_positive, find, erase, close_connection, delete_connection, do_action, call_closing,
}
use oxen_libquic.Endpoint.Lifecycle.{selects, close_from, close_conns, get_all_conns}
use oxen_libquic.Endpoint.Registry.{IsMap, IsWf, find-erase}
use oxen_libquic.Endpoint.Incoming.{connect, fresh_cid, make_conn, raised, Made}

-- Whether a connection of a direction is asked for: with no direction each is.
abbrev pub asked : Option Direction → Direction → Bool
asked none dir = true
asked (some outbound) outbound = true
asked (some outbound) inbound = false
asked (some inbound) outbound = false
asked (some inbound) inbound = true

-- The connections that are to get a close packet, by their ids: those asked for that are not draining.
abbrev pub closing_ids : Option Direction → List (ℕ × Option Conn) → List ℕ
closing_ids d [] = []
closing_ids d ((k, none) ∷ cs) = closing_ids d cs
closing_ids d ((k, some c) ∷ cs) =
    let rest = closing_ids d cs in if asked d c.dir && not c.draining then k ∷ rest else rest

-- Whether no entry is null and a close packet can be written for each of these.
abbrev pub is_closable : Option Direction → (ℕ → ℤ) → List (ℕ × Option Conn) → Bool
is_closable d written [] = true
is_closable d written ((k, none) ∷ cs) = false
is_closable d written ((k, some c) ∷ cs) =
    (if asked d c.dir && not c.draining then is_positive (written k) else true)
    && is_closable d written cs

-- The entries of the loop are in the map.
abbrev AllFound : Endpoint → List (ℕ × Option Conn) → Type 0
AllFound ep cs = All (λ e. find e.0 ep.conns ≡ some e.1) cs

selects-asked : (d : Option Direction) (c : Conn) → selects d c ≡ asked d c.dir
selects-asked none c = refl
selects-asked (some d) c = go c.dir d
  where
    go : (dir d : Direction) → same_direction dir d ≡ asked (some d) dir
    go outbound outbound = refl
    go outbound inbound = refl
    go inbound outbound = refl
    go inbound inbound = refl

close_connection_draining :
    (ep : Endpoint) (c : Conn) (w : ℤ)
    → c.draining ≡ true
    → close_connection ep c no_error w ≡ done ep
unfolding close_connection
close_connection_draining ep c w dr = ground (arith, dr)

close_connection_sent :
    (ep : Endpoint) (c : Conn) (k : ℕ) (w : ℤ)
    → ep.has_socket ≡ true
    → (c.scid ≡ k) × (c.closing ≡ false) × (c.draining ≡ false) × (is_positive w ≡ true)
    → close_connection ep c no_error w ≡ done (do_action (send_close_packet k) ep)
unfolding close_connection
close_connection_sent ep c k w s a = ground (arith, s)

close_connection_deleted :
    (ep : Endpoint) (k : ℕ) (c : Conn) (w : ℤ)
    → c.scid ≡ k
    → c.closing ≡ false
    → c.draining ≡ false
    → is_positive w ≡ false
    → close_connection ep c no_error w ≡ delete_connection ep k
unfolding close_connection
close_connection_deleted ep k c w e cl dr h = rw (cl, dr, h) (ap (delete_connection ep) e)

delete_connection-find :
    (ep : Endpoint) (k : ℕ) (c : Conn)
    → IsWf ep
    → find k ep.conns ≡ some (some c)
    → (ep' : Endpoint) × (delete_connection ep k ≡ done ep') × (find k ep'.conns ≡ none)
unfolding delete_connection
delete_connection-find ep k c m h = (
  record ep { conns = erase k ep.conns; log = ep.log ++ (call_closing c).1 },
  rw (h, delete_connection) refl,
  ground (arith, find-erase k k ep.conns m),
)

all_found :
    (ep : Endpoint) (cs : List (ℕ × Option Conn))
    → IsMap cs
    → ((k : ℕ) (c : Option Conn) → find k cs ≡ some c → find k ep.conns ≡ some c)
    → AllFound ep cs
unfolding find
all_found ep [] m h = tt
all_found ep ((k, c) ∷ cs) m h = (
  h k c (ground arith),
  all_found ep cs m.2 (λ j e g. h j e (elim (Bool-cases (k == j)) [
    | inl same ↦
        let twice : find k cs ≡ some e = ap (λ i. find i cs) ((==_iff k j).0 same) ∙ g in
        absurd (none_some (sym m.0 ∙ twice))
    | inr other ↦ rw other g
  ])),
)
  where
    none_some : {x : Option Conn} → ◌≡◌ {A = Option (Option Conn)} none (some x) → ⊥
    none_some q = cc

-- What the loop over entries comes to.
abbrev closed_all :
    List (ℕ × Option Conn) → Option Direction → (ℕ → ℤ) → Endpoint → Outcome Endpoint
closed_all cs d written ep =
    if is_closable d written cs
    then done (record ep { log = ep.log ++ map send_close_packet (closing_ids d cs) })
    else undefined

closed_all-log :
    (cs : List (ℕ × Option Conn)) (d : Option Direction) (written : ℕ → ℤ) (ep : Endpoint) (k : ℕ)
    → closed_all cs d written (do_action (send_close_packet k) ep) ≡ (
        if is_closable d written cs
        then done (record ep {
          log = ep.log ++ (send_close_packet k ∷ map send_close_packet (closing_ids d cs));
        })
        else undefined)
closed_all-log cs d written ep k =
    ap (λ t. if is_closable d written cs then done (record ep { log = t }) else undefined)
      (append_assoc ep.log (send_close_packet k ∷ []) (map send_close_packet (closing_ids d cs)))

-- One connection that is asked for.
close_from_asked :
    (ep : Endpoint) (k : ℕ) (c : Conn) (cs : List (ℕ × Option Conn)) (d : Option Direction)
    (written : ℕ → ℤ)
    → IsWf ep
    → ep.has_socket ≡ true
    → c.scid ≡ k
    → c.closing ≡ false
    → find k ep.conns ≡ some (some c)
    → selects d c ≡ true
    → ((ep' : Endpoint)
        → IsWf ep'
        → ep'.has_socket ≡ true
        → ep'.conns ≡ ep.conns
        → close_from cs d written ep' ≡ closed_all cs d written ep')
    → close_from ((k, some c) ∷ cs) d written ep ≡ closed_all ((k, some c) ∷ cs) d written ep
unfolding close_from
close_from_asked ep k c cs d written m so e cl f sel rest =
    let ask : asked d c.dir ≡ true = sym (selects-asked d c) ∙ sel in
    elim (Bool-cases c.draining) [
      | inl dr ↦
          rw (sel, close_connection_draining ep c (written k) dr, f, ask, dr) (rest ep m so refl)
      | inr dr ↦ elim (Bool-cases (is_positive (written k))) [
        | inl pos ↦
            rw (sel, close_connection_sent ep c k (written k) so (e, cl, dr, pos), f, ask, dr, pos)
              (rest (do_action (send_close_packet k) ep) m so refl
                ∙ closed_all-log cs d written ep k)
        | inr neg ↦
            let (ep', e', gone) = delete_connection-find ep k c m f in
            rw
              (sel, close_connection_deleted ep k c (written k) e cl dr neg, e', gone, ask, dr, neg)
              refl
      ]
    ]

close_from-closed_all :
    (cs : List (ℕ × Option Conn)) (d : Option Direction) (written : ℕ → ℤ) (ep : Endpoint)
    → IsWf ep
    → ep.has_socket ≡ true
    → IsMap cs
    → AllFound ep cs
    → close_from cs d written ep ≡ closed_all cs d written ep
unfolding close_from
close_from-closed_all [] d written ep m so n a =
    ap (λ t. done (record ep { log = t })) (sym (append-nil ep.log))
close_from-closed_all ((k, none) ∷ cs) d written ep m so n a = refl
close_from-closed_all ((k, some c) ∷ cs) d written ep m so n a = elim (Bool-cases (selects d c)) [
  | inl sel ↦ close_from_asked ep k c cs d written m so n.1.0 n.1.1 a.0 sel (λ ep' m' so' same.
      close_from-closed_all cs d written ep' m' so' n.2
        (subst (λ t. All (λ e. find e.0 t ≡ some e.1) cs) (sym same) a.1))
  | inr not_sel ↦
      let not_asked : asked d c.dir ≡ false = sym (selects-asked d c) ∙ not_sel in
      rw (not_sel, not_asked) (close_from-closed_all cs d written ep m so n.2 a.1)
]

-- `close_conns` on a sound map with a socket: where no entry is null and a close packet can be written
-- for each connection that is asked for and not draining, it sends one to each of them, in the order of
-- the list, to no other, and removes none. Otherwise it is undefined: the loop reads through the null
-- pointer, or the connection is deleted under it.
pub close_conns-closing_ids :
    (ep : Endpoint) (d : Option Direction) (written : ℕ → ℤ)
    → IsWf ep
    → ep.has_socket ≡ true
    → close_conns ep d written ≡ (
        if is_closable d written ep.conns
        then done (record ep { log = ep.log ++ map send_close_packet (closing_ids d ep.conns) })
        else undefined)
unfolding close_conns
close_conns-closing_ids ep d written m so =
    close_from-closed_all ep.conns d written ep m so m (all_found ep ep.conns m (λ k c e. e))

get_all_conns-snoc :
    (cs : List (ℕ × Option Conn)) (k : ℕ) (d : Direction)
    → get_all_conns (cs ++ ((k, none) ∷ [])) (some d) ≡ undefined
unfolding get_all_conns
get_all_conns-snoc [] k d = refl
get_all_conns-snoc ((j, none) ∷ cs) k d = refl
get_all_conns-snoc ((j, some c) ∷ cs) k d = ground (arith, get_all_conns-snoc cs k d)

-- When the constructor of a connection throws in `connect`, the caller has the exception, and the
-- map keeps a null entry, at which a later query by direction is undefined.
pub connect-get_all_conns :
    (ep ep' : Endpoint) (randoms : List ℕ) (d : Direction)
    → connect ep randoms false ≡ done (ep', raised)
    → get_all_conns ep'.conns (some d) ≡ undefined
unfolding connect make_conn
connect-get_all_conns ep ep' randoms d h =
    let (c, e, h') = >>=-eq-done (fresh_cid ep randoms) _ h in go c.0 c.1 h'
  where
    go :
        (cid : ℕ) (rest : List ℕ)
        → ◌≡◌ {A = Outcome (Endpoint × Made)}
            (elim rest [
              | [] ↦ out_of_fuel
              | dcid ∷ more ↦ done (make_conn ep cid dcid outbound false)
            ])
            (done (ep', raised))
        → get_all_conns ep'.conns (some d) ≡ undefined
    go cid [] q = absurd (cc)
    go cid (dcid ∷ more) q =
        ap (λ t. get_all_conns t (some d))
          (sym (ap (λ (t : Endpoint × Made). t.0.conns) (done-injective q)))
        ∙ get_all_conns-snoc ep.conns cid d
