-- ===== src/Tls/Credentials.antt =====
-- The constructor of GNUTLSCreds.
use oxen_libquic.Base.{
  ℕ, ◌%◌, ◌≡◌, refl, sym, ap, ◌∙◌, Bool, true, false, List, [], ◌∷◌, ◌==◌, length, inl, inr,
  Bool-cases,
}
use oxen_libquic.Base.Outcome.{Outcome, done, undefined, throws, ◌>>=◌}
use oxen_libquic.Tls.{
  FilePath, Datum, empty_datum, assign, copy, Call, allocate, call, make_datum, set_trust, set_key,
  remote_datum, ca_datum, make_creds,
}

ca_datum_lem :
    (fails : Call → Bool) (exists : FilePath → Bool) (null_path : Outcome FilePath)
    (ca_arg : List ℕ)
    → ca_datum fails exists null_path ca_arg ≡ done empty_datum
unfolding ca_datum copy assign
ca_datum_lem fails exists null_path [] = refl
ca_datum_lem fails exists null_path (c ∷ cs) = refl

-- The certificate authority that is given makes no difference: whatever it is, the constructor does
-- what it does without one.
pub make_creds-ca_datum :
    (fails : Call → Bool) (exists : FilePath → Bool) (null_path : Outcome FilePath)
    (local_key local_cert remote_cert ca_arg : List ℕ)
    → make_creds fails exists null_path local_key local_cert remote_cert ca_arg
      ≡ make_creds fails exists null_path local_key local_cert remote_cert []
unfolding make_creds
make_creds-ca_datum fails exists null_path local_key local_cert remote_cert ca_arg =
    ap
      (λ ca. make_datum fails exists null_path local_key >>= λ lkey.
        make_datum fails exists null_path local_cert >>= λ lcert.
        remote_datum fails exists null_path remote_cert >>= λ rcert. ca >>= λ d.
        call fails exists null_path allocate
          (set_trust fails exists null_path d (set_key fails exists null_path lcert lkey)))
      (ca_datum_lem fails exists null_path ca_arg ∙ sym (ca_datum_lem fails exists null_path []))

make_datum-done :
    (fails : Call → Bool) (exists : FilePath → Bool) (p input : List ℕ)
    → (d : Datum) × (make_datum fails exists (done p) input ≡ done d)
unfolding make_datum
make_datum-done fails exists p input = elim (Bool-cases (exists input)) [
  | inl e ↦ rw e (_, refl)
  | inr e ↦ rw e (_, refl)
]

remote_datum_text :
    (fails : Call → Bool) (exists : FilePath → Bool) (p cert : List ℕ)
    → exists cert ≡ false
    → (length cert % 256 == 0) ≡ false
    → remote_datum fails exists (done p) cert ≡ undefined
unfolding remote_datum make_datum assign
remote_datum_text fails exists p [] e l = absurd (cc)
remote_datum_text fails exists p (c ∷ cs) e l = rw (e, l) refl

-- A certificate that is given as text, of a length that is no multiple of 256: where `path = NULL` is
-- survived GnuTLS is given bytes that are no longer there; where it throws, so does the constructor.
pub make_creds_text :
    (fails : Call → Bool) (exists : FilePath → Bool) (p : FilePath)
    (local_key local_cert ca_arg : List ℕ)
    → exists local_key ≡ true
    → exists local_cert ≡ false
    → (length local_cert % 256 == 0) ≡ false
    → fails allocate ≡ false
    → (make_creds fails exists (done p) local_key local_cert [] ca_arg ≡ undefined)
      × (make_creds fails exists throws local_key local_cert [] ca_arg ≡ throws)
unfolding make_creds make_datum ca_datum remote_datum set_trust set_key
make_creds_text fails exists p local_key local_cert ca_arg k c l a = (
  make_creds-ca_datum fails exists (done p) local_key local_cert [] ca_arg ∙ rw (k, c, a, l) refl,
  make_creds-ca_datum fails exists throws local_key local_cert [] ca_arg ∙ rw (k, c) refl,
)

-- A certificate of the other side that is given as text, of a length that is no multiple of 256, is
-- copied to a null pointer, where `path = NULL` is survived.
pub make_creds_remote_text :
    (fails : Call → Bool) (exists : FilePath → Bool) (p : FilePath)
    (local_key local_cert remote_cert ca_arg : List ℕ)
    → exists remote_cert ≡ false
    → (length remote_cert % 256 == 0) ≡ false
    → make_creds fails exists (done p) local_key local_cert remote_cert ca_arg ≡ undefined
unfolding make_creds
make_creds_remote_text fails exists p local_key local_cert remote_cert ca_arg e l =
    let (k, ek) = make_datum-done fails exists p local_key in
    let (c, ec) = make_datum-done fails exists p local_cert in
    rw (ek, ec, remote_datum_text fails exists p remote_cert e l) refl
