-- ===== src/Udp/Receive/Limits.antt =====
-- The limits of one call of `receive`.
use mathlib.Core.Path.{subst}
use oxen_libquic.Base.{
  ℕ, zero, suc, ◌+◌, ◌*◌, ◌<◌, sym, ap, ◌∙◌, append_assoc, append-nil, ◌≤◌, ◌≡◌, refl, inl, inr,
  ◌⊎◌, true, List, [], ◌∷◌, ◌++◌, arith, length, length-append, All, ◌==◌, ltb, Bool-cases,
}
use oxen_libquic.Base.Outcome.{Outcome, done, >>=-eq-done, done-injective}
use oxen_libquic.Udp.Receive.{
  Datagram, Read, got, interrupted, failed, Received, prepend, process_packet, process_all,
  receive_mmsg,
}
use oxen_libquic.IoResult.{IoResult}

-- A reply holds no more datagrams than a batch has room for.
abbrev pub WithinBatch : Read (List Datagram) → Type 0
WithinBatch interrupted = Unit {0}
WithinBatch (failed e) = Unit {0}
WithinBatch (got ds) = length ds ≤ 24

-- The datagrams of the first `k` replies.
abbrev pub taken : ℕ → List (Read (List Datagram)) → List Datagram
taken zero rs = []
taken (suc k) [] = []
taken (suc k) (interrupted ∷ rs) = taken k rs
taken (suc k) (failed e ∷ rs) = taken k rs
taken (suc k) (got ds ∷ rs) = ds ++ taken k rs

-- `k` calls of recvmmsg are the calls that one call of `receive` makes, when `count` datagrams have been
-- handled: up to the first that fails, that reads less than a full batch, or that makes 64 datagrams.
abbrev pub IsRead : ℕ → List (Read (List Datagram)) → ℕ → Type 0
IsRead zero rs count = ⊥
IsRead (suc k) [] count = ⊥
IsRead (suc k) (interrupted ∷ rs) count = IsRead k rs count
IsRead (suc k) (failed e ∷ rs) count = k ≡ 0
IsRead (suc k) (got ds ∷ rs) count =
    ((length ds ≡ 24) × (count + 24 < 64) × IsRead k rs (count + 24))
    ⊎ (((length ds < 24) ⊎ (64 ≤ count + length ds)) × (k ≡ 0))

process_all-append :
    (ds es : List Datagram) → process_all (ds ++ es) ≡ process_all ds ++ process_all es
unfolding process_all
process_all-append [] es = refl
process_all-append (d ∷ ds) es =
    ap (λ t. process_packet d ++ t) (process_all-append ds es)
    ∙ sym (append_assoc (process_packet d) (process_all ds) (process_all es))

-- A result after `full` full batches.
record Handled (rs : List (Read (List Datagram))) (full : ℕ) (r : Received) : Type 0 where
  replies : ℕ
  read : IsRead replies rs (24 * full)
  delivered : r.1 ≡ process_all (taken replies rs)
  counted : r.2 ≡ 24 * full + length (taken replies rs)
  bounded : r.2 ≤ 72

stop :
    (ds : List Datagram) (rs : List (Read (List Datagram))) (full : ℕ) (io : IoResult)
    → 24 * full < 64
    → length ds ≤ 24
    → (length ds < 24) ⊎ (64 ≤ 24 * full + length ds)
    → Handled (got ds ∷ rs) full (io, process_all ds, 24 * full + length ds)
stop ds rs full io h w ends = record {
  replies = 1;
  read = inr (ends, refl);
  delivered = ap process_all (sym (append-nil ds));
  counted = omega (arith, ap length (append-nil ds));
  bounded = omega arith;
}

nothing :
    (rs : List (Read (List Datagram))) (full : ℕ) (io : IoResult)
    → 24 * full < 64
    → IsRead 1 rs (24 * full)
    → taken 1 rs ≡ []
    → Handled rs full (io, [], 24 * full)
unfolding process_all
nothing rs full io h read none = record {
  replies = 1;
  read = read;
  delivered = sym (ap process_all none);
  counted = omega (arith, ap length none);
  bounded = omega arith;
}

-- What follows a full batch.
go_on :
    (ds : List Datagram) (rs : List (Read (List Datagram))) (full : ℕ) (r0 r : Received)
    → length ds ≡ 24
    → 24 * full + 24 < 64
    → done (r0.0, process_all ds ++ r0.1, r0.2) ≡ done r
    → Handled rs (suc full) r0
    → Handled (got ds ∷ rs) full r
go_on ds rs full r0 r w more e v = subst (Handled (got ds ∷ rs) full) (done-injective e) (record {
  replies = suc v.replies;
  read = inl (w, more, subst (IsRead v.replies rs) (omega arith) v.read);
  delivered =
      ap (λ t. process_all ds ++ t) v.delivered ∙ sym (process_all-append ds (taken v.replies rs));
  counted = omega (arith, v.counted, length-append ds (taken v.replies rs));
  bounded = v.bounded;
})

prepend-eq-done :
    (ps : List (List ℕ)) (m : Outcome Received) {r : Received}
    → prepend ps m ≡ done r
    → (r0 : Received) × (m ≡ done r0)
      × (◌≡◌ {A = Outcome Received} (done (r0.0, ps ++ r0.1, r0.2)) (done r))
prepend-eq-done ps m h = >>=-eq-done m (λ r. done (r.0, ps ++ r.1, r.2)) h

no_datagrams :
    (ds : List Datagram) (rs : List (Read (List Datagram)))
    → (length ds == 0) ≡ true
    → taken 1 (got ds ∷ rs) ≡ []
no_datagrams [] rs h = refl
no_datagrams (d ∷ ds) rs h = absurd (ground arith)

receive_mmsg-Handled :
    (rs : List (Read (List Datagram))) (full : ℕ) (r : Received)
    → All WithinBatch rs
    → 24 * full < 64
    → receive_mmsg rs (24 * full) ≡ done r
    → Handled rs full r
unfolding receive_mmsg
receive_mmsg-Handled [] full r a h e = cc
receive_mmsg-Handled (interrupted ∷ rs) full r a h e =
    let v = receive_mmsg-Handled rs full r a.1 h e in
    record {
      replies = suc v.replies;
      read = v.read;
      delivered = v.delivered;
      counted = v.counted;
      bounded = v.bounded;
    }
receive_mmsg-Handled (failed x ∷ rs) full r a h e =
    subst (Handled (failed x ∷ rs) full) (done-injective e)
      (nothing (failed x ∷ rs) full _ h refl refl)
receive_mmsg-Handled (got ds ∷ rs) full r a h e = elim (Bool-cases (length ds == 0)) [
  | inl empty ↦
      subst (Handled (got ds ∷ rs) full) (done-injective (rw empty at e))
        (nothing (got ds ∷ rs) full _ h (inr (inl (ground arith), refl)) (no_datagrams ds rs empty))
  | inr some_read ↦ elim (Bool-cases (ltb (length ds) 24)) [
    | inl partly ↦
        subst (Handled (got ds ∷ rs) full) (done-injective (rw (some_read, partly) at e))
          (stop ds rs full _ h a.0 (inl (ground arith)))
    | inr whole ↦ elim (Bool-cases (ltb (24 * full + length ds) 64)) [
      | inl more ↦
          let (r0, e0, e1) =
            prepend-eq-done (process_all ds) (receive_mmsg rs (24 * full + length ds))
              (rw (some_read, whole, more) at e) in
          let w : length ds ≡ 24 = ground (arith, a.0) in
          let sum : 24 * full + length ds ≡ 24 * suc full = omega arith in
          go_on ds rs full r0 r w (ground arith) e1
            (receive_mmsg-Handled rs (suc full) r0 a.1 (ground arith) (rw sum at e0))
      | inr enough ↦
          subst (Handled (got ds ∷ rs) full) (done-injective (rw (some_read, whole, enough) at e))
            (stop ds rs full _ h a.0 (inr (ground arith)))
    ]
  ]
]

-- How many calls of recvmmsg were not interrupted.
abbrev pub answers : List (Read (List Datagram)) → ℕ
answers [] = 0
answers (interrupted ∷ rs) = answers rs
answers (failed e ∷ rs) = suc (answers rs)
answers (got ds ∷ rs) = suc (answers rs)

-- The run with its equation, by cases on its outcome.
abbrev Ends : Outcome Received → Type 0
Ends m = (r : Received) × (m ≡ done r)

prepend-Ends : (ps : List (List ℕ)) (m : Outcome Received) → Ends m → Ends (prepend ps m)
prepend-Ends ps m (r, e) = ((r.0, ps ++ r.1, r.2), rw e refl)

receive_mmsg-Ends :
    (rs : List (Read (List Datagram))) (count : ℕ)
    → 64 ≤ count + 24 * answers rs
    → 0 < answers rs
    → Ends (receive_mmsg rs count)
unfolding receive_mmsg
receive_mmsg-Ends [] count h p = absurd (omega arith)
receive_mmsg-Ends (interrupted ∷ rs) count h p = receive_mmsg-Ends rs count h p
receive_mmsg-Ends (failed e ∷ rs) count h p = (_, refl)
receive_mmsg-Ends (got ds ∷ rs) count h p = elim (Bool-cases (length ds == 0)) [
  | inl empty ↦ rw empty (_, refl)
  | inr some_read ↦ elim (Bool-cases (ltb (length ds) 24)) [
    | inl partly ↦ rw (some_read, partly) (_, refl)
    | inr whole ↦ elim (Bool-cases (ltb (count + length ds) 64)) [
      | inl more ↦
          rw (some_read, whole, more)
            (prepend-Ends (process_all ds) (receive_mmsg rs (count + length ds))
              (receive_mmsg-Ends rs (count + length ds) (ground arith) (ground arith)))
      | inr enough ↦ rw (some_read, whole, enough) (_, refl)
    ]
  ]
]

-- One call of `receive` that reads in batches of at most 24 datagrams comes to an end by its third call
-- of recvmmsg that is not interrupted. It makes exactly the calls up to the first that fails, that reads
-- less than a full batch, or that makes 64 datagrams; it hands the callback exactly the good datagrams
-- of these calls, in order, and handles at most 72 datagrams.
pub receive_mmsg_lem :
    (rs : List (Read (List Datagram)))
    → All WithinBatch rs
    → 3 ≤ answers rs
    → (r : Received) × (k : ℕ) × (receive_mmsg rs 0 ≡ done r)
      × IsRead k rs 0
      × (r.1 ≡ process_all (taken k rs))
      × (r.2 ≡ length (taken k rs))
      × (r.2 ≤ 72)
receive_mmsg_lem rs a h =
    let (r, e) = receive_mmsg-Ends rs 0 (omega arith) (omega arith) in
    let v = receive_mmsg-Handled rs 0 r a (omega arith) e in
    (r, v.replies, e, v.read, v.delivered, omega (arith, v.counted), v.bounded)
