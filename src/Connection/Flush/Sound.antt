-- ===== src/Connection/Flush/Sound.antt =====
-- The pieces of the loop of `flush_streams` against the validity of the streams: the map, `took`,
-- `send` and `requeue`.
use mathlib.Core.Path.{subst}
use oxen_libquic.Base.{
  sym, ◌∙◌, ==_iff, ℕ, suc, ◌+◌, ◌≤◌, ◌≡◌, refl, ap, Bool, true, false, Option, none, some, List,
  [], ◌∷◌, ◌==◌, ltb, length, take, ◌++◌, All, arith, inl, inr, ◌⊎◌, Bool-cases, Option-cases,
  some-injective,
}
use oxen_libquic.IoResult.{IoResult, failure, blocked}
use oxen_libquic.Endpoint.Packets.{send_packets}
use oxen_libquic.Endpoint.Packets.Contract.{packets, send_packets-n_pkts}
use oxen_libquic.Stream.{Stream, wrote}
use oxen_libquic.Stream.Contents.{contents, IsValid}
use oxen_libquic.Connection.Streams.Order.{find-assign_any}
use oxen_libquic.Connection.Streams.{StreamMap, find, assign}
use oxen_libquic.Connection.Flush.{Loop, took, send, send_batch, insert_before_last, only_last}

abbrev pub IsSound : StreamMap → Type 0
IsSound m = All (λ e. IsValid e.1) m

pub find-IsSound :
    (id : ℕ) (m : StreamMap) (s : Stream) → IsSound m → find id m ≡ some s → IsValid s
unfolding find
find-IsSound id [] s v h = absurd cc
find-IsSound id ((k, t) ∷ m) s v h = elim (Bool-cases (k == id)) [
  | inl here ↦ let e : t ≡ s = some-injective (rw here at h) in subst IsValid e v.0
  | inr other ↦ find-IsSound id m s v.1 (rw other at h)
]

pub assign-IsSound :
    (id : ℕ) (s : Stream) (m : StreamMap) → IsValid s → IsSound m → IsSound (assign id s m)
unfolding assign
assign-IsSound id s [] w v = (w, tt)
assign-IsSound id s ((k, t) ∷ m) w v = elim (Bool-cases (id == k)) [
  | inl here ↦ rw here (w, v.1)
  | inr other ↦ elim (Bool-cases (ltb id k)) [
    | inl before ↦ rw (other, before) (w, v)
    | inr after ↦ rw (other, after) (v.0, assign-IsSound id s m w v.1)
  ]
]

pub wrote-IsValid :
    (s : Stream) (n : ℕ)
    → IsValid s
    → s.unacked_size + n ≤ length (contents s.user_buffers)
    → IsValid (wrote s n)
unfolding wrote
wrote-IsValid s n v h = record { in_queue = omega (arith, v.fits); fits = v.fits }

wrote_more :
    (s : Stream) (n : ℕ)
    → IsValid s
    → s.unacked_size + n ≤ length (contents s.user_buffers)
    → s.unacked_size ≤ (wrote s n).unacked_size
unfolding wrote
wrote_more s n v h = omega (arith, v.fits)

-- The stream, if there is one, has `n` bytes that are not sent.
abbrev pub Fits : Option ℕ → ℕ → StreamMap → Type 0
Fits none n m = Unit {0}
Fits (some id) n m =
    (s : Stream) → find id m ≡ some s → s.unacked_size + n ≤ length (contents s.user_buffers)

-- What a stream may become while it is flushed: it keeps its buffers, and takes nothing back.
abbrev pub Kept : Option Stream → Option Stream → Type 0
Kept none none = Unit {0}
Kept none (some t) = ⊥
Kept (some s) none = ⊥
Kept (some s) (some t) = (t.user_buffers ≡ s.user_buffers) × (s.unacked_size ≤ t.unacked_size)

-- A map whose streams are valid, and what those of the first map have become, under the same ids.
abbrev pub IsFrom : StreamMap → StreamMap → Type 0
IsFrom first m = IsSound m × ((k : ℕ) → Kept (find k first) (find k m))

Kept-refl : (o : Option Stream) → Kept o o
Kept-refl none = tt
Kept-refl (some s) = (refl, omega arith)

pub IsFrom-first : (m : StreamMap) → IsSound m → IsFrom m m
IsFrom-first m v = (v, λ k. Kept-refl (find k m))

Kept-trans :
    (o : Option Stream) (s t : Stream)
    → Kept o (some s)
    → t.user_buffers ≡ s.user_buffers
    → s.unacked_size ≤ t.unacked_size
    → Kept o (some t)
Kept-trans none s t h b u = absurd h
Kept-trans (some r) s t h b u = (b ∙ h.0, omega (arith, h.1))

-- A stream that changes in the map as it may.
pub assign-IsFrom :
    (first m : StreamMap) (id : ℕ) (s t : Stream)
    → IsFrom first m
    → find id m ≡ some s
    → IsValid t
    → t.user_buffers ≡ s.user_buffers
    → s.unacked_size ≤ t.unacked_size
    → IsFrom first (assign id t m)
assign-IsFrom first m id s t (v, kept) e w b u = (assign-IsSound id t m w v, λ k. at k)
  where
    at : (k : ℕ) → Kept (find k first) (find k (assign id t m))
    at k =
        subst (Kept (find k first)) (sym (find-assign_any id k t m)) (elim (Bool-cases (k == id)) [
          | inl same ↦ rw same (
              Kept-trans (find k first) s t
                (subst (Kept (find k first)) (ap (λ i. find i m) ((==_iff k id).0 same) ∙ e)
                  (kept k))
                b u)
          | inr other ↦ rw other (kept k)
        ])

pub took-IsFrom :
    (first : StreamMap) (who : Option ℕ) (n : ℕ) (m : StreamMap)
    → IsFrom first m
    → Fits who n m
    → IsFrom first (took who n m)
unfolding wrote
took-IsFrom first none n m v f = v
took-IsFrom first (some id) n m v f = elim (Option-cases (find id m)) [
  | inl e ↦ rw (e, took) v
  | inr (s, e) ↦
      let valid : IsValid s = find-IsSound id m s v.0 e in
      rw (e, took)
        (assign-IsFrom first m id s (wrote s n) v e (wrote-IsValid s n valid (f s e)) refl
          (wrote_more s n valid (f s e)))
]

-- What a call of `send` leaves of a loop's variables.
pub record Sent (l : Loop) (r : Bool × Loop) : Type 0 where
  pub same : r.1 ≡ record l {
    queued = r.1.queued;
    buf_pos = r.1.buf_pos;
    sends = r.1.sends;
    waiting = r.1.waiting;
    cancelled = r.1.cancelled;
    accepted = r.1.accepted;
  }
  pub fewer : r.1.queued.n_pkts ≤ l.queued.n_pkts
  pub emptied : r.0 ≡ true → r.1.queued.n_pkts ≡ 0
  pub left : (r.1.queued.n_pkts ≡ 0) ⊎ (r.1.waiting ≡ true)

-- The three results of `send`.
module _ (l : Loop) (reply : IoResult × ℕ) where
  abbrev pub after_attempt : Loop
  after_attempt = record l {
    queued = (send_packets true l.queued reply).1;
    sends = suc l.sends;
    accepted = l.accepted ++ take reply.1 (packets l.queued);
  }

  pub send-blocked :
      blocked (send_packets true l.queued reply).0 ≡ true
      → send l reply ≡ (false, record after_attempt { waiting = true })
  unfolding send
  send-blocked b = rw b refl

  pub send-failure :
      blocked (send_packets true l.queued reply).0 ≡ false
      → failure (send_packets true l.queued reply).0 ≡ true
      → send l reply ≡ (false, record after_attempt { cancelled = true })
  unfolding send
  send-failure b f = rw (b, f) refl

  pub send_through :
      blocked (send_packets true l.queued reply).0 ≡ false
      → failure (send_packets true l.queued reply).0 ≡ false
      → send l reply ≡ (true, after_attempt)
  unfolding send
  send_through b f = rw (b, f) refl

pub send-Sent : (l : Loop) (reply : IoResult × ℕ) → Sent l (send l reply)
send-Sent l (ret, sent) =
    let (fewer, left) = send_packets-n_pkts l.queued ret sent in
    elim (Bool-cases (blocked (send_packets true l.queued (ret, sent)).0)) [
      | inl b ↦
          rw (send-blocked l (ret, sent) b)
            (record { same = refl; fewer = fewer; emptied = λ e. absurd cc; left = inr refl })
      | inr nb ↦
          let none_left : (send_packets true l.queued (ret, sent)).1.n_pkts ≡ 0 = elim left [
            | inl b ↦ absurd cc
            | inr e ↦ e
          ] in
          elim (Bool-cases (failure (send_packets true l.queued (ret, sent)).0)) [
            | inl f ↦ rw (send-failure l (ret, sent) nb f) (record {
              same = refl;
              fewer = fewer;
              emptied = λ e. none_left;
              left = inl none_left;
            })
            | inr nf ↦ rw (send_through l (ret, sent) nb nf) (record {
              same = refl;
              fewer = fewer;
              emptied = λ e. none_left;
              left = inl none_left;
            })
          ]
    ]

pub send_batch-Sent : (l : Loop) (reply : IoResult × ℕ) → Sent l (send_batch l reply)
unfolding send_batch
send_batch-Sent l reply =
    let s : Sent l (send l reply) = send-Sent l reply in
    elim (Bool-cases (send l reply).0) [
      | inl go_on ↦ rw go_on (record {
        same = ap (λ (x : Loop). record x { buf_pos = 0 }) s.same;
        fewer = s.fewer;
        emptied = λ e. s.emptied go_on;
        left = s.left;
      })
      | inr stop ↦
          rw stop
            (record { same = s.same; fewer = s.fewer; emptied = λ e. absurd cc; left = s.left })
    ]

-- A stream that is visited again makes the list longer by one element, and nothing else changes.
pub length-insert_before_last :
    (s : Option ℕ) (ts : List (Option ℕ)) → length (insert_before_last s ts) ≡ suc (length ts)
length-insert_before_last s [] = refl
length-insert_before_last s (t ∷ []) = refl
length-insert_before_last s (t ∷ u ∷ ts) = ap suc (length-insert_before_last s (u ∷ ts))

pub length-only_last : (ts : List (Option ℕ)) → length (only_last ts) ≤ length ts
length-only_last [] = omega arith
length-only_last (t ∷ []) = omega arith
length-only_last (t ∷ u ∷ ts) = omega (arith, length-only_last (u ∷ ts))
