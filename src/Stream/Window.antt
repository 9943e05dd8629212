-- ===== src/Stream/Window.antt =====
-- The stream as a sender's window: the bytes sent and not acknowledged, then the bytes not sent.
use oxen_libquic.Base.{
  ℕ, suc, ◌+◌, ◌-◌, ◌≤◌, ◌<◌, ◌^◌, ◌≡◌, refl, ap, ◌∙◌, List, [], ◌∷◌, ◌++◌, inl, inr, Option-cases,
  append-nil, arith, length, length-append, length-drop, length-take, take, drop, drop-append_le,
  take-append_le, drop-drop, take-drop, take_add, drop_add, leb, ltb, if◌then◌else◌, none, some,
  Option, add_size,
}
use oxen_libquic.Base.Outcome.{Outcome, done, ◌>>=◌}
use oxen_libquic.Stream.Buffers.{Buffer}
use oxen_libquic.Stream.{Stream, acknowledge, append_buffer, wrote}
use oxen_libquic.Stream.Contents.{contents, contents-append, IsValid}
use oxen_libquic.Stream.Acks.{acknowledge_full}

-- What happens to a stream: the application queues a buffer, ngtcp2 takes bytes to send, the peer
-- acknowledges bytes.
pub data Event : Type 0 where
  queued : Buffer → Event
  took acked : ℕ → Event

-- A stream, with the state of the owner of the objects behind its buffers. `release` is what the
-- destructor of such an object does, and `k` what a read of the front of an emptied deque gives.
module _ {S : Type 0} (release : ℕ → S → S × List Buffer) (k : ℕ) where
  unfoldable pub step : Stream × S → Event → Outcome (Stream × S)
  step (s, o) (queued b) = done ((append_buffer s b).0, o)
  step (s, o) (took n) = done (wrote s n, o)
  step (s, o) (acked n) = acknowledge release (some k) (suc (length s.user_buffers)) s n o >>= λ r.
      done (r.0, r.1.owner)

  unfoldable pub run : Stream × S → List Event → Outcome (Stream × S)
  run s [] = done s
  run s (e ∷ es) = step s e >>= λ s'. run s' es

-- The specification.
pub record Window : Type 0 where
  pub in_flight : List ℕ
  pub waiting : List ℕ

-- ngtcp2 takes no more than waits, and reports no more acknowledged than is in flight; less than
-- 2^64 bytes are held.
unfoldable pub spec_step : Window → Event → Option Window
spec_step w (queued b) =
    if ltb (length w.in_flight + length w.waiting + length b.view) (2 ^ 64)
    then some (record w { waiting = w.waiting ++ b.view })
    else none
spec_step w (took n) =
    if leb n (length w.waiting)
    then some (record { in_flight = w.in_flight ++ take n w.waiting; waiting = drop n w.waiting })
    else none
spec_step w (acked n) =
    if leb n (length w.in_flight) then some (record w { in_flight = drop n w.in_flight }) else none

abbrev pub bind_option {ℓ κ} : {A : Type ℓ} {B : Type κ} → Option A → (A → Option B) → Option B
bind_option none f = none
bind_option (some a) f = f a

unfoldable pub spec_run : Window → List Event → Option Window
spec_run w [] = some w
spec_run w (e ∷ es) = bind_option (spec_step w e) (λ w'. spec_run w' es)

unfoldable pub window : Stream → Window
window s = record {
  in_flight = take s.unacked_size (contents s.user_buffers);
  waiting = drop s.unacked_size (contents s.user_buffers);
}

contents_queued :
    (bs : List Buffer) (b : Buffer) → contents (bs ++ (b ∷ [])) ≡ contents bs ++ b.view
contents_queued bs b = contents-append bs (b ∷ []) ∙ ap (λ t. contents bs ++ t) (append-nil b.view)

module _ (s : Stream) (v : IsValid s) where
  length-in_flight : length (window s).in_flight ≡ s.unacked_size
  unfolding window
  length-in_flight = omega (arith, length-take s.unacked_size (contents s.user_buffers))

  length-waiting : length (window s).waiting + s.unacked_size ≡ length (contents s.user_buffers)
  unfolding window
  length-waiting = omega (arith, length-drop s.unacked_size (contents s.user_buffers))

  window_queued :
      (b : Buffer)
      → window (append_buffer s b).0
        ≡ record { in_flight = (window s).in_flight; waiting = (window s).waiting ++ b.view }
  unfolding window append_buffer
  window_queued b =
      rw
        (
          contents_queued s.user_buffers b,
          take-append_le s.unacked_size (contents s.user_buffers) b.view v.in_queue,
          drop-append_le s.unacked_size (contents s.user_buffers) b.view v.in_queue,
        )
        refl

  window_took :
      (n : ℕ)
      → n ≤ length (window s).waiting
      → window (wrote s n) ≡ record {
        in_flight = (window s).in_flight ++ take n (window s).waiting;
        waiting = drop n (window s).waiting;
      }
  unfolding window wrote
  window_took n h =
      let e : add_size s.unacked_size n ≡ s.unacked_size + n =
        omega (arith, length-waiting, v.fits) in
      rw
        (
          e,
          take_add s.unacked_size n (contents s.user_buffers),
          drop_add s.unacked_size n (contents s.user_buffers),
        )
        refl

  -- The state after an acknowledgement of `n` bytes.
  window_acked :
      (n : ℕ) (s' : Stream)
      → n ≤ s.unacked_size
      → contents s'.user_buffers ≡ drop n (contents s.user_buffers) ++ []
      → s'.unacked_size + n ≡ s.unacked_size
      → window s' ≡ record { in_flight = drop n (window s).in_flight; waiting = (window s).waiting }
  unfolding window
  window_acked n s' h c u =
      let e : s'.unacked_size ≡ s.unacked_size - n = omega arith in
      rw
        (
          c,
          e,
          append-nil (drop n (contents s.user_buffers)),
          take-drop n s.unacked_size (contents s.user_buffers) h,
          drop-drop n s.unacked_size (contents s.user_buffers) h,
        )
        refl

-- The objects append nothing when they go.
abbrev pub IsQuiet : {S : Type 0} → (ℕ → S → S × List Buffer) → Type 0
IsQuiet {S} release = (k : ℕ) (o : S) → (release k o).1 ≡ []

module _ {S : Type 0} (release : ℕ → S → S × List Buffer) (quiet : IsQuiet release) (k : ℕ) where
  -- One event of the stream follows the window.
  abbrev Follows : Stream → S → Event → Window → Type 0
  Follows s o e w =
      (s' : Stream) × (o' : S) × (step release k (s, o) e ≡ done (s', o'))
      × (window s' ≡ w)
      × IsValid s'

  -- What one event makes of a valid stream.
  module _ (s : Stream) (o : S) (v : IsValid s) where
    queued-IsValid :
        (b : Buffer)
        → length (contents s.user_buffers) + length b.view < 2 ^ 64
        → IsValid (append_buffer s b).0
    unfolding append_buffer
    queued-IsValid b h =
        let e : length (contents (s.user_buffers ++ (b ∷ [])))
            ≡ length (contents s.user_buffers) + length b.view =
          ap length (contents_queued s.user_buffers b)
          ∙ length-append (contents s.user_buffers) b.view in
        record { in_queue = omega (arith, e); fits = omega (arith, e) }

    took-IsValid : (n : ℕ) → n ≤ length (window s).waiting → IsValid (wrote s n)
    unfolding wrote
    took-IsValid n h = record { in_queue = omega (arith, length-waiting s v); fits = v.fits }

    queued-Follows :
        (b : Buffer) {w : Window}
        → spec_step (window s) (queued b) ≡ some w
        → Follows s o (queued b) w
    unfolding step spec_step
    queued-Follows b h = (
      (append_buffer s b).0,
      o,
      refl,
      ground (arith, window_queued s v b),
      queued-IsValid b (ground (arith, length-in_flight s v, length-waiting s v)),
    )

    took-Follows :
        (n : ℕ) {w : Window} → spec_step (window s) (took n) ≡ some w → Follows s o (took n) w
    unfolding step spec_step
    took-Follows n h =
        (wrote s n, o, refl, ground (arith, window_took s v n), took-IsValid n (ground arith))

    acked-le : (n : ℕ) {w : Window} → spec_step (window s) (acked n) ≡ some w → n ≤ s.unacked_size
    unfolding spec_step
    acked-le n h = ground (arith, length-in_flight s v)

    acked-Follows :
        (n : ℕ) {w : Window} → spec_step (window s) (acked n) ≡ some w → Follows s o (acked n) w
    unfolding step spec_step
    acked-Follows n h =
        let (s', l, e, c, u, _, q) =
          acknowledge_full release k s n (suc (length s.user_buffers)) o v (acked-le n h)
            (omega arith) in
        let c' : contents s'.user_buffers ≡ drop n (contents s.user_buffers) ++ [] =
          rw (q quiet) at c in
        let kept : length (contents s'.user_buffers) ≡ length (contents s.user_buffers) - n =
          ap length (c' ∙ append-nil _) ∙ length-drop n (contents s.user_buffers) in
        (
          s',
          l.owner,
          rw e refl,
          ground (arith, window_acked s v n s'),
          record { in_queue = omega (arith, kept); fits = omega (arith, kept) },
        )

  step-Follows :
      (s : Stream) (o : S) (e : Event) {w : Window}
      → IsValid s
      → spec_step (window s) e ≡ some w
      → Follows s o e w
  step-Follows s o (queued b) v h = queued-Follows s o v b h
  step-Follows s o (took n) v h = took-Follows s o v n h
  step-Follows s o (acked n) v h = acked-Follows s o v n h

  -- Whatever history of queueing, sending and acknowledging the specification allows, a valid stream
  -- whose kept objects append nothing when they go runs through it with no undefined step but the read
  -- of an emptied deque, whatever that gives, and ends valid, with the window of the specification.
  pub run-window :
      (es : List Event) (s : Stream) (o : S) (w : Window)
      → IsValid s
      → spec_run (window s) es ≡ some w
      → (s' : Stream) × (o' : S) × (run release k (s, o) es ≡ done (s', o'))
        × (window s' ≡ w)
        × IsValid s'
  unfolding run spec_run
  run-window [] s o w v h = (s, o, refl, ground arith, v)
  run-window (e ∷ es) s o w v h = elim (Option-cases (spec_step (window s) e)) [
    | inl stop ↦ absurd (ground (arith, stop))
    | inr (w1, go) ↦
        let (s1, o1, r1, e1, v1) = step-Follows s o e v go in
        let (s2, o2, r2, e2, v2) = run-window es s1 o1 w v1 (rw e1 (rw go at h)) in
        (s2, o2, rw r1 r2, e2, v2)
  ]
