-- ===== src/Connection/Steps/Open.antt =====
-- Which streams of a connection are open: its map holds these and no other.
use oxen_libquic.Base.{
  ℕ, zero, suc, ◌≡◌, refl, sym, ap, ◌∙◌, Bool, true, false, not, ◌&&◌, ◌||◌, Option, none, some,
  is_some, List, [], ◌∷◌, ◌==◌, if◌then◌else◌, inl, inr, Bool-cases, Option-cases, length, arith,
  ◌++◌, ==_iff,
}
use oxen_libquic.Base.Int.{pos}
use oxen_libquic.Base.Outcome.{Outcome, done, >>=-eq-done, done-injective}
use oxen_libquic.Stream.{Stream, acknowledge, new_stream, set_ready, close, destroy}
use oxen_libquic.Stream.Buffers.{Buffer}
use oxen_libquic.Connection.{
  Connection, Call, Answer, get_new_stream, open_pending, check_pending_streams, stream_opened,
  of_streams, stream_closed, stream_ack, stream_receive, receive_by,
}
use oxen_libquic.Connection.Streams.{StreamMap, find, assign, emplace, erase}
use oxen_libquic.Connection.Streams.Order.{IsOrdered, find-assign_any, find-here, find-erase}
use oxen_libquic.Connection.Steps.{
  Change, id_of, opens, closes, granted, accepted, Step, new_stream_step, check_pending_step,
  opened_step, closed_step, ack_step, receive_step, use_step, use_pending_step, Run, started,
  then_step,
}
use oxen_libquic.Connection.Steps.Wf.{Run-IsWf}

abbrev has : ℕ → List ℕ → Bool
has k [] = false
has k (id ∷ ids) = (k == id) || has k ids

-- Whether a stream is open after changes, the last one first: it has been opened, and not closed since.
abbrev pub is_open : List Change → ℕ → Bool
is_open [] k = false
is_open (opens ids ∷ before) k = has k ids || is_open before k
is_open (closes id ∷ before) k = not (k == id) && is_open before k

abbrev pub holds : Connection → ℕ → Bool
holds c k = is_some (find k c.streams)

assign-holds :
    (id k : ℕ) (s : Stream) (m : StreamMap)
    → is_some (find k (assign id s m)) ≡ (k == id) || is_some (find k m)
assign-holds id k s m = ap is_some (find-assign_any id k s m) ∙ go (k == id)
  where
    go : (b : Bool) → is_some (if b then some s else find k m) ≡ b || is_some (find k m)
    go true = refl
    go false = refl

-- A stream that takes the place of one that is there.
replace-holds :
    (id k : ℕ) (s t : Stream) (m : StreamMap)
    → find id m ≡ some s
    → is_some (find k (assign id t m)) ≡ is_some (find k m)
replace-holds id k s t m e =
    ap is_some (find-assign_any id k t m) ∙ go (k == id) ∙ sym (ap is_some (find-here id k s m e))
  where
    go :
        (b : Bool)
        → is_some (if b then some t else find k m) ≡ is_some (if b then some s else find k m)
    go true = refl
    go false = refl

emplace-holds :
    (id k : ℕ) (s : Stream) (m : StreamMap)
    → is_some (find k (emplace id s m)) ≡ (k == id) || is_some (find k m)
unfolding find emplace
emplace-holds id k s [] = ground arith
emplace-holds id k s ((j, t) ∷ m) = ground (arith, emplace-holds id k s m)

erase-holds :
    (id k : ℕ) (m : StreamMap)
    → IsOrdered m
    → is_some (find k (erase id m)) ≡ not (k == id) && is_some (find k m)
erase-holds id k m o = ap is_some (find-erase id k m o) ∙ go (k == id)
  where
    go : (b : Bool) → is_some (if b then none else find k m) ≡ not b && is_some (find k m)
    go true = refl
    go false = refl

open_pending-holds :
    (room : ℕ) (opened : List (Option ℕ)) (m : StreamMap) (ps : List Stream) (k : ℕ)
    → is_some (find k (open_pending room opened m ps).0)
      ≡ has k (granted room opened ps) || is_some (find k m)
unfolding open_pending
open_pending-holds zero opened m ps k = refl
open_pending-holds (suc room) opened m [] k = refl
open_pending-holds (suc room) [] m (s ∷ ps) k = refl
open_pending-holds (suc room) (none ∷ opened) m (s ∷ ps) k = refl
open_pending-holds (suc room) (some id ∷ opened) m (s ∷ ps) k =
    open_pending-holds room opened _ ps k
    ∙ ap (λ b. has k (granted room opened ps) || b) (assign-holds id k _ m)
    ∙ swap (has k (granted room opened ps)) (k == id) (is_some (find k m))
  where
    swap : (x y z : Bool) → x || (y || z) ≡ (y || x) || z
    swap true true z = refl
    swap true false z = refl
    swap false true z = refl
    swap false false z = refl

get_new_stream-holds :
    (c : Connection) (data_cb close_cb opened : Option ℕ) (k : ℕ)
    → holds (get_new_stream c data_cb close_cb opened).0 k ≡ has k (id_of opened) || holds c k
unfolding get_new_stream
get_new_stream-holds c data_cb close_cb none k = refl
get_new_stream-holds c data_cb close_cb (some id) k =
    assign-holds id k _ c.streams ∙ or_false (k == id) (holds c k)
  where
    or_false : (x z : Bool) → x || z ≡ (x || false) || z
    or_false true z = refl
    or_false false z = refl

stream_opened-holds :
    (c : Connection) (id app_code k : ℕ)
    → holds (stream_opened c id app_code).0 k
      ≡ has k (accepted c.context.stream_open_cb app_code id) || holds c k
unfolding stream_opened
stream_opened-holds c id app_code k = go c.context.stream_open_cb app_code
  where
    s : Stream
    s = set_ready (new_stream c.context.stream_data_cb c.context.stream_close_cb (pos id))

    or_false : (x z : Bool) → x || z ≡ (x || false) || z
    or_false true z = refl
    or_false false z = refl

    kept : is_some (find k (emplace id s c.streams)) ≡ has k (id ∷ []) || holds c k
    kept = emplace-holds id k s c.streams ∙ or_false (k == id) (holds c k)

    result : Option ℕ → ℕ → Connection × List Call
    result cb code =
        let answer = if is_some cb then code else 0 in
        if answer == 0
        then (record c { streams = emplace id s c.streams }, [])
        else let (s', es) = close s answer in (c, of_streams (es ++ destroy s'))

    go :
        (cb : Option ℕ) (code : ℕ)
        → holds (result cb code).0 k ≡ has k (accepted cb code id) || holds c k
    go none code = kept
    go (some f) zero = kept
    go (some f) (suc code) = let refused : (suc code == 0) ≡ false = ground arith in rw refused refl

stream_closed-holds :
    (c : Connection) (id app_code k : ℕ) (is_local : Bool)
    → IsOrdered c.streams
    → holds (stream_closed c id app_code is_local).0 k ≡ not (k == id) && holds c k
unfolding stream_closed
stream_closed-holds c id app_code k is_local o = elim (Option-cases (find id c.streams)) [
  | inl e ↦
      rw (e, stream_closed)
        (elim (Bool-cases (k == id)) [
          | inl same ↦
              rw same (ap (λ t. is_some (find t c.streams)) ((==_iff k id).0 same) ∙ ap is_some e)
          | inr other ↦ rw other refl
        ])
  | inr (s, e) ↦ rw (e, stream_closed) (erase-holds id k c.streams o)
]

module _ {S : Type 0} (release : ℕ → S → S × List Buffer) (empty_front : Option ℕ) where
  stream_ack-holds :
      (c : Connection) (id size : ℕ) (owner : S) (r : Connection × S × Answer) (k : ℕ)
      → stream_ack release empty_front c id size owner ≡ done r
      → holds r.0 k ≡ holds c k
  unfolding stream_ack
  stream_ack-holds c id size owner r k h = elim (Option-cases (find id c.streams)) [
    | inl e ↦ sym (
        ap (λ (x : Connection × S × Answer). holds x.0 k)
          (done-injective (rw (e, stream_ack) at h)))
    | inr (s, e) ↦
        let (a, ack, same) =
          >>=-eq-done (acknowledge release empty_front (suc (length s.user_buffers)) s size owner) _
            (rw (e, stream_ack) at h) in
        sym (ap (λ (x : Connection × S × Answer). holds x.0 k) (done-injective same))
        ∙ replace-holds id k s a.0 c.streams e
  ]

receive_by-holds :
    (c : Connection) (id k : ℕ) (s : Stream) (cb : Option ℕ) (bytes : List ℕ) (fin cb_throws : Bool)
    → find id c.streams ≡ some s
    → holds (receive_by c id s cb bytes fin cb_throws).0 k ≡ holds c k
unfolding receive_by
receive_by-holds c id k s none bytes fin cb_throws e = refl
receive_by-holds c id k s (some f) bytes fin true e = replace-holds id k s _ c.streams e
receive_by-holds c id k s (some f) bytes fin false e = refl

stream_receive-holds :
    (c : Connection) (id : ℕ) (bytes : List ℕ) (fin cb_throws : Bool)
    (r : Connection × List Call × Answer) (k : ℕ)
    → stream_receive c id bytes fin cb_throws ≡ done r
    → holds r.0 k ≡ holds c k
unfolding stream_receive
stream_receive-holds c id bytes fin cb_throws r k h = elim (Option-cases (find id c.streams)) [
  | inl e ↦ absurd (impossible (rw (e, stream_receive) at h))
  | inr (s, e) ↦
      sym (
        ap (λ (x : Connection × List Call × Answer). holds x.0 k)
          (done-injective (rw (e, stream_receive) at h)))
      ∙ receive_by-holds c id k s s.data_callback bytes fin cb_throws e
]
  where
    impossible : ◌≡◌ {A = Outcome (Connection × List Call × Answer)} Outcome.throws (done r) → ⊥
    impossible q = cc

Step-holds :
    {S : Type 0} (release : ℕ → S → S × List Buffer) (empty_front : Option ℕ) (c d : Connection)
    (change : Change) (before : List Change) (k : ℕ)
    → Step release empty_front c change d
    → IsOrdered c.streams
    → holds c k ≡ is_open before k
    → holds d k ≡ is_open (change ∷ before) k
unfolding check_pending_streams
Step-holds release empty_front _ _ _ before k (new_stream_step c data_cb close_cb opened) o h =
    get_new_stream-holds c data_cb close_cb opened k ∙ ap (λ b. has k (id_of opened) || b) h
Step-holds release empty_front _ _ _ before k (check_pending_step c available opened) o h =
    open_pending-holds available opened c.streams c.pending_streams k
    ∙ ap (λ b. has k (granted available opened c.pending_streams) || b) h
Step-holds release empty_front _ _ _ before k (opened_step c id app_code) o h =
    stream_opened-holds c id app_code k
    ∙ ap (λ b. has k (accepted c.context.stream_open_cb app_code id) || b) h
Step-holds release empty_front _ _ _ before k (closed_step c id app_code is_local) o h =
    stream_closed-holds c id app_code k is_local o ∙ ap (λ b. not (k == id) && b) h
Step-holds release empty_front _ _ _ before k (ack_step c id size owner r e) o h =
    stream_ack-holds release empty_front c id size owner r k e ∙ h
Step-holds release empty_front _ _ _ before k (receive_step c id bytes fin cb_throws r e) o h =
    stream_receive-holds c id bytes fin cb_throws r k e ∙ h
Step-holds release empty_front _ _ _ before k (use_step c id s s' e u) o h =
    replace-holds id k s s' c.streams e ∙ h
Step-holds release empty_front _ _ _ before k (use_pending_step c front back s s' e u) o h = h

-- Through every history of calls, from a connection with no streams, the map holds exactly the streams
-- that have been opened and not closed since.
pub Run-holds :
    {S : Type 0} (release : ℕ → S → S × List Buffer) (empty_front : Option ℕ) (start c : Connection)
    (changes : List Change) (k : ℕ)
    → start.streams ≡ []
    → start.pending_streams ≡ []
    → Run release empty_front start changes c
    → holds c k ≡ is_open changes k
unfolding find
Run-holds release empty_front start _ _ k m p started = rw m refl
Run-holds release empty_front start _ _ k m p (then_step c d before change run step) =
    Step-holds release empty_front c d change before k step
      (Run-IsWf release empty_front start c before m p run).0
      (Run-holds release empty_front start c before k m p run)
