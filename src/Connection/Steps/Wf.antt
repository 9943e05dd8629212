-- ===== src/Connection/Steps/Wf.antt =====
-- The invariant of a connection's map of streams and of its queue of pending streams.
use mathlib.Core.Path.{subst}
use oxen_libquic.Base.{
  ℕ, zero, suc, ◌≡◌, refl, Bool, true, false, Option, none, some, is_some, List, [], ◌∷◌, ◌++◌, ◌∙◌,
  ◌==◌, if◌then◌else◌, All, All-append, inl, inr, Bool-cases, Option-cases, length, arith,
}
use oxen_libquic.Base.Outcome.{Outcome, done, >>=-eq-done, done-injective}
use oxen_libquic.Stream.{
  Stream, acknowledge, send, append_buffer, new_stream, set_ready, set_not_ready, close, shut,
  stream_error_exception,
}
use oxen_libquic.Stream.Buffers.{Buffer, Left, ack_loop, remove_rest}
use oxen_libquic.Connection.{
  Connection, Call, Answer, get_new_stream, open_pending, check_pending_streams, stream_opened,
  stream_closed, stream_ack, stream_receive, receive_by,
}
use oxen_libquic.Connection.Streams.{StreamMap, find}
use oxen_libquic.Connection.Streams.Order.{
  IsEntry, IsOrdered, assign-IsOrdered, emplace-IsOrdered, erase-IsOrdered, find-IsEntry,
}
use oxen_libquic.Connection.Steps.{
  Use, sends, shuts, Change, Step, new_stream_step, check_pending_step, opened_step, closed_step,
  ack_step, receive_step, use_step, use_pending_step, Run, started, then_step,
}

-- The map is ordered, its streams are ready and know their ids; the pending streams are not ready.
abbrev pub IsWf : Connection → Type 0
IsWf c = IsOrdered c.streams × All (λ s. s.ready ≡ false) c.pending_streams

get_new_stream-IsWf :
    (c : Connection) (data_cb close_cb opened : Option ℕ)
    → IsWf c
    → IsWf (get_new_stream c data_cb close_cb opened).0
unfolding get_new_stream set_ready set_not_ready
get_new_stream-IsWf c data_cb close_cb none (o, p) =
    (o, All-append (λ (s : Stream). s.ready ≡ false) c.pending_streams _ p (refl, tt))
get_new_stream-IsWf c data_cb close_cb (some id) (o, p) =
    (assign-IsOrdered id _ c.streams (refl, refl) o, p)

open_pending-IsWf :
    (room : ℕ) (opened : List (Option ℕ)) (m : StreamMap) (ps : List Stream)
    → IsOrdered m
    → All (λ s. s.ready ≡ false) ps
    → let (m', ps') = open_pending room opened m ps in IsOrdered m' × All (λ s. s.ready ≡ false) ps'
unfolding open_pending set_ready
open_pending-IsWf zero opened m ps o p = (o, p)
open_pending-IsWf (suc room) opened m [] o p = (o, tt)
open_pending-IsWf (suc room) [] m (s ∷ ps) o p = (o, p)
open_pending-IsWf (suc room) (none ∷ opened) m (s ∷ ps) o p = (o, p)
open_pending-IsWf (suc room) (some id ∷ opened) m (s ∷ ps) o p =
    open_pending-IsWf room opened _ ps (assign-IsOrdered id _ m (refl, refl) o) p.1

stream_opened-IsWf :
    (c : Connection) (id app_code : ℕ) → IsWf c → IsWf (stream_opened c id app_code).0
unfolding stream_opened set_ready new_stream
stream_opened-IsWf c id app_code (o, p) =
    elim (Bool-cases ((if is_some c.context.stream_open_cb then app_code else 0) == 0)) [
      | inl ok ↦ rw ok (emplace-IsOrdered id _ c.streams (refl, refl) o, p)
      | inr refused ↦ rw refused (o, p)
    ]

stream_closed-IsWf :
    (c : Connection) (id app_code : ℕ) (is_local : Bool)
    → IsWf c
    → IsWf (stream_closed c id app_code is_local).0
unfolding stream_closed
stream_closed-IsWf c id app_code is_local (o, p) = elim (Option-cases (find id c.streams)) [
  | inl e ↦ rw (e, stream_closed) (o, p)
  | inr (s, e) ↦ rw (e, stream_closed) (erase-IsOrdered id c.streams o, p)
]

-- An acknowledgement and a close leave a stream's id and its flag.
module _ {S : Type 0} (release : ℕ → S → S × List Buffer) (empty_front : Option ℕ) where
  acknowledge-IsEntry :
      (fuel : ℕ) (s : Stream) (size : ℕ) (owner : S) (r : Stream × Left S) (id : ℕ)
      → acknowledge release empty_front fuel s size owner ≡ done r
      → IsEntry id s
      → IsEntry id r.0
  unfolding acknowledge
  acknowledge-IsEntry fuel s size owner r id h e =
      let (l0, e0, h0) =
        >>=-eq-done (ack_loop release empty_front fuel s.user_buffers size owner []) _ h in
      let (l1, e1, h1) = >>=-eq-done (remove_rest l0 l0.bufs) _ h0 in
      subst (λ (x : Stream × Left S). IsEntry id x.0) (done-injective h1) e

close-IsEntry : (s : Stream) (code id : ℕ) → IsEntry id s → IsEntry id (close s code).0
unfolding close shut
close-IsEntry s code id e = ground arith

module _ {S : Type 0} (release : ℕ → S → S × List Buffer) (empty_front : Option ℕ) where
  stream_ack-IsWf :
      (c : Connection) (id size : ℕ) (owner : S) (r : Connection × S × Answer)
      → stream_ack release empty_front c id size owner ≡ done r
      → IsWf c
      → IsWf r.0
  unfolding stream_ack
  stream_ack-IsWf c id size owner r h (o, p) = elim (Option-cases (find id c.streams)) [
    | inl e ↦
        subst (λ (x : Connection × S × Answer). IsWf x.0) (done-injective (rw (e, stream_ack) at h))
          (o, p)
    | inr (s, e) ↦
        let (a, ack, same) =
          >>=-eq-done (acknowledge release empty_front (suc (length s.user_buffers)) s size owner) _
            (rw (e, stream_ack) at h) in
        subst (λ (x : Connection × S × Answer). IsWf x.0) (done-injective same)
          (
            assign-IsOrdered id a.0 c.streams
                (acknowledge-IsEntry release empty_front (suc (length s.user_buffers)) s size owner
                  a id ack (find-IsEntry id c.streams s o e))
                o,
            p,
          )
  ]

receive_by-IsWf :
    (c : Connection) (id : ℕ) (s : Stream) (cb : Option ℕ) (bytes : List ℕ) (fin cb_throws : Bool)
    → IsEntry id s
    → IsWf c
    → IsWf (receive_by c id s cb bytes fin cb_throws).0
unfolding receive_by
receive_by-IsWf c id s none bytes fin cb_throws e w = w
receive_by-IsWf c id s (some f) bytes fin true e (o, p) =
    (assign-IsOrdered id _ c.streams (close-IsEntry s stream_error_exception id e) o, p)
receive_by-IsWf c id s (some f) bytes fin false e w = w

stream_receive-IsWf :
    (c : Connection) (id : ℕ) (bytes : List ℕ) (fin cb_throws : Bool)
    (r : Connection × List Call × Answer)
    → stream_receive c id bytes fin cb_throws ≡ done r
    → IsWf c
    → IsWf r.0
unfolding stream_receive
stream_receive-IsWf c id bytes fin cb_throws r h (o, p) = elim (Option-cases (find id c.streams)) [
  | inl e ↦ absurd (impossible (rw (e, stream_receive) at h))
  | inr (s, e) ↦
      subst (λ (x : Connection × List Call × Answer). IsWf x.0)
        (done-injective (rw (e, stream_receive) at h))
        (receive_by-IsWf c id s s.data_callback bytes fin cb_throws
          (find-IsEntry id c.streams s o e) (o, p))
]
  where
    impossible : ◌≡◌ {A = Outcome (Connection × List Call × Answer)} Outcome.throws (done r) → ⊥
    impossible q = cc

Use-IsEntry : (s s' : Stream) (id : ℕ) → Use s s' → IsEntry id s → IsEntry id s'
unfolding send append_buffer
Use-IsEntry _ _ id (sends s bytes keep_alive) e = e
Use-IsEntry _ _ id (shuts s code) e = close-IsEntry s code id e

Use-ready : (s s' : Stream) → Use s s' → s'.ready ≡ s.ready
unfolding send append_buffer close shut
Use-ready _ _ (sends s bytes keep_alive) = refl
Use-ready _ _ (shuts s code) = ground arith

use_one :
    (front back : List Stream) (s s' : Stream)
    → s'.ready ≡ s.ready
    → All (λ (t : Stream). t.ready ≡ false) (front ++ (s ∷ back))
    → All (λ (t : Stream). t.ready ≡ false) (front ++ (s' ∷ back))
use_one [] back s s' e a = (e ∙ a.0, a.1)
use_one (t ∷ front) back s s' e a = (a.0, use_one front back s s' e a.1)

Step-IsWf :
    {S : Type 0} (release : ℕ → S → S × List Buffer) (empty_front : Option ℕ) (c d : Connection)
    (change : Change)
    → Step release empty_front c change d
    → IsWf c
    → IsWf d
unfolding check_pending_streams
Step-IsWf release empty_front _ _ _ (new_stream_step c data_cb close_cb opened) w =
    get_new_stream-IsWf c data_cb close_cb opened w
Step-IsWf release empty_front _ _ _ (check_pending_step c available opened) (o, p) =
    open_pending-IsWf available opened c.streams c.pending_streams o p
Step-IsWf release empty_front _ _ _ (opened_step c id app_code) w =
    stream_opened-IsWf c id app_code w
Step-IsWf release empty_front _ _ _ (closed_step c id app_code is_local) w =
    stream_closed-IsWf c id app_code is_local w
Step-IsWf release empty_front _ _ _ (ack_step c id size owner r h) w =
    stream_ack-IsWf release empty_front c id size owner r h w
Step-IsWf release empty_front _ _ _ (receive_step c id bytes fin cb_throws r h) w =
    stream_receive-IsWf c id bytes fin cb_throws r h w
Step-IsWf release empty_front _ _ _ (use_step c id s s' e u) (o, p) = (
  assign-IsOrdered id s' c.streams (Use-IsEntry s s' id u (find-IsEntry id c.streams s o e)) o,
  p,
)
Step-IsWf release empty_front _ _ _ (use_pending_step c front back s s' e u) (o, p) = (
  o,
  use_one front back s s' (Use-ready s s' u)
      (subst (λ (ps : List Stream). All (λ t. t.ready ≡ false) ps) e p),
)

-- Through every history of calls of ngtcp2 and of the application, from a connection with no streams,
-- the streams in the map are ready and under their own ids, no id stands twice, and the streams in the
-- queue are not ready.
pub Run-IsWf :
    {S : Type 0} (release : ℕ → S → S × List Buffer) (empty_front : Option ℕ) (start c : Connection)
    (changes : List Change)
    → start.streams ≡ []
    → start.pending_streams ≡ []
    → Run release empty_front start changes c
    → IsWf c
Run-IsWf release empty_front start _ _ m p started = rw (m, p) (tt, tt)
Run-IsWf release empty_front start _ _ m p (then_step c d before change run step) =
    Step-IsWf release empty_front c d change step
      (Run-IsWf release empty_front start c before m p run)
