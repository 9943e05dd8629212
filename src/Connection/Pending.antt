-- ===== src/Connection/Pending.antt =====
-- src/connection.cpp: `check_pending_streams`, which opens the pending streams first come, first served.
use mathlib.Core.Path.{subst}
use oxen_libquic.Base.{
  if◌then◌else◌, ◌==◌, inl, inr, Bool-cases, ==_iff, ℕ, zero, suc, ◌≤◌, ◌≡◌, ◌≢◌, refl, sym, ap,
  ◌∙◌, true, Option, none, some, List, [], ◌∷◌, All, length, take, drop, map, arith,
}
use oxen_libquic.Base.Int.{pos}
use oxen_libquic.Stream.{Stream, set_ready}
use oxen_libquic.Connection.{Connection, open_pending, check_pending_streams}
use oxen_libquic.Connection.Streams.{StreamMap, find, assign}
use oxen_libquic.Connection.Streams.Order.{find-assign_any}

-- Which streams get which ids: one for one, up to the first failure, the last stream or the limit.
abbrev pub moves : ℕ → List (Option ℕ) → List Stream → List (ℕ × Stream)
moves zero opened ps = []
moves (suc room) opened [] = []
moves (suc room) [] (s ∷ ps) = []
moves (suc room) (none ∷ opened) (s ∷ ps) = []
moves (suc room) (some id ∷ opened) (s ∷ ps) = (id, s) ∷ moves room opened ps

-- No id is given twice.
abbrev pub AreDistinct : List (ℕ × Stream) → Type 0
AreDistinct [] = Unit {0}
AreDistinct (e ∷ es) = All (λ f. f.0 ≢ e.0) es × AreDistinct es

-- A pending stream once it is open.
abbrev pub opened_as : ℕ × Stream → Stream
opened_as (id, s) = record s { stream_id = pos id; ready = true }

moves_fifo :
    (room : ℕ) (opened : List (Option ℕ)) (m : StreamMap) (ps : List Stream)
    → let es = moves room opened ps in
      ((open_pending room opened m ps).1 ≡ drop (length es) ps)
      × (map (λ e. e.1) es ≡ take (length es) ps)
      × (length es ≤ room)
unfolding open_pending
moves_fifo zero opened m ps = (refl, refl, omega arith)
moves_fifo (suc room) opened m [] = (refl, refl, omega arith)
moves_fifo (suc room) [] m (s ∷ ps) = (refl, refl, omega arith)
moves_fifo (suc room) (none ∷ opened) m (s ∷ ps) = (refl, refl, omega arith)
moves_fifo (suc room) (some id ∷ opened) m (s ∷ ps) =
    let (a, b, c) =
      moves_fifo room opened (assign id (set_ready (record s { stream_id = pos id })) m) ps in
    (a, ap (◌∷◌ s) b, omega arith)

-- The stream that an id leads to, given where it led before.
abbrev pub placed : ℕ → List (ℕ × Stream) → Option Stream → Option Stream
placed k [] before = before
placed k (e ∷ es) before =
    let rest = placed k es before in if k == e.0 then some (opened_as e) else rest

placed_other :
    (id : ℕ) (es : List (ℕ × Stream)) (before : Option Stream)
    → All (λ e. e.0 ≢ id) es
    → placed id es before ≡ before
placed_other id [] before a = refl
placed_other id (e ∷ es) before a = ground (arith, a.0, placed_other id es before a.1)

placed_after :
    (id k : ℕ) (es : List (ℕ × Stream)) (s : Stream) (before : Option Stream)
    → All (λ e. e.0 ≢ id) es
    → placed k es (if k == id then some s else before)
      ≡ (if k == id then some s else placed k es before)
placed_after id k es s before a = elim (Bool-cases (k == id)) [
  | inl same ↦ rw same (
      placed_other k es (some s)
        (subst (λ i. All (λ e. e.0 ≢ i) es) (sym ((==_iff k id).0 same)) a))
  | inr other ↦ rw other refl
]

open_pending-placed :
    (room : ℕ) (opened : List (Option ℕ)) (m : StreamMap) (ps : List Stream) (k : ℕ)
    → AreDistinct (moves room opened ps)
    → find k (open_pending room opened m ps).0 ≡ placed k (moves room opened ps) (find k m)
unfolding open_pending set_ready
open_pending-placed zero opened m ps k d = refl
open_pending-placed (suc room) opened m [] k d = refl
open_pending-placed (suc room) [] m (s ∷ ps) k d = refl
open_pending-placed (suc room) (none ∷ opened) m (s ∷ ps) k d = refl
open_pending-placed (suc room) (some id ∷ opened) m (s ∷ ps) k d =
    open_pending-placed room opened (assign id (opened_as (id, s)) m) ps k d.1
    ∙ ap (placed k (moves room opened ps)) (find-assign_any id k (opened_as (id, s)) m)
    ∙ placed_after id k (moves room opened ps) (opened_as (id, s)) (find k m) d.0

-- Where ngtcp2 gives no id twice, `check_pending_streams` opens the streams at the front of the
-- queue, no more than are available, and leaves the others in order. Each one opened is in the map
-- under the id that it was given, ready, with all that it had, and every other id leads where it
-- led.
pub check_pending_streams_lem :
    (c : Connection) (available : ℕ) (opened : List (Option ℕ))
    → AreDistinct (moves available opened c.pending_streams)
    → let c' = check_pending_streams c available opened in
      let es = moves available opened c.pending_streams in
      (c'.pending_streams ≡ drop (length es) c.pending_streams)
      × (map (λ e. e.1) es ≡ take (length es) c.pending_streams)
      × (length es ≤ available)
      × ((k : ℕ) → find k c'.streams ≡ placed k es (find k c.streams))
unfolding check_pending_streams
check_pending_streams_lem c available opened d =
    let (a, b, l) = moves_fifo available opened c.streams c.pending_streams in
    (a, b, l, λ k. open_pending-placed available opened c.streams c.pending_streams k d)
