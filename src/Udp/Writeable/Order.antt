-- ===== src/Udp/Writeable/Order.antt =====
-- Every callback is called once, in the order of the calls of `when_writeable`, and none is
-- forgotten.
use oxen_libquic.Base.{
  ℕ, true, false, List, [], ◌∷◌, ◌++◌, ◌≡◌, refl, sym, ap, ◌∙◌, ◌⊎◌, inl, inr, append-nil,
  append_assoc,
}
use oxen_libquic.Udp.Writeable.{
  Writer, when_writeable, when_writeable_each, call_each, on_writeable, Log, queued_by, Step,
  queue_one, fire, Reachable, start, next,
}

-- A socket with callbacks waits for its event.
abbrev pub IsArmed : Writer → Type 0
IsArmed w = (w.armed ≡ true) ⊎ (w.writeable_callbacks ≡ [])

pub record InOrder (l : Log) : Type 0 where
  pub all_queued : l.queued ≡ l.called ++ l.writer.writeable_callbacks
  pub waits : IsArmed l.writer

when_writeable_each-callbacks :
    (w : Writer) (cbs : List ℕ)
    → (when_writeable_each w cbs).writeable_callbacks ≡ w.writeable_callbacks ++ cbs
unfolding when_writeable
when_writeable_each-callbacks w [] = sym (append-nil _)
when_writeable_each-callbacks w (cb ∷ cbs) =
    when_writeable_each-callbacks (when_writeable w cb) cbs
    ∙ append_assoc w.writeable_callbacks (cb ∷ []) cbs

when_writeable_each-IsArmed :
    (w : Writer) (cbs : List ℕ) → IsArmed w → IsArmed (when_writeable_each w cbs)
unfolding when_writeable
when_writeable_each-IsArmed w [] a = a
when_writeable_each-IsArmed w (cb ∷ cbs) a =
    when_writeable_each-IsArmed (when_writeable w cb) cbs (inl refl)

call_each-callbacks :
    (queues : ℕ → List ℕ) (cbs : List ℕ) (w : Writer)
    → (call_each queues cbs w).0.writeable_callbacks ≡ w.writeable_callbacks ++ queued_by queues cbs
unfolding call_each
call_each-callbacks queues [] w = sym (append-nil _)
call_each-callbacks queues (cb ∷ cbs) w =
    call_each-callbacks queues cbs (when_writeable_each w (queues cb))
    ∙ ap (λ k. k ++ queued_by queues cbs) (when_writeable_each-callbacks w (queues cb))
    ∙ append_assoc w.writeable_callbacks (queues cb) (queued_by queues cbs)

call_each-called :
    (queues : ℕ → List ℕ) (cbs : List ℕ) (w : Writer) → (call_each queues cbs w).1 ≡ cbs
unfolding call_each
call_each-called queues [] w = refl
call_each-called queues (cb ∷ cbs) w =
    ap (◌∷◌ cb) (call_each-called queues cbs (when_writeable_each w (queues cb)))

call_each-IsArmed :
    (queues : ℕ → List ℕ) (cbs : List ℕ) (w : Writer)
    → IsArmed w
    → IsArmed (call_each queues cbs w).0
unfolding call_each
call_each-IsArmed queues [] w a = a
call_each-IsArmed queues (cb ∷ cbs) w a =
    call_each-IsArmed queues cbs (when_writeable_each w (queues cb))
      (when_writeable_each-IsArmed w (queues cb) a)

on_writeable-callbacks :
    (queues : ℕ → List ℕ) (w : Writer)
    → ((on_writeable queues w).1 ≡ w.writeable_callbacks)
      × ((on_writeable queues w).0.writeable_callbacks ≡ queued_by queues (on_writeable queues w).1)
unfolding on_writeable
on_writeable-callbacks queues w =
    let e =
      call_each-called queues w.writeable_callbacks
        (record { writeable_callbacks = []; armed = false }) in
    (e, call_each-callbacks queues w.writeable_callbacks _ ∙ ap (queued_by queues) (sym e))

Step-InOrder : {l m : Log} → Step l m → InOrder l → InOrder m
unfolding when_writeable on_writeable
Step-InOrder (queue_one l cb) o = record {
  all_queued = ap (λ k. k ++ (cb ∷ [])) o.all_queued ∙ append_assoc l.called _ (cb ∷ []);
  waits = inl refl;
}
Step-InOrder (fire l queues a) o =
    let (e, f) = on_writeable-callbacks queues l.writer in
    record {
      all_queued =
          ap (λ k. k ++ queued_by queues (on_writeable queues l.writer).1)
            (o.all_queued ∙ ap (λ k. l.called ++ k) (sym e))
          ∙ ap (λ k. (l.called ++ (on_writeable queues l.writer).1) ++ k) (sym f);
      waits = call_each-IsArmed queues l.writer.writeable_callbacks _ (inr refl);
    }

Reachable-InOrder : {l : Log} → Reachable l → InOrder l
Reachable-InOrder start = record { all_queued = refl; waits = inr refl }
Reachable-InOrder (next r s) = Step-InOrder s (Reachable-InOrder r)

-- In every state that calls of `when_writeable` and the event can lead to: either the event is
-- waited for, and when it fires the callbacks that have been called are exactly those that
-- `when_writeable` had been given, each once and in order; or this holds already.
pub Reachable-fire :
    {l : Log} (queues : ℕ → List ℕ)
    → Reachable l
    → (l.queued ≡ l.called)
      ⊎ ((l.writer.armed ≡ true)
          × (l.called ++ (on_writeable queues l.writer).1 ≡ l.queued)
          × ((on_writeable queues l.writer).0.writeable_callbacks
              ≡ queued_by queues (on_writeable queues l.writer).1))
Reachable-fire {l} queues r =
    let o = Reachable-InOrder r in
    let (e, f) = on_writeable-callbacks queues l.writer in
    elim o.waits [
      | inl a ↦ inr (a, ap (λ k. l.called ++ k) e ∙ sym o.all_queued, f)
      | inr n ↦ inl (o.all_queued ∙ ap (λ k. l.called ++ k) n ∙ append-nil l.called)
    ]
