-- ===== src/Network/Jobs.antt =====
-- src/network.cpp: `call_soon` and `process_job_queue`, as the steps that the threads take in any order.
-- The mutex makes the push and the swap single steps; the push and the waking are two.
use oxen_libquic.Base.{
  ℕ, suc, ◌<◌, ◌≡◌, refl, sym, ap, ◌∙◌, Bool, true, false, List, [], ◌∷◌, ◌++◌, append_assoc,
  append-nil, arith, inl, inr, ◌⊎◌,
}

-- What the loop's thread is at: waiting for events, in the callback of `job_waker` before the swap, or
-- in the loop over the swapped queue.
pub data Stage : Type 0 where
  idle woken : Stage
  running : List ℕ → Stage

-- Jobs are numbers. `pushing` counts the threads that are between the push and `event_active`, `active`
-- is whether `job_waker` is active; `called` are the jobs that have been called, `pushed` all that were
-- ever pushed.
pub record Loop : Type 0 where
  pub job_queue : List ℕ
  pub pushing : ℕ
  pub active : Bool
  pub stage : Stage
  pub called : List ℕ
  pub pushed : List ℕ

abbrev pub start : Loop
start = record {
  job_queue = [];
  pushing = 0;
  active = false;
  stage = idle;
  called = [];
  pushed = [];
}

pub data Step : Loop → Loop → Type 0 where
  -- `call_soon` of some thread, or of a job: the push under the mutex
  push :
      (l : Loop) (j : ℕ)
      → Step l (record l {
        job_queue = l.job_queue ++ (j ∷ []);
        pushing = suc l.pushing;
        pushed = l.pushed ++ (j ∷ []);
      })
  -- and its `event_active`
  wake : (l : Loop) (n : ℕ) → l.pushing ≡ suc n → Step l (record l { pushing = n; active = true })
  -- libevent takes the event off its active list and calls back
  run_waker :
      (l : Loop)
      → l.stage ≡ idle
      → l.active ≡ true
      → Step l (record l { active = false; stage = woken })
  -- `job_queue.swap` under the mutex
  swap :
      (l : Loop)
      → l.stage ≡ woken
      → Step l (record l { job_queue = []; stage = running l.job_queue })
  -- a pass of the loop
  call_job :
      (l : Loop) (j : ℕ) (js : List ℕ)
      → l.stage ≡ running (j ∷ js)
      → Step l (record l { called = l.called ++ (j ∷ []); stage = running js })
  finish : (l : Loop) → l.stage ≡ running [] → Step l (record l { stage = idle })

pub data Reachable : Loop → Type 0 where
  at_start : Reachable start
  after_step : (l m : Loop) → Reachable l → Step l m → Reachable m

-- The jobs of the swapped queue that have not been called.
abbrev pub batch : Stage → List ℕ
batch idle = []
batch woken = []
batch (running js) = js

-- Something is on its way that will empty the queue.
abbrev pub WillRun : Loop → Type 0
WillRun l = (l.active ≡ true) ⊎ (0 < l.pushing) ⊎ (l.stage ≡ woken)

abbrev pub Sound : Loop → Type 0
Sound l = (l.called ++ (batch l.stage ++ l.job_queue) ≡ l.pushed) × ((l.job_queue ≡ []) ⊎ WillRun l)

running_not_woken : (js : List ℕ) → running js ≡ woken → ⊥
running_not_woken js q = cc

idle_not_woken : idle ≡ woken → ⊥
idle_not_woken q = cc

-- In the loop over the swapped queue, what will run does not hang on the stage.
still_runs :
    (l : Loop) (js called : List ℕ) (next : Stage)
    → l.stage ≡ running js
    → (l.job_queue ≡ []) ⊎ WillRun l
    → (l.job_queue ≡ []) ⊎ WillRun (record l { called = called; stage = next })
still_runs l js called next s (inl q) = inl q
still_runs l js called next s (inr (inl a)) = inr (inl a)
still_runs l js called next s (inr (inr (inl p))) = inr (inr (inl p))
still_runs l js called next s (inr (inr (inr k))) = absurd (running_not_woken js (sym s ∙ k))

Step-Sound : (l m : Loop) → Step l m → Sound l → Sound m
Step-Sound _ _ (push l j) (e, w) = (
  ap (λ t. l.called ++ t) (sym (append_assoc (batch l.stage) l.job_queue (j ∷ [])))
      ∙ sym (append_assoc l.called (batch l.stage ++ l.job_queue) (j ∷ []))
      ∙ ap (λ t. t ++ (j ∷ [])) e,
  inr (inr (inl (omega arith))),
)
Step-Sound _ _ (wake l n p) (e, w) = (e, inr (inl refl))
Step-Sound _ _ (run_waker l s a) (e, w) =
    (ap (λ t. l.called ++ (batch t ++ l.job_queue)) (sym s) ∙ e, inr (inr (inr refl)))
Step-Sound _ _ (swap l s) (e, w) = (
  ap (λ t. l.called ++ t) (append-nil l.job_queue)
      ∙ ap (λ t. l.called ++ (batch t ++ l.job_queue)) (sym s)
      ∙ e,
  inl refl,
)
Step-Sound _ _ (call_job l j js s) (e, w) = (
  append_assoc l.called (j ∷ []) (js ++ l.job_queue)
      ∙ ap (λ t. l.called ++ (batch t ++ l.job_queue)) (sym s)
      ∙ e,
  still_runs l (j ∷ js) (l.called ++ (j ∷ [])) (running js) s w,
)
Step-Sound _ _ (finish l s) (e, w) =
    (ap (λ t. l.called ++ (batch t ++ l.job_queue)) (sym s) ∙ e, still_runs l [] l.called idle s w)

-- However the threads and the loop interleave, the jobs called, then those of the swapped queue, then
-- those of the queue are all the jobs pushed, in the order pushed: each is called at most once, first
-- come, first served. And no wake-up is lost: while a job is in the queue, `job_waker` is active, or a
-- thread is about to make it so, or the loop is about to take the queue.
pub Reachable-Sound : (l : Loop) → Reachable l → Sound l
Reachable-Sound _ at_start = (refl, inl refl)
Reachable-Sound _ (after_step l m r s) = Step-Sound l m s (Reachable-Sound l r)

-- In every state that the threads and the loop can reach, where no thread is pushing, `job_waker`
-- is not active and the loop is idle, every job pushed has been called, in order.
pub Reachable-called :
    (l : Loop)
    → Reachable l
    → l.pushing ≡ 0
    → l.active ≡ false
    → l.stage ≡ idle
    → l.called ≡ l.pushed
Reachable-called l r p a s =
    let (e, w) = Reachable-Sound l r in
    sym (append-nil l.called)
    ∙ ap (λ t. l.called ++ t) (sym (none_left w))
    ∙ ap (λ t. l.called ++ (batch t ++ l.job_queue)) (sym s)
    ∙ e
  where
    none_left : (l.job_queue ≡ []) ⊎ WillRun l → l.job_queue ≡ []
    none_left (inl q) = q
    none_left (inr (inl t)) = absurd cc
    none_left (inr (inr (inl t))) = absurd (omega arith)
    none_left (inr (inr (inr t))) = absurd (idle_not_woken (sym s ∙ t))
