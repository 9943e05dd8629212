-- ===== src/Network/Tests.antt =====
-- The theorems on a network, at one with two endpoints, and at a short run of its queue.
use oxen_libquic.Base.{ℕ, ◌≡◌, refl, Bool, true, false, some, List, [], ◌∷◌}
use oxen_libquic.Base.Outcome.{done}
use oxen_libquic.Network.{Network}
use oxen_libquic.Network.Acts.{pick, kept, cleared, closed, exited, InOrder}
use oxen_libquic.Network.History.{close_calls, close_calls_lem}
use oxen_libquic.Network.Jobs.{
  Loop, Reachable, push, at_start, after_step, start, Stage, idle, Sound, Reachable-Sound,
}

abbrev network : Network
network = record {
  running = true;
  own_thread = true;
  endpoint_map = (1, some 10) ∷ (2, some 20) ∷ [];
  acts = [];
}

-- A graceful call, and one that is not.
close_calls_lem_example :
    (n' : Network) × (close_calls ((5, true) ∷ (6, false) ∷ []) network ≡ done n')
    × (n'.running ≡ false)
    × (n'.endpoint_map ≡ [])
    × (pick kept n'.acts ≡ 5 ∷ 6 ∷ [])
    × (pick cleared n'.acts ≡ 10 ∷ 20 ∷ [])
    × (pick closed n'.acts ≡ 10 ∷ 20 ∷ [])
    × (pick exited n'.acts ≡ 0 ∷ [])
    × InOrder n'.acts
close_calls_lem_example =
    close_calls_lem network 5 true ((6, false) ∷ []) refl refl (refl, (refl, tt))

-- A job pushed by a thread, and called in the loop.
abbrev state : List ℕ → ℕ → Bool → Stage → List ℕ → Loop
state queue pushing active stage called = record {
  job_queue = queue;
  pushing = pushing;
  active = active;
  stage = stage;
  called = called;
  pushed = 7 ∷ [];
}

pushed_job : Reachable (state (7 ∷ []) 1 false idle [])
pushed_job = after_step start _ at_start (push start 7)

Reachable-Sound_example : Sound (state (7 ∷ []) 1 false idle [])
Reachable-Sound_example = Reachable-Sound (state (7 ∷ []) 1 false idle []) pushed_job
