-- ===== src/Network/Lifetime.antt =====
-- src/network.cpp: the making of a Network.
use oxen_libquic.Base.{ℕ, Bool, true, false, List, [], ◌∷◌, ◌++◌, ◌==◌, if◌then◌else◌}
use oxen_libquic.Network.{Network}

-- What a constructor has libevent and the system do, on POSIX.
pub data Setup : Type 0 where
  set_log_callback use_pthreads : Setup
  new_config set_precise_timer set_changelist : Setup
  new_base new_job_waker start_thread : Setup

abbrev new_network : Bool → Network
new_network own_thread = record {
  running = true;
  own_thread = own_thread;
  endpoint_map = [];
  acts = [];
}

-- The constructor for a loop that runs already.
unfoldable pub make_attached : Network × List Setup
make_attached = (new_network false, new_job_waker ∷ [])

-- The constructor that runs its own loop; `once` is its static variable, which the result gives as it
-- is afterwards.
unfoldable pub make_network : Bool → Network × Bool × List Setup
make_network once = (
  new_network true,
  true,
  (if once then [] else set_log_callback ∷ use_pthreads ∷ [])
      ++ (new_config ∷ set_precise_timer ∷ set_changelist ∷ new_base ∷ new_job_waker ∷ start_thread
          ∷ []),
)

-- The callback for libevent's messages, by their severity: the level that it logs at, if it knows the
-- severity, and then the abort of the program.
pub data Logged : Type 0 where
  error warning info debug aborted : Logged

unfoldable pub on_libevent_message : (err warn msg dbg severity : ℕ) → List Logged
on_libevent_message err warn msg dbg severity =
    (if severity == err
      then error ∷ []
      else if severity == warn
      then warning ∷ []
      else if severity == msg
      then info ∷ []
      else if severity == dbg
      then debug ∷ []
      else [])
    ++ (aborted ∷ [])
