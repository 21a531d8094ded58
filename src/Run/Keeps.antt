-- ===== src/Run/Keeps.antt =====
-- The ways in which deaddit/agents/loop.py and deaddit/runtime/wakes.py close a run, as steps of a worker.
use deaddit.Prelude.{
  ◌≡◌, refl, ℕ, ◌≤◌, String, Bool, List, ==_self, arith, All, count_where, In, unique-All,
}
use deaddit.Run.{AgentRun, Store}
use deaddit.Run.Lifecycle.{owns, as_interrupted, as_idle}
use deaddit.Run.Ends.{
  Counts, as_failed, failed_agent, as_completed, completed_agent, fail, complete_run,
}
use deaddit.Run.Owned.{IsOwned, BelongsTo, IsClosing, IsRelease, has_key, close-IsOwned}

pub as_interrupted-IsClosing : (now : ℕ) → IsClosing (as_interrupted now)
as_interrupted-IsClosing now = record {
  id = λ r. refl;
  agent = λ r. refl;
  persona = λ r. refl;
  status = λ r. refl;
  finished = λ r. refl;
}

pub as_failed-IsClosing : (now : ℕ) (c : Counts) (m : String) → IsClosing (as_failed now c m)
as_failed-IsClosing now c m = record {
  id = λ r. refl;
  agent = λ r. refl;
  persona = λ r. refl;
  status = λ r. refl;
  finished = λ r. refl;
}

pub as_completed-IsClosing : (now : ℕ) (c : Counts) → IsClosing (as_completed now c)
as_completed-IsClosing now c = record {
  id = λ r. refl;
  agent = λ r. refl;
  persona = λ r. refl;
  status = λ r. refl;
  finished = λ r. refl;
}

pub as_idle-IsRelease : IsRelease as_idle
as_idle-IsRelease = record { id = λ x. refl; status = λ x. refl }

pub completed_agent-IsRelease : (now delay : ℕ) → IsRelease (completed_agent now delay)
completed_agent-IsRelease now delay = record { id = λ x. refl; status = λ x. refl }

pub failed_agent-IsRelease : (now : ℕ) (strike : Bool) → IsRelease (failed_agent now strike)
failed_agent-IsRelease now strike = record { id = λ x. ground arith; status = λ x. ground arith }

pub fail-IsOwned :
    (now k a : ℕ) (c : Counts) (m : String) (strike : Bool) (s : Store)
    → BelongsTo k a s.runs
    → IsOwned s
    → IsOwned (fail now k a c m strike s)
unfolding fail
fail-IsOwned now k a c m strike s own h =
    close-IsOwned (owns k) (as_failed now c m) (as_failed-IsClosing now c m)
      (failed_agent now strike) (failed_agent-IsRelease now strike) k a s (λ r o. o) own h

pub complete_run-IsOwned :
    (now delay k a : ℕ) (c : Counts) (s : Store)
    → BelongsTo k a s.runs
    → IsOwned s
    → IsOwned (complete_run now delay k a c s)
unfolding complete_run
complete_run-IsOwned now delay k a c s own h =
    close-IsOwned (owns k) (as_completed now c) (as_completed-IsClosing now c)
      (completed_agent now delay) (completed_agent-IsRelease now delay) k a s (λ r o. o) own h

-- The listed runs are those of the agent.
abbrev pub AreOf : ℕ → List AgentRun → List AgentRun → Type 0
AreOf a runs rs = All (λ r. BelongsTo r.id a runs) rs

-- A run of the table is its agent's, since the keys are different.
pub run-BelongsTo :
    (r : AgentRun) (runs : List AgentRun)
    → In r runs
    → count_where (has_key r.id) runs ≤ 1
    → BelongsTo r.id r.agent_id runs
run-BelongsTo r runs m h =
    unique-All (has_key r.id) (λ q. q.agent_id ≡ r.agent_id) r runs (==_self r.id) m h refl
