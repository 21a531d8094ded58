-- ===== src/Run/Ends.antt =====
-- The ends of a run in deaddit/agents/loop.py, and the delay of an agent that could not run.
use deaddit.Prelude.{
  ℕ, ◌+◌, String, Bool, false, none, some, ◌==◌, leb, if◌then◌else◌, update_where,
}
use deaddit.Prelude.Json.{Json}
use deaddit.Run.{completed, failed, idle, error, disabled, raised, Usage, AgentRun, Agent, Store}
use deaddit.Run.Lifecycle.{owns, close}

abbrev pub failure_backoff_seconds : ℕ
failure_backoff_seconds = 300

abbrev pub backoff : ℕ → Agent → Agent
backoff now x =
    if x.is_enabled then record x { next_run_at = some (now + failure_backoff_seconds) } else x

-- `_backoff_without_strike`
unfoldable pub backoff_without_strike : ℕ → ℕ → Store → Store
backoff_without_strike a now s = record s {
  agents =
      update_where (λ x. x.id == a)
        (λ x. backoff now (record x { status = error; last_run_at = some now })) s.agents;
}

-- The two columns that the preparation of a visit writes, without a condition on the status.
abbrev pub annotate : String → Json → AgentRun → AgentRun
annotate intent metadata r = record r { intent = some intent; prompt_metadata = some metadata }

unfoldable pub annotate_run : ℕ → String → Json → Store → Store
annotate_run k intent metadata s = record s {
  runs = update_where (λ r. r.id == k) (annotate intent metadata) s.runs;
}

-- The counters that a closed run keeps.
pub record Counts : Type 0 where
  pub turns : ℕ
  pub actions : ℕ
  pub usage : Usage

abbrev pub as_failed : ℕ → Counts → String → AgentRun → AgentRun
as_failed now c message r = record r {
  status = failed;
  finished_at = some now;
  turn_count = c.turns;
  action_count = c.actions;
  token_usage = some c.usage;
  error_message = some (raised message);
}

abbrev pub disable_threshold : ℕ
disable_threshold = 5

abbrev pub struck : Agent → Agent
struck x =
    let n = x.consecutive_failures + 1 in
    if leb disable_threshold n
    then record x {
      consecutive_failures = n;
      is_enabled = false;
      status = disabled;
      next_run_at = none;
    }
    else record x { consecutive_failures = n }

abbrev pub failed_agent : ℕ → Bool → Agent → Agent
failed_agent now strike x =
    let x' : Agent = backoff now (record x { status = error; last_run_at = some now }) in
    if strike then struck x' else x'

-- `_fail`
unfoldable pub fail : ℕ → ℕ → ℕ → Counts → String → Bool → Store → Store
fail now k a c message strike s =
    (close (owns k) (as_failed now c message) a (failed_agent now strike) s).1

abbrev pub as_completed : ℕ → Counts → AgentRun → AgentRun
as_completed now c r = record r {
  status = completed;
  finished_at = some now;
  turn_count = c.turns;
  action_count = c.actions;
  token_usage = some c.usage;
}

abbrev pub completed_agent : ℕ → ℕ → Agent → Agent
completed_agent now delay x = record x {
  consecutive_failures = 0;
  status = idle;
  last_run_at = some now;
  next_run_at = if x.is_enabled then some (now + delay) else none;
}

-- The end of `run_once`; `delay` is the sampled wake delay.
unfoldable pub complete_run : ℕ → ℕ → ℕ → ℕ → Counts → Store → Store
complete_run now delay k a c s =
    (close (owns k) (as_completed now c) a (completed_agent now delay) s).1
