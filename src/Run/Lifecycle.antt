-- ===== src/Run/Lifecycle.antt =====
-- Closing and recovering runs: deaddit/agents/loop.py and deaddit/runtime/wakes.py.
use deaddit.Prelude.{
  ℕ, ◌+◌, String, Bool, not, ◌&&◌, Option, some, List, [], ◌∷◌, ◌++◌, ◌==◌, str_eq, if◌then◌else◌,
  select, count_where, update_where,
}
use deaddit.Prelude.Int.{ℤ, pos, ltb_ℤ, ◌+ℤ◌}
use deaddit.Run.{interrupted, idle, recovered, AgentRun, Agent, Store, is_running, is_active}
use deaddit.Run.Config.{int_config}

-- What the functions call: `int` of a text and `random.choice`.
pub record Env : Type 0 where
  pub int : String → Option ℤ
  pub choose : List String → String

abbrev pub is_of_agent : ℕ → AgentRun → Bool
is_of_agent a r = r.agent_id == a && is_running r.status

abbrev pub is_of_persona : String → AgentRun → Bool
is_of_persona p r = str_eq r.persona_username p && is_running r.status

-- The UPDATE of a run that is still running, where `test` is what else the statement asks of it.
abbrev pub owns : ℕ → AgentRun → Bool
owns k r = r.id == k && is_running r.status

abbrev pub is_the_active : ℕ → Agent → Bool
is_the_active a x = x.id == a && is_active x.status

-- A run is closed by a conditional UPDATE, and only where that matched is the agent written, and only
-- where it is still active. Otherwise the transaction is rolled back or changes nothing.
abbrev pub close :
    (AgentRun → Bool) → (AgentRun → AgentRun) → ℕ → (Agent → Agent) → Store → ℕ × Store
close test f a g s =
    let n : ℕ = count_where test s.runs in
    (
      n,
      (if n == 0 then s else record s {
        runs = update_where test f s.runs;
        agents = update_where (is_the_active a) g s.agents;
      }),
    )

abbrev pub as_interrupted : ℕ → AgentRun → AgentRun
as_interrupted now r = record r {
  status = interrupted;
  finished_at = some now;
  error_message = some recovered;
}

abbrev pub as_idle : Agent → Agent
as_idle x = record x { status = idle }

abbrev pub budget : Env → Agent → ℤ
budget env a = int_config env.int a.config "max_run_seconds" (pos 300) +ℤ pos 60

-- `started_at < now - budget`
abbrev pub is_overdue : ℤ → ℕ → AgentRun → Bool
is_overdue seconds now r = ltb_ℤ (pos r.started_at +ℤ seconds) (pos now)

unfoldable pub interrupt_all : ℕ → ℕ → List AgentRun → Store → Store
interrupt_all now a [] s = s
interrupt_all now a (r ∷ rs) s =
    interrupt_all now a rs (close (owns r.id) (as_interrupted now) a as_idle s).1

-- Whether a run of the agent is left that is running.
unfoldable pub recover_stale_runs : Env → Agent → ℕ → Store → Bool × Store
unfolding interrupt_all int_config ◌+ℤ◌
recover_stale_runs env a now s =
    let s' : Store =
      interrupt_all now a.id
        (select (λ r. is_of_agent a.id r && is_overdue (budget env a) now r) s.runs) s in
    (not (count_where (is_of_agent a.id) s'.runs == 0), s')

-- The join of the running runs with their agents.
abbrev pub pairs_of : AgentRun → List Agent → List (AgentRun × Agent)
pairs_of r [] = []
pairs_of r (x ∷ xs) = let rest = pairs_of r xs in if x.id == r.agent_id then (r, x) ∷ rest else rest

abbrev pub running_pairs : List AgentRun → List Agent → List (AgentRun × Agent)
running_pairs [] agents = []
running_pairs (r ∷ rs) agents =
    let rest = running_pairs rs agents in
    if is_running r.status then pairs_of r agents ++ rest else rest

abbrev pub is_overdue_run : ℤ → ℕ → ℕ → AgentRun → Bool
is_overdue_run seconds now k r = owns k r && is_overdue seconds now r

unfoldable pub interrupt_one : Env → ℕ → AgentRun → Agent → Store → ℕ × Store
unfolding int_config ◌+ℤ◌
interrupt_one env now r x s =
    if is_overdue (budget env x) now r
    then close (is_overdue_run (budget env x) now r.id) (as_interrupted now) x.id as_idle s
    else (0, s)

unfoldable pub interrupt_pairs : Env → ℕ → List (AgentRun × Agent) → Store → ℕ × Store
unfolding interrupt_one
interrupt_pairs env now [] s = (0, s)
interrupt_pairs env now ((r, x) ∷ rest) s =
    let (n, s') = interrupt_one env now r x s in
    let (m, s'') = interrupt_pairs env now rest s' in (n + m, s'')

unfoldable pub interrupt_stale_runs : Env → ℕ → Store → ℕ × Store
unfolding interrupt_pairs
interrupt_stale_runs env now s = interrupt_pairs env now (running_pairs s.runs s.agents) s
