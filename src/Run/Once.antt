-- ===== src/Run/Once.antt =====
-- `run_once` of deaddit/agents/loop.py as a whole, over the rows.
use deaddit.Prelude.{
  ℕ, String, Bool, false, not, ◌&&◌, Option, none, some, ◌==◌, if◌then◌else◌, first_where,
}
use deaddit.Prelude.Json.{Json}
use deaddit.Run.{Agent, Store}
use deaddit.Run.Lifecycle.{Env, recover_stale_runs}
use deaddit.Run.Reservation.{
  Refusal, in_progress, Reservation, reserved, refused, has_run, reserve_persona_run,
}
use deaddit.Run.Ends.{Counts, backoff_without_strike, fail, complete_run, annotate_run}
use deaddit.Run.Loop.{Exit, stopped, done, failed, Progress}

-- The preparation of the visit raised, or it gave the run's intent and metadata.
pub data Preparation : Type 0 where
  unprepared : String → Preparation
  prepared : String → Json → Preparation

-- What the run does not decide: the moments, the wake delay, what the other workers do before each
-- attempt to reserve and between the reading of the agent's runs and the delay, the preparation of the
-- visit, and the visit of the reserved run, in whose times they also work. The visit begins with the
-- reading of the run's status that follows the preparation.
pub record Around : Type 0 where
  pub recover_at : ℕ
  pub reserve_at : ℕ
  pub end_at : ℕ
  pub delay : ℕ
  pub meanwhile : ℕ → Store → Store
  pub before_backoff : Store → Store
  pub prepare : ℕ → Store → Preparation × Store
  pub visit : ℕ → Store → Exit × Progress × Store

pub data Result : Type 0 where
  unknown_agent : Result
  rejected : Refusal → Result
  finished : ℕ → Result

abbrev pub counts_of : Progress → Counts
counts_of p = record { turns = p.turn_count; actions = p.action_count; usage = p.usage }

abbrev pub no_counts : Counts
no_counts = record {
  turns = 0;
  actions = 0;
  usage = record { prompt_tokens = 0; completion_tokens = 0; total_tokens = 0 };
}

abbrev pub end_visit : Around → ℕ → ℕ → Exit × Progress × Store → Store
end_visit around k a (stopped, p, s) = s
end_visit around k a (done, p, s) = complete_run around.end_at around.delay k a (counts_of p) s
end_visit around k a (failed message strike, p, s) =
    fail around.end_at k a (counts_of p) message strike s

-- What was prepared is written whatever the status of the run is by then.
abbrev pub with_preparation : Around → ℕ → ℕ → Preparation × Store → Store
with_preparation around k a (unprepared message, s) =
    fail around.end_at k a no_counts message false s
with_preparation around k a (prepared intent metadata, s) =
    end_visit around k a (around.visit k (annotate_run k intent metadata s))

-- `scheduled` is that the trigger is the schedule.
abbrev pub with_reservation : Around → Bool → ℕ → Reservation × Store → Result × Store
with_reservation around scheduled a (refused r, s) = (
  rejected r,
  if scheduled && not (has_run a s)
      then backoff_without_strike a around.reserve_at (around.before_backoff s)
      else s,
)
with_reservation around scheduled a (reserved k, s) =
    (finished k, with_preparation around k a (around.prepare k s))

abbrev pub with_recovered : Env → Around → Bool → Agent → Bool × Store → Result × Store
with_recovered env around scheduled x (has, s) =
    let reservation =
      with_reservation around scheduled x.id
        (reserve_persona_run env x around.reserve_at around.meanwhile s) in
    if has then (rejected in_progress, s) else reservation

abbrev pub with_agent : Env → Around → Bool → Option Agent → Store → Result × Store
with_agent env around scheduled none s = (unknown_agent, s)
with_agent env around scheduled (some x) s =
    with_recovered env around scheduled x (recover_stale_runs env x around.recover_at s)

unfoldable pub run_once : Env → Around → Bool → ℕ → Store → Result × Store
run_once env around scheduled a s =
    with_agent env around scheduled (first_where (λ x. x.id == a) s.agents) s
