-- ===== src/Run/Scenarios.antt =====
-- One random agent and one simulated user, through the runs of deaddit/agents/loop.py and the ticks of
-- deaddit/runtime/wakes.py.
use deaddit.Prelude.{
  ◌≡◌, refl, ℕ, ◌+◌, String, true, false, ◌==◌, none, some, List, [], ◌∷◌, inl, arith, All,
  if◌then◌else◌, is_some, count_where,
}
use deaddit.Prelude.Text.{strip, lower}
use deaddit.Run.Config.{int_config}
use deaddit.Prelude.Json.{null}
use deaddit.Run.{Agent, AgentRun, Store, Usage, random, idle, failed, raised, is_running}
use deaddit.Run.Persona.{
  select_persona, persona_of, pick, pick_lru_persona, last_used, eligible_personas,
  previous_persona,
}
use deaddit.Run.Lifecycle.{
  Env, interrupt_stale_runs, interrupt_pairs, interrupt_all, recover_stale_runs,
}
use deaddit.Run.Reservation.{new_run, insert_run, reserve_persona_run, reserve_attempts, reserved}
use deaddit.Run.Ends.{Counts, fail, complete_run, annotate_run}
use deaddit.Run.Owned.{IsOwned, runs_of}
use deaddit.Run.Keyed.{IsKeyed, IsOwned-IsKeyed}
use deaddit.Run.Exclusive.{IsExclusive}
use deaddit.Run.Steps.{
  Reach, here, further, inserting, completing, annotating, waking, IsTimely, AreTimely,
  Reach-IsOwned, Reach-IsExclusive,
}
use deaddit.Run.Life.{Life, run_of, Move-Life}
use deaddit.Run.Frozen.{Remains, Reach-frozen}
use deaddit.Run.Reserve.{IsReserved, reserve_persona_run-IsReserved}
use deaddit.Run.Eligible.{IsEligible, select_persona-IsEligible}
use deaddit.Run.Loop.{Outside, Limits, answered, done, start, visit, turns, turn, run_calls}
use deaddit.Run.Turns.{IsBounded, visit-IsBounded}
use deaddit.Run.Once.{Around, Result, prepared, finished, run_once}
use deaddit.Run.Whole.{IsVisit, IsRun, run_once-IsRun}
use deaddit.Run.Lull.{is_true_text}
use deaddit.Run.Wake.{Tick, Pool, is_runtime_enabled, wake_all, poll_once, write_agent, rescheduled}
use deaddit.Run.Awake.{IsAwakened, IsFilled, poll_once-IsAwakened, poll_once-IsFilled}
use deaddit.Run.Calm.{poll_once-IsOwned}

abbrev first_of : List String → String
first_of [] = ""
first_of (x ∷ xs) = x

abbrev env : Env
env = record { int = λ t. none; choose = first_of }

abbrev agent : Agent
agent = record {
  id = 1;
  persona_mode = random;
  user_username = none;
  autonomy_tier = "regular";
  is_enabled = true;
  status = idle;
  config = null;
  last_run_at = none;
  next_run_at = some 90;
  consecutive_failures = 0;
}

abbrev rested : Store
rested = record {
  agents = agent ∷ [];
  runs = [];
  next_run = 1;
  users = record { username = "bea"; password_hash = none } ∷ [];
  turns = [];
}

rested-IsOwned : IsOwned rested
rested-IsOwned = record {
  agents = (refl, tt);
  personas = λ p. omega arith;
  keys = λ k. omega arith;
  fresh = tt;
}

rested-IsKeyed : IsKeyed rested
rested-IsKeyed = IsOwned-IsKeyed rested rested-IsOwned

rested-IsExclusive : IsExclusive rested
rested-IsExclusive = record {
  active = ((λ on. absurd (cc on)), tt);
  agents = λ a. omega arith;
  personas = λ p. omega arith;
  dated = tt;
  keyed = rested-IsKeyed;
}

abbrev at_work : Store
at_work = insert_run 1 "bea" 100 rested

-- A worker reserves the run, and another, which saw the agent idle before, reschedules it as a lurker.
abbrev disturbed : Store
disturbed = write_agent 1 (rescheduled 110 60) at_work

abbrev disturbs : Reach env rested disturbed
disturbs = further (further here (inserting 1 "bea" 100 refl refl)) (waking 1 110 60 refl)

Reach-IsExclusive_example : IsExclusive disturbed
Reach-IsExclusive_example = Reach-IsExclusive env rested disturbed disturbs rested-IsExclusive

-- The agent is idle while its run is running.
disturbed_status :
    (disturbed.agents
      ≡ record agent { status = idle; last_run_at = some 110; next_run_at = some 170 } ∷ [])
    × (runs_of 1 disturbed.runs ≡ 1)
disturbed_status = (refl, refl)

abbrev works : Reach env rested at_work
works = further here (inserting 1 "bea" 100 refl refl)

works-AreTimely : AreTimely env rested at_work works
unfolding AreTimely IsTimely
works-AreTimely = (tt, tt)

at_work-IsOwned : IsOwned at_work
at_work-IsOwned = Reach-IsOwned env rested at_work works works-AreTimely rested-IsOwned

Move-Life_example : Life (run_of 1 rested) (run_of 1 at_work)
Move-Life_example = Move-Life env 1 rested at_work rested-IsKeyed (inserting 1 "bea" 100 refl refl)

abbrev no_usage : Usage
no_usage = record { prompt_tokens = 0; completion_tokens = 0; total_tokens = 0 }

abbrev counts : Counts
counts = record { turns = 1; actions = 0; usage = no_usage }

abbrev stopped_run : Store
stopped_run = fail 150 1 1 counts "timeout" true at_work

abbrev dead_run : AgentRun
dead_run = record (new_run 1 1 "bea" 100) {
  status = failed;
  finished_at = some 150;
  turn_count = 1;
  token_usage = some no_usage;
  error_message = some (raised "timeout");
}

stopped_run-IsKeyed : IsKeyed stopped_run
unfolding fail
stopped_run-IsKeyed = record {
  keys = λ k. (let one = at_work-IsOwned.keys k in ground (arith, one));
  fresh = (omega arith, tt);
}

stopped_run-run_of : run_of 1 stopped_run ≡ some dead_run
unfolding fail
stopped_run-run_of = refl

stopped_run-owner : All (λ (r : AgentRun). (r.id == 1) ≡ true → r.agent_id ≡ 1) stopped_run.runs
unfolding fail
stopped_run-owner = ((λ q. refl), tt)

-- The preparation of the run that was closed meanwhile ends, and then its completion comes too late.
abbrev prepared_late : Store
prepared_late = annotate_run 1 "browse" null stopped_run

prepared_late-owner : All (λ (r : AgentRun). (r.id == 1) ≡ true → r.agent_id ≡ 1) prepared_late.runs
unfolding fail annotate_run
prepared_late-owner = ((λ q. refl), tt)

Reach-frozen_example : Remains dead_run (run_of 1 (complete_run 200 60 1 1 counts prepared_late))
Reach-frozen_example =
    Reach-frozen env 1 stopped_run _ dead_run stopped_run-IsKeyed
      (further (further here (annotating 1 "browse" null refl))
        (completing 200 60 1 1 counts prepared_late-owner refl))
      stopped_run-run_of refl

prepared_late-run_of :
    run_of 1 prepared_late
    ≡ some (record dead_run { intent = some "browse"; prompt_metadata = some null })
unfolding fail annotate_run
prepared_late-run_of = refl

reserve_persona_run-IsReserved_example :
    IsReserved env 1 rested (reserve_persona_run env agent 100 (λ n s. s) rested)
reserve_persona_run-IsReserved_example =
    reserve_persona_run-IsReserved env agent 100 (λ n s. s) (λ n s. here) rested rested-IsKeyed

picked : select_persona first_of agent rested ≡ some "bea"
unfolding select_persona persona_of pick pick_lru_persona last_used eligible_personas
    previous_persona
picked = refl

select_persona-IsEligible_example : IsEligible random "bea" rested
select_persona-IsEligible_example =
    select_persona-IsEligible first_of (λ x xs. inl refl) agent rested "bea" picked

-- A model that always calls a tool that raises; the state is the clock.
abbrev busy_model : Outside ℕ
busy_model = record {
  is_active = λ w. (true, w);
  monotonic = λ w. (w, w + 1);
  sleep = λ seconds w. w + seconds;
  complete = λ messages w. (
    answered none (record { id = none; name = some "read_feed"; arguments = null } ∷ []) no_usage,
    w,
  );
  record_turn = λ seq request answer w. w;
  execute = λ name arguments w. (none, w);
}

abbrev two_actions : Limits
two_actions = record { max_actions = 2; turn_interval = 0; expires_at = 1000 }

visit-IsBounded_example : IsBounded two_actions 4 (visit busy_model two_actions [] 0).0
visit-IsBounded_example = visit-IsBounded busy_model two_actions (λ w. omega arith) [] 0

abbrev around : Around
around = record {
  recover_at = 100;
  reserve_at = 100;
  end_at = 200;
  delay = 60;
  meanwhile = λ n s. s;
  before_backoff = λ s. s;
  prepare = λ k s. (prepared "browse" null, s);
  visit = λ k s. (done, start [], s);
}

around-IsVisit : IsVisit env around
around-IsVisit = record {
  prepares = λ k s. here;
  visits = λ k s. here;
  stops = λ k s e. absurd (cc e);
}

run_once-IsRun_example : IsRun env rested (run_once env around true 1 rested)
run_once-IsRun_example =
    run_once-IsRun env around true (λ n s. here) (λ s. here) around-IsVisit 1 rested rested-IsKeyed

abbrev tick : Tick
tick = record {
  now = 100;
  runtime_enabled = some " True ";
  max_concurrent = none;
  sample = λ lo hi. 60;
  scaled = λ seconds. seconds;
  is_set = λ n. false;
  released = λ n. 0;
}

abbrev empty_pool : Pool
empty_pool = record { size = 0; free = 0; in_flight = 0 }

poll_once-IsAwakened_example :
    All
      (λ x.
        IsAwakened env 100 (interrupt_stale_runs env 100 rested).1 x
        × (is_runtime_enabled (some " True ") ≡ true))
      (poll_once env tick rested empty_pool).submitted
poll_once-IsAwakened_example = poll_once-IsAwakened env tick rested empty_pool

poll_once-IsFilled_example :
    IsFilled (poll_once env tick rested empty_pool).pool
    × ((poll_once env tick rested empty_pool).pool.size
        ≡ (if is_runtime_enabled (some " True ") then 2 else 0))
poll_once-IsFilled_example = poll_once-IsFilled env tick rested empty_pool refl

poll_once-IsOwned_example : IsOwned (poll_once env tick rested empty_pool).store
poll_once-IsOwned_example =
    poll_once-IsOwned env tick rested empty_pool (λ k. ground arith) rested-IsOwned

-- Tests: the reservation picks the user, the visit uses its budget, and the tick wakes the agent.
reserves : (reserve_persona_run env agent 100 (λ n s. s) rested).0 ≡ reserved 1
unfolding reserve_persona_run reserve_attempts select_persona persona_of pick pick_lru_persona
    last_used eligible_personas previous_persona
reserves = refl

budget_used : is_some (visit busy_model two_actions [] 0).0 ≡ true
unfolding visit turns turn run_calls
budget_used = refl

wakes : (poll_once env tick rested empty_pool).submitted ≡ agent ∷ []
unfolding poll_once wake_all interrupt_stale_runs interrupt_pairs is_true_text strip lower
    int_config
wakes = refl

abbrev first_result : Result × Store
first_result = run_once env around true 1 rested

runs_once :
    (first_result.0 ≡ finished 1)
    × (count_where (λ (r : AgentRun). is_running r.status) first_result.1.runs ≡ 0)
unfolding run_once recover_stale_runs interrupt_all reserve_persona_run reserve_attempts
    select_persona persona_of pick pick_lru_persona last_used eligible_personas previous_persona
    complete_run annotate_run
runs_once = (refl, refl)
