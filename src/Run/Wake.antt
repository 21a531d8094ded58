-- ===== src/Run/Wake.antt =====
-- deaddit/runtime/wakes.py: one tick of the scheduler, and its boot recovery. The threads themselves
-- are not modelled: a submitted agent counts as running until its slot is released.
use deaddit.Prelude.{
  ℕ, zero, suc, ◌+◌, ◌-◌, ◌%◌, String, Bool, true, false, not, ◌&&◌, Option, none, some, List, [],
  ◌∷◌, ◌++◌, ◌==◌, leb, min, max, any, length, if◌then◌else◌, is_some, str_eq, select, count_where,
  update_where, order_by,
}
use deaddit.Prelude.Int.{ℤ, pos, negsuc, ltb_ℤ}
use deaddit.Run.{AgentRun, Agent, Turn, Store, AgentStatus, idle, queued, active}
use deaddit.Run.Config.{or_default, int_config, at_least_zero}
use deaddit.Run.Lifecycle.{Env, interrupt_stale_runs}
use deaddit.Run.Ends.{failure_backoff_seconds}
use deaddit.Run.Lull.{is_true_text}

-- What one tick reads and calls: the moment, the two settings, `random.uniform` scaled by the lull, the
-- lull alone, whether the stop event is set, and the slots that runs have released, both before the
-- candidate after which so many are left.
pub record Tick : Type 0 where
  pub now : ℕ
  pub runtime_enabled : Option String
  pub max_concurrent : Option (Option String)
  pub sample : ℤ → ℤ → ℕ
  pub scaled : ℕ → ℕ
  pub is_set : ℕ → Bool
  pub released : ℕ → ℕ

-- The pool: its size, the slots that are free, and the runs in flight. It is not built while `size` is 0.
pub record Pool : Type 0 where
  pub size : ℕ
  pub free : ℕ
  pub in_flight : ℕ

pub record Scheduler : Type 0 where
  pub store : Store
  pub pool : Pool
  pub submitted : List Agent

-- `str(value or "false")`
abbrev pub is_runtime_enabled : Option String → Bool
is_runtime_enabled none = is_true_text "false"
is_runtime_enabled (some v) = is_true_text v

abbrev pub max_ℤ : ℤ → ℤ → ℤ
max_ℤ a b = if ltb_ℤ a b then b else a

abbrev pub is_lurker : Agent → Bool
is_lurker x = str_eq x.autonomy_tier "lurker"

abbrev pub default_concurrency : ℤ
default_concurrency = pos 2

abbrev pub concurrency_of : (String → Option ℤ) → Option String → ℤ
concurrency_of int none = default_concurrency
concurrency_of int (some v) =
    if str_eq v "" then default_concurrency else or_default (int v) default_concurrency

-- A setting that is absent is read as the default.
abbrev pub pool_size : (String → Option ℤ) → Option (Option String) → ℕ
pool_size int none = 2
pool_size int (some v) = max (at_least_zero (concurrency_of int v)) 1

-- A pool of another size is built anew, after all runs of the old one have ended.
abbrev pub ensure_pool : ℕ → Pool → Pool
ensure_pool n p = if p.size == n then p else record { size = n; free = n; in_flight = 0 }

abbrev pub release : ℕ → Pool → Pool
release n p =
    let k = min n p.in_flight in record p { free = p.free + k; in_flight = p.in_flight - k }

abbrev pub acquire : Pool → Pool
acquire p = record p { free = p.free - 1; in_flight = p.in_flight + 1 }

abbrev pub may_wake : AgentStatus → Bool
may_wake queued = false
may_wake active = false
may_wake _ = true

abbrev pub is_past : ℕ → Option ℕ → Bool
is_past now none = false
is_past now (some t) = leb t now

abbrev pub is_due : ℕ → Agent → Bool
is_due now x = x.is_enabled && (may_wake x.status && is_past now x.next_run_at)

-- `ORDER BY next_run_at ASC`, of agents that have one.
abbrev pub wakes_first : Option ℕ → Option ℕ → Bool
wakes_first none y = true
wakes_first (some t) none = false
wakes_first (some t) (some u) = leb t u

abbrev pub candidates : ℕ → Store → List Agent
candidates now s =
    order_by (λ x y. wakes_first x.next_run_at y.next_run_at) (select (is_due now) s.agents)

abbrev pub start_of_day : ℕ → ℕ
start_of_day now = now - now % 86400

abbrev pub counts_for : ℕ → ℕ → Turn → AgentRun → Bool
counts_for a day t r = r.id == t.run_id && (r.agent_id == a && leb day r.started_at)

-- The turns of the agent's runs of the day.
abbrev pub requests_since : ℕ → ℕ → Store → ℕ
requests_since a day s = count_where (λ t. any (counts_for a day t) s.runs) s.turns

-- No ceiling unless it is positive.
abbrev pub reaches : ℤ → ℕ → Bool
reaches (pos zero) used = false
reaches (pos (suc n)) used = leb (suc n) used
reaches (negsuc n) used = false

abbrev pub is_over_ceiling : Env → ℕ → Agent → Store → Bool
is_over_ceiling env now x s =
    reaches (int_config env.int x.config "daily_request_ceiling" (pos 0))
      (requests_since x.id (start_of_day now) s)

abbrev pub write_agent : ℕ → (Agent → Agent) → Store → Store
write_agent a f s = record s { agents = update_where (λ x. x.id == a) f s.agents }

-- A status written without a condition, as a manual run that is given up leaves it.
abbrev pub with_status : AgentStatus → Agent → Agent
with_status status y = record y { status = status }

abbrev pub rescheduled : ℕ → ℕ → Agent → Agent
rescheduled now seconds y = record y {
  status = idle;
  last_run_at = some now;
  next_run_at = some (now + seconds);
}

abbrev pub delayed : ℕ → Agent → Agent
delayed t y = record y { next_run_at = some t }

abbrev pub lurker_delay : Env → Tick → Agent → ℕ
lurker_delay env tick x =
    let lo = int_config env.int x.config "min_delay" (pos 60) in
    tick.sample lo (max_ℤ lo (int_config env.int x.config "max_delay" (pos 900)))

abbrev pub reschedule_lurker : Env → Tick → Agent → Store → Store
reschedule_lurker env tick x s = write_agent x.id (rescheduled tick.now (lurker_delay env tick x)) s

abbrev pub ceiling_defer_seconds : ℕ
ceiling_defer_seconds = 1800

abbrev pub defer : Tick → ℕ → Store → Store
defer tick a s = write_agent a (delayed (tick.now + tick.scaled ceiling_defer_seconds)) s

abbrev pub submit : Agent → Scheduler → Scheduler
submit x st = record st { pool = acquire st.pool; submitted = st.submitted ++ x ∷ [] }

-- One candidate; `rest` is the loop over the others, and `stop` that the stop event is set.
abbrev pub wake_one : Env → Tick → Bool → Agent → (Scheduler → Scheduler) → Scheduler → Scheduler
wake_one env tick stop x rest st =
    let passive = rest (record st { store = reschedule_lurker env tick x st.store }) in
    let deferred = rest (record st { store = defer tick x.id st.store }) in
    let awake = rest (submit x st) in
    if stop
    then st
    else if is_lurker x
    then passive
    else if is_over_ceiling env tick.now x st.store
    then deferred
    else if st.pool.free == 0
    then st
    else awake

unfoldable pub wake_all : Env → Tick → List Agent → Scheduler → Scheduler
wake_all env tick [] st = st
wake_all env tick (x ∷ xs) st =
    wake_one env tick (tick.is_set (length xs)) x (wake_all env tick xs)
      (record st { pool = release (tick.released (length xs)) st.pool })

-- `_poll_once`; the list of the submitted agents starts empty.
unfoldable pub poll_once : Env → Tick → Store → Pool → Scheduler
unfolding wake_all interrupt_stale_runs
poll_once env tick s pool =
    let s' : Store = (interrupt_stale_runs env tick.now s).1 in
    let woken = wake_all env tick (candidates tick.now s') (record {
      store = s';
      pool = ensure_pool (pool_size env.int tick.max_concurrent) pool;
      submitted = [];
    }) in
    if is_runtime_enabled tick.runtime_enabled
    then woken
    else record { store = s'; pool = pool; submitted = [] }

abbrev pub is_unarmed : Agent → Bool
is_unarmed x = x.is_enabled && not (is_some x.next_run_at)

-- `recover`: the number of the interrupted runs, that of the armed agents, and the rows.
unfoldable pub recover : Env → Tick → Store → (ℕ × ℕ) × Store
unfolding interrupt_stale_runs
recover env tick s =
    let (n, s') = interrupt_stale_runs env tick.now s in
    if is_runtime_enabled tick.runtime_enabled
    then (
      (n, count_where is_unarmed s'.agents),
      record s' {
        agents = update_where is_unarmed (λ x. record x { next_run_at = some tick.now }) s'.agents;
      },
    )
    else ((n, 0), s')

-- `_backoff_agent`
unfoldable pub backoff_agent : Tick → ℕ → Store → Store
backoff_agent tick a s = write_agent a (delayed (tick.now + tick.scaled failure_backoff_seconds)) s
