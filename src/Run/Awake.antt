-- ===== src/Run/Awake.antt =====
-- What a tick of deaddit/runtime/wakes.py guarantees: whom it wakes, and how many.
use deaddit.Prelude.{
  ◌≡◌, ◌≢◌, refl, sym, subst, ap₂, ◌∙◌, ℕ, zero, suc, ◌+◌, ◌≤◌, ◌<◌, Option, none, some, Bool, true,
  false, List, [], ◌∷◌, ◌==◌, if◌then◌else◌, arith, Bool-cases, inl, inr, All, All-append, All-imp,
  any, length, select, count_where, In, In-selected, All_of_In,
}
use deaddit.Prelude.Int.{ℤ, pos, negsuc}
use deaddit.Run.{Agent, AgentStatus, Store, queued, is_active}
use deaddit.Run.Config.{int_config}
use deaddit.Run.Lifecycle.{Env, interrupt_stale_runs}
use deaddit.Run.Eligible.{In-order_by}
use deaddit.Run.Wake.{
  Tick, Pool, Scheduler, is_runtime_enabled, is_lurker, pool_size, ensure_pool, release, is_due,
  may_wake, is_past, requests_since, candidates, wakes_first, counts_for, start_of_day, reaches,
  is_over_ceiling, reschedule_lurker, defer, submit, wake_one, wake_all, poll_once,
}

-- Below a ceiling that is positive; another is none.
abbrev pub IsBelow : ℤ → ℕ → Type 0
IsBelow (pos (suc n)) used = used < suc n
IsBelow c used = Unit

-- The agent is enabled and due, neither queued nor running, none of the passive ones, and has made
-- fewer requests since the day began than its ceiling, if it has one.
pub record IsAwakened (env : Env) (now : ℕ) (s : Store) (x : Agent) : Type 0 where
  pub row : In x s.agents
  pub enabled : x.is_enabled ≡ true
  pub idle : is_active x.status ≡ false
  pub unqueued : x.status ≢ queued
  pub due : (t : ℕ) × (x.next_run_at ≡ some t) × (t ≤ now)
  pub lively : is_lurker x ≡ false
  pub below :
      IsBelow
        (int_config env.int x.config "daily_request_ceiling" (pos 0))
        (requests_since x.id (start_of_day now) s)

past-due : (now : ℕ) (o : Option ℕ) → is_past now o ≡ true → (t : ℕ) × (o ≡ some t) × (t ≤ now)
past-due now none h = absurd (cc h)
past-due now (some t) h = (t, refl, ground arith)

unqueued_of : (x : AgentStatus) → may_wake x ≡ true → x ≢ queued
unqueued_of x h e =
    absurd (let no : may_wake queued ≡ true = subst (λ y. may_wake y ≡ true) e h in cc no)

IsBelow-ceiling : (c : ℤ) (used : ℕ) → reaches c used ≡ false → IsBelow c used
IsBelow-ceiling (pos zero) used h = tt
IsBelow-ceiling (pos (suc n)) used h = ground arith
IsBelow-ceiling (negsuc n) used h = tt

awakened :
    (env : Env) (now : ℕ) (s : Store) (x : Agent)
    → In x s.agents
    → is_due now x ≡ true
    → is_lurker x ≡ false
    → is_over_ceiling env now x s ≡ false
    → IsAwakened env now s x
awakened env now s x m d l b = record {
  row = m;
  enabled = ground arith;
  idle = ground arith;
  unqueued = unqueued_of x.status (ground arith);
  due = past-due now x.next_run_at (ground arith);
  lively = l;
  below =
      IsBelow-ceiling (int_config env.int x.config "daily_request_ceiling" (pos 0))
        (requests_since x.id (start_of_day now) s) b;
}

-- The runs and the turns are as they were.
abbrev HasSameRuns : Store → Store → Type 0
HasSameRuns s t = (t.runs ≡ s.runs) × (t.turns ≡ s.turns)

abbrev pub IsCandidate : ℕ → Store → Agent → Type 0
IsCandidate now s x = In x s.agents × (is_due now x ≡ true)

pub candidates-IsCandidate : (now : ℕ) (s : Store) → All (IsCandidate now s) (candidates now s)
candidates-IsCandidate now s = All_of_In (IsCandidate now s) (candidates now s) (λ x m.
    (let found = In-selected (is_due now) x s.agents (
        In-order_by (λ x y. wakes_first x.next_run_at y.next_run_at) x
          (select (is_due now) s.agents) m) in
      (found.1, found.0)))

over_ceiling-same :
    (env : Env) (now : ℕ) (x : Agent) (s t : Store)
    → HasSameRuns s t
    → is_over_ceiling env now x t ≡ is_over_ceiling env now x s
over_ceiling-same env now x s t h =
    ap₂
      (λ runs turns.
        reaches (int_config env.int x.config "daily_request_ceiling" (pos 0))
          (count_where (λ q. any (counts_for x.id (start_of_day now) q) runs) turns))
      h.0 h.1

module _ (env : Env) (tick : Tick) (P : Scheduler → Type 0) where
  -- What each of the four outcomes of a candidate keeps, the candidate keeps.
  pub wake_one-keeps :
      (stop : Bool) (x : Agent) (rest : Scheduler → Scheduler) (st : Scheduler)
      → P st
      → (is_lurker x ≡ true
          → P (rest (record st { store = reschedule_lurker env tick x st.store })))
      → P (rest (record st { store = defer tick x.id st.store }))
      → (is_lurker x ≡ false
          → is_over_ceiling env tick.now x st.store ≡ false
          → (st.pool.free == 0) ≡ false
          → P (rest (submit x st)))
      → P (wake_one env tick stop x rest st)
  wake_one-keeps true x rest st h l d a = h
  wake_one-keeps false x rest st h l d a = elim (Bool-cases (is_lurker x)) [
    | inl y ↦ rw (y) (l y)
    | inr n ↦ elim (Bool-cases (is_over_ceiling env tick.now x st.store)) [
      | inl y ↦ rw (n, y) d
      | inr m ↦ elim (Bool-cases (st.pool.free == 0)) [
        | inl y ↦ rw (n, m, y) h
        | inr z ↦ rw (n, m, z) (a n m z)
      ]
    ]
  ]

module _ (env : Env) (tick : Tick) (s : Store) where
  wake_all-IsAwakened :
      (xs : List Agent) (st : Scheduler)
      → All (IsCandidate tick.now s) xs
      → HasSameRuns s st.store
      → All (IsAwakened env tick.now s) st.submitted
      → All (IsAwakened env tick.now s) (wake_all env tick xs st).submitted
  unfolding wake_all
  wake_all-IsAwakened [] st c r h = h
  wake_all-IsAwakened (x ∷ xs) st c r h =
      wake_one-keeps env tick (λ q. All (IsAwakened env tick.now s) q.submitted)
        (tick.is_set (length xs)) x (wake_all env tick xs) _ h
        (λ l. wake_all-IsAwakened xs _ c.1 r h) (wake_all-IsAwakened xs _ c.1 r h)
        (λ l b f. wake_all-IsAwakened xs _ c.1 r (
          All-append (IsAwakened env tick.now s) st.submitted (x ∷ []) h (
            awakened env tick.now s x c.0.0 c.0.1 l
                (sym (over_ceiling-same env tick.now x s st.store r) ∙ b),
            tt,
          )))

-- A tick wakes only agents that are due (enabled, neither queued nor running, with a wake that is not
-- in the future), that are no lurkers and that are below their ceiling of the day, as the rows stand
-- after the sweep of the overdue runs; and none where the runtime is not enabled.
pub poll_once-IsAwakened :
    (env : Env) (tick : Tick) (s : Store) (pool : Pool)
    → All
        (λ x.
          IsAwakened env tick.now (interrupt_stale_runs env tick.now s).1 x
          × (is_runtime_enabled tick.runtime_enabled ≡ true))
        (poll_once env tick s pool).submitted
unfolding poll_once
poll_once-IsAwakened env tick s pool = elim (Bool-cases (is_runtime_enabled tick.runtime_enabled)) [
  | inl y ↦
      (let s' : Store = (interrupt_stale_runs env tick.now s).1 in
        let woken =
          wake_all-IsAwakened env tick s' (candidates tick.now s')
            (record {
              store = s';
              pool = ensure_pool (pool_size env.int tick.max_concurrent) pool;
              submitted = [];
            })
            (candidates-IsCandidate tick.now s') (refl, refl) tt in
        rw (y) (
          All-imp (IsAwakened env tick.now s') (λ x. IsAwakened env tick.now s' x × (true ≡ true)) _
            (λ x h. (h, refl)) woken))
  | inr n ↦ rw (n) tt
]

-- The slots are those that are free and those of the runs in flight.
abbrev pub IsFilled : Pool → Type 0
IsFilled p = p.free + p.in_flight ≡ p.size

wake_all-IsFilled :
    (env : Env) (tick : Tick) (n : ℕ) (xs : List Agent) (st : Scheduler)
    → st.pool.size ≡ n
    → IsFilled st.pool
    → IsFilled (wake_all env tick xs st).pool × ((wake_all env tick xs st).pool.size ≡ n)
unfolding wake_all
wake_all-IsFilled env tick n [] st e h = (h, e)
wake_all-IsFilled env tick n (x ∷ xs) st e h =
    let released : IsFilled (release (tick.released (length xs)) st.pool) = ground arith in
    wake_one-keeps env tick (λ q. IsFilled q.pool × (q.pool.size ≡ n)) (tick.is_set (length xs)) x
      (wake_all env tick xs) _ (released, e) (λ l. wake_all-IsFilled env tick n xs _ e released)
      (wake_all-IsFilled env tick n xs _ e released)
      (λ l b f. wake_all-IsFilled env tick n xs _ e (ground arith))

-- Every slot of the pool is free or that of one run in flight, before and after a tick, whatever runs
-- end in its time; and where the runtime is enabled the pool has the size that the setting asks for.
-- So there are never more runs in flight than that.
pub poll_once-IsFilled :
    (env : Env) (tick : Tick) (s : Store) (pool : Pool)
    → IsFilled pool
    → IsFilled (poll_once env tick s pool).pool
      × ((poll_once env tick s pool).pool.size ≡ (
          if is_runtime_enabled tick.runtime_enabled
          then pool_size env.int tick.max_concurrent
          else pool.size))
unfolding poll_once
poll_once-IsFilled env tick s pool h = elim (Bool-cases (is_runtime_enabled tick.runtime_enabled)) [
  | inl y ↦
      (let n : ℕ = pool_size env.int tick.max_concurrent in
        let s' : Store = (interrupt_stale_runs env tick.now s).1 in
        let built : IsFilled (ensure_pool n pool) × ((ensure_pool n pool).size ≡ n) =
          elim (Bool-cases (pool.size == n)) [
            | inl e ↦ rw (e) (h, ground arith)
            | inr o ↦ rw (o) (omega arith, refl)
          ] in
        rw (y) (
          wake_all-IsFilled env tick n (candidates tick.now s')
            (record { store = s'; pool = ensure_pool n pool; submitted = [] }) built.1 built.0))
  | inr n ↦ rw (n) (h, refl)
]
