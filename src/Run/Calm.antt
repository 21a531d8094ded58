-- ===== src/Run/Calm.antt =====
-- The rows that a tick of deaddit/runtime/wakes.py keeps.
use deaddit.Prelude.{
  ◌≡◌, refl, ◌∙◌, subst, ℕ, ◌+◌, ◌≤◌, Bool, true, false, List, [], ◌∷◌, ◌==◌, ==_self, arith,
  Bool-cases, inl, inr, All, All-imp, All-and, length, count_where, count_where-update_where,
  update_where-All, unique-All,
}
use deaddit.Run.{AgentRun, Agent, Store, is_active}
use deaddit.Run.Lifecycle.{
  Env, close, as_idle, as_interrupted, is_the_active, budget, is_overdue, is_overdue_run,
  running_pairs, interrupt_one, interrupt_pairs, interrupt_stale_runs,
}
use deaddit.Run.Owned.{IsOwned, IsInStep}
use deaddit.Run.Sweeps.{interrupt_stale_runs-IsOwned}
use deaddit.Run.Wake.{
  Tick, Pool, Scheduler, is_runtime_enabled, is_due, candidates, write_agent, rescheduled, delayed,
  lurker_delay, ceiling_defer_seconds, wake_all, poll_once,
}
use deaddit.Run.Awake.{IsCandidate, candidates-IsCandidate, wake_one-keeps}

-- How a tick writes an agent: one that is not active stays so.
abbrev IsCalm : (Agent → Agent) → Type 0
IsCalm f =
    (x : Agent) → ((f x).id ≡ x.id) × (is_active x.status ≡ false → is_active (f x).status ≡ false)

-- No agent of the key is active.
abbrev IsQuiet : ℕ → Store → Type 0
IsQuiet a s = All (λ y. (y.id == a) ≡ true → is_active y.status ≡ false) s.agents

write_agent-IsQuiet :
    (a b : ℕ) (f : Agent → Agent) (s : Store)
    → IsCalm f
    → IsQuiet b s
    → IsQuiet b (write_agent a f s)
write_agent-IsQuiet a b f s calm h =
    update_where-All (λ y. (y.id == b) ≡ true → is_active y.status ≡ false)
      (λ y. (y.id == b) ≡ true → is_active y.status ≡ false) (λ y. y.id == a) f s.agents
      (λ y q k e. (calm y).1 (k (subst (λ i. (i == b) ≡ true) (calm y).0 e))) (λ y q k. k) h

quiet-IsInStep :
    (runs : List AgentRun) (f : Agent → Agent) (x : Agent)
    → IsCalm f
    → is_active x.status ≡ false
    → IsInStep runs x
    → IsInStep runs (f x)
quiet-IsInStep runs f x calm off h =
    let same = (calm x).0 in
    let off' = (calm x).1 off in rw (same, off') (h ∙ (let o = off in rw (o) refl))

write_agent-IsOwned :
    (a : ℕ) (f : Agent → Agent) (s : Store)
    → IsCalm f
    → IsQuiet a s
    → IsOwned s
    → IsOwned (write_agent a f s)
write_agent-IsOwned a f s calm quiet h = record {
  agents =
      update_where-All (λ x. IsInStep s.runs x × ((x.id == a) ≡ true → is_active x.status ≡ false))
        (IsInStep s.runs) (λ y. y.id == a) f s.agents
        (λ y q i. quiet-IsInStep s.runs f y calm (i.1 q) i.0) (λ y q i. i.0)
        (All-and (IsInStep s.runs) (λ x. (x.id == a) ≡ true → is_active x.status ≡ false) s.agents
          h.agents quiet);
  personas = h.personas;
  keys = h.keys;
  fresh = h.fresh;
}

delayed-IsCalm : (t : ℕ) → IsCalm (delayed t)
delayed-IsCalm t y = (refl, λ h. h)

rescheduled-IsCalm : (now seconds : ℕ) → IsCalm (rescheduled now seconds)
rescheduled-IsCalm now seconds y = (refl, λ h. refl)

-- No agent with the key of a candidate is active.
abbrev AreQuiet : List Agent → Store → Type 0
AreQuiet xs s = All (λ x. IsQuiet x.id s) xs

write_agent-AreQuiet :
    (a : ℕ) (f : Agent → Agent) (xs : List Agent) (s : Store)
    → IsCalm f
    → AreQuiet xs s
    → AreQuiet xs (write_agent a f s)
write_agent-AreQuiet a f xs s calm h =
    All-imp (λ x. IsQuiet x.id s) (λ x. IsQuiet x.id (write_agent a f s)) xs
      (λ x q. write_agent-IsQuiet a x.id f s calm q) h

wake_all-IsOwned :
    (env : Env) (tick : Tick) (xs : List Agent) (st : Scheduler)
    → AreQuiet xs st.store
    → IsOwned st.store
    → IsOwned (wake_all env tick xs st).store
unfolding wake_all
wake_all-IsOwned env tick [] st q h = h
wake_all-IsOwned env tick (x ∷ xs) st q h =
    let soon : IsCalm (rescheduled tick.now (lurker_delay env tick x)) =
      rescheduled-IsCalm tick.now (lurker_delay env tick x) in
    let later : IsCalm (delayed (tick.now + tick.scaled ceiling_defer_seconds)) =
      delayed-IsCalm (tick.now + tick.scaled ceiling_defer_seconds) in
    wake_one-keeps env tick (λ r. IsOwned r.store) (tick.is_set (length xs)) x
      (wake_all env tick xs) _ h
      (λ l.
        wake_all-IsOwned env tick xs _ (write_agent-AreQuiet x.id _ xs st.store soon q.1)
          (write_agent-IsOwned x.id _ st.store soon q.0 h))
      (wake_all-IsOwned env tick xs _ (write_agent-AreQuiet x.id _ xs st.store later q.1)
        (write_agent-IsOwned x.id _ st.store later q.0 h))
      (λ l b f. wake_all-IsOwned env tick xs _ q.1 h)

due-quiet : (now : ℕ) (x : Agent) → is_due now x ≡ true → is_active x.status ≡ false
due-quiet now x h = ground arith

-- The keys of the agents are different.
abbrev pub HasAgentKeys : Store → Type 0
HasAgentKeys s = (k : ℕ) → count_where (λ x. x.id == k) s.agents ≤ 1

candidates-AreQuiet : (now : ℕ) (s : Store) → HasAgentKeys s → AreQuiet (candidates now s) s
candidates-AreQuiet now s keys =
    All-imp (IsCandidate now s) (λ x. IsQuiet x.id s) (candidates now s)
      (λ x c.
        unique-All (λ y. y.id == x.id) (λ y. is_active y.status ≡ false) x s.agents (==_self x.id)
          c.0 (keys x.id) (due-quiet now x c.1))
      (candidates-IsCandidate now s)

abbrev agent_keys : ℕ → Store → ℕ
agent_keys k s = count_where (λ x. x.id == k) s.agents

close-agent_keys :
    (k : ℕ) (test : AgentRun → Bool) (f : AgentRun → AgentRun) (a : ℕ) (s : Store)
    → agent_keys k (close test f a as_idle s).1 ≡ agent_keys k s
close-agent_keys k test f a s = elim (Bool-cases (count_where test s.runs == 0)) [
  | inl y ↦ simp (y) refl
  | inr n ↦
      simp (n)
        (count_where-update_where (is_the_active a) (λ x. x.id == k) as_idle s.agents (λ x h. refl))
]

interrupt_pairs-agent_keys :
    (k : ℕ) (env : Env) (now : ℕ) (ps : List (AgentRun × Agent)) (s : Store)
    → agent_keys k (interrupt_pairs env now ps s).1 ≡ agent_keys k s
unfolding interrupt_pairs interrupt_one
interrupt_pairs-agent_keys k env now [] s = refl
interrupt_pairs-agent_keys k env now ((r, x) ∷ rest) s =
    interrupt_pairs-agent_keys k env now rest (interrupt_one env now r x s).1
    ∙ elim (Bool-cases (is_overdue (budget env x) now r)) [
      | inl y ↦
          rw (y) (
            close-agent_keys k (is_overdue_run (budget env x) now r.id) (as_interrupted now) x.id s)
      | inr n ↦ rw (n) refl
    ]

swept-HasAgentKeys :
    (env : Env) (now : ℕ) (s : Store)
    → HasAgentKeys s
    → HasAgentKeys (interrupt_stale_runs env now s).1
unfolding interrupt_stale_runs
swept-HasAgentKeys env now s h k =
    (let same = interrupt_pairs-agent_keys k env now (running_pairs s.runs s.agents) s in
      let one = h k in omega (arith, same, one))

-- From rows in which the keys of the agents are different, an agent is active exactly while one run of
-- it is running, at most one run of a persona is running, and the keys of the runs are different and
-- below the next key, a tick leads to rows of which the same holds but the keys of the agents. The tick
-- is taken as one step, in whose time no other worker writes.
pub poll_once-IsOwned :
    (env : Env) (tick : Tick) (s : Store) (pool : Pool)
    → HasAgentKeys s
    → IsOwned s
    → IsOwned (poll_once env tick s pool).store
unfolding poll_once
poll_once-IsOwned env tick s pool keys h =
    let s' : Store = (interrupt_stale_runs env tick.now s).1 in
    let owned : IsOwned s' = interrupt_stale_runs-IsOwned env tick.now s h in
    elim (Bool-cases (is_runtime_enabled tick.runtime_enabled)) [
      | inl y ↦ rw (y) (
          wake_all-IsOwned env tick (candidates tick.now s') _
            (candidates-AreQuiet tick.now s' (swept-HasAgentKeys env tick.now s keys)) owned)
      | inr n ↦ rw (n) owned
    ]
