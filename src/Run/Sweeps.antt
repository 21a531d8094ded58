-- ===== src/Run/Sweeps.antt =====
-- The sweeps of overdue runs (deaddit/agents/loop.py, deaddit/runtime/wakes.py) under what each single
-- interruption keeps.
use deaddit.Prelude.{
  ◌≡◌, sym, subst, ℕ, ◌≤◌, Bool, true, ◌&&◌, List, [], ◌∷◌, ◌==◌, ==_iff, arith, Bool-cases, inl,
  inr, All, All-append, All-imp, count_where, select, In-selected, All_of_In,
}
use deaddit.Prelude.Int.{ℤ}
use deaddit.Run.{AgentRun, Agent, Store, is_running}
use deaddit.Run.Lifecycle.{
  Env, is_of_agent, owns, as_interrupted, as_idle, recover_stale_runs, is_overdue, is_overdue_run,
  budget, pairs_of, running_pairs, interrupt_one, interrupt_pairs, interrupt_all, close,
  interrupt_stale_runs,
}
use deaddit.Run.Owned.{IsOwned, BelongsTo, has_key, close-IsOwned, close-BelongsTo}
use deaddit.Run.Keeps.{as_interrupted-IsClosing, as_idle-IsRelease, AreOf, run-BelongsTo}

abbrev IsOwn : List AgentRun → AgentRun × Agent → Type 0
IsOwn runs p = BelongsTo p.0.id p.1.id runs

pairs_of-IsOwn :
    (runs : List AgentRun) (r : AgentRun) (agents : List Agent)
    → BelongsTo r.id r.agent_id runs
    → All (IsOwn runs) (pairs_of r agents)
pairs_of-IsOwn runs r [] h = tt
pairs_of-IsOwn runs r (x ∷ xs) h = elim (Bool-cases (x.id == r.agent_id)) [
  | inl y ↦ simp (y) (
    subst (λ a. BelongsTo r.id a runs) (sym ((==_iff x.id r.agent_id).0 y)) h,
    pairs_of-IsOwn runs r xs h,
  )
  | inr n ↦ simp (n) (pairs_of-IsOwn runs r xs h)
]

running_pairs-IsOwn :
    (runs rs : List AgentRun) (agents : List Agent)
    → All (λ r. BelongsTo r.id r.agent_id runs) rs
    → All (IsOwn runs) (running_pairs rs agents)
running_pairs-IsOwn runs [] agents h = tt
running_pairs-IsOwn runs (r ∷ rs) agents h = elim (Bool-cases (is_running r.status)) [
  | inl y ↦ simp (y) (
      All-append (IsOwn runs) (pairs_of r agents) (running_pairs rs agents)
        (pairs_of-IsOwn runs r agents h.0) (running_pairs-IsOwn runs rs agents h.1))
  | inr n ↦ simp (n) (running_pairs-IsOwn runs rs agents h.1)
]

overdue-owns :
    (seconds : ℤ) (now k : ℕ) (r : AgentRun)
    → is_overdue_run seconds now k r ≡ true
    → owns k r ≡ true
overdue-owns seconds now k r h = ground arith

interrupt_one-BelongsTo :
    (env : Env) (now : ℕ) (r : AgentRun) (x : Agent) (s : Store) (j b : ℕ)
    → BelongsTo r.id x.id s.runs
    → BelongsTo j b s.runs
    → BelongsTo j b (interrupt_one env now r x s).1.runs
unfolding interrupt_one
interrupt_one-BelongsTo env now r x s j b own h =
    elim (Bool-cases (is_overdue (budget env x) now r)) [
      | inl y ↦ simp (y) (
          close-BelongsTo (is_overdue_run (budget env x) now r.id) (as_interrupted now)
            (as_interrupted-IsClosing now) as_idle as_idle-IsRelease r.id x.id s
            (overdue-owns (budget env x) now r.id) own j b h)
      | inr n ↦ simp (n) h
    ]

-- What the interruption of one running run keeps, a sweep of the overdue runs keeps.
module _ (P : Store → Type 0)
    (keys : (s : Store) → P s → (k : ℕ) → count_where (has_key k) s.runs ≤ 1)
    (step : (test : AgentRun → Bool) (now k a : ℕ) (s : Store)
      → ((r : AgentRun) → test r ≡ true → owns k r ≡ true)
      → BelongsTo k a s.runs
      → P s
      → P (close test (as_interrupted now) a as_idle s).1) where
  interrupt_all_keeps :
      (now a : ℕ) (rs : List AgentRun) (s : Store)
      → AreOf a s.runs rs
      → P s
      → P (interrupt_all now a rs s)
  unfolding interrupt_all
  interrupt_all_keeps now a [] s own h = h
  interrupt_all_keeps now a (r ∷ rs) s own h =
      let after =
        close-BelongsTo (owns r.id) (as_interrupted now) (as_interrupted-IsClosing now) as_idle
          as_idle-IsRelease r.id a s (λ q o. o) own.0 in
      interrupt_all_keeps now a rs _
        (All-imp (λ q. BelongsTo q.id a s.runs)
          (λ q. BelongsTo q.id a (close (owns r.id) (as_interrupted now) a as_idle s).1.runs) rs
          (λ q o. after q.id a o) own.1)
        (step (owns r.id) now r.id a s (λ q o. o) own.0 h)

  interrupt_one_keeps :
      (env : Env) (now : ℕ) (r : AgentRun) (x : Agent) (s : Store)
      → BelongsTo r.id x.id s.runs
      → P s
      → P (interrupt_one env now r x s).1
  unfolding interrupt_one
  interrupt_one_keeps env now r x s own h = elim (Bool-cases (is_overdue (budget env x) now r)) [
    | inl y ↦ simp (y) (
        step (is_overdue_run (budget env x) now r.id) now r.id x.id s
          (overdue-owns (budget env x) now r.id) own h)
    | inr n ↦ simp (n) h
  ]

  interrupt_pairs_keeps :
      (env : Env) (now : ℕ) (ps : List (AgentRun × Agent)) (s : Store)
      → All (IsOwn s.runs) ps
      → P s
      → P (interrupt_pairs env now ps s).1
  unfolding interrupt_pairs
  interrupt_pairs_keeps env now [] s own h = h
  interrupt_pairs_keeps env now ((r, x) ∷ rest) s own h =
      interrupt_pairs_keeps env now rest (interrupt_one env now r x s).1
        (All-imp (IsOwn s.runs) (IsOwn (interrupt_one env now r x s).1.runs) rest
          (λ p o. interrupt_one-BelongsTo env now r x s p.0.id p.1.id own.0 o) own.1)
        (interrupt_one_keeps env now r x s own.0 h)

  pub interrupt_stale_runs_keeps :
      (env : Env) (now : ℕ) (s : Store) → P s → P (interrupt_stale_runs env now s).1
  unfolding interrupt_stale_runs
  interrupt_stale_runs_keeps env now s h =
      interrupt_pairs_keeps env now (running_pairs s.runs s.agents) s
        (running_pairs-IsOwn s.runs s.runs s.agents (
          All_of_In (λ r. BelongsTo r.id r.agent_id s.runs) s.runs
            (λ r m. run-BelongsTo r s.runs m (keys s h r.id))))
        h

  pub recover_stale_runs_keeps :
      (env : Env) (x : Agent) (now : ℕ) (s : Store) → P s → P (recover_stale_runs env x now s).1
  unfolding recover_stale_runs
  recover_stale_runs_keeps env x now s h =
      let test : AgentRun → Bool = λ r. is_of_agent x.id r && is_overdue (budget env x) now r in
      interrupt_all_keeps now x.id (select test s.runs) s
        (All_of_In (λ r. BelongsTo r.id x.id s.runs) (select test s.runs)
          (λ r m.
            (let found = In-selected test r s.runs m in
              let theirs : r.agent_id ≡ x.id = (let t = found.0 in ground arith) in
              subst (λ a. BelongsTo r.id a s.runs) theirs
                (run-BelongsTo r s.runs found.1 (keys s h r.id)))))
        h

pub interrupted-IsOwned :
    (test : AgentRun → Bool) (now k a : ℕ) (s : Store)
    → ((r : AgentRun) → test r ≡ true → owns k r ≡ true)
    → BelongsTo k a s.runs
    → IsOwned s
    → IsOwned (close test (as_interrupted now) a as_idle s).1
interrupted-IsOwned test now k a s only own h =
    close-IsOwned test (as_interrupted now) (as_interrupted-IsClosing now) as_idle as_idle-IsRelease
      k a s only own h

pub interrupt_stale_runs-IsOwned :
    (env : Env) (now : ℕ) (s : Store) → IsOwned s → IsOwned (interrupt_stale_runs env now s).1
interrupt_stale_runs-IsOwned =
    interrupt_stale_runs_keeps IsOwned (λ s h. h.keys) interrupted-IsOwned

pub recover_stale_runs-IsOwned :
    (env : Env) (x : Agent) (now : ℕ) (s : Store)
    → IsOwned s
    → IsOwned (recover_stale_runs env x now s).1
recover_stale_runs-IsOwned = recover_stale_runs_keeps IsOwned (λ s h. h.keys) interrupted-IsOwned
