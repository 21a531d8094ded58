-- ===== src/Run/Life.antt =====
-- The life of one run under the steps of deaddit/agents/loop.py and deaddit/runtime/wakes.py, which
-- its abstract state machine allows: it starts running, and it is closed once.
use deaddit.Prelude.{
  ◌≡◌, refl, sym, ◌∙◌, subst, ℕ, ◌<◌, String, Bool, true, false, ◌&&◌, Option, none, some, List, [],
  ◌∷◌, ◌++◌, ◌==◌, ==_iff, arith, Bool-cases, inl, inr, All, first_where, count_where, update_where,
  select,
}
use deaddit.Prelude.Int.{ℤ}
use deaddit.Prelude.Json.{Json}
use deaddit.Run.Keyed.{IsKeyed}
use deaddit.Run.{AgentRun, Agent, Store, is_running}
use deaddit.Run.Lifecycle.{
  Env, is_of_agent, owns, close, as_interrupted, as_idle, interrupt_all, recover_stale_runs,
  is_overdue, budget, is_overdue_run, running_pairs, interrupt_one, interrupt_pairs,
  interrupt_stale_runs,
}
use deaddit.Run.Reservation.{new_run, insert_run}
use deaddit.Run.Ends.{
  as_failed, as_completed, failed_agent, completed_agent, fail, complete_run,
  backoff_without_strike, annotate, annotate_run,
}
use deaddit.Run.Owned.{IsClosing, has_key}
use deaddit.Run.Keeps.{as_interrupted-IsClosing, as_failed-IsClosing, as_completed-IsClosing}
use deaddit.Run.Steps.{
  Move, inserting, failing, completing, recovering, sweeping, delaying, interrupting, annotating,
  deferring, waking, setting,
}

abbrev pub run_of : ℕ → Store → Option AgentRun
run_of k s = first_where (has_key k) s.runs

-- A run that was running is closed, as the agent's and the persona's run that it was.
pub data Ends (before after : Option AgentRun) : Type 0 where
  same : after ≡ before → Ends before after
  ended :
      (r q : AgentRun)
      → before ≡ some r
      → is_running r.status ≡ true
      → after ≡ some q
      → is_running q.status ≡ false
      → q.agent_id ≡ r.agent_id
      → q.persona_username ≡ r.persona_username
      → Ends before after

pub data Life (before after : Option AgentRun) : Type 0 where
  starts :
      (r : AgentRun)
      → before ≡ none
      → after ≡ some r
      → is_running r.status ≡ true
      → Life before after
  ends : Ends before after → Life before after
  annotated :
      (r : AgentRun) (i : String) (m : Json)
      → before ≡ some r
      → after ≡ some (annotate i m r)
      → Life before after

Ends-trans : (a b c : Option AgentRun) → Ends a b → Ends b c → Ends a c
Ends-trans a b c (same e) k = subst (λ o. Ends o c) e k
Ends-trans a b c (ended r q eb on ea off i p) (same e) = ended r q eb on (e ∙ ea) off i p
Ends-trans a b c (ended r q eb on ea off i p) (ended r' q' eb' on' ea' off' i' p') = absurd (
    let one : q ≡ r' = cc (ea, eb') in
    let no : is_running r'.status ≡ false =
      subst (λ (x : AgentRun). is_running x.status ≡ false) one off in
    cc (no, on'))

module _ (test : AgentRun → Bool) (f : AgentRun → AgentRun) (closing : IsClosing f)
    (only : (r : AgentRun) → test r ≡ true → is_running r.status ≡ true) (k : ℕ) where
  head-Ends :
      (x : AgentRun) (xs : List AgentRun)
      → (x.id == k) ≡ true
      → Ends
          (first_where (has_key k) (x ∷ xs))
          (first_where (has_key k) (update_where test f (x ∷ xs)))
  head-Ends x xs y = elim (Bool-cases (test x)) [
    | inl t ↦
        (let i = closing.id x in
          ended x (f x) (ground arith) (only x t) (ground (arith, i)) (closing.status x)
            (closing.agent x) (closing.persona x))
    | inr n ↦ same (ground arith)
  ]

  written-Ends :
      (runs : List AgentRun)
      → Ends (first_where (has_key k) runs) (first_where (has_key k) (update_where test f runs))
  written-Ends [] = same refl
  written-Ends (x ∷ xs) = elim (Bool-cases (x.id == k)) [
    | inl y ↦ head-Ends x xs y
    | inr n ↦
        (let before : first_where (has_key k) (x ∷ xs) ≡ first_where (has_key k) xs =
            ground arith in
          let after : first_where (has_key k) (update_where test f (x ∷ xs))
              ≡ first_where (has_key k) (update_where test f xs) =
            (let i = closing.id x in ground (arith, i)) in
          subst (λ o. Ends o (first_where (has_key k) (update_where test f (x ∷ xs)))) (sym before)
            (subst (λ o. Ends (first_where (has_key k) xs) o) (sym after) (written-Ends xs)))
  ]

  close-Ends :
      (a : ℕ) (g : Agent → Agent) (s : Store) → Ends (run_of k s) (run_of k (close test f a g s).1)
  close-Ends a g s = elim (Bool-cases (count_where test s.runs == 0)) [
    | inl y ↦ simp (y) (same refl)
    | inr n ↦ simp (n) (written-Ends s.runs)
  ]

owns-running : (j : ℕ) (r : AgentRun) → owns j r ≡ true → is_running r.status ≡ true
owns-running j r h = ground arith

overdue-running :
    (seconds : ℤ) (now j : ℕ) (r : AgentRun)
    → is_overdue_run seconds now j r ≡ true
    → is_running r.status ≡ true
overdue-running seconds now j r h = ground arith

interrupt_all-Ends :
    (k now a : ℕ) (rs : List AgentRun) (s : Store)
    → Ends (run_of k s) (run_of k (interrupt_all now a rs s))
unfolding interrupt_all
interrupt_all-Ends k now a [] s = same refl
interrupt_all-Ends k now a (r ∷ rs) s =
    Ends-trans _ _ _
      (close-Ends (owns r.id) (as_interrupted now) (as_interrupted-IsClosing now)
        (owns-running r.id) k a as_idle s)
      (interrupt_all-Ends k now a rs _)

interrupt_one-Ends :
    (env : Env) (k now : ℕ) (r : AgentRun) (x : Agent) (s : Store)
    → Ends (run_of k s) (run_of k (interrupt_one env now r x s).1)
unfolding interrupt_one
interrupt_one-Ends env k now r x s = elim (Bool-cases (is_overdue (budget env x) now r)) [
  | inl y ↦ simp (y) (
      close-Ends (is_overdue_run (budget env x) now r.id) (as_interrupted now)
        (as_interrupted-IsClosing now) (overdue-running (budget env x) now r.id) k x.id as_idle s)
  | inr n ↦ simp (n) (same refl)
]

interrupt_pairs-Ends :
    (env : Env) (k now : ℕ) (ps : List (AgentRun × Agent)) (s : Store)
    → Ends (run_of k s) (run_of k (interrupt_pairs env now ps s).1)
unfolding interrupt_pairs
interrupt_pairs-Ends env k now [] s = same refl
interrupt_pairs-Ends env k now ((r, x) ∷ rest) s =
    Ends-trans _ _ _ (interrupt_one-Ends env k now r x s) (interrupt_pairs-Ends env k now rest _)

missing-key :
    (k : ℕ) (runs : List AgentRun) → All (λ r. r.id < k) runs → first_where (has_key k) runs ≡ none
missing-key k [] h = refl
missing-key k (r ∷ rs) h = (let below = h.0 in ground (arith, missing-key k rs h.1))

appended-key :
    (k : ℕ) (runs : List AgentRun) (x : AgentRun)
    → (x.id == k) ≡ false
    → first_where (has_key k) (runs ++ x ∷ []) ≡ first_where (has_key k) runs
appended-key k [] x n = ground arith
appended-key k (r ∷ rs) x n = ground (arith, appended-key k rs x n)

pub appended_self :
    (k : ℕ) (runs : List AgentRun) (x : AgentRun)
    → (x.id == k) ≡ true
    → All (λ r. r.id < k) runs
    → first_where (has_key k) (runs ++ x ∷ []) ≡ some x
appended_self k [] x y h = ground arith
appended_self k (r ∷ rs) x y h = (let below = h.0 in ground (arith, appended_self k rs x y h.1))

insert_run-Life :
    (k a : ℕ) (p : String) (now : ℕ) (s : Store)
    → IsKeyed s
    → Life (run_of k s) (run_of k (insert_run a p now s))
insert_run-Life k a p now s h = elim (Bool-cases (s.next_run == k)) [
  | inl y ↦
      (let fresh : All (λ (r : AgentRun). r.id < k) s.runs =
          subst (λ m. All (λ (r : AgentRun). r.id < m) s.runs) ((==_iff s.next_run k).0 y)
            h.fresh in
        starts (new_run s.next_run a p now) (missing-key k s.runs fresh)
          (appended_self k s.runs (new_run s.next_run a p now) y fresh) refl)
  | inr n ↦ ends (same (appended-key k s.runs (new_run s.next_run a p now) n))
]

annotate-Life :
    (k j : ℕ) (i : String) (m : Json) (runs : List AgentRun)
    → Life
        (first_where (has_key k) runs)
        (first_where (has_key k) (update_where (λ r. r.id == j) (annotate i m) runs))
annotate-Life k j i m [] = ends (same refl)
annotate-Life k j i m (x ∷ xs) = elim (Bool-cases (x.id == k)) [
  | inl y ↦ elim (Bool-cases (x.id == j)) [
    | inl z ↦ annotated x i m (ground arith) (ground arith)
    | inr n ↦ ends (same (ground arith))
  ]
  | inr n ↦
      (let before : first_where (has_key k) (x ∷ xs) ≡ first_where (has_key k) xs = ground arith in
        let after : first_where (has_key k) (update_where (λ r. r.id == j) (annotate i m) (x ∷ xs))
            ≡ first_where (has_key k) (update_where (λ r. r.id == j) (annotate i m) xs) =
          ground arith in
        subst
          (λ o.
            Life o
              (first_where (has_key k) (update_where (λ r. r.id == j) (annotate i m) (x ∷ xs))))
          (sym before)
          (subst (λ o. Life (first_where (has_key k) xs) o) (sym after) (annotate-Life k j i m xs)))
]

-- From rows in which the keys of the runs are different and below the next key, every step of a
-- worker is, for each key, a step of the abstract life of a run: nothing happens to it, or it starts
-- as a running run where there was none, or a running run is closed and stays the agent's and the
-- persona's run that it was, or nothing but the two columns of its preparation is written.
pub Move-Life :
    (env : Env) (k : ℕ) (s t : Store) → IsKeyed s → Move env s t → Life (run_of k s) (run_of k t)
unfolding fail complete_run recover_stale_runs interrupt_stale_runs backoff_without_strike
    annotate_run
Move-Life env k s t h (inserting a p now u e) =
    subst (λ t. Life (run_of k s) (run_of k t)) (sym e) (insert_run-Life k a p now s h)
Move-Life env k s t h (failing now j a c m strike own e) =
    subst (λ t. Life (run_of k s) (run_of k t)) (sym e)
      (ends (
        close-Ends (owns j) (as_failed now c m) (as_failed-IsClosing now c m) (owns-running j) k a
          (failed_agent now strike) s))
Move-Life env k s t h (completing now delay j a c own e) =
    subst (λ t. Life (run_of k s) (run_of k t)) (sym e)
      (ends (
        close-Ends (owns j) (as_completed now c) (as_completed-IsClosing now c) (owns-running j) k a
          (completed_agent now delay) s))
Move-Life env k s t h (interrupting test now j a only own e) =
    subst (λ t. Life (run_of k s) (run_of k t)) (sym e)
      (ends (
        close-Ends test (as_interrupted now) (as_interrupted-IsClosing now)
          (λ r q. owns-running j r (only r q)) k a as_idle s))
Move-Life env k s t h (recovering x now e) =
    subst (λ t. Life (run_of k s) (run_of k t)) (sym e)
      (ends (
        interrupt_all-Ends k now x.id
          (select (λ r. is_of_agent x.id r && is_overdue (budget env x) now r) s.runs) s))
Move-Life env k s t h (sweeping now e) =
    subst (λ t. Life (run_of k s) (run_of k t)) (sym e)
      (ends (interrupt_pairs-Ends env k now (running_pairs s.runs s.agents) s))
Move-Life env k s t h (annotating j i m e) =
    subst (λ t. Life (run_of k s) (run_of k t)) (sym e) (annotate-Life k j i m s.runs)
Move-Life env k s t h (delaying a now e) =
    subst (λ t. Life (run_of k s) (run_of k t)) (sym e) (ends (same refl))
Move-Life env k s t h (deferring a moment e) =
    subst (λ t. Life (run_of k s) (run_of k t)) (sym e) (ends (same refl))
Move-Life env k s t h (waking a now seconds e) =
    subst (λ t. Life (run_of k s) (run_of k t)) (sym e) (ends (same refl))
Move-Life env k s t h (setting a status off e) =
    subst (λ t. Life (run_of k s) (run_of k t)) (sym e) (ends (same refl))
