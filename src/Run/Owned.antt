-- ===== src/Run/Owned.antt =====
-- What deaddit/agents/loop.py and deaddit/runtime/wakes.py keep true of the rows, and the one step by
-- which they close a run.
use deaddit.Prelude.{
  is_some, ◌≡◌, refl, sym, subst, ◌∙◌, ℕ, ◌+◌, ◌≤◌, ◌<◌, String, Bool, true, false, ◌&&◌, List, [],
  ◌∷◌, ◌==◌, if◌then◌else◌, arith, Bool-cases, inl, inr, All, count_where, count_where-update_where,
  update_where, update_where-All,
}
use deaddit.Run.{AgentRun, Agent, Store, is_running, is_active}
use deaddit.Run.Lifecycle.{is_of_agent, is_of_persona, owns, is_the_active, close}

abbrev pub has_key : ℕ → AgentRun → Bool
has_key k r = r.id == k

abbrev pub runs_of : ℕ → List AgentRun → ℕ
runs_of a runs = count_where (is_of_agent a) runs

abbrev pub as_number : Bool → ℕ
as_number b = if b then 1 else 0

-- An agent is active exactly while one run of it is running.
abbrev pub IsInStep : List AgentRun → Agent → Type 0
IsInStep runs x = runs_of x.id runs ≡ as_number (is_active x.status)

pub record IsOwned (s : Store) : Type 0 where
  pub agents : All (IsInStep s.runs) s.agents
  pub personas : (p : String) → count_where (is_of_persona p) s.runs ≤ 1
  pub keys : (k : ℕ) → count_where (has_key k) s.runs ≤ 1
  pub fresh : All (λ r. r.id < s.next_run) s.runs

-- The run of the key is the agent's.
abbrev pub BelongsTo : ℕ → ℕ → List AgentRun → Type 0
BelongsTo k a runs = All (λ r. (r.id == k) ≡ true → r.agent_id ≡ a) runs

-- How a run is closed: it stays the run that it is.
pub record IsClosing (f : AgentRun → AgentRun) : Type 0 where
  pub id : (r : AgentRun) → (f r).id ≡ r.id
  pub agent : (r : AgentRun) → (f r).agent_id ≡ r.agent_id
  pub persona : (r : AgentRun) → (f r).persona_username ≡ r.persona_username
  pub status : (r : AgentRun) → is_running (f r).status ≡ false
  pub finished : (r : AgentRun) → is_some (f r).finished_at ≡ true

pub record IsRelease (g : Agent → Agent) : Type 0 where
  pub id : (x : Agent) → (g x).id ≡ x.id
  pub status : (x : Agent) → is_active (g x).status ≡ false

module _ (test : AgentRun → Bool) (f : AgentRun → AgentRun) (closing : IsClosing f) where
  -- The closed runs are those that are missing from the agent's running runs.
  pub closed-count :
      (b : ℕ) (runs : List AgentRun)
      → ((r : AgentRun) → test r ≡ true → is_running r.status ≡ true)
      → runs_of b (update_where test f runs) + count_where (λ r. test r && r.agent_id == b) runs
        ≡ runs_of b runs
  closed-count b [] h = refl
  closed-count b (r ∷ rs) h =
      ground (arith, h r, closing.status r, closing.agent r, closed-count b rs h)

  pub closed-persona :
      (p : String) (runs : List AgentRun)
      → count_where (is_of_persona p) (update_where test f runs)
        ≤ count_where (is_of_persona p) runs
  closed-persona p [] = omega arith
  closed-persona p (r ∷ rs) = elim (Bool-cases (test r)) [
    | inl y ↦
        (let rest = closed-persona p rs in
          let off = closing.status r in simp (y) (ground (arith, rest, off)))
    | inr n ↦ (let rest = closed-persona p rs in simp (n) (ground (arith, rest)))
  ]

  pub closed-keys :
      (k : ℕ) (runs : List AgentRun)
      → count_where (has_key k) (update_where test f runs) ≡ count_where (has_key k) runs
  closed-keys k runs =
      count_where-update_where test (has_key k) f runs (λ r h. rw (closing.id r) refl)

-- Of the rows that are matched, all are the agent's.
matched-agent :
    (test : AgentRun → Bool) (k a b : ℕ) (runs : List AgentRun)
    → ((r : AgentRun) → test r ≡ true → (r.id == k) ≡ true)
    → BelongsTo k a runs
    → count_where (λ r. test r && r.agent_id == b) runs
      ≡ (if a == b then count_where test runs else 0)
matched-agent test k a b [] h own = ground arith
matched-agent test k a b (r ∷ rs) h own =
    ground (arith, h r, own.0, matched-agent test k a b rs h own.1)

freed :
    (after before n a b : ℕ) (on : Bool)
    → (n == 0) ≡ false
    → ((b == a) && on) ≡ true
    → before ≡ as_number on
    → after + (if a == b then n else 0) ≡ before
    → after ≡ 0
freed after before n a b on h e i sum = ground arith

kept :
    (after before n a b : ℕ) (on : Bool)
    → (n == 0) ≡ false
    → ((b == a) && on) ≡ false
    → before ≡ as_number on
    → after + (if a == b then n else 0) ≡ before
    → after ≡ as_number on
kept after before n a b on h e i sum = ground arith

module _ (test : AgentRun → Bool) (f : AgentRun → AgentRun) (closing : IsClosing f)
    (g : Agent → Agent) (release : IsRelease g) (k a : ℕ) (s : Store)
    (only : (r : AgentRun) → test r ≡ true → owns k r ≡ true) (own : BelongsTo k a s.runs) where
  pub closed-sum :
      (b : ℕ)
      → runs_of b (update_where test f s.runs) + (if a == b then count_where test s.runs else 0)
        ≡ runs_of b s.runs
  closed-sum b =
      let all = closed-count test f closing b s.runs (λ r h. let o = only r h in ground arith) in
      let part = matched-agent test k a b s.runs (λ r h. let o = only r h in ground arith) own in
      omega (arith, all, part)

  IsInStep-freed :
      (x : Agent)
      → (count_where test s.runs == 0) ≡ false
      → is_the_active a x ≡ true
      → IsInStep s.runs x
      → IsInStep (update_where test f s.runs) (g x)
  IsInStep-freed x n e h =
      let sum = closed-sum x.id in
      let off = release.status x in
      let same = release.id x in
      simp (same, off)
        (freed (runs_of x.id (update_where test f s.runs)) (runs_of x.id s.runs)
          (count_where test s.runs) a x.id (is_active x.status) n e h sum)

  IsInStep-kept :
      (x : Agent)
      → (count_where test s.runs == 0) ≡ false
      → is_the_active a x ≡ false
      → IsInStep s.runs x
      → IsInStep (update_where test f s.runs) x
  IsInStep-kept x n e h =
      let sum = closed-sum x.id in
      kept (runs_of x.id (update_where test f s.runs)) (runs_of x.id s.runs)
        (count_where test s.runs) a x.id (is_active x.status) n e h sum

  -- Closing a run keeps every agent in step with its runs.
  pub close-IsOwned : IsOwned s → IsOwned (close test f a g s).1
  close-IsOwned h = elim (Bool-cases (count_where test s.runs == 0)) [
    | inl y ↦ simp (y) h
    | inr n ↦ simp (n) (record {
      agents =
          update_where-All (IsInStep s.runs) (IsInStep (update_where test f s.runs))
            (is_the_active a) g s.agents (λ x e i. IsInStep-freed x n e i)
            (λ x e i. IsInStep-kept x n e i) h.agents;
      personas = λ p.
          (let less = closed-persona test f closing p s.runs in
            let one = h.personas p in omega (arith, less, one));
      keys = λ j.
          (let same = closed-keys test f closing j s.runs in
            let one = h.keys j in omega (arith, same, one));
      fresh =
          update_where-All (λ r. r.id < s.next_run) (λ r. r.id < s.next_run) test f s.runs
            (λ r e i. subst (λ m. m < s.next_run) (sym (closing.id r)) i) (λ r e i. i) h.fresh;
    })
  ]

  -- And it leaves every run with its agent.
  pub close-BelongsTo : (j b : ℕ) → BelongsTo j b s.runs → BelongsTo j b (close test f a g s).1.runs
  close-BelongsTo j b h = elim (Bool-cases (count_where test s.runs == 0)) [
    | inl y ↦ simp (y) h
    | inr n ↦ simp (n) (
        update_where-All (λ r. (r.id == j) ≡ true → r.agent_id ≡ b)
          (λ r. (r.id == j) ≡ true → r.agent_id ≡ b) test f s.runs
          (λ r e i q. closing.agent r ∙ i (subst (λ m. (m == j) ≡ true) (closing.id r) q))
          (λ r e i. i) h)
  ]
