-- ===== src/Run/Moves.antt =====
-- The insertion of a run and the delay of an agent in deaddit/agents/loop.py as steps of a worker.
use deaddit.Prelude.{
  ◌≡◌, refl, sym, subst, ℕ, ◌+◌, ◌≤◌, ◌<◌, String, true, false, some, List, [], ◌∷◌, ◌++◌, ◌==◌,
  ==_iff, str_eq, eq_iff, arith, Bool-cases, inl, inr, All, All-append, All-imp, count_where,
  count_where-append, update_where-All,
}
use deaddit.Run.{error, AgentRun, Agent, Store}
use deaddit.Run.Lifecycle.{is_of_agent, is_of_persona}
use deaddit.Run.Reservation.{is_unique, new_run, insert_run, has_run}
use deaddit.Run.Ends.{backoff, backoff_without_strike}
use deaddit.Run.Owned.{IsInStep, IsOwned, has_key, runs_of, as_number}

backed_off-IsInStep :
    (a now : ℕ) (runs : List AgentRun) (x : Agent)
    → runs_of a runs ≡ 0
    → (x.id == a) ≡ true
    → IsInStep runs (backoff now (record x { status = error; last_run_at = some now }))
backed_off-IsInStep a now runs x none_left e =
    let same : runs_of x.id runs ≡ 0 =
      subst (λ b. runs_of b runs ≡ 0) (sym ((==_iff x.id a).0 e)) none_left in
    elim (Bool-cases x.is_enabled) [ inl y ↦ simp (y) same | inr n ↦ simp (n) same ]

pub backoff_without_strike-IsOwned :
    (a now : ℕ) (s : Store)
    → has_run a s ≡ false
    → IsOwned s
    → IsOwned (backoff_without_strike a now s)
unfolding backoff_without_strike
backoff_without_strike-IsOwned a now s e h = record {
  agents =
      update_where-All (IsInStep s.runs) (IsInStep s.runs) (λ x. x.id == a) _ s.agents
        (λ x q i. backed_off-IsInStep a now s.runs x (ground arith) q) (λ x q i. i) h.agents;
  personas = h.personas;
  keys = h.keys;
  fresh = h.fresh;
}

pub inserted-count :
    (b k a : ℕ) (p : String) (now : ℕ) (runs : List AgentRun)
    → runs_of b (runs ++ new_run k a p now ∷ []) ≡ runs_of b runs + as_number (a == b)
inserted-count b k a p now runs =
    ground (arith, count_where-append (is_of_agent b) runs (new_run k a p now ∷ []))

pub inserted-persona :
    (q : String) (k a : ℕ) (p : String) (now : ℕ) (runs : List AgentRun)
    → count_where (is_of_persona p) runs ≡ 0
    → count_where (is_of_persona q) runs ≤ 1
    → count_where (is_of_persona q) (runs ++ new_run k a p now ∷ []) ≤ 1
inserted-persona q k a p now runs e h = elim (Bool-cases (str_eq p q)) [
  | inl y ↦
      (let same : count_where (is_of_persona q) runs ≡ 0 =
          subst (λ t. count_where (is_of_persona t) runs ≡ 0) ((eq_iff p q).0 y) e in
        ground (arith, count_where-append (is_of_persona q) runs (new_run k a p now ∷ []), same))
  | inr n ↦ ground (arith, count_where-append (is_of_persona q) runs (new_run k a p now ∷ []))
]

unused_key :
    (k : ℕ) (runs : List AgentRun) → All (λ r. r.id < k) runs → count_where (has_key k) runs ≡ 0
unused_key k [] h = refl
unused_key k (r ∷ rs) h = (let below = h.0 in ground (arith, unused_key k rs h.1))

pub inserted-key :
    (j k a : ℕ) (p : String) (now : ℕ) (runs : List AgentRun)
    → All (λ r. r.id < k) runs
    → count_where (has_key j) runs ≤ 1
    → count_where (has_key j) (runs ++ new_run k a p now ∷ []) ≤ 1
inserted-key j k a p now runs below h = elim (Bool-cases (k == j)) [
  | inl y ↦
      (let same : count_where (has_key j) runs ≡ 0 =
          subst (λ t. count_where (has_key t) runs ≡ 0) ((==_iff k j).0 y)
            (unused_key k runs below) in
        ground (arith, count_where-append (has_key j) runs (new_run k a p now ∷ []), same))
  | inr n ↦ ground (arith, count_where-append (has_key j) runs (new_run k a p now ∷ []))
]

pub insert_run-IsOwned :
    (a : ℕ) (p : String) (now : ℕ) (s : Store)
    → is_unique a p s ≡ true
    → IsOwned s
    → IsOwned (insert_run a p now s)
insert_run-IsOwned a p now s u h =
    let idle_agent : runs_of a s.runs ≡ 0 = ground arith in
    let free_persona : count_where (is_of_persona p) s.runs ≡ 0 = ground arith in
    record {
      agents =
          update_where-All (IsInStep s.runs) (IsInStep (s.runs ++ new_run s.next_run a p now ∷ []))
            (λ x. x.id == a) _ s.agents
            (λ x q i.
              (let same : runs_of x.id s.runs ≡ 0 =
                  subst (λ b. runs_of b s.runs ≡ 0) (sym ((==_iff x.id a).0 q)) idle_agent in
                let sum = inserted-count x.id s.next_run a p now s.runs in
                ground (arith, same, sum)))
            (λ x q i.
              (let sum = inserted-count x.id s.next_run a p now s.runs in ground (arith, sum)))
            h.agents;
      personas = λ q. inserted-persona q s.next_run a p now s.runs free_persona (h.personas q);
      keys = λ k. inserted-key k s.next_run a p now s.runs h.fresh (h.keys k);
      fresh =
          All-append (λ r. r.id < s.next_run + 1) s.runs (new_run s.next_run a p now ∷ [])
            (All-imp (λ r. r.id < s.next_run) (λ r. r.id < s.next_run + 1) s.runs
              (λ r b. omega arith) h.fresh)
            (omega arith, tt);
    }
