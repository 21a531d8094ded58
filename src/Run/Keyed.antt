-- ===== src/Run/Keyed.antt =====
-- The keys of the runs under the steps of deaddit/agents/loop.py and deaddit/runtime/wakes.py.
use deaddit.Prelude.{
  refl, sym, subst, ℕ, ◌+◌, ◌≤◌, ◌<◌, String, Bool, ◌==◌, [], ◌∷◌, arith, Bool-cases, inl, inr, All,
  All-append, All-imp, count_where, update_where-All,
}
use deaddit.Prelude.Json.{Json}
use deaddit.Run.{AgentRun, Agent, Store}
use deaddit.Run.Lifecycle.{close}
use deaddit.Run.Reservation.{new_run, insert_run}
use deaddit.Run.Ends.{annotate, annotate_run}
use deaddit.Run.Owned.{IsOwned, IsClosing, has_key, closed-keys}
use deaddit.Run.Moves.{inserted-key}
use deaddit.Run.Writes.{annotated-count}

-- The keys of the runs are different and below the next key.
pub record IsKeyed (s : Store) : Type 0 where
  pub keys : (k : ℕ) → count_where (has_key k) s.runs ≤ 1
  pub fresh : All (λ r. r.id < s.next_run) s.runs

pub IsOwned-IsKeyed : (s : Store) → IsOwned s → IsKeyed s
IsOwned-IsKeyed s h = record { keys = h.keys; fresh = h.fresh }

pub close-IsKeyed :
    (test : AgentRun → Bool) (f : AgentRun → AgentRun) (a : ℕ) (g : Agent → Agent) (s : Store)
    → IsClosing f
    → IsKeyed s
    → IsKeyed (close test f a g s).1
close-IsKeyed test f a g s closing h = elim (Bool-cases (count_where test s.runs == 0)) [
  | inl y ↦ simp (y) h
  | inr n ↦ simp (n) (record {
    keys = λ j.
        (let same = closed-keys test f closing j s.runs in
          let one = h.keys j in omega (arith, same, one));
    fresh =
        update_where-All (λ r. r.id < s.next_run) (λ r. r.id < s.next_run) test f s.runs
          (λ r e i. subst (λ m. m < s.next_run) (sym (closing.id r)) i) (λ r e i. i) h.fresh;
  })
]

pub insert_run-IsKeyed :
    (a : ℕ) (p : String) (now : ℕ) (s : Store) → IsKeyed s → IsKeyed (insert_run a p now s)
insert_run-IsKeyed a p now s h = record {
  keys = λ k. inserted-key k s.next_run a p now s.runs h.fresh (h.keys k);
  fresh =
      All-append (λ r. r.id < s.next_run + 1) s.runs (new_run s.next_run a p now ∷ [])
        (All-imp (λ r. r.id < s.next_run) (λ r. r.id < s.next_run + 1) s.runs (λ r b. omega arith)
          h.fresh)
        (omega arith, tt);
}

pub annotate_run-IsKeyed :
    (k : ℕ) (i : String) (m : Json) (s : Store) → IsKeyed s → IsKeyed (annotate_run k i m s)
unfolding annotate_run
annotate_run-IsKeyed k i m s h = record {
  keys = λ j.
      (let n = annotated-count (has_key j) k i m s.runs (λ r. refl) in
        let one = h.keys j in omega (arith, n, one));
  fresh =
      update_where-All _ _ (λ r. r.id == k) (annotate i m) s.runs (λ r q b. b) (λ r q b. b) h.fresh;
}
