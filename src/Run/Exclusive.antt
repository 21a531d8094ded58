-- ===== src/Run/Exclusive.antt =====
-- Which runs may be running (deaddit/models.py, deaddit/agents/loop.py).
use deaddit.Prelude.{
  is_some, not, All, All-append, List, [], ◌∷◌, update_where, update_where-All, sym, false, ◌++◌,
  All-imp, ◌≡◌, refl, subst, ℕ, ◌≤◌, String, Bool, true, ◌==◌, ==_iff, arith, Bool-cases, inl, inr,
  count_where,
}
use deaddit.Prelude.Json.{Json}
use deaddit.Run.{AgentRun, Agent, Store, is_running, is_active}
use deaddit.Run.Lifecycle.{is_of_agent, is_of_persona, owns, is_the_active, close}
use deaddit.Run.Reservation.{is_unique, insert_run, new_run}
use deaddit.Run.Ends.{annotate, annotate_run}
use deaddit.Run.Wake.{write_agent}
use deaddit.Run.Owned.{
  IsClosing, IsRelease, BelongsTo, closed-sum, runs_of, closed-count, closed-persona,
}
use deaddit.Run.Moves.{inserted-count, inserted-persona}
use deaddit.Run.Writes.{annotated-count}
use deaddit.Run.Keyed.{IsKeyed, close-IsKeyed, insert_run-IsKeyed, annotate_run-IsKeyed}

-- A run has the moment of its end exactly when it is not running any more.
abbrev pub IsDated : AgentRun → Type 0
IsDated r = is_some r.finished_at ≡ not (is_running r.status)

closed-IsDated :
    (test : AgentRun → Bool) (f : AgentRun → AgentRun) (runs : List AgentRun)
    → IsClosing f
    → All IsDated runs
    → All IsDated (update_where test f runs)
closed-IsDated test f runs closing h =
    update_where-All IsDated IsDated test f runs
      (λ r e i. (let off = closing.status r in let end = closing.finished r in rw (off) end))
      (λ r e i. i) h

-- An active agent has one running run.
abbrev pub IsBusy : List AgentRun → Agent → Type 0
IsBusy runs x = is_active x.status ≡ true → runs_of x.id runs ≡ 1

pub record IsExclusive (s : Store) : Type 0 where
  pub active : All (IsBusy s.runs) s.agents
  pub agents : (a : ℕ) → runs_of a s.runs ≤ 1
  pub personas : (p : String) → count_where (is_of_persona p) s.runs ≤ 1
  pub dated : All IsDated s.runs
  pub keyed : IsKeyed s

-- How an agent is written by itself: it is not made active.
pub record IsQuiet (g : Agent → Agent) : Type 0 where
  pub id : (x : Agent) → (g x).id ≡ x.id
  pub status : (x : Agent) → is_active (g x).status ≡ true → is_active x.status ≡ true

pub write_agent-IsExclusive :
    (a : ℕ) (g : Agent → Agent) (s : Store)
    → IsQuiet g
    → IsExclusive s
    → IsExclusive (write_agent a g s)
write_agent-IsExclusive a g s quiet h = record {
  active =
      update_where-All (IsBusy s.runs) (IsBusy s.runs) (λ x. x.id == a) g s.agents
        (λ x e i on. (let key = quiet.id x in rw (key) (i (quiet.status x on)))) (λ x e i. i)
        h.active;
  agents = h.agents;
  personas = h.personas;
  dated = h.dated;
  keyed = record { keys = h.keyed.keys; fresh = h.keyed.fresh };
}

module _ (test : AgentRun → Bool) (f : AgentRun → AgentRun) (closing : IsClosing f)
    (g : Agent → Agent) (release : IsRelease g) (k a : ℕ) (s : Store)
    (only : (r : AgentRun) → test r ≡ true → owns k r ≡ true) (own : BelongsTo k a s.runs) where
  -- An active agent that is left as it is has none of the closed runs.
  IsBusy-kept :
      (x : Agent)
      → is_the_active a x ≡ false
      → IsBusy s.runs x
      → IsBusy (update_where test f s.runs) x
  IsBusy-kept x e i on =
      let sum = closed-sum test f closing g release k a s only own x.id in
      let one = i on in
      elim (Bool-cases (x.id == a)) [ inl y ↦ ground arith | inr n ↦ ground (arith, sum, one) ]

  pub close-IsExclusive : IsExclusive s → IsExclusive (close test f a g s).1
  close-IsExclusive h =
      let keyed = close-IsKeyed test f a g s closing h.keyed in
      let running : (r : AgentRun) → test r ≡ true → is_running r.status ≡ true =
        (λ r q. let o = only r q in ground arith) in
      elim (Bool-cases (count_where test s.runs == 0)) [
        | inl y ↦ simp (y) h
        | inr n ↦ simp (n) (record {
          active =
              update_where-All (IsBusy s.runs) (IsBusy (update_where test f s.runs))
                (is_the_active a) g s.agents
                (λ x e i on. absurd (let off = release.status x in cc (off, on)))
                (λ x e i. IsBusy-kept x e i) h.active;
          agents = λ b.
              (let sum = closed-count test f closing b s.runs running in
                let one = h.agents b in omega (arith, sum, one));
          personas = λ p.
              (let less = closed-persona test f closing p s.runs in
                let one = h.personas p in omega (arith, less, one));
          dated = closed-IsDated test f s.runs closing h.dated;
          keyed = subst IsKeyed (simp (n) refl) keyed;
        })
      ]

pub insert_run-IsExclusive :
    (a : ℕ) (p : String) (now : ℕ) (s : Store)
    → is_unique a p s ≡ true
    → IsExclusive s
    → IsExclusive (insert_run a p now s)
insert_run-IsExclusive a p now s u h =
    let idle_agent : runs_of a s.runs ≡ 0 = ground arith in
    let free_persona : count_where (is_of_persona p) s.runs ≡ 0 = ground arith in
    record {
      active =
          update_where-All (IsBusy s.runs) (IsBusy (s.runs ++ new_run s.next_run a p now ∷ []))
            (λ x. x.id == a) _ s.agents
            (λ x e i on.
              (let same : runs_of x.id s.runs ≡ 0 =
                  subst (λ b. runs_of b s.runs ≡ 0) (sym ((==_iff x.id a).0 e)) idle_agent in
                let sum = inserted-count x.id s.next_run a p now s.runs in
                ground (arith, same, sum)))
            (λ x e i on.
              (let sum = inserted-count x.id s.next_run a p now s.runs in
                let one = i on in ground (arith, sum, one)))
            h.active;
      agents = λ b.
          (let sum = inserted-count b s.next_run a p now s.runs in
            let one = h.agents b in
            elim (Bool-cases (a == b)) [
              | inl y ↦
                  (let same : runs_of b s.runs ≡ 0 =
                      subst (λ c. runs_of c s.runs ≡ 0) ((==_iff a b).0 y) idle_agent in
                    ground (arith, same, sum))
              | inr n ↦ ground (arith, sum, one)
            ]);
      personas = λ q. inserted-persona q s.next_run a p now s.runs free_persona (h.personas q);
      dated = All-append IsDated s.runs (new_run s.next_run a p now ∷ []) h.dated (refl, tt);
      keyed = insert_run-IsKeyed a p now s h.keyed;
    }

pub annotate_run-IsExclusive :
    (k : ℕ) (i : String) (m : Json) (s : Store) → IsExclusive s → IsExclusive (annotate_run k i m s)
unfolding annotate_run
annotate_run-IsExclusive k i m s h = record {
  active =
      All-imp (IsBusy s.runs) _ s.agents
        (λ x e on.
          (let n = annotated-count (is_of_agent x.id) k i m s.runs (λ r. refl) in rw (n) (e on)))
        h.active;
  agents = λ a.
      (let n = annotated-count (is_of_agent a) k i m s.runs (λ r. refl) in
        let one = h.agents a in omega (arith, n, one));
  personas = λ p.
      (let n = annotated-count (is_of_persona p) k i m s.runs (λ r. refl) in
        let one = h.personas p in omega (arith, n, one));
  dated =
      update_where-All IsDated IsDated (λ r. r.id == k) (annotate i m) s.runs (λ r e d. d)
        (λ r e d. d) h.dated;
  keyed = annotate_run-IsKeyed k i m s h.keyed;
}
