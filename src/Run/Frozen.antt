-- ===== src/Run/Frozen.antt =====
-- A run that was closed, under the steps of deaddit/agents/loop.py and deaddit/runtime/wakes.py.
use deaddit.Prelude.{◌≡◌, refl, ap, ◌∙◌, subst, ℕ, true, false, Option, none, some}
use deaddit.Run.{AgentRun, Store, is_running}
use deaddit.Run.Lifecycle.{Env}
use deaddit.Run.Ends.{annotate}
use deaddit.Run.Keyed.{IsKeyed}
use deaddit.Run.Steps.{Reach, here, further, Reach-IsKeyed}
use deaddit.Run.Life.{run_of, same, ended, Life, starts, ends, annotated, Move-Life}

-- A run without the two columns that its preparation writes.
abbrev pub without_preparation : AgentRun → AgentRun
without_preparation r = record r { intent = none; prompt_metadata = none }

-- The run is there, and all its other columns are those of the given one.
unfoldable pub Remains : AgentRun → Option AgentRun → Type 0
Remains r o = (q : AgentRun) × (o ≡ some q) × (without_preparation q ≡ without_preparation r)

Remains-Life :
    (a b : Option AgentRun) (r : AgentRun)
    → Life a b
    → is_running r.status ≡ false
    → Remains r a
    → Remains r b
unfolding Remains
Remains-Life a b r life off (q, h, like) =
    let out : is_running q.status ≡ false = ap (λ (x : AgentRun). is_running x.status) like ∙ off in
    elim life [
      | starts x e _ _ ↦ absurd (cc (e, h))
      | ends (same e) ↦ (q, e ∙ h, like)
      | ends (ended x y eb on _ _ _ _) ↦ absurd (
          let one : x ≡ q = cc (eb, h) in
          let yes : is_running q.status ≡ true =
            subst (λ (z : AgentRun). is_running z.status ≡ true) one on in
          cc (yes, out))
      | annotated x i m eb ea ↦
          (annotate i m x, ea, (let one : x ≡ q = cc (eb, h) in ap without_preparation one ∙ like))
    ]

-- From rows in which the keys of the runs are different and below the next key, no steps of any workers
-- change a run that was closed but in the two columns of its preparation: its status, its moments, its
-- counters, its usage and its error stay, so that a late failure or completion of a run that was
-- recovered changes nothing in its row.
pub Reach-frozen :
    (env : Env) (k : ℕ) (s t : Store) (r : AgentRun)
    → IsKeyed s
    → Reach env s t
    → run_of k s ≡ some r
    → is_running r.status ≡ false
    → Remains r (run_of k t)
unfolding Remains
Reach-frozen env k s t r h here e off = (r, e, refl)
Reach-frozen env k s t r h (further reach m) e off =
    Remains-Life _ _ r (Move-Life env k _ t (Reach-IsKeyed env s _ reach h) m) off
      (Reach-frozen env k s _ r h reach e off)
