-- ===== src/Run/Held.antt =====
-- A run of an agent while other workers step (deaddit/agents/loop.py): it stays the agent's, and a
-- conditional UPDATE of it leaves it closed.
use deaddit.Prelude.{
  first_where-In, ◌≡◌, refl, ap, ◌∙◌, subst, ℕ, false, Option, none, some, List, [], ◌∷◌, ◌==◌,
  ==_iff, arith, Bool-cases, inl, inr, first_where, count_where, update_where,
}
use deaddit.Run.{AgentRun, Agent, Store, is_running}
use deaddit.Run.Lifecycle.{Env, owns, close}
use deaddit.Run.Ends.{annotate}
use deaddit.Run.Owned.{BelongsTo, IsClosing, has_key}
use deaddit.Run.Keeps.{run-BelongsTo}
use deaddit.Run.Keyed.{IsKeyed}
use deaddit.Run.Steps.{Reach, here, further, Reach-IsKeyed}
use deaddit.Run.Life.{run_of, same, ended, Life, starts, ends, annotated, Move-Life}

-- The run of the key is there, and it is the agent's.
abbrev pub HasRun : ℕ → ℕ → Store → Type 0
HasRun k a s = (r : AgentRun) × (run_of k s ≡ some r) × (r.agent_id ≡ a)

Life-HasRun :
    (a : ℕ) (o q : Option AgentRun)
    → Life o q
    → (r : AgentRun) × (o ≡ some r) × (r.agent_id ≡ a)
    → (r : AgentRun) × (q ≡ some r) × (r.agent_id ≡ a)
Life-HasRun a o q (starts r e _ _) h = absurd (cc (e, h.1))
Life-HasRun a o q (ends (same e)) h = (h.0, e ∙ h.1, h.2)
Life-HasRun a o q (annotated r i m e e') h = (
  annotate i m r,
  e',
  (let one : r ≡ h.0 = cc (e, h.1) in ap (λ (x : AgentRun). x.agent_id) one ∙ h.2),
)
Life-HasRun a o q (ends (ended r n e _ e' _ i _)) h =
    (n, e', (let one : r ≡ h.0 = cc (e, h.1) in i ∙ ap (λ (x : AgentRun). x.agent_id) one ∙ h.2))

pub Reach-HasRun :
    (env : Env) (k a : ℕ) (s t : Store) → IsKeyed s → Reach env s t → HasRun k a s → HasRun k a t
Reach-HasRun env k a s t h here r = r
Reach-HasRun env k a s t h (further reach m) r =
    Life-HasRun a _ _ (Move-Life env k _ t (Reach-IsKeyed env s _ reach h) m)
      (Reach-HasRun env k a s _ h reach r)

pub HasRun-BelongsTo : (k a : ℕ) (s : Store) → IsKeyed s → HasRun k a s → BelongsTo k a s.runs
HasRun-BelongsTo k a s h r =
    let found = first_where-In (has_key k) r.0 s.runs r.1 in
    let key : r.0.id ≡ k = (==_iff r.0.id k).0 found.0 in
    subst (λ j. BelongsTo j a s.runs) key
      (subst (λ b. BelongsTo r.0.id b s.runs) r.2
        (run-BelongsTo r.0 s.runs found.1 (h.keys r.0.id)))

abbrev pub IsOver : Option AgentRun → Type 0
IsOver none = Unit
IsOver (some r) = is_running r.status ≡ false

-- No run of the key is running.
abbrev pub IsOff : ℕ → Store → Type 0
IsOff k s = IsOver (run_of k s)

IsOver-rows :
    (o : Option AgentRun) → ((r : AgentRun) → o ≡ some r → is_running r.status ≡ false) → IsOver o
IsOver-rows none h = tt
IsOver-rows (some r) h = h r refl

module _ (f : AgentRun → AgentRun) (closing : IsClosing f) (k : ℕ) where
  written-off :
      (runs : List AgentRun) (r : AgentRun)
      → first_where (has_key k) (update_where (owns k) f runs) ≡ some r
      → is_running r.status ≡ false
  written-off [] r e = absurd (cc e)
  written-off (x ∷ xs) r e =
      (let i = closing.id x in
        let off = closing.status x in
        elim (Bool-cases (x.id == k)) [
          | inl y ↦ elim (Bool-cases (is_running x.status)) [
            | inl on ↦
                (let one : f x ≡ r = ground arith in
                  subst (λ (q : AgentRun). is_running q.status ≡ false) one off)
            | inr out ↦
                (let one : x ≡ r = ground arith in
                  subst (λ (q : AgentRun). is_running q.status ≡ false) one out)
          ]
          | inr n ↦ written-off xs r (ground arith)
        ])

  unmatched-off :
      (runs : List AgentRun) (r : AgentRun)
      → count_where (owns k) runs ≡ 0
      → first_where (has_key k) runs ≡ some r
      → is_running r.status ≡ false
  unmatched-off [] r c e = absurd (cc e)
  unmatched-off (x ∷ xs) r c e = elim (Bool-cases (x.id == k)) [
    | inl y ↦
        (let one : x ≡ r = ground arith in
          subst (λ (q : AgentRun). is_running q.status ≡ false) one (ground arith))
    | inr n ↦ unmatched-off xs r (ground arith) (ground arith)
  ]

  pub close-IsOff : (a : ℕ) (g : Agent → Agent) (s : Store) → IsOff k (close (owns k) f a g s).1
  close-IsOff a g s = elim (Bool-cases (count_where (owns k) s.runs == 0)) [
    | inl y ↦ simp (y) (IsOver-rows _ (λ r e. unmatched-off s.runs r (ground arith) e))
    | inr n ↦ simp (n) (IsOver-rows _ (written-off s.runs))
  ]
