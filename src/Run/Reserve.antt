-- ===== src/Run/Reserve.antt =====
-- The reservation of a run in deaddit/agents/loop.py, between the steps of the other workers, and whom
-- it may pick.
use deaddit.Prelude.{
  ◌≡◌, refl, ℕ, zero, suc, String, true, Option, none, some, ==_self, Bool-cases, inl, inr,
}
use deaddit.Run.{AgentRun, Agent, Store, is_running}
use deaddit.Run.Persona.{select_persona}
use deaddit.Run.Lifecycle.{Env}
use deaddit.Run.Reservation.{
  is_unique, insert_run, new_run, has_run, commit_run, with_persona, reserve_attempts,
  reserve_persona_run, Reservation, reserved, refused,
}
use deaddit.Run.Keyed.{IsKeyed}
use deaddit.Run.Steps.{inserting, Reach, here, further, Reach-trans, Reach-IsKeyed}
use deaddit.Run.Life.{run_of, appended_self}

-- Where a reservation succeeds, the run of its key is the agent's and is running.
abbrev pub HasReserved : ℕ → Reservation × Store → Type 0
HasReserved a (refused e, t) = Unit
HasReserved a (reserved k, t) =
    (r : AgentRun) × (run_of k t ≡ some r) × (r.agent_id ≡ a) × (is_running r.status ≡ true)

-- What a reservation promises from `s` on.
pub record IsReserved (env : Env) (a : ℕ) (s : Store) (result : Reservation × Store) : Type 0 where
  pub reach : Reach env s result.1
  pub run : HasReserved a result

module _ (env : Env) (a now : ℕ) where
  refused-IsReserved : (e : _) (s t : Store) → Reach env s t → IsReserved env a s (refused e, t)
  refused-IsReserved e s t r = record { reach = r; run = tt }

  inserted_self :
      (p : String) (t : Store)
      → IsKeyed t
      → run_of t.next_run (insert_run a p now t) ≡ some (new_run t.next_run a p now)
  inserted_self p t h =
      appended_self t.next_run t.runs (new_run t.next_run a p now) (==_self t.next_run) h.fresh

  commit_run-IsReserved :
      (p : String) (again : Store → Reservation × Store) (s t : Store)
      → IsKeyed s
      → Reach env s t
      → ((u : Store) → Reach env s u → IsReserved env a s (again u))
      → IsReserved env a s (commit_run a p now again t)
  commit_run-IsReserved p again s t h r more = elim (Bool-cases (is_unique a p t)) [
    | inl y ↦ simp (y) (record {
      reach = further r (inserting a p now y refl);
      run = (new_run t.next_run a p now, inserted_self p t (Reach-IsKeyed env s t r h), refl, refl);
    })
    | inr n ↦ elim (Bool-cases (has_run a t)) [
      | inl y ↦ simp (n, y) (refused-IsReserved _ s t r)
      | inr m ↦ simp (n, m) (more t r)
    ]
  ]

module _ (env : Env) (x : Agent) (now : ℕ) (meanwhile : ℕ → Store → Store)
    (others : (n : ℕ) (u : Store) → Reach env u (meanwhile n u)) where
  with_persona-IsReserved :
      (n : ℕ) (again : Store → Reservation × Store) (s t : Store) (o : Option String)
      → IsKeyed s
      → Reach env s t
      → ((u : Store) → Reach env s u → IsReserved env x.id s (again u))
      → IsReserved env x.id s (with_persona x.id now (meanwhile n) again t o)
  with_persona-IsReserved n again s t none h r more = refused-IsReserved env x.id now _ s t r
  with_persona-IsReserved n again s t (some p) h r more =
      commit_run-IsReserved env x.id now p again s (meanwhile n t) h
        (Reach-trans env s t (meanwhile n t) r (others n t)) more

  reserve_attempts-IsReserved :
      (n : ℕ) (s t : Store)
      → IsKeyed s
      → Reach env s t
      → IsReserved env x.id s (reserve_attempts env x now meanwhile n t)
  unfolding reserve_attempts
  reserve_attempts-IsReserved zero s t h r = refused-IsReserved env x.id now _ s t r
  reserve_attempts-IsReserved (suc n) s t h r = elim (Bool-cases (has_run x.id t)) [
    | inl y ↦ simp (y) (refused-IsReserved env x.id now _ s t r)
    | inr m ↦ simp (m) (
        with_persona-IsReserved n (reserve_attempts env x now meanwhile n) s t
          (select_persona env.choose x t) h r (λ u q. reserve_attempts-IsReserved n s u h q))
  ]

  -- From rows in which the keys of the runs are different and below the next key, and where the other
  -- workers only make their own steps between the attempts, a reservation is a sequence of such steps, so that it keeps all that
  -- they keep; and where it returns a key, the run of that key is the agent's and is running.
  pub reserve_persona_run-IsReserved :
      (s : Store) → IsKeyed s → IsReserved env x.id s (reserve_persona_run env x now meanwhile s)
  unfolding reserve_persona_run
  reserve_persona_run-IsReserved s h = reserve_attempts-IsReserved 5 s s h here
