-- ===== src/Run/Whole.antt =====
-- `run_once` of deaddit/agents/loop.py as a sequence of a worker's steps.
use deaddit.Prelude.{
  ◌≡◌, refl, ℕ, String, Bool, true, false, not, ◌&&◌, Option, none, some, ◌==◌, Bool-cases, inl,
  inr, first_where,
}
use deaddit.Run.{Agent, Store}
use deaddit.Run.Loop.{Exit, stopped, done, failed, Progress}
use deaddit.Run.Lifecycle.{Env, recover_stale_runs}
use deaddit.Run.Reservation.{Reservation, reserved, refused, has_run}
use deaddit.Run.Ends.{
  as_failed, as_completed, failed_agent, completed_agent, fail, complete_run, annotate_run, Counts,
}
use deaddit.Run.Owned.{BelongsTo}
use deaddit.Run.Keeps.{as_failed-IsClosing, as_completed-IsClosing}
use deaddit.Run.Keyed.{IsKeyed}
use deaddit.Run.Steps.{
  annotating, failing, completing, recovering, delaying, Reach, here, further, Reach-trans,
  Reach-IsKeyed,
}
use deaddit.Run.Reserve.{IsReserved, reserve_persona_run-IsReserved}
use deaddit.Run.Once.{
  Preparation, unprepared, prepared, with_preparation, Around, Result, finished, counts_of,
  no_counts, end_visit, with_reservation, with_recovered, with_agent, run_once,
}
use deaddit.Run.Held.{HasRun, Reach-HasRun, HasRun-BelongsTo, IsOff, close-IsOff}

-- What the visit and its preparation keep to: the other workers make their own steps in their time, and
-- the loop says that it was stopped only where its run is not running.
pub record IsVisit (env : Env) (around : Around) : Type 0 where
  pub prepares : (k : ℕ) (s : Store) → Reach env s (around.prepare k s).1
  pub visits : (k : ℕ) (s : Store) → Reach env s (around.visit k s).2
  pub stops : (k : ℕ) (s : Store) → (around.visit k s).0 ≡ stopped → IsOff k (around.visit k s).2

module _ (env : Env) (around : Around) (k a : ℕ) where
  end_visit-Reach :
      (v : Exit) (p : Progress) (s : Store)
      → BelongsTo k a s.runs
      → Reach env s (end_visit around k a (v, p, s))
  end_visit-Reach stopped p s own = here
  end_visit-Reach done p s own =
      further here (completing around.end_at around.delay k a (counts_of p) own refl)
  end_visit-Reach (failed m strike) p s own =
      further here (failing around.end_at k a (counts_of p) m strike own refl)

  fail-IsOff :
      (c : Counts) (m : String) (strike : Bool) (s : Store)
      → IsOff k (fail around.end_at k a c m strike s)
  unfolding fail
  fail-IsOff c m strike s =
      close-IsOff (as_failed around.end_at c m) (as_failed-IsClosing around.end_at c m) k a
        (failed_agent around.end_at strike) s

  end_visit-IsOff :
      (v : Exit) (p : Progress) (s : Store)
      → (v ≡ stopped → IsOff k s)
      → IsOff k (end_visit around k a (v, p, s))
  unfolding complete_run
  end_visit-IsOff stopped p s h = h refl
  end_visit-IsOff done p s h =
      close-IsOff (as_completed around.end_at (counts_of p))
        (as_completed-IsClosing around.end_at (counts_of p)) k a
        (completed_agent around.end_at around.delay) s
  end_visit-IsOff (failed m strike) p s h = fail-IsOff (counts_of p) m strike s

-- The run that is returned is not running any more.
abbrev pub HasEnded : Result × Store → Type 0
HasEnded (finished k, t) = IsOff k t
HasEnded (r, t) = Unit

-- What the whole of `run_once` promises: it only makes a worker's steps, and the run that it returns
-- is not running any more.
pub record IsRun (env : Env) (s : Store) (result : Result × Store) : Type 0 where
  pub reach : Reach env s result.1
  pub off : HasEnded result

module _ (env : Env) (around : Around) (scheduled : Bool)
    (others : (n : ℕ) (u : Store) → Reach env u (around.meanwhile n u))
    (late : (u : Store) → Reach env u (around.before_backoff u)) (visit : IsVisit env around)
    (s : Store) (keyed : IsKeyed s) where
  refused-IsRun :
      (a : ℕ) (r : _) (t : Store)
      → Reach env s t
      → IsRun env s (with_reservation around scheduled a (refused r, t))
  refused-IsRun a r t reach = elim (Bool-cases (scheduled && not (has_run a t))) [
    | inl y ↦ simp (y) (record {
      reach =
          further (Reach-trans env s t (around.before_backoff t) reach (late t))
            (delaying a around.reserve_at refl);
      off = tt;
    })
    | inr n ↦ simp (n) (record { reach = reach; off = tt })
  ]

  Reach-BelongsTo :
      (a k : ℕ) (t u : Store) → Reach env s t → HasRun k a t → Reach env t u → BelongsTo k a u.runs
  Reach-BelongsTo a k t u reach r more =
      let keyed' : IsKeyed t = Reach-IsKeyed env s t reach keyed in
      HasRun-BelongsTo k a u (Reach-IsKeyed env t u more keyed')
        (Reach-HasRun env k a t u keyed' more r)

  prepared-IsRun :
      (a k : ℕ) (v : Preparation) (t u : Store)
      → Reach env s t
      → HasRun k a t
      → Reach env t u
      → IsRun env s (finished k, with_preparation around k a (v, u))
  prepared-IsRun a k (unprepared m) t u reach r more = record {
    reach =
        further (Reach-trans env s t u reach more)
          (failing around.end_at k a no_counts m false (Reach-BelongsTo a k t u reach r more) refl);
    off = fail-IsOff env around k a no_counts m false u;
  }
  prepared-IsRun a k (prepared i m) t u reach r more =
      let written : Store = annotate_run k i m u in
      let after : Store = (around.visit k written).2 in
      let there : Reach env t after =
        Reach-trans env t written after (further more (annotating k i m refl))
          (visit.visits k written) in
      record {
        reach = Reach-trans env s after _ (Reach-trans env s t after reach there) (
            end_visit-Reach env around k a (around.visit k written).0 (around.visit k written).1
              after (Reach-BelongsTo a k t after reach r there));
        off =
            end_visit-IsOff env around k a (around.visit k written).0 (around.visit k written).1
              after (visit.stops k written);
      }

  reserved-IsRun :
      (a k : ℕ) (t : Store)
      → Reach env s t
      → HasRun k a t
      → IsRun env s (with_reservation around scheduled a (reserved k, t))
  reserved-IsRun a k t reach r =
      prepared-IsRun a k (around.prepare k t).0 t (around.prepare k t).1 reach r
        (visit.prepares k t)

  reservation-IsRun :
      (a : ℕ) (r : Reservation × Store)
      → IsReserved env a s r
      → IsRun env s (with_reservation around scheduled a r)
  reservation-IsRun a (refused r, t) h = refused-IsRun a r t h.reach
  reservation-IsRun a (reserved k, t) h =
      (let r = h.run in reserved-IsRun a k t h.reach (r.0, r.1, r.2))

module _ (env : Env) (around : Around) (scheduled : Bool)
    (others : (n : ℕ) (u : Store) → Reach env u (around.meanwhile n u))
    (late : (u : Store) → Reach env u (around.before_backoff u)) (visit : IsVisit env around) where
  recovered-IsRun :
      (x : Agent) (has : Bool) (s t : Store)
      → IsKeyed s
      → Reach env s t
      → IsRun env s (with_recovered env around scheduled x (has, t))
  recovered-IsRun x true s t h reach = record { reach = reach; off = tt }
  recovered-IsRun x false s t h reach =
      let keyed : IsKeyed t = Reach-IsKeyed env s t reach h in
      let run =
        reservation-IsRun env around scheduled others late visit t keyed x.id _ (
          reserve_persona_run-IsReserved env x around.reserve_at around.meanwhile others t keyed) in
      record { reach = Reach-trans env s t _ reach run.reach; off = run.off }

  agent-IsRun :
      (o : Option Agent) (s : Store) → IsKeyed s → IsRun env s (with_agent env around scheduled o s)
  agent-IsRun none s h = record { reach = here; off = tt }
  agent-IsRun (some x) s h =
      recovered-IsRun x (recover_stale_runs env x around.recover_at s).0 s
        (recover_stale_runs env x around.recover_at s).1 h
        (further here (recovering x around.recover_at refl))

  -- From rows in which the keys of the runs are different and below the next key, a call of
  -- `run_once` only makes a worker's steps, whatever the other workers do in its time, and the run
  -- whose key it returns is not running afterwards: it was completed, it failed, or it had been taken
  -- from the worker. The other workers make their own steps, and the visit says that it was stopped
  -- only where its run is not running.
  pub run_once-IsRun :
      (a : ℕ) (s : Store) → IsKeyed s → IsRun env s (run_once env around scheduled a s)
  unfolding run_once
  run_once-IsRun a s h = agent-IsRun (first_where (λ x. x.id == a) s.agents) s h
