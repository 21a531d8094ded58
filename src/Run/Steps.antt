-- ===== src/Run/Steps.antt =====
-- What a worker may do next, of deaddit/agents/loop.py, deaddit/runtime/wakes.py and deaddit/jobs.py,
-- and what any number of workers reach together.
use deaddit.Prelude.{some, refl, ◌≡◌, sym, subst, ℕ, String, Bool, true, false, arith}
use deaddit.Prelude.Json.{Json}
use deaddit.Run.{AgentRun, Agent, AgentStatus, Store, is_active, error}
use deaddit.Run.Lifecycle.{
  Env, owns, close, as_interrupted, as_idle, recover_stale_runs, interrupt_stale_runs,
}
use deaddit.Run.Reservation.{insert_run, is_unique, has_run}
use deaddit.Run.Ends.{
  Counts, as_failed, as_completed, failed_agent, completed_agent, backoff, fail, complete_run,
  backoff_without_strike, annotate_run,
}
use deaddit.Run.Wake.{write_agent, with_status, rescheduled, delayed}
use deaddit.Run.Owned.{IsOwned, BelongsTo, IsClosing, IsRelease, close-IsOwned}
use deaddit.Run.Keeps.{
  fail-IsOwned, complete_run-IsOwned, as_interrupted-IsClosing, as_idle-IsRelease,
  failed_agent-IsRelease, completed_agent-IsRelease, as_failed-IsClosing, as_completed-IsClosing,
}
use deaddit.Run.Moves.{insert_run-IsOwned, backoff_without_strike-IsOwned}
use deaddit.Run.Sweeps.{
  interrupt_stale_runs-IsOwned, recover_stale_runs-IsOwned, recover_stale_runs_keeps,
  interrupt_stale_runs_keeps,
}
use deaddit.Run.Writes.{
  rescheduled-IsOwned, with_status-IsOwned, delayed-IsOwned, annotate_run-IsOwned,
}
use deaddit.Run.Keyed.{IsKeyed, close-IsKeyed, insert_run-IsKeyed, annotate_run-IsKeyed}
use deaddit.Run.Exclusive.{
  IsQuiet, write_agent-IsExclusive, IsExclusive, close-IsExclusive, insert_run-IsExclusive,
  annotate_run-IsExclusive,
}

-- A worker inserts a run that the unique indexes admit, closes a run of the agent that it was given,
-- interrupts one run of an agent that is still running, or sweeps the overdue runs of one agent or of
-- all, at once; where others write in between, the sweep is a sequence of single interruptions. Without
-- a condition on the status it writes the two columns of a run's preparation, delays an agent after a
-- failed reservation (delaying) or by a moment alone (deferring), reschedules a lurker (waking), and
-- gives an agent a status but the active one, such as a manual run that is given up leaves (setting):
-- what the code has read before such a write may have changed.
pub data Move (env : Env) (s t : Store) : Type 0 where
  inserting :
      (a : ℕ) (p : String) (now : ℕ)
      → is_unique a p s ≡ true
      → t ≡ insert_run a p now s
      → Move env s t
  failing :
      (now k a : ℕ) (c : Counts) (m : String) (strike : Bool)
      → BelongsTo k a s.runs
      → t ≡ fail now k a c m strike s
      → Move env s t
  completing :
      (now delay k a : ℕ) (c : Counts)
      → BelongsTo k a s.runs
      → t ≡ complete_run now delay k a c s
      → Move env s t
  interrupting :
      (test : AgentRun → Bool) (now k a : ℕ)
      → ((r : AgentRun) → test r ≡ true → owns k r ≡ true)
      → BelongsTo k a s.runs
      → t ≡ (close test (as_interrupted now) a as_idle s).1
      → Move env s t
  recovering : (x : Agent) (now : ℕ) → t ≡ (recover_stale_runs env x now s).1 → Move env s t
  sweeping : (now : ℕ) → t ≡ (interrupt_stale_runs env now s).1 → Move env s t
  annotating : (k : ℕ) (i : String) (m : Json) → t ≡ annotate_run k i m s → Move env s t
  delaying : (a now : ℕ) → t ≡ backoff_without_strike a now s → Move env s t
  deferring : (a moment : ℕ) → t ≡ write_agent a (delayed moment) s → Move env s t
  waking : (a now seconds : ℕ) → t ≡ write_agent a (rescheduled now seconds) s → Move env s t
  setting :
      (a : ℕ) (status : AgentStatus)
      → is_active status ≡ false
      → t ≡ write_agent a (with_status status) s
      → Move env s t

pub data Reach (env : Env) : Store → Store → Type 0 where
  here : {s : Store} → Reach env s s
  further : {s t u : Store} → Reach env s t → Move env t u → Reach env s u

-- A write of an agent's status without a condition still meets what the code has read before it: no
-- run of the agent is running.
unfoldable pub IsTimely : (env : Env) (s t : Store) → Move env s t → Type 0
IsTimely env s t (delaying a now e) = has_run a s ≡ false
IsTimely env s t (waking a now seconds e) = has_run a s ≡ false
IsTimely env s t (setting a status off e) = has_run a s ≡ false
IsTimely env s t m = Unit

unfoldable pub AreTimely : (env : Env) (s t : Store) → Reach env s t → Type 0
AreTimely env s t here = Unit
AreTimely env s t (further r m) = AreTimely env s _ r × IsTimely env _ t m

Move-IsOwned :
    (env : Env) (s t : Store) (m : Move env s t) → IsTimely env s t m → IsOwned s → IsOwned t
unfolding IsTimely
Move-IsOwned env s t (inserting a p now u e) q h =
    subst IsOwned (sym e) (insert_run-IsOwned a p now s u h)
Move-IsOwned env s t (failing now k a c m strike own e) q h =
    subst IsOwned (sym e) (fail-IsOwned now k a c m strike s own h)
Move-IsOwned env s t (completing now delay k a c own e) q h =
    subst IsOwned (sym e) (complete_run-IsOwned now delay k a c s own h)
Move-IsOwned env s t (interrupting test now k a only own e) q h = subst IsOwned (sym e) (
    close-IsOwned test (as_interrupted now) (as_interrupted-IsClosing now) as_idle as_idle-IsRelease
      k a s only own h)
Move-IsOwned env s t (recovering x now e) q h =
    subst IsOwned (sym e) (recover_stale_runs-IsOwned env x now s h)
Move-IsOwned env s t (sweeping now e) q h =
    subst IsOwned (sym e) (interrupt_stale_runs-IsOwned env now s h)
Move-IsOwned env s t (annotating k i m e) q h =
    subst IsOwned (sym e) (annotate_run-IsOwned k i m s h)
Move-IsOwned env s t (delaying a now e) q h =
    subst IsOwned (sym e) (backoff_without_strike-IsOwned a now s q h)
Move-IsOwned env s t (deferring a moment e) q h =
    subst IsOwned (sym e) (delayed-IsOwned a moment s h)
Move-IsOwned env s t (waking a now seconds e) q h =
    subst IsOwned (sym e) (rescheduled-IsOwned a now seconds s q h)
Move-IsOwned env s t (setting a status off e) q h =
    subst IsOwned (sym e) (with_status-IsOwned a status s q off h)

write-IsKeyed : (a : ℕ) (g : Agent → Agent) (s : Store) → IsKeyed s → IsKeyed (write_agent a g s)
write-IsKeyed a g s h = record { keys = h.keys; fresh = h.fresh }

backed_off-IsQuiet :
    (now : ℕ) → IsQuiet (λ x. backoff now (record x { status = error; last_run_at = some now }))
backed_off-IsQuiet now = record { id = λ x. ground arith; status = λ x q. ground arith }

-- What closing, inserting, annotating and the writes of an agent alone keep, every step keeps.
module _ (P : Store → Type 0) (keys : (s : Store) → P s → IsKeyed s)
    (closes : (test : AgentRun → Bool) (f : AgentRun → AgentRun)
      → IsClosing f
      → (g : Agent → Agent) → IsRelease g
      → (k a : ℕ) (s : Store) → ((r : AgentRun) → test r ≡ true → owns k r ≡ true)
      → BelongsTo k a s.runs
      → P s
      → P (close test f a g s).1)
    (inserts : (a : ℕ) (p : String) (now : ℕ) (s : Store)
      → is_unique a p s ≡ true
      → P s
      → P (insert_run a p now s))
    (annotates : (k : ℕ) (i : String) (m : Json) (s : Store) → P s → P (annotate_run k i m s))
    (writes : (a : ℕ) (g : Agent → Agent) (s : Store)
      → IsQuiet g
      → P s
      → P (write_agent a g s)) where
  interrupts :
      (test : AgentRun → Bool) (now k a : ℕ) (s : Store)
      → ((r : AgentRun) → test r ≡ true → owns k r ≡ true)
      → BelongsTo k a s.runs
      → P s
      → P (close test (as_interrupted now) a as_idle s).1
  interrupts test now k a s only own h =
      closes test (as_interrupted now) (as_interrupted-IsClosing now) as_idle as_idle-IsRelease k a
        s only own h

  Move_keeps : (env : Env) (s t : Store) → Move env s t → P s → P t
  unfolding fail complete_run backoff_without_strike
  Move_keeps env s t (inserting a p now u e) h = subst P (sym e) (inserts a p now s u h)
  Move_keeps env s t (failing now k a c m strike own e) h = subst P (sym e) (
      closes (owns k) (as_failed now c m) (as_failed-IsClosing now c m) (failed_agent now strike)
        (failed_agent-IsRelease now strike) k a s (λ r o. o) own h)
  Move_keeps env s t (completing now delay k a c own e) h = subst P (sym e) (
      closes (owns k) (as_completed now c) (as_completed-IsClosing now c)
        (completed_agent now delay) (completed_agent-IsRelease now delay) k a s (λ r o. o) own h)
  Move_keeps env s t (interrupting test now k a only own e) h =
      subst P (sym e) (interrupts test now k a s only own h)
  Move_keeps env s t (recovering x now e) h =
      subst P (sym e) (recover_stale_runs_keeps P (λ u q. (keys u q).keys) interrupts env x now s h)
  Move_keeps env s t (sweeping now e) h =
      subst P (sym e) (interrupt_stale_runs_keeps P (λ u q. (keys u q).keys) interrupts env now s h)
  Move_keeps env s t (annotating k i m e) h = subst P (sym e) (annotates k i m s h)
  Move_keeps env s t (delaying a now e) h =
      subst P (sym e) (writes a _ s (backed_off-IsQuiet now) h)
  Move_keeps env s t (deferring a moment e) h =
      subst P (sym e) (writes a (delayed moment) s (record { id = λ x. refl; status = λ x q. q }) h)
  Move_keeps env s t (waking a now seconds e) h = subst P (sym e) (
      writes a (rescheduled now seconds) s
        (record { id = λ x. refl; status = λ x q. absurd (cc q) }) h)
  Move_keeps env s t (setting a status off e) h = subst P (sym e) (
      writes a (with_status status) s
        (record { id = λ x. refl; status = λ x q. absurd (cc (q, off)) }) h)

Move-IsExclusive : (env : Env) (s t : Store) → Move env s t → IsExclusive s → IsExclusive t
Move-IsExclusive =
    Move_keeps IsExclusive (λ s h. h.keyed) close-IsExclusive insert_run-IsExclusive
      annotate_run-IsExclusive write_agent-IsExclusive

-- No step reuses a key.
pub Move-IsKeyed : (env : Env) (s t : Store) → Move env s t → IsKeyed s → IsKeyed t
Move-IsKeyed =
    Move_keeps IsKeyed (λ s h. h)
      (λ test f closing g release k a s only own. close-IsKeyed test f a g s closing)
      (λ a p now s u. insert_run-IsKeyed a p now s) annotate_run-IsKeyed
      (λ a g s q. write-IsKeyed a g s)

pub Reach-IsKeyed : (env : Env) (s t : Store) → Reach env s t → IsKeyed s → IsKeyed t
Reach-IsKeyed env s t here h = h
Reach-IsKeyed env s t (further r m) h = Move-IsKeyed env _ t m (Reach-IsKeyed env s _ r h)

-- Where the unconditional writes meet what the code has read, an agent is active exactly while one run
-- of it is running.
pub Reach-IsOwned :
    (env : Env) (s t : Store) (r : Reach env s t) → AreTimely env s t r → IsOwned s → IsOwned t
unfolding AreTimely
Reach-IsOwned env s t here q h = h
Reach-IsOwned env s t (further r m) q h = Move-IsOwned env _ t m q.1 (Reach-IsOwned env s _ r q.0 h)

-- Any sequence of the steps of Move, whichever workers take them, keeps it that an active agent has
-- exactly one running run, that at most one run of an agent and at most one run of a persona is running, that a run has the moment of its end exactly when it
-- is not running any more, and that the keys of the runs are different and below the next key.
pub Reach-IsExclusive : (env : Env) (s t : Store) → Reach env s t → IsExclusive s → IsExclusive t
Reach-IsExclusive env s t here h = h
Reach-IsExclusive env s t (further r m) h =
    Move-IsExclusive env _ t m (Reach-IsExclusive env s _ r h)

pub Reach-trans : (env : Env) (s t u : Store) → Reach env s t → Reach env t u → Reach env s u
Reach-trans env s t u r here = r
Reach-trans env s t u r (further q m) = further (Reach-trans env s t _ r q) m
