-- ===== src/Run/Writes.antt =====
-- The writes of deaddit/agents/loop.py, deaddit/runtime/wakes.py and deaddit/jobs.py that have no
-- condition on the status in their statements.
use deaddit.Prelude.{
  ◌≡◌, refl, sym, subst, ℕ, Bool, true, false, ◌==◌, ==_iff, String, List, arith, All-imp,
  count_where, count_where-update_where, update_where, update_where-All,
}
use deaddit.Prelude.Json.{Json}
use deaddit.Run.{AgentRun, Agent, AgentStatus, Store, is_active}
use deaddit.Run.Lifecycle.{is_of_agent, is_of_persona}
use deaddit.Run.Reservation.{has_run}
use deaddit.Run.Ends.{annotate, annotate_run}
use deaddit.Run.Wake.{write_agent, with_status, rescheduled, delayed}
use deaddit.Run.Owned.{IsInStep, IsOwned, IsRelease, has_key, runs_of}

released-IsInStep :
    (a : ℕ) (g : Agent → Agent) (runs : List AgentRun) (x : Agent)
    → IsRelease g
    → runs_of a runs ≡ 0
    → (x.id == a) ≡ true
    → IsInStep runs (g x)
released-IsInStep a g runs x release none_left e =
    let same : runs_of x.id runs ≡ 0 =
      subst (λ b. runs_of b runs ≡ 0) (sym ((==_iff x.id a).0 e)) none_left in
    let key = release.id x in let off = release.status x in simp (key, off) same

-- An agent that has no run may be given any status but the active one.
released-IsOwned :
    (a : ℕ) (g : Agent → Agent) (s : Store)
    → IsRelease g
    → has_run a s ≡ false
    → IsOwned s
    → IsOwned (write_agent a g s)
released-IsOwned a g s release e h = record {
  agents =
      update_where-All (IsInStep s.runs) (IsInStep s.runs) (λ x. x.id == a) g s.agents
        (λ x q i. released-IsInStep a g s.runs x release (ground arith) q) (λ x q i. i) h.agents;
  personas = h.personas;
  keys = h.keys;
  fresh = h.fresh;
}

pub rescheduled-IsOwned :
    (a now seconds : ℕ) (s : Store)
    → has_run a s ≡ false
    → IsOwned s
    → IsOwned (write_agent a (rescheduled now seconds) s)
rescheduled-IsOwned a now seconds s e h =
    released-IsOwned a (rescheduled now seconds) s (record { id = λ x. refl; status = λ x. refl }) e
      h

pub with_status-IsOwned :
    (a : ℕ) (status : AgentStatus) (s : Store)
    → has_run a s ≡ false
    → is_active status ≡ false
    → IsOwned s
    → IsOwned (write_agent a (with_status status) s)
with_status-IsOwned a status s e off h =
    released-IsOwned a (with_status status) s (record { id = λ x. refl; status = λ x. off }) e h

pub delayed-IsOwned : (a t : ℕ) (s : Store) → IsOwned s → IsOwned (write_agent a (delayed t) s)
delayed-IsOwned a t s h = record {
  agents =
      update_where-All (IsInStep s.runs) (IsInStep s.runs) (λ x. x.id == a) (delayed t) s.agents
        (λ x q i. i) (λ x q i. i) h.agents;
  personas = h.personas;
  keys = h.keys;
  fresh = h.fresh;
}

-- A test that does not read the two columns finds as many runs as before.
pub annotated-count :
    (test : AgentRun → Bool) (k : ℕ) (i : String) (m : Json) (runs : List AgentRun)
    → ((r : AgentRun) → test (annotate i m r) ≡ test r)
    → count_where test (update_where (λ r. r.id == k) (annotate i m) runs) ≡ count_where test runs
annotated-count test k i m runs same =
    count_where-update_where (λ r. r.id == k) test (annotate i m) runs (λ r h. same r)

pub annotate_run-IsOwned :
    (k : ℕ) (i : String) (m : Json) (s : Store) → IsOwned s → IsOwned (annotate_run k i m s)
unfolding annotate_run
annotate_run-IsOwned k i m s h = record {
  agents =
      All-imp (IsInStep s.runs) _ s.agents
        (λ x e. (let n = annotated-count (is_of_agent x.id) k i m s.runs (λ r. refl) in rw (n) e))
        h.agents;
  personas = λ p.
      (let n = annotated-count (is_of_persona p) k i m s.runs (λ r. refl) in
        let one = h.personas p in omega (arith, n, one));
  keys = λ j.
      (let n = annotated-count (has_key j) k i m s.runs (λ r. refl) in
        let one = h.keys j in omega (arith, n, one));
  fresh =
      update_where-All _ _ (λ r. r.id == k) (annotate i m) s.runs (λ r q b. b) (λ r q b. b) h.fresh;
}
