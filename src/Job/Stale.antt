-- ===== src/Job/Stale.antt =====
-- Heartbeats and the sweep of stale jobs (deaddit/runtime/claim.py).
use deaddit.Prelude.{
  ℕ, ◌+◌, ◌*◌, ◌≤◌, String, ◌≡◌, refl, Bool, true, ◌&&◌, arith, ◌==◌, ==_iff, count_where,
  count_where-update_all, update_where_none, count_where-update_where, count_where-update_le,
  count_where_imp, update_where, List, [], ◌∷◌, some,
}
use deaddit.Job.{Job, Queue}
use deaddit.Job.Claim.{is_claimable, is_stale, requeued, claim_job, heartbeat, sweep_stale_jobs}

-- A sweep leaves no stale job: a second one at the same moment sweeps nothing and changes nothing.
sweep-sweep :
    (minutes now : ℕ) (q : Queue)
    → sweep_stale_jobs minutes now (sweep_stale_jobs minutes now q).1
      ≡ (0, (sweep_stale_jobs minutes now q).1)
unfolding sweep_stale_jobs
sweep-sweep minutes now q =
    let none_left = count_where-update_all (is_stale minutes now) requeued q.jobs (λ j h. refl) in
    rw (none_left, update_where_none (is_stale minutes now) requeued _ none_left)

-- The jobs of one key that a sweep would take.
abbrev pub stale_of : ℕ → ℕ → ℕ → Job → Bool
stale_of job_id minutes now j = (j.id == job_id) && is_stale minutes now j

beat_none :
    (job_id t minutes now : ℕ) (jobs : List Job)
    → now ≤ t + minutes * 60
    → count_where
        (stale_of job_id minutes now)
        (update_where (λ j. j.id == job_id) (λ j. record j { heartbeat_at = some t }) jobs)
      ≡ 0
beat_none job_id t minutes now [] h = refl
beat_none job_id t minutes now (j ∷ js) h = ground (arith, beat_none job_id t minutes now js h)

-- A job whose heartbeat was written at `t` is not stale up to `minutes` minutes later, so that a
-- sweep in that time does not take it from its worker.
pub heartbeat-protects :
    (job_id t minutes now : ℕ) (q : Queue)
    → now ≤ t + minutes * 60
    → count_where (stale_of job_id minutes now) (heartbeat job_id t q).jobs ≡ 0
unfolding heartbeat
heartbeat-protects job_id t minutes now q h = beat_none job_id t minutes now q.jobs h

-- A stale job is claimable again after the sweep: the next worker that claims it wins.
pub sweep-claim :
    (job_id minutes now now' : ℕ) (worker : String) (q : Queue)
    → count_where (λ j. j.id == job_id) q.jobs ≡ 1
    → count_where (stale_of job_id minutes now) q.jobs ≡ 1
    → (claim_job job_id worker now' (sweep_stale_jobs minutes now q).1).0 ≡ true
unfolding claim_job sweep_stale_jobs
sweep-claim job_id minutes now now' worker q unique stale =
    let swept = update_where (is_stale minutes now) requeued q.jobs in
    let least =
      count_where-update_le (stale_of job_id minutes now) (is_stale minutes now)
        (is_claimable job_id) requeued q.jobs (λ j h. (ground arith, ground arith)) in
    let most =
      count_where_imp (is_claimable job_id) (λ j. j.id == job_id) swept (λ j h. ground arith) in
    let same =
      count_where-update_where (is_stale minutes now) (λ j. j.id == job_id) requeued q.jobs
        (λ j h. refl) in
    (==_iff _ 1).1 (omega (arith, least, most, same))
