-- ===== src/Job/Claim.antt =====
-- deaddit/runtime/claim.py: claiming a job, its heartbeat and the sweep of stale jobs.
use deaddit.Prelude.{
  ℕ, ◌+◌, ◌*◌, String, Bool, true, ◌&&◌, Option, none, some, ◌==◌, ltb, count_where, update_where,
}
use deaddit.Job.{Job, Queue, pending, running, is_pending, is_running}

abbrev pub heartbeat_stale_minutes : ℕ
heartbeat_stale_minutes = 5

abbrev pub is_claimable : ℕ → Job → Bool
is_claimable job_id j = j.id == job_id && is_pending j.status

abbrev pub claimed : String → ℕ → Job → Job
claimed worker_id now j = record j {
  status = running;
  started_at = some now;
  claimed_at = some now;
  worker_id = some worker_id;
  heartbeat_at = some now;
}

-- One conditional UPDATE; the caller won if it matched one row.
unfoldable pub claim_job : ℕ → String → ℕ → Queue → Bool × Queue
claim_job job_id worker_id now q = (
  count_where (is_claimable job_id) q.jobs == 1,
  record q { jobs = update_where (is_claimable job_id) (claimed worker_id now) q.jobs },
)

unfoldable pub heartbeat : ℕ → ℕ → Queue → Queue
heartbeat job_id now q = record q {
  jobs = update_where (λ j. j.id == job_id) (λ j. record j { heartbeat_at = some now }) q.jobs;
}

-- `heartbeat_at IS NULL OR heartbeat_at < now - minutes`
abbrev pub beats_late : ℕ → ℕ → Option ℕ → Bool
beats_late minutes now none = true
beats_late minutes now (some t) = ltb (t + minutes * 60) now

abbrev pub is_stale : ℕ → ℕ → Job → Bool
is_stale minutes now j = is_running j.status && beats_late minutes now j.heartbeat_at

abbrev pub requeued : Job → Job
requeued j = record j { status = pending; claimed_at = none; worker_id = none; heartbeat_at = none }

unfoldable pub sweep_stale_jobs : ℕ → ℕ → Queue → ℕ × Queue
sweep_stale_jobs minutes now q = (
  count_where (is_stale minutes now) q.jobs,
  record q { jobs = update_where (is_stale minutes now) requeued q.jobs },
)
