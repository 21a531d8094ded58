-- ===== src/Job.antt =====
-- deaddit/runtime/claim.py, deaddit/runtime/runner.py and deaddit/jobs.py: the job queue of the
-- worker process. A moment is the number of seconds since an epoch, and `now` is what the clock
-- shows when the function reads it.
pub mod Claim
pub mod Poll
pub mod Execute
pub mod Exclusive
pub mod Stale
pub mod Once
pub mod Outcome
mod Scenarios
use deaddit.Prelude.{ℕ, String, Bool, true, false, Option, List}
use deaddit.Prelude.Int.{ℤ}
use deaddit.Prelude.Json.{Json}

pub data JobType : Type 0 where
  batch_operation agent_run : JobType

pub data JobStatus : Type 0 where
  pending running completed failed cancelled : JobStatus

-- The exceptions that a job can end in; a row's `error_message` holds the text of one.
pub data Error : Type 0 where
  job_not_found : ℕ → Error
  invalid_type : String → Error
  missing_key : String → Error
  wrong_type : Error
  invalid_agent : Error
  invalid_intent : Error
  service_error : String → Error

-- A Job row.
pub record Job : Type 0 where
  pub id : ℕ
  pub type : JobType
  pub status : JobStatus
  pub priority : ℤ
  pub progress : ℕ
  pub total_items : ℕ
  pub parameters : Json
  pub result : Option Json
  pub error_message : Option Error
  pub started_at : Option ℕ
  pub completed_at : Option ℕ
  pub claimed_at : Option ℕ
  pub worker_id : Option String
  pub heartbeat_at : Option ℕ

-- The Job table, with the key of the next row.
pub record Queue : Type 0 where
  pub jobs : List Job
  pub next_id : ℕ

abbrev pub is_pending : JobStatus → Bool
is_pending pending = true
is_pending _ = false

abbrev pub is_running : JobStatus → Bool
is_running running = true
is_running _ = false
