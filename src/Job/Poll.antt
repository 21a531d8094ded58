-- ===== src/Job/Poll.antt =====
-- `_poll_once` and `_lane_for` of deaddit/runtime/runner.py: one round of the poller.
use deaddit.Prelude.{
  ℕ, ◌+◌, String, Bool, ◌&&◌, ◌||◌, not, List, [], ◌∷◌, leb, if◌then◌else◌, select,
}
use deaddit.Prelude.Int.{ℤ, pos, ltb_ℤ, eq_ℤ}
use deaddit.Job.{Job, Queue, is_pending}
use deaddit.Job.Claim.{claim_job}

pub data Lane : Type 0 where
  high_priority low_priority default : Lane

unfoldable pub lane_for : ℤ → Lane
lane_for priority =
    if not (ltb_ℤ priority (pos 8))
    then high_priority
    else if not (ltb_ℤ (pos 3) priority)
    then low_priority
    else default

-- `ORDER BY priority DESC, id ASC`
abbrev pub before : Job → Job → Bool
before a b = ltb_ℤ b.priority a.priority || (eq_ℤ a.priority b.priority && leb a.id b.id)

abbrev pub insert_job : Job → List Job → List Job
insert_job j [] = j ∷ []
insert_job j (k ∷ ks) = let rest = insert_job j ks in if before j k then j ∷ k ∷ ks else k ∷ rest

abbrev pub order_jobs : List Job → List Job
order_jobs [] = []
order_jobs (j ∷ js) = insert_job j (order_jobs js)

-- What is handed to the executor of a lane.
pub record Submission : Type 0 where
  pub job_id : ℕ
  pub lane : Lane

-- The loop over the selected rows. `stops` is what the stop event shows before each row, and `clock`
-- the moment of each claim; the rows left after a stop are not claimed.
unfoldable pub claim_rows :
    String → List Job → (ℕ → Bool) → (ℕ → ℕ) → ℕ → Queue → List Submission × Queue
claim_rows worker [] stops clock n q = ([], q)
claim_rows worker (row ∷ rows) stops clock n q =
    let go : List Submission × Queue =
      (let (won, q') = claim_job row.id worker (clock n) q in
        let (rest, q'') = claim_rows worker rows stops clock (n + 1) q' in
        (
          (if won then record { job_id = row.id; lane = lane_for row.priority } ∷ rest else rest),
          q'',
        )) in
    if stops n then ([], q) else go

unfoldable pub poll_once : String → (ℕ → Bool) → (ℕ → ℕ) → Queue → List Submission × Queue
unfolding claim_rows lane_for
poll_once worker stops clock q =
    claim_rows worker (order_jobs (select (λ j. is_pending j.status) q.jobs)) stops clock 0 q
