-- ===== src/Job/Scenarios.antt =====
-- A queue with a pending persona job and a running job whose worker fell silent.
use deaddit.Prelude.{
  ◌≡◌, ◌≤◌, ◌+◌, refl, some, none, true, false, List, [], ◌∷◌, arith, count_where,
}
use deaddit.Prelude.Int.{pos}
use deaddit.Prelude.Json.{null, number, string, object, end, field}
use deaddit.Job.{Job, Queue, batch_operation, agent_run, pending, running}
use deaddit.Job.Claim.{claim_job, heartbeat, sweep_stale_jobs}
use deaddit.Job.Execute.{Services, ok, execute_job}
use deaddit.Job.Exclusive.{winners, claim_job-exclusive}
use deaddit.Job.Poll.{poll_once}
use deaddit.Job.Once.{Round, handed, poll_once-once}
use deaddit.Job.Stale.{stale_of, heartbeat-protects, sweep-claim}
use deaddit.Job.Outcome.{KeepsRows, EndsAs, execute_job-EndsAs}

abbrev waiting : Job
waiting = record {
  id = 1;
  type = agent_run;
  status = pending;
  priority = pos 5;
  progress = 0;
  total_items = 1;
  parameters =
      object (field "agent_id" (number (pos 4)) (field "requested_intent" (string "image") end));
  result = none;
  error_message = none;
  started_at = none;
  completed_at = none;
  claimed_at = none;
  worker_id = none;
  heartbeat_at = none;
}

abbrev silent : Job
silent = record {
  id = 2;
  type = batch_operation;
  status = running;
  priority = pos 9;
  progress = 0;
  total_items = 1;
  parameters = null;
  result = none;
  error_message = none;
  started_at = some 100;
  completed_at = none;
  claimed_at = some 100;
  worker_id = some "w1";
  heartbeat_at = some 160;
}

abbrev two_jobs : Queue
two_jobs = record { jobs = waiting ∷ silent ∷ []; next_id = 3 }

-- Services that leave the queue alone.
abbrev quiet_services : Services
quiet_services = record {
  generate_personas = λ params q. (ok params, q);
  agent_exists = λ agent. true;
  run_once = λ agent intent q. (ok (string "run"), q);
}

quiet_services_keep : KeepsRows quiet_services
quiet_services_keep = record { personas = λ k params q h. h; run = λ k agent intent q h. h }

claim_job-exclusive_example :
    winners 1 (("w1", 1000) ∷ ("w2", 1000) ∷ ("w1", 1001) ∷ []) two_jobs ≡ "w1" ∷ []
claim_job-exclusive_example =
    claim_job-exclusive 1 "w1" 1000 (("w2", 1000) ∷ ("w1", 1001) ∷ []) two_jobs refl

sweep_test : (sweep_stale_jobs 5 1000 two_jobs).0 ≡ 1
unfolding sweep_stale_jobs
sweep_test = refl

heartbeat-protects_example : count_where (stale_of 2 5 1000) (heartbeat 2 900 two_jobs).jobs ≡ 0
heartbeat-protects_example = heartbeat-protects 2 900 5 1000 two_jobs (omega arith)

sweep-claim_example : (claim_job 2 "w2" 1001 (sweep_stale_jobs 5 1000 two_jobs).1).0 ≡ true
sweep-claim_example = sweep-claim 2 5 1000 1001 "w2" two_jobs refl refl

execute_job-EndsAs_example : EndsAs 1 1060 (execute_job quiet_services 1 1000 1060 two_jobs)
execute_job-EndsAs_example =
    execute_job-EndsAs quiet_services 1 1000 1060 two_jobs quiet_services_keep (waiting, refl)

abbrev two_rounds : List Round
two_rounds = ("w1", (λ n. false), (λ n. 1000 + n)) ∷ ("w2", (λ n. false), (λ n. 1002 + n)) ∷ []

poll_once-once_example : handed 1 two_rounds two_jobs ≤ 1
poll_once-once_example = poll_once-once 1 two_rounds two_jobs (omega arith)

handed_test : handed 1 two_rounds two_jobs ≡ 1
unfolding handed poll_once claim_job
handed_test = refl
