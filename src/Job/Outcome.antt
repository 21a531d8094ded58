-- ===== src/Job/Outcome.antt =====
-- How `execute_job` of deaddit/jobs.py leaves the row of its job.
use deaddit.Prelude.{
  ℕ, ◌+◌, String, ◌≡◌, refl, inl, inr, Option, none, some, List, ◌==◌, Bool-cases, Option-cases,
  first_where, first_where-update_self, first_where-update_other, first_where-append,
}
use deaddit.Prelude.Int.{ℤ}
use deaddit.Prelude.Json.{Json, Items, nil, cons, Fields, find_field, number}
use deaddit.Job.{Job, JobType, batch_operation, agent_run, completed, failed, Queue}
use deaddit.Job.Execute.{
  Result, ok, raise, Services, create_job, set_job, update_job_progress, parse_operation,
  run_parsed, run_operation, go_on, run_operations, finish_batch, run_batch, iterate, params_of,
  is_text, finish_personas, batch_of, execute_batch_operation, parse_intent, run_agent, agent_of,
  execute_agent_run, dispatch, finish_job, started, execute_job,
}

abbrev pub HasRow : ℕ → Queue → Type 0
HasRow k q = (j : Job) × (first_where (λ j. j.id == k) q.jobs ≡ some j)

-- The services do not delete the row of the job that is executed.
pub record KeepsRows (services : Services) : Type 0 where
  pub personas :
      (k : ℕ) (params : Fields) (q : Queue)
      → HasRow k q
      → HasRow k (services.generate_personas params q).1
  pub run :
      (k : ℕ) (agent : ℤ) (intent : Option String) (q : Queue)
      → HasRow k q
      → HasRow k (services.run_once agent intent q).1

set_job-HasRow :
    (k i : ℕ) (f : Job → Job) (q : Queue)
    → ((j : Job) → (f j).id ≡ j.id)
    → HasRow k q
    → HasRow k (set_job i f q)
set_job-HasRow k i f q same (j, e) =
    first_where-update_other (λ j. j.id == i) (λ j. j.id == k) f q.jobs j (λ x. rw (same x)) e

create_job-HasRow :
    (k : ℕ) (type : JobType) (parameters : Json) (priority : ℤ) (q : Queue)
    → HasRow k q
    → HasRow k (create_job type parameters priority q).1
unfolding create_job
create_job-HasRow k type parameters priority q (j, e) =
    (j, first_where-append (λ j. j.id == k) q.jobs _ j e)

run_parsed-HasRow :
    (k : ℕ) (parsed : Result (JobType × Json)) (priority : ℤ) (q : Queue)
    → HasRow k q
    → HasRow k (run_parsed parsed priority q).1
unfolding run_parsed
run_parsed-HasRow k (raise e) priority q h = h
run_parsed-HasRow k (ok (type, parameters)) priority q h =
    create_job-HasRow k type parameters priority q h

run_operation-HasRow :
    (k : ℕ) (operation : Json) (job_id : ℕ) (priority : ℤ) (i : ℕ) (q : Queue)
    → HasRow k q
    → HasRow k (run_operation operation job_id priority i q).1
unfolding run_operation
run_operation-HasRow k operation job_id priority i q h =
    run_parsed-HasRow k (parse_operation operation) priority (update_job_progress job_id i q)
      (set_job-HasRow k job_id (λ j. record j { progress = i }) q (λ j. refl) h)

go_on-HasRow :
    (k : ℕ) (operation : Json) (step : Result ℕ × Queue) (rest : Result (List Json) × Queue)
    → HasRow k step.1
    → HasRow k rest.1
    → HasRow k (go_on operation step rest).1
unfolding go_on
go_on-HasRow k operation (raise e, q) rest h h' = h
go_on-HasRow k operation (ok sub_job, q) (r, q') h h' = h'

run_operations-HasRow :
    (k : ℕ) (items : Items) (job_id : ℕ) (priority : ℤ) (i : ℕ) (q : Queue)
    → HasRow k q
    → HasRow k (run_operations items job_id priority i q).1
unfolding run_operations
run_operations-HasRow k nil job_id priority i q h = h
run_operations-HasRow k (cons operation rest) job_id priority i q h =
    let step = run_operation operation job_id priority i q in
    let h' = run_operation-HasRow k operation job_id priority i q h in
    go_on-HasRow k operation step (run_operations rest job_id priority (i + 1) step.1) h'
      (run_operations-HasRow k rest job_id priority (i + 1) step.1 h')

finish_batch-HasRow :
    (k : ℕ) (r : Result (List Json) × Queue) → HasRow k r.1 → HasRow k (finish_batch r).1
unfolding finish_batch
finish_batch-HasRow k (ok results, q) h = h
finish_batch-HasRow k (raise e, q) h = h

run_batch-HasRow :
    (k : ℕ) (operations : Option Json) (job_id : ℕ) (priority : ℤ) (q : Queue)
    → HasRow k q
    → HasRow k (run_batch operations job_id priority q).1
unfolding run_batch
run_batch-HasRow k none job_id priority q h = h
run_batch-HasRow k (some v) job_id priority q h = elim (Option-cases (iterate v)) [
  | inl bad ↦ rw (bad, run_batch) h
  | inr (items, e) ↦
      rw (e, run_batch)
        (finish_batch-HasRow k (run_operations items job_id priority 0 q)
          (run_operations-HasRow k items job_id priority 0 q h))
]

finish_personas-HasRow :
    (k : ℕ) (r : Result Fields × Queue) → HasRow k r.1 → HasRow k (finish_personas r).1
unfolding finish_personas
finish_personas-HasRow k (ok v, q) h = h
finish_personas-HasRow k (raise e, q) h = h

module _ (services : Services) (keeps : KeepsRows services) (k : ℕ) where
  batch-HasRow :
      (job : Job) (q : Queue) → HasRow k q → HasRow k (execute_batch_operation services job q).1
  unfolding execute_batch_operation batch_of
  batch-HasRow job q h = elim (Option-cases (params_of job.parameters)) [
    | inl bad ↦ rw (bad, execute_batch_operation) h
    | inr (params, e) ↦
        elim (Bool-cases (is_text "persona_generation" (find_field "operation" params))) [
          | inl t ↦
              rw (e, execute_batch_operation, t, batch_of)
                (finish_personas-HasRow k (services.generate_personas params q)
                  (keeps.personas k params q h))
          | inr f ↦
              rw (e, execute_batch_operation, f, batch_of)
                (run_batch-HasRow k (find_field "operations" params) job.id job.priority q h)
        ]
  ]

  run_agent-HasRow :
      (agent : ℤ) (intent : Option (Option String)) (q : Queue)
      → HasRow k q
      → HasRow k (run_agent services agent intent q).1
  unfolding run_agent
  run_agent-HasRow agent none q h = h
  run_agent-HasRow agent (some intent) q h = elim (Bool-cases (services.agent_exists agent)) [
    | inl t ↦ rw (t, run_agent) (keeps.run k agent intent q h)
    | inr f ↦ rw (f, run_agent) h
  ]

  agent_of-HasRow :
      (agent : Option Json) (intent : Option (Option String)) (q : Queue)
      → HasRow k q
      → HasRow k (agent_of services agent intent q).1
  unfolding agent_of
  agent_of-HasRow (some (number agent)) intent q h = run_agent-HasRow agent intent q h
  agent_of-HasRow _ intent q h = h

  agent_run-HasRow :
      (job : Job) (q : Queue) → HasRow k q → HasRow k (execute_agent_run services job q).1
  unfolding execute_agent_run
  agent_run-HasRow job q h = elim (Option-cases (params_of job.parameters)) [
    | inl bad ↦ rw (bad, execute_agent_run) h
    | inr (params, e) ↦
        rw (e, execute_agent_run)
          (agent_of-HasRow (find_field "agent_id" params)
            (parse_intent (find_field "requested_intent" params)) q h)
  ]

  dispatch-HasRow :
      (type : JobType) (job : Job) (q : Queue)
      → HasRow k q
      → HasRow k (dispatch services type job q).1
  unfolding dispatch
  dispatch-HasRow batch_operation job q h = batch-HasRow job q h
  dispatch-HasRow agent_run job q h = agent_run-HasRow job q h

-- The row of a job after its execution, by how that ended.
abbrev pub EndsAs : ℕ → ℕ → Result Json × Queue → Type 0
EndsAs k now (ok v, q) =
    (j : Job) × (first_where (λ j. j.id == k) q.jobs ≡ some j)
    × (j.status ≡ completed)
    × (j.result ≡ some v)
    × (j.progress ≡ j.total_items)
    × (j.completed_at ≡ some now)
EndsAs k now (raise e, q) =
    (j : Job) × (first_where (λ j. j.id == k) q.jobs ≡ some j)
    × (j.status ≡ failed)
    × (j.error_message ≡ some e)
    × (j.completed_at ≡ some now)

finish_job-EndsAs :
    (k now : ℕ) (r : Result Json × Queue) → HasRow k r.1 → EndsAs k now (finish_job k now r)
unfolding finish_job
finish_job-EndsAs k now (ok v, q) (j, e) =
    (_, first_where-update_self (λ j. j.id == k) _ q.jobs j (λ x h. h) e, refl, refl, refl, refl)
finish_job-EndsAs k now (raise e, q) (j, f) =
    (_, first_where-update_self (λ j. j.id == k) _ q.jobs j (λ x h. h) f, refl, refl, refl)

-- Executing a job that is in the queue always ends it: where the handler returns, the row is
-- completed with the result and full progress, and where it raises, the row is failed with
-- the error, which is raised again. The other components are assumed not to delete job rows.
pub execute_job-EndsAs :
    (services : Services) (k now now' : ℕ) (q : Queue)
    → KeepsRows services
    → HasRow k q
    → EndsAs k now' (execute_job services k now now' q)
unfolding execute_job
execute_job-EndsAs services k now now' q keeps (job, e) =
    rw (e, execute_job)
      (finish_job-EndsAs k now' _ (
        dispatch-HasRow services keeps k job.type job (set_job k (started now) q)
          (set_job-HasRow k k (started now) q (λ j. refl) (job, e))))
