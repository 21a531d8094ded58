-- ===== src/Job/Execute.antt =====
-- deaddit/jobs.py: creating and executing a job. `generate_personas` and `run_once`, with the release
-- of the manual-run marker around it, are other components; they enter as `Services`.
use deaddit.Prelude.{
  ℕ, ◌+◌, String, Bool, false, ◌||◌, Option, none, some, List, [], ◌∷◌, ◌++◌, ◌==◌, if◌then◌else◌,
  str_eq, first_where, update_where, length,
}
use deaddit.Prelude.Int.{ℤ, pos}
use deaddit.Prelude.Json.{
  Json, null, number, string, array, object, Items, nil, cons, Fields, end, field, find_field,
  is_truthy,
}
use deaddit.Job.{
  Job, JobType, batch_operation, agent_run, pending, running, completed, failed, Queue, Error,
  job_not_found, invalid_type, missing_key, wrong_type, invalid_agent, invalid_intent,
}

-- A call that may raise.
pub data Result {ℓ} (A : Type ℓ) : Type ℓ where
  ok : A → Result A
  raise : Error → Result A

-- The components that a handler calls; each may write the queue. `run_once` stands for the call with
-- the report that the handler makes of the run.
pub record Services : Type 0 where
  pub generate_personas : Fields → Queue → Result Fields × Queue
  pub agent_exists : ℤ → Bool
  pub run_once : ℤ → Option String → Queue → Result Json × Queue

unfoldable pub create_job : JobType → Json → ℤ → Queue → ℕ × Queue
create_job type parameters priority q = (
  q.next_id,
  record {
    jobs =
        q.jobs
        ++ record {
          id = q.next_id;
          type = type;
          status = pending;
          priority = priority;
          progress = 0;
          total_items = 1;
          parameters = parameters;
          result = none;
          error_message = none;
          started_at = none;
          completed_at = none;
          claimed_at = none;
          worker_id = none;
          heartbeat_at = none;
        }
          ∷ [];
    next_id = q.next_id + 1;
  },
)

abbrev pub set_job : ℕ → (Job → Job) → Queue → Queue
set_job job_id f q = record q { jobs = update_where (λ j. j.id == job_id) f q.jobs }

unfoldable pub update_job_progress : ℕ → ℕ → Queue → Queue
update_job_progress job_id progress q = set_job job_id (λ j. record j { progress = progress }) q

-- `JobType(value)`
unfoldable pub parse_type : Json → Result JobType
parse_type (string s) =
    if str_eq s "batch_operation"
    then ok batch_operation
    else if str_eq s "agent_run"
    then ok agent_run
    else raise (invalid_type s)
parse_type _ = raise (invalid_type "")

-- `operation["type"]` and `operation["parameters"]`, in the order of the code.
parse_fields : Option Json → Option Json → Result (JobType × Json)
parse_fields none p = raise (missing_key "type")
parse_fields (some t) p = elim (parse_type t) [
  | raise e ↦ raise e
  | ok type ↦ elim p [ none ↦ raise (missing_key "parameters") | some v ↦ ok (type, v) ]
]

unfoldable pub parse_operation : Json → Result (JobType × Json)
unfolding parse_type parse_fields
parse_operation (object d) = parse_fields (find_field "type" d) (find_field "parameters" d)
parse_operation _ = raise wrong_type

abbrev pub batch_entry : Json → ℕ → Json
batch_entry operation job_id =
    object (field "operation" operation (field "job_id" (number (pos job_id)) end))

abbrev add_result : Json → Result (List Json) → Result (List Json)
add_result entry (ok results) = ok (entry ∷ results)
add_result entry (raise e) = raise e

unfoldable pub run_parsed : Result (JobType × Json) → ℤ → Queue → Result ℕ × Queue
unfolding create_job
run_parsed (raise e) priority q = (raise e, q)
run_parsed (ok (type, parameters)) priority q =
    let (sub_job, q') = create_job type parameters priority q in (ok sub_job, q')

-- One operation: the progress is written first; a bad operation raises before a job is created.
unfoldable pub run_operation : Json → ℕ → ℤ → ℕ → Queue → Result ℕ × Queue
unfolding update_job_progress run_parsed parse_operation
run_operation operation job_id priority i q =
    run_parsed (parse_operation operation) priority (update_job_progress job_id i q)

-- After an operation the loop goes on, or the exception leaves it.
unfoldable pub go_on :
    Json → Result ℕ × Queue → Result (List Json) × Queue → Result (List Json) × Queue
go_on operation (raise e, q) rest = (raise e, q)
go_on operation (ok sub_job, q) (r, q') = (add_result (batch_entry operation sub_job) r, q')

-- The loop over the operations; the results stand in the order of the operations.
unfoldable pub run_operations : Items → ℕ → ℤ → ℕ → Queue → Result (List Json) × Queue
unfolding run_operation go_on
run_operations nil job_id priority i q = (ok [], q)
run_operations (cons operation rest) job_id priority i q =
    let step = run_operation operation job_id priority i q in
    go_on operation step (run_operations rest job_id priority (i + 1) step.1)

-- What `enumerate` runs through: a text or a dict gives texts, which no operation can be.
abbrev pub iterate : Json → Option Items
iterate (array items) = some items
iterate (string s) = some (if str_eq s "" then nil else cons (string s) nil)
iterate (object end) = some nil
iterate (object (field k v d)) = some (cons (string k) nil)
iterate _ = none

abbrev pub to_items : List Json → Items
to_items [] = nil
to_items (v ∷ vs) = cons v (to_items vs)

-- `{"batch_results": results, "count": len(results)}`
abbrev pub batch_result : List Json → Json
batch_result results = object (
    field "batch_results" (array (to_items results))
      (field "count" (number (pos (length results))) end))

unfoldable pub finish_batch : Result (List Json) × Queue → Result Json × Queue
finish_batch (ok results, q) = (ok (batch_result results), q)
finish_batch (raise e, q) = (raise e, q)

-- `params.get("operations", [])`
unfoldable pub run_batch : Option Json → ℕ → ℤ → Queue → Result Json × Queue
unfolding run_operations finish_batch
run_batch none job_id priority q = (ok (batch_result []), q)
run_batch (some v) job_id priority q = elim (iterate v) [
  | none ↦ (raise wrong_type, q)
  | some items ↦ finish_batch (run_operations items job_id priority 0 q)
]

abbrev as_fields : Json → Option Fields
as_fields (object d) = some d
as_fields _ = none

-- `job.parameters or {}`; only a dict has `get`.
abbrev pub params_of : Json → Option Fields
params_of v = if is_truthy v then as_fields v else some end

abbrev pub is_text : String → Option Json → Bool
is_text s (some (string t)) = str_eq t s
is_text s _ = false

unfoldable pub finish_personas : Result Fields × Queue → Result Json × Queue
finish_personas (ok result, q) =
    (ok (object (field "operation" (string "persona_generation") result)), q)
finish_personas (raise e, q) = (raise e, q)

-- The intents that a manual run may ask for; `none` is an intent that is not one of them.
abbrev pub parse_intent : Option Json → Option (Option String)
parse_intent none = some none
parse_intent (some null) = some none
parse_intent (some (string s)) =
    if str_eq s "image" || str_eq s "website" then some (some s) else none
parse_intent (some v) = none

-- The two ends of the `try`: both re-fetch the row by its key. The exception is raised again.
unfoldable pub finish_job : ℕ → ℕ → Result Json × Queue → Result Json × Queue
finish_job job_id now (ok result, q) = (
  ok result,
  set_job job_id
      (λ j. record j {
        status = completed;
        completed_at = some now;
        progress = j.total_items;
        result = some result;
      })
      q,
)
finish_job job_id now (raise e, q) = (
  raise e,
  set_job job_id
      (λ j. record j { status = failed; completed_at = some now; error_message = some e }) q,
)

abbrev pub started : ℕ → Job → Job
started now j = record j { status = running; started_at = some now }

module _ (services : Services) where
  unfoldable pub batch_of : Fields → ℕ → ℤ → Queue → Result Json × Queue
  unfolding run_batch finish_personas
  batch_of params job_id priority q =
      if is_text "persona_generation" (find_field "operation" params)
      then finish_personas (services.generate_personas params q)
      else run_batch (find_field "operations" params) job_id priority q

  unfoldable pub execute_batch_operation : Job → Queue → Result Json × Queue
  unfolding batch_of
  execute_batch_operation job q = elim (params_of job.parameters) [
    | none ↦ (raise wrong_type, q)
    | some params ↦ batch_of params job.id job.priority q
  ]

  unfoldable pub run_agent : ℤ → Option (Option String) → Queue → Result Json × Queue
  run_agent agent_id none q = (raise invalid_intent, q)
  run_agent agent_id (some intent) q =
      if services.agent_exists agent_id
      then services.run_once agent_id intent q
      else (raise invalid_agent, q)

  unfoldable pub agent_of : Option Json → Option (Option String) → Queue → Result Json × Queue
  unfolding run_agent
  agent_of (some (number agent_id)) intent q = run_agent agent_id intent q
  agent_of _ intent q = (raise invalid_agent, q)

  unfoldable pub execute_agent_run : Job → Queue → Result Json × Queue
  unfolding agent_of
  execute_agent_run job q = elim (params_of job.parameters) [
    | none ↦ (raise wrong_type, q)
    | some params ↦
        agent_of (find_field "agent_id" params)
          (parse_intent (find_field "requested_intent" params)) q
  ]

  unfoldable pub dispatch : JobType → Job → Queue → Result Json × Queue
  unfolding execute_batch_operation execute_agent_run
  dispatch batch_operation job q = execute_batch_operation job q
  dispatch agent_run job q = execute_agent_run job q

  -- `now` is the moment of the start and `now'` that of the end.
  unfoldable pub execute_job : ℕ → ℕ → ℕ → Queue → Result Json × Queue
  unfolding dispatch finish_job
  execute_job job_id now now' q = elim (first_where (λ j. j.id == job_id) q.jobs) [
    | none ↦ (raise (job_not_found job_id), q)
    | some job ↦ finish_job job_id now' (dispatch job.type job (set_job job_id (started now) q))
  ]
