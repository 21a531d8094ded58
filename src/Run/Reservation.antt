-- ===== src/Run/Reservation.antt =====
-- Reserving a run: deaddit/agents/loop.py.
use deaddit.Prelude.{
  ℕ, zero, suc, ◌+◌, String, Bool, not, ◌&&◌, Option, none, some, [], ◌∷◌, ◌++◌, ◌==◌,
  if◌then◌else◌, count_where, update_where,
}
use deaddit.Run.{running, active, AgentRun, Agent, Store}
use deaddit.Run.Persona.{select_persona}
use deaddit.Run.Lifecycle.{Env, is_of_persona, is_of_agent}

pub data Refusal : Type 0 where
  in_progress no_persona no_attempt_left : Refusal

pub data Reservation : Type 0 where
  reserved : ℕ → Reservation
  refused : Refusal → Reservation

abbrev pub new_run : ℕ → ℕ → String → ℕ → AgentRun
new_run k a persona now = record {
  id = k;
  agent_id = a;
  persona_username = persona;
  status = running;
  started_at = now;
  finished_at = none;
  turn_count = 0;
  action_count = 0;
  token_usage = none;
  error_message = none;
  intent = none;
  prompt_metadata = none;
}

-- The partial unique indexes on the running runs.
abbrev pub is_unique : ℕ → String → Store → Bool
is_unique a persona s =
    count_where (is_of_agent a) s.runs == 0 && count_where (is_of_persona persona) s.runs == 0

abbrev pub insert_run : ℕ → String → ℕ → Store → Store
insert_run a persona now s = record s {
  runs = s.runs ++ new_run s.next_run a persona now ∷ [];
  next_run = s.next_run + 1;
  agents = update_where (λ x. x.id == a) (λ x. record x { status = active }) s.agents;
}

abbrev pub has_run : ℕ → Store → Bool
has_run a s = not (count_where (is_of_agent a) s.runs == 0)

-- The commit of an attempt, on the rows as the other workers have left them; `again` is the next
-- attempt, after the rollback of an IntegrityError.
abbrev pub commit_run : ℕ → String → ℕ → (Store → Reservation × Store) → Store → Reservation × Store
commit_run a persona now again s =
    if is_unique a persona s
    then (reserved s.next_run, insert_run a persona now s)
    else if has_run a s
    then (refused in_progress, s)
    else again s

abbrev pub with_persona :
    ℕ
    → ℕ
    → (Store → Store)
    → (Store → Reservation × Store)
    → Store
    → Option String
    → Reservation × Store
with_persona a now meanwhile again s none = (refused no_persona, s)
with_persona a now meanwhile again s (some persona) = commit_run a persona now again (meanwhile s)

-- `n` attempts are left; `meanwhile n` is what the other workers do before the commit of the attempt.
unfoldable pub reserve_attempts :
    Env → Agent → ℕ → (ℕ → Store → Store) → ℕ → Store → Reservation × Store
unfolding select_persona
reserve_attempts env a now meanwhile zero s = (refused no_attempt_left, s)
reserve_attempts env a now meanwhile (suc n) s =
    let rest =
      with_persona a.id now (meanwhile n) (reserve_attempts env a now meanwhile n) s
        (select_persona env.choose a s) in
    if has_run a.id s then (refused in_progress, s) else rest

abbrev pub reservation_attempts : ℕ
reservation_attempts = 5

unfoldable pub reserve_persona_run :
    Env → Agent → ℕ → (ℕ → Store → Store) → Store → Reservation × Store
unfolding reserve_attempts
reserve_persona_run env a now meanwhile s =
    reserve_attempts env a now meanwhile reservation_attempts s
