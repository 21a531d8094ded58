-- ===== src/Run.antt =====
-- deaddit/agents/loop.py and deaddit/runtime/wakes.py: the life of an agent's run. The rows are those
-- of Agent, AgentRun, AgentTurn and User of deaddit/models.py, with the columns that the two modules
-- read and write. A moment is the number of seconds since an epoch.
pub mod Config
pub mod Persona
pub mod Lifecycle
pub mod Reservation
pub mod Ends
pub mod Owned
pub mod Keeps
pub mod Sweeps
pub mod Moves
pub mod Writes
pub mod Keyed
pub mod Exclusive
pub mod Steps
pub mod Life
pub mod Frozen
pub mod Reserve
pub mod Eligible
pub mod Loop
pub mod Budget
pub mod Turns
pub mod Once
pub mod Held
pub mod Whole
pub mod Lull
pub mod Wake
pub mod Awake
pub mod Calm
mod Scenarios
use deaddit.Prelude.{ℕ, String, Bool, true, false, Option, List}
use deaddit.Prelude.Json.{Json}

pub data RunStatus : Type 0 where
  running completed failed interrupted : RunStatus

pub data AgentStatus : Type 0 where
  idle queued active error disabled : AgentStatus

pub data PersonaMode : Type 0 where
  fixed random : PersonaMode

-- The texts of `error_message`: that of a recovered run, and that of an exception.
pub data Failure : Type 0 where
  recovered : Failure
  raised : String → Failure

pub record Usage : Type 0 where
  pub prompt_tokens : ℕ
  pub completion_tokens : ℕ
  pub total_tokens : ℕ

pub record AgentRun : Type 0 where
  pub id : ℕ
  pub agent_id : ℕ
  pub persona_username : String
  pub status : RunStatus
  pub started_at : ℕ
  pub finished_at : Option ℕ
  pub turn_count : ℕ
  pub action_count : ℕ
  pub token_usage : Option Usage
  pub error_message : Option Failure
  pub intent : Option String
  pub prompt_metadata : Option Json

-- `active` is the status "running" of an agent.
pub record Agent : Type 0 where
  pub id : ℕ
  pub persona_mode : PersonaMode
  pub user_username : Option String
  pub autonomy_tier : String
  pub is_enabled : Bool
  pub status : AgentStatus
  pub config : Json
  pub last_run_at : Option ℕ
  pub next_run_at : Option ℕ
  pub consecutive_failures : ℕ

pub record User : Type 0 where
  pub username : String
  pub password_hash : Option String

pub record Turn : Type 0 where
  pub run_id : ℕ
  pub seq : ℕ

-- `next_run` is the key that the database gives to the next run. The users are in the order of their names.
pub record Store : Type 0 where
  pub agents : List Agent
  pub runs : List AgentRun
  pub next_run : ℕ
  pub users : List User
  pub turns : List Turn

abbrev pub is_running : RunStatus → Bool
is_running running = true
is_running _ = false

abbrev pub is_active : AgentStatus → Bool
is_active active = true
is_active _ = false
