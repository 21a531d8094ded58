-- ===== src/Run/Loop.antt =====
-- The turns of a visit: the loop of `run_once` in deaddit/agents/loop.py, over the world `W` that it
-- reads and writes: the database, the clock, the model and the tools. A moment is a whole number of
-- the clock's units. An exception of the database itself is not modelled.
use deaddit.Prelude.{
  ℕ, zero, suc, ◌+◌, ◌-◌, String, Bool, true, false, ◌||◌, Option, none, some, List, [], ◌∷◌, ◌++◌,
  ◌==◌, leb, min, str_eq, if◌then◌else◌,
}
use deaddit.Prelude.Dict.{get_or}
use deaddit.Prelude.Json.{Json}
use deaddit.Run.{Usage}

pub record ToolCall : Type 0 where
  pub id : Option String
  pub name : Option String
  pub arguments : Json

-- What a tool's result says to the loop, and the result.
pub record Outcome : Type 0 where
  pub force_finish : Bool
  pub is_rejected : Bool
  pub body : Json

pub data Message : Type 0 where
  initial : Json → Message
  assistant : String → List ToolCall → Message
  nudge : Message
  tool : Option String → Option Outcome → Message

-- What a request to the model ends with: an answer, or one of the two kinds of exceptions.
pub data Completion : Type 0 where
  answered : Option String → List ToolCall → Usage → Completion
  permanent_error : String → Completion
  other_error : String → Completion

-- What the loop calls. `execute` yields `none` where it raises.
pub record Outside (W : Type 0) : Type 0 where
  pub is_active : W → Bool × W
  pub monotonic : W → ℕ × W
  pub sleep : ℕ → W → W
  pub complete : List Message → W → Completion × W
  pub record_turn : ℕ → List Message → Message → W → W
  pub execute : String → Json → W → Option Outcome × W

pub record Limits : Type 0 where
  pub max_actions : ℕ
  pub turn_interval : ℕ
  pub expires_at : ℕ

pub record Progress : Type 0 where
  pub messages : List Message
  pub turn_count : ℕ
  pub action_count : ℕ
  pub last_call_at : Option ℕ
  pub nudged : Bool
  pub rejected_streak : ℕ
  pub usage : Usage

-- How the loop is left: the run is not running any more, `break`, or an exception with its strike.
pub data Exit : Type 0 where
  stopped : Exit
  done : Exit
  failed : String → Bool → Exit

pub data Step : Type 0 where
  again : Progress → Step
  leave : Exit → Progress → Step

abbrev pub add_usage : Usage → Usage → Usage
add_usage u v = record {
  prompt_tokens = u.prompt_tokens + v.prompt_tokens;
  completion_tokens = u.completion_tokens + v.completion_tokens;
  total_tokens = u.total_tokens + v.total_tokens;
}

abbrev pub correction_cap : ℕ
correction_cap = 2

abbrev pub ends_visit : String → Option Outcome → Bool
ends_visit name none = str_eq name "finish"
ends_visit name (some o) = o.force_finish || str_eq name "finish"

abbrev pub is_rejection : Option Outcome → Bool
is_rejection none = false
is_rejection (some o) = o.is_rejected

abbrev pub answer_call : ToolCall → Option Outcome → Progress → Progress
answer_call c o p = record p {
  action_count = p.action_count + 1;
  messages = p.messages ++ tool c.id o ∷ [];
}

module _ {W : Type 0} (out : Outside W) (limits : Limits) where
  abbrev pub while_active : Progress → (W → Step × W) → W → Step × W
  while_active p k w =
      let (on, w') = out.is_active w in
      let rest = k w' in if on then rest else (leave stopped p, w')

  -- `Deadline.expired`
  abbrev pub unless_expired : (W → Step × W) → (W → Step × W) → W → Step × W
  unless_expired late k w =
      let (now, w') = out.monotonic w in
      let rest = k w' in let over = late w' in if leb limits.expires_at now then over else rest

  abbrev pub finish : Progress → W → Step × W
  finish p w = (leave done p, w)

  -- The end of a turn, after its calls.
  abbrev pub end_turn : Bool → Progress → W → Step × W
  end_turn ended p w =
      let next = unless_expired (finish p) (λ v. (again p, v)) w in
      if ended || leb limits.max_actions p.action_count then (leave done p, w) else next

  -- After a call that ran: `rest` are the calls that are left.
  abbrev pub after_call :
      String → Option Outcome → (Progress → W → Step × W) → Progress → W → Step × W
  after_call name o rest p w =
      let streak : ℕ = p.rejected_streak + 1 in
      let corrected = rest (record p { rejected_streak = streak }) w in
      let accepted = rest (record p { rejected_streak = 0 }) w in
      if ends_visit name o
      then end_turn true p w
      else if is_rejection o
      then (if leb correction_cap streak
          then end_turn true (record p { rejected_streak = streak }) w
          else corrected)
      else accepted

  abbrev pub run_call : ToolCall → (Progress → W → Step × W) → Progress → W → Step × W
  run_call c rest p w =
      let name : String = get_or c.name "" in
      let (o, w') = out.execute name c.arguments w in
      while_active p (λ v. after_call name o rest (answer_call c o p) v) w'

  abbrev pub run_next : ToolCall → (Progress → W → Step × W) → Progress → W → Step × W
  run_next c rest p w =
      let call = unless_expired (end_turn false p) (run_call c rest p) w in
      if leb limits.max_actions p.action_count then end_turn false p w else call

  unfoldable pub run_calls : List ToolCall → Progress → W → Step × W
  run_calls [] p w = end_turn false p w
  run_calls (c ∷ cs) p w = while_active p (run_next c (run_calls cs) p) w

  abbrev pub respond : List ToolCall → Progress → W → Step × W
  respond [] p w =
      if p.nudged
      then (leave done p, w)
      else (again (record p { messages = p.messages ++ nudge ∷ []; nudged = true }), w)
  respond (c ∷ cs) p w = run_calls (c ∷ cs) p w

  abbrev pub record_answer : String → List ToolCall → Progress → W → Step × W
  record_answer content calls p w =
      let message : Message = assistant content calls in
      let w' = out.record_turn (p.turn_count + 1) p.messages message w in
      let p' : Progress = record p {
        turn_count = p.turn_count + 1;
        messages = p.messages ++ message ∷ [];
      } in
      unless_expired (finish p') (respond calls p') w'

  abbrev pub take_answer : Completion → Progress → W → Step × W
  take_answer (permanent_error m) p w = (leave (failed m true) p, w)
  take_answer (other_error m) p w = (leave (failed m false) p, w)
  take_answer (answered content calls usage) p w =
      let (now, w') = out.monotonic w in
      let p' : Progress = record p { last_call_at = some now; usage = add_usage p.usage usage } in
      while_active p' (record_answer (get_or content "") calls p') w'

  abbrev pub ask : Progress → W → Step × W
  ask p w = let (answer, w') = out.complete p.messages w in take_answer answer p w'

  -- The wait between two requests, which ends no later than the visit.
  abbrev pub pause_until : ℕ → Progress → W → Step × W
  pause_until due p w =
      let (now, w') = out.monotonic w in
      let seconds : ℕ = min (due - now) (limits.expires_at - now) in
      let rest = ask p w' in
      let later = while_active p (unless_expired (finish p) (ask p)) (out.sleep seconds w') in
      if leb due now then rest else if seconds == 0 then (leave done p, w') else later

  abbrev pub pace : Option ℕ → Progress → W → Step × W
  pace none p w = ask p w
  pace (some last) p w =
      let rest = ask p w in
      let paused = pause_until (last + limits.turn_interval) p w in
      if limits.turn_interval == 0 then rest else paused

  unfoldable pub turn : Progress → W → Step × W
  turn p w = while_active p (unless_expired (finish p) (pace p.last_call_at p)) w

abbrev pub next_turn :
    {W : Type 0}
    → (Progress → W → Option (Exit × Progress) × W)
    → Step × W
    → Option (Exit × Progress) × W
next_turn rest (leave e p, w) = (some (e, p), w)
next_turn rest (again p, w) = rest p w

-- `while True`, on fuel: `none` is that it ran out.
unfoldable pub turns :
    {W : Type 0} → Outside W → Limits → ℕ → Progress → W → Option (Exit × Progress) × W
unfolding turn
turns out limits zero p w = (none, w)
turns out limits (suc n) p w = next_turn (turns out limits n) (turn out limits p w)

abbrev pub start : List Message → Progress
start messages = record {
  messages = messages;
  turn_count = 0;
  action_count = 0;
  last_call_at = none;
  nudged = false;
  rejected_streak = 0;
  usage = record { prompt_tokens = 0; completion_tokens = 0; total_tokens = 0 };
}

-- The whole loop; no visit needs more turns than this.
unfoldable pub visit :
    {W : Type 0} → Outside W → Limits → List Message → W → Option (Exit × Progress) × W
unfolding turns
visit out limits messages w = turns out limits (limits.max_actions + 2) (start messages) w
