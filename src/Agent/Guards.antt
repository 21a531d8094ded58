-- ===== src/Agent/Guards.antt =====
-- The guards of deaddit/agents/executor.py, each with what it reads: the agent's configuration, the
-- persona, the audited calls and the published content.
use deaddit.Prelude.{
  ℕ, ◌-◌, String, Bool, true, false, not, ◌&&◌, ◌||◌, Option, none, some, List, [], ◌∷◌, ◌==◌, leb,
  ltb, any, if◌then◌else◌, select, first_where, count_where, order_by, str_eq,
}
use deaddit.Prelude.Int.{pos}
use deaddit.Prelude.Json.{Json, number, string, object, Fields, find_field}
use deaddit.Agent.Registry.{
  AutonomyTier, parse_tier, allows, ToolName, create_post, create_image_post, create_website,
  create_comment, same_tool, contains, post_tool_names, Intent, is_reserved, effective_post_configs,
  offered_post_tool_names,
}

-- A row of the audit of tool calls, of the runs, of the personas, of the posts and of the comments,
-- with the columns that the guards read. Moments are in seconds.
pub record ToolCall : Type 0 where
  pub run_id : ℕ
  pub name : ToolName
  pub arguments : Fields
  pub ok : Bool
  pub created_at : ℕ

pub record Run : Type 0 where
  pub id : ℕ
  pub persona_username : String

pub record Persona : Type 0 where
  pub username : String
  pub agent_state : Json

pub record Post : Type 0 where
  pub id : ℕ
  pub user : String
  pub title : String
  pub content : String
  pub subdeaddit_name : String
  pub created_at : ℕ

pub record Comment : Type 0 where
  pub id : ℕ
  pub user : String
  pub content : String
  pub created_at : ℕ

-- `tool_calls` has the newest row first.
pub record World : Type 0 where
  pub tool_calls : List ToolCall
  pub runs : List Run
  pub personas : List Persona
  pub posts : List Post
  pub comments : List Comment

-- `ToolContext`, with the tier and the configuration of its agent.
pub record Context : Type 0 where
  pub run_id : ℕ
  pub user_username : String
  pub autonomy_tier : String
  pub config : Json
  pub post_intent : Intent
  pub target_subdeaddit : Option String
  pub now : ℕ

unfoldable pub check_tier : Context → AutonomyTier → Bool
unfolding allows parse_tier
check_tier ctx required = tier_allows (parse_tier ctx.autonomy_tier)
  where
    tier_allows : Option AutonomyTier → Bool
    tier_allows none = false
    tier_allows (some tier) = allows tier required

-- Each check answers true where it finds no problem.
unfoldable pub check_post_policy : ToolName → Context → Bool
unfolding effective_post_configs offered_post_tool_names same_tool
check_post_policy name ctx =
    if not (contains post_tool_names name)
    then true
    else let (image_cfg, website_cfg) = effective_post_configs ctx.config ctx.post_intent in
      contains (offered_post_tool_names image_cfg website_cfg) name

-- The refusal of a comment at a reserved visit, in the body of `execute`.
unfoldable pub check_comment : ToolName → Context → Bool
unfolding same_tool
check_comment name ctx = not (is_reserved ctx.post_intent && same_tool name create_comment)

abbrev string_of : Option Json → Option String
string_of (some (string s)) = some s
string_of _ = none

abbrev pub post_destination : ToolName → Fields → Option String
post_destination create_post validated = string_of (find_field "subdeaddit" validated)
post_destination create_image_post validated = string_of (find_field "community" validated)
post_destination create_website validated = string_of (find_field "community" validated)
post_destination _ validated = none

abbrev pub is_same_place : Option String → Option String → Bool
is_same_place (some a) (some b) = str_eq a b
is_same_place _ _ = true

-- There is no problem without a target, nor without a destination.
unfoldable pub check_target_subdeaddit : ToolName → Context → Fields → Bool
check_target_subdeaddit name ctx validated =
    is_same_place (post_destination name validated) ctx.target_subdeaddit

-- `ORDER BY created_at DESC, id DESC`
abbrev pub is_newer : Post → Post → Bool
is_newer p q = ltb q.created_at p.created_at || (q.created_at == p.created_at && leb q.id p.id)

abbrev pub is_newer_comment : Comment → Comment → Bool
is_newer_comment p q =
    ltb q.created_at p.created_at || (q.created_at == p.created_at && leb q.id p.id)

abbrev backstage_subdeaddit_name : String
backstage_subdeaddit_name = "BetweenRobots"

abbrev pub is_backstage : Option String → Bool
is_backstage none = false
is_backstage (some s) = str_eq s backstage_subdeaddit_name

abbrev is_by_other : String → List Post → Bool
is_by_other user [] = true
is_by_other user (p ∷ ps) = not (str_eq p.user user)

unfoldable pub check_backstage_rotation : ToolName → Context → Fields → World → Bool
check_backstage_rotation name ctx validated w =
    if not (is_backstage (post_destination name validated))
    then true
    else is_by_other ctx.user_username (
        order_by is_newer
          (select (λ p. str_eq p.subdeaddit_name backstage_subdeaddit_name) w.posts))

-- `RATE_CAPS` with the buckets, without a persona's override: none for a tool that is not capped.
abbrev pub rate_cap_of : ToolName → Option (String × ℕ)
rate_cap_of create_post = some ("post", 2)
rate_cap_of create_image_post = some ("post", 2)
rate_cap_of create_website = some ("post", 2)
rate_cap_of create_comment = some ("comment", 12)
rate_cap_of _ = none

abbrev window : ℕ
window = 3600

-- `normalize_persona_rate_caps(raw)`, not strict, at one of its buckets: what is malformed is dropped.
abbrev pub override_of : Option Json → Option ℕ
override_of (some (number (pos n))) = some n
override_of _ = none

unfoldable pub normalize_persona_rate_caps : Option Json → String → Option ℕ
normalize_persona_rate_caps (some (object raw)) bucket = override_of (find_field bucket raw)
normalize_persona_rate_caps _ bucket = none

abbrev rate_caps_of : Option Persona → Option Json
rate_caps_of none = none
rate_caps_of (some p) = field_of p.agent_state
  where
    field_of : Json → Option Json
    field_of (object state) = find_field "rate_caps" state
    field_of _ = none

abbrev or_else : Option ℕ → ℕ → ℕ
or_else none n = n
or_else (some m) n = m

unfoldable pub persona_rate_cap : String × ℕ → Context → World → ℕ
unfolding normalize_persona_rate_caps
persona_rate_cap cap ctx w =
    or_else
      (normalize_persona_rate_caps
        (rate_caps_of (first_where (λ p. str_eq p.username ctx.user_username) w.personas)) (cap.0))
      (cap.1)

-- The tools that share the tool's budget.
abbrev pub budget_names : ToolName → List ToolName
budget_names name = if contains post_tool_names name then post_tool_names else name ∷ []

-- The join with the runs: the persona of the call's run.
abbrev pub is_run_of : List Run → String → ℕ → Bool
is_run_of runs username run_id =
    any (λ r. r.id == run_id && str_eq r.persona_username username) runs

abbrev pub is_counted : ToolName → Context → World → ToolCall → Bool
is_counted name ctx w call =
    is_run_of w.runs ctx.user_username call.run_id
    && (contains (budget_names name) call.name
        && (call.ok && leb (ctx.now - window) call.created_at))

unfoldable pub recent_count : ToolName → Context → World → ℕ
unfolding same_tool
recent_count name ctx w = count_where (is_counted name ctx w) w.tool_calls

abbrev pub is_below : Option (String × ℕ) → (String × ℕ → ℕ) → ℕ → Bool
is_below none cap_for count = true
is_below (some cap) cap_for count = ltb count (cap_for cap)

unfoldable pub check_rate_cap : ToolName → Context → World → Bool
unfolding recent_count persona_rate_cap
check_rate_cap name ctx w =
    is_below (rate_cap_of name) (λ cap. persona_rate_cap cap ctx w) (recent_count name ctx w)
