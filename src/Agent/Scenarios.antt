-- ===== src/Agent/Scenarios.antt =====
-- An agent with image posts, and an executor with two tools.
use deaddit.Prelude.{
  false, ◌≡◌, ◌↔◌, ◌⊎◌, refl, ◌≤◌, some, none, true, [], ◌∷◌, inl, arith, if◌then◌else◌, In,
}
use deaddit.Prelude.Json.{Json, Fields, null, string, boolean, object, end, field}
use deaddit.Agent.Registry.{
  Tool, regular, parse_tier, create_image_post, create_comment, image, open_visit, same_tool,
  contains, offered_at, tools_for,
}
use deaddit.Agent.Offering.{tool_of, offered_at-reserved}
use deaddit.Agent.Guards.{ToolCall, World, Context, recent_count, persona_rate_cap}
use deaddit.Agent.Executor.{Services, Answers, finished, authorize, execute}
use deaddit.Agent.Enforcement.{tools_for-authorize}
use deaddit.Agent.Audit.{IsActive, LeavesAudit, KeepsAudit, Audited, execute-Audited}
use deaddit.Agent.Permits.{Permitted, Untouched, execute-Permitted}
use deaddit.Agent.Stuck.{IsCall, calls_of, execute-stuck}
use deaddit.Agent.Caps.{execute-within_cap}

abbrev image_agent : Json
image_agent = object (
    field "image_posts"
      (object (field "enabled" (boolean true) (field "policy" (string "image_only") end))) end)

abbrev post_tool : Tool
post_tool = record { name = create_image_post; min_tier = regular }

abbrev comment_tool : Tool
comment_tool = record { name = create_comment; min_tier = regular }

abbrev visit : Context
visit = record {
  run_id = 3;
  user_username = "ada";
  autonomy_tier = "regular";
  config = image_agent;
  post_intent = image;
  target_subdeaddit = some "pictures";
  now = 10000;
}

abbrev room : World
room = record {
  tool_calls = [];
  runs = record { id = 3; persona_username = "ada" } ∷ [];
  personas = record { username = "ada"; agent_state = null } ∷ [];
  posts = [];
  comments = [];
}

abbrev arguments : Fields
arguments = field "title" (string "A lighthouse") (field "community" (string "pictures") end)

-- The validator accepts the arguments as they are, and the handler writes nothing.
abbrev services : Services
services = record {
  tools = post_tool ∷ comment_tool ∷ [];
  validate = λ name fields. some fields;
  signature = λ name fields. 0;
  handler = λ name ctx fields w. finished end w;
}

abbrev always : Answers
always = record { at_entry = true; before_handler = true; before_audit = true; after_audit = true }

services_leave : LeavesAudit services
unfolding LeavesAudit KeepsAudit
services_leave name ctx v w = (refl, refl)

always-IsActive : IsActive always
unfolding IsActive
always-IsActive = (refl, refl, refl, refl)

offered_at-reserved_example : offered_at image_agent image ≡ (
    if contains (offered_at image_agent open_visit) (tool_of image) then tool_of image ∷ [] else [])
offered_at-reserved_example = offered_at-reserved image_agent image refl

tools_for-authorize_example :
    In post_tool (tools_for services.tools regular (some visit.config) visit.post_intent)
    ↔ (authorize visit post_tool.name post_tool ≡ none)
unfolding parse_tier
tools_for-authorize_example =
    tools_for-authorize services.tools visit post_tool regular refl (inl refl)

execute-Audited_example :
    Audited services visit create_image_post room
      (execute services visit always create_image_post arguments room)
unfolding same_tool
execute-Audited_example =
    execute-Audited services visit always create_image_post arguments room always-IsActive
      services_leave refl

execute-Permitted_example :
    Permitted services visit always create_image_post arguments room
    ⊎ Untouched visit create_image_post room
        (execute services visit always create_image_post arguments room)
execute-Permitted_example = execute-Permitted services visit always create_image_post arguments room

execute-within_cap_example :
    recent_count create_image_post visit
      (execute services visit always create_image_post arguments room).1
    ≤ persona_rate_cap ("post", 2) visit room
unfolding recent_count persona_rate_cap
execute-within_cap_example =
    execute-within_cap services visit always create_image_post arguments room ("post", 2)
      services_leave refl (omega arith)

abbrev same_call : ToolCall
same_call = record {
  run_id = 3;
  name = create_image_post;
  arguments = arguments;
  ok = false;
  created_at = 9900;
}

-- A call that another run has made since.
abbrev other_call : ToolCall
other_call = record {
  run_id = 4;
  name = create_comment;
  arguments = end;
  ok = true;
  created_at = 9950;
}

abbrev tired_room : World
tired_room = record room { tool_calls = other_call ∷ same_call ∷ other_call ∷ same_call ∷ [] }

same_call-IsCall : IsCall create_image_post arguments same_call
same_call-IsCall = record { same_name = refl; same_arguments = refl }

execute-stuck_example :
    Untouched visit create_image_post tired_room
      (execute services visit always create_image_post arguments tired_room)
unfolding calls_of
execute-stuck_example =
    execute-stuck services visit always create_image_post arguments arguments tired_room same_call
      same_call [] refl refl same_call-IsCall same_call-IsCall
