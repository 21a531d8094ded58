-- ===== src/Agent/Executor.antt =====
-- `execute` of deaddit/agents/executor.py: one tool call under all guardrails.
use deaddit.Prelude.{
  ℕ, String, Bool, true, false, not, ◌&&◌, Option, none, some, List, ◌∷◌, if◌then◌else◌,
  first_where,
}
use deaddit.Prelude.Json.{Json, Fields, end, find_field, is_truthy}
use deaddit.Agent.Registry.{ToolName, vote, same_tool, Tool}
use deaddit.Agent.Guards.{
  ToolCall, World, Context, check_tier, check_post_policy, check_comment, check_target_subdeaddit,
  check_backstage_rotation, check_rate_cap,
}
use deaddit.Agent.Repeats.{check_duplicate, check_loop, LoopState, fresh, repeated, looping}

-- Why a call is refused, in the order of the checks.
pub data Problem : Type 0 where
  unknown_tool not_in_tier not_in_policy no_comments invalid_arguments wrong_target rotation
        over_cap duplicate :
      Problem

-- What a call returns: `inactive` is `_inactive_run_result()`, `stuck` the result that makes the run
-- finish, `raised` the message of a handler's ValueError, and `propagated` that `execute` returns
-- nothing, since another exception of the handler goes through it.
pub data Outcome : Type 0 where
  inactive stuck propagated : Outcome
  refused : Problem → Outcome
  raised : String → Outcome
  returned : Fields → Outcome

pub record Result : Type 0 where
  pub outcome : Outcome
  pub warning : Bool

abbrev pub plain : Outcome → Result
plain o = record { outcome = o; warning = false }

-- A handler's result without the key `ok` is a success.
abbrev flag_or_true : Option Json → Bool
flag_or_true none = true
flag_or_true (some v) = is_truthy v

unfoldable pub is_ok : Outcome → Bool
is_ok (returned fields) = flag_or_true (find_field "ok" fields)
is_ok _ = false

-- `_run_is_active` reads the status of the run, which other workers write, at four points.
pub record Answers : Type 0 where
  pub at_entry : Bool
  pub before_handler : Bool
  pub before_audit : Bool
  pub after_audit : Bool

-- How a handler ends: `lost` is the fence's exception, after which everything is rolled back, and
-- `escaped` any other exception but a ValueError, with the rows that it leaves.
pub data Handled : Type 0 where
  lost : Handled
  escaped : World → Handled
  value_error : String → World → Handled
  finished : Fields → World → Handled

-- What the executor calls: the registered tools, the validator of the arguments of a tool (none is its
-- exception), the digest of a call, and the tools' handlers.
pub record Services : Type 0 where
  pub tools : List Tool
  pub validate : ToolName → Fields → Option Fields
  pub signature : ToolName → Fields → ℕ
  pub handler : ToolName → Context → Fields → World → Handled

abbrev pub audit_row : Context → ToolName → Fields → Outcome → ToolCall
unfolding is_ok
audit_row ctx name arguments o = record {
  run_id = ctx.run_id;
  name = name;
  arguments = arguments;
  ok = is_ok o;
  created_at = ctx.now;
}

-- The handler's writes are committed when it returns; what a rollback drops is the row of the call.
unfoldable pub persist_and_return :
    Context → Answers → ToolName → Fields → Result → World → Result × World
persist_and_return ctx answers name arguments result w =
    if answers.before_audit && answers.after_audit
    then (
      result,
      record w { tool_calls = audit_row ctx name arguments result.outcome ∷ w.tool_calls },
    )
    else (plain inactive, w)

-- The checks before the arguments are validated.
unfoldable pub authorize : Context → ToolName → Tool → Option Problem
unfolding check_tier check_post_policy check_comment
authorize ctx name tool =
    if not (check_tier ctx tool.min_tier)
    then some not_in_tier
    else if not (check_post_policy name ctx)
    then some not_in_policy
    else if not (check_comment name ctx)
    then some no_comments
    else none

-- The checks of the validated arguments.
unfoldable pub screen : Context → ToolName → Fields → World → Option Problem
unfolding check_target_subdeaddit check_backstage_rotation check_rate_cap check_duplicate
screen ctx name validated w =
    if not (check_target_subdeaddit name ctx validated)
    then some wrong_target
    else if not (check_backstage_rotation name ctx validated w)
    then some rotation
    else if not (check_rate_cap name ctx w)
    then some over_cap
    else if not (check_duplicate name ctx validated w)
    then some duplicate
    else none

abbrev pub warned : LoopState → Bool
warned repeated = true
warned _ = false

-- From the `try` around the handler on. Another exception is not caught, and no row is written.
abbrev pub conclude :
    Context → Answers → ToolName → Fields → Bool → World → Handled → Result × World
conclude ctx answers name validated warning w lost =
    persist_and_return ctx answers name validated (record { outcome = inactive; warning = warning })
      w
conclude ctx answers name validated warning w (value_error message w') =
    persist_and_return ctx answers name validated
      (record { outcome = raised message; warning = warning }) w'
conclude ctx answers name validated warning w (finished fields w') =
    persist_and_return ctx answers name validated
      (record { outcome = returned fields; warning = warning }) w'
conclude ctx answers name validated warning w (escaped w') = (plain propagated, w')

unfoldable pub dispatch :
    Services → Context → Answers → ToolName → Fields → Bool → World → Result × World
unfolding persist_and_return
dispatch services ctx answers name validated warning w =
    if not answers.before_handler
    then (plain inactive, w)
    else conclude ctx answers name validated warning w (services.handler name ctx validated w)

-- From the loop detection on.
abbrev pub unless_looping :
    Services → Context → Answers → ToolName → Fields → World → LoopState → Result × World
unless_looping services ctx answers name validated w looping =
    persist_and_return ctx answers name validated (plain stuck) w
unless_looping services ctx answers name validated w repeated =
    dispatch services ctx answers name validated true w
unless_looping services ctx answers name validated w fresh =
    dispatch services ctx answers name validated false w

abbrev pub unless_screened :
    Services → Context → Answers → ToolName → Fields → World → Option Problem → Result × World
unless_screened services ctx answers name validated w (some problem) =
    persist_and_return ctx answers name validated (plain (refused problem)) w
unless_screened services ctx answers name validated w none =
    unless_looping services ctx answers name validated w
      (check_loop services.signature ctx name validated w)

abbrev pub with_arguments :
    Services → Context → Answers → ToolName → Fields → World → Option Fields → Result × World
with_arguments services ctx answers name raw w none =
    persist_and_return ctx answers name raw (plain (refused invalid_arguments)) w
with_arguments services ctx answers name raw w (some validated) =
    unless_screened services ctx answers name validated w (screen ctx name validated w)

abbrev pub unless_refused :
    Services → Context → Answers → ToolName → Fields → World → Option Problem → Result × World
unless_refused services ctx answers name raw w (some problem) =
    persist_and_return ctx answers name raw (plain (refused problem)) w
unless_refused services ctx answers name raw w none =
    with_arguments services ctx answers name raw w (services.validate name raw)

abbrev pub with_tool :
    Services → Context → Answers → ToolName → Fields → World → Option Tool → Result × World
with_tool services ctx answers name raw w none =
    if same_tool name vote
    then (plain (refused unknown_tool), w)
    else persist_and_return ctx answers name end (plain (refused unknown_tool)) w
with_tool services ctx answers name raw w (some tool) =
    unless_refused services ctx answers name raw w (authorize ctx name tool)

-- `raw` is what `_parse_raw_arguments` makes of the arguments.
unfoldable pub execute : Services → Context → Answers → ToolName → Fields → World → Result × World
unfolding authorize same_tool
execute services ctx answers name raw w =
    if not answers.at_entry
    then (plain inactive, w)
    else with_tool services ctx answers name raw w
        (first_where (λ t. same_tool t.name name) services.tools)
