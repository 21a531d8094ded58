-- ===== src/Agent/Audit.antt =====
-- What `execute` of deaddit/agents/executor.py records, and what it lets a handler do.
use deaddit.Prelude.{
  ◌≡◌, refl, ap, Bool, true, false, Option, none, some, ◌∷◌, first_where, ◌⊎◌, inl, inr,
}
use deaddit.Prelude.Json.{Fields, end}
use deaddit.Agent.Registry.{ToolName, vote, same_tool, Tool}
use deaddit.Agent.Guards.{World, Context}
use deaddit.Agent.Repeats.{check_loop, LoopState, fresh, repeated, looping}
use deaddit.Agent.Executor.{
  Problem, Outcome, inactive, propagated, raised, returned, escaped, stuck, refused, unknown_tool,
  invalid_arguments, Result, plain, Answers, Handled, lost, value_error, finished, Services,
  audit_row, persist_and_return, authorize, screen, conclude, dispatch, unless_looping,
  unless_screened, with_arguments, unless_refused, with_tool, execute,
}

-- A handler writes no audit rows and no runs.
unfoldable pub KeepsAudit : World → Handled → Type 0
KeepsAudit w lost = Unit
KeepsAudit w (escaped w') = (w'.tool_calls ≡ w.tool_calls) × (w'.runs ≡ w.runs)
KeepsAudit w (value_error message w') = (w'.tool_calls ≡ w.tool_calls) × (w'.runs ≡ w.runs)
KeepsAudit w (finished fields w') = (w'.tool_calls ≡ w.tool_calls) × (w'.runs ≡ w.runs)

unfoldable pub LeavesAudit : Services → Type 0
LeavesAudit services =
    (name : ToolName) (ctx : Context) (v : Fields) (w : World)
    → KeepsAudit w (services.handler name ctx v w)

-- The run is active at all four reads.
unfoldable pub IsActive : Answers → Type 0
IsActive answers =
    (answers.at_entry ≡ true)
    × (answers.before_handler ≡ true)
    × (answers.before_audit ≡ true)
    × (answers.after_audit ≡ true)

abbrev is_propagated : Outcome → Bool
is_propagated propagated = true
is_propagated _ = false

-- A row is added, which records what is returned.
abbrev AddsRow : Context → ToolName → World → Result × World → Type 0
AddsRow ctx name w r =
    (is_propagated r.0.outcome ≡ false)
    × (arguments : Fields) × (r.1.tool_calls
        ≡ audit_row ctx name arguments r.0.outcome ∷ w.tool_calls)

-- The handler's own exception goes through, and no row is added to what it left.
abbrev Escapes : Services → Context → ToolName → World → Result × World → Type 0
Escapes services ctx name w r =
    (v : Fields) × (w' : World) × (services.handler name ctx v w ≡ escaped w')
    × (r ≡ (plain propagated, w'))
    × (w'.tool_calls ≡ w.tool_calls)

unfoldable pub Audited : Services → Context → ToolName → World → Result × World → Type 0
Audited services ctx name w r = AddsRow ctx name w r ⊎ Escapes services ctx name w r

module _ (services : Services) (ctx : Context) (answers : Answers) (name : ToolName)
    (active : IsActive answers) (leaves : LeavesAudit services) where
  persisted :
      (args : Fields) (r : Result) (w w' : World)
      → is_propagated r.outcome ≡ false
      → w'.tool_calls ≡ w.tool_calls
      → Audited services ctx name w (persist_and_return ctx answers name args r w')
  unfolding Audited IsActive persist_and_return
  persisted args r w w' returns same =
      simp (active.2, active.3)
        (inl (returns, args, ap (λ t. audit_row ctx name args r.outcome ∷ t) same))

  dispatched :
      (v : Fields) (warning : Bool) (w : World)
      → Audited services ctx name w (dispatch services ctx answers name v warning w)
  unfolding Audited dispatch IsActive KeepsAudit LeavesAudit
  dispatched v warning w =
      simp (active.1) (concluded (services.handler name ctx v w) refl (leaves name ctx v w))
    where
      concluded :
          (h : Handled)
          → services.handler name ctx v w ≡ h
          → KeepsAudit w h
          → Audited services ctx name w (conclude ctx answers name v warning w h)
      concluded lost e k =
          persisted v (record { outcome = inactive; warning = warning }) w w refl refl
      concluded (value_error m w') e k =
          persisted v (record { outcome = raised m; warning = warning }) w w' refl (k.0)
      concluded (finished fs w') e k =
          persisted v (record { outcome = returned fs; warning = warning }) w w' refl (k.0)
      concluded (escaped w') e k = inr (v, w', e, refl, k.0)

  looped :
      (v : Fields) (w : World) (state : LoopState)
      → Audited services ctx name w (unless_looping services ctx answers name v w state)
  looped v w looping = persisted v (plain stuck) w w refl refl
  looped v w repeated = dispatched v true w
  looped v w fresh = dispatched v false w

  screened :
      (v : Fields) (w : World) (p : Option Problem)
      → Audited services ctx name w (unless_screened services ctx answers name v w p)
  screened v w (some p) = persisted v (plain (refused p)) w w refl refl
  screened v w none = looped v w (check_loop services.signature ctx name v w)

  validated_or_not :
      (raw : Fields) (w : World) (v : Option Fields)
      → Audited services ctx name w (with_arguments services ctx answers name raw w v)
  validated_or_not raw w none = persisted raw (plain (refused invalid_arguments)) w w refl refl
  validated_or_not raw w (some v) = screened v w (screen ctx name v w)

  refused_or_not :
      (raw : Fields) (w : World) (p : Option Problem)
      → Audited services ctx name w (unless_refused services ctx answers name raw w p)
  refused_or_not raw w (some p) = persisted raw (plain (refused p)) w w refl refl
  refused_or_not raw w none = validated_or_not raw w (services.validate name raw)

  looked_up :
      (raw : Fields) (w : World) (t : Option Tool)
      → same_tool name vote ≡ false
      → Audited services ctx name w (with_tool services ctx answers name raw w t)
  looked_up raw w none h = simp (h) (persisted end (plain (refused unknown_tool)) w w refl refl)
  looked_up raw w (some t) h = refused_or_not raw w (authorize ctx name t)

-- While its run is active, a call of any tool but the retired vote adds exactly one row to the audit,
-- and that row has the call's name and whether the returned result is a success, or the handler raises
-- an exception that is no ValueError, which goes through the call, and no row is added at all; provided
-- that the handlers write no audit rows and no runs themselves.
pub execute-Audited :
    (services : Services) (ctx : Context) (answers : Answers) (name : ToolName) (raw : Fields)
    (w : World)
    → IsActive answers
    → LeavesAudit services
    → same_tool name vote ≡ false
    → Audited services ctx name w (execute services ctx answers name raw w)
unfolding execute IsActive
execute-Audited services ctx answers name raw w active leaves h = simp (active.0) (
    looked_up services ctx answers name active leaves raw w
      (first_where (λ t. same_tool t.name name) services.tools) h)
