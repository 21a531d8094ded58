-- ===== src/Agent/Permits.antt =====
-- What must hold before `execute` of deaddit/agents/executor.py lets a handler run.
use deaddit.Prelude.{
  ◌≡◌, ◌≢◌, refl, Bool, true, false, ◌&&◌, Option, none, some, ◌∷◌, arith, first_where, Bool-cases,
  ◌⊎◌, inl, inr,
}
use deaddit.Prelude.Json.{Fields, end}
use deaddit.Agent.Registry.{ToolName, vote, same_tool, Tool}
use deaddit.Agent.Guards.{ToolCall, World, Context, recent_count, is_counted}
use deaddit.Agent.Repeats.{check_loop, LoopState, fresh, repeated, looping}
use deaddit.Agent.Executor.{
  Problem, Outcome, inactive, stuck, refused, unknown_tool, invalid_arguments, Result, plain, is_ok,
  Answers, Services, audit_row, persist_and_return, authorize, screen, dispatch, unless_looping,
  unless_screened, with_arguments, unless_refused, with_tool, execute,
}

-- Every guard let the call pass: the tool is registered and allowed, its arguments are valid, nothing
-- is wrong with them, the run does not repeat itself, and it is active.
unfoldable pub Permitted : Services → Context → Answers → ToolName → Fields → World → Type 0
Permitted services ctx answers name raw w =
    (tool : Tool) × (v : Fields) × (first_where (λ t. same_tool t.name name) services.tools
      ≡ some tool)
    × (authorize ctx name tool ≡ none)
    × (services.validate name raw ≡ some v)
    × (screen ctx name v w ≡ none)
    × (check_loop services.signature ctx name v w ≢ looping)
    × ((answers.at_entry && answers.before_handler) ≡ true)

-- Nothing is published and no success is returned: at most the audit has a row more.
unfoldable pub Untouched : Context → ToolName → World → Result × World → Type 0
Untouched ctx name w r =
    (r.1.posts ≡ w.posts)
    × (r.1.comments ≡ w.comments)
    × (is_ok r.0.outcome ≡ false)
    × (recent_count name ctx r.1 ≡ recent_count name ctx w)

-- A failed call does not count against the cap, and another one counts once.
count-failed :
    (name : ToolName) (ctx : Context) (w : World) (row : ToolCall)
    → row.ok ≡ false
    → recent_count name ctx (record w { tool_calls = row ∷ w.tool_calls }) ≡ recent_count name ctx w
unfolding recent_count
count-failed name ctx w row h =
    let e : is_counted name ctx w row ≡ false = ground arith in rw e refl

module _ (ctx : Context) (answers : Answers) (name : ToolName) where
  same_world : (o : Outcome) (w : World) → is_ok o ≡ false → Untouched ctx name w (plain o, w)
  unfolding Untouched
  same_world o w h = (refl, refl, h, refl)

  only_audited :
      (args : Fields) (o : Outcome) (w : World)
      → is_ok o ≡ false
      → Untouched ctx name w (persist_and_return ctx answers name args (plain o) w)
  unfolding Untouched persist_and_return is_ok
  only_audited args o w h = elim (Bool-cases (answers.before_audit && answers.after_audit)) [
    | inl y ↦ rw (y) (refl, refl, h, count-failed name ctx w (audit_row ctx name args o) h)
    | inr n ↦ rw (n) (same_world inactive w refl)
  ]

  Either : Services → Fields → World → Result × World → Type 0
  Either services raw w r = Permitted services ctx answers name raw w ⊎ Untouched ctx name w r

  module _ (services : Services) (raw : Fields) (w : World) (entered : answers.at_entry ≡ true)
      (tool : Tool)
      (found : first_where (λ t. same_tool t.name name) services.tools ≡ some tool) where
    dispatched :
        (v : Fields) (warning : Bool)
        → authorize ctx name tool ≡ none
        → services.validate name raw ≡ some v
        → screen ctx name v w ≡ none
        → check_loop services.signature ctx name v w ≢ looping
        → Either services raw w (dispatch services ctx answers name v warning w)
    unfolding Either Permitted dispatch is_ok
    dispatched v warning ha hv hs nl = elim (Bool-cases answers.before_handler) [
      | inl y ↦ inl (tool, v, found, ha, hv, hs, nl, rw (entered, y) refl)
      | inr n ↦ rw (n) (inr (same_world inactive w refl))
    ]

    not_looping :
        (v : Fields)
        → authorize ctx name tool ≡ none
        → services.validate name raw ≡ some v
        → screen ctx name v w ≡ none
        → (state : LoopState) → check_loop services.signature ctx name v w ≡ state
        → Either services raw w (unless_looping services ctx answers name v w state)
    unfolding Either is_ok
    not_looping v ha hv hs looping e = inr (only_audited v stuck w refl)
    not_looping v ha hv hs repeated e = dispatched v true ha hv hs (λ l. cc (e, l))
    not_looping v ha hv hs fresh e = dispatched v false ha hv hs (λ l. cc (e, l))

    not_screened :
        (v : Fields)
        → authorize ctx name tool ≡ none
        → services.validate name raw ≡ some v
        → (p : Option Problem) → screen ctx name v w ≡ p
        → Either services raw w (unless_screened services ctx answers name v w p)
    unfolding Either is_ok
    not_screened v ha hv (some p) e = inr (only_audited v (refused p) w refl)
    not_screened v ha hv none e =
        not_looping v ha hv e (check_loop services.signature ctx name v w) refl

    valid :
        authorize ctx name tool ≡ none
        → (v : Option Fields) → services.validate name raw ≡ v
        → Either services raw w (with_arguments services ctx answers name raw w v)
    unfolding Either is_ok
    valid ha none e = inr (only_audited raw (refused invalid_arguments) w refl)
    valid ha (some v) e = not_screened v ha e (screen ctx name v w) refl

    not_refused :
        (p : Option Problem)
        → authorize ctx name tool ≡ p
        → Either services raw w (unless_refused services ctx answers name raw w p)
    unfolding Either is_ok
    not_refused (some p) e = inr (only_audited raw (refused p) w refl)
    not_refused none e = valid e (services.validate name raw) refl

  known :
      (services : Services) (raw : Fields) (w : World)
      → answers.at_entry ≡ true
      → (t : Option Tool) → first_where (λ t. same_tool t.name name) services.tools ≡ t
      → Either services raw w (with_tool services ctx answers name raw w t)
  unfolding Either is_ok
  known services raw w entered none e = elim (Bool-cases (same_tool name vote)) [
    | inl y ↦ rw (y) (inr (same_world (refused unknown_tool) w refl))
    | inr n ↦ rw (n) (inr (only_audited end (refused unknown_tool) w refl))
  ]
  known services raw w entered (some tool) e =
      not_refused services raw w entered tool e (authorize ctx name tool) refl

-- Either every guard let the call pass, or the posts and the comments are as before, the result is no
-- success, and nothing is added to what counts against the persona's rate cap.
pub execute-Permitted :
    (services : Services) (ctx : Context) (answers : Answers) (name : ToolName) (raw : Fields)
    (w : World)
    → Permitted services ctx answers name raw w
      ⊎ Untouched ctx name w (execute services ctx answers name raw w)
unfolding execute is_ok Either
execute-Permitted services ctx answers name raw w = elim (Bool-cases answers.at_entry) [
  | inl y ↦ simp (y) (
      known ctx answers name services raw w y
        (first_where (λ t. same_tool t.name name) services.tools) refl)
  | inr n ↦ simp (n) (inr (same_world ctx answers name inactive w refl))
]
