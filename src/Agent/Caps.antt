-- ===== src/Agent/Caps.antt =====
-- The rate caps of deaddit/agents/executor.py as an invariant of `execute`.
use deaddit.Prelude.{
  ◌≡◌, refl, sym, subst, ℕ, suc, ◌≤◌, ◌<◌, Bool, true, false, ◌&&◌, none, some, String, ◌∷◌, arith,
  first_where, Bool-cases, inl, inr, ltb→lt,
}
use deaddit.Prelude.Json.{Fields}
use deaddit.Agent.Registry.{ToolName, same_tool, Tool}
use deaddit.Agent.Guards.{
  ToolCall, World, Context, recent_count, is_counted, rate_cap_of, persona_rate_cap, check_rate_cap,
  is_below,
}
use deaddit.Agent.Repeats.{check_loop, LoopState, fresh, repeated, looping}
use deaddit.Agent.Executor.{
  inactive, raised, returned, escaped, stuck, Result, plain, Answers, Handled, lost, value_error,
  finished, Services, audit_row, persist_and_return, authorize, screen, conclude, dispatch,
  unless_looping, execute,
}
use deaddit.Agent.Audit.{KeepsAudit, LeavesAudit}
use deaddit.Agent.Permits.{Permitted, Untouched, execute-Permitted}

count-same :
    (name : ToolName) (ctx : Context) (w' w : World)
    → w'.tool_calls ≡ w.tool_calls
    → w'.runs ≡ w.runs
    → recent_count name ctx w' ≡ recent_count name ctx w
unfolding recent_count
count-same name ctx w' w ec er =
    λ i. recent_count name ctx (record w { tool_calls = ec i; runs = er i })

-- What counts against a cap grows by one at most.
count-row :
    (name : ToolName) (ctx : Context) (w : World) (row : ToolCall)
    → recent_count name ctx (record w { tool_calls = row ∷ w.tool_calls })
      ≤ suc (recent_count name ctx w)
unfolding recent_count
count-row name ctx w row = elim (Bool-cases (is_counted name ctx w row)) [
  | inl y ↦ rw (y) (omega arith)
  | inr n ↦ rw (n) (omega arith)
]

module _ (services : Services) (ctx : Context) (answers : Answers) (name : ToolName)
    (leaves : LeavesAudit services) where
  -- After the handler, one call more counts at most.
  persisted-count :
      (args : Fields) (r : Result) (w w' : World)
      → w'.tool_calls ≡ w.tool_calls
      → w'.runs ≡ w.runs
      → recent_count name ctx (persist_and_return ctx answers name args r w').1
        ≤ suc (recent_count name ctx w)
  unfolding persist_and_return
  persisted-count args r w w' ec er =
      let same : recent_count name ctx w' ≡ recent_count name ctx w =
        count-same name ctx w' w ec er in
      elim (Bool-cases (answers.before_audit && answers.after_audit)) [
        | inl y ↦ simp (y) (
            subst
              (λ n.
                recent_count name ctx
                  (record w' { tool_calls = audit_row ctx name args r.outcome ∷ w'.tool_calls })
                ≤ suc n)
              same (count-row name ctx w' (audit_row ctx name args r.outcome)))
        | inr n ↦ simp (n) (omega (arith, same))
      ]

  dispatched-count :
      (v : Fields) (warning : Bool) (w : World)
      → recent_count name ctx (dispatch services ctx answers name v warning w).1
        ≤ suc (recent_count name ctx w)
  unfolding dispatch LeavesAudit KeepsAudit
  dispatched-count v warning w = elim (Bool-cases answers.before_handler) [
    | inl y ↦ simp (y) (concluded (services.handler name ctx v w) (leaves name ctx v w))
    | inr n ↦ simp (n) (omega arith)
  ]
    where
      concluded :
          (h : Handled)
          → KeepsAudit w h
          → recent_count name ctx (conclude ctx answers name v warning w h).1
            ≤ suc (recent_count name ctx w)
      concluded lost k =
          persisted-count v (record { outcome = inactive; warning = warning }) w w refl refl
      concluded (value_error m w') k =
          persisted-count v (record { outcome = raised m; warning = warning }) w w' (k.0) (k.1)
      concluded (finished fs w') k =
          persisted-count v (record { outcome = returned fs; warning = warning }) w w' (k.0) (k.1)
      concluded (escaped w') k = omega (arith, count-same name ctx w' w (k.0) (k.1))

  looped-count :
      (v : Fields) (w : World) (state : LoopState)
      → recent_count name ctx (unless_looping services ctx answers name v w state).1
        ≤ suc (recent_count name ctx w)
  looped-count v w looping = persisted-count v (plain stuck) w w refl refl
  looped-count v w repeated = dispatched-count v true w
  looped-count v w fresh = dispatched-count v false w

screen-cap :
    (ctx : Context) (name : ToolName) (v : Fields) (w : World)
    → screen ctx name v w ≡ none
    → check_rate_cap name ctx w ≡ true
unfolding screen
screen-cap ctx name v w h = ground arith

below :
    (name : ToolName) (ctx : Context) (w : World) (cap : String × ℕ)
    → rate_cap_of name ≡ some cap
    → check_rate_cap name ctx w ≡ true
    → recent_count name ctx w < persona_rate_cap cap ctx w
unfolding check_rate_cap
below name ctx w cap e h =
    ltb→lt (recent_count name ctx w) (persona_rate_cap cap ctx w)
      (subst (λ o. is_below o (λ c. persona_rate_cap c ctx w) (recent_count name ctx w) ≡ true) e h)

-- A call that passes the guards is the one from the loop detection on.
permitted-execute :
    (services : Services) (ctx : Context) (answers : Answers) (name : ToolName) (raw : Fields)
    (w : World)
    → (tool : Tool) (v : Fields) → answers.at_entry ≡ true
    → first_where (λ t. same_tool t.name name) services.tools ≡ some tool
    → authorize ctx name tool ≡ none
    → services.validate name raw ≡ some v
    → screen ctx name v w ≡ none
    → execute services ctx answers name raw w
      ≡ unless_looping services ctx answers name v w (check_loop services.signature ctx name v w)
unfolding execute
permitted-execute services ctx answers name raw w tool v en found ha hv hs =
    simp (en, found, ha, hv, hs) refl

-- The calls of a persona that succeeded in the last hour and count against the budget of a tool never
-- come to exceed the persona's cap by a call of that tool, provided that the handlers write no audit
-- rows and no runs themselves.
pub execute-within_cap :
    (services : Services) (ctx : Context) (answers : Answers) (name : ToolName) (raw : Fields)
    (w : World) (cap : String × ℕ)
    → LeavesAudit services
    → rate_cap_of name ≡ some cap
    → recent_count name ctx w ≤ persona_rate_cap cap ctx w
    → recent_count name ctx (execute services ctx answers name raw w).1 ≤ persona_rate_cap cap ctx w
unfolding Permitted Untouched
execute-within_cap services ctx answers name raw w cap leaves e h =
    elim (execute-Permitted services ctx answers name raw w) [
      | inl (tool, v, found, ha, hv, hs, nl, active) ↦
          (let once =
              looped-count services ctx answers name leaves v w
                (check_loop services.signature ctx name v w) in
            let less = below name ctx w cap e (screen-cap ctx name v w hs) in
            let same =
              permitted-execute services ctx answers name raw w tool v (ground arith) found ha hv
                hs in
            subst (λ r. recent_count name ctx r.1 ≤ persona_rate_cap cap ctx w) (sym same)
              (omega (arith, once, less)))
      | inr u ↦ omega (arith, u.3, h)
    ]
