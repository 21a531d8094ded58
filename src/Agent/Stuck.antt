-- ===== src/Agent/Stuck.antt =====
-- The loop detection of deaddit/agents/executor.py.
use deaddit.Prelude.{
  ◌≡◌, take, select, refl, subst, ℕ, suc, true, ◌&&◌, some, List, ◌∷◌, arith, inl, inr, eq_refl,
  ==_self, ◌==◌,
}
use deaddit.Prelude.Json.{Fields}
use deaddit.Agent.Registry.{
  ToolName, create_post, create_image_post, create_website, create_comment, vote, named, same_tool,
}
use deaddit.Agent.Guards.{ToolCall, World, Context}
use deaddit.Agent.Repeats.{streak_of, loop_state, looping, check_loop}
use deaddit.Agent.Executor.{Answers, Services, execute}
use deaddit.Agent.Permits.{Permitted, Untouched, execute-Permitted}

same_tool_refl : (name : ToolName) → same_tool name name ≡ true
unfolding same_tool
same_tool_refl create_post = refl
same_tool_refl create_image_post = refl
same_tool_refl create_website = refl
same_tool_refl create_comment = refl
same_tool_refl vote = refl
same_tool_refl (named s) = eq_refl s

-- The row of the same call.
pub record IsCall (name : ToolName) (v : Fields) (row : ToolCall) : Type 0 where
  pub same_name : row.name ≡ name
  pub same_arguments : row.arguments ≡ v

is_repeat-IsCall :
    (signature : ToolName → Fields → ℕ) (name : ToolName) (v : Fields) (row : ToolCall)
    → IsCall name v row
    → (same_tool row.name name && signature row.name row.arguments == signature name v) ≡ true
is_repeat-IsCall signature name v row h =
    simp (h.same_name, h.same_arguments, same_tool_refl name, ==_self (signature name v)) refl

-- The audited calls of the run, the newest first.
unfoldable pub calls_of : Context → World → List ToolCall
calls_of ctx w = select (λ row. row.run_id == ctx.run_id) w.tool_calls

loop_state-looping : (n : ℕ) → loop_state (suc (suc n)) ≡ looping
loop_state-looping n = ground arith

check_loop-twice :
    (signature : ToolName → Fields → ℕ) (ctx : Context) (name : ToolName) (v : Fields) (w : World)
    (a b : ToolCall) (rest : List ToolCall)
    → calls_of ctx w ≡ a ∷ b ∷ rest
    → IsCall name v a
    → IsCall name v b
    → check_loop signature ctx name v w ≡ looping
unfolding check_loop streak_of calls_of
check_loop-twice signature ctx name v w a b rest e ha hb =
    simp (e, is_repeat-IsCall signature name v a ha, is_repeat-IsCall signature name v b hb)
      (loop_state-looping (
        streak_of
          (λ row. same_tool row.name name && signature row.name row.arguments == signature name v)
          (take 6 rest)))

-- A call that repeats the two newest audited calls of its run with the same arguments, whatever other
-- runs have called since, leaves the posts and the comments as they are, returns no success and adds
-- nothing to what counts against the persona's rate cap, whatever else holds.
pub execute-stuck :
    (services : Services) (ctx : Context) (answers : Answers) (name : ToolName) (raw v : Fields)
    (w : World) (a b : ToolCall) (rest : List ToolCall)
    → services.validate name raw ≡ some v
    → calls_of ctx w ≡ a ∷ b ∷ rest
    → IsCall name v a
    → IsCall name v b
    → Untouched ctx name w (execute services ctx answers name raw w)
unfolding Permitted
execute-stuck services ctx answers name raw v w a b rest hv e ha hb =
    elim (execute-Permitted services ctx answers name raw w) [
      | inl (tool, v', found, auth, valid, screened, not_looping, active) ↦
          (let same : v ≡ v' = ground arith in
            absurd (
              not_looping (
                subst (λ x. check_loop services.signature ctx name x w ≡ looping) same
                  (check_loop-twice services.signature ctx name v w a b rest e ha hb))))
      | inr u ↦ u
    ]
