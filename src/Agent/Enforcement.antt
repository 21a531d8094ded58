-- ===== src/Agent/Enforcement.antt =====
-- Enforcement in deaddit/agents/executor.py against offering in deaddit/agents/registry.py.
use deaddit.Prelude.{
  ◌≡◌, refl, ◌↔◌, Bool, true, false, not, ◌&&◌, none, some, List, arith, if◌then◌else◌, select, In,
  In-selected, subst, In-select,
}
use deaddit.Agent.Registry.{
  AutonomyTier, parse_tier, allows, ToolName, contains, post_tool_names, Tool, is_kept, tools_for,
  offered_at,
}
use deaddit.Agent.Guards.{Context, check_tier, check_post_policy, check_comment}
use deaddit.Agent.Executor.{Problem, not_in_tier, not_in_policy, no_comments, authorize}

check_tier-allows :
    (ctx : Context) (tier required : AutonomyTier)
    → parse_tier ctx.autonomy_tier ≡ some tier
    → check_tier ctx required ≡ allows tier required
unfolding check_tier
check_tier-allows ctx tier required e = rw e refl

gate : (a b : Bool) → (if not a then true else b) ≡ not (a && not b)
gate true true = refl
gate true false = refl
gate false b = refl

three_gates :
    (a b c d : Bool) (p q r : Problem)
    → b ≡ d
    → ((if not a then some p else if not b then some q else if not c then some r else none) ≡ none)
      ↔ ((a ≡ true) × ((c && d) ≡ true))
three_gates a b c d p q r e = (λ h. (ground arith, ground arith), λ h. ground arith)

check_post_policy-offered :
    (name : ToolName) (ctx : Context)
    → check_post_policy name ctx
      ≡ not (
          contains post_tool_names name
          && not (contains (offered_at ctx.config ctx.post_intent) name))
unfolding check_post_policy offered_at
check_post_policy-offered name ctx =
    gate (contains post_tool_names name) (contains (offered_at ctx.config ctx.post_intent) name)

authorize-kept :
    (ctx : Context) (t : Tool) (tier : AutonomyTier)
    → parse_tier ctx.autonomy_tier ≡ some tier
    → (authorize ctx t.name t ≡ none)
      ↔ ((allows tier t.min_tier ≡ true) × (is_kept ctx.config ctx.post_intent t.name ≡ true))
unfolding authorize is_kept check_comment
authorize-kept ctx t tier e =
    subst
      (λ b.
        (authorize ctx t.name t ≡ none)
        ↔ ((b ≡ true) × (is_kept ctx.config ctx.post_intent t.name ≡ true)))
      (check_tier-allows ctx tier t.min_tier e)
      (three_gates (check_tier ctx t.min_tier) (check_post_policy t.name ctx)
        (check_comment t.name ctx)
        (not (
          contains post_tool_names t.name
          && not (contains (offered_at ctx.config ctx.post_intent) t.name)))
        not_in_tier not_in_policy no_comments (check_post_policy-offered t.name ctx))

-- Where the agent's tier is valid, a registered tool is offered to the agent exactly where a call of
-- it passes the gates of the tier, of the post policy and of the reserved visits.
pub tools_for-authorize :
    (registered : List Tool) (ctx : Context) (t : Tool) (tier : AutonomyTier)
    → parse_tier ctx.autonomy_tier ≡ some tier
    → In t registered
    → In t (tools_for registered tier (some ctx.config) ctx.post_intent)
      ↔ (authorize ctx t.name t ≡ none)
unfolding tools_for
tools_for-authorize registered ctx t tier e m =
    let kept = select (λ u. allows tier u.min_tier) registered in
    let k = authorize-kept ctx t tier e in
    (
      λ h.
          let found = In-selected (λ u. is_kept ctx.config ctx.post_intent u.name) t kept h in
          k.1 ((In-selected (λ u. allows tier u.min_tier) t registered (found.1)).0, found.0),
      λ h.
          let (low, high) = k.0 h in
          In-select (λ u. is_kept ctx.config ctx.post_intent u.name) t kept high
            (In-select (λ u. allows tier u.min_tier) t registered low m),
    )
