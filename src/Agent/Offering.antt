-- ===== src/Agent/Offering.antt =====
-- What deaddit/agents/registry.py offers at each intent.
use deaddit.Prelude.{◌≡◌, true, [], ◌∷◌, arith, if◌then◌else◌}
use deaddit.Prelude.Json.{Json}
use deaddit.Agent.Registry.{
  ToolName, create_post, create_image_post, create_website, Intent, image, website, backstage,
  open_visit, is_reserved, PostConfig, contains, offered_post_tool_names, lock_intent,
  image_posts_config, website_posts_config, offered_at, same_tool,
}

-- The tool of a reserved visit.
abbrev pub tool_of : Intent → ToolName
tool_of image = create_image_post
tool_of website = create_website
tool_of _ = create_post

reserved_offer :
    (img web : PostConfig) (i : Intent)
    → is_reserved i ≡ true
    → let (img', web') = lock_intent i img web in
      offered_post_tool_names img' web'
      ≡ (if contains (offered_post_tool_names img web) (tool_of i) then tool_of i ∷ [] else [])
unfolding lock_intent offered_post_tool_names same_tool
reserved_offer img web image h = ground arith
reserved_offer img web website h = ground arith
reserved_offer img web backstage h = ground arith
reserved_offer img web open_visit h = cc

-- At a reserved visit an agent is offered the tool of the visit and nothing else, and that exactly
-- where its static configuration offers it; otherwise it is offered no post tool at all.
pub offered_at-reserved :
    (config : Json) (i : Intent)
    → is_reserved i ≡ true
    → offered_at config i
      ≡ (if contains (offered_at config open_visit) (tool_of i) then tool_of i ∷ [] else [])
unfolding offered_at
offered_at-reserved config i h =
    reserved_offer (image_posts_config config) (website_posts_config config) i h
