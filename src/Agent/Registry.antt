-- ===== src/Agent/Registry.antt =====
-- deaddit/agents/registry.py: the tiers, the post configurations and the tools that are offered.
use deaddit.Prelude.{
  ℕ, String, Bool, true, false, not, ◌&&◌, Option, none, some, List, [], ◌∷◌, leb, if◌then◌else◌,
  str_eq, any, select,
}
use deaddit.Prelude.Json.{Json, string, object, find_field, is_truthy}

pub data AutonomyTier : Type 0 where
  lurker regular power_user : AutonomyTier

-- `rank`: the position in the enumeration.
abbrev pub rank : AutonomyTier → ℕ
rank lurker = 0
rank regular = 1
rank power_user = 2

unfoldable pub allows : AutonomyTier → AutonomyTier → Bool
allows tier required = leb (rank required) (rank tier)

-- `none` is the ValueError of an unknown tier.
unfoldable pub parse_tier : String → Option AutonomyTier
parse_tier s =
    if str_eq s "lurker"
    then some lurker
    else if str_eq s "regular"
    then some regular
    else if str_eq s "power_user"
    then some power_user
    else none

-- The names that the code compares with; `named` is any other.
pub data ToolName : Type 0 where
  create_post create_image_post create_website create_comment vote : ToolName
  named : String → ToolName

unfoldable pub same_tool : ToolName → ToolName → Bool
same_tool create_post create_post = true
same_tool create_image_post create_image_post = true
same_tool create_website create_website = true
same_tool create_comment create_comment = true
same_tool vote vote = true
same_tool (named s) (named t) = str_eq s t
same_tool _ _ = false

abbrev pub contains : List ToolName → ToolName → Bool
contains names name = any (λ n. same_tool n name) names

-- `POST_TOOL_NAMES`
abbrev pub post_tool_names : List ToolName
post_tool_names = create_post ∷ create_image_post ∷ create_website ∷ []

-- The intents that the code tells apart; `open_visit` is "post", "browse" or any other.
pub data Intent : Type 0 where
  image website backstage open_visit : Intent

abbrev pub is_reserved : Intent → Bool
is_reserved open_visit = false
is_reserved _ = true

pub data Policy : Type 0 where
  optional image_only website_only : Policy

-- A normalized configuration; a website's has no provider and no model.
pub record PostConfig : Type 0 where
  pub enabled : Bool
  pub policy : Policy
  pub provider_id : Option Json
  pub model : Option Json

abbrev pub disabled_config : PostConfig
disabled_config = record { enabled = false; policy = optional; provider_id = none; model = none }

abbrev pub locked : Policy → PostConfig
locked p = record { enabled = true; policy = p; provider_id = none; model = none }

-- `raw.get("enabled")` as a condition.
abbrev flag : Option Json → Bool
flag none = false
flag (some v) = is_truthy v

abbrev is_image_only : Option Json → Bool
is_image_only (some (string s)) = str_eq s "image_only"
is_image_only _ = false

abbrev is_website_only : Option Json → Bool
is_website_only (some (string s)) = str_eq s "website_only"
is_website_only _ = false

image_config_of : Option Json → PostConfig
image_config_of (some (object raw)) =
    if not (flag (find_field "enabled" raw)) then disabled_config else record {
      enabled = true;
      policy = if is_image_only (find_field "policy" raw) then image_only else optional;
      provider_id = find_field "provider_id" raw;
      model = find_field "model" raw;
    }
image_config_of _ = disabled_config

website_config_of : Option Json → PostConfig
website_config_of (some (object raw)) =
    if not (flag (find_field "enabled" raw)) then disabled_config else record {
      enabled = true;
      policy = if is_website_only (find_field "policy" raw) then website_only else optional;
      provider_id = none;
      model = none;
    }
website_config_of _ = disabled_config

abbrev config_entry : String → Json → Option Json
config_entry key (object config) = find_field key config
config_entry key _ = none

-- Both take the agent's `config` column.
unfoldable pub image_posts_config : Json → PostConfig
unfolding image_config_of
image_posts_config config = image_config_of (config_entry "image_posts" config)

unfoldable pub website_posts_config : Json → PostConfig
unfolding website_config_of
website_posts_config config = website_config_of (config_entry "website_posts" config)

abbrev pub is_policy : Policy → Policy → Bool
is_policy image_only image_only = true
is_policy website_only website_only = true
is_policy optional optional = true
is_policy _ _ = false

unfoldable pub offered_post_tool_names : PostConfig → PostConfig → List ToolName
offered_post_tool_names image_cfg website_cfg =
    let only_image = image_cfg.enabled && is_policy image_cfg.policy image_only in
    let only_website = website_cfg.enabled && is_policy website_cfg.policy website_only in
    if only_image && only_website
    then []
    else if only_image
    then create_image_post ∷ []
    else if only_website
    then create_website ∷ []
    else create_post
      ∷ (if image_cfg.enabled
          then create_image_post ∷ (if website_cfg.enabled then create_website ∷ [] else [])
          else if website_cfg.enabled
          then create_website ∷ []
          else [])

-- Where the intent is not available: both locks at once, which offer nothing.
abbrev pub conflicting : PostConfig × PostConfig
conflicting = (locked image_only, locked website_only)

-- On the two static configurations.
unfoldable pub lock_intent : Intent → PostConfig → PostConfig → PostConfig × PostConfig
unfolding offered_post_tool_names same_tool
lock_intent backstage img web =
    if contains (offered_post_tool_names img web) create_post
    then (disabled_config, disabled_config)
    else conflicting
lock_intent image img web =
    if contains (offered_post_tool_names img web) create_image_post
    then (record img { policy = image_only }, disabled_config)
    else conflicting
lock_intent website img web =
    if contains (offered_post_tool_names img web) create_website
    then (disabled_config, record web { policy = website_only })
    else conflicting
lock_intent open_visit img web = (img, web)

unfoldable pub effective_post_configs : Json → Intent → PostConfig × PostConfig
unfolding lock_intent image_posts_config website_posts_config
effective_post_configs config intent =
    lock_intent intent (image_posts_config config) (website_posts_config config)

-- The names that an agent is offered at an intent.
unfoldable pub offered_at : Json → Intent → List ToolName
unfolding effective_post_configs offered_post_tool_names
offered_at config intent =
    let (img, web) = effective_post_configs config intent in offered_post_tool_names img web

pub record Tool : Type 0 where
  pub name : ToolName
  pub min_tier : AutonomyTier

-- The filter of `tools_for` where an agent is given.
unfoldable pub is_kept : Json → Intent → ToolName → Bool
unfolding offered_at same_tool
is_kept config intent name =
    not (is_reserved intent && same_tool name create_comment)
    && not (contains post_tool_names name && not (contains (offered_at config intent) name))

-- `registered` is what `all_tools()` returns; without an agent only the tier filters.
unfoldable pub tools_for : List Tool → AutonomyTier → Option Json → Intent → List Tool
unfolding is_kept allows
tools_for registered tier none intent = select (λ t. allows tier t.min_tier) registered
tools_for registered tier (some config) intent =
    select (λ t. is_kept config intent t.name) (select (λ t. allows tier t.min_tier) registered)
