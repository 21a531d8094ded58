-- ===== src/Agent/Repeats.antt =====
-- Duplicate suppression and loop detection of deaddit/agents/executor.py.
use deaddit.Prelude.{
  ℕ, ◌*◌, ◌-◌, suc, String, Bool, true, not, ◌&&◌, Option, none, some, List, [], ◌∷◌, ◌++◌, ◌==◌,
  leb, take, if◌then◌else◌, select, order_by, str_eq, map,
}
use deaddit.Prelude.Json.{Json, string, Fields, find_field}
use deaddit.Prelude.Text.{codes}
use deaddit.Agent.Registry.{
  ToolName, create_post, create_image_post, create_website, create_comment, same_tool,
}
use deaddit.Agent.Similarity.{normalize, is_short, matches_prior}
use deaddit.Agent.Guards.{
  ToolCall, Post, World, Context, is_newer, is_newer_comment, post_destination,
}

-- The code points of a validated text; a missing or a null one is empty.
abbrev text_at : String → Fields → List ℕ
text_at key validated = text_of (find_field key validated)
  where
    text_of : Option Json → List ℕ
    text_of (some (string s)) = codes s
    text_of _ = []

abbrev joined : List ℕ → List ℕ → List ℕ
joined title content = title ++ (32 ∷ content)

abbrev pub dup_own_limit : ℕ
dup_own_limit = 20

abbrev pub dup_lookback : ℕ
dup_lookback = 48 * 3600

-- `_normalize` of each text is what is compared.
unfoldable pub own_texts : Context → World → List (List ℕ)
unfolding normalize
own_texts ctx w =
    map (λ p. normalize (joined (codes p.title) (codes p.content)))
      (take dup_own_limit
        (order_by is_newer (select (λ p. str_eq p.user ctx.user_username) w.posts)))
    ++ map (λ c. normalize (codes c.content))
        (take dup_own_limit
          (order_by is_newer_comment (select (λ c. str_eq c.user ctx.user_username) w.comments)))

abbrev is_recent_of_others : Context → String → Post → Bool
is_recent_of_others ctx place p =
    str_eq p.subdeaddit_name place
    && (leb (ctx.now - dup_lookback) p.created_at && not (str_eq p.user ctx.user_username))

-- The titles that others used in the community; an empty community is none. The code
-- orders these rows by the moment alone; of equal moments the higher key is taken to come first.
unfoldable pub community_texts : Option String → Context → World → List (List ℕ)
unfolding normalize
community_texts none ctx w = []
community_texts (some place) ctx w =
    if str_eq place ""
    then []
    else map (λ p. normalize (codes p.title))
        (take 100 (order_by is_newer (select (is_recent_of_others ctx place) w.posts)))

-- The text that a call would publish; none where the tool creates no content, or a comment is short.
unfoldable pub candidate_of : ToolName → Fields → Option (List ℕ)
unfolding normalize
candidate_of create_post validated =
    some (normalize (joined (text_at "title" validated) (text_at "content" validated)))
candidate_of create_image_post validated =
    some (normalize (joined (text_at "title" validated) (text_at "content" validated)))
candidate_of create_website validated =
    some (normalize (joined (text_at "title" validated) (text_at "content" validated)))
candidate_of create_comment validated =
    let candidate = normalize (text_at "content" validated) in
    if is_short candidate then none else some candidate
candidate_of _ validated = none

unfoldable pub is_original : Option (List ℕ) → List (List ℕ) → Bool
unfolding matches_prior
is_original none priors = true
is_original (some candidate) priors = not (matches_prior candidate priors)

-- True where no prior text is too similar.
unfoldable pub check_duplicate : ToolName → Context → Fields → World → Bool
unfolding candidate_of own_texts community_texts is_original
check_duplicate name ctx validated w =
    is_original (candidate_of name validated)
      (own_texts ctx w ++ community_texts (post_destination name validated) ctx w)

abbrev loop_window : ℕ
loop_window = 8

-- The loop over the newest calls of the run. `is_repeat` compares the names and the signatures.
unfoldable pub streak_of : (ToolCall → Bool) → List ToolCall → ℕ
streak_of is_repeat [] = 0
streak_of is_repeat (row ∷ rows) =
    let rest = streak_of is_repeat rows in if is_repeat row then suc rest else 0

pub data LoopState : Type 0 where
  fresh repeated looping : LoopState

abbrev pub loop_state : ℕ → LoopState
loop_state n = if leb 2 n then looping else if n == 1 then repeated else fresh

-- `_signature` is a digest of the name and the arguments; `signature` is that function, with its
-- digests numbered.
unfoldable pub check_loop :
    (ToolName → Fields → ℕ) → Context → ToolName → Fields → World → LoopState
unfolding streak_of same_tool
check_loop signature ctx name validated w = loop_state (
    streak_of
      (λ row.
        same_tool row.name name && signature row.name row.arguments == signature name validated)
      (take loop_window (select (λ row. row.run_id == ctx.run_id) w.tool_calls)))
