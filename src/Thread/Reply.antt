-- ===== src/Thread/Reply.antt =====
-- The guards of `_create_comment` of deaddit/agents/tools_write.py, before the comment is created.
use deaddit.Prelude.{
  ℕ, String, Bool, false, not, ◌&&◌, Option, none, some, List, ◌==◌, ltb, leb, if◌then◌else◌,
  first_where, count_where, str_eq,
}
use deaddit.Thread.{Comment}
use deaddit.Thread.Chain.{exchange_tail_for_reply}
use deaddit.Thread.Cap.{Config, exchange_cap}

-- A Post row, with the columns that the guards read.
pub record Post : Type 0 where
  pub id : ℕ
  pub user : String
  pub comment_cap : Option ℕ

pub data Refusal : Type 0 where
  no_post thread_full no_parent exchange_over : Refusal

abbrev is_full : Option ℕ → ℕ → Bool
is_full none existing = false
is_full (some cap) existing = leb cap existing

-- A reply would push the exchange of the two past its cap.
unfoldable pub goes_past : Config → List Comment → ℕ → ℕ → String → String → Bool
unfolding exchange_tail_for_reply exchange_cap
goes_past config comments post_id parent_id parent_author author =
    not (str_eq parent_author author)
    && ltb (exchange_cap config post_id parent_author author)
        (exchange_tail_for_reply comments (some parent_id) author)

abbrev check_parent : Config → List Comment → ℕ → ℕ → String → Option Comment → Option Refusal
check_parent config comments post_id parent_id author none = some no_parent
check_parent config comments post_id parent_id author (some parent) =
    if not (parent.post_id == post_id)
    then some no_parent
    else if goes_past config comments post_id parent_id parent.user author
    then some exchange_over
    else none

abbrev check_reply : Config → List Comment → ℕ → String → Option ℕ → Option Refusal
check_reply config comments post_id author none = none
check_reply config comments post_id author (some parent_id) =
    check_parent config comments post_id parent_id author
      (first_where (λ c. c.id == parent_id) comments)

abbrev check_post : Config → List Comment → ℕ → String → Option ℕ → Option Post → Option Refusal
check_post config comments post_id author parent_id none = some no_post
check_post config comments post_id author parent_id (some post) =
    if is_full post.comment_cap (count_where (λ c. c.post_id == post_id) comments)
    then some thread_full
    else check_reply config comments post_id author parent_id

-- Why a comment is refused; none where it goes on to be created.
unfoldable pub refusal_of :
    Config → List Post → List Comment → ℕ → Option ℕ → String → Option Refusal
unfolding goes_past
refusal_of config posts comments post_id parent_id author =
    check_post config comments post_id author parent_id (first_where (λ p. p.id == post_id) posts)
