-- ===== src/Vote.antt =====
-- deaddit/dynamics/votes.py and deaddit/dynamics/karma.py: casting a vote and the nightly repair.
-- `Store` holds the rows and columns of the tables that the two modules read and write (Post,
-- Comment, User, Vote, Setting and ActivityEvent of deaddit/models.py).
pub mod Cast
pub mod Tally
pub mod Moves
pub mod Counters
pub mod Table
pub mod Credits
pub mod Apply
pub mod Consistency
pub mod Recompute
pub mod Repair
pub mod Outcomes
mod Scenarios
use deaddit.Prelude.{ℕ, String, Bool, false, Option, List, id_eq}
use deaddit.Prelude.Int.{ℤ}

-- A Post or Comment row.
pub record Item : Type 0 where
  pub id : ℕ
  pub user : String
  pub score : ℤ
  pub vote_count : ℤ

pub record User : Type 0 where
  pub username : String
  pub post_karma : ℤ
  pub comment_karma : ℤ

pub record Vote : Type 0 where
  pub id : ℕ
  pub voter : Option String
  pub visitor_hash : Option String
  pub post_id : Option ℕ
  pub comment_id : Option ℕ
  pub value : ℤ
  pub source : String

-- The event row that a changed vote leaves; its type is "vote" and it has no `meta`.
pub record ActivityEvent : Type 0 where
  pub username : Option String
  pub post_id : Option ℕ
  pub comment_id : Option ℕ

-- `next_vote` is the key that the database gives to the next Vote row. `allow_downvotes` is the
-- value of the Setting row of that name: `none` where there is no row, `some none` for NULL.
pub record Store : Type 0 where
  pub posts : List Item
  pub comments : List Item
  pub users : List User
  pub votes : List Vote
  pub next_vote : ℕ
  pub allow_downvotes : Option (Option String)
  pub events : List ActivityEvent

-- The argument `target`: a key of `_MODELS`, or any other text.
pub data Target : Type 0 where
  post comment : Target
  other : String → Target

-- A vote row's target is the given item.
abbrev pub is_on : Target → ℕ → Vote → Bool
is_on post i v = id_eq v.post_id i
is_on comment i v = id_eq v.comment_id i
is_on (other t) i v = false
