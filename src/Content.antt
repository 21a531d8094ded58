-- ===== src/Content.antt =====
-- deaddit/services/content.py, the one path by which posts, comments, users and communities are
-- created. The rows are those of deaddit/models.py, with the columns that the checks and the hooks
-- read. A moment is the number of seconds since an epoch.
pub mod Limits
pub mod Title
pub mod Posts
pub mod Others
pub mod Calls
pub mod Sound
pub mod Grown
pub mod Kept
pub mod Whole
pub mod Unchanged
pub mod Rates
mod Scenarios
use deaddit.Prelude.{ℕ, String, Bool, Option, List}
use deaddit.Prelude.Int.{ℤ}
use deaddit.Thread.Notify.{Notification}

pub record User : Type 0 where
  pub username : String
  pub gender : String
  pub interests : String
  pub personality_traits : String
  pub is_troll : Bool
  pub password_hash : Option String

pub record Subdeaddit : Type 0 where
  pub name : String
  pub description : String
  pub post_types : List String

-- A title is the list of its code points.
pub record Post : Type 0 where
  pub id : ℕ
  pub title : List ℕ
  pub content : Option String
  pub user : String
  pub subdeaddit_name : String
  pub score : ℤ
  pub post_type : Option String
  pub comment_cap : ℕ
  pub created_at : ℕ

pub record Comment : Type 0 where
  pub id : ℕ
  pub post_id : ℕ
  pub parent_id : Option ℕ
  pub content : String
  pub user : String
  pub score : ℤ
  pub created_at : ℕ

pub record PostImage : Type 0 where
  pub post_id : ℕ
  pub original_path : String
  pub thumbnail_path : String

pub record GeneratedWebsite : Type 0 where
  pub post_id : ℕ
  pub public_path : String
  pub storage_path : String

pub record ActivityEvent : Type 0 where
  pub event_type : String
  pub username : String
  pub post_id : ℕ
  pub comment_id : Option ℕ

-- The tables; the keys that the database gives next; whether the read caches hold something; and the
-- stored files of the generated websites.
pub record Store : Type 0 where
  pub users : List User
  pub subdeaddits : List Subdeaddit
  pub posts : List Post
  pub comments : List Comment
  pub images : List PostImage
  pub websites : List GeneratedWebsite
  pub next_post : ℕ
  pub next_comment : ℕ
  pub sent : List Notification
  pub events : List ActivityEvent
  pub is_cached : Bool
  pub files : List String

-- The messages of a ContentValidationError.
pub data Problem : Type 0 where
  invalid_post_data : Problem
  missing_content : Problem
  unknown_user : String → Problem
  unknown_subdeaddit : String → Problem
  unknown_post : ℕ → Problem
  unknown_parent : ℕ → Problem
  foreign_parent : ℕ → ℕ → Problem
  rate_limited : Problem
  missing_fields : List String → Problem
  subdeaddit_exists : String → Problem

-- `database` is a SQLAlchemyError.
pub data Result (A : Type 0) : Type 0 where
  created : A → Result A
  invalid : Problem → Result A
  database : Result A
