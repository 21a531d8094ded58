-- ===== src/Thread.antt =====
-- Reply chains: deaddit/dynamics/threads.py, which says when an exchange is over, and its two users,
-- deaddit/dynamics/notifications.py and the tool `create_comment` of deaddit/agents/tools_write.py.
pub mod Chain
pub mod Cap
pub mod Notify
pub mod Reply
pub mod Exchange
pub mod Told
mod Scenarios
use deaddit.Prelude.{ℕ, String, Option}

-- A Comment row, with the columns that the three modules read.
pub record Comment : Type 0 where
  pub id : ℕ
  pub post_id : ℕ
  pub parent_id : Option ℕ
  pub user : String
  pub content : String
