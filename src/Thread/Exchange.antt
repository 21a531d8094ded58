-- ===== src/Thread/Exchange.antt =====
-- The two users of deaddit/dynamics/threads.py agree on when an exchange is over.
use deaddit.Prelude.{◌≡◌, ℕ, Bool, false, Option, none, some, ◌==◌}
use deaddit.Thread.{Comment}

abbrev pub replies_to : ℕ → Option ℕ → Bool
replies_to k none = false
replies_to k (some i) = i == k

-- The key is neither that of a row nor that of a row's parent.
abbrev pub IsUnused : ℕ → Comment → Type 0
IsUnused k c = ((c.id == k) ≡ false) × (replies_to k c.parent_id ≡ false)
