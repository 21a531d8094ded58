-- ===== src/Content/Limits.antt =====
-- The settings of deaddit/services/content.py: the cap of a thread, and the rate limits.
use deaddit.Prelude.{
  ℕ, ◌+◌, String, Bool, false, ◌&&◌, Option, none, some, List, leb, str_eq, count_where,
  if◌then◌else◌,
}
use deaddit.Prelude.Int.{ℤ, pos, negsuc}
use deaddit.Content.{Post, Comment, Store, Problem, rate_limited}

-- What the service reads and calls: the moment, `Setting.get_value` (a row may hold no text), `int` of
-- a text, where none is the exception, and the rounded `random.triangular`.
pub record Env : Type 0 where
  pub now : ℕ
  pub setting : String → Option (Option String)
  pub int : String → Option ℤ
  pub triangular : ℕ → ℕ → ℕ

abbrev pub or_else : Option ℤ → ℤ → ℤ
or_else none d = d
or_else (some n) d = n

-- The text of the default is read as the default.
abbrev pub read_setting : Env → Option (Option String) → ℤ → ℤ
read_setting env none d = d
read_setting env (some none) d = d
read_setting env (some (some v)) d = or_else (env.int v) d

abbrev pub at_least_one : ℤ → ℕ → ℕ
at_least_one (negsuc n) d = d
at_least_one (pos n) d = if leb 1 n then n else d

-- `_setting_int` with the minimum 1.
unfoldable pub setting_int : Env → String → ℕ → ℕ
setting_int env key d = at_least_one (read_setting env (env.setting key) (pos d)) d

unfoldable pub sample_comment_cap : Env → ℕ
unfolding setting_int
sample_comment_cap env =
    let lo : ℕ = setting_int env "thread_comment_cap_min" 20 in
    let hi : ℕ = setting_int env "thread_comment_cap_max" 39 in
    if leb hi lo then lo else env.triangular lo hi

abbrev pub hour : ℕ
hour = 3600

-- `created_at >= now - 1 hour`
abbrev pub is_recent : ℕ → ℕ → Bool
is_recent now t = leb now (t + hour)

abbrev pub recent_posts : ℕ → String → List Post → ℕ
recent_posts now user posts =
    count_where (λ p. str_eq p.user user && is_recent now p.created_at) posts

abbrev pub recent_comments : ℕ → String → List Comment → ℕ
recent_comments now user comments =
    count_where (λ c. str_eq c.user user && is_recent now c.created_at) comments

-- A negative limit is none.
abbrev pub is_exceeded : ℤ → ℕ → Bool
is_exceeded (negsuc n) recent = false
is_exceeded (pos limit) recent = leb limit recent

abbrev pub post_limit : Env → ℤ
post_limit env = read_setting env (env.setting "rate_limit_posts_per_hour") (pos 5)

abbrev pub comment_limit : Env → ℤ
comment_limit env = read_setting env (env.setting "rate_limit_comments_per_hour") (pos 30)

-- `_check_rate_limit`, for the two kinds.
unfoldable pub check_post_rate : Env → String → Store → Option Problem
check_post_rate env user s =
    if is_exceeded (post_limit env) (recent_posts env.now user s.posts)
    then some rate_limited
    else none

unfoldable pub check_comment_rate : Env → String → Store → Option Problem
check_comment_rate env user s =
    if is_exceeded (comment_limit env) (recent_comments env.now user s.comments)
    then some rate_limited
    else none
