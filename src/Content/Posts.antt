-- ===== src/Content/Posts.antt =====
-- The posts of deaddit/services/content.py: texts, images and generated websites. The detection of
-- repetition, which only writes flags of its own and never raises, is not modelled.
use deaddit.Prelude.{
  ℕ, ◌+◌, String, Bool, true, false, not, ◌&&◌, ◌||◌, Option, none, some, List, [], ◌∷◌, ◌++◌, map,
  str_eq, any, delete_where, if◌then◌else◌,
}
use deaddit.Prelude.Int.{ℤ}
use deaddit.Prelude.Text.{codes}
use deaddit.Prelude.Dict.{get_or}
use deaddit.Thread.Notify.{Account, notify_post_created}
use deaddit.Thread.Reply.{Post as ThreadPost}
use deaddit.Content.{
  User, Post, Store, Problem, invalid_post_data, unknown_user, unknown_subdeaddit, Result, created,
  invalid, database,
}
use deaddit.Content.Limits.{Env, sample_comment_cap, check_post_rate}
use deaddit.Content.Title.{process_post_title}

-- The arguments of the three creators that they share.
pub record Draft : Type 0 where
  pub title : String
  pub content : Option String
  pub user : String
  pub subdeaddit : String
  pub score : ℤ
  pub post_type : Option String
  pub created_at : Option ℕ

abbrev pub has_user : String → Store → Bool
has_user name s = any (λ u. str_eq u.username name) s.users

abbrev pub has_subdeaddit : String → Store → Bool
has_subdeaddit name s = any (λ d. str_eq d.name name) s.subdeaddits

-- `not text` of an optional text.
abbrev pub is_blank : Option String → Bool
is_blank none = true
is_blank (some t) = str_eq t ""

-- `_validate_post_preflight`
unfoldable pub validate_post_preflight : Env → Bool → Draft → Store → Option Problem
unfolding check_post_rate
validate_post_preflight env require_content d s =
    if str_eq d.title "" || (require_content && is_blank d.content)
    then some invalid_post_data
    else if not (has_user d.user s)
    then some (unknown_user d.user)
    else if not (has_subdeaddit d.subdeaddit s)
    then some (unknown_subdeaddit d.subdeaddit)
    else check_post_rate env d.user s

abbrev pub or_now : Env → Option ℕ → ℕ
or_now env none = env.now
or_now env (some t) = t

abbrev pub new_post : Env → Draft → Option String → ℕ → Post
new_post env d content k = record {
  id = k;
  title = process_post_title (codes d.title);
  content = content;
  user = d.user;
  subdeaddit_name = d.subdeaddit;
  score = d.score;
  post_type = d.post_type;
  comment_cap = sample_comment_cap env;
  created_at = or_now env d.created_at;
}

abbrev pub insert_post : Post → Store → Store
insert_post p s = record s { posts = s.posts ++ p ∷ []; next_post = s.next_post + 1 }

abbrev pub accounts_of : Store → List Account
accounts_of s =
    map (λ (u : User). record { username = u.username; password_hash = u.password_hash }) s.users

-- The row that the notifications read.
abbrev pub as_thread_post : Post → ThreadPost
as_thread_post p = record { id = p.id; user = p.user; comment_cap = some p.comment_cap }

-- `_run_post_hooks`
unfoldable pub run_post_hooks : Env → Post → Store → Store
unfolding notify_post_created
run_post_hooks env p s = record s {
  is_cached = false;
  sent =
      notify_post_created (accounts_of s) (as_thread_post p) (get_or p.content "") env.now s.sent;
  events =
      s.events
      ++ record { event_type = "post"; username = p.user; post_id = p.id; comment_id = none } ∷ [];
}

abbrev pub commit_post : Env → Post → (Store → Store) → Bool → Store → Result ℕ × Store
commit_post env p attach fails s =
    if fails then (database, s) else (created p.id, run_post_hooks env p (attach (insert_post p s)))

abbrev pub unless_invalid : Option Problem → Result ℕ × Store → Store → Result ℕ × Store
unless_invalid none rest s = rest
unless_invalid (some p) rest s = (invalid p, s)

-- `fails` is that the commit raises, after which the session is rolled back.
unfoldable pub create_post : Env → Draft → Bool → Store → Result ℕ × Store
unfolding validate_post_preflight run_post_hooks
create_post env d fails s =
    unless_invalid (validate_post_preflight env true d s)
      (commit_post env (new_post env d d.content s.next_post) (λ t. t) fails s) s

-- `content or None`
abbrev pub text_or_none : Option String → Option String
text_or_none content = if is_blank content then none else content

-- The paths of the stored image; the other columns are not read again.
pub record PendingPostImage : Type 0 where
  pub original_path : String
  pub thumbnail_path : String

abbrev pub attach_image : PendingPostImage → ℕ → Store → Store
attach_image image k s = record s {
  images =
      s.images
      ++ record {
        post_id = k;
        original_path = image.original_path;
        thumbnail_path = image.thumbnail_path;
      }
        ∷ [];
}

unfoldable pub preflight_image_post : Env → Draft → Store → Option Problem
unfolding validate_post_preflight
preflight_image_post env d s = validate_post_preflight env false d s

unfoldable pub create_image_post : Env → Draft → PendingPostImage → Bool → Store → Result ℕ × Store
unfolding validate_post_preflight run_post_hooks
create_image_post env d image fails s =
    unless_invalid (validate_post_preflight env false d s)
      (commit_post env (new_post env d (text_or_none d.content) s.next_post)
        (attach_image image s.next_post) fails s)
      s

pub record PendingGeneratedWebsite : Type 0 where
  pub public_path : String
  pub storage_path : String

abbrev pub attach_website : PendingGeneratedWebsite → ℕ → Store → Store
attach_website website k s = record s {
  websites =
      s.websites
      ++ record {
        post_id = k;
        public_path = website.public_path;
        storage_path = website.storage_path;
      }
        ∷ [];
}

-- The two unique columns.
abbrev pub is_taken : PendingGeneratedWebsite → Store → Bool
is_taken website s =
    any
      (λ w. str_eq w.public_path website.public_path || str_eq w.storage_path website.storage_path)
      s.websites

-- `_cleanup_stored_website`, which is silent where the removal fails.
abbrev pub cleanup_stored_website : Bool → PendingGeneratedWebsite → Store → Store
cleanup_stored_website removes website s =
    if removes
    then record s { files = delete_where (λ path. str_eq path website.storage_path) s.files }
    else s

abbrev pub with_cleanup : Bool → PendingGeneratedWebsite → Result ℕ × Store → Result ℕ × Store
with_cleanup removes website (created k, s) = (created k, s)
with_cleanup removes website (invalid p, s) = (invalid p, cleanup_stored_website removes website s)
with_cleanup removes website (database, s) = (database, cleanup_stored_website removes website s)

-- The screenshot that is attached afterwards changes none of these rows.
unfoldable pub create_website_post :
    Env → Draft → PendingGeneratedWebsite → Bool → Bool → Store → Result ℕ × Store
unfolding validate_post_preflight run_post_hooks
create_website_post env d website fails removes s = with_cleanup removes website (
    unless_invalid (validate_post_preflight env false d s)
      (commit_post env (new_post env d (text_or_none d.content) s.next_post)
        (attach_website website s.next_post) (fails || is_taken website s) s)
      s)
