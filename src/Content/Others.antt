-- ===== src/Content/Others.antt =====
-- The comments, users and communities of deaddit/services/content.py.
use deaddit.Prelude.{
  ℕ, ◌+◌, String, Bool, false, not, ◌||◌, Option, none, some, List, [], ◌∷◌, ◌++◌, map, ◌==◌,
  str_eq, any, first_where, update_where, if◌then◌else◌,
}
use deaddit.Prelude.Int.{ℤ}
use deaddit.Thread.Cap.{Config}
use deaddit.Thread.Notify.{notify_comment_created}
use deaddit.Thread.{Comment as ThreadComment}
use deaddit.Content.{
  User, Comment, Store, Problem, missing_content, unknown_user, unknown_post, unknown_parent,
  foreign_parent, missing_fields, subdeaddit_exists, Result, created, invalid, database,
}
use deaddit.Content.Limits.{Env, check_comment_rate}
use deaddit.Content.Posts.{has_user, or_now, accounts_of, as_thread_post}

pub record CommentDraft : Type 0 where
  pub post_id : ℕ
  pub content : String
  pub user : String
  pub parent_id : Option ℕ
  pub score : ℤ
  pub created_at : Option ℕ

abbrev pub has_post : ℕ → Store → Bool
has_post k s = any (λ p. p.id == k) s.posts

abbrev pub check_found_parent : ℕ → ℕ → Option Comment → Option Problem
check_found_parent post_id k none = some (unknown_parent k)
check_found_parent post_id k (some c) =
    if c.post_id == post_id then none else some (foreign_parent k post_id)

abbrev pub check_parent : ℕ → Option ℕ → List Comment → Option Problem
check_parent post_id none comments = none
check_parent post_id (some k) comments =
    check_found_parent post_id k (first_where (λ c. c.id == k) comments)

abbrev pub or_problem : Option Problem → Option Problem → Option Problem
or_problem (some p) q = some p
or_problem none q = q

unfoldable pub validate_comment : Env → CommentDraft → Store → Option Problem
unfolding check_comment_rate
validate_comment env d s =
    if str_eq d.content ""
    then some missing_content
    else if not (has_user d.user s)
    then some (unknown_user d.user)
    else if not (has_post d.post_id s)
    then some (unknown_post d.post_id)
    else or_problem (check_parent d.post_id d.parent_id s.comments)
        (check_comment_rate env d.user s)

abbrev pub new_comment : Env → CommentDraft → ℕ → Comment
new_comment env d k = record {
  id = k;
  post_id = d.post_id;
  parent_id = d.parent_id;
  content = d.content;
  user = d.user;
  score = d.score;
  created_at = or_now env d.created_at;
}

abbrev pub insert_comment : Comment → Store → Store
insert_comment c s = record s { comments = s.comments ++ c ∷ []; next_comment = s.next_comment + 1 }

abbrev pub as_thread_comment : Comment → ThreadComment
as_thread_comment c = record {
  id = c.id;
  post_id = c.post_id;
  parent_id = c.parent_id;
  user = c.user;
  content = c.content;
}

-- The caches, the notifications and the event, after the commit.
unfoldable pub run_comment_hooks : Env → Config → Comment → Store → Store
unfolding notify_comment_created
run_comment_hooks env config c s = record s {
  is_cached = false;
  sent =
      notify_comment_created config (accounts_of s) (map as_thread_post s.posts)
        (map as_thread_comment s.comments) (as_thread_comment c) env.now s.sent;
  events =
      s.events
      ++ record {
        event_type = "comment";
        username = c.user;
        post_id = c.post_id;
        comment_id = some c.id;
      }
        ∷ [];
}

abbrev pub commit_comment :
    Env → Config → CommentDraft → Bool → Option Problem → Store → Result ℕ × Store
commit_comment env config d fails (some p) s = (invalid p, s)
commit_comment env config d fails none s =
    let c : Comment = new_comment env d s.next_comment in
    if fails
    then (database, s)
    else (created c.id, run_comment_hooks env config c (insert_comment c s))

unfoldable pub create_comment : Env → Config → CommentDraft → Bool → Store → Result ℕ × Store
unfolding validate_comment run_comment_hooks
create_comment env config d fails s = commit_comment env config d fails (validate_comment env d s) s

-- `dumps` is `json.dumps` of a list, and a text is stored as it is.
pub data Traits : Type 0 where
  listed : List String → Traits
  serialized : String → Traits

abbrev pub to_text : (List String → String) → Traits → String
to_text dumps (listed xs) = dumps xs
to_text dumps (serialized t) = t

abbrev pub gender_of : String → String
gender_of g = if str_eq g "Male" || str_eq g "Female" then g else "Male"

pub record UserDraft : Type 0 where
  pub username : String
  pub gender : String
  pub interests : Traits
  pub personality_traits : Traits
  pub is_troll : Bool

abbrev pub new_user : (List String → String) → UserDraft → User
new_user dumps d = record {
  username = d.username;
  gender = gender_of d.gender;
  interests = to_text dumps d.interests;
  personality_traits = to_text dumps d.personality_traits;
  is_troll = d.is_troll;
  password_hash = none;
}

-- The name is the primary key: a second user of it is an IntegrityError.
unfoldable pub create_user :
    (List String → String) → UserDraft → Bool → Store → Result String × Store
create_user dumps d fails s = if fails || has_user d.username s then (database, s) else (
  created d.username,
  record s { users = s.users ++ new_user dumps d ∷ []; is_cached = false },
)

abbrev pub missing_of : String → String → List String
missing_of name description =
    (if str_eq name "" then "name" ∷ [] else [])
    ++ (if str_eq description "" then "description" ∷ [] else [])

abbrev pub insert_subdeaddit : String → String → List String → Bool → Store → Result String × Store
insert_subdeaddit name description types fails s = if fails then (database, s) else (
  created name,
  record s {
    subdeaddits =
        s.subdeaddits ++ record { name = name; description = description; post_types = types } ∷ [];
    is_cached = false;
  },
)

abbrev pub update_subdeaddit : String → String → List String → Bool → Store → Result String × Store
update_subdeaddit name description types fails s = if fails then (database, s) else (
  created name,
  record s {
    subdeaddits =
        update_where (λ d. str_eq d.name name)
          (λ d. record d { description = description; post_types = types }) s.subdeaddits;
    is_cached = false;
  },
)

abbrev pub upsert_subdeaddit :
    String → String → List String → Bool → Bool → Store → Result String × Store
upsert_subdeaddit name description types update_if_exists fails s =
    if any (λ d. str_eq d.name name) s.subdeaddits
    then (if update_if_exists
        then update_subdeaddit name description types fails s
        else (invalid (subdeaddit_exists name), s))
    else insert_subdeaddit name description types fails s

abbrev pub unless_missing : List String → Result String × Store → Store → Result String × Store
unless_missing [] rest s = rest
unless_missing (m ∷ ms) rest s = (invalid (missing_fields (m ∷ ms)), s)

unfoldable pub create_subdeaddit :
    String → String → List String → Bool → Bool → Store → Result String × Store
create_subdeaddit name description types update_if_exists fails s =
    unless_missing (missing_of name description)
      (upsert_subdeaddit name description types update_if_exists fails s) s
