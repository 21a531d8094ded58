-- ===== src/Content/Scenarios.antt =====
-- Two users, a community, and calls of the creators of deaddit/services/content.py.
use deaddit.Prelude.{◌≡◌, refl, String, true, false, none, some, List, [], ◌∷◌, arith, length, map}
use deaddit.Prelude.Int.{pos}
use deaddit.Prelude.Text.{codes}
use deaddit.Thread.Cap.{Config}
use deaddit.Thread.Notify.{
  Notification, notify_post_created, notify_comment_created, emit_mentions, emit, is_human,
  mentioned_usernames, known_once, find_tokens, reply_recipient, ends_exchange,
}
use deaddit.Content.{User, Store, Comment}
use deaddit.Content.Limits.{Env, check_post_rate, check_comment_rate}
use deaddit.Content.Title.{process_post_title, remove_tags, rename_reddit}
use deaddit.Content.Posts.{
  Draft, PendingGeneratedWebsite, validate_post_preflight, run_post_hooks, create_post,
  create_website_post,
}
use deaddit.Content.Others.{CommentDraft, validate_comment, run_comment_hooks, create_comment}
use deaddit.Content.Calls.{Call, post, comment, website, run, run_all}
use deaddit.Content.Sound.{IsSound}
use deaddit.Content.Whole.{run_all-IsSound}
use deaddit.Content.Unchanged.{LeavesRows, run-LeavesRows}
use deaddit.Content.Rates.{IsLimited, run-IsLimited}

-- No text is a number, so that all settings have their defaults.
abbrev env : Env
env = record { now = 5000; setting = λ key. none; int = λ t. none; triangular = λ lo hi. lo }

abbrev config : Config
config = record { cap_min = ""; cap_max = ""; int = λ t. none; crc32 = λ n cs. 0 }

abbrev simulated : String → User
simulated name = record {
  username = name;
  gender = "Male";
  interests = "[]";
  personality_traits = "[]";
  is_troll = false;
  password_hash = none;
}

abbrev opened : Store
opened = record {
  users = simulated "ada" ∷ simulated "bea" ∷ [];
  subdeaddits = record { name = "pictures"; description = "Pictures"; post_types = [] } ∷ [];
  posts = [];
  comments = [];
  images = [];
  websites = [];
  next_post = 1;
  next_comment = 1;
  sent = [];
  events = [];
  is_cached = true;
  files = "pages/ab/lighthouse.html" ∷ [];
}

opened-IsSound : IsSound opened
opened-IsSound = record {
  posts = tt;
  comments = tt;
  images = tt;
  websites = tt;
  paths = λ path. (omega arith, omega arith);
}

abbrev draft : Draft
draft = record {
  title = "<p>Not reddit";
  content = some "Look, @bea";
  user = "ada";
  subdeaddit = "pictures";
  score = pos 0;
  post_type = none;
  created_at = none;
}

abbrev reply_draft : CommentDraft
reply_draft = record {
  post_id = 1;
  content = "Nice";
  user = "bea";
  parent_id = none;
  score = pos 0;
  created_at = none;
}

abbrev site : PendingGeneratedWebsite
site = record { public_path = "lighthouse"; storage_path = "pages/ab/lighthouse.html" }

abbrev calls : List Call
calls =
    post env draft false
    ∷ comment env config reply_draft false
    ∷ comment env config (record reply_draft { parent_id = some 7 }) false
    ∷ []

run_all-IsSound_example : IsSound (run_all calls opened)
run_all-IsSound_example = run_all-IsSound calls opened opened-IsSound

-- The community is not there, and the file of the website is removed.
abbrev lost : Call
lost = website env (record draft { subdeaddit = "nowhere" }) site false true

lost_fails : (run lost opened).0 ≡ false
unfolding run create_website_post validate_post_preflight
lost_fails = refl

run-LeavesRows_example : LeavesRows lost opened (run lost opened).1
run-LeavesRows_example = run-LeavesRows lost opened lost_fails

posted : (run (post env draft false) opened).0 ≡ true
unfolding run create_post validate_post_preflight check_post_rate
posted = refl

run-IsLimited_example : IsLimited (post env draft false) (run (post env draft false) opened).1
run-IsLimited_example = run-IsLimited (post env draft false) opened posted

-- Tests: the title, and the rows after the three calls, of which the last has a parent that is not there.
titled : process_post_title (codes "<br>Not <p>ReDDit") ≡ codes "Not deaddit"
unfolding process_post_title remove_tags rename_reddit
titled = refl

after_calls :
    (length (run_all calls opened).posts ≡ 1)
    × (map (λ (c : Comment). c.id) (run_all calls opened).comments ≡ 1 ∷ [])
unfolding run_all run create_post validate_post_preflight check_post_rate run_post_hooks
    create_comment validate_comment check_comment_rate run_comment_hooks
after_calls = (refl, refl)

told : map (λ (n : Notification). n.recipient) (run_all calls opened).sent ≡ "bea" ∷ "ada" ∷ []
unfolding run_all run create_post validate_post_preflight check_post_rate run_post_hooks
    create_comment validate_comment check_comment_rate run_comment_hooks notify_post_created
    notify_comment_created emit_mentions emit is_human mentioned_usernames known_once find_tokens
    reply_recipient ends_exchange
told = refl
