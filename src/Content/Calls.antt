-- ===== src/Content/Calls.antt =====
-- A call of one of the creators of deaddit/services/content.py, and a sequence of calls.
use deaddit.Prelude.{String, Bool, true, false, List, [], ◌∷◌}
use deaddit.Thread.Cap.{Config}
use deaddit.Content.{Store, Result, created, invalid, database}
use deaddit.Content.Limits.{Env}
use deaddit.Content.Posts.{
  Draft, PendingPostImage, PendingGeneratedWebsite, create_post, create_image_post,
  create_website_post,
}
use deaddit.Content.Others.{CommentDraft, UserDraft, create_comment, create_user, create_subdeaddit}

-- Each has its own moment and settings, and its own failures of the database.
pub data Call : Type 0 where
  post : Env → Draft → Bool → Call
  image : Env → Draft → PendingPostImage → Bool → Call
  website : Env → Draft → PendingGeneratedWebsite → Bool → Bool → Call
  comment : Env → Config → CommentDraft → Bool → Call
  user : (List String → String) → UserDraft → Bool → Call
  subdeaddit : String → String → List String → Bool → Bool → Call

-- Whether the call returned, and the rows.
abbrev pub outcome : {A : Type 0} → Result A × Store → Bool × Store
outcome (created k, s) = (true, s)
outcome (invalid p, s) = (false, s)
outcome (database, s) = (false, s)

unfoldable pub run : Call → Store → Bool × Store
run (post env d fails) s = outcome (create_post env d fails s)
run (image env d i fails) s = outcome (create_image_post env d i fails s)
run (website env d w fails removes) s = outcome (create_website_post env d w fails removes s)
run (comment env config d fails) s = outcome (create_comment env config d fails s)
run (user dumps d fails) s = outcome (create_user dumps d fails s)
run (subdeaddit name description types update fails) s =
    outcome (create_subdeaddit name description types update fails s)

unfoldable pub run_all : List Call → Store → Store
unfolding run
run_all [] s = s
run_all (c ∷ cs) s = run_all cs (run c s).1
