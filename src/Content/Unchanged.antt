-- ===== src/Content/Unchanged.antt =====
-- What a call of deaddit/services/content.py leaves behind where it raises.
use deaddit.Prelude.{
  ◌≡◌, refl, sym, ap, ◌∙◌, subst, ℕ, String, Bool, true, false, ◌||◌, Option, none, some, List, [],
  ◌∷◌, str_eq, any, if◌then◌else◌, arith, count_where, delete_where,
}
use deaddit.Thread.Cap.{Config}
use deaddit.Content.{Subdeaddit, Post, Store, Problem, Result, created, invalid, database}
use deaddit.Content.Limits.{Env}
use deaddit.Content.Posts.{
  Draft, has_user, validate_post_preflight, new_post, commit_post, unless_invalid, create_post,
  create_image_post, create_website_post, PendingGeneratedWebsite, attach_image, attach_website,
  is_taken, with_cleanup, cleanup_stored_website, text_or_none,
}
use deaddit.Content.Others.{
  CommentDraft, validate_comment, commit_comment, create_comment, create_user, missing_of,
  upsert_subdeaddit, unless_missing, create_subdeaddit,
}
use deaddit.Content.Calls.{Call, post, image, website, comment, user, subdeaddit, outcome, run}
use deaddit.Content.Whole.{outcome_rows}

-- The rows are as they were; where the file of a website could be removed, it is not there.
abbrev pub LeavesRows : Call → Store → Store → Type 0
LeavesRows (website env d w fails true) s t =
    (record t { files = s.files } ≡ s)
    × (count_where (λ path. str_eq path w.storage_path) t.files ≡ 0)
LeavesRows (website env d w fails false) s t = t ≡ s
LeavesRows c s t = t ≡ s

unless-unchanged :
    (o : Option Problem) (rest : Result ℕ × Store) (s : Store)
    → ((outcome rest).0 ≡ false → rest.1 ≡ s)
    → (outcome (unless_invalid o rest s)).0 ≡ false
    → (unless_invalid o rest s).1 ≡ s
unless-unchanged none (created k, t) s h e = h e
unless-unchanged none (invalid p, t) s h e = h e
unless-unchanged none (database, t) s h e = h e
unless-unchanged (some p) rest s h e = refl

commit_post-unchanged :
    (env : Env) (p : Post) (attach : Store → Store) (fails : Bool) (s : Store)
    → (outcome (commit_post env p attach fails s)).0 ≡ false
    → (commit_post env p attach fails s).1 ≡ s
commit_post-unchanged env p attach true s e = refl
commit_post-unchanged env p attach false s e = absurd (cc e)

commit_comment-unchanged :
    (env : Env) (config : Config) (d : CommentDraft) (fails : Bool) (o : Option Problem) (s : Store)
    → (outcome (commit_comment env config d fails o s)).0 ≡ false
    → (commit_comment env config d fails o s).1 ≡ s
commit_comment-unchanged env config d fails (some p) s e = refl
commit_comment-unchanged env config d true none s e = refl
commit_comment-unchanged env config d false none s e = absurd (cc e)

count_where-delete_self :
    {A : Type 0} (p : A → Bool) (xs : List A) → count_where p (delete_where p xs) ≡ 0
count_where-delete_self p [] = refl
count_where-delete_self p (x ∷ xs) = ground (arith, count_where-delete_self p xs)

cleaned :
    (w : PendingGeneratedWebsite) (s t : Store)
    → t ≡ s
    → (record (cleanup_stored_website true w t) { files = s.files } ≡ s)
      × (count_where (λ path. str_eq path w.storage_path) (cleanup_stored_website true w t).files
          ≡ 0)
cleaned w s t e = (
  ap (λ (u : Store). record u { files = s.files }) e,
  count_where-delete_self (λ path. str_eq path w.storage_path) t.files,
)

website-unchanged :
    (env : Env) (d : Draft) (w : PendingGeneratedWebsite) (fails removes : Bool)
    (r : Result ℕ × Store) (s : Store)
    → ((outcome r).0 ≡ false → r.1 ≡ s)
    → (outcome (with_cleanup removes w r)).0 ≡ false
    → LeavesRows (website env d w fails removes) s (with_cleanup removes w r).1
website-unchanged env d w fails removes (created k, t) s h e = absurd (cc e)
website-unchanged env d w fails true (invalid p, t) s h e = cleaned w s t (h refl)
website-unchanged env d w fails true (database, t) s h e = cleaned w s t (h refl)
website-unchanged env d w fails false (invalid p, t) s h e = h refl
website-unchanged env d w fails false (database, t) s h e = h refl

-- A result that raises has the rows of before.
abbrev Undone : {A : Type 0} → Store → Result A × Store → Type 0
Undone s r = (outcome r).0 ≡ false → r.1 ≡ s

if-Undone :
    {A : Type 0} (s : Store) (b : Bool) (x y : Result A × Store)
    → Undone s x
    → Undone s y
    → Undone s (if b then x else y)
if-Undone s true x y h k = h
if-Undone s false x y h k = k

upsert-unchanged :
    (name description : String) (types : List String) (update fails : Bool) (s : Store)
    → Undone s (upsert_subdeaddit name description types update fails s)
upsert-unchanged name description types update fails s =
    if-Undone s (any (λ (d : Subdeaddit). str_eq d.name name) s.subdeaddits) _ _
      (if-Undone s update _ _ (if-Undone s fails (database, s) _ (λ e. refl) (λ e. absurd (cc e)))
        (λ e. refl))
      (if-Undone s fails (database, s) _ (λ e. refl) (λ e. absurd (cc e)))

missing-unchanged :
    (missing : List String) (rest : Result String × Store) (s : Store)
    → ((outcome rest).0 ≡ false → rest.1 ≡ s)
    → (outcome (unless_missing missing rest s)).0 ≡ false
    → (unless_missing missing rest s).1 ≡ s
missing-unchanged [] rest s h e = h e
missing-unchanged (m ∷ ms) rest s h e = refl

-- A call that raises (an invalid argument, an exceeded rate or an error of the database) leaves every
-- row, cache and notification as it was. The file of the website that it was to publish is gone then,
-- if it could be removed, and no other file is touched in the other calls.
pub run-LeavesRows : (c : Call) (s : Store) → (run c s).0 ≡ false → LeavesRows c s (run c s).1
unfolding run create_post create_image_post create_website_post create_comment create_user
    create_subdeaddit
run-LeavesRows (post env d fails) s e =
    outcome_rows _ ∙ unless-unchanged _ _ s (commit_post-unchanged env _ (λ t. t) fails s) e
run-LeavesRows (image env d i fails) s e =
    outcome_rows _
    ∙ unless-unchanged _ _ s (commit_post-unchanged env _ (attach_image i s.next_post) fails s) e
run-LeavesRows (website env d w fails removes) s e =
    subst (λ t. LeavesRows (website env d w fails removes) s t) (sym (outcome_rows _))
      (website-unchanged env d w fails removes _ s
        (unless-unchanged (validate_post_preflight env false d s) _ s (
          commit_post-unchanged env (new_post env d (text_or_none d.content) s.next_post)
            (attach_website w s.next_post) (fails || is_taken w s) s))
        e)
run-LeavesRows (comment env config d fails) s e =
    outcome_rows _ ∙ commit_comment-unchanged env config d fails (validate_comment env d s) s e
run-LeavesRows (user dumps d fails) s e =
    outcome_rows _
    ∙ if-Undone s (fails || has_user d.username s) (database, s) _ (λ e. refl) (λ e. absurd (cc e))
        e
run-LeavesRows (subdeaddit name description types update fails) s e =
    outcome_rows _
    ∙ missing-unchanged (missing_of name description) _ s
        (upsert-unchanged name description types update fails s) e
