-- ===== src/Content/Rates.antt =====
-- The rate limits of deaddit/services/content.py.
use deaddit.Prelude.{
  ◌≡◌, refl, sym, ◌∙◌, subst, ℕ, ◌+◌, ◌≤◌, String, Bool, true, false, ◌&&◌, ◌||◌, Option, none,
  some, List, [], ◌∷◌, ◌++◌, ltb, str_eq, arith, Option-cases, inl, inr, count_where,
  count_where-append,
}
use deaddit.Thread.Cap.{Config}
use deaddit.Content.{Post, Comment, Store, Problem, Result, created, invalid, database}
use deaddit.Content.Limits.{
  Env, check_post_rate, check_comment_rate, recent_posts, recent_comments, is_recent, post_limit,
  comment_limit, is_exceeded,
}
use deaddit.Content.Posts.{
  Draft, validate_post_preflight, new_post, insert_post, run_post_hooks, commit_post,
  unless_invalid, create_post, create_image_post, create_website_post, PendingGeneratedWebsite,
  attach_image, attach_website, is_taken, with_cleanup, text_or_none,
}
use deaddit.Content.Others.{
  CommentDraft, validate_comment, new_comment, run_comment_hooks, commit_comment, create_comment,
}
use deaddit.Content.Calls.{Call, post, image, website, comment, user, subdeaddit, outcome, run}
use deaddit.Prelude.Int.{ℤ, pos, negsuc}
use deaddit.Content.Kept.{preflight-has}
use deaddit.Content.Whole.{outcome_rows, comment-has}

-- More rows than the limit; a negative limit is none.
abbrev pub is_over : ℤ → ℕ → Bool
is_over (negsuc n) count = false
is_over (pos limit) count = ltb limit count

-- The author has no more recent posts, or comments, than the limit of the call.
abbrev pub IsLimited : Call → Store → Type 0
IsLimited (post env d fails) t =
    is_over (post_limit env) (recent_posts env.now d.user t.posts) ≡ false
IsLimited (image env d i fails) t =
    is_over (post_limit env) (recent_posts env.now d.user t.posts) ≡ false
IsLimited (website env d w fails removes) t =
    is_over (post_limit env) (recent_posts env.now d.user t.posts) ≡ false
IsLimited (comment env config d fails) t =
    is_over (comment_limit env) (recent_comments env.now d.user t.comments) ≡ false
IsLimited c t = Unit

below-over :
    (limit : ℤ) (before after : ℕ)
    → is_exceeded limit before ≡ false
    → after ≤ before + 1
    → is_over limit after ≡ false
below-over (negsuc n) before after h l = refl
below-over (pos n) before after h l = ground arith

one_more :
    {A : Type 0} (test : A → Bool) (xs : List A) (a : A)
    → count_where test (xs ++ a ∷ []) ≤ count_where test xs + 1
one_more test xs a = ground (arith, count_where-append test xs (a ∷ []))

module _ (env : Env) (user : String) (s : Store) where
  post_rate-over :
      (p : Post)
      → check_post_rate env user s ≡ none
      → is_over (post_limit env) (recent_posts env.now user (s.posts ++ p ∷ [])) ≡ false
  unfolding check_post_rate
  post_rate-over p h =
      below-over (post_limit env) (recent_posts env.now user s.posts) _ (ground arith)
        (one_more (λ (q : Post). str_eq q.user user && is_recent env.now q.created_at) s.posts p)

  comment_rate-over :
      (c : Comment)
      → check_comment_rate env user s ≡ none
      → is_over (comment_limit env) (recent_comments env.now user (s.comments ++ c ∷ [])) ≡ false
  unfolding check_comment_rate
  comment_rate-over c h =
      below-over (comment_limit env) (recent_comments env.now user s.comments) _ (ground arith) (
        one_more (λ (q : Comment). str_eq q.user user && is_recent env.now q.created_at) s.comments
          c)

-- The posts of a result that is a success.
abbrev Posted : Store → Post → Result ℕ × Store → Type 0
Posted s p r = (outcome r).0 ≡ true → r.1.posts ≡ s.posts ++ p ∷ []

committed-Posted :
    (env : Env) (p : Post) (attach : Store → Store) (fails : Bool) (s : Store)
    → (attach (insert_post p s)).posts ≡ s.posts ++ p ∷ []
    → Posted s p (commit_post env p attach fails s)
unfolding run_post_hooks
committed-Posted env p attach true s a e = absurd (cc e)
committed-Posted env p attach false s a e = a

module _ (env : Env) (b : Bool) (d : Draft) (p : Post) (s : Store) where
  limited :
      (rest : Result ℕ × Store)
      → Posted s p rest
      → (outcome (unless_invalid (validate_post_preflight env b d s) rest s)).0 ≡ true
      → is_over (post_limit env) (
          recent_posts env.now d.user
            (unless_invalid (validate_post_preflight env b d s) rest s).1.posts)
        ≡ false
  limited rest h e = elim (Option-cases (validate_post_preflight env b d s)) [
    | inl n ↦
        (let rows : rest.1.posts ≡ s.posts ++ p ∷ [] =
            h (subst (λ o. (outcome (unless_invalid o rest s)).0 ≡ true) n e) in
          rw (n) (
            subst (λ posts. is_over (post_limit env) (recent_posts env.now d.user posts) ≡ false)
              (sym rows) (post_rate-over env d.user s p (preflight-has env b d s n).2)))
    | inr (q, n) ↦ absurd (
        let e' : (outcome (unless_invalid (some q) rest s)).0 ≡ true =
          subst (λ o. (outcome (unless_invalid o rest s)).0 ≡ true) n e in
        cc e')
  ]

with_cleanup-created :
    (removes : Bool) (w : PendingGeneratedWebsite) (r : Result ℕ × Store)
    → (outcome (with_cleanup removes w r)).0 ≡ true
    → ((outcome r).0 ≡ true) × ((with_cleanup removes w r).1 ≡ r.1)
with_cleanup-created removes w (created k, s) e = (refl, refl)
with_cleanup-created removes w (invalid p, s) e = absurd (cc e)
with_cleanup-created removes w (database, s) e = absurd (cc e)

commit_comment-limited :
    (env : Env) (config : Config) (d : CommentDraft) (fails : Bool) (o : Option Problem) (s : Store)
    → validate_comment env d s ≡ o
    → (outcome (commit_comment env config d fails o s)).0 ≡ true
    → is_over
        (comment_limit env)
        (recent_comments env.now d.user (commit_comment env config d fails o s).1.comments)
      ≡ false
unfolding run_comment_hooks
commit_comment-limited env config d fails (some p) s v e = absurd (cc e)
commit_comment-limited env config d true none s v e = absurd (cc e)
commit_comment-limited env config d false none s v e =
    comment_rate-over env d.user s (new_comment env d s.next_comment) (comment-has env d s v).3

-- After a creation that succeeded, its author has no more posts (or comments) of the last hour than
-- the limit that the settings give, where that is not negative.
pub run-IsLimited : (c : Call) (s : Store) → (run c s).0 ≡ true → IsLimited c (run c s).1
unfolding run create_post create_image_post create_website_post create_comment
run-IsLimited (post env d fails) s e =
    let p : Post = new_post env d d.content s.next_post in
    subst (λ (t : Store). IsLimited (post env d fails) t) (sym (outcome_rows _))
      (limited env true d p s (commit_post env p (λ t. t) fails s)
        (committed-Posted env p (λ t. t) fails s refl) e)
run-IsLimited (image env d i fails) s e =
    let p : Post = new_post env d (text_or_none d.content) s.next_post in
    subst (λ (t : Store). IsLimited (image env d i fails) t) (sym (outcome_rows _))
      (limited env false d p s (commit_post env p (attach_image i s.next_post) fails s)
        (committed-Posted env p (attach_image i s.next_post) fails s refl) e)
run-IsLimited (website env d w fails removes) s e =
    let p : Post = new_post env d (text_or_none d.content) s.next_post in
    let rest : Result ℕ × Store =
      commit_post env p (attach_website w s.next_post) (fails || is_taken w s) s in
    let good =
      with_cleanup-created removes w (unless_invalid (validate_post_preflight env false d s) rest s)
        e in
    subst (λ (t : Store). IsLimited (website env d w fails removes) t)
      (sym (outcome_rows _ ∙ good.1))
      (limited env false d p s rest
        (committed-Posted env p (attach_website w s.next_post) (fails || is_taken w s) s refl)
        good.0)
run-IsLimited (comment env config d fails) s e =
    subst (λ (t : Store). IsLimited (comment env config d fails) t) (sym (outcome_rows _))
      (commit_comment-limited env config d fails (validate_comment env d s) s refl e)
run-IsLimited (user dumps d fails) s e = tt
run-IsLimited (subdeaddit name description types update fails) s e = tt
