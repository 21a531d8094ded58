-- ===== src/Content/Whole.antt =====
-- Every creator of deaddit/services/content.py keeps the referential integrity of the rows.
use deaddit.Prelude.{
  ◌≡◌, refl, sym, ◌∙◌, subst, ℕ, String, Bool, true, false, ◌||◌, Option, none, some, List, [], ◌∷◌,
  ◌++◌, ◌==◌, str_eq, any, arith, Bool-cases, Option-cases, inl, inr, first_where, first_where-In,
  In-All,
}
use deaddit.Thread.Cap.{Config}
use deaddit.Content.{User, Subdeaddit, Comment, Store, Problem, Result, created, invalid, database}
use deaddit.Content.Limits.{Env, check_comment_rate}
use deaddit.Content.Posts.{
  has_user, has_subdeaddit, create_post, create_image_post, create_website_post,
}
use deaddit.Content.Others.{
  CommentDraft, UserDraft, has_post, check_parent, check_found_parent, validate_comment,
  new_comment, insert_comment, run_comment_hooks, commit_comment, create_comment, new_user,
  create_user, missing_of, upsert_subdeaddit, unless_missing, create_subdeaddit,
}
use deaddit.Content.Calls.{
  Call, post, image, website, comment, user, subdeaddit, outcome, run, run_all,
}
use deaddit.Content.Sound.{
  IsSound, HasParent, is_parent, IsCommentSound, any-append, any-update_where, any-first_where,
}
use deaddit.Content.Grown.{
  Grows, insert_comment-IsSound, grown_posts, grown_comments, grown_images, grown_websites,
}
use deaddit.Content.Kept.{
  create_post-IsSound, create_image_post-IsSound, create_website_post-IsSound,
}

parent-HasParent :
    (s : Store) (c : Comment) (o : Option ℕ)
    → IsSound s
    → c.id ≡ s.next_comment
    → check_parent c.post_id o s.comments ≡ none
    → HasParent s.comments c o
parent-HasParent s c none h e v = tt
parent-HasParent s c (some k) h e v =
    elim (Option-cases (first_where (λ (d : Comment). d.id == k) s.comments)) [
      | inl n ↦ absurd (
          let w : check_found_parent c.post_id k none ≡ none =
            subst (λ o. check_found_parent c.post_id k o ≡ none) n v in
          cc w)
      | inr (d, f) ↦
          (let w : check_found_parent c.post_id k (some d) ≡ none =
              subst (λ o. check_found_parent c.post_id k o ≡ none) f v in
            let here = first_where-In (λ (d : Comment). d.id == k) d s.comments f in
            let key = here.0 in
            let older = (In-All (IsCommentSound s) d s.comments h.comments here.1).2 in
            (
              ground (arith, key, older),
              any-first_where (λ d. d.id == k) (is_parent k c.post_id) s.comments d f
                  (λ y. ground arith),
            ))
    ]

pub comment-has :
    (env : Env) (d : CommentDraft) (s : Store)
    → validate_comment env d s ≡ none
    → (has_user d.user s ≡ true)
      × (has_post d.post_id s ≡ true)
      × (check_parent d.post_id d.parent_id s.comments ≡ none)
      × (check_comment_rate env d.user s ≡ none)
unfolding validate_comment
comment-has env d s h = (ground arith, ground arith, ground arith, ground arith)

hooked_comment-IsSound :
    (env : Env) (config : Config) (c : Comment) (s : Store)
    → IsSound s
    → IsSound (run_comment_hooks env config c s)
unfolding run_comment_hooks
hooked_comment-IsSound env config c s h = record {
  posts = h.posts;
  comments = h.comments;
  images = h.images;
  websites = h.websites;
  paths = h.paths;
}

commit_comment-IsSound :
    (env : Env) (config : Config) (d : CommentDraft) (fails : Bool) (o : Option Problem) (s : Store)
    → validate_comment env d s ≡ o
    → IsSound s
    → IsSound (commit_comment env config d fails o s).1
commit_comment-IsSound env config d fails (some p) s v h = h
commit_comment-IsSound env config d true none s v h = h
commit_comment-IsSound env config d false none s v h =
    let c : Comment = new_comment env d s.next_comment in
    let has = comment-has env d s v in
    hooked_comment-IsSound env config c (insert_comment c s) (
      insert_comment-IsSound c s refl has.0 has.1 (parent-HasParent s c d.parent_id h refl has.2) h)

create_comment-IsSound :
    (env : Env) (config : Config) (d : CommentDraft) (fails : Bool) (s : Store)
    → IsSound s
    → IsSound (create_comment env config d fails s).1
unfolding create_comment
create_comment-IsSound env config d fails s h =
    commit_comment-IsSound env config d fails (validate_comment env d s) s refl h

-- Where only users and communities come in.
widened-IsSound :
    (s : Store) (users : List User) (subdeaddits : List Subdeaddit) (cached : Bool)
    → Grows s (record s { users = users; subdeaddits = subdeaddits; is_cached = cached })
    → IsSound s
    → IsSound (record s { users = users; subdeaddits = subdeaddits; is_cached = cached })
widened-IsSound s users subdeaddits cached g h = record {
  posts = grown_posts s _ g h.posts;
  comments = grown_comments s _ g h.comments;
  images = grown_images s _ g h.images;
  websites = grown_websites s _ g h.websites;
  paths = h.paths;
}

create_user-IsSound :
    (dumps : List String → String) (d : UserDraft) (fails : Bool) (s : Store)
    → IsSound s
    → IsSound (create_user dumps d fails s).1
unfolding create_user
create_user-IsSound dumps d fails s h = elim (Bool-cases (fails || has_user d.username s)) [
  | inl y ↦ rw (y) h
  | inr n ↦ rw (n) (
      widened-IsSound s (s.users ++ new_user dumps d ∷ []) s.subdeaddits false
        (record {
          users =
              λ name k. any-append (λ u. str_eq u.username name) s.users (new_user dumps d ∷ []) k;
          subdeaddits = λ name k. k;
          posts = λ k p. p;
          parents = λ k i p. p;
          next_post = omega arith;
          next_comment = omega arith;
        })
        h)
]

module _ (name description : String) (types : List String) (fails : Bool) (s : Store)
    (h : IsSound s) where
  founded-IsSound :
      (subdeaddits : List Subdeaddit)
      → ((n : String)
          → has_subdeaddit n s ≡ true
          → any (λ (d : Subdeaddit). str_eq d.name n) subdeaddits ≡ true)
      → IsSound (record s { subdeaddits = subdeaddits; is_cached = false })
  founded-IsSound subdeaddits g =
      widened-IsSound s s.users subdeaddits false
        (record {
          users = λ n k. k;
          subdeaddits = g;
          posts = λ k p. p;
          parents = λ k i p. p;
          next_post = omega arith;
          next_comment = omega arith;
        })
        h

  upsert-IsSound :
      (update_if_exists : Bool)
      → IsSound (upsert_subdeaddit name description types update_if_exists fails s).1
  upsert-IsSound b =
      elim (Bool-cases (any (λ (d : Subdeaddit). str_eq d.name name) s.subdeaddits)) [
        | inl y ↦ (elim (Bool-cases b) [
          | inl u ↦ (elim (Bool-cases fails) [
            | inl f ↦ rw (y, u, f) h
            | inr f ↦
                rw (y, u, f)
                  (founded-IsSound _ (λ n k.
                    any-update_where (λ d. str_eq d.name name) (λ d. str_eq d.name n) _
                      s.subdeaddits (λ d. refl)
                    ∙ k))
          ])
          | inr u ↦ rw (y, u) h
        ])
        | inr n ↦ (elim (Bool-cases fails) [
          | inl f ↦ rw (n, f) h
          | inr f ↦
              rw (n, f)
                (founded-IsSound _ (λ m k. any-append (λ d. str_eq d.name m) s.subdeaddits _ k))
        ])
      ]

  missing-IsSound :
      (missing : List String) (update_if_exists : Bool)
      → IsSound
          (unless_missing missing
            (upsert_subdeaddit name description types update_if_exists fails s)
            s).1
  missing-IsSound [] b = upsert-IsSound b
  missing-IsSound (m ∷ ms) b = h

  create_subdeaddit-IsSound :
      (update_if_exists : Bool)
      → IsSound (create_subdeaddit name description types update_if_exists fails s).1
  unfolding create_subdeaddit
  create_subdeaddit-IsSound b = missing-IsSound (missing_of name description) b

pub outcome_rows : {A : Type 0} (r : Result A × Store) → (outcome r).1 ≡ r.1
outcome_rows (created k, s) = refl
outcome_rows (invalid p, s) = refl
outcome_rows (database, s) = refl

run-IsSound : (c : Call) (s : Store) → IsSound s → IsSound (run c s).1
unfolding run
run-IsSound (post env d fails) s h =
    subst IsSound (sym (outcome_rows (create_post env d fails s)))
      (create_post-IsSound env d fails s h)
run-IsSound (image env d i fails) s h =
    subst IsSound (sym (outcome_rows (create_image_post env d i fails s)))
      (create_image_post-IsSound env d i fails s h)
run-IsSound (website env d w fails removes) s h =
    subst IsSound (sym (outcome_rows (create_website_post env d w fails removes s)))
      (create_website_post-IsSound env d w fails removes s h)
run-IsSound (comment env config d fails) s h =
    subst IsSound (sym (outcome_rows (create_comment env config d fails s)))
      (create_comment-IsSound env config d fails s h)
run-IsSound (user dumps d fails) s h =
    subst IsSound (sym (outcome_rows (create_user dumps d fails s)))
      (create_user-IsSound dumps d fails s h)
run-IsSound (subdeaddit name description types update fails) s h =
    subst IsSound (sym (outcome_rows (create_subdeaddit name description types update fails s)))
      (create_subdeaddit-IsSound name description types fails s h update)

-- From rows in which every post has its author and its community, every comment its author and its
-- post, every parent is an earlier comment on the same post, every image and website has its post,
-- no two websites share a path, and the keys are below the next ones, any calls in any order,
-- failing ones included, lead to such rows.
pub run_all-IsSound : (calls : List Call) (s : Store) → IsSound s → IsSound (run_all calls s)
unfolding run_all
run_all-IsSound [] s h = h
run_all-IsSound (c ∷ cs) s h = run_all-IsSound cs (run c s).1 (run-IsSound c s h)
