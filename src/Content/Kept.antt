-- ===== src/Content/Kept.antt =====
-- The three creators of posts of deaddit/services/content.py keep the referential integrity of the rows.
use deaddit.Prelude.{◌≡◌, refl, ℕ, String, Bool, true, false, ◌||◌, Option, none, some, arith}
use deaddit.Content.{Post, Store, Problem, Result, created, invalid, database}
use deaddit.Content.Limits.{Env, check_post_rate}
use deaddit.Content.Posts.{
  Draft, has_user, has_subdeaddit, validate_post_preflight, new_post, insert_post, run_post_hooks,
  commit_post, unless_invalid, create_post, create_image_post, create_website_post,
  PendingPostImage, PendingGeneratedWebsite, attach_image, attach_website, is_taken, with_cleanup,
  cleanup_stored_website, text_or_none,
}
use deaddit.Content.Sound.{IsSound}
use deaddit.Content.Grown.{
  insert_post-IsSound, insert_post-has, attach_image-IsSound, attach_website-IsSound,
}

-- What a valid draft has.
pub preflight-has :
    (env : Env) (b : Bool) (d : Draft) (s : Store)
    → validate_post_preflight env b d s ≡ none
    → (has_user d.user s ≡ true)
      × (has_subdeaddit d.subdeaddit s ≡ true)
      × (check_post_rate env d.user s ≡ none)
unfolding validate_post_preflight
preflight-has env b d s h = (ground arith, ground arith, ground arith)

hooked-IsSound : (env : Env) (p : Post) (s : Store) → IsSound s → IsSound (run_post_hooks env p s)
unfolding run_post_hooks
hooked-IsSound env p s h = record {
  posts = h.posts;
  comments = h.comments;
  images = h.images;
  websites = h.websites;
  paths = h.paths;
}

commit_post-IsSound :
    (env : Env) (p : Post) (attach : Store → Store) (fails : Bool) (s : Store)
    → IsSound s
    → (fails ≡ false → IsSound (attach (insert_post p s)))
    → IsSound (commit_post env p attach fails s).1
commit_post-IsSound env p attach true s h k = h
commit_post-IsSound env p attach false s h k =
    hooked-IsSound env p (attach (insert_post p s)) (k refl)

unless_invalid-IsSound :
    (o : Option Problem) (rest : Result ℕ × Store) (s : Store)
    → IsSound s
    → (o ≡ none → IsSound rest.1)
    → IsSound (unless_invalid o rest s).1
unless_invalid-IsSound none rest s h k = k refl
unless_invalid-IsSound (some p) rest s h k = h

-- The new row of a valid draft, whatever its content.
drafted-IsSound :
    (env : Env) (b : Bool) (d : Draft) (content : Option String) (s : Store)
    → IsSound s
    → validate_post_preflight env b d s ≡ none
    → IsSound (insert_post (new_post env d content s.next_post) s)
drafted-IsSound env b d content s h v =
    let has = preflight-has env b d s v in
    insert_post-IsSound (new_post env d content s.next_post) s refl has.0 has.1 h

pub create_post-IsSound :
    (env : Env) (d : Draft) (fails : Bool) (s : Store)
    → IsSound s
    → IsSound (create_post env d fails s).1
unfolding create_post
create_post-IsSound env d fails s h =
    unless_invalid-IsSound (validate_post_preflight env true d s) _ s h (λ v.
      commit_post-IsSound env (new_post env d d.content s.next_post) (λ t. t) fails s h
        (λ e. drafted-IsSound env true d d.content s h v))

pub create_image_post-IsSound :
    (env : Env) (d : Draft) (i : PendingPostImage) (fails : Bool) (s : Store)
    → IsSound s
    → IsSound (create_image_post env d i fails s).1
unfolding create_image_post
create_image_post-IsSound env d i fails s h =
    unless_invalid-IsSound (validate_post_preflight env false d s) _ s h (λ v.
      (let p : Post = new_post env d (text_or_none d.content) s.next_post in
        commit_post-IsSound env p (attach_image i s.next_post) fails s h (λ e.
          attach_image-IsSound i s.next_post (insert_post p s) (insert_post-has p s)
            (drafted-IsSound env false d (text_or_none d.content) s h v))))

cleaned-IsSound :
    (removes : Bool) (w : PendingGeneratedWebsite) (s : Store)
    → IsSound s
    → IsSound (cleanup_stored_website removes w s)
cleaned-IsSound true w s h = record {
  posts = h.posts;
  comments = h.comments;
  images = h.images;
  websites = h.websites;
  paths = h.paths;
}
cleaned-IsSound false w s h = h

with_cleanup-IsSound :
    (removes : Bool) (w : PendingGeneratedWebsite) (r : Result ℕ × Store)
    → IsSound r.1
    → IsSound (with_cleanup removes w r).1
with_cleanup-IsSound removes w (created k, s) h = h
with_cleanup-IsSound removes w (invalid p, s) h = cleaned-IsSound removes w s h
with_cleanup-IsSound removes w (database, s) h = cleaned-IsSound removes w s h

pub create_website_post-IsSound :
    (env : Env) (d : Draft) (w : PendingGeneratedWebsite) (fails removes : Bool) (s : Store)
    → IsSound s
    → IsSound (create_website_post env d w fails removes s).1
unfolding create_website_post
create_website_post-IsSound env d w fails removes s h =
    let p : Post = new_post env d (text_or_none d.content) s.next_post in
    with_cleanup-IsSound removes w _ (
      unless_invalid-IsSound (validate_post_preflight env false d s) _ s h (λ v.
        commit_post-IsSound env p (attach_website w s.next_post) (fails || is_taken w s) s h (λ e.
          attach_website-IsSound w s.next_post (insert_post p s) (insert_post-has p s)
            (free fails (is_taken w s) e)
            (drafted-IsSound env false d (text_or_none d.content) s h v))))
  where
    free : (a b : Bool) → (a || b) ≡ false → b ≡ false
    free a b h = ground arith
