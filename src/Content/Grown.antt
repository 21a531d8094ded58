-- ===== src/Content/Grown.antt =====
-- The insertions of deaddit/services/content.py keep the referential integrity of the rows.
use deaddit.Prelude.{
  ◌≡◌, refl, sym, ◌∙◌, ℕ, ◌≤◌, String, Bool, true, false, ◌||◌, Option, none, some, List, [], ◌∷◌,
  ◌++◌, ◌==◌, ==_self, str_eq, eq_iff, any, arith, All, All-append, All-imp, count_where,
  count_where-append,
}
use deaddit.Content.{Post, Comment, PostImage, GeneratedWebsite, Store}
use deaddit.Content.Posts.{
  has_user, has_subdeaddit, insert_post, attach_image, attach_website, PendingPostImage,
  PendingGeneratedWebsite, is_taken,
}
use deaddit.Content.Others.{has_post, insert_comment}
use deaddit.Content.Sound.{
  any_last, IsPostSound, IsCommentSound, IsSound, HasParent, is_parent, any-append, by_storage_path,
  by_public_path,
}

-- Nothing that a row refers to is lost.
pub record Grows (s t : Store) : Type 0 where
  pub users : (name : String) → has_user name s ≡ true → has_user name t ≡ true
  pub subdeaddits : (name : String) → has_subdeaddit name s ≡ true → has_subdeaddit name t ≡ true
  pub posts : (k : ℕ) → has_post k s ≡ true → has_post k t ≡ true
  pub parents :
      (k post_id : ℕ)
      → any (is_parent k post_id) s.comments ≡ true
      → any (is_parent k post_id) t.comments ≡ true
  pub next_post : s.next_post ≤ t.next_post
  pub next_comment : s.next_comment ≤ t.next_comment

module _ (s t : Store) (g : Grows s t) where
  grown-HasParent :
      (c : Comment) (o : Option ℕ) → HasParent s.comments c o → HasParent t.comments c o
  grown-HasParent c none h = tt
  grown-HasParent c (some k) h = (h.0, g.parents k c.post_id h.1)

  pub grown_posts : All (IsPostSound s) s.posts → All (IsPostSound t) s.posts
  grown_posts h =
      All-imp (IsPostSound s) (IsPostSound t) s.posts
        (λ p i. (
          g.users p.user i.0,
          g.subdeaddits p.subdeaddit_name i.1,
          (let l = i.2 in let n = g.next_post in omega (arith, l, n)),
        ))
        h

  pub grown_comments : All (IsCommentSound s) s.comments → All (IsCommentSound t) s.comments
  grown_comments h =
      All-imp (IsCommentSound s) (IsCommentSound t) s.comments
        (λ c i. (
          g.users c.user i.0,
          g.posts c.post_id i.1,
          (let l = i.2 in let n = g.next_comment in omega (arith, l, n)),
          grown-HasParent c c.parent_id i.3,
        ))
        h

  pub grown_images :
      All (λ (i : PostImage). has_post i.post_id s ≡ true) s.images
      → All (λ (i : PostImage). has_post i.post_id t ≡ true) s.images
  grown_images h =
      All-imp (λ (i : PostImage). has_post i.post_id s ≡ true) (λ i. has_post i.post_id t ≡ true)
        s.images (λ i k. g.posts i.post_id k) h

  pub grown_websites :
      All (λ (w : GeneratedWebsite). has_post w.post_id s ≡ true) s.websites
      → All (λ (w : GeneratedWebsite). has_post w.post_id t ≡ true) s.websites
  grown_websites h =
      All-imp (λ (w : GeneratedWebsite). has_post w.post_id s ≡ true)
        (λ w. has_post w.post_id t ≡ true) s.websites (λ w k. g.posts w.post_id k) h

insert_post-Grows : (p : Post) (s : Store) → Grows s (insert_post p s)
insert_post-Grows p s = record {
  users = λ n h. h;
  subdeaddits = λ n h. h;
  posts = λ k h. any-append (λ q. q.id == k) s.posts (p ∷ []) h;
  parents = λ k i h. h;
  next_post = omega arith;
  next_comment = omega arith;
}

insert_comment-Grows : (c : Comment) (s : Store) → Grows s (insert_comment c s)
insert_comment-Grows c s = record {
  users = λ n h. h;
  subdeaddits = λ n h. h;
  posts = λ k h. h;
  parents = λ k i h. any-append (is_parent k i) s.comments (c ∷ []) h;
  next_post = omega arith;
  next_comment = omega arith;
}

pub insert_post-IsSound :
    (p : Post) (s : Store)
    → p.id ≡ s.next_post
    → has_user p.user s ≡ true
    → has_subdeaddit p.subdeaddit_name s ≡ true
    → IsSound s
    → IsSound (insert_post p s)
insert_post-IsSound p s e u d h =
    (let g = insert_post-Grows p s in
      record {
        posts =
            All-append (IsPostSound (insert_post p s)) s.posts (p ∷ [])
              (grown_posts s (insert_post p s) g h.posts) ((u, d, omega (arith, e)), tt);
        comments = grown_comments s (insert_post p s) g h.comments;
        images = grown_images s (insert_post p s) g h.images;
        websites = grown_websites s (insert_post p s) g h.websites;
        paths = h.paths;
      })

pub insert_post-has : (p : Post) (s : Store) → has_post p.id (insert_post p s) ≡ true
insert_post-has p s = any_last (λ q. q.id == p.id) s.posts p (==_self p.id)

pub attach_image-IsSound :
    (i : PendingPostImage) (k : ℕ) (s : Store)
    → has_post k s ≡ true
    → IsSound s
    → IsSound (attach_image i k s)
attach_image-IsSound i k s p h = record {
  posts = h.posts;
  comments = h.comments;
  images = All-append (λ (i : PostImage). has_post i.post_id s ≡ true) s.images _ h.images (p, tt);
  websites = h.websites;
  paths = h.paths;
}

one_more_path :
    (by : GeneratedWebsite → Bool) (w : GeneratedWebsite) (xs : List GeneratedWebsite)
    → (by w ≡ true → count_where by xs ≡ 0)
    → count_where by xs ≤ 1
    → count_where by (xs ++ w ∷ []) ≤ 1
one_more_path by w xs free h = ground (arith, count_where-append by xs (w ∷ []))

untaken :
    (w : PendingGeneratedWebsite) (by : GeneratedWebsite → Bool) (xs : List GeneratedWebsite)
    → ((x : GeneratedWebsite)
        → by x ≡ true
        → (str_eq x.public_path w.public_path || str_eq x.storage_path w.storage_path) ≡ true)
    → any (λ x. str_eq x.public_path w.public_path || str_eq x.storage_path w.storage_path) xs
      ≡ false
    → count_where by xs ≡ 0
untaken w by [] h n = refl
untaken w by (x ∷ xs) h n = ground (arith, h x, untaken w by xs h)

same_text : (a b path : String) → str_eq a path ≡ true → str_eq b path ≡ true → str_eq a b ≡ true
same_text a b path x y = (eq_iff a b).1 ((eq_iff a path).0 x ∙ sym ((eq_iff b path).0 y))

or_left : (a b : Bool) → a ≡ true → (a || b) ≡ true
or_left a b h = ground arith

or_right : (a b : Bool) → b ≡ true → (a || b) ≡ true
or_right a b h = ground arith

pub attach_website-IsSound :
    (w : PendingGeneratedWebsite) (k : ℕ) (s : Store)
    → has_post k s ≡ true
    → is_taken w s ≡ false
    → IsSound s
    → IsSound (attach_website w k s)
attach_website-IsSound w k s p n h = record {
  posts = h.posts;
  comments = h.comments;
  images = h.images;
  websites =
      All-append (λ (w : GeneratedWebsite). has_post w.post_id s ≡ true) s.websites _ h.websites
        (p, tt);
  paths = λ path. (
    one_more_path (by_public_path path)
        (record { post_id = k; public_path = w.public_path; storage_path = w.storage_path })
        s.websites
        (λ e.
          untaken w (by_public_path path) s.websites
            (λ x y. or_left _ _ (same_text x.public_path w.public_path path y e)) n)
        (h.paths path).0,
    one_more_path (by_storage_path path)
        (record { post_id = k; public_path = w.public_path; storage_path = w.storage_path })
        s.websites
        (λ e.
          untaken w (by_storage_path path) s.websites
            (λ x y. or_right _ _ (same_text x.storage_path w.storage_path path y e)) n)
        (h.paths path).1,
  );
}

pub insert_comment-IsSound :
    (c : Comment) (s : Store)
    → c.id ≡ s.next_comment
    → has_user c.user s ≡ true
    → has_post c.post_id s ≡ true
    → HasParent s.comments c c.parent_id
    → IsSound s
    → IsSound (insert_comment c s)
insert_comment-IsSound c s e u p par h =
    (let g = insert_comment-Grows c s in
      record {
        posts = grown_posts s (insert_comment c s) g h.posts;
        comments =
            All-append (IsCommentSound (insert_comment c s)) s.comments (c ∷ [])
              (grown_comments s (insert_comment c s) g h.comments)
              (
                (
                  u,
                  p,
                  omega (arith, e),
                  grown-HasParent s (insert_comment c s) g c c.parent_id par,
                ),
                tt,
              );
        images = grown_images s (insert_comment c s) g h.images;
        websites = grown_websites s (insert_comment c s) g h.websites;
        paths = h.paths;
      })
