-- ===== src/Content/Sound.antt =====
-- The referential integrity of the rows of deaddit/services/content.py, under each insertion.
use deaddit.Prelude.{
  ◌≡◌, refl, sym, subst, ℕ, ◌≤◌, ◌<◌, String, Bool, true, ◌&&◌, Option, none, some, List, [], ◌∷◌,
  ◌++◌, ◌==◌, str_eq, any, arith, Bool-cases, inl, inr, All, count_where, first_where, update_where,
}
use deaddit.Content.{Post, Comment, GeneratedWebsite, Store}
use deaddit.Content.Posts.{has_user, has_subdeaddit}
use deaddit.Content.Others.{has_post}

-- The author and the community are there.
abbrev pub IsPostSound : Store → Post → Type 0
IsPostSound s p =
    (has_user p.user s ≡ true) × (has_subdeaddit p.subdeaddit_name s ≡ true) × (p.id < s.next_post)

abbrev pub is_parent : ℕ → ℕ → Comment → Bool
is_parent k post_id d = d.id == k && d.post_id == post_id

-- A parent is an earlier comment on the same post, so that the comments of a post are a forest.
abbrev pub HasParent : List Comment → Comment → Option ℕ → Type 0
HasParent comments c none = Unit
HasParent comments c (some k) = (k < c.id) × (any (is_parent k c.post_id) comments ≡ true)

abbrev pub IsCommentSound : Store → Comment → Type 0
IsCommentSound s c =
    (has_user c.user s ≡ true)
    × (has_post c.post_id s ≡ true)
    × (c.id < s.next_comment)
    × HasParent s.comments c c.parent_id

abbrev pub by_public_path : String → GeneratedWebsite → Bool
by_public_path path w = str_eq w.public_path path

abbrev pub by_storage_path : String → GeneratedWebsite → Bool
by_storage_path path w = str_eq w.storage_path path

pub record IsSound (s : Store) : Type 0 where
  pub posts : All (IsPostSound s) s.posts
  pub comments : All (IsCommentSound s) s.comments
  pub images : All (λ i. has_post i.post_id s ≡ true) s.images
  pub websites : All (λ w. has_post w.post_id s ≡ true) s.websites
  pub paths :
      (path : String)
      → (count_where (by_public_path path) s.websites ≤ 1)
        × (count_where (by_storage_path path) s.websites ≤ 1)

pub any-append :
    {A : Type 0} (test : A → Bool) (xs ys : List A)
    → any test xs ≡ true
    → any test (xs ++ ys) ≡ true
any-append test [] ys h = absurd (cc h)
any-append test (x ∷ xs) ys h = ground (arith, any-append test xs ys)

pub any_last :
    {A : Type 0} (test : A → Bool) (xs : List A) (a : A)
    → test a ≡ true
    → any test (xs ++ a ∷ []) ≡ true
any_last test [] a h = ground arith
any_last test (x ∷ xs) a h = ground (arith, any_last test xs a h)

pub any-update_where :
    {A : Type 0} (p test : A → Bool) (f : A → A) (xs : List A)
    → ((x : A) → test (f x) ≡ test x)
    → any test (update_where p f xs) ≡ any test xs
any-update_where p test f [] h = refl
any-update_where p test f (x ∷ xs) h = ground (arith, h x, any-update_where p test f xs h)

pub any-first_where :
    {A : Type 0} (p test : A → Bool) (xs : List A) (a : A)
    → first_where p xs ≡ some a
    → (p a ≡ true → test a ≡ true)
    → any test xs ≡ true
any-first_where p test [] a e h = absurd (cc e)
any-first_where p test (x ∷ xs) a e h = elim (Bool-cases (p x)) [
  | inl y ↦
      (let m : x ≡ a = ground arith in
        let t : test x ≡ true =
          subst (λ b. test b ≡ true) (sym m) (h (subst (λ b. p b ≡ true) m y)) in
        ground arith)
  | inr n ↦ (let t = any-first_where p test xs a (ground arith) h in ground arith)
]
