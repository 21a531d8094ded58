-- ===== src/Inbox/Paging.antt =====
-- The pages of deaddit/dynamics/inbox.py, one after the other.
use deaddit.Prelude.{
  ◌≡◌, refl, sym, ap, ◌∙◌, subst, ℕ, zero, suc, ◌+◌, ◌≤◌, String, Bool, true, false, not, ◌&&◌, ltb,
  Option, none, some, List, [], ◌∷◌, ◌++◌, arith, length, take, All, select, order_by, Bool-cases,
  inl, inr, is_some, if◌then◌else◌, str_eq,
}
use deaddit.Prelude.Int.{ℤ}
use deaddit.Inbox.{
  Notification, Cursor, encode_cursor, clamp_limit, is_newer, is_after, is_listed, get_inbox,
  last_cursor,
}
use deaddit.Inbox.Order.{
  follows, HasKeys, has_other_id, order-select, page-rest, order-All, order-IsSorted,
}

select-All :
    (P : Notification → Type 0) (p : Notification → Bool) (xs : List Notification)
    → All P xs
    → All P (select p xs)
select-All P p [] h = tt
select-All P p (x ∷ xs) h = elim (Bool-cases (p x)) [
  | inl y ↦ rw (y) (h.0, select-All P p xs h.1)
  | inr n ↦ rw (n) (select-All P p xs h.1)
]

select-HasKeys :
    (p : Notification → Bool) (xs : List Notification) → HasKeys xs → HasKeys (select p xs)
select-HasKeys p [] h = tt
select-HasKeys p (x ∷ xs) h = elim (Bool-cases (p x)) [
  | inl y ↦ rw (y) (select-All (λ y. has_other_id x.id y ≡ true) p xs h.0, select-HasKeys p xs h.1)
  | inr n ↦ rw (n) (select-HasKeys p xs h.1)
]

selected-All :
    (p : Notification → Bool) (xs : List Notification) → All (λ x. p x ≡ true) (select p xs)
selected-All p [] = tt
selected-All p (x ∷ xs) = elim (Bool-cases (p x)) [
  | inl y ↦ rw (y) (y, selected-All p xs)
  | inr n ↦ rw (n) (selected-All p xs)
]

last-All :
    (P : Notification → Type 0) (n : ℕ) (xs : List Notification) (c : Cursor)
    → All P xs
    → last_cursor (take n xs) ≡ some c
    → (x : Notification) × P x × (encode_cursor x ≡ c)
last-All P zero xs c h e = cc
last-All P (suc n) [] c h e = cc
last-All P (suc zero) (x ∷ xs) c h e = (x, h.0, cc)
last-All P (suc (suc n)) (x ∷ []) c h e = (x, h.0, cc)
last-All P (suc (suc n)) (x ∷ y ∷ ys) c h e = last-All P (suc n) (y ∷ ys) c h.1 e

after_trans :
    (cursor : Option Cursor) (x y : Notification)
    → is_after cursor x ≡ true
    → follows x y ≡ true
    → is_after cursor y ≡ true
after_trans none x y h k = refl
after_trans (some c) x y h k = ground arith

select-select :
    (r p q : Notification → Bool) (xs : List Notification)
    → ((x : Notification) → r x ≡ (p x && q x))
    → select r xs ≡ select q (select p xs)
select-select r p q [] h = refl
select-select r p q (x ∷ xs) h = elim (Bool-cases (p x)) [
  | inl y ↦ simp (h x, y) (ap (λ t. if q x then x ∷ t else t) (select-select r p q xs h))
  | inr n ↦ simp (h x, n) (select-select r p q xs h)
]

conditions : (r a k n : Bool) → (a ≡ true → k ≡ true) → (r && (a && n)) ≡ ((r && (k && n)) && a)
conditions r a k n h = ground arith

some_branch :
    (b : Bool) (o : Option Cursor) (c : Cursor) → (if b then o else none) ≡ some c → o ≡ some c
some_branch true o c e = e
some_branch false o c e = cc

take-take_le : (n m : ℕ) (xs : List Notification) → n ≤ m → take n (take m xs) ≡ take n xs
take-take_le zero m xs h = refl
take-take_le (suc n) zero xs h = absurd (omega (arith, h))
take-take_le (suc n) (suc m) [] h = refl
take-take_le (suc n) (suc m) (x ∷ xs) h = ap (λ r. x ∷ r) (take-take_le n m xs (omega (arith, h)))

take-take : (n : ℕ) (xs : List Notification) → take n (take (n + 1) xs) ≡ take n xs
take-take n xs = take-take_le n (n + 1) xs (omega arith)

-- What a later cursor lists is what follows it in the list of an earlier one.
listed-select :
    (username : String) (unread_only : Bool) (cursor : Option Cursor) (c : Cursor)
    (x : Notification) (rows : List Notification)
    → is_after cursor x ≡ true
    → encode_cursor x ≡ c
    → select (is_listed username unread_only (some c)) rows
      ≡ select (is_after (some c)) (select (is_listed username unread_only cursor) rows)
listed-select username unread_only cursor c x rows h e =
    select-select (is_listed username unread_only (some c)) (is_listed username unread_only cursor)
      (is_after (some c)) rows
      (λ y.
        conditions (str_eq y.recipient username) (is_after (some c) y) (is_after cursor y)
          (not (unread_only && is_some y.read_at))
          (λ a. after_trans cursor x y h (subst (λ k. is_after (some k) y ≡ true) (sym e) a)))

-- From a page that has a next cursor, the items of the page and then everything that the next cursor
-- lists are everything that the page's own cursor lists, in order: no notification is lost between two
-- pages and none comes twice, where the keys of the rows are different.
pub get_inbox-next :
    (username : String) (unread_only : Bool) (limit : ℤ) (cursor : Option Cursor) (c : Cursor)
    (rows : List Notification)
    → HasKeys rows
    → (get_inbox username unread_only limit cursor rows).next_cursor ≡ some c
    → (get_inbox username unread_only limit cursor rows).items
        ++ order_by is_newer (select (is_listed username unread_only (some c)) rows)
      ≡ order_by is_newer (select (is_listed username unread_only cursor) rows)
unfolding get_inbox
get_inbox-next username unread_only limit cursor c rows keys e =
    let n = clamp_limit limit in
    let p = is_listed username unread_only cursor in
    let all = order_by is_newer (select p rows) in
    let ends : last_cursor (take n (take (n + 1) all)) ≡ some c =
      some_branch (ltb n (length (take (n + 1) all))) _ c e in
    let ends' : last_cursor (take n all) ≡ some c =
      subst (λ t. last_cursor t ≡ some c) (take-take n all) ends in
    let (x, px, ex) =
      last-All (λ y. p y ≡ true) n all c
        (order-All (λ y. p y ≡ true) (select p rows) (selected-All p rows)) ends' in
    let ax : is_after cursor x ≡ true = ground arith in
    let later =
      ap (order_by is_newer) (listed-select username unread_only cursor c x rows ax ex)
      ∙ order-select c (select p rows) in
    rw (later, take-take n all)
      (page-rest c n all (order-IsSorted (select p rows) (select-HasKeys p rows keys)) ends')
