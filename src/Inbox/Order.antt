-- ===== src/Inbox/Order.antt =====
-- The order of the pages of deaddit/dynamics/inbox.py, and what a cursor cuts off.
use deaddit.Prelude.{
  ◌≡◌, refl, sym, ap, ◌∙◌, subst, ℕ, zero, suc, Bool, true, false, not, ◌==◌, some, List, [], ◌∷◌,
  ◌++◌, arith, take, All, select, order_by, insert_by, Bool-cases, inl, inr,
}
use deaddit.Inbox.{Notification, Cursor, encode_cursor, is_newer, is_after, last_cursor}

-- The row comes later than the other in the order of the pages.
abbrev pub follows : Notification → Notification → Bool
follows x y = is_after (some (encode_cursor x)) y

-- Each row is followed by all the later ones.
abbrev pub IsSorted : List Notification → Type 0
IsSorted [] = Unit
IsSorted (x ∷ xs) = All (λ y. follows x y ≡ true) xs × IsSorted xs

abbrev pub has_other_id : ℕ → Notification → Bool
has_other_id k n = not (n.id == k)

-- The keys are different.
abbrev pub HasKeys : List Notification → Type 0
HasKeys [] = Unit
HasKeys (x ∷ xs) = All (λ y. has_other_id x.id y ≡ true) xs × HasKeys xs

follows-back : (x y : Notification) → follows x y ≡ true → follows y x ≡ false
follows-back x y h = ground arith

follows_self : (x : Notification) → follows x x ≡ false
follows_self x = ground arith

follows_trans :
    (x y z : Notification) → follows x y ≡ true → follows y z ≡ true → follows x z ≡ true
follows_trans x y z h k = ground arith

newer-follows :
    (x y : Notification) → is_newer x y ≡ true → has_other_id x.id y ≡ true → follows x y ≡ true
newer-follows x y h k = ground arith

older-follows : (x y : Notification) → is_newer x y ≡ false → follows y x ≡ true
older-follows x y h = ground arith

module _ (c : Cursor) where
  insert-none :
      (x : Notification) (ys : List Notification)
      → is_after (some c) x ≡ false
      → select (is_after (some c)) (insert_by is_newer x ys) ≡ select (is_after (some c)) ys
  insert-none x [] h = rw (h) refl
  insert-none x (y ∷ ys) h = elim (Bool-cases (is_newer x y)) [
    | inl n ↦ simp (n, h) refl
    | inr n ↦ simp (n, insert-none x ys h) refl
  ]

  down :
      (x y : Notification)
      → is_after (some c) x ≡ true
      → is_newer x y ≡ true
      → is_after (some c) y ≡ true
  down x y h n = ground arith

  insert-some :
      (x : Notification) (ys : List Notification)
      → is_after (some c) x ≡ true
      → select (is_after (some c)) (insert_by is_newer x ys)
        ≡ insert_by is_newer x (select (is_after (some c)) ys)
  insert-some x [] h = rw (h) refl
  insert-some x (y ∷ ys) h = elim (Bool-cases (is_newer x y)) [
    | inl n ↦ simp (n, h, down x y h n) refl
    | inr n ↦ elim (Bool-cases (is_after (some c) y)) [
      | inl a ↦ simp (n, a, insert-some x ys h) refl
      | inr a ↦ simp (n, a, insert-some x ys h) refl
    ]
  ]

  -- What follows a cursor may be taken before or after the sorting.
  pub order-select :
      (xs : List Notification)
      → order_by is_newer (select (is_after (some c)) xs)
        ≡ select (is_after (some c)) (order_by is_newer xs)
  order-select [] = refl
  order-select (x ∷ xs) = elim (Bool-cases (is_after (some c) x)) [
    | inl a ↦
        simp (a) (
          ap (insert_by is_newer x) (order-select xs)
          ∙ sym (insert-some x (order_by is_newer xs) a))
    | inr a ↦ simp (a) (order-select xs ∙ sym (insert-none x (order_by is_newer xs) a))
  ]

  -- The rows before the cursor's are not after it.
  last-follows :
      (x : Notification) (n : ℕ) (ys : List Notification)
      → All (λ y. follows x y ≡ true) ys
      → last_cursor (take n ys) ≡ some c
      → is_after (some c) x ≡ false
  last-follows x zero ys h e = cc
  last-follows x (suc n) [] h e = cc
  last-follows x (suc zero) (y ∷ ys) h e =
      subst (λ o. is_after o x ≡ false) e (follows-back x y h.0)
  last-follows x (suc (suc n)) (y ∷ []) h e =
      subst (λ o. is_after o x ≡ false) e (follows-back x y h.0)
  last-follows x (suc (suc n)) (y ∷ z ∷ ys) h e = last-follows x (suc n) (z ∷ ys) h.1 e

  select-all :
      (x : Notification) (ys : List Notification)
      → encode_cursor x ≡ c
      → All (λ y. follows x y ≡ true) ys
      → select (is_after (some c)) ys ≡ ys
  select-all x [] e h = refl
  select-all x (y ∷ ys) e h =
      let a : is_after (some c) y ≡ true = subst (λ k. is_after (some k) y ≡ true) e h.0 in
      rw (a) (ap (λ r. y ∷ r) (select-all x ys e h.1))

  first-page :
      (x : Notification) (xs : List Notification)
      → some (encode_cursor x) ≡ some c
      → All (λ y. follows x y ≡ true) xs
      → x ∷ select (is_after (some c)) (x ∷ xs) ≡ x ∷ xs
  first-page x xs e h =
      let same : encode_cursor x ≡ c = cc in
      let off : is_after (some c) x ≡ false =
        subst (λ o. is_after o x ≡ false) e (follows_self x) in
      rw (off) (ap (λ r. x ∷ r) (select-all x xs same h))

  -- A page and what follows its cursor are the whole.
  pub page-rest :
      (n : ℕ) (xs : List Notification)
      → IsSorted xs
      → last_cursor (take n xs) ≡ some c
      → take n xs ++ select (is_after (some c)) xs ≡ xs
  page-rest zero xs h e = cc
  page-rest (suc n) [] h e = cc
  page-rest (suc zero) (x ∷ xs) h e = first-page x xs e h.0
  page-rest (suc (suc n)) (x ∷ []) h e = first-page x [] e h.0
  page-rest (suc (suc n)) (x ∷ y ∷ ys) h e =
      let off = last-follows x (suc n) (y ∷ ys) h.0 e in
      rw (off) (ap (λ r. x ∷ r) (page-rest (suc n) (y ∷ ys) h.1 e))

insert-All :
    (P : Notification → Type 0) (x : Notification) (ys : List Notification)
    → P x
    → All P ys
    → All P (insert_by is_newer x ys)
insert-All P x [] h k = (h, tt)
insert-All P x (y ∷ ys) h k = elim (Bool-cases (is_newer x y)) [
  | inl n ↦ rw (n) (h, k)
  | inr n ↦ rw (n) (k.0, insert-All P x ys h k.1)
]

all-follow :
    (x y : Notification) (ys : List Notification)
    → follows x y ≡ true
    → All (λ z. follows y z ≡ true) ys
    → All (λ z. follows x z ≡ true) ys
all-follow x y [] h k = tt
all-follow x y (z ∷ zs) h k = (follows_trans x y z h k.0, all-follow x y zs h k.1)

insert-IsSorted :
    (x : Notification) (ys : List Notification)
    → All (λ y. has_other_id x.id y ≡ true) ys
    → IsSorted ys
    → IsSorted (insert_by is_newer x ys)
insert-IsSorted x [] d h = (tt, tt)
insert-IsSorted x (y ∷ ys) d h = elim (Bool-cases (is_newer x y)) [
  | inl n ↦ (let f = newer-follows x y n d.0 in rw (n) ((f, all-follow x y ys f h.0), h))
  | inr n ↦ rw (n) (
    insert-All (λ z. follows y z ≡ true) x ys (older-follows x y n) h.0,
    insert-IsSorted x ys d.1 h.1,
  )
]

pub order-All :
    (P : Notification → Type 0) (xs : List Notification) → All P xs → All P (order_by is_newer xs)
order-All P [] h = tt
order-All P (x ∷ xs) h = insert-All P x (order_by is_newer xs) h.0 (order-All P xs h.1)

pub order-IsSorted : (xs : List Notification) → HasKeys xs → IsSorted (order_by is_newer xs)
order-IsSorted [] h = tt
order-IsSorted (x ∷ xs) h =
    insert-IsSorted x (order_by is_newer xs) (order-All (λ y. has_other_id x.id y ≡ true) xs h.0)
      (order-IsSorted xs h.1)
