-- ===== src/Prelude/Rows.antt =====
-- A database table as the list of its rows, with the statements that the program issues. What
-- SQLAlchemy and the database do with such a statement is documented: WHERE keeps the rows at which
-- the test is true, UPDATE writes each of them, and `rowcount` is the number of rows it matched.
use Prim.Native.Nat.{ℕ, suc, ◌+◌, ◌≤◌, ◌<◌}
use mathlib.Core.Path.{◌≡◌, refl, sym, ap, ◌∙◌, subst}
use mathlib.Core.Logic.{◌⊎◌, inl, inr}
use mathlib.Core.Bool.{Bool, true, false}
use mathlib.Core.Option.{Option, none, some}
use mathlib.Core.List.{List, [], ◌∷◌, ◌++◌}
use native.Mathlib.Omega.{arith}
use deaddit.Prelude.Tests.{if◌then◌else◌, Bool-cases}
use deaddit.Prelude.Lists.{All}

module _ {ℓ} {A : Type ℓ} where
  abbrev pub select : (A → Bool) → List A → List A
  select p [] = []
  select p (x ∷ xs) = let rest = select p xs in if p x then x ∷ rest else rest

  abbrev pub count_where : (A → Bool) → List A → ℕ
  count_where p [] = 0
  count_where p (x ∷ xs) = let n = count_where p xs in if p x then suc n else n

  abbrev pub first_where : (A → Bool) → List A → Option A
  first_where p [] = none
  first_where p (x ∷ xs) = if p x then some x else first_where p xs

  abbrev pub update_where : (A → Bool) → (A → A) → List A → List A
  update_where p f [] = []
  update_where p f (x ∷ xs) = (if p x then f x else x) ∷ update_where p f xs

  abbrev pub delete_where : (A → Bool) → List A → List A
  delete_where p [] = []
  delete_where p (x ∷ xs) = let rest = delete_where p xs in if p x then rest else x ∷ rest

  -- `ORDER BY`, where `before x y` says that x comes no later than y; the order of equal rows is kept.
  abbrev pub insert_by : (A → A → Bool) → A → List A → List A
  insert_by before x [] = x ∷ []
  insert_by before x (y ∷ ys) =
      let rest = insert_by before x ys in if before x y then x ∷ y ∷ ys else y ∷ rest

  abbrev pub order_by : (A → A → Bool) → List A → List A
  order_by before [] = []
  order_by before (x ∷ xs) = insert_by before x (order_by before xs)

  pub count_where-append :
      (p : A → Bool) (xs ys : List A)
      → count_where p (xs ++ ys) ≡ count_where p xs + count_where p ys
  count_where-append p [] ys = omega arith
  count_where-append p (x ∷ xs) ys = ground (arith, count_where-append p xs ys)

  -- A write that does not change the answer of `q` does not change a count by `q`.
  pub count_where-update_where :
      (p q : A → Bool) (f : A → A) (xs : List A)
      → ((x : A) → p x ≡ true → q (f x) ≡ q x)
      → count_where q (update_where p f xs) ≡ count_where q xs
  count_where-update_where p q f [] h = refl
  count_where-update_where p q f (x ∷ xs) h =
      ground (arith, h x, count_where-update_where p q f xs h)

  -- Where a write leaves no row that it matches, none is matched afterwards.
  pub count_where-update_all :
      (p : A → Bool) (f : A → A) (xs : List A)
      → ((x : A) → p x ≡ true → p (f x) ≡ false)
      → count_where p (update_where p f xs) ≡ 0
  count_where-update_all p f [] h = refl
  count_where-update_all p f (x ∷ xs) h = ground (arith, h x, count_where-update_all p f xs h)

  -- Where the rows that `r` matches are written into rows that `q` matches, these are as many at least.
  pub count_where-update_le :
      (r p q : A → Bool) (f : A → A) (xs : List A)
      → ((x : A) → r x ≡ true → (p x ≡ true) × (q (f x) ≡ true))
      → count_where r xs ≤ count_where q (update_where p f xs)
  count_where-update_le r p q f [] h = omega arith
  count_where-update_le r p q f (x ∷ xs) h = ground (arith, h x, count_where-update_le r p q f xs h)

  pub count_where_imp :
      (p q : A → Bool) (xs : List A)
      → ((x : A) → p x ≡ true → q x ≡ true)
      → count_where p xs ≤ count_where q xs
  count_where_imp p q [] h = omega arith
  count_where_imp p q (x ∷ xs) h = ground (arith, h x, count_where_imp p q xs h)

  pub count_where-delete_where :
      (p q : A → Bool) (xs : List A) → count_where q (delete_where p xs) ≤ count_where q xs
  count_where-delete_where p q [] = omega arith
  count_where-delete_where p q (x ∷ xs) = ground (arith, count_where-delete_where p q xs)

  pub update_where_none :
      (p : A → Bool) (f : A → A) (xs : List A) → count_where p xs ≡ 0 → update_where p f xs ≡ xs
  update_where_none p f [] h = refl
  update_where_none p f (x ∷ xs) h = ground (arith, update_where_none p f xs)

  pub delete_where_none :
      (p : A → Bool) (xs : List A) → count_where p xs ≡ 0 → delete_where p xs ≡ xs
  delete_where_none p [] h = refl
  delete_where_none p (x ∷ xs) h = ground (arith, delete_where_none p xs)

  -- The rows that are written have `Q` after the write, and the others have it as they are.
  pub update_where-All {κ} :
      (P Q : A → Type κ) (p : A → Bool) (f : A → A) (xs : List A)
      → ((x : A) → p x ≡ true → P x → Q (f x))
      → ((x : A) → p x ≡ false → P x → Q x)
      → All P xs
      → All Q (update_where p f xs)
  update_where-All P Q p f [] h k a = tt
  update_where-All P Q p f (x ∷ xs) h k a = elim (Bool-cases (p x)) [
    | inl e ↦ rw e (h x e a.0, update_where-All P Q p f xs h k a.1)
    | inr e ↦ rw e (k x e a.0, update_where-All P Q p f xs h k a.1)
  ]

  pub delete_where-All {κ} :
      (P : A → Type κ) (p : A → Bool) (xs : List A) → All P xs → All P (delete_where p xs)
  delete_where-All P p [] a = tt
  delete_where-All P p (x ∷ xs) a = elim (Bool-cases (p x)) [
    | inl e ↦ rw e (delete_where-All P p xs a.1)
    | inr e ↦ rw e (a.0, delete_where-All P p xs a.1)
  ]

  pub first_where-update_self :
      (p : A → Bool) (f : A → A) (xs : List A) (a : A)
      → ((x : A) → p x ≡ true → p (f x) ≡ true)
      → first_where p xs ≡ some a
      → first_where p (update_where p f xs) ≡ some (f a)
  first_where-update_self p f [] a h e = absurd (cc e)
  first_where-update_self p f (x ∷ xs) a h e =
      ground (arith, h x, first_where-update_self p f xs a h)

  -- A test that no write affects finds a row after the writes, if it found one before.
  pub first_where-update_other :
      (p q : A → Bool) (f : A → A) (xs : List A) (a : A)
      → ((x : A) → q (f x) ≡ q x)
      → first_where q xs ≡ some a
      → (b : A) × (first_where q (update_where p f xs) ≡ some b)
  first_where-update_other p q f [] a h e = absurd (cc e)
  first_where-update_other p q f (x ∷ xs) a h e = elim (Bool-cases (q x)) [
    | inl t ↦ elim (Bool-cases (p x)) [ inl u ↦ (f x, rw (u, h x, t)) | inr u ↦ (x, rw (u, t)) ]
    | inr n ↦
        (let r = first_where-update_other p q f xs a h (ground arith) in
          elim (Bool-cases (p x)) [
            | inl u ↦ (r.0, rw (u, h x, n) r.1)
            | inr u ↦ (r.0, rw (u, n) r.1)
          ])
  ]

  pub first_where-append :
      (p : A → Bool) (xs ys : List A) (a : A)
      → first_where p xs ≡ some a
      → first_where p (xs ++ ys) ≡ some a
  first_where-append p [] ys a e = absurd (cc e)
  first_where-append p (x ∷ xs) ys a e = ground (arith, first_where-append p xs ys a)

module _ {A : Type 0} where
  -- The row stands in the table.
  abbrev pub In : A → List A → Type 0
  In a [] = ⊥
  In a (x ∷ xs) = (x ≡ a) ⊎ In a xs

  pub select-In :
      (p : A → Bool) (a : A) (rest xs : List A) → select p xs ≡ a ∷ rest → (p a ≡ true) × In a xs
  select-In p a rest [] e = absurd (cc e)
  select-In p a rest (x ∷ xs) e = elim (Bool-cases (p x)) [
    | inl t ↦ (ground arith, inl (ground arith))
    | inr n ↦ (let r = select-In p a rest xs (ground arith) in (r.0, inr r.1))
  ]

  pub In-selected :
      (p : A → Bool) (a : A) (xs : List A) → In a (select p xs) → (p a ≡ true) × In a xs
  In-selected p a [] m = absurd m
  In-selected p a (x ∷ xs) m = elim (Bool-cases (p x)) [
    | inl y ↦
        (let m' : (x ≡ a) ⊎ In a (select p xs) =
            subst (λ b. In a (if b then x ∷ select p xs else select p xs)) y m in
          elim m' [
            | inl e ↦ (sym (ap p e) ∙ y, inl e)
            | inr r ↦ (let s = In-selected p a xs r in (s.0, inr s.1))
          ])
    | inr n ↦
        (let s =
            In-selected p a xs
              (subst (λ b. In a (if b then x ∷ select p xs else select p xs)) n m) in
          (s.0, inr s.1))
  ]

  pub In-select : (p : A → Bool) (a : A) (xs : List A) → p a ≡ true → In a xs → In a (select p xs)
  In-select p a [] h m = m
  In-select p a (x ∷ xs) h (inl e) =
      subst (λ b. In a (if b then x ∷ select p xs else select p xs)) (sym (ap p e ∙ h)) (inl e)
  In-select p a (x ∷ xs) h (inr m) = elim (Bool-cases (p x)) [
    | inl y ↦ rw (y) (inr (In-select p a xs h m))
    | inr n ↦ rw (n) (In-select p a xs h m)
  ]

  pub In-All {κ} : (P : A → Type κ) (a : A) (xs : List A) → All P xs → In a xs → P a
  In-All P a [] h m = absurd m
  In-All P a (x ∷ xs) h (inl e) = subst P e h.0
  In-All P a (x ∷ xs) h (inr m) = In-All P a xs h.1 m

  pub In-count_where :
      (p : A → Bool) (a : A) (xs : List A) → p a ≡ true → In a xs → 0 < count_where p xs
  In-count_where p a [] h m = absurd m
  In-count_where p a (x ∷ xs) h (inl e) = ground arith
  In-count_where p a (x ∷ xs) h (inr m) = ground (arith, In-count_where p a xs h m)

  -- The row that a test matches is the first one that it matches, if it matches one at most.
  pub first_where_unique :
      (p : A → Bool) (a : A) (xs : List A)
      → p a ≡ true
      → count_where p xs ≤ 1
      → In a xs
      → first_where p xs ≡ some a
  first_where_unique p a [] h c m = absurd m
  first_where_unique p a (x ∷ xs) h c (inl e) = ground arith
  first_where_unique p a (x ∷ xs) h c (inr m) =
      ground (arith, In-count_where p a xs h m, first_where_unique p a xs h)

  pub All_of_In {κ} : (P : A → Type κ) (xs : List A) → ((x : A) → In x xs → P x) → All P xs
  All_of_In P [] h = tt
  All_of_In P (x ∷ xs) h = (h x (inl refl), All_of_In P xs (λ y m. h y (inr m)))

  pub unmatched-All {κ} :
      (test : A → Bool) (P : A → Type κ) (xs : List A)
      → count_where test xs ≡ 0
      → All (λ y. test y ≡ true → P y) xs
  unmatched-All test P [] h = tt
  unmatched-All test P (x ∷ xs) h = elim (Bool-cases (test x)) [
    | inl y ↦ absurd (ground arith)
    | inr n ↦ ((λ e. absurd (cc (e, n))), unmatched-All test P xs (ground arith))
  ]

  -- What holds of a row holds of every row that a test matches, if it matches one row at most.
  pub unique-All {κ} :
      (test : A → Bool) (P : A → Type κ) (a : A) (xs : List A)
      → test a ≡ true
      → In a xs
      → count_where test xs ≤ 1
      → P a
      → All (λ y. test y ≡ true → P y) xs
  unique-All test P a [] t m h p = absurd m
  unique-All test P a (x ∷ xs) t (inl e) h p =
      ((λ y. subst P (sym e) p), unmatched-All test P xs (let t' = ap test e ∙ t in ground arith))
  unique-All test P a (x ∷ xs) t (inr m) h p =
      let one = In-count_where test a xs t m in
      ((λ y. absurd (ground arith)), unique-All test P a xs t m (ground arith) p)

  pub first_where-In :
      (test : A → Bool) (a : A) (xs : List A)
      → first_where test xs ≡ some a
      → (test a ≡ true) × In a xs
  first_where-In test a [] e = absurd (cc e)
  first_where-In test a (x ∷ xs) e = elim (Bool-cases (test x)) [
    | inl y ↦ (let m : x ≡ a = ground arith in (subst (λ b. test b ≡ true) m y, inl m))
    | inr n ↦ (let r = first_where-In test a xs (ground arith) in (r.0, inr r.1))
  ]
