-- ===== src/Prelude/Sums.antt =====
-- Sums of integers over the rows of a table, under each statement.
use mathlib.Core.Path.{◌≡◌, refl, ap, ap₂, ◌∙◌}
use mathlib.Core.Logic.{inl, inr}
use mathlib.Core.Bool.{Bool, true}
use mathlib.Core.Option.{some}
use mathlib.Core.List.{List, [], ◌∷◌, ◌++◌}
use native.Mathlib.Omega.{arith}
use deaddit.Prelude.Tests.{Bool-cases}
use deaddit.Prelude.Int.{ℤ, pos, ◌+ℤ◌, +ℤ_assoc, +ℤ_left_comm, +ℤ_right_comm, zero-+ℤ}
use deaddit.Prelude.Rows.{
  first_where, count_where, update_where, update_where_none, delete_where, delete_where_none,
}

module _ {ℓ} {A : Type ℓ} where
  -- `SUM(g)` over all rows
  abbrev pub sum_by : (A → ℤ) → List A → ℤ
  sum_by g [] = pos 0
  sum_by g (x ∷ xs) = g x +ℤ sum_by g xs

  pub sum_by-append :
      (g : A → ℤ) (xs ys : List A) → sum_by g (xs ++ ys) ≡ sum_by g xs +ℤ sum_by g ys
  sum_by-append g [] ys = rw zero-+ℤ
  sum_by-append g (x ∷ xs) ys = rw (sum_by-append g xs ys, +ℤ_assoc)

  -- A write that does not change `g` does not change its sum.
  pub sum_by-update_same :
      (g : A → ℤ) (p : A → Bool) (f : A → A) (xs : List A)
      → ((x : A) → p x ≡ true → g (f x) ≡ g x)
      → sum_by g (update_where p f xs) ≡ sum_by g xs
  sum_by-update_same g p f [] h = refl
  sum_by-update_same g p f (x ∷ xs) h = elim (Bool-cases (p x)) [
    | inl e ↦ rw e (ap₂ ◌+ℤ◌ (h x e) (sum_by-update_same g p f xs h))
    | inr e ↦ rw e (ap (λ s. g x +ℤ s) (sum_by-update_same g p f xs h))
  ]

  -- A write to exactly one row that moves `g` there by `d` moves the sum by `d`.
  pub sum_by-update_one :
      (g : A → ℤ) (p : A → Bool) (f : A → A) (d : ℤ) (v : A) (xs : List A)
      → g (f v) ≡ g v +ℤ d
      → first_where p xs ≡ some v
      → count_where p xs ≡ 1
      → sum_by g (update_where p f xs) ≡ sum_by g xs +ℤ d
  sum_by-update_one g p f d v [] h e c = absurd (omega arith)
  sum_by-update_one g p f d v (x ∷ xs) h e c = elim (Bool-cases (p x)) [
    | inl t ↦
        (let m : x ≡ v = ground arith in
          rw (t, update_where_none p f xs (ground arith), m, h)
            (+ℤ_right_comm (g v) d (sum_by g xs)))
    | inr n ↦ rw n (rw (sum_by-update_one g p f d v xs h (ground arith) (ground arith), +ℤ_assoc))
  ]

  -- A sum over the rows that are left, when exactly one row was deleted.
  pub sum_by-delete_one :
      (g : A → ℤ) (p : A → Bool) (v : A) (xs : List A)
      → first_where p xs ≡ some v
      → count_where p xs ≡ 1
      → g v +ℤ sum_by g (delete_where p xs) ≡ sum_by g xs
  sum_by-delete_one g p v [] e c = absurd (omega arith)
  sum_by-delete_one g p v (x ∷ xs) e c = elim (Bool-cases (p x)) [
    | inl t ↦ (let m : x ≡ v = ground arith in rw (t, delete_where_none p xs (ground arith), m))
    | inr n ↦ rw n (
        +ℤ_left_comm (g v) (g x) (sum_by g (delete_where p xs))
        ∙ ap (λ s. g x +ℤ s) (sum_by-delete_one g p v xs (ground arith) (ground arith)))
  ]
