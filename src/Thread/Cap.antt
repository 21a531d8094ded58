-- ===== src/Thread/Cap.antt =====
-- `exchange_cap` of deaddit/dynamics/threads.py.
use deaddit.Prelude.{
  ◌≡◌, refl, ap, ℕ, ◌+◌, ◌-◌, ◌%◌, ◌≤◌, ◌<◌, String, Bool, true, false, ◌&&◌, ◌||◌, Option, none,
  some, List, [], ◌∷◌, ◌++◌, ◌==◌, ltb, leb, min, max, if◌then◌else◌, arith, Bool-cases, inl, inr,
}
use native.Mathlib.Nat.{mod-lt}
use deaddit.Prelude.Int.{ℤ, pos, negsuc}
use deaddit.Prelude.Text.{codes}

-- What the two settings hold, and what the code calls: `int` of a text (none is its exception), and
-- the checksum of a post's key and a pair of names.
pub record Config : Type 0 where
  pub cap_min : String
  pub cap_max : String
  pub int : String → Option ℤ
  pub crc32 : ℕ → List ℕ → ℕ

abbrev pub exchange_cap_limit : ℕ
exchange_cap_limit = 10

-- `min(max(value, 1), limit)`
abbrev pub clamp : ℤ → ℕ
clamp (negsuc n) = 1
clamp (pos n) = min (max n 1) exchange_cap_limit

unfoldable pub cap_bound : Option ℤ → ℕ → ℕ
cap_bound none default = default
cap_bound (some value) default = clamp value

-- Texts are compared by their code points.
unfoldable pub comes_before : List ℕ → List ℕ → Bool
comes_before [] [] = false
comes_before [] (d ∷ ds) = true
comes_before (c ∷ cs) [] = false
comes_before (c ∷ cs) (d ∷ ds) = let rest = comes_before cs ds in ltb c d || (c == d && rest)

-- `":".join(sorted((a, b)))`
unfoldable pub pair_of : List ℕ → List ℕ → List ℕ
unfolding comes_before
pair_of a b = if comes_before b a then b ++ (58 ∷ a) else a ++ (58 ∷ b)

unfoldable pub cap_between : ℕ → ℕ → ℕ → ℕ
cap_between lo hi digest = if leb hi lo then lo else lo + digest % (hi - lo + 1)

unfoldable pub exchange_cap : Config → ℕ → String → String → ℕ
unfolding cap_bound cap_between pair_of
exchange_cap config post_id a b =
    cap_between (cap_bound (config.int config.cap_min) 2) (cap_bound (config.int config.cap_max) 3)
      (config.crc32 post_id (pair_of (codes a) (codes b)))

cap_bound_range :
    (v : Option ℤ) (default : ℕ)
    → 1 ≤ default
    → default ≤ 10
    → (1 ≤ cap_bound v default) × (cap_bound v default ≤ 10)
unfolding cap_bound
cap_bound_range none default l h = (l, h)
cap_bound_range (some (negsuc n)) default l h = (omega arith, omega arith)
cap_bound_range (some (pos n)) default l h = (omega arith, omega arith)

leb-false : (lo hi : ℕ) → leb hi lo ≡ false → lo < hi
leb-false lo hi h = ground arith

cap_between_range :
    (lo hi digest : ℕ)
    → (1 ≤ lo) × (lo ≤ 10)
    → (1 ≤ hi) × (hi ≤ 10)
    → (1 ≤ cap_between lo hi digest) × (cap_between lo hi digest ≤ 10)
unfolding cap_between
cap_between_range lo hi digest l h = elim (Bool-cases (leb hi lo)) [
  | inl y ↦ rw (y) l
  | inr n ↦ rw (n) (
    omega (arith, l),
    (let small = mod-lt digest {m = hi - lo + 1} (omega arith) in
        omega (arith, small, l, h, leb-false lo hi n)),
  )
]

-- Two texts neither of which comes before the other are the same, and no two come before each other.
same_text : (a b : List ℕ) → comes_before a b ≡ false → comes_before b a ≡ false → a ≡ b
unfolding comes_before
same_text [] [] h k = refl
same_text [] (d ∷ ds) h k = cc
same_text (c ∷ cs) [] h k = cc
same_text (c ∷ cs) (d ∷ ds) h k =
    let rest = same_text cs ds (ground arith) (ground arith) in
    let first : c ≡ d = ground arith in λ i. first i ∷ rest i

one_way : (a b : List ℕ) → comes_before a b ≡ true → comes_before b a ≡ false
unfolding comes_before
one_way [] [] h = refl
one_way [] (d ∷ ds) h = refl
one_way (c ∷ cs) [] h = cc
one_way (c ∷ cs) (d ∷ ds) h = ground (arith, one_way cs ds)

pair_of_comm : (a b : List ℕ) → pair_of a b ≡ pair_of b a
unfolding pair_of
pair_of_comm a b = elim (Bool-cases (comes_before a b)) [
  | inl y ↦ rw (y, one_way a b y) refl
  | inr n ↦ elim (Bool-cases (comes_before b a)) [
    | inl y ↦ rw (y, n) refl
    | inr m ↦ rw (n, m) (λ i. same_text a b n m i ++ (58 ∷ same_text b a m n i))
  ]
]

-- The cap of a pair in a post lies between 1 and 10 whatever the settings hold, and is the same for
-- the pair in either order.
pub exchange_cap-bounds :
    (config : Config) (post_id : ℕ) (a b : String)
    → (1 ≤ exchange_cap config post_id a b)
      × (exchange_cap config post_id a b ≤ 10)
      × (exchange_cap config post_id a b ≡ exchange_cap config post_id b a)
unfolding exchange_cap
exchange_cap-bounds config post_id a b =
    let r =
      cap_between_range (cap_bound (config.int config.cap_min) 2)
        (cap_bound (config.int config.cap_max) 3)
        (config.crc32 post_id (pair_of (codes a) (codes b)))
        (cap_bound_range (config.int config.cap_min) 2 (omega arith) (omega arith))
        (cap_bound_range (config.int config.cap_max) 3 (omega arith) (omega arith)) in
    (
      r.0,
      r.1,
      ap
          (λ p.
            cap_between (cap_bound (config.int config.cap_min) 2)
              (cap_bound (config.int config.cap_max) 3) (config.crc32 post_id p))
          (pair_of_comm (codes a) (codes b)),
    )
