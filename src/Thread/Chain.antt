-- ===== src/Thread/Chain.antt =====
-- `exchange_tail_for_reply` of deaddit/dynamics/threads.py with its helper.
use deaddit.Prelude.{
  ℕ, ◌+◌, zero, suc, String, Bool, true, false, Option, none, some, List, [], ◌∷◌, ◌==◌,
  if◌then◌else◌, any, length, first_where, str_eq, ◌≡◌, refl, ap, sym, ◌≤◌, ◌<◌, arith, Bool-cases,
  Option-cases, inl, inr, count_where, count_where_imp, ==_self,
}
use deaddit.Thread.{Comment}

-- The loop from the third author on: `expected` and `next` alternate.
unfoldable pub alternating : String → String → List String → ℕ
alternating expected next [] = 0
alternating expected next (x ∷ xs) =
    let rest = alternating next expected xs in if str_eq x expected then suc rest else 0

unfoldable pub alternating_tail_length : List String → ℕ
unfolding alternating
alternating_tail_length [] = 0
alternating_tail_length (a ∷ []) = 1
alternating_tail_length (a ∷ b ∷ rest) = if str_eq a b then 1 else suc (suc (alternating a b rest))

-- The comment of a key, where it is neither visited nor missing.
abbrev pub unvisited : List ℕ → Comment → Bool
unvisited visited c = if any (λ v. v == c.id) visited then false else true

abbrev pub next_comment : List Comment → List ℕ → Option ℕ → Option Comment
next_comment comments visited none = none
next_comment comments visited (some i) =
    if any (λ v. v == i) visited then none else first_where (λ c. c.id == i) comments

abbrev pub and_above : (Comment → List String) → Option Comment → List String
and_above above none = []
and_above above (some c) = c.user ∷ above c

-- The walk to the root, by fuel; a comment that is met again ends it.
unfoldable pub chain : ℕ → List Comment → List ℕ → Option ℕ → List String
chain zero comments visited i = []
chain (suc fuel) comments visited i =
    and_above (λ c. chain fuel comments (c.id ∷ visited) c.parent_id)
      (next_comment comments visited i)

-- The fuel is the number of the comments, which is enough.
unfoldable pub exchange_tail_for_reply : List Comment → Option ℕ → String → ℕ
unfolding alternating_tail_length chain
exchange_tail_for_reply comments parent_id reply_author =
    alternating_tail_length (reply_author ∷ chain (length comments) comments [] parent_id)

-- A row that is found and that `q` no longer keeps makes the count smaller.
count_where-found :
    (p q : Comment → Bool) (r : Comment → Bool) (a : Comment) (xs : List Comment)
    → ((x : Comment) → q x ≡ true → p x ≡ true)
    → first_where r xs ≡ some a
    → p a ≡ true
    → q a ≡ false
    → count_where q xs < count_where p xs
count_where-found p q r a [] imp f h k = cc
count_where-found p q r a (x ∷ xs) imp f h k = elim (Bool-cases (r x)) [
  | inl y ↦
      (let same : x ≡ a = ground arith in
        let px : p x ≡ true = rw (same) h in
        let qx : q x ≡ false = rw (same) k in
        rw (px, qx) (omega (arith, count_where_imp q p xs imp)))
  | inr n ↦
      (let rest = count_where-found p q r a xs imp (ground arith) h k in
        ground (arith, rest, imp x))
]

first_where_self :
    (i : ℕ) (xs : List Comment) (c : Comment) → first_where (λ c. c.id == i) xs ≡ some c → c.id ≡ i
first_where_self i [] c e = cc
first_where_self i (x ∷ xs) c e = ground (arith, first_where_self i xs c)

shrinks :
    (comments : List Comment) (visited : List ℕ) (i : Option ℕ) (c : Comment)
    → next_comment comments visited i ≡ some c
    → count_where (unvisited (c.id ∷ visited)) comments < count_where (unvisited visited) comments
shrinks comments visited none c e = cc
shrinks comments visited (some i) c e = elim (Bool-cases (any (λ v. v == i) visited)) [
  | inl y ↦ cc
  | inr n ↦
      (let f : first_where (λ c. c.id == i) comments ≡ some c = ground arith in
        let same = first_where_self i comments c f in
        count_where-found (unvisited visited) (unvisited (c.id ∷ visited)) (λ c. c.id == i) c
          comments (λ x h. ground arith) f (rw (same, n) refl) (rw (==_self c.id) refl))
]

count_where-length : (p : Comment → Bool) (xs : List Comment) → count_where p xs ≤ length xs
count_where-length p [] = omega arith
count_where-length p (x ∷ xs) = ground (arith, count_where-length p xs)

chain_ended :
    (comments : List Comment) (n : ℕ) (visited : List ℕ) (i : Option ℕ)
    → next_comment comments visited i ≡ none
    → chain n comments visited i ≡ []
unfolding chain
chain_ended comments zero visited i e = refl
chain_ended comments (suc n) visited i e = rw (e) refl

all_visited :
    (comments : List Comment) (visited : List ℕ) (i : Option ℕ)
    → count_where (unvisited visited) comments ≤ 0
    → next_comment comments visited i ≡ none
all_visited comments visited i h = elim (Option-cases (next_comment comments visited i)) [
  | inl e ↦ e
  | inr (c, e) ↦ absurd (omega (arith, h, shrinks comments visited i c e))
]

-- Fuel for every comment that is not visited is enough: more of it gives the same chain.
pub chain_enough :
    (comments : List Comment) (n m : ℕ) (visited : List ℕ) (i : Option ℕ)
    → count_where (unvisited visited) comments ≤ n
    → count_where (unvisited visited) comments ≤ m
    → chain n comments visited i ≡ chain m comments visited i
unfolding chain
chain_enough comments zero m visited i hn hm =
    sym (chain_ended comments m visited i (all_visited comments visited i hn))
chain_enough comments (suc n) zero visited i hn hm =
    chain_ended comments (suc n) visited i (all_visited comments visited i hm)
chain_enough comments (suc n) (suc m) visited i hn hm =
    elim (Option-cases (next_comment comments visited i)) [
      | inl e ↦ rw (e) refl
      | inr (c, e) ↦
          (let less = shrinks comments visited i c e in
            rw (e) (
              ap (λ above. c.user ∷ above)
                (chain_enough comments n m (c.id ∷ visited) c.parent_id (omega (arith, less, hn))
                  (omega (arith, less, hm)))))
    ]

-- The fuel that the length of a reply chain is computed with is enough: with any more of it, the walk
-- from the parent meets the same authors and the length is the same, cycles in the rows included.
pub exchange_tail-enough :
    (comments : List Comment) (parent_id : Option ℕ) (author : String) (more : ℕ)
    → exchange_tail_for_reply comments parent_id author
      ≡ alternating_tail_length (author ∷ chain (length comments + more) comments [] parent_id)
unfolding exchange_tail_for_reply
exchange_tail-enough comments parent_id author more =
    let bound = count_where-length (unvisited []) comments in
    ap (λ c. alternating_tail_length (author ∷ c))
      (chain_enough comments (length comments) (length comments + more) [] parent_id bound
        (omega (arith, bound)))
