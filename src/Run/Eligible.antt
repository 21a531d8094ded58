-- ===== src/Run/Eligible.antt =====
-- Whom deaddit/agents/loop.py may pick as the persona of a run.
use deaddit.Prelude.{
  first_where-In, ◌≡◌, refl, subst, ℕ, zero, suc, ◌<◌, String, Bool, true, false, not, ◌&&◌, Option,
  none, some, List, [], ◌∷◌, str_eq, if◌then◌else◌, arith, ltb, Bool-cases, inl, inr, ◌⊎◌,
  first_where, select, is_some, any, map, take, length, order_by, insert_by, In, In-selected,
}
use deaddit.Run.{Agent, User, Store, PersonaMode, fixed, random}
use deaddit.Run.Persona.{
  select_persona, persona_of, pick, pick_lru_persona, pick_from, eligible_personas, without,
  previous_persona, is_free, is_fixed, is_busy, last_used, used_before, lru_window, usable,
  fixed_persona,
}

-- In the random mode no agent has the name as its fixed one, and no running run has it.
abbrev pub IsFreeIn : PersonaMode → String → Store → Type 0
IsFreeIn fixed p s = Unit
IsFreeIn random p s = (is_fixed s p ≡ false) × (is_busy s p ≡ false)

-- The name is that of a simulated user, and free where it has to be.
pub record IsEligible (mode : PersonaMode) (p : String) (s : Store) : Type 0 where
  pub user : (u : User) × In u s.users × (u.username ≡ p) × (is_some u.password_hash ≡ false)
  pub free : IsFreeIn mode p s

module _ {A : Type 0} (before : A → A → Bool) where
  In-insert_by : (a x : A) (xs : List A) → In a (insert_by before x xs) → (x ≡ a) ⊎ In a xs
  In-insert_by a x [] m = m
  In-insert_by a x (y ∷ ys) m = elim (Bool-cases (before x y)) [
    | inl t ↦
        (let m' : In a (x ∷ y ∷ ys) =
            subst (λ b. In a (if b then x ∷ y ∷ ys else y ∷ insert_by before x ys)) t m in
          m')
    | inr n ↦
        (let m' : In a (y ∷ insert_by before x ys) =
            subst (λ b. In a (if b then x ∷ y ∷ ys else y ∷ insert_by before x ys)) n m in
          elim m' [
            | inl e ↦ inr (inl e)
            | inr r ↦ elim (In-insert_by a x ys r) [ inl e ↦ inl e | inr q ↦ inr (inr q) ]
          ])
  ]

  pub In-order_by : (a : A) (xs : List A) → In a (order_by before xs) → In a xs
  In-order_by a [] m = m
  In-order_by a (x ∷ xs) m = elim (In-insert_by a x (order_by before xs) m) [
    | inl e ↦ inl e
    | inr r ↦ inr (In-order_by a xs r)
  ]

  length-insert_by : (x : A) (xs : List A) → length (insert_by before x xs) ≡ suc (length xs)
  length-insert_by x [] = refl
  length-insert_by x (y ∷ ys) = ground (arith, length-insert_by x ys)

  length-order_by : (xs : List A) → length (order_by before xs) ≡ length xs
  length-order_by [] = refl
  length-order_by (x ∷ xs) =
      ground (arith, length-insert_by x (order_by before xs), length-order_by xs)

In-take : {A : Type 0} (a : A) (n : ℕ) (xs : List A) → In a (take n xs) → In a xs
In-take a zero xs m = absurd m
In-take a (suc n) [] m = m
In-take a (suc n) (x ∷ xs) (inl e) = inl e
In-take a (suc n) (x ∷ xs) (inr m) = inr (In-take a n xs m)

take-nonempty : {A : Type 0} (n : ℕ) (xs : List A) → 0 < n → 0 < length xs → 0 < length (take n xs)
take-nonempty zero xs h k = h
take-nonempty (suc n) [] h k = k
take-nonempty (suc n) (x ∷ xs) h k = omega arith

lru_window-positive : (n : ℕ) → 0 < n → 0 < lru_window n
lru_window-positive n h = ground arith

In-mapped :
    {A B : Type 0} (f : A → B) (b : B) (xs : List A)
    → In b (map f xs)
    → (a : A) × In a xs × (f a ≡ b)
In-mapped f b [] m = absurd m
In-mapped f b (x ∷ xs) (inl e) = (x, inl refl, e)
In-mapped f b (x ∷ xs) (inr m) = (let r = In-mapped f b xs m in (r.0, inr r.1, r.2))

In-without :
    (p : String) (o : Option String) (pool : List String) → In p (without o pool) → In p pool
In-without p none pool m = m
In-without p (some q) pool m = elim (Bool-cases (any (str_eq q) pool && ltb 1 (length pool))) [
  | inl y ↦
      (In-selected (λ name. not (str_eq q name)) p pool
        (subst (λ b. In p (if b then select (λ name. not (str_eq q name)) pool else pool)) y m)).1
  | inr n ↦ subst (λ b. In p (if b then select (λ name. not (str_eq q name)) pool else pool)) n m
]

module _ (choose : List String → String)
    (member : (x : String) (xs : List String) → In (choose (x ∷ xs)) (x ∷ xs)) where
  chosen-In : (xs : List String) → 0 < length xs → In (choose xs) xs
  chosen-In [] h = absurd (omega arith)
  chosen-In (x ∷ xs) h = member x xs

  pick_from-In :
      (used : String → Option ℕ) (pool unused : List String)
      → 0 < length pool
      → ((p : String) → In p unused → In p pool)
      → In (pick_from choose used pool unused) pool
  pick_from-In used pool [] h k =
      let sorted : List String = order_by (λ u v. used_before (used u) (used v)) pool in
      let enough : 0 < length sorted =
        (let same = length-order_by (λ u v. used_before (used u) (used v)) pool in
          omega (arith, same, h)) in
      In-order_by (λ u v. used_before (used u) (used v)) _ pool
        (In-take _ (lru_window (length pool)) sorted (
          chosen-In (take (lru_window (length pool)) sorted) (
            take-nonempty (lru_window (length pool)) sorted (lru_window-positive (length pool) h)
              enough)))
  pick_from-In used pool (name ∷ names) h k = k (choose (name ∷ names)) (member name names)

  pick-In : (s : Store) (p : String) (pool : List String) → pick choose s pool ≡ some p → In p pool
  unfolding pick pick_lru_persona
  pick-In s p [] e = absurd (cc e)
  pick-In s p (name ∷ names) e =
      let pool : List String = name ∷ names in
      let at : pick_from choose (last_used s) pool
            (select (λ q. not (is_some (last_used s q))) pool)
          ≡ p =
        cc e in
      subst (λ q. In q pool) at
        (pick_from-In (last_used s) pool (select (λ q. not (is_some (last_used s q))) pool)
          (omega arith) (λ q m. (In-selected (λ q. not (is_some (last_used s q))) q pool m).1))

  random-IsEligible :
      (x : Agent) (s : Store) (p : String) → In p (eligible_personas x s) → IsEligible random p s
  unfolding eligible_personas
  random-IsEligible x s p m =
      let named =
        In-mapped (λ (u : User). u.username) p (select (is_free s) s.users)
          (In-without p (previous_persona x s) (map (λ u. u.username) (select (is_free s) s.users))
            m) in
      let found = In-selected (is_free s) named.0 s.users named.1 in
      let test : is_free s named.0 ≡ true = found.0 in
      record {
        user = (named.0, found.1, named.2, ground arith);
        free = (
          subst (λ q. is_fixed s q ≡ false) named.2 (ground arith),
          subst (λ q. is_busy s q ≡ false) named.2 (ground arith),
        );
      }

  usable-username :
      (o : Option User) (p : String)
      → usable o ≡ some p
      → (u : User) × (o ≡ some u) × (u.username ≡ p) × (is_some u.password_hash ≡ false)
  usable-username none p e = absurd (cc e)
  usable-username (some u) p e = (u, refl, ground arith, ground arith)

  fixed-IsEligible :
      (s : Store) (p : String) (o : Option String)
      → fixed_persona o s ≡ some p
      → IsEligible fixed p s
  fixed-IsEligible s p none e = absurd (cc e)
  fixed-IsEligible s p (some name) e =
      let found = usable-username (first_where (λ u. str_eq u.username name) s.users) p e in
      record {
        user = (
          found.0,
          (first_where-In (λ u. str_eq u.username name) found.0 s.users found.1).1,
          found.2,
          found.3,
        );
        free = tt;
      }

  persona_of-IsEligible :
      (mode : PersonaMode) (x : Agent) (s : Store) (p : String)
      → persona_of choose mode x s ≡ some p
      → IsEligible mode p s
  unfolding persona_of
  persona_of-IsEligible fixed x s p e = fixed-IsEligible s p x.user_username e
  persona_of-IsEligible random x s p e =
      random-IsEligible x s p (pick-In s p (eligible_personas x s) e)

  -- The persona that is picked is a simulated user and no human; a random agent's is neither fixed to
  -- an agent nor that of a running run. `choose` returns a member of any list that is not empty.
  pub select_persona-IsEligible :
      (x : Agent) (s : Store) (p : String)
      → select_persona choose x s ≡ some p
      → IsEligible x.persona_mode p s
  unfolding select_persona
  select_persona-IsEligible x s p e = persona_of-IsEligible x.persona_mode x s p e
