-- ===== src/Memory/Once.antt =====
-- The backfill of deaddit/agents/memory.py happens once, and takes the oldest part of the history.
use deaddit.Prelude.{
  ◌≡◌, refl, sym, ap, ◌∙◌, subst, ℕ, zero, suc, ◌+◌, ◌*◌, ◌≤◌, ◌<◌, String, true, false, Option,
  some, List, [], ◌∷◌, ◌++◌, ◌==◌, str_eq, eq_refl, any, take, length, count_where,
  count_where-append, arith, Bool-cases, inl, inr, ◌⊎◌,
}
use deaddit.Memory.{
  backfill, Note, history, Item, Store, Writer, persona_items, chunk_size, max_chunks, drop, chunks,
  paragraph_of, add_memory, write_chunks, is_backfill_of, backfill_persona_history,
}

abbrev pub concat : List (List Item) → List Item
concat [] = []
concat (c ∷ cs) = c ++ concat cs

-- The rows of the user of this kind.
abbrev pub backfills : String → Store → ℕ
backfills user s = count_where (is_backfill_of user) s.memories

write_chunks-backfills :
    (writer : Writer) (user : String) (index total : ℕ) (cs : List (List Item)) (s : Store)
    → (backfills user (write_chunks writer user index total cs s).1 ≡ backfills user s + length cs)
      × ((write_chunks writer user index total cs s).0 ≡ length cs)
unfolding write_chunks
write_chunks-backfills writer user index total [] s = (omega arith, refl)
write_chunks-backfills writer user index total (c ∷ cs) s =
    let note : Note = history index total (paragraph_of (writer.model c) (writer.extract c)) in
    let s' : Store = add_memory user backfill note s in
    let rest = write_chunks-backfills writer user (index + 1) total cs s' in
    let own : str_eq user user ≡ true = eq_refl user in
    let more =
      count_where-append (is_backfill_of user) s.memories
        (record { id = s.next_id; user_username = user; kind = backfill; content = note } ∷ []) in
    let one : backfills user s' ≡ backfills user s + 1 = ground (arith, more, own) in
    let all = rest.0 in let sum = rest.1 in (omega (arith, all, one), omega (arith, sum))

chunks-length : (n : ℕ) (items : List Item) → length (chunks n items) ≤ n
unfolding chunks
chunks-length zero items = omega arith
chunks-length (suc n) [] = omega arith
chunks-length (suc n) (x ∷ xs) =
    (let rest = chunks-length n (drop chunk_size (x ∷ xs)) in omega (arith, rest))

take_nil : (m : ℕ) → take {A = Item} m [] ≡ []
take_nil zero = refl
take_nil (suc m) = refl

take-drop : (a k m : ℕ) (xs : List Item) → m ≡ a + k → take a xs ++ take k (drop a xs) ≡ take m xs
take-drop zero k m xs e = (let same : k ≡ m = omega (arith, e) in ap (λ j. take j xs) same)
take-drop (suc a) k m [] e = take_nil k ∙ sym (take_nil m)
take-drop (suc a) k zero (x ∷ xs) e = absurd (omega (arith, e))
take-drop (suc a) k (suc m) (x ∷ xs) e = ap (λ ys. x ∷ ys) (take-drop a k m xs (omega (arith, e)))

concat-chunks : (n m : ℕ) (items : List Item) → m ≡ n * 15 → concat (chunks n items) ≡ take m items
unfolding chunks
concat-chunks zero m items e =
    (let none_left : 0 ≡ m = omega (arith, e) in ap (λ j. take j items) none_left)
concat-chunks (suc n) m [] e = sym (take_nil m)
concat-chunks (suc n) m (x ∷ xs) e =
    ap (λ ys. take 15 (x ∷ xs) ++ ys) (concat-chunks n (n * 15) (drop 15 (x ∷ xs)) refl)
    ∙ take-drop 15 (n * 15) m (x ∷ xs) (omega (arith, e))

-- What a backfill leaves: the rest of the rows, and the rows of the persona.
write_chunks-rest :
    (writer : Writer) (user : String) (index total : ℕ) (cs : List (List Item)) (s : Store)
    → ((write_chunks writer user index total cs s).1.users ≡ s.users)
      × ((write_chunks writer user index total cs s).1.posts ≡ s.posts)
      × ((write_chunks writer user index total cs s).1.comments ≡ s.comments)
unfolding write_chunks
write_chunks-rest writer user index total [] s = (refl, refl, refl)
write_chunks-rest writer user index total (c ∷ cs) s =
    write_chunks-rest writer user (index + 1) total cs (
      add_memory user backfill
        (history index total (paragraph_of (writer.model c) (writer.extract c))) s)

abbrev written : Writer → String → Store → ℕ × Store
written writer user s =
    let parts : List (List Item) = chunks max_chunks (persona_items user s) in
    write_chunks writer user 1 (length parts) parts s

missing-backfill :
    (writer : Writer) (user : String) (s : Store)
    → any (str_eq user) s.users ≡ false
    → (backfill_persona_history writer user s).1 ≡ s
unfolding backfill_persona_history
missing-backfill writer user s n = rw (n) refl

done-backfill :
    (writer : Writer) (user : String) (s : Store)
    → (backfills user s == 0) ≡ false
    → (backfill_persona_history writer user s).1 ≡ s
unfolding backfill_persona_history
done-backfill writer user s n = elim (Bool-cases (any (str_eq user) s.users)) [
  | inl y ↦ rw (y, n) refl
  | inr m ↦ rw (m) refl
]

first-backfill :
    (writer : Writer) (user : String) (s : Store)
    → any (str_eq user) s.users ≡ true
    → (backfills user s == 0) ≡ true
    → backfill_persona_history writer user s
      ≡ (some (written writer user s).0, (written writer user s).1)
unfolding backfill_persona_history
first-backfill writer user s y n = rw (y, n) refl

empty-written :
    (writer : Writer) (user : String) (s : Store)
    → chunks max_chunks (persona_items user s) ≡ []
    → (written writer user s).1 ≡ s
unfolding write_chunks
empty-written writer user s e =
    ap (λ (parts : List (List Item)). (write_chunks writer user 1 (length parts) parts s).1) e

-- Where neither writer changes the rows, one after the other does not.
both-unchanged :
    (w v : Writer) (user : String) (s : Store)
    → (backfill_persona_history w user s).1 ≡ s
    → (backfill_persona_history v user s).1 ≡ s
    → (backfill_persona_history v user (backfill_persona_history w user s).1).1
      ≡ (backfill_persona_history w user s).1
both-unchanged w v user s e d = ap (λ t. (backfill_persona_history v user t).1) e ∙ d ∙ sym e

List-cases : (xs : List (List Item)) → (xs ≡ []) ⊎ (0 < length xs)
List-cases [] = inl refl
List-cases (x ∷ xs) = inr (omega arith)

first-once :
    (w v : Writer) (user : String) (s : Store)
    → any (str_eq user) s.users ≡ true
    → (backfills user s == 0) ≡ true
    → (backfill_persona_history v user (backfill_persona_history w user s).1).1
      ≡ (backfill_persona_history w user s).1
first-once w v user s y n = elim (List-cases (chunks max_chunks (persona_items user s))) [
  | inl e ↦
      both-unchanged w v user s
        (ap (λ (r : Option ℕ × Store). r.1) (first-backfill w user s y n)
          ∙ empty-written w user s e)
        (ap (λ (r : Option ℕ × Store). r.1) (first-backfill v user s y n)
          ∙ empty-written v user s e)
  | inr l ↦
      (let parts : List (List Item) = chunks max_chunks (persona_items user s) in
        let there : (backfill_persona_history w user s).1 ≡ (written w user s).1 =
          ap (λ (r : Option ℕ × Store). r.1) (first-backfill w user s y n) in
        let rows : backfills user (written w user s).1 ≡ backfills user s + length parts =
          (write_chunks-backfills w user 1 (length parts) parts s).0 in
        let some_rows : (backfills user (written w user s).1 == 0) ≡ false =
          ground (arith, rows, l) in
        ap (λ t. (backfill_persona_history v user t).1) there
        ∙ done-backfill v user (written w user s).1 some_rows
        ∙ sym there)
]

-- A backfill happens once: another one of the persona, whatever the model answers then, changes no row.
-- It adds at most twenty rows of the persona, whose chunks are the oldest 300 items of its history in
-- their order.
pub backfill_once :
    (w v : Writer) (user : String) (s : Store)
    → ((backfill_persona_history v user (backfill_persona_history w user s).1).1
        ≡ (backfill_persona_history w user s).1)
      × (backfills user (backfill_persona_history w user s).1 ≤ backfills user s + 20)
      × (concat (chunks max_chunks (persona_items user s)) ≡ take 300 (persona_items user s))
backfill_once w v user s = (
  elim (Bool-cases (any (str_eq user) s.users)) [
    | inl y ↦ elim (Bool-cases (backfills user s == 0)) [
      | inl n ↦ first-once w v user s y n
      | inr n ↦ both-unchanged w v user s (done-backfill w user s n) (done-backfill v user s n)
    ]
    | inr m ↦ both-unchanged w v user s (missing-backfill w user s m) (missing-backfill v user s m)
  ],
  elim (Bool-cases (any (str_eq user) s.users)) [
    | inl y ↦ elim (Bool-cases (backfills user s == 0)) [
      | inl n ↦
          (let parts : List (List Item) = chunks max_chunks (persona_items user s) in
            let there : (backfill_persona_history w user s).1 ≡ (written w user s).1 =
              ap (λ (r : Option ℕ × Store). r.1) (first-backfill w user s y n) in
            let rows : backfills user (written w user s).1 ≡ backfills user s + length parts =
              (write_chunks-backfills w user 1 (length parts) parts s).0 in
            let few : length parts ≤ 20 = chunks-length 20 (persona_items user s) in
            subst (λ (t : Store). backfills user t ≤ backfills user s + 20) (sym there)
              (omega (arith, rows, few)))
      | inr n ↦
          subst (λ (t : Store). backfills user t ≤ backfills user s + 20)
            (sym (done-backfill w user s n)) (omega arith)
    ]
    | inr m ↦
        subst (λ (t : Store). backfills user t ≤ backfills user s + 20)
          (sym (missing-backfill w user s m)) (omega arith)
  ],
  concat-chunks 20 300 (persona_items user s) (omega arith),
)
