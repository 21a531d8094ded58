-- ===== src/Memory.antt =====
-- deaddit/agents/memory.py: the one backfill of a persona's history, and what a visit remembers. The
-- texts of the summaries are arguments: that of the model, which may fail, and the extracted one.
pub mod Once
mod Scenarios
use deaddit.Prelude.{
  ℕ, zero, suc, ◌+◌, ◌-◌, String, Bool, true, false, not, ◌&&◌, ◌||◌, Option, none, some, List, [],
  ◌∷◌, ◌++◌, map, ◌==◌, leb, str_eq, any, take, length, select, count_where, order_by,
  if◌then◌else◌,
}

pub data Kind : Type 0 where
  episode backfill : Kind

abbrev pub is_backfill : Kind → Bool
is_backfill backfill = true
is_backfill episode = false

-- The number of a chunk, how many there are, and its paragraph; or the note of a visit.
pub data Note : Type 0 where
  history : ℕ → ℕ → String → Note
  visit : String → Note

pub record AgentMemory : Type 0 where
  pub id : ℕ
  pub user_username : String
  pub kind : Kind
  pub content : Note

pub data ItemKind : Type 0 where
  post comment : ItemKind

-- A post or a comment, in the order in which they are read; a moment that is NULL comes first.
pub record Item : Type 0 where
  pub user : String
  pub kind : ItemKind
  pub created_at : Option ℕ
  pub title : String
  pub content : String

pub record Store : Type 0 where
  pub users : List String
  pub posts : List Item
  pub comments : List Item
  pub memories : List AgentMemory
  pub next_id : ℕ

abbrev pub comes_first : Option ℕ → Option ℕ → Bool
comes_first none y = true
comes_first (some t) none = false
comes_first (some t) (some u) = leb t u

abbrev pub by_moment : Item → Item → Bool
by_moment x y = comes_first x.created_at y.created_at

-- `_persona_items`: each query is ordered, and then the whole of them, in a stable way.
unfoldable pub persona_items : String → Store → List Item
persona_items user s = order_by by_moment (
    order_by by_moment (select (λ p. str_eq p.user user) s.posts)
    ++ order_by by_moment (select (λ c. str_eq c.user user) s.comments))

abbrev pub chunk_size : ℕ
chunk_size = 15

abbrev pub max_chunks : ℕ
max_chunks = 20

abbrev pub drop : {A : Type 0} → ℕ → List A → List A
drop zero xs = xs
drop (suc n) [] = []
drop (suc n) (x ∷ xs) = drop n xs

-- The slices `items[start : start + 15]`, at most so many.
unfoldable pub chunks : ℕ → List Item → List (List Item)
chunks zero items = []
chunks (suc n) [] = []
chunks (suc n) (x ∷ xs) = take chunk_size (x ∷ xs) ∷ chunks n (drop chunk_size (x ∷ xs))

-- An empty paragraph, and an exception of the model, are replaced by the extracted summary.
abbrev pub paragraph_of : Option String → String → String
paragraph_of none extracted = extracted
paragraph_of (some t) extracted = if str_eq t "" then extracted else t

-- `model` yields none where it is not asked or raises.
pub record Writer : Type 0 where
  pub model : List Item → Option String
  pub extract : List Item → String

abbrev pub add_memory : String → Kind → Note → Store → Store
add_memory user kind note s = record s {
  memories =
      s.memories
      ++ record { id = s.next_id; user_username = user; kind = kind; content = note } ∷ [];
  next_id = s.next_id + 1;
}

unfoldable pub write_chunks : Writer → String → ℕ → ℕ → List (List Item) → Store → ℕ × Store
write_chunks writer user index total [] s = (0, s)
write_chunks writer user index total (c ∷ cs) s =
    let paragraph : String = paragraph_of (writer.model c) (writer.extract c) in
    let (n, t) =
      write_chunks writer user (index + 1) total cs
        (add_memory user backfill (history index total paragraph) s) in
    (suc n, t)

abbrev pub is_backfill_of : String → AgentMemory → Bool
is_backfill_of user m = str_eq m.user_username user && is_backfill m.kind

-- None is the ValueError that there is no such user.
unfoldable pub backfill_persona_history : Writer → String → Store → Option ℕ × Store
unfolding write_chunks chunks persona_items
backfill_persona_history writer user s =
    let parts : List (List Item) = chunks max_chunks (persona_items user s) in
    let (n, t) = write_chunks writer user 1 (length parts) parts s in
    if not (any (str_eq user) s.users)
    then (none, s)
    else if not (count_where (is_backfill_of user) s.memories == 0)
    then (some 0, s)
    else (some n, t)

pub record VisitMemories : Type 0 where
  pub backfill : List Note
  pub episodes : List Note

abbrev pub older : AgentMemory → AgentMemory → Bool
older a b = leb a.id b.id

abbrev pub newer : AgentMemory → AgentMemory → Bool
newer a b = leb b.id a.id

abbrev pub reverse : {A : Type 0} → List A → List A
reverse [] = []
reverse (x ∷ xs) = reverse xs ++ x ∷ []

abbrev pub unless_empty : List AgentMemory → List AgentMemory → Option VisitMemories
unless_empty [] [] = none
unless_empty bs es =
    some
      (record { backfill = map (λ m. m.content) bs; episodes = map (λ m. m.content) (reverse es) })

unfoldable pub visit_memories : String → Store → Option VisitMemories
visit_memories user s =
    unless_empty (take 3 (order_by older (select (is_backfill_of user) s.memories))) (
      take 5 (
        order_by newer
          (select (λ m. str_eq m.user_username user && not (is_backfill m.kind)) s.memories)))
