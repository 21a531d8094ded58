-- ===== src/Memory/Scenarios.antt =====
-- Ada's history of two posts, through deaddit/agents/memory.py.
use deaddit.Prelude.{◌≡◌, ◌≤◌, ◌+◌, refl, some, none, [], ◌∷◌, take, count_where}
use deaddit.Memory.{
  post, Store, Writer, persona_items, chunks, history, write_chunks, is_backfill_of,
  backfill_persona_history, visit_memories,
}
use deaddit.Memory.Once.{concat, backfill_once}

abbrev lived : Store
lived = record {
  users = "ada" ∷ [];
  posts =
      record { user = "ada"; kind = post; created_at = some 9; title = "B"; content = "" }
      ∷ record { user = "ada"; kind = post; created_at = none; title = "A"; content = "" }
      ∷ [];
  comments = [];
  memories = [];
  next_id = 1;
}

abbrev silent : Writer
silent = record { model = λ items. none; extract = λ items. "wrote 2 post(s)" }

abbrev spoken : Writer
spoken = record { model = λ items. some "She posts."; extract = λ items. "" }

backfill_once_example :
    ((backfill_persona_history spoken "ada" (backfill_persona_history silent "ada" lived).1).1
      ≡ (backfill_persona_history silent "ada" lived).1)
    × (count_where (is_backfill_of "ada") (backfill_persona_history silent "ada" lived).1.memories
        ≤ 0 + 20)
    × (concat (chunks 20 (persona_items "ada" lived)) ≡ take 300 (persona_items "ada" lived))
backfill_once_example = backfill_once silent spoken "ada" lived

remembers :
    visit_memories "ada" (backfill_persona_history silent "ada" lived).1
    ≡ some (record { backfill = history 1 1 "wrote 2 post(s)" ∷ []; episodes = [] })
unfolding visit_memories backfill_persona_history write_chunks chunks persona_items
remembers = refl
