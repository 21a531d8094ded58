-- ===== src/Run/Persona.antt =====
-- The choice of a persona in deaddit/agents/loop.py. `choose` is `random.choice`.
use deaddit.Prelude.{
  ℕ, ◌/◌, String, Bool, true, false, not, ◌&&◌, Option, none, some, List, [], ◌∷◌, ◌==◌, ltb, leb,
  min, max, any, length, take, map, if◌then◌else◌, is_some, str_eq, text_eq, select, first_where,
  order_by,
}
use deaddit.Run.{AgentRun, Agent, User, Store, PersonaMode, fixed, random, is_running}

-- The newest run: `ORDER BY id DESC`.
abbrev pub newer_run : AgentRun → AgentRun → Bool
newer_run r q = leb q.id r.id

abbrev pub first_persona : List AgentRun → Option String
first_persona [] = none
first_persona (r ∷ rs) = some r.persona_username

unfoldable pub previous_persona : Agent → Store → Option String
previous_persona a s = first_persona (order_by newer_run (select (λ r. r.agent_id == a.id) s.runs))

abbrev pub is_fixed : Store → String → Bool
is_fixed s name = any (λ a. text_eq a.user_username name) s.agents

abbrev pub is_busy : Store → String → Bool
is_busy s name = any (λ r. is_running r.status && str_eq r.persona_username name) s.runs

abbrev pub is_free : Store → User → Bool
is_free s u =
    not (is_some u.password_hash) && (not (is_fixed s u.username) && not (is_busy s u.username))

-- `pool.remove(previous)` where it is in the pool and not alone; the names are different.
abbrev pub without : Option String → List String → List String
without none pool = pool
without (some previous) pool =
    if any (str_eq previous) pool && ltb 1 (length pool)
    then select (λ name. not (str_eq previous name)) pool
    else pool

unfoldable pub eligible_personas : Agent → Store → List String
unfolding previous_persona
eligible_personas a s =
    without (previous_persona a s) (map (λ u. u.username) (select (is_free s) s.users))

-- The start of a persona's newest run.
abbrev pub started_of : List AgentRun → Option ℕ
started_of [] = none
started_of (r ∷ rs) = some r.started_at

abbrev pub later_start : AgentRun → AgentRun → Bool
later_start r q = leb q.started_at r.started_at

unfoldable pub last_used : Store → String → Option ℕ
last_used s name =
    started_of (order_by later_start (select (λ r. str_eq r.persona_username name) s.runs))

abbrev pub used_before : Option ℕ → Option ℕ → Bool
used_before none y = true
used_before (some t) none = false
used_before (some t) (some u) = leb t u

abbrev pub lru_window : ℕ → ℕ
lru_window n = min (max 3 (n / 5)) n

abbrev pub pick_from :
    (List String → String) → (String → Option ℕ) → List String → List String → String
pick_from choose used pool [] =
    choose (take (lru_window (length pool)) (order_by (λ u v. used_before (used u) (used v)) pool))
pick_from choose used pool (name ∷ names) = choose (name ∷ names)

-- A persona that was never used, or one of those that were used the longest ago.
unfoldable pub pick_lru_persona : (List String → String) → List String → Store → String
unfolding last_used
pick_lru_persona choose pool s =
    pick_from choose (last_used s) pool (select (λ name. not (is_some (last_used s name))) pool)

abbrev pub usable : Option User → Option String
usable none = none
usable (some u) = if is_some u.password_hash then none else some u.username

unfoldable pub pick : (List String → String) → Store → List String → Option String
unfolding pick_lru_persona
pick choose s [] = none
pick choose s (name ∷ names) = some (pick_lru_persona choose (name ∷ names) s)

abbrev pub fixed_persona : Option String → Store → Option String
fixed_persona none s = none
fixed_persona (some name) s = usable (first_where (λ u. str_eq u.username name) s.users)

unfoldable pub persona_of : (List String → String) → PersonaMode → Agent → Store → Option String
unfolding pick eligible_personas
persona_of choose fixed a s = fixed_persona a.user_username s
persona_of choose random a s = pick choose s (eligible_personas a s)

-- None is the ValueError that there is no persona.
unfoldable pub select_persona : (List String → String) → Agent → Store → Option String
unfolding persona_of
select_persona choose a s = persona_of choose a.persona_mode a s
