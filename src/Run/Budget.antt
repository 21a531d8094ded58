-- ===== src/Run/Budget.antt =====
-- The budget of a visit: deaddit/agents/loop.py. Every turn that the loop goes on after has used an
-- action or the one nudge, whatever the model answers and the tools do.
use deaddit.Prelude.{
  ◌≡◌, refl, ℕ, ◌+◌, ◌-◌, ◌≤◌, ◌<◌, String, Bool, true, false, ◌||◌, Option, none, some, List, [],
  ◌∷◌, ◌++◌, ◌==◌, leb, min, if◌then◌else◌, arith,
}
use deaddit.Prelude.Dict.{get_or}
use deaddit.Run.Loop.{
  ToolCall, Outcome, assistant, Completion, answered, permanent_error, other_error, Outside, Limits,
  Progress, stopped, done, Step, again, leave, add_usage, correction_cap, ends_visit, is_rejection,
  answer_call, while_active, unless_expired, finish, end_turn, after_call, run_call, run_next,
  run_calls, respond, record_answer, take_answer, ask, pause_until, pace, turn,
}

-- What `time.monotonic` promises: a reading is no earlier than the one before it.
abbrev pub IsMonotonic : {W : Type 0} → Outside W → Type 0
IsMonotonic {W} out = (w : W) → (out.monotonic w).0 ≤ (out.monotonic (out.monotonic w).1).0

-- The actions and the nudge that are left.
abbrev pub left_over : Limits → Progress → ℕ
left_over limits p = (limits.max_actions - p.action_count) + (if p.nudged then 0 else 1)

abbrev pub IsWithin : Limits → ℕ → Progress → Type 0
IsWithin limits t p = (p.turn_count ≤ t) × (p.action_count ≤ limits.max_actions)

-- A step that goes on has less than `m` left.
abbrev pub Fits : Limits → ℕ → ℕ → Step → Type 0
Fits limits m t (again p) = (left_over limits p < m) × IsWithin limits t p
Fits limits m t (leave e p) = IsWithin limits t p

module _ {W : Type 0} (out : Outside W) (limits : Limits) (m t : ℕ) where
  if-Fits :
      (b : Bool) (x y : Step × W)
      → (b ≡ true → Fits limits m t x.0)
      → (b ≡ false → Fits limits m t y.0)
      → Fits limits m t (if b then x else y).0
  if-Fits true x y f g = f refl
  if-Fits false x y f g = g refl

  while_active-Fits :
      (p : Progress) (k : W → Step × W) (w : W)
      → IsWithin limits t p
      → ((v : W) → Fits limits m t (k v).0)
      → Fits limits m t (while_active out limits p k w).0
  while_active-Fits p k w h f =
      if-Fits (out.is_active w).0 (k (out.is_active w).1) (leave stopped p, (out.is_active w).1)
        (λ y. f _) (λ n. h)

  unless_expired-Fits :
      (late k : W → Step × W) (w : W)
      → (leb limits.expires_at (out.monotonic w).0 ≡ true
          → Fits limits m t (late (out.monotonic w).1).0)
      → Fits limits m t (k (out.monotonic w).1).0
      → Fits limits m t (unless_expired out limits late k w).0
  unless_expired-Fits late k w g f =
      if-Fits (leb limits.expires_at (out.monotonic w).0) (late (out.monotonic w).1)
        (k (out.monotonic w).1) g (λ n. f)

  end_turn-Fits :
      (ended : Bool) (p : Progress) (w : W)
      → left_over limits p < m
      → IsWithin limits t p
      → Fits limits m t (end_turn out limits ended p w).0
  end_turn-Fits ended p w l h =
      if-Fits (ended || leb limits.max_actions p.action_count) (leave done p, w) _ (λ y. h)
        (λ n. unless_expired-Fits (finish out limits p) (λ v. (again p, v)) w (λ y. h) (l, h))

  after_call-Fits :
      (name : String) (o : Option Outcome) (rest : Progress → W → Step × W) (p : Progress) (w : W)
      → ((q : Progress) (v : W)
          → left_over limits q < m
          → IsWithin limits t q
          → Fits limits m t (rest q v).0)
      → left_over limits p < m
      → IsWithin limits t p
      → Fits limits m t (after_call out limits name o rest p w).0
  after_call-Fits name o rest p w f l h =
      let corrected : Progress = record p { rejected_streak = p.rejected_streak + 1 } in
      let accepted : Progress = record p { rejected_streak = 0 } in
      if-Fits (ends_visit name o) (end_turn out limits true p w) _ (λ y. end_turn-Fits true p w l h)
        (λ n.
          if-Fits (is_rejection o) _ (rest accepted w)
            (λ y.
              if-Fits (leb correction_cap (p.rejected_streak + 1))
                (end_turn out limits true corrected w) (rest corrected w)
                (λ c. end_turn-Fits true corrected w l h) (λ c. f corrected w l h))
            (λ z. f accepted w l h))

  run_call-Fits :
      (c : ToolCall) (rest : Progress → W → Step × W) (p : Progress) (w : W)
      → ((q : Progress) (v : W)
          → left_over limits q < m
          → IsWithin limits t q
          → Fits limits m t (rest q v).0)
      → left_over limits p ≤ m
      → leb limits.max_actions p.action_count ≡ false
      → IsWithin limits t p
      → Fits limits m t (run_call out limits c rest p w).0
  run_call-Fits c rest p w f l room h =
      let name : String = get_or c.name "" in
      let o : Option Outcome = (out.execute name c.arguments w).0 in
      let used : left_over limits (answer_call c o p) < m = ground arith in
      let kept : IsWithin limits t (answer_call c o p) = (h.0, ground arith) in
      while_active-Fits p (after_call out limits name o rest (answer_call c o p))
        (out.execute name c.arguments w).1 h
        (λ v. after_call-Fits name o rest (answer_call c o p) v f used kept)

  -- A call runs only where an action is left; else the turn ends, and `late` is the deadline.
  run_next-Fits :
      (c : ToolCall) (rest : Progress → W → Step × W) (p : Progress) (w : W)
      → ((q : Progress) (v : W)
          → left_over limits q < m
          → IsWithin limits t q
          → Fits limits m t (rest q v).0)
      → left_over limits p ≤ m
      → (leb limits.expires_at (out.monotonic w).0 ≡ true
          → Fits limits m t (end_turn out limits false p (out.monotonic w).1).0)
      → IsWithin limits t p
      → Fits limits m t (run_next out limits c rest p w).0
  run_next-Fits c rest p w f l late h =
      if-Fits (leb limits.max_actions p.action_count) (end_turn out limits false p w) _
        (λ y.
          if-Fits (leb limits.max_actions p.action_count) (leave done p, w) _ (λ z. h)
            (λ n. absurd (cc (y, n))))
        (λ n.
          unless_expired-Fits (end_turn out limits false p) (run_call out limits c rest p) w late
            (run_call-Fits c rest p (out.monotonic w).1 f l n h))

  more_calls-Fits :
      (cs : List ToolCall) (p : Progress) (w : W)
      → left_over limits p < m
      → IsWithin limits t p
      → Fits limits m t (run_calls out limits cs p w).0
  unfolding run_calls
  more_calls-Fits [] p w l h = end_turn-Fits false p w l h
  more_calls-Fits (c ∷ cs) p w l h =
      while_active-Fits p (run_next out limits c (run_calls out limits cs) p) w h (λ v.
        run_next-Fits c (run_calls out limits cs) p v (more_calls-Fits cs) (omega (arith, l))
          (λ y. end_turn-Fits false p _ l h) h)

  module _ (monotonic : IsMonotonic out) where
    -- The second reading of the clock is no earlier, so that a turn that starts too late is the last.
    late_turn-Fits :
        (p : Progress) (w : W)
        → leb limits.expires_at (out.monotonic w).0 ≡ true
        → IsWithin limits t p
        → Fits limits m t (end_turn out limits false p (out.monotonic w).1).0
    late_turn-Fits p w y h =
        let later : leb limits.expires_at (out.monotonic (out.monotonic w).1).0 ≡ true =
          (let m' = monotonic w in ground arith) in
        if-Fits (leb limits.max_actions p.action_count) (leave done p, _) _ (λ z. h)
          (λ n.
            if-Fits (leb limits.expires_at (out.monotonic (out.monotonic w).1).0) (leave done p, _)
              (again p, _) (λ z. h) (λ z. absurd (cc (later, z))))

    first_calls-Fits :
        (c : ToolCall) (cs : List ToolCall) (p : Progress) (w : W)
        → left_over limits p ≤ m
        → IsWithin limits t p
        → Fits limits m t (run_calls out limits (c ∷ cs) p w).0
    unfolding run_calls
    first_calls-Fits c cs p w l h =
        while_active-Fits p (run_next out limits c (run_calls out limits cs) p) w h (λ v.
          run_next-Fits c (run_calls out limits cs) p v (more_calls-Fits cs) l
            (λ y. late_turn-Fits p v y h) h)

    respond-Fits :
        (calls : List ToolCall) (p : Progress) (w : W)
        → left_over limits p ≤ m
        → IsWithin limits t p
        → Fits limits m t (respond out limits calls p w).0
    respond-Fits [] p w l h = if-Fits p.nudged (leave done p, w) _ (λ y. h) (λ n. (ground arith, h))
    respond-Fits (c ∷ cs) p w l h = first_calls-Fits c cs p w l h

    record_answer-Fits :
        (content : String) (calls : List ToolCall) (p : Progress) (w : W)
        → left_over limits p ≤ m
        → IsWithin limits t (record p { turn_count = p.turn_count + 1 })
        → Fits limits m t (record_answer out limits content calls p w).0
    record_answer-Fits content calls p w l h =
        let p' : Progress = record p {
          turn_count = p.turn_count + 1;
          messages = p.messages ++ assistant content calls ∷ [];
        } in
        unless_expired-Fits (finish out limits p') (respond out limits calls p')
          (out.record_turn (p.turn_count + 1) p.messages (assistant content calls) w) (λ y. h)
          (respond-Fits calls p' _ l h)

    take_answer-Fits :
        (answer : Completion) (p : Progress) (w : W)
        → left_over limits p ≤ m
        → IsWithin limits t (record p { turn_count = p.turn_count + 1 })
        → Fits limits m t (take_answer out limits answer p w).0
    take_answer-Fits (permanent_error e) p w l h = (omega (arith, h.0), h.1)
    take_answer-Fits (other_error e) p w l h = (omega (arith, h.0), h.1)
    take_answer-Fits (answered content calls usage) p w l h =
        let p' : Progress = record p {
          last_call_at = some (out.monotonic w).0;
          usage = add_usage p.usage usage;
        } in
        while_active-Fits p' (record_answer out limits (get_or content "") calls p')
          (out.monotonic w).1 (omega (arith, h.0), h.1)
          (λ v. record_answer-Fits (get_or content "") calls p' v l h)

    module _ (p : Progress) (l : left_over limits p ≤ m)
        (h : IsWithin limits t (record p { turn_count = p.turn_count + 1 })) where
      here : IsWithin limits t p
      here = (omega (arith, h.0), h.1)

      ask-Fits : (w : W) → Fits limits m t (ask out limits p w).0
      ask-Fits w =
          take_answer-Fits (out.complete p.messages w).0 p (out.complete p.messages w).1 l h

      pause_until-Fits : (due : ℕ) (w : W) → Fits limits m t (pause_until out limits due p w).0
      pause_until-Fits due w =
          let now : ℕ = (out.monotonic w).0 in
          let seconds : ℕ = min (due - now) (limits.expires_at - now) in
          if-Fits (leb due now) (ask out limits p (out.monotonic w).1) _ (λ y. ask-Fits _)
            (λ n.
              if-Fits (seconds == 0) (leave done p, (out.monotonic w).1) _ (λ y. here)
                (λ z.
                  while_active-Fits p
                    (unless_expired out limits (finish out limits p) (ask out limits p))
                    (out.sleep seconds (out.monotonic w).1) here
                    (λ v.
                      unless_expired-Fits (finish out limits p) (ask out limits p) v (λ y. here)
                        (ask-Fits _))))

      pace-Fits : (o : Option ℕ) (w : W) → Fits limits m t (pace out limits o p w).0
      pace-Fits none w = ask-Fits w
      pace-Fits (some last) w =
          if-Fits (limits.turn_interval == 0) (ask out limits p w) _ (λ y. ask-Fits w)
            (λ n. pause_until-Fits (last + limits.turn_interval) w)

      pub turn-Fits : (w : W) → Fits limits m t (turn out limits p w).0
      unfolding turn
      turn-Fits w =
          while_active-Fits p
            (unless_expired out limits (finish out limits p) (pace out limits p.last_call_at p)) w
            here
            (λ v.
              unless_expired-Fits (finish out limits p) (pace out limits p.last_call_at p) v
                (λ y. here) (pace-Fits p.last_call_at _))
