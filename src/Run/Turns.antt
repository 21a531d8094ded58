-- ===== src/Run/Turns.antt =====
-- All the turns of a visit in deaddit/agents/loop.py.
use deaddit.Prelude.{ℕ, zero, suc, ◌+◌, ◌≤◌, ◌<◌, Option, none, some, List, arith}
use deaddit.Run.Loop.{
  Message, Outside, Limits, Progress, Exit, Step, again, leave, turn, turns, next_turn, start,
  visit,
}
use deaddit.Run.Budget.{IsWithin, IsMonotonic, left_over, Fits, turn-Fits}

-- How a loop ends: it did not run out of fuel, and it is within its bounds.
abbrev pub IsBounded : Limits → ℕ → Option (Exit × Progress) → Type 0
IsBounded limits t none = ⊥
IsBounded limits t (some (e, p)) = IsWithin limits t p

module _ {W : Type 0} (out : Outside W) (limits : Limits) (monotonic : IsMonotonic out) where
  next_turn-IsBounded :
      (n t b : ℕ) (s : Step × W) (m : ℕ)
      → m ≤ n
      → t ≤ b
      → Fits limits m t s.0
      → ((p : Progress) (w : W)
          → left_over limits p < n
          → IsWithin limits t p
          → IsBounded limits b (turns out limits n p w).0)
      → IsBounded limits b (next_turn (turns out limits n) s).0
  next_turn-IsBounded n t b (again p, w) m h k f rest = rest p w (omega (arith, f.0)) f.1
  next_turn-IsBounded n t b (leave e p, w) m h k f rest = (omega (arith, f.0), f.1)

  turns-IsBounded :
      (n t b : ℕ) (p : Progress) (w : W)
      → t + n ≤ b
      → left_over limits p < n
      → IsWithin limits t p
      → IsBounded limits b (turns out limits n p w).0
  unfolding turns
  turns-IsBounded zero t b p w k l h = absurd (omega (arith, l))
  turns-IsBounded (suc n) t b p w k l h =
      next_turn-IsBounded n (t + 1) b (turn out limits p w) (left_over limits p) (omega (arith, l))
        (omega arith)
        (turn-Fits out limits (left_over limits p) (t + 1) monotonic p (omega arith)
          (omega (arith, h.0), h.1) w)
        (λ q v l' h'. turns-IsBounded n (t + 1) b q v (omega arith) l' h')

  -- Where the clock does not go back, the loop ends on its own within two turns more than the
  -- actions of its budget, whatever the model answers and the tools do; it has used no more
  -- actions than the budget, and no more turns than that.
  pub visit-IsBounded :
      (messages : List Message) (w : W)
      → IsBounded limits (limits.max_actions + 2) (visit out limits messages w).0
  unfolding visit
  visit-IsBounded messages w =
      turns-IsBounded (limits.max_actions + 2) 0 (limits.max_actions + 2) (start messages) w
        (omega arith) (omega arith) (omega arith, omega arith)
