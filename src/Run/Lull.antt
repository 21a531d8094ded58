-- ===== src/Run/Lull.antt =====
-- deaddit/runtime/lull.py. `F` stands for the floating-point numbers. What the program calls is in
-- `Numbers`: `int` and `float` of a text, where none is the exception, `> 1.0`, and the product.
use deaddit.Prelude.{
  ℕ, String, Bool, not, ◌&&◌, ◌||◌, Option, none, some, ◌==◌, ltb, leb, if◌then◌else◌,
}
use deaddit.Prelude.Int.{ℤ, pos}
use deaddit.Prelude.Text.{codes, codes_eq, strip, lower}

pub record Numbers (F : Type 0) : Type 0 where
  pub int : String → Option ℤ
  pub float : String → Option F
  pub exceeds_one : F → Bool
  pub default_multiplier : F
  pub scale : F → ℕ → ℕ

-- The texts of the four settings, each with its default where it is absent.
pub record Settings : Type 0 where
  pub enabled : String
  pub start_hour : String
  pub end_hour : String
  pub delay_multiplier : String

unfoldable pub is_true_text : String → Bool
unfolding strip lower
is_true_text t = codes_eq (lower (strip (codes t))) (codes "true")

abbrev pub both : Option ℤ → Option ℤ → ℤ × ℤ
both (some a) (some b) = (a, b)
both _ _ = (pos 1, pos 7)

-- The hours of a window, where both are hours and they are different.
abbrev pub window_of : ℤ × ℤ → Option (ℕ × ℕ)
window_of (pos a, pos b) = if (leb a 23 && leb b 23) && not (a == b) then some (a, b) else none
window_of _ = none

-- The window may wrap midnight.
unfoldable pub in_lull : ℕ → ℕ → ℕ → Bool
in_lull start end_hour hour =
    if ltb start end_hour
    then leb start hour && ltb hour end_hour
    else leb start hour || ltb hour end_hour

abbrev pub multiplier_of : {F : Type 0} → Option F → F → F
multiplier_of none d = d
multiplier_of (some f) d = f

module _ {F : Type 0} (numbers : Numbers F) where
  -- None is the multiplier 1.0.
  abbrev pub in_window : F → Option (ℕ × ℕ) → ℕ → Option F
  in_window f none hour = none
  in_window f (some (a, b)) hour =
      if numbers.exceeds_one f && in_lull a b hour then some f else none

  unfoldable pub night_lull_multiplier : Settings → ℕ → Option F
  unfolding is_true_text
  night_lull_multiplier settings hour =
      let window =
        window_of (both (numbers.int settings.start_hour) (numbers.int settings.end_hour)) in
      if is_true_text settings.enabled
      then in_window
          (multiplier_of (numbers.float settings.delay_multiplier) numbers.default_multiplier)
          window hour
      else none

  abbrev pub scaled_by : ℕ → Option F → ℕ
  scaled_by seconds none = seconds
  scaled_by seconds (some f) = numbers.scale f seconds

  unfoldable pub scaled_wake_delay : Settings → ℕ → ℕ → ℕ
  unfolding night_lull_multiplier
  scaled_wake_delay settings seconds hour = scaled_by seconds (night_lull_multiplier settings hour)
