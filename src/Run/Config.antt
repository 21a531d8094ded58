-- ===== src/Run/Config.antt =====
-- The whole-number settings of an agent's configuration, in deaddit/agents/loop.py and in
-- deaddit/runtime/wakes.py.
use deaddit.Prelude.{ℕ, String, Option, none, some, if◌then◌else◌}
use deaddit.Prelude.Int.{ℤ, pos, negsuc}
use deaddit.Prelude.Json.{Json, boolean, number, string, object, find_field}

-- `int(value)` of a JSON value: `int` is that of a text, and none is the TypeError or ValueError.
abbrev pub int_of : (String → Option ℤ) → Json → Option ℤ
int_of int (number n) = some n
int_of int (boolean b) = some (if b then pos 1 else pos 0)
int_of int (string s) = int s
int_of int _ = none

abbrev pub entry : String → Json → Option Json
entry key (object config) = find_field key config
entry key _ = none

abbrev pub or_default : Option ℤ → ℤ → ℤ
or_default none fallback = fallback
or_default (some n) fallback = n

abbrev pub int_entry : (String → Option ℤ) → Option Json → ℤ → ℤ
int_entry int none fallback = fallback
int_entry int (some v) fallback = or_default (int_of int v) fallback

-- `_int_config`, and `_int_budget` over `_effective_config`.
unfoldable pub int_config : (String → Option ℤ) → Json → String → ℤ → ℤ
int_config int config key fallback = int_entry int (entry key config) fallback

-- `max(n, 0)`
abbrev pub at_least_zero : ℤ → ℕ
at_least_zero (pos n) = n
at_least_zero (negsuc n) = 0
