-- ===== src/Prelude/Json.antt =====
-- The values of a JSON column, as Python reads them. A dict is the list of its entries.
use Prim.Native.String.{String}
use mathlib.Core.Bool.{Bool, true, false, not}
use mathlib.Core.Option.{Option, none, some}
use text.Mathlib.Text.{◌==◌ as str_eq}
use deaddit.Prelude.Tests.{if◌then◌else◌}
use deaddit.Prelude.Int.{ℤ, pos, eq_ℤ}

mutual
  pub data Json : Type 0 where
    null : Json
    boolean : Bool → Json
    number : ℤ → Json
    string : String → Json
    array : Items → Json
    object : Fields → Json

  pub data Items : Type 0 where
    nil : Items
    cons : Json → Items → Items

  pub data Fields : Type 0 where
    end : Fields
    field : String → Json → Fields → Fields

-- `d.get(key)`, and whether the key is there.
abbrev pub find_field : String → Fields → Option Json
find_field k end = none
find_field k (field j v d) = if str_eq j k then some v else find_field k d

-- `bool(value)`
abbrev pub is_truthy : Json → Bool
is_truthy null = false
is_truthy (boolean b) = b
is_truthy (number n) = not (eq_ℤ n (pos 0))
is_truthy (string s) = not (str_eq s "")
is_truthy (array nil) = false
is_truthy (array (cons v vs)) = true
is_truthy (object end) = false
is_truthy (object (field k v d)) = true
