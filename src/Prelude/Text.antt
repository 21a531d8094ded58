-- ===== src/Prelude/Text.antt =====
-- Python's `str` methods that the program calls, over the code points of a text.
-- `strip` drops every code point that `str.isspace` accepts. `lower` keeps the letters outside ASCII
-- as they are, but for the two that are lowered to something with an ASCII letter: the program
-- compares what it lowers with ASCII words, or keeps its ASCII letters and digits alone.
use Prim.Native.Nat.{ℕ, ◌+◌}
use Prim.Native.Char.{code}
use Prim.Native.String.{String}
use mathlib.Core.Bool.{Bool, true, false, ◌&&◌, ◌||◌}
use mathlib.Core.List.{List, [], ◌∷◌, ◌++◌}
use deaddit.Prelude.Tests.{leb, ◌==◌, if◌then◌else◌}
use deaddit.Prelude.Lists.{any}

-- The code points of a text.
abbrev pub codes : String → List ℕ
codes String.[] = []
codes (String.◌∷◌ c s) = code c ∷ codes s

abbrev pub in_range : ℕ → ℕ → ℕ → Bool
in_range lo hi c = leb lo c && leb c hi

abbrev pub is_space : ℕ → Bool
is_space c =
    in_range 9 13 c
    || in_range 28 32 c
    || c == 0x85
    || c == 0xa0
    || c == 0x1680
    || in_range 0x2000 0x200a c
    || in_range 0x2028 0x2029 c
    || c == 0x202f
    || c == 0x205f
    || c == 0x3000

abbrev pub lstrip : List ℕ → List ℕ
lstrip [] = []
lstrip (c ∷ cs) = let rest = lstrip cs in if is_space c then rest else c ∷ cs

-- A space stays only before something that stays.
abbrev pub keep_inner : ℕ → List ℕ → List ℕ
keep_inner c [] = if is_space c then [] else c ∷ []
keep_inner c (d ∷ ds) = c ∷ d ∷ ds

abbrev pub rstrip : List ℕ → List ℕ
rstrip [] = []
rstrip (c ∷ cs) = keep_inner c (rstrip cs)

unfoldable pub strip : List ℕ → List ℕ
strip cs = rstrip (lstrip cs)

-- Of the code points outside ASCII only the Kelvin sign and the dotted capital I are lowered to
-- something with an ASCII letter in it.
abbrev pub lower_code : ℕ → List ℕ
lower_code c =
    if in_range b'A' b'Z' c
    then (c + 32) ∷ []
    else if c == 0x212a
    then b'k' ∷ []
    else if c == 0x130
    then b'i' ∷ 0x307 ∷ []
    else c ∷ []

unfoldable pub lower : List ℕ → List ℕ
lower [] = []
lower (c ∷ cs) = lower_code c ++ lower cs

abbrev pub codes_eq : List ℕ → List ℕ → Bool
codes_eq [] [] = true
codes_eq (a ∷ as') (b ∷ bs) = (a == b) && codes_eq as' bs
codes_eq _ _ = false

-- `text in {…}`
unfoldable pub is_word : List String → List ℕ → Bool
is_word words cs = any (λ w. codes_eq (codes w) cs) words
