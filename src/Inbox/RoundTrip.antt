-- ===== src/Inbox/RoundTrip.antt =====
-- The text of a cursor in deaddit/dynamics/inbox.py. What the code calls is in `Formats`, over code
-- points: `isoformat` and `fromisoformat` of a moment, the text of a number, and `int` of a text; none
-- is the ValueError.
use deaddit.Prelude.{
  ◌≡◌, refl, ℕ, Bool, false, Option, none, some, List, [], ◌∷◌, ◌++◌, ◌==◌, any, if◌then◌else◌,
  arith, String,
}
use deaddit.Prelude.Int.{ℤ}
use deaddit.Inbox.{Notification, Cursor, Page, get_inbox}

pub record Formats : Type 0 where
  pub isoformat : ℕ → List ℕ
  pub fromisoformat : List ℕ → Option ℕ
  pub str : ℕ → List ℕ
  pub int : List ℕ → Option ℕ

-- What Python documents of them: each reads what the other writes, and a number has no bar in its text.
pub record IsFormats (formats : Formats) : Type 0 where
  pub moment : (t : ℕ) → formats.fromisoformat (formats.isoformat t) ≡ some t
  pub number : (n : ℕ) → formats.int (formats.str n) ≡ some n
  pub digits : (n : ℕ) → any (λ c. c == 124) (formats.str n) ≡ false

-- The code point of the bar.
abbrev pub bar : ℕ
bar = 124

abbrev pub split_here : ℕ → List ℕ → Option (List ℕ × List ℕ) → Option (List ℕ × List ℕ)
split_here c cs (some (a, b)) = some (c ∷ a, b)
split_here c cs none = if c == bar then some ([], cs) else none

-- `rsplit("|", 1)`: none where there is no bar.
unfoldable pub rsplit : List ℕ → Option (List ℕ × List ℕ)
rsplit [] = none
rsplit (c ∷ cs) = split_here c cs (rsplit cs)

module _ (formats : Formats) where
  unfoldable pub cursor_text : Cursor → List ℕ
  cursor_text c = formats.isoformat c.timestamp ++ bar ∷ formats.str c.id

  abbrev pub both : Option ℕ → Option ℕ → Option Cursor
  both (some t) (some k) = some (record { timestamp = t; id = k })
  both _ _ = none

  abbrev pub parts : Option (List ℕ × List ℕ) → Option Cursor
  parts none = none
  parts (some (a, b)) = both (formats.fromisoformat a) (formats.int b)

  unfoldable pub decode_cursor : List ℕ → Option Cursor
  unfolding rsplit
  decode_cursor text = parts (rsplit text)

  abbrev pub page_at : String → Bool → ℤ → Option Cursor → List Notification → Option Page
  page_at username unread_only limit none rows = none
  page_at username unread_only limit (some c) rows =
      some (get_inbox username unread_only limit (some c) rows)

  -- The page of a request with the text of a cursor; none is the ValueError.
  unfoldable pub get_inbox_at : String → Bool → ℤ → List ℕ → List Notification → Option Page
  unfolding decode_cursor
  get_inbox_at username unread_only limit text rows =
      page_at username unread_only limit (decode_cursor text) rows

no_bar : (cs : List ℕ) → any (λ c. c == bar) cs ≡ false → rsplit cs ≡ none
unfolding rsplit
no_bar [] h = refl
no_bar (c ∷ cs) h =
    let rest = no_bar cs (ground arith) in
    let off : (c == bar) ≡ false = ground arith in rw (rest, off) refl

rsplit_last : (a b : List ℕ) → any (λ c. c == bar) b ≡ false → rsplit (a ++ bar ∷ b) ≡ some (a, b)
unfolding rsplit
rsplit_last [] b h = (let rest = no_bar b h in rw (rest) refl)
rsplit_last (c ∷ cs) b h = (let rest = rsplit_last cs b h in rw (rest) refl)

module _ (formats : Formats) (laws : IsFormats formats) where
  -- The text that a page gives as its next cursor is decoded to the cursor that it stands for,
  -- whatever bars the text of the moment has, so that a request with it yields the page after it. The
  -- formats read what they write, and the text of a number has no bar.
  pub decode_cursor-cursor_text :
      (c : Cursor) (username : String) (unread_only : Bool) (limit : ℤ) (rows : List Notification)
      → (decode_cursor formats (cursor_text formats c) ≡ some c)
        × (get_inbox_at formats username unread_only limit (cursor_text formats c) rows
            ≡ some (get_inbox username unread_only limit (some c) rows))
  unfolding decode_cursor cursor_text get_inbox_at
  decode_cursor-cursor_text c username unread_only limit rows =
      let split =
        rsplit_last (formats.isoformat c.timestamp) (formats.str c.id) (laws.digits c.id) in
      let t = laws.moment c.timestamp in
      let k = laws.number c.id in (rw (split, t, k) refl, rw (split, t, k) refl)
