-- ===== src/Inbox/Scenarios.antt =====
-- Cyd's inbox with one read and two unread notifications.
use deaddit.Prelude.{
  ℕ, Option, ap, ◌-◌, ◌≡◌, ◌≤◌, ◌+◌, refl, arith, true, none, some, List, [], ◌∷◌, ◌++◌, order_by,
  select, length, count_where,
}
use deaddit.Prelude.Int.{pos}
use deaddit.Inbox.{
  Cursor, is_newer, Notification, these, is_listed, unread_count, get_inbox, mark_inbox_read,
}
use deaddit.Inbox.Order.{HasKeys}
use deaddit.Inbox.RoundTrip.{
  Formats, IsFormats, bar, cursor_text, decode_cursor, get_inbox_at, decode_cursor-cursor_text,
}
use deaddit.Inbox.Paging.{get_inbox-next}
use deaddit.Inbox.Unread.{mark_inbox_read-unread_count, get_inbox_complete}

abbrev rows : List Notification
rows =
    record { id = 1; recipient = "cyd"; created_at = 100; read_at = some 150 }
    ∷ record { id = 2; recipient = "cyd"; created_at = 200; read_at = none }
    ∷ record { id = 3; recipient = "cyd"; created_at = 200; read_at = none }
    ∷ []

abbrev after_third : Cursor
after_third = record { timestamp = 200; id = 3 }

rows-HasKeys : HasKeys rows
rows-HasKeys = ((refl, (refl, tt)), ((refl, tt), (tt, tt)))

page_test :
    (get_inbox "cyd" true (pos 1) none rows).items
    ≡ record { id = 3; recipient = "cyd"; created_at = 200; read_at = none } ∷ []
unfolding get_inbox
page_test = refl

mark_inbox_read-unread_count_example :
    unread_count "cyd" (mark_inbox_read "cyd" (these (3 ∷ [])) 300 rows).1
      + (mark_inbox_read "cyd" (these (3 ∷ [])) 300 rows).0
    ≡ unread_count "cyd" rows
mark_inbox_read-unread_count_example = mark_inbox_read-unread_count "cyd" (these (3 ∷ [])) 300 rows

get_inbox_complete_example :
    (length (get_inbox "cyd" true (pos 25) none rows).items
      ≡ count_where (is_listed "cyd" true none) rows)
    × (length (get_inbox "cyd" true (pos 25) none rows).items ≤ 100)
unfolding get_inbox
get_inbox_complete_example = get_inbox_complete "cyd" true (pos 25) none rows refl

get_inbox-next_example :
    (get_inbox "cyd" true (pos 1) none rows).items
      ++ order_by is_newer (select (is_listed "cyd" true (some after_third)) rows)
    ≡ order_by is_newer (select (is_listed "cyd" true none) rows)
unfolding get_inbox
get_inbox-next_example = get_inbox-next "cyd" true (pos 1) none after_third rows rows-HasKeys refl

-- Formats with a bar in the text of a moment, and one code point for a number.
abbrev read_moment : List ℕ → Option ℕ
read_moment (b ∷ t ∷ []) = some t
read_moment _ = none

abbrev read_number : List ℕ → Option ℕ
read_number (c ∷ []) = some (c - 200)
read_number _ = none

abbrev formats : Formats
formats = record {
  isoformat = λ t. bar ∷ t ∷ [];
  fromisoformat = read_moment;
  str = λ n. (n + 200) ∷ [];
  int = read_number;
}

formats-IsFormats : IsFormats formats
formats-IsFormats = record {
  moment = λ t. refl;
  number = λ n. ap some (omega arith);
  digits = λ n. ground arith;
}

decode_cursor-cursor_text_example :
    (decode_cursor formats (cursor_text formats after_third) ≡ some after_third)
    × (get_inbox_at formats "cyd" true (pos 1) (cursor_text formats after_third) rows
        ≡ some (get_inbox "cyd" true (pos 1) (some after_third) rows))
decode_cursor-cursor_text_example =
    decode_cursor-cursor_text formats formats-IsFormats after_third "cyd" true (pos 1) rows
