-- ===== src/Inbox.antt =====
-- deaddit/dynamics/inbox.py: the pages of a user's notifications, marking them read and the purge.
pub mod Unread
pub mod RoundTrip
pub mod Order
pub mod Paging
mod Scenarios
use deaddit.Prelude.{
  ℕ, suc, ◌+◌, ◌-◌, ◌*◌, String, Bool, true, false, not, ◌&&◌, ◌||◌, Option, none, some, List, [],
  ◌∷◌, ◌==◌, ltb, leb, min, max, take, length, any, if◌then◌else◌, is_some, str_eq, select,
  count_where, update_where, delete_where, order_by,
}
use deaddit.Prelude.Int.{ℤ, pos, negsuc}

-- A Notification row, with the columns that the queries read. Moments are in seconds.
pub record Notification : Type 0 where
  pub id : ℕ
  pub recipient : String
  pub created_at : ℕ
  pub read_at : Option ℕ

-- The moment and the key of the last item of a page; RoundTrip has its text.
pub record Cursor : Type 0 where
  pub timestamp : ℕ
  pub id : ℕ

-- `max(1, min(limit, 100))`
abbrev pub clamp_limit : ℤ → ℕ
clamp_limit (negsuc n) = 1
clamp_limit (pos n) = max 1 (min n 100)

-- `ORDER BY created_at DESC, id DESC`
abbrev pub is_newer : Notification → Notification → Bool
is_newer a b = ltb b.created_at a.created_at || (b.created_at == a.created_at && leb b.id a.id)

abbrev pub is_after : Option Cursor → Notification → Bool
is_after none n = true
is_after (some c) n = ltb n.created_at c.timestamp || (n.created_at == c.timestamp && ltb n.id c.id)

abbrev pub is_unread : String → Notification → Bool
is_unread username n = str_eq n.recipient username && not (is_some n.read_at)

unfoldable pub unread_count : String → List Notification → ℕ
unread_count username rows = count_where (is_unread username) rows

abbrev pub is_listed : String → Bool → Option Cursor → Notification → Bool
is_listed username unread_only cursor n =
    str_eq n.recipient username && (is_after cursor n && not (unread_only && is_some n.read_at))

pub record Page : Type 0 where
  pub items : List Notification
  pub unread : ℕ
  pub next_cursor : Option Cursor

-- No writer leaves a notification without its moment, for which the code would take that of the call.
abbrev pub encode_cursor : Notification → Cursor
encode_cursor n = record { timestamp = n.created_at; id = n.id }

-- The cursor of the last of the rows.
abbrev pub last_cursor : List Notification → Option Cursor
last_cursor [] = none
last_cursor (n ∷ []) = some (encode_cursor n)
last_cursor (n ∷ m ∷ rest) = last_cursor (m ∷ rest)

-- One row more than the page is read.
abbrev pub page_of : ℕ → ℕ → List Notification → Page
page_of limit unread rows = record {
  items = take limit rows;
  unread = unread;
  next_cursor = if ltb limit (length rows) then last_cursor (take limit rows) else none;
}

unfoldable pub get_inbox : String → Bool → ℤ → Option Cursor → List Notification → Page
unfolding unread_count
get_inbox username unread_only limit cursor rows =
    page_of (clamp_limit limit) (unread_count username rows) (
      take (clamp_limit limit + 1)
        (order_by is_newer (select (is_listed username unread_only cursor) rows)))

-- The argument `ids`; None is an empty list.
pub data Ids : Type 0 where
  all_ids : Ids
  these : List ℕ → Ids

abbrev pub is_chosen : Ids → Notification → Bool
is_chosen all_ids n = true
is_chosen (these ids) n = any (λ i. i == n.id) ids

abbrev pub is_marked : String → Ids → Notification → Bool
is_marked username ids n = is_unread username n && is_chosen ids n

unfoldable pub mark_inbox_read : String → Ids → ℕ → List Notification → ℕ × List Notification
mark_inbox_read username ids now rows = (
  count_where (is_marked username ids) rows,
  update_where (is_marked username ids) (λ n. record n { read_at = some now }) rows,
)

abbrev pub is_old : ℕ → Option ℕ → Bool
is_old cutoff none = false
is_old cutoff (some t) = ltb t cutoff

unfoldable pub purge_read_notifications : ℕ → ℕ → List Notification → ℕ × List Notification
purge_read_notifications max_age_days now rows = (
  count_where (λ n. is_old (now - max_age_days * 86400) n.read_at) rows,
  delete_where (λ n. is_old (now - max_age_days * 86400) n.read_at) rows,
)
