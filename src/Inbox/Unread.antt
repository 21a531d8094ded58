-- ===== src/Inbox/Unread.antt =====
-- What the operations of deaddit/dynamics/inbox.py do to the unread counts.
use deaddit.Prelude.{
  ◌≡◌, refl, ◌∙◌, ap, subst, ltb, ltb→lt, min, zero, Option-cases, ℕ, suc, ◌+◌, ◌-◌, ◌*◌, ◌≤◌,
  String, Bool, Option, none, some, List, [], ◌∷◌, arith, length, take, select, order_by, insert_by,
  Bool-cases, inl, inr, count_where, update_where, delete_where, if◌then◌else◌,
}
use deaddit.Prelude.Int.{ℤ, pos, negsuc}
use deaddit.Inbox.{
  Notification, Cursor, Ids, clamp_limit, is_newer, is_unread, is_listed, is_marked, unread_count,
  get_inbox, page_of, last_cursor, mark_inbox_read, is_old, purge_read_notifications,
}

marked-sum :
    (username : String) (ids : Ids) (now : ℕ) (rows : List Notification)
    → count_where
          (is_unread username)
          (update_where (is_marked username ids) (λ n. record n { read_at = some now }) rows)
        + count_where (is_marked username ids) rows
      ≡ count_where (is_unread username) rows
marked-sum username ids now [] = refl
marked-sum username ids now (n ∷ rows) = ground (arith, marked-sum username ids now rows)

-- Marking lowers the user's unread count by exactly the number that it returns, whichever rows are
-- chosen.
pub mark_inbox_read-unread_count :
    (username : String) (ids : Ids) (now : ℕ) (rows : List Notification)
    → unread_count username (mark_inbox_read username ids now rows).1
        + (mark_inbox_read username ids now rows).0
      ≡ unread_count username rows
unfolding unread_count mark_inbox_read
mark_inbox_read-unread_count username ids now rows = marked-sum username ids now rows

purged_none :
    (username : String) (cutoff : ℕ) (rows : List Notification)
    → count_where (is_unread username) (delete_where (λ n. is_old cutoff n.read_at) rows)
      ≡ count_where (is_unread username) rows
purged_none username cutoff [] = refl
purged_none username cutoff (n ∷ rows) = elim (Option-cases n.read_at) [
  | inl e ↦ simp (e) (ground (arith, purged_none username cutoff rows))
  | inr (t, e) ↦ simp (e) (ground (arith, purged_none username cutoff rows))
]

-- The purge deletes no unread row: every user's unread count stays as it is.
purge-unread_count :
    (username : String) (max_age_days now : ℕ) (rows : List Notification)
    → unread_count username (purge_read_notifications max_age_days now rows).1
      ≡ unread_count username rows
unfolding unread_count purge_read_notifications
purge-unread_count username max_age_days now rows =
    purged_none username (now - max_age_days * 86400) rows

length-take_le : (n : ℕ) (xs : List Notification) → length xs ≤ n → take n xs ≡ xs
length-take_le zero [] h = refl
length-take_le zero (x ∷ xs) h = absurd (omega (arith, h))
length-take_le (suc n) [] h = refl
length-take_le (suc n) (x ∷ xs) h = ap (λ r. x ∷ r) (length-take_le n xs (omega (arith, h)))

length-take : (n : ℕ) (xs : List Notification) → length (take n xs) ≡ min n (length xs)
length-take zero xs = omega arith
length-take (suc n) [] = omega arith
length-take (suc n) (x ∷ xs) = omega (arith, length-take n xs)

length-insert_by :
    (before : Notification → Notification → Bool) (x : Notification) (xs : List Notification)
    → length (insert_by before x xs) ≡ suc (length xs)
length-insert_by before x [] = refl
length-insert_by before x (y ∷ ys) = ground (arith, length-insert_by before x ys)

length-order_by :
    (before : Notification → Notification → Bool) (p : Notification → Bool) (xs : List Notification)
    → length (order_by before (select p xs)) ≡ count_where p xs
length-order_by before p [] = refl
length-order_by before p (x ∷ xs) = elim (Bool-cases (p x)) [
  | inl y ↦ rw (y) (
      omega (
        arith,
        length-insert_by before x (order_by before (select p xs)),
        length-order_by before p xs,
      ))
  | inr n ↦ rw (n) (length-order_by before p xs)
]

last_cursor-none : (xs : List Notification) → last_cursor xs ≡ none → length xs ≡ 0
last_cursor-none [] h = refl
last_cursor-none (x ∷ []) h = cc
last_cursor-none (x ∷ y ∷ rest) h = absurd (no (last_cursor-none (y ∷ rest) h))
  where
    no : length (y ∷ rest) ≡ 0 → ⊥
    no e = omega (arith, e)

clamp_limit-bounds : (limit : ℤ) → (1 ≤ clamp_limit limit) × (clamp_limit limit ≤ 100)
clamp_limit-bounds (negsuc n) = (omega arith, omega arith)
clamp_limit-bounds (pos n) = (omega arith, omega arith)

page_complete :
    (n m : ℕ) (xs : List Notification)
    → 1 ≤ n
    → (page_of n m (take (n + 1) xs)).next_cursor ≡ none
    → length (page_of n m (take (n + 1) xs)).items ≡ length xs
page_complete n m xs h e =
    let outer = length-take (n + 1) xs in
    let inner = length-take n (take (n + 1) xs) in
    elim (Bool-cases (ltb n (length (take (n + 1) xs)))) [
      | inl y ↦
          (let empty = last_cursor-none (take n (take (n + 1) xs)) (
              subst (λ b. (if b then last_cursor (take n (take (n + 1) xs)) else none) ≡ none) y
                e) in
            let more = ltb→lt n (length (take (n + 1) xs)) y in
            absurd (omega (arith, empty, inner, more, h)))
      | inr z ↦ ground (arith, outer, inner, z)
    ]

page-bounded : (n m : ℕ) (xs : List Notification) → length (page_of n m xs).items ≤ n
page-bounded n m xs = omega (arith, length-take n xs)

-- A page without a next cursor holds all that is left: as many items as there are rows of the user that
-- the request lists after its cursor, and these are at most 100.
pub get_inbox_complete :
    (username : String) (unread_only : Bool) (limit : ℤ) (cursor : Option Cursor)
    (rows : List Notification)
    → (get_inbox username unread_only limit cursor rows).next_cursor ≡ none
    → (length (get_inbox username unread_only limit cursor rows).items
        ≡ count_where (is_listed username unread_only cursor) rows)
      × (length (get_inbox username unread_only limit cursor rows).items ≤ 100)
unfolding get_inbox
get_inbox_complete username unread_only limit cursor rows e =
    let n = clamp_limit limit in
    let listed = order_by is_newer (select (is_listed username unread_only cursor) rows) in
    let range = clamp_limit-bounds limit in
    let whole = page_complete n (unread_count username rows) listed range.0 e in
    let few = page-bounded n (unread_count username rows) (take (n + 1) listed) in
    (
      whole ∙ length-order_by is_newer (is_listed username unread_only cursor) rows,
      omega (arith, few, range.1),
    )
