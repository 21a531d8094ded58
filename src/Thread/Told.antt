-- ===== src/Thread/Told.antt =====
-- Who is told by deaddit/dynamics/notifications.py.
use deaddit.Prelude.{
  ◌≡◌, refl, ℕ, String, Bool, true, false, not, ◌&&◌, ◌||◌, Option, none, some, List, [], ◌∷◌, ◌++◌,
  str_eq, any, All, All-append, eq_refl, ==_self, arith, Bool-cases, inl, inr, if◌then◌else◌,
}
use deaddit.Thread.{Comment}
use deaddit.Thread.Cap.{Config}
use deaddit.Thread.Reply.{Post}
use deaddit.Thread.Notify.{
  Notification, Account, Kind, same_kind, emit, row, mention, reply, is_reply, is_human,
  is_duplicate, emit_reply, emit_mentions, reply_recipient, mentioned_usernames,
  notify_comment_created,
}

-- A notification for somebody else than the one who caused it.
abbrev pub IsForOther : Notification → Type 0
IsForOther n = (str_eq n.recipient n.actor ≡ false) × (str_eq n.recipient "" ≡ false)

emit-IsForOther :
    (accounts : List Account) (n : Notification) (sent : List Notification)
    → All IsForOther sent
    → All IsForOther (emit accounts n sent)
unfolding emit
emit-IsForOther accounts n sent h =
    elim (Bool-cases (str_eq n.recipient "" || str_eq n.recipient n.actor)) [
      | inl y ↦ simp (y) h
      | inr m ↦
          elim (Bool-cases (
            not (is_reply n.kind && is_human accounts n.recipient)
            && any (is_duplicate n.created_at n) sent)) [
              | inl y ↦ simp (m, y) h
              | inr z ↦
                  simp (m, z)
                    (All-append IsForOther sent (n ∷ []) h ((ground arith, ground arith), tt))
            ]
    ]

mentions-IsForOther :
    (accounts : List Account) (make : String → Notification) (names : List String)
    (sent : List Notification)
    → All IsForOther sent
    → All IsForOther (emit_mentions accounts make names sent)
unfolding emit_mentions
mentions-IsForOther accounts make [] sent h = h
mentions-IsForOther accounts make (name ∷ names) sent h =
    mentions-IsForOther accounts make names _ (emit-IsForOther accounts (make name) sent h)

reply-IsForOther :
    (accounts : List Account) (c : Comment) (now : ℕ) (to : Option String)
    (sent : List Notification)
    → All IsForOther sent
    → All IsForOther (emit_reply accounts c now to sent)
reply-IsForOther accounts c now none sent h = h
reply-IsForOther accounts c now (some to) sent h =
    emit-IsForOther accounts (row c now reply to) sent h

-- A new comment never tells its own author: where no notification is for the one who caused it, none is
-- afterwards, for the reply and for the mentions.
pub notify_comment_created-IsForOther :
    (config : Config) (accounts : List Account) (posts : List Post) (comments : List Comment)
    (c : Comment) (now : ℕ) (sent : List Notification)
    → All IsForOther sent
    → All IsForOther (notify_comment_created config accounts posts comments c now sent)
unfolding notify_comment_created
notify_comment_created-IsForOther config accounts posts comments c now sent h =
    mentions-IsForOther accounts (row c now mention) (mentioned_usernames accounts c.content) _ (
      reply-IsForOther accounts c now (reply_recipient config accounts posts comments c c.parent_id)
        sent h)

any-append_self :
    (d : Notification → Bool) (n : Notification) (sent : List Notification)
    → d n ≡ true
    → any d (sent ++ n ∷ []) ≡ true
any-append_self d n [] h = rw (h) refl
any-append_self d n (m ∷ ms) h = ground (arith, any-append_self d n ms h)

add_once : (Notification → Bool) → Notification → List Notification → List Notification
add_once d n sent = if any d sent then sent else sent ++ n ∷ []

add_once-again :
    (d : Notification → Bool) (n : Notification) (sent : List Notification)
    → d n ≡ true
    → add_once d n (add_once d n sent) ≡ add_once d n sent
unfolding add_once
add_once-again d n sent h = elim (Bool-cases (any d sent)) [
  | inl y ↦ simp (y) refl
  | inr m ↦ simp (m, any-append_self d n sent h) refl
]

self_duplicate : (n : Notification) → is_duplicate n.created_at n n ≡ true
self_duplicate n =
    let kinds : same_kind n.kind n.kind ≡ true = same_kind_refl n.kind in
    simp (eq_refl n.recipient, eq_refl n.actor, kinds, ==_self n.post_id) (ground arith)
  where
    same_kind_refl : (k : Kind) → same_kind k k ≡ true
    same_kind_refl reply = refl
    same_kind_refl mention = refl

-- Telling somebody the same thing again at the same moment adds nothing, except for a reply to a human,
-- who is told of each.
pub emit-emit :
    (accounts : List Account) (n : Notification) (sent : List Notification)
    → (is_reply n.kind && is_human accounts n.recipient) ≡ false
    → emit accounts n (emit accounts n sent) ≡ emit accounts n sent
unfolding emit add_once
emit-emit accounts n sent h =
    elim (Bool-cases (str_eq n.recipient "" || str_eq n.recipient n.actor)) [
      | inl y ↦ simp (y) refl
      | inr m ↦ simp (m, h) (add_once-again (is_duplicate n.created_at n) n sent (self_duplicate n))
    ]
