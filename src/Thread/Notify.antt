-- ===== src/Thread/Notify.antt =====
-- deaddit/dynamics/notifications.py. A row that cannot be written (the exception that is logged) is
-- not modelled.
use deaddit.Prelude.{
  ℕ, ◌+◌, String, Bool, true, false, not, ◌&&◌, ◌||◌, Option, none, some, List, [], ◌∷◌, ◌++◌, ◌==◌,
  ltb, leb, if◌then◌else◌, first_where, any, str_eq, is_some, take,
}
use deaddit.Prelude.Text.{codes, codes_eq, in_range}
use deaddit.Thread.{Comment}
use deaddit.Thread.Chain.{exchange_tail_for_reply}
use deaddit.Thread.Cap.{Config, exchange_cap}
use deaddit.Thread.Reply.{Post}

pub data Kind : Type 0 where
  reply mention : Kind

abbrev pub same_kind : Kind → Kind → Bool
same_kind reply reply = true
same_kind mention mention = true
same_kind _ _ = false

pub record Notification : Type 0 where
  pub recipient : String
  pub kind : Kind
  pub actor : String
  pub post_id : ℕ
  pub comment_id : Option ℕ
  pub snippet : List ℕ
  pub created_at : ℕ

-- A User row: a human has a password.
pub record Account : Type 0 where
  pub username : String
  pub password_hash : Option String

unfoldable pub is_human : List Account → String → Bool
is_human accounts username =
    not (str_eq username "")
    && has_password (first_where (λ a. str_eq a.username username) accounts)
  where
    has_password : Option Account → Bool
    has_password none = false
    has_password (some a) = is_some a.password_hash

abbrev pub dedupe_window : ℕ
dedupe_window = 3600

-- `created_at > now - window`
abbrev pub is_duplicate : ℕ → Notification → Notification → Bool
is_duplicate now n old =
    str_eq old.recipient n.recipient
    && (same_kind old.kind n.kind
        && (old.post_id == n.post_id
            && (str_eq old.actor n.actor && ltb now (old.created_at + dedupe_window))))

abbrev pub is_reply : Kind → Bool
is_reply reply = true
is_reply mention = false

-- `now` is the moment of the call, which the row carries.
unfoldable pub emit : List Account → Notification → List Notification → List Notification
unfolding is_human
emit accounts n sent =
    if str_eq n.recipient "" || str_eq n.recipient n.actor
    then sent
    else if not (is_reply n.kind && is_human accounts n.recipient)
        && any (is_duplicate n.created_at n) sent
    then sent
    else sent ++ n ∷ []

abbrev is_token_char : ℕ → Bool
is_token_char c =
    in_range b'A' b'Z' c
    || (in_range b'a' b'z' c || (in_range b'0' b'9' c || (c == b'_' || c == b'-')))

-- The texts after an `@`, each as long as it goes; an empty one is none. `none` is outside of one.
abbrev close : List ℕ → List (List ℕ) → List (List ℕ)
close [] rest = rest
close (c ∷ cs) rest = (c ∷ cs) ∷ rest

unfoldable pub find_tokens : Option (List ℕ) → List ℕ → List (List ℕ)
find_tokens none [] = []
find_tokens (some token) [] = close token []
find_tokens none (c ∷ cs) =
    let opened = find_tokens (some []) cs in
    let outside = find_tokens none cs in if c == b'@' then opened else outside
find_tokens (some token) (c ∷ cs) =
    let longer = find_tokens (some (token ++ c ∷ [])) cs in
    let opened = find_tokens (some []) cs in
    let outside = find_tokens none cs in
    if is_token_char c then longer else close token (if c == b'@' then opened else outside)

-- The usernames among the tokens, each once: `seen` are those that were taken.
abbrev take_name : (List String → List String) → List String → Option Account → List String
take_name others seen none = others seen
take_name others seen (some a) =
    if any (λ s. str_eq s a.username) seen
    then others seen
    else a.username ∷ others (a.username ∷ seen)

unfoldable pub known_once : List Account → List String → List (List ℕ) → List String
known_once accounts seen [] = []
known_once accounts seen (token ∷ rest) =
    take_name (λ names. known_once accounts names rest) seen
      (first_where (λ a. codes_eq (codes a.username) token) accounts)

unfoldable pub mentioned_usernames : List Account → String → List String
unfolding known_once find_tokens
mentioned_usernames accounts content = known_once accounts [] (find_tokens none (codes content))

-- A reply after which the exchange of the two is over.
unfoldable pub ends_exchange : Config → List Comment → Comment → ℕ → String → Bool
unfolding exchange_tail_for_reply exchange_cap
ends_exchange config comments c parent_id recipient =
    leb (exchange_cap config c.post_id recipient c.user)
      (exchange_tail_for_reply comments (some parent_id) c.user)

-- Whom a comment is a reply to, and who is to be told.
unfoldable pub reply_recipient :
    Config → List Account → List Post → List Comment → Comment → Option ℕ → Option String
unfolding ends_exchange is_human
reply_recipient config accounts posts comments c (some p) =
    told (first_where (λ d. d.id == p) comments)
  where
    told : Option Comment → Option String
    told none = none
    told (some parent) =
        if not (str_eq parent.user c.user)
          && (not (is_human accounts parent.user) && ends_exchange config comments c p parent.user)
        then none
        else some parent.user
reply_recipient config accounts posts comments c none =
    author (first_where (λ p. p.id == c.post_id) posts)
  where
    author : Option Post → Option String
    author none = none
    author (some post) = some post.user

abbrev pub row : Comment → ℕ → Kind → String → Notification
row c now kind recipient = record {
  recipient = recipient;
  kind = kind;
  actor = c.user;
  post_id = c.post_id;
  comment_id = some c.id;
  snippet = take 200 (codes c.content);
  created_at = now;
}

abbrev pub emit_reply :
    List Account → Comment → ℕ → Option String → List Notification → List Notification
emit_reply accounts c now none sent = sent
emit_reply accounts c now (some recipient) sent = emit accounts (row c now reply recipient) sent

unfoldable pub emit_mentions :
    List Account → (String → Notification) → List String → List Notification → List Notification
unfolding emit
emit_mentions accounts make [] sent = sent
emit_mentions accounts make (name ∷ names) sent =
    emit_mentions accounts make names (emit accounts (make name) sent)

-- `comments` has the new comment among its rows.
unfoldable pub notify_comment_created :
    Config
    → List Account
    → List Post
    → List Comment
    → Comment
    → ℕ
    → List Notification
    → List Notification
unfolding reply_recipient mentioned_usernames emit_mentions emit
notify_comment_created config accounts posts comments c now sent =
    emit_mentions accounts (row c now mention) (mentioned_usernames accounts c.content) (
      emit_reply accounts c now (reply_recipient config accounts posts comments c c.parent_id) sent)

abbrev pub post_row : Post → ℕ → String → String → Notification
post_row p now content recipient = record {
  recipient = recipient;
  kind = mention;
  actor = p.user;
  post_id = p.id;
  comment_id = none;
  snippet = take 200 (codes content);
  created_at = now;
}

-- `content` is the text of the post, which the row of this model does not have.
unfoldable pub notify_post_created :
    List Account → Post → String → ℕ → List Notification → List Notification
unfolding mentioned_usernames emit_mentions
notify_post_created accounts p content now sent =
    emit_mentions accounts (post_row p now content) (mentioned_usernames accounts content) sent
