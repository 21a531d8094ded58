-- ===== src/Vote/Cast.antt =====
-- `cast_vote` of deaddit/dynamics/votes.py with its helpers.
use deaddit.Prelude.{
  ℕ, ◌+◌, String, Bool, true, false, not, ◌&&◌, ◌||◌, Option, none, some, List, [], ◌∷◌, ◌++◌, ◌==◌,
  if◌then◌else◌, is_some, text_eq, str_eq, select, count_where, first_where, update_where,
  delete_where,
}
use deaddit.Prelude.Int.{ℤ, pos, negsuc, ◌+ℤ◌, ◌-ℤ◌, eq_ℤ}
use deaddit.Prelude.Text.{codes, strip, lower, is_word}
use deaddit.Vote.{Item, User, Vote, Store, Target, post, comment, other, is_on}

-- The arguments of a call.
pub record Request : Type 0 where
  pub voter : Option String
  pub visitor_hash : Option String
  pub target : Target
  pub target_id : ℕ
  pub value : ℤ
  pub source : String
  pub allow_recast : Bool

-- The reasons of the rejections, in the order of the code.
pub data Reason : Type 0 where
  does_not_exist : Target → ℕ → Reason
  bad_value : Reason
  unknown_user : Option String → Reason
  own_item : Target → Reason
  downvotes_disabled : Reason

pub data ChangeKind : Type 0 where
  same_value_noop remove insert insert_only_collision direction_switch : ChangeKind

pub data Response : Type 0 where
  rejected : Reason → ℤ → Response
  success : ℤ → Bool → ChangeKind → Response

-- How a call ends: it returns, or raises the exception named.
pub data Outcome : Type 0 where
  returned : Response → Outcome
  multiple_results : Outcome
  integrity_error : Outcome

-- What the database answers to the commit of an attempt. On a conflict the transaction is rolled
-- back, and the next attempt reads the given rows, among them those of the transaction that won.
pub data Commit : Type 0 where
  committed : Commit
  conflict : Store → Commit

abbrev truthy_words : List String
truthy_words = "true" ∷ "1" ∷ "on" ∷ "yes" ∷ []

-- `Setting.get_value("allow_downvotes", "true") or ""`
setting_text : Option (Option String) → String
setting_text none = "true"
setting_text (some none) = ""
setting_text (some (some t)) = t

unfoldable pub downvotes_allowed : Store → Bool
unfolding setting_text
downvotes_allowed s = is_word truthy_words (lower (strip (codes (setting_text s.allow_downvotes))))

abbrev pub rows_of : Target → Store → List Item
rows_of post s = s.posts
rows_of comment s = s.comments
rows_of (other t) s = []

-- `db.session.get(User, voter)`; a NULL key finds no row.
unfoldable pub user_exists : Option String → List User → Bool
user_exists none users = false
user_exists (some name) users = is_some (first_where (λ u. str_eq u.username name) users)

-- The filter of `_find_vote`: by the visitor's hash where that is not empty, else by the voter, and
-- `filter_by(voter=None)` keeps the rows without a voter.
abbrev pub by_voter : Option String → Vote → Bool
by_voter none v = not (is_some v.voter)
by_voter (some name) v = text_eq v.voter name

abbrev pub by_identity : Option String → Option String → Vote → Bool
by_identity voter none v = by_voter voter v
by_identity voter (some hash) v =
    if str_eq hash "" then by_voter voter v else text_eq v.visitor_hash hash

abbrev pub is_own_vote : Request → Vote → Bool
is_own_vote r v = by_identity r.voter r.visitor_hash v && is_on r.target r.target_id v

pub data Found : Type 0 where
  no_vote : Found
  one_vote : Vote → Found
  many_votes : Found

-- `one_or_none()`
unfoldable pub one_or_none : List Vote → Found
one_or_none [] = no_vote
one_or_none (v ∷ []) = one_vote v
one_or_none (v ∷ w ∷ rest) = many_votes

unfoldable pub find_vote : Request → Store → Found
unfolding one_or_none
find_vote r s = one_or_none (select (is_own_vote r) s.votes)

-- What an attempt does to the Vote table.
pub data Write : Type 0 where
  keep : Write
  delete : ℕ → Write
  add : Vote → Write
  set_value : ℕ → ℤ → Write

pub record Change : Type 0 where
  pub delta : ℤ
  pub count_delta : ℤ
  pub changed : Bool
  pub change_kind : ChangeKind
  pub write : Write

abbrev pub unchanged : ChangeKind → Change
unchanged k = record {
  delta = pos 0;
  count_delta = pos 0;
  changed = false;
  change_kind = k;
  write = keep;
}

abbrev pub post_key : Target → ℕ → Option ℕ
post_key post i = some i
post_key _ i = none

abbrev pub comment_key : Target → ℕ → Option ℕ
comment_key post i = none
comment_key _ i = some i

abbrev pub new_vote : Request → ℕ → Vote
new_vote r id = record {
  id = id;
  voter = r.voter;
  visitor_hash = r.visitor_hash;
  post_id = post_key r.target r.target_id;
  comment_id = comment_key r.target r.target_id;
  value = r.value;
  source = r.source;
}

-- The branches on `value` and on the vote that was found; `id` is the key of a new row.
unfoldable pub change_of_vote : Request → Vote → Change
change_of_vote r v =
    if eq_ℤ r.value (pos 0)
    then if r.allow_recast
      then record {
        delta = pos 0 -ℤ v.value;
        count_delta = negsuc 0;
        changed = true;
        change_kind = remove;
        write = delete v.id;
      }
      else unchanged same_value_noop
    else if not r.allow_recast
    then unchanged insert_only_collision
    else if not (eq_ℤ v.value r.value)
    then record {
      delta = r.value -ℤ v.value;
      count_delta = pos 0;
      changed = true;
      change_kind = direction_switch;
      write = set_value v.id r.value;
    }
    else unchanged same_value_noop

unfoldable pub change_of_none : Request → ℕ → Change
change_of_none r id = if eq_ℤ r.value (pos 0) then unchanged same_value_noop else record {
  delta = r.value;
  count_delta = pos 1;
  changed = true;
  change_kind = insert;
  write = add (new_vote r id);
}

unfoldable pub write_votes : Write → List Vote → List Vote
write_votes keep votes = votes
write_votes (delete i) votes = delete_where (λ v. v.id == i) votes
write_votes (add v) votes = votes ++ v ∷ []
write_votes (set_value i x) votes =
    update_where (λ v. v.id == i) (λ v. record v { value = x }) votes

unfoldable pub next_key : Write → ℕ → ℕ
next_key (add v) n = n + 1
next_key _ n = n

abbrev pub bump : ℤ → ℤ → Item → Item
bump delta count_delta p = record p {
  score = p.score +ℤ delta;
  vote_count = p.vote_count +ℤ count_delta;
}

-- The two UPDATE statements under `if delta:`, for the item and for its author.
unfoldable pub update_counters : Target → ℕ → String → ℤ → ℤ → Store → Store
update_counters post i author delta count_delta s = record s {
  posts = update_where (λ p. p.id == i) (bump delta count_delta) s.posts;
  users =
      update_where (λ u. str_eq u.username author)
        (λ u. record u { post_karma = u.post_karma +ℤ delta }) s.users;
}
update_counters comment i author delta count_delta s = record s {
  comments = update_where (λ p. p.id == i) (bump delta count_delta) s.comments;
  users =
      update_where (λ u. str_eq u.username author)
        (λ u. record u { comment_karma = u.comment_karma +ℤ delta }) s.users;
}
update_counters (other t) i author delta count_delta s = s

-- `activity.record_event`, which runs after the commit.
unfoldable pub record_event : Request → Store → Store
record_event r s = record s {
  events =
      s.events
      ++ record {
        username = if is_some r.visitor_hash then none else r.voter;
        post_id = post_key r.target r.target_id;
        comment_id = comment_key r.target r.target_id;
      }
        ∷ [];
}

abbrev pub item_score : Target → ℕ → Store → ℤ
item_score t i s = elim (first_where (λ p. p.id == i) (rows_of t s)) [
  | none ↦ pos 0
  | some p ↦ p.score
]

-- The rows that a change leaves, before the commit.
unfoldable pub apply_change : Request → Item → Change → Store → Store
unfolding write_votes next_key update_counters
apply_change r item c s =
    let s' : Store = record s {
      votes = write_votes c.write s.votes;
      next_vote = next_key c.write s.next_vote;
    } in
    if eq_ℤ c.delta (pos 0)
    then s'
    else update_counters r.target r.target_id item.user c.delta c.count_delta s'

pub data Attempt : Type 0 where
  ended : Outcome → Store → Attempt
  retry : Store → Attempt

unfoldable pub commit_change : Request → Item → Commit → Change → Store → Attempt
unfolding apply_change record_event
commit_change r item (conflict s') c s = retry s'
commit_change r item committed c s =
    let s' : Store = apply_change r item c s in
    ended (returned (success (item_score r.target r.target_id s') c.changed c.change_kind))
      (if c.changed then record_event r s' else s')

unfoldable pub vote_on : Request → Item → Commit → Found → Store → Attempt
unfolding commit_change change_of_vote change_of_none
vote_on r item k many_votes s = ended multiple_results s
vote_on r item k no_vote s = commit_change r item k (change_of_none r s.next_vote) s
vote_on r item k (one_vote v) s = commit_change r item k (change_of_vote r v) s

abbrev reject : Reason → ℤ → Store → Attempt
reject e score s = ended (returned (rejected e score)) s

-- The first guard that rejects a request for an item that is there, in the order of the code.
unfoldable pub refusal : Request → Item → Store → Option Reason
unfolding downvotes_allowed user_exists
refusal r item s =
    if not (eq_ℤ r.value (pos 1) || eq_ℤ r.value (negsuc 0) || eq_ℤ r.value (pos 0))
    then some bad_value
    else if not (is_some r.visitor_hash) && not (user_exists r.voter s.users)
    then some (unknown_user r.voter)
    else if text_eq r.voter item.user
    then some (own_item r.target)
    else if eq_ℤ r.value (negsuc 0) && not (downvotes_allowed s)
    then some downvotes_disabled
    else none

-- The locking UPDATE must match one row, which is then read.
unfoldable pub lock_item : Request → Store → Option Item
lock_item r s =
    if count_where (λ p. p.id == r.target_id) (rows_of r.target s) == 1
    then first_where (λ p. p.id == r.target_id) (rows_of r.target s)
    else none

unfoldable pub check_and_vote : Request → Item → Commit → Store → Attempt
unfolding vote_on find_vote refusal
check_and_vote r item k s = elim (refusal r item s) [
  | some e ↦ reject e item.score s
  | none ↦ vote_on r item k (find_vote r s) s
]

-- One run of the body.
unfoldable pub attempt : Request → Commit → Store → Attempt
unfolding check_and_vote lock_item
attempt r k s = elim (lock_item r s) [
  | none ↦ reject (does_not_exist r.target r.target_id) (pos 0) s
  | some item ↦ check_and_vote r item k s
]

-- The last attempt re-raises.
unfoldable pub last_attempt : Attempt → Outcome × Store
last_attempt (ended o s) = (o, s)
last_attempt (retry s) = (integrity_error, s)

unfoldable pub retry_once : Request → Commit → Attempt → Outcome × Store
retry_once r k (ended o s) = (o, s)
retry_once r k (retry s) = last_attempt (attempt r k s)

-- `k` and `k'` are what the database answers to the first commit and to that of the retry.
unfoldable pub cast_vote : Request → Commit → Commit → Store → Outcome × Store
unfolding attempt last_attempt retry_once
cast_vote r k k' s = retry_once r k' (attempt r k s)
