-- ===== src/Vote/Consistency.antt =====
-- `cast_vote` of deaddit/dynamics/votes.py keeps every counter equal to what it stands for.
use deaddit.Prelude.{
  ℕ, ◌≡◌, refl, inl, inr, Bool, true, false, none, some, arith, ◌==◌, if◌then◌else◌, Option-cases,
  count_where, first_where,
}
use deaddit.Vote.{Item, Vote, Store, Target, post, comment, other}
use deaddit.Vote.Cast.{
  Request, Change, Commit, committed, conflict, Found, no_vote, one_vote, many_votes, Attempt,
  ended, retry, rows_of, apply_change, commit_change, vote_on, check_and_vote, attempt, cast_vote,
  find_vote, change_of_vote, change_of_none, record_event, last_attempt, retry_once, refusal,
  lock_item,
}
use deaddit.Vote.Tally.{IsConsistent}
use deaddit.Vote.Moves.{is_known, found-IsTheRow, change_of_none-Moves, change_of_vote-Moves}
use deaddit.Vote.Table.{
  IsVoteValue, change_of_vote-IsGoodWrite, change_of_none-IsGoodWrite, change_of_vote-quiet,
  change_of_none-quiet,
}
use deaddit.Vote.Apply.{IsSound, apply_change-IsConsistent}

abbrev rows_after : Attempt → Store
rows_after (ended o s) = s
rows_after (retry s) = s

-- The counters are right after an attempt, whatever it answered.
record EndsConsistent (a : Attempt) : Type 0 where
  at : IsConsistent (rows_after a)

abbrev pub IsConsistentCommit : Commit → Type 0
IsConsistentCommit committed = Unit
IsConsistentCommit (conflict s) = IsConsistent s

known_of_count :
    (t : Target) (k : ℕ) (s : Store)
    → count_where (λ p. p.id == k) (rows_of t s) ≡ 1
    → is_known t ≡ true
known_of_count post k s h = refl
known_of_count comment k s h = refl
known_of_count (other x) k s h = absurd (omega arith)

value_of_refusal :
    (r : Request) (item : Item) (s : Store) → refusal r item s ≡ none → IsVoteValue r.value
unfolding refusal
value_of_refusal r item s h = ground arith

lock_item_lem :
    (r : Request) (s : Store) {item : Item}
    → lock_item r s ≡ some item
    → (first_where (λ p. p.id == r.target_id) (rows_of r.target s) ≡ some item)
      × (count_where (λ p. p.id == r.target_id) (rows_of r.target s) ≡ 1)
unfolding lock_item
lock_item_lem r s h = ground arith

events-IsConsistent :
    (s : Store) (b : Bool) (r : Request)
    → IsConsistent s
    → IsConsistent (if b then record_event r s else s)
unfolding record_event
events-IsConsistent s true r h = record {
  posts = h.posts;
  comments = h.comments;
  users = h.users;
  table = h.table;
}
events-IsConsistent s false r h = h

module _ (r : Request) (k : Commit) (won : IsConsistentCommit k) (item : Item) (s : Store)
    (h : IsConsistent s)
    (f : first_where (λ p. p.id == r.target_id) (rows_of r.target s) ≡ some item)
    (n : count_where (λ p. p.id == r.target_id) (rows_of r.target s) ≡ 1) where
  commit-EndsConsistent :
      (k' : Commit) (c : Change)
      → IsConsistentCommit k'
      → IsSound r s c
      → EndsConsistent (commit_change r item k' c s)
  unfolding commit_change
  commit-EndsConsistent (conflict s') c w d = record { at = w }
  commit-EndsConsistent committed c w d = record {
    at =
        events-IsConsistent (apply_change r item c s) c.changed r
          (apply_change-IsConsistent r item c s h d f n);
  }

  none-IsSound : IsVoteValue r.value → IsSound r s (change_of_none r s.next_vote)
  none-IsSound v =
      let known = known_of_count r.target r.target_id s n in
      record {
        moves = change_of_none-Moves r s.next_vote s.votes known;
        write = change_of_none-IsGoodWrite r s.next_vote known v;
        quiet = change_of_none-quiet r s.next_vote;
      }

  one-IsSound :
      IsVoteValue r.value
      → (v : Vote) → find_vote r s ≡ one_vote v
      → IsSound r s (change_of_vote r v)
  one-IsSound x v e =
      let row = found-IsTheRow r s v h.table.rows h.table.keys e in
      record {
        moves = change_of_vote-Moves r s.votes v row;
        write = change_of_vote-IsGoodWrite r v s.next_vote x;
        quiet = change_of_vote-quiet r v row.row.unit;
      }

  vote_on-EndsConsistent :
      IsVoteValue r.value
      → (found : Found) → find_vote r s ≡ found
      → EndsConsistent (vote_on r item k found s)
  unfolding vote_on
  vote_on-EndsConsistent x no_vote e =
      commit-EndsConsistent k (change_of_none r s.next_vote) won (none-IsSound x)
  vote_on-EndsConsistent x (one_vote v) e =
      commit-EndsConsistent k (change_of_vote r v) won (one-IsSound x v e)
  vote_on-EndsConsistent x many_votes e = record { at = h }

  check_and_vote-EndsConsistent : EndsConsistent (check_and_vote r item k s)
  unfolding check_and_vote
  check_and_vote-EndsConsistent = elim (Option-cases (refusal r item s)) [
    | inl free ↦
        rw (free, check_and_vote)
          (vote_on-EndsConsistent (value_of_refusal r item s free) (find_vote r s) refl)
    | inr (e, refused) ↦ rw (refused, check_and_vote) (record { at = h })
  ]

attempt-EndsConsistent :
    (r : Request) (k : Commit) (s : Store)
    → IsConsistentCommit k
    → IsConsistent s
    → EndsConsistent (attempt r k s)
unfolding attempt
attempt-EndsConsistent r k s won h = elim (Option-cases (lock_item r s)) [
  | inl gone ↦ rw (gone, attempt) (record { at = h })
  | inr (item, found) ↦
      let l = lock_item_lem r s found in
      rw (found, attempt) (check_and_vote-EndsConsistent r k won item s h l.0 l.1)
]

last_attempt-IsConsistent : (a : Attempt) → EndsConsistent a → IsConsistent (last_attempt a).1
unfolding last_attempt
last_attempt-IsConsistent (ended o s) h = h.at
last_attempt-IsConsistent (retry s) h = h.at

retry_once-IsConsistent :
    (r : Request) (k : Commit) (a : Attempt)
    → IsConsistentCommit k
    → EndsConsistent a
    → IsConsistent (retry_once r k a).1
unfolding retry_once
retry_once-IsConsistent r k (ended o s) won h = h.at
retry_once-IsConsistent r k (retry s) won h =
    last_attempt-IsConsistent (attempt r k s) (attempt-EndsConsistent r k s won h.at)

-- From rows whose counters agree with the votes (the score and the number of votes of every post and
-- comment, the post and comment karma of every user, and the constraints of the Vote table), a
-- call leaves such rows, whether it returns, rejects or raises. Where a commit ends in a conflict,
-- the rows that the next attempt reads are assumed to agree.
pub cast_vote-IsConsistent :
    (r : Request) (k k' : Commit) (s : Store)
    → IsConsistentCommit k
    → IsConsistentCommit k'
    → IsConsistent s
    → IsConsistent (cast_vote r k k' s).1
unfolding cast_vote
cast_vote-IsConsistent r k k' s won won' h =
    retry_once-IsConsistent r k' (attempt r k s) won' (attempt-EndsConsistent r k s won h)
