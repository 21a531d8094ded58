-- ===== src/Vote/Tally.antt =====
-- What the counters of deaddit/dynamics/votes.py stand for: the sum and the number of the vote rows
-- on an item, and the sum of the scores that a user's items have.
use deaddit.Prelude.{
  ℕ, ◌≤◌, ◌<◌, String, ◌≡◌, ◌⊎◌, Bool, false, List, All, ◌==◌, if◌then◌else◌, is_some, not, str_eq,
  count_where, sum_by,
}
use deaddit.Prelude.Int.{ℤ, pos, negsuc}
use deaddit.Vote.{Item, User, Vote, Store, Target, post, comment, is_on}

abbrev pub score_part : Target → ℕ → Vote → ℤ
score_part t i v = if is_on t i v then v.value else pos 0

abbrev pub count_part : Target → ℕ → Vote → ℤ
count_part t i v = if is_on t i v then pos 1 else pos 0

abbrev pub votes_score : Target → ℕ → List Vote → ℤ
votes_score t i votes = sum_by (score_part t i) votes

abbrev pub votes_count : Target → ℕ → List Vote → ℤ
votes_count t i votes = sum_by (count_part t i) votes

abbrev pub by_author : String → Item → ℤ
by_author name p = if str_eq p.user name then p.score else pos 0

abbrev pub authored_score : String → List Item → ℤ
authored_score name items = sum_by (by_author name) items

-- The counters of an item agree with the vote rows.
pub record IsTallied (t : Target) (votes : List Vote) (p : Item) : Type 0 where
  pub score : p.score ≡ votes_score t p.id votes
  pub count : p.vote_count ≡ votes_count t p.id votes

-- The karma columns of a user agree with the scores of the user's items.
pub record IsCredited (posts comments : List Item) (u : User) : Type 0 where
  pub post_karma : u.post_karma ≡ authored_score u.username posts
  pub comment_karma : u.comment_karma ≡ authored_score u.username comments

-- The CHECK constraints of the table that the counters depend on: the value is 1 or -1, and the
-- vote is on a post or on a comment, not on both.
pub record IsVoteRow (v : Vote) : Type 0 where
  pub unit : (v.value ≡ pos 1) ⊎ (v.value ≡ negsuc 0)
  pub one_target : is_some v.post_id ≡ not (is_some v.comment_id)

pub record IsTable (votes : List Vote) (next : ℕ) : Type 0 where
  pub rows : All IsVoteRow votes
  pub keys : (k : ℕ) → count_where (λ v. v.id == k) votes ≤ 1
  pub fresh : All (λ v. v.id < next) votes

pub record IsConsistent (s : Store) : Type 0 where
  pub posts : All (IsTallied post s.votes) s.posts
  pub comments : All (IsTallied comment s.votes) s.comments
  pub users : All (IsCredited s.posts s.comments) s.users
  pub table : IsTable s.votes s.next_vote

-- The two names of an item are the same.
abbrev pub same_item : Target → ℕ → Target → ℕ → Bool
same_item post i post j = i == j
same_item comment i comment j = i == j
same_item _ i _ j = false
