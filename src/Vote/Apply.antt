-- ===== src/Vote/Apply.antt =====
-- A sound change of deaddit/dynamics/votes.py keeps every counter equal to what it stands for.
use deaddit.Prelude.{
  ℕ, ◌≡◌, ◌∙◌, inl, inr, Bool, true, false, some, List, ◌==◌, if◌then◌else◌, Bool-cases,
  count_where, first_where,
}
use deaddit.Prelude.Int.{ℤ, pos, ◌+ℤ◌, +ℤ-zero, eq_ℤ, eq_ℤ_iff}
use deaddit.Vote.{Item, Vote, Store, Target, post, comment, other}
use deaddit.Vote.Cast.{
  Request, Change, rows_of, write_votes, next_key, apply_change, update_counters,
}
use deaddit.Vote.Tally.{votes_score, votes_count, IsTable, IsConsistent, same_item}
use deaddit.Vote.Moves.{share, Moves}
use deaddit.Vote.Counters.{IsTallied-same, IsTallied-bump}
use deaddit.Vote.Table.{IsGoodWrite, write-IsTable}
use deaddit.Vote.Credits.{IsCredited-post, IsCredited-comment}

-- What is known of a change when it is applied.
pub record IsSound (r : Request) (s : Store) (c : Change) : Type 0 where
  pub moves : Moves r s.votes c
  pub write : IsGoodWrite s.next_vote c.write
  pub quiet : eq_ℤ c.delta (pos 0) ≡ true → c.count_delta ≡ pos 0

share_zero : (b : Bool) (x s : ℤ) → x ≡ pos 0 → s +ℤ (if b then x else pos 0) ≡ s
share_zero true x s e = rw e (+ℤ-zero s)
share_zero false x s e = +ℤ-zero s

module _ (k : ℕ) (d c : ℤ) (item : Item) (s : Store) (votes : List Vote) (next : ℕ) where
  abbrev Shifts : Target → Type 0
  Shifts t =
      ((t' : Target) (i : ℕ)
        → votes_score t' i votes ≡ votes_score t' i s.votes +ℤ share t k t' i d)
      × ((t' : Target) (i : ℕ)
          → votes_count t' i votes ≡ votes_count t' i s.votes +ℤ share t k t' i c)

  pub update_counters-IsConsistent :
      (t : Target)
      → IsConsistent s
      → IsTable votes next
      → Shifts t
      → first_where (λ p. p.id == k) (rows_of t s) ≡ some item
      → count_where (λ p. p.id == k) (rows_of t s) ≡ 1
      → IsConsistent
          (update_counters t k item.user d c (record s { votes = votes; next_vote = next }))
  unfolding update_counters
  update_counters-IsConsistent post h table m f n = record {
    posts = IsTallied-bump post s.votes votes k d c s.posts (m.0 post) (m.1 post) h.posts;
    comments =
        IsTallied-same comment s.votes votes s.comments (λ i. m.0 comment i ∙ +ℤ-zero _)
          (λ i. m.1 comment i ∙ +ℤ-zero _) h.comments;
    users = IsCredited-post k d c item s.posts s.comments s.users f n h.users;
    table = table;
  }
  update_counters-IsConsistent comment h table m f n = record {
    posts =
        IsTallied-same post s.votes votes s.posts (λ i. m.0 post i ∙ +ℤ-zero _)
          (λ i. m.1 post i ∙ +ℤ-zero _) h.posts;
    comments =
        IsTallied-bump comment s.votes votes k d c s.comments (m.0 comment) (m.1 comment)
          h.comments;
    users = IsCredited-comment k d c item s.posts s.comments s.users f n h.users;
    table = table;
  }
  update_counters-IsConsistent (other x) h table m f n = cc

  -- With both parts zero the counters stay right as they are.
  pub quiet-IsConsistent :
      (t : Target)
      → IsConsistent s
      → IsTable votes next
      → Shifts t
      → d ≡ pos 0
      → c ≡ pos 0
      → IsConsistent (record s { votes = votes; next_vote = next })
  quiet-IsConsistent t h table m dz cz = record {
    posts =
        IsTallied-same post s.votes votes s.posts
          (λ i. m.0 post i ∙ share_zero (same_item t k post i) d _ dz)
          (λ i. m.1 post i ∙ share_zero (same_item t k post i) c _ cz) h.posts;
    comments =
        IsTallied-same comment s.votes votes s.comments
          (λ i. m.0 comment i ∙ share_zero (same_item t k comment i) d _ dz)
          (λ i. m.1 comment i ∙ share_zero (same_item t k comment i) c _ cz) h.comments;
    users = h.users;
    table = table;
  }

pub apply_change-IsConsistent :
    (r : Request) (item : Item) (c : Change) (s : Store)
    → IsConsistent s
    → IsSound r s c
    → first_where (λ p. p.id == r.target_id) (rows_of r.target s) ≡ some item
    → count_where (λ p. p.id == r.target_id) (rows_of r.target s) ≡ 1
    → IsConsistent (apply_change r item c s)
unfolding apply_change
apply_change-IsConsistent r item c s h k f n =
    let votes = write_votes c.write s.votes in
    let next = next_key c.write s.next_vote in
    let table = write-IsTable c.write s.votes s.next_vote k.write h.table in
    elim (Bool-cases (eq_ℤ c.delta (pos 0))) [
      | inl e ↦ rw e (
          quiet-IsConsistent r.target_id c.delta c.count_delta item s votes next r.target h table
            (k.moves.score, k.moves.count) ((eq_ℤ_iff c.delta (pos 0)).0 e) (k.quiet e))
      | inr e ↦ rw e (
          update_counters-IsConsistent r.target_id c.delta c.count_delta item s votes next r.target
            h table (k.moves.score, k.moves.count) f n)
    ]
