-- ===== src/Vote/Counters.antt =====
-- The two UPDATE statements of deaddit/dynamics/votes.py against the sums they maintain.
use deaddit.Prelude.{
  ℕ, String, ◌≡◌, refl, ap, Bool, true, false, some, List, All, All-imp, arith, ◌==◌, if◌then◌else◌,
  str_eq, eq_iff, count_where, first_where, update_where, update_where-All, sum_by-update_one,
}
use deaddit.Prelude.Int.{ℤ, pos, ◌+ℤ◌, +ℤ-zero}
use deaddit.Vote.{Item, Vote, Target}
use deaddit.Vote.Cast.{bump}
use deaddit.Vote.Tally.{by_author, authored_score, votes_score, votes_count, IsTallied}

pub str_eq_comm : (a b : String) → str_eq a b ≡ str_eq b a
str_eq_comm a b = ground (arith, eq_iff a b, eq_iff b a)

module _ (t : Target) (votes votes' : List Vote) where
  pub IsTallied-same :
      (items : List Item)
      → ((i : ℕ) → votes_score t i votes' ≡ votes_score t i votes)
      → ((i : ℕ) → votes_count t i votes' ≡ votes_count t i votes)
      → All (IsTallied t votes) items
      → All (IsTallied t votes') items
  IsTallied-same items hs hc a =
      All-imp (IsTallied t votes) (IsTallied t votes') items
        (λ p h. record { score = rw (hs p.id) h.score; count = rw (hc p.id) h.count }) a

  pub IsTallied-bump :
      (k : ℕ) (d c : ℤ) (items : List Item)
      → ((i : ℕ) → votes_score t i votes' ≡ votes_score t i votes +ℤ (if k == i then d else pos 0))
      → ((i : ℕ) → votes_count t i votes' ≡ votes_count t i votes +ℤ (if k == i then c else pos 0))
      → All (IsTallied t votes) items
      → All (IsTallied t votes') (update_where (λ p. p.id == k) (bump d c) items)
  IsTallied-bump k d c items hs hc a =
      update_where-All (IsTallied t votes) (IsTallied t votes') (λ p. p.id == k) (bump d c) items
        (λ p e h.
          let f : (k == p.id) ≡ true = ground arith in
          record {
            score = rw (hs p.id, f) (ap (λ s. s +ℤ d) h.score);
            count = rw (hc p.id, f) (ap (λ s. s +ℤ c) h.count);
          })
        (λ p e h.
          let f : (k == p.id) ≡ false = ground arith in
          record {
            score = rw (hs p.id, f, +ℤ-zero) h.score;
            count = rw (hc p.id, f, +ℤ-zero) h.count;
          })
        a

by_author-bump :
    (b : Bool) (s d : ℤ)
    → (if b then s +ℤ d else pos 0) ≡ (if b then s else pos 0) +ℤ (if b then d else pos 0)
by_author-bump true s d = refl
by_author-bump false s d = rw +ℤ-zero

-- The score of an author's items moves by `d` where the item is the author's.
pub authored_bump :
    (name : String) (k : ℕ) (d c : ℤ) (item : Item) (items : List Item)
    → first_where (λ p. p.id == k) items ≡ some item
    → count_where (λ p. p.id == k) items ≡ 1
    → authored_score name (update_where (λ p. p.id == k) (bump d c) items)
      ≡ authored_score name items +ℤ (if str_eq item.user name then d else pos 0)
authored_bump name k d c item items =
    sum_by-update_one (by_author name) (λ p. p.id == k) (bump d c)
      (if str_eq item.user name then d else pos 0) item items
      (by_author-bump (str_eq item.user name) item.score d)
