-- ===== src/Vote/Credits.antt =====
-- The karma update of deaddit/dynamics/votes.py against the scores of a user's items.
use deaddit.Prelude.{
  ℕ, ◌≡◌, ap, some, List, All, ◌==◌, str_eq, count_where, first_where, update_where,
  update_where-All,
}
use deaddit.Prelude.Int.{ℤ, ◌+ℤ◌, +ℤ-zero}
use deaddit.Vote.{Item, User}
use deaddit.Vote.Cast.{bump}
use deaddit.Vote.Tally.{IsCredited}
use deaddit.Vote.Counters.{authored_bump, str_eq_comm}

-- The author is credited with the move, and nobody else is.
pub IsCredited-post :
    (k : ℕ) (d c : ℤ) (item : Item) (posts comments : List Item) (users : List User)
    → first_where (λ p. p.id == k) posts ≡ some item
    → count_where (λ p. p.id == k) posts ≡ 1
    → All (IsCredited posts comments) users
    → All (IsCredited (update_where (λ p. p.id == k) (bump d c) posts) comments) (
        update_where
          (λ u. str_eq u.username item.user)
          (λ u. record u { post_karma = u.post_karma +ℤ d })
          users)
IsCredited-post k d c item posts comments users f n a =
    update_where-All (IsCredited posts comments)
      (IsCredited (update_where (λ p. p.id == k) (bump d c) posts) comments)
      (λ u. str_eq u.username item.user) (λ u. record u { post_karma = u.post_karma +ℤ d }) users
      (λ u e h. record {
        post_karma =
            rw (authored_bump u.username k d c item posts f n, str_eq_comm item.user u.username, e)
              (ap (λ s. s +ℤ d) h.post_karma);
        comment_karma = h.comment_karma;
      })
      (λ u e h. record {
        post_karma =
            rw
              (
                authored_bump u.username k d c item posts f n,
                str_eq_comm item.user u.username,
                e,
                +ℤ-zero,
              )
              h.post_karma;
        comment_karma = h.comment_karma;
      })
      a

pub IsCredited-comment :
    (k : ℕ) (d c : ℤ) (item : Item) (posts comments : List Item) (users : List User)
    → first_where (λ p. p.id == k) comments ≡ some item
    → count_where (λ p. p.id == k) comments ≡ 1
    → All (IsCredited posts comments) users
    → All (IsCredited posts (update_where (λ p. p.id == k) (bump d c) comments)) (
        update_where
          (λ u. str_eq u.username item.user)
          (λ u. record u { comment_karma = u.comment_karma +ℤ d })
          users)
IsCredited-comment k d c item posts comments users f n a =
    update_where-All (IsCredited posts comments)
      (IsCredited posts (update_where (λ p. p.id == k) (bump d c) comments))
      (λ u. str_eq u.username item.user) (λ u. record u { comment_karma = u.comment_karma +ℤ d })
      users
      (λ u e h. record {
        post_karma = h.post_karma;
        comment_karma =
            rw
              (
                authored_bump u.username k d c item comments f n,
                str_eq_comm item.user u.username,
                e,
              )
              (ap (λ s. s +ℤ d) h.comment_karma);
      })
      (λ u e h. record {
        post_karma = h.post_karma;
        comment_karma =
            rw
              (
                authored_bump u.username k d c item comments f n,
                str_eq_comm item.user u.username,
                e,
                +ℤ-zero,
              )
              h.comment_karma;
      })
      a
