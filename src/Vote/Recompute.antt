-- ===== src/Vote/Recompute.antt =====
-- `recompute_scores_and_karma` of deaddit/dynamics/karma.py.
use deaddit.Prelude.{
  ℕ, ◌+◌, String, not, Option, none, some, List, [], ◌∷◌, ◌==◌, if◌then◌else◌, str_eq, count_where,
  map, ◌++◌,
}
use deaddit.Prelude.Int.{ℤ, pos, ◌+ℤ◌, eq_ℤ}
use deaddit.Prelude.Dict.{lookup, insert, get_or}
use deaddit.Vote.{Item, User, Vote, Store, Target, post, comment, is_on}
use deaddit.Vote.Tally.{votes_score, votes_count}

-- `_vote_aggregates`: GROUP BY has a group for the targets with a vote row, and no other.
unfoldable pub vote_aggregates : Target → List Vote → ℕ → Option (ℤ × ℤ)
vote_aggregates t votes i =
    if count_where (is_on t i) votes == 0
    then none
    else some (votes_score t i votes, votes_count t i votes)

-- The first loop: the counters that an item gets, the columns found wrong and the repaired items.
unfoldable pub aggregate : Target → List Vote → ℕ → ℤ × ℤ
unfolding vote_aggregates
aggregate t votes i = get_or (vote_aggregates t votes i) (pos 0, pos 0)

unfoldable pub repair_item : Target → List Vote → Item → Item
unfolding aggregate
repair_item t votes item =
    let (total, count) = aggregate t votes item.id in
    record item { score = total; vote_count = count }

unfoldable pub drift_of : Target → List Vote → Item → ℕ
unfolding aggregate
drift_of t votes item =
    let (total, count) = aggregate t votes item.id in
    (if not (eq_ℤ item.score total) then 1 else 0)
    + (if not (eq_ℤ item.vote_count count) then 1 else 0)

-- One model's part of the first loop. `effective` is the dict `effective` at that model's name.
pub record Repaired : Type 0 where
  pub items : List Item
  pub repaired : ℕ
  pub drift_votes : ℕ
  pub effective : List (ℕ × ℤ)

unfoldable pub repair_items : Target → List Vote → List Item → Repaired → Repaired
unfolding repair_item drift_of
repair_items t votes [] acc = acc
repair_items t votes (item ∷ rest) acc =
    let drift = drift_of t votes item in
    let item' = repair_item t votes item in
    repair_items t votes rest (record {
      items = acc.items ++ item' ∷ [];
      repaired = acc.repaired + (if drift == 0 then 0 else 1);
      drift_votes = acc.drift_votes + drift;
      effective = insert ◌==◌ item.id item'.score acc.effective;
    })

abbrev pub none_yet : Repaired
none_yet = record { items = []; repaired = 0; drift_votes = 0; effective = [] }

-- The second loop over the items: `totals`.
unfoldable pub sum_totals : List (ℕ × ℤ) → List Item → List (String × ℤ) → List (String × ℤ)
sum_totals effective [] totals = totals
sum_totals effective (item ∷ rest) totals =
    sum_totals effective rest (elim (lookup ◌==◌ item.id effective) [
      | none ↦ totals
      | some eff ↦
          insert str_eq item.user (get_or (lookup str_eq item.user totals) (pos 0) +ℤ eff) totals
    ])

unfoldable pub total_of : List (String × ℤ) → String → ℤ
total_of totals name = get_or (lookup str_eq name totals) (pos 0)

abbrev pub set_post_karma : List (String × ℤ) → User → User
set_post_karma totals u = record u { post_karma = total_of totals u.username }

abbrev pub set_comment_karma : List (String × ℤ) → User → User
set_comment_karma totals u = record u { comment_karma = total_of totals u.username }

-- The users whose column differs from its total.
unfoldable pub count_updates : (User → ℤ) → List (String × ℤ) → List User → ℕ
count_updates column totals users =
    count_where (λ u. not (eq_ℤ (column u) (total_of totals u.username))) users

pub record Summary : Type 0 where
  pub repaired : ℕ
  pub drift_votes : ℕ
  pub karma_updates : ℕ

unfoldable pub recompute_scores_and_karma : Store → Summary × Store
unfolding repair_items sum_totals total_of count_updates
recompute_scores_and_karma s =
    let p = repair_items post s.votes s.posts none_yet in
    let c = repair_items comment s.votes s.comments none_yet in
    let post_totals = sum_totals p.effective p.items [] in
    let comment_totals = sum_totals c.effective c.items [] in
    (
      record {
        repaired = p.repaired + c.repaired;
        drift_votes = p.drift_votes + c.drift_votes;
        karma_updates =
            count_updates (λ u. u.post_karma) post_totals s.users
            + count_updates (λ u. u.comment_karma) comment_totals s.users;
      },
      record s {
        posts = p.items;
        comments = c.items;
        users = map (λ u. set_comment_karma comment_totals (set_post_karma post_totals u)) s.users;
      },
    )
