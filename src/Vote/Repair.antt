-- ===== src/Vote/Repair.antt =====
-- The nightly repair of deaddit/dynamics/karma.py against the counters of deaddit/dynamics/votes.py.
use mathlib.Core.List.{append-nil, append_assoc}
use deaddit.Prelude.{
  ℕ, ◌+◌, String, ◌≡◌, refl, sym, ◌∙◌, ap, ap₂, inl, inr, Bool, true, false, some, List, [], ◌∷◌,
  ◌++◌, map, All, All-imp, All-map-All, any, arith, ◌==◌, ==_iff, ==_self, if◌then◌else◌,
  Bool-cases, str_eq, eq_iff, count_where,
}
use deaddit.Prelude.Int.{ℤ, pos, ◌+ℤ◌, +ℤ-zero, zero-+ℤ, +ℤ_assoc, eq_ℤ_iff}
use deaddit.Prelude.Dict.{lookup, insert, get_or, lookup-insert}
use deaddit.Vote.{Item, User, Vote, Store, Target, post, comment, is_on}
use deaddit.Vote.Tally.{
  votes_score, votes_count, by_author, authored_score, IsTallied, IsCredited, IsTable, IsConsistent,
}
use deaddit.Vote.Recompute.{
  aggregate, repair_item, drift_of, Repaired, repair_items, none_yet, sum_totals, total_of,
  set_post_karma, set_comment_karma, count_updates, Summary, recompute_scores_and_karma,
}

-- A group that is not there has an empty sum.
sum_of_none :
    (t : Target) (i : ℕ) (votes : List Vote)
    → count_where (is_on t i) votes ≡ 0
    → (votes_score t i votes ≡ pos 0) × (votes_count t i votes ≡ pos 0)
sum_of_none t i [] h = (refl, refl)
sum_of_none t i (v ∷ vs) h = elim (Bool-cases (is_on t i v)) [
  | inl e ↦ absurd (ground arith)
  | inr e ↦
      (let r = sum_of_none t i vs (ground arith) in
        (rw (e, r.0) (zero-+ℤ (pos 0)), rw (e, r.1) (zero-+ℤ (pos 0))))
]

pub aggregate_lem :
    (t : Target) (votes : List Vote) (i : ℕ)
    → aggregate t votes i ≡ (votes_score t i votes, votes_count t i votes)
unfolding aggregate
aggregate_lem t votes i = elim (Bool-cases (count_where (is_on t i) votes == 0)) [
  | inl e ↦
      (let r = sum_of_none t i votes (ground arith) in
        rw e (ap₂ (λ a b. (a, b)) (sym r.0) (sym r.1)))
  | inr e ↦ rw e refl
]

repair_item_lem :
    (t : Target) (votes : List Vote) (p : Item)
    → repair_item t votes p
      ≡ record p { score = votes_score t p.id votes; vote_count = votes_count t p.id votes }
unfolding repair_item
repair_item_lem t votes p = rw (aggregate_lem t votes p.id)

score-repair_item :
    (t : Target) (votes : List Vote) (p : Item)
    → (repair_item t votes p).score ≡ votes_score t p.id votes
score-repair_item t votes p = ap (λ q. q.score) (repair_item_lem t votes p)

repair_item-IsTallied :
    (t : Target) (votes : List Vote) (p : Item) → IsTallied t votes (repair_item t votes p)
repair_item-IsTallied t votes p =
    rw (repair_item_lem t votes p) (record { score = refl; count = refl })

items-repair_items :
    (t : Target) (votes : List Vote) (xs : List Item) (acc : Repaired)
    → (repair_items t votes xs acc).items ≡ acc.items ++ map (repair_item t votes) xs
unfolding repair_items
items-repair_items t votes [] acc = sym (append-nil acc.items)
items-repair_items t votes (x ∷ xs) acc =
    items-repair_items t votes xs _
    ∙ append_assoc acc.items (repair_item t votes x ∷ []) (map (repair_item t votes) xs)

if_same : {A : Type 0} (b : Bool) (x : A) → (if b then x else x) ≡ x
if_same true x = refl
if_same false x = refl

effective-repair_items :
    (t : Target) (votes : List Vote) (xs : List Item) (acc : Repaired) (i : ℕ)
    → lookup ◌==◌ i (repair_items t votes xs acc).effective ≡ (
        if any (λ p. p.id == i) xs
        then some (votes_score t i votes)
        else lookup ◌==◌ i acc.effective)
unfolding repair_items
effective-repair_items t votes [] acc i = refl
effective-repair_items t votes (x ∷ xs) acc i =
    effective-repair_items t votes xs _ i
    ∙ ap (λ o. if any (λ p. p.id == i) xs then some (votes_score t i votes) else o)
        (lookup-insert ◌==◌ ==_iff x.id i (repair_item t votes x).score acc.effective)
    ∙ elim (Bool-cases (x.id == i)) [
      | inl e ↦ rw e (
          ap (λ z. if any (λ p. p.id == i) xs then some (votes_score t i votes) else some z)
            (score-repair_item t votes x ∙ ap (λ k. votes_score t k votes) ((==_iff x.id i).0 e))
          ∙ if_same (any (λ p. p.id == i) xs) (some (votes_score t i votes)))
      | inr e ↦ rw e
    ]

total_of-insert :
    (totals : List (String × ℤ)) (p : Item) (name : String)
    → total_of
        (insert str_eq p.user (get_or (lookup str_eq p.user totals) (pos 0) +ℤ p.score) totals)
        name
      ≡ total_of totals name +ℤ by_author name p
unfolding total_of
total_of-insert totals p name =
    rw
      (lookup-insert str_eq eq_iff p.user name
        (get_or (lookup str_eq p.user totals) (pos 0) +ℤ p.score) totals)
      (elim (Bool-cases (str_eq p.user name)) [
        | inl e ↦ rw (e, (eq_iff p.user name).0 e)
        | inr e ↦ rw e (sym (+ℤ-zero (get_or (lookup str_eq name totals) (pos 0))))
      ])

total_of-sum_totals :
    (effective : List (ℕ × ℤ)) (items : List Item) (totals : List (String × ℤ)) (name : String)
    → All (λ p. lookup ◌==◌ p.id effective ≡ some p.score) items
    → total_of (sum_totals effective items totals) name
      ≡ total_of totals name +ℤ authored_score name items
unfolding total_of sum_totals
total_of-sum_totals effective [] totals name h =
    rw (+ℤ-zero (get_or (lookup str_eq name totals) (pos 0)))
total_of-sum_totals effective (p ∷ ps) totals name h = rw h.0 (
    total_of-sum_totals effective ps _ name h.1
    ∙ ap (λ a. a +ℤ authored_score name ps) (total_of-insert totals p name)
    ∙ +ℤ_assoc (total_of totals name) (by_author name p) (authored_score name ps))

id-repair_item : (t : Target) (votes : List Vote) (p : Item) → (repair_item t votes p).id ≡ p.id
id-repair_item t votes p = ap (λ q. q.id) (repair_item_lem t votes p)

found_each :
    (t : Target) (votes : List Vote) (d : List (ℕ × ℤ)) (ys : List Item)
    → ((i : ℕ) → any (λ p. p.id == i) ys ≡ true → lookup ◌==◌ i d ≡ some (votes_score t i votes))
    → All (λ p. lookup ◌==◌ p.id d ≡ some p.score) (map (repair_item t votes) ys)
found_each t votes d [] h = tt
found_each t votes d (y ∷ ys) h = (
  ap (λ k. lookup ◌==◌ k d) (id-repair_item t votes y)
      ∙ h y.id (rw (==_self y.id))
      ∙ ap some (sym (score-repair_item t votes y)),
  found_each t votes d ys (λ i e. h i (ground arith)),
)

-- The repaired items of one model, with what the second loop reads of them.
module _ (t : Target) (votes : List Vote) (xs : List Item) where
  abbrev after : Repaired
  after = repair_items t votes xs none_yet

  items_after : after.items ≡ map (repair_item t votes) xs
  items_after = items-repair_items t votes xs none_yet

  items_after-IsTallied : All (IsTallied t votes) after.items
  items_after-IsTallied =
      rw items_after
        (All-map-All (IsTallied t votes) (repair_item t votes) xs (repair_item-IsTallied t votes))

  effective_after : All (λ p. lookup ◌==◌ p.id after.effective ≡ some p.score) after.items
  effective_after = rw items_after (
      found_each t votes after.effective xs
        (λ i e. effective-repair_items t votes xs none_yet i ∙ rw e))

  pub totals_after :
      (name : String)
      → total_of (sum_totals after.effective after.items []) name ≡ authored_score name after.items
  unfolding total_of
  totals_after name =
      total_of-sum_totals after.effective after.items [] name effective_after ∙ zero-+ℤ _

IsCredited-each :
    (posts comments : List Item) (pt ct : List (String × ℤ)) (users : List User)
    → ((name : String) → total_of pt name ≡ authored_score name posts)
    → ((name : String) → total_of ct name ≡ authored_score name comments)
    → All (IsCredited posts comments) (map (λ u. set_comment_karma ct (set_post_karma pt u)) users)
IsCredited-each posts comments pt ct users hp hc =
    All-map-All (IsCredited posts comments) (λ u. set_comment_karma ct (set_post_karma pt u)) users
      (λ u. record { post_karma = hp u.username; comment_karma = hc u.username })

-- Whatever drift the counters had, the repair leaves rows whose counters agree with the votes.
pub recompute-IsConsistent :
    (s : Store) → IsTable s.votes s.next_vote → IsConsistent (recompute_scores_and_karma s).1
unfolding recompute_scores_and_karma
recompute-IsConsistent s table = record {
  posts = items_after-IsTallied post s.votes s.posts;
  comments = items_after-IsTallied comment s.votes s.comments;
  users =
      IsCredited-each (after post s.votes s.posts).items (after comment s.votes s.comments).items _
        _ s.users (totals_after post s.votes s.posts) (totals_after comment s.votes s.comments);
  table = table;
}

repair_item-same :
    (t : Target) (votes : List Vote) (p : Item) → IsTallied t votes p → repair_item t votes p ≡ p
repair_item-same t votes p h =
    repair_item_lem t votes p ∙ λ i. record p { score = sym h.score i; vote_count = sym h.count i }

map-same : (f : Item → Item) (xs : List Item) → All (λ x. f x ≡ x) xs → map f xs ≡ xs
map-same f [] h = refl
map-same f (x ∷ xs) h = ap₂ ◌∷◌ h.0 (map-same f xs h.1)

drift_of-zero :
    (t : Target) (votes : List Vote) (p : Item) → IsTallied t votes p → drift_of t votes p ≡ 0
unfolding drift_of
drift_of-zero t votes p h = rw aggregate_lem (
    rw (
      (eq_ℤ_iff p.score (votes_score t p.id votes)).1 h.score,
      (eq_ℤ_iff p.vote_count (votes_count t p.id votes)).1 h.count,
    ))

repair_items-quiet :
    (t : Target) (votes : List Vote) (xs : List Item) (acc : Repaired)
    → All (IsTallied t votes) xs
    → ((repair_items t votes xs acc).repaired ≡ acc.repaired)
      × ((repair_items t votes xs acc).drift_votes ≡ acc.drift_votes)
unfolding repair_items
repair_items-quiet t votes [] acc h = (refl, refl)
repair_items-quiet t votes (x ∷ xs) acc h =
    let r = repair_items-quiet t votes xs _ h.1 in
    let z = drift_of-zero t votes x h.0 in (r.0 ∙ rw z (omega arith), r.1 ∙ rw z (omega arith))

module _ (t : Target) (votes : List Vote) (xs : List Item) (h : All (IsTallied t votes) xs) where
  items_after-same : (after t votes xs).items ≡ xs
  items_after-same =
      items_after t votes xs
      ∙ map-same (repair_item t votes) xs (
          All-imp (IsTallied t votes) (λ x. repair_item t votes x ≡ x) xs (repair_item-same t votes)
            h)

  totals_after-same :
      (name : String)
      → total_of (sum_totals (after t votes xs).effective (after t votes xs).items []) name
        ≡ authored_score name xs
  totals_after-same name = totals_after t votes xs name ∙ ap (authored_score name) items_after-same

users-same :
    (posts comments : List Item) (pt ct : List (String × ℤ)) (users : List User)
    → ((name : String) → total_of pt name ≡ authored_score name posts)
    → ((name : String) → total_of ct name ≡ authored_score name comments)
    → All (IsCredited posts comments) users
    → (map (λ u. set_comment_karma ct (set_post_karma pt u)) users ≡ users)
      × (count_updates (λ u. u.post_karma) pt users ≡ 0)
      × (count_updates (λ u. u.comment_karma) ct users ≡ 0)
unfolding count_updates
users-same posts comments pt ct [] hp hc h = (refl, refl, refl)
users-same posts comments pt ct (u ∷ us) hp hc h =
    let r = users-same posts comments pt ct us hp hc h.1 in
    let p : u.post_karma ≡ total_of pt u.username = h.0.post_karma ∙ sym (hp u.username) in
    let c : u.comment_karma ≡ total_of ct u.username = h.0.comment_karma ∙ sym (hc u.username) in
    (
      (λ i. record u { post_karma = sym p i; comment_karma = sym c i } ∷ r.0 i),
      rw ((eq_ℤ_iff u.post_karma (total_of pt u.username)).1 p) r.1,
      rw ((eq_ℤ_iff u.comment_karma (total_of ct u.username)).1 c) r.2,
    )

abbrev pub no_repairs : Summary
no_repairs = record { repaired = 0; drift_votes = 0; karma_updates = 0 }

-- Where the counters agree with the votes, the repair finds no drift and changes no row.
pub recompute-same : (s : Store) → IsConsistent s → recompute_scores_and_karma s ≡ (no_repairs, s)
unfolding recompute_scores_and_karma
recompute-same s h =
    let p = repair_items-quiet post s.votes s.posts none_yet h.posts in
    let c = repair_items-quiet comment s.votes s.comments none_yet h.comments in
    let u =
      users-same s.posts s.comments _ _ s.users (totals_after-same post s.votes s.posts h.posts)
        (totals_after-same comment s.votes s.comments h.comments) h.users in
    λ i. (
      record {
        repaired = p.0 i + c.0 i;
        drift_votes = p.1 i + c.1 i;
        karma_updates = u.1 i + u.2 i;
      },
      record s {
        posts = items_after-same post s.votes s.posts h.posts i;
        comments = items_after-same comment s.votes s.comments h.comments i;
        users = u.0 i;
      },
    )
