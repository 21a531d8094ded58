-- ===== src/Vote/Outcomes.antt =====
-- What `cast_vote` of deaddit/dynamics/votes.py answers against what it writes.
use deaddit.Prelude.{
  ℕ, String, ◌≡◌, refl, ◌∙◌, ◌⊎◌, inl, inr, Bool, true, false, [], ◌∷◌, ◌++◌, arith, Bool-cases,
  Option-cases,
}
use deaddit.Prelude.Int.{ℤ, pos, eq_ℤ}
use deaddit.Vote.{Item, Vote, Store, Target, post, comment, other}
use deaddit.Vote.Cast.{
  Request, success, Outcome, returned, integrity_error, Found, no_vote, one_vote, many_votes, keep,
  Change, Commit, committed, Attempt, ended, retry, change_of_vote, change_of_none, write_votes,
  next_key, apply_change, record_event, commit_change, vote_on, find_vote, refusal, lock_item,
  check_and_vote, attempt, retry_once, cast_vote, new_vote, update_counters,
}

-- The field `changed` of the answer, where there is one.
abbrev pub says_changed : Outcome → Bool
says_changed (returned (success score b kind)) = b
says_changed _ = false

-- A change that says that it changes nothing is none.
record IsQuiet (c : Change) : Type 0 where
  delta : eq_ℤ c.delta (pos 0) ≡ true
  write : c.write ≡ keep

change_of_vote-IsQuiet :
    (r : Request) (v : Vote) → (change_of_vote r v).changed ≡ false → IsQuiet (change_of_vote r v)
unfolding change_of_vote
change_of_vote-IsQuiet r v h = ground arith

change_of_none-IsQuiet :
    (r : Request) (n : ℕ) → (change_of_none r n).changed ≡ false → IsQuiet (change_of_none r n)
unfolding change_of_none
change_of_none-IsQuiet r n h = ground arith

apply-quiet :
    (r : Request) (item : Item) (c : Change) (s : Store) → IsQuiet c → apply_change r item c s ≡ s
unfolding apply_change write_votes next_key
apply-quiet r item c s q = rw (q.delta, q.write)

abbrev result : Attempt → Outcome × Store
result (ended o s) = (o, s)
result (retry s) = (integrity_error, s)

-- Without a conflict an attempt that says no change leaves the rows as they are.
abbrev Leaves : Store → Attempt → Type 0
Leaves s a = says_changed (result a).0 ≡ false → (result a).1 ≡ s

commit-Leaves :
    (r : Request) (item : Item) (c : Change) (s : Store)
    → (c.changed ≡ false → IsQuiet c)
    → Leaves s (commit_change r item committed c s)
unfolding commit_change
commit-Leaves r item c s q h = rw h (apply-quiet r item c s (q h))

vote_on-Leaves :
    (r : Request) (item : Item) (f : Found) (s : Store) → Leaves s (vote_on r item committed f s)
unfolding vote_on
vote_on-Leaves r item no_vote s =
    commit-Leaves r item (change_of_none r s.next_vote) s (change_of_none-IsQuiet r s.next_vote)
vote_on-Leaves r item (one_vote v) s =
    commit-Leaves r item (change_of_vote r v) s (change_of_vote-IsQuiet r v)
vote_on-Leaves r item many_votes s = λ h. refl

attempt-Leaves : (r : Request) (s : Store) → Leaves s (attempt r committed s)
unfolding attempt check_and_vote
attempt-Leaves r s = elim (Option-cases (lock_item r s)) [
  | inl gone ↦ rw (gone, attempt) (λ h. refl)
  | inr (item, found) ↦ elim (Option-cases (refusal r item s)) [
    | inl free ↦ rw (found, attempt, free, check_and_vote) (vote_on-Leaves r item (find_vote r s) s)
    | inr (e, refused) ↦ rw (found, attempt, refused, check_and_vote) (λ h. refl)
  ]
]

-- An attempt whose commit goes through is the last one.
abbrev IsLast : Attempt → Type 0
IsLast a = (r : Request) (k : Commit) → retry_once r k a ≡ result a

commit-IsLast :
    (r : Request) (item : Item) (c : Change) (s : Store)
    → IsLast (commit_change r item committed c s)
unfolding commit_change retry_once
commit-IsLast r item c s r' k = refl

vote_on-IsLast :
    (r : Request) (item : Item) (f : Found) (s : Store) → IsLast (vote_on r item committed f s)
unfolding vote_on retry_once
vote_on-IsLast r item no_vote s r' k = refl
vote_on-IsLast r item (one_vote v) s r' k = refl
vote_on-IsLast r item many_votes s r' k = refl

attempt-IsLast : (r : Request) (s : Store) → IsLast (attempt r committed s)
unfolding attempt check_and_vote retry_once
attempt-IsLast r s = elim (Option-cases (lock_item r s)) [
  | inl gone ↦ rw (gone, attempt) (λ r' k. refl)
  | inr (item, found) ↦ elim (Option-cases (refusal r item s)) [
    | inl free ↦ rw (found, attempt, free, check_and_vote) (vote_on-IsLast r item (find_vote r s) s)
    | inr (e, refused) ↦ rw (found, attempt, refused, check_and_vote) (λ r' k. refl)
  ]
]

-- A call that does not answer `changed = True` changes no row of any table: this covers every
-- rejection, the same-value and insert-only no-ops and an ambiguous vote, where the commit goes
-- through.
pub cast_vote-unchanged :
    (r : Request) (k' : Commit) (s : Store)
    → says_changed (cast_vote r committed k' s).0 ≡ false
    → (cast_vote r committed k' s).1 ≡ s
unfolding cast_vote
cast_vote-unchanged r k' s = rw (attempt-IsLast r s r k') (attempt-Leaves r s)

-- The votes after an attempt: those before it, or one more that the request describes.
Extends : Request → Store → Attempt → Type 0
Extends r s a =
    ((result a).1.votes ≡ s.votes)
    ⊎ ((find_vote r s ≡ no_vote) × ((result a).1.votes ≡ s.votes ++ new_vote r s.next_vote ∷ []))

votes-update_counters :
    (t : Target) (i : ℕ) (author : String) (d c : ℤ) (s : Store)
    → (update_counters t i author d c s).votes ≡ s.votes
unfolding update_counters
votes-update_counters post i author d c s = refl
votes-update_counters comment i author d c s = refl
votes-update_counters (other t) i author d c s = refl

votes-apply_change :
    (r : Request) (item : Item) (c : Change) (s : Store)
    → (apply_change r item c s).votes ≡ write_votes c.write s.votes
unfolding apply_change
votes-apply_change r item c s = elim (Bool-cases (eq_ℤ c.delta (pos 0))) [
  | inl e ↦ rw e
  | inr e ↦ rw e (votes-update_counters r.target r.target_id item.user c.delta c.count_delta _)
]

votes-commit :
    (r : Request) (item : Item) (c : Change) (s : Store)
    → (result (commit_change r item committed c s)).1.votes ≡ write_votes c.write s.votes
unfolding commit_change record_event
votes-commit r item c s = elim (Bool-cases c.changed) [
  | inl e ↦ rw e (votes-apply_change r item c s)
  | inr e ↦ rw e (votes-apply_change r item c s)
]

collision_writes :
    (r : Request) (v : Vote) → r.allow_recast ≡ false → (change_of_vote r v).write ≡ keep
unfolding change_of_vote
collision_writes r v h = ground arith

module _ (r : Request) (insert_only : r.allow_recast ≡ false) (item : Item) (s : Store) where
  vote_on-Extends : (f : Found) → find_vote r s ≡ f → Extends r s (vote_on r item committed f s)
  unfolding vote_on Extends write_votes
  vote_on-Extends no_vote e = elim (Bool-cases (eq_ℤ r.value (pos 0))) [
    | inl z ↦
        inl (votes-commit r item (change_of_none r s.next_vote) s ∙ unfold change_of_none in rw z)
    | inr n ↦
        inr
          (e, votes-commit r item (change_of_none r s.next_vote) s ∙ unfold change_of_none in rw n)
  ]
  vote_on-Extends (one_vote v) e =
      inl (votes-commit r item (change_of_vote r v) s ∙ rw (collision_writes r v insert_only))
  vote_on-Extends many_votes e = inl refl

attempt-Extends :
    (r : Request) (s : Store) → r.allow_recast ≡ false → Extends r s (attempt r committed s)
unfolding attempt check_and_vote
attempt-Extends r s h = elim (Option-cases (lock_item r s)) [
  | inl gone ↦ rw (gone, attempt) (unfold Extends in inl refl)
  | inr (item, found) ↦ elim (Option-cases (refusal r item s)) [
    | inl free ↦
        rw (found, attempt, free, check_and_vote) (vote_on-Extends r h item s (find_vote r s) refl)
    | inr (e, refused) ↦ rw (found, attempt, refused, check_and_vote) (unfold Extends in inl refl)
  ]
]

-- An insert-only request (`allow_recast=False`, the simulator's) whose commit goes through never
-- alters or deletes a vote row: the votes stay as they are, or one row that the request describes
-- is added at the end, and then only where no vote of the same voter on the item was found.
pub insert_only-votes :
    (r : Request) (k' : Commit) (s : Store)
    → r.allow_recast ≡ false
    → ((cast_vote r committed k' s).1.votes ≡ s.votes)
      ⊎ ((find_vote r s ≡ no_vote)
          × ((cast_vote r committed k' s).1.votes ≡ s.votes ++ new_vote r s.next_vote ∷ []))
unfolding cast_vote
insert_only-votes r k' s h = rw (attempt-IsLast r s r k') (unfold Extends in attempt-Extends r s h)
