-- ===== src/Vote/Moves.antt =====
-- How a change of deaddit/dynamics/votes.py moves the sum and the number of the votes of every item.
use deaddit.Prelude.{
  ℕ, ◌≤◌, ◌≡◌, refl, ◌∙◌, inl, inr, Bool, true, false, some, List, [], ◌∷◌, All, arith, ◌==◌,
  if◌then◌else◌, Bool-cases, select, count_where, first_where, first_where_unique, In-All,
  In-count_where, select-In, sum_by-append, sum_by-update_one, sum_by-update_same,
  sum_by-delete_one, ==_self,
}
use deaddit.Prelude.Int.{ℤ, pos, negsuc, ◌+ℤ◌, ◌-ℤ◌, int_laws, +ℤ-zero, eq_ℤ}
use deaddit.Vote.{Vote, Store, Target, post, comment, other, is_on}
use deaddit.Vote.Cast.{
  Request, one_vote, Change, delete, add, set_value, is_own_vote, find_vote, one_or_none,
  change_of_vote, change_of_none, write_votes, new_vote, ChangeKind, same_value_noop,
  insert_only_collision, unchanged, post_key, comment_key,
}
use deaddit.Vote.Tally.{score_part, count_part, votes_score, votes_count, IsVoteRow, same_item}

-- The part of a change that falls to the item `j`, where the change is about the item `i`.
abbrev pub share : Target → ℕ → Target → ℕ → ℤ → ℤ
share t i t' j d = if same_item t i t' j then d else pos 0

-- A vote on one item is on no other.
pub is_on_unique :
    (t t' : Target) (i j : ℕ) (v : Vote)
    → IsVoteRow v
    → is_on t i v ≡ true
    → is_on t' j v ≡ same_item t i t' j
is_on_unique post post i j v h e = ground arith
is_on_unique post comment i j v h e = ground arith
is_on_unique comment post i j v h e = ground arith
is_on_unique comment comment i j v h e = ground arith
is_on_unique post (other x) i j v h e = refl
is_on_unique comment (other x) i j v h e = refl
is_on_unique (other x) t' i j v h e = cc

-- The found row is the row of its key.
pub record IsTheRow (r : Request) (votes : List Vote) (v : Vote) : Type 0 where
  pub on : is_on r.target r.target_id v ≡ true
  pub row : IsVoteRow v
  pub first : first_where (λ w. w.id == v.id) votes ≡ some v
  pub one : count_where (λ w. w.id == v.id) votes ≡ 1

select_of_found : (vs : List Vote) {v : Vote} → one_or_none vs ≡ one_vote v → vs ≡ v ∷ []
unfolding one_or_none
select_of_found [] e = cc
select_of_found (x ∷ []) e = ground arith
select_of_found (x ∷ y ∷ rest) e = cc

pub found-IsTheRow :
    (r : Request) (s : Store) (v : Vote)
    → All IsVoteRow s.votes
    → ((k : ℕ) → count_where (λ w. w.id == k) s.votes ≤ 1)
    → find_vote r s ≡ one_vote v
    → IsTheRow r s.votes v
unfolding find_vote
found-IsTheRow r s v rows keys e =
    let m =
      select-In (is_own_vote r) v [] s.votes (select_of_found (select (is_own_vote r) s.votes) e) in
    record {
      on = ground arith;
      row = In-All IsVoteRow v s.votes rows m.1;
      first = first_where_unique (λ w. w.id == v.id) v s.votes (==_self v.id) (keys v.id) m.1;
      one =
          omega (arith, keys v.id, In-count_where (λ w. w.id == v.id) v s.votes (==_self v.id) m.1);
    }

-- What a change does to the votes of every item: the item of the request gets all of it.
pub record Moves (r : Request) (votes : List Vote) (c : Change) : Type 0 where
  pub score :
      (t : Target) (i : ℕ)
      → votes_score t i (write_votes c.write votes)
        ≡ votes_score t i votes +ℤ share r.target r.target_id t i c.delta
  pub count :
      (t : Target) (i : ℕ)
      → votes_count t i (write_votes c.write votes)
        ≡ votes_count t i votes +ℤ share r.target r.target_id t i c.count_delta

-- `is_on` does not read the value.
is_on-set :
    (t : Target) (i : ℕ) (v : Vote) (x : ℤ) → is_on t i (record v { value = x }) ≡ is_on t i v
is_on-set post i v x = refl
is_on-set comment i v x = refl
is_on-set (other a) i v x = refl

split_set :
    (b : Bool) (a x : ℤ)
    → (if b then x else pos 0) ≡ (if b then a else pos 0) +ℤ (if b then x -ℤ a else pos 0)
split_set true a x = omega int_laws
split_set false a x = omega int_laws

-- From a sum with the deleted row to the sum without it.
split_delete :
    (b : Bool) (a m s s' : ℤ)
    → m ≡ pos 0 -ℤ a
    → (if b then a else pos 0) +ℤ s' ≡ s
    → s' ≡ s +ℤ (if b then m else pos 0)
split_delete true a m s s' h e = rw (h, ← e) (omega int_laws)
split_delete false a m s s' h e = rw (← e) (omega int_laws)

module _ (r : Request) (votes : List Vote) (v : Vote) (h : IsTheRow r votes v) where
  is_on-row : (t : Target) (i : ℕ) → is_on t i v ≡ same_item r.target r.target_id t i
  is_on-row t i = is_on_unique r.target t r.target_id i v h.row h.on

  -- `SET value = x` on the found row.
  pub score-set :
      (x : ℤ) (t : Target) (i : ℕ)
      → votes_score t i (write_votes (set_value v.id x) votes)
        ≡ votes_score t i votes +ℤ share r.target r.target_id t i (x -ℤ v.value)
  unfolding write_votes
  score-set x t i =
      sum_by-update_one (score_part t i) (λ w. w.id == v.id) (λ w. record w { value = x })
        (share r.target r.target_id t i (x -ℤ v.value)) v votes
        (rw (is_on-set t i v x, is_on-row t i)
          (split_set (same_item r.target r.target_id t i) v.value x))
        h.first h.one

  pub count-set :
      (x : ℤ) (t : Target) (i : ℕ)
      → votes_count t i (write_votes (set_value v.id x) votes) ≡ votes_count t i votes
  unfolding write_votes
  count-set x t i =
      sum_by-update_same (count_part t i) (λ w. w.id == v.id) (λ w. record w { value = x }) votes
        (λ w _. rw (is_on-set t i w x))

  pub score-delete :
      (t : Target) (i : ℕ)
      → votes_score t i (write_votes (delete v.id) votes)
        ≡ votes_score t i votes +ℤ share r.target r.target_id t i (pos 0 -ℤ v.value)
  unfolding write_votes
  score-delete t i = split_delete (same_item r.target r.target_id t i) v.value _ _ _ refl (
      rw (is_on-row t i) at
        (sum_by-delete_one (score_part t i) (λ w. w.id == v.id) v votes h.first h.one))

  pub count-delete :
      (t : Target) (i : ℕ)
      → votes_count t i (write_votes (delete v.id) votes)
        ≡ votes_count t i votes +ℤ share r.target r.target_id t i (negsuc 0)
  unfolding write_votes
  count-delete t i =
      split_delete (same_item r.target r.target_id t i) (pos 1) (negsuc 0) _ _ (omega int_laws) (
        rw (is_on-row t i) at
          (sum_by-delete_one (count_part t i) (λ w. w.id == v.id) v votes h.first h.one))

-- The target is a key of `_MODELS`.
abbrev pub is_known : Target → Bool
is_known (other t) = false
is_known _ = true

is_on-new :
    (a t : Target) (j i : ℕ) (v : Vote)
    → is_known a ≡ true
    → v.post_id ≡ post_key a j
    → v.comment_id ≡ comment_key a j
    → is_on t i v ≡ same_item a j t i
is_on-new post post j i v k p c = rw p
is_on-new post comment j i v k p c = rw c
is_on-new post (other x) j i v k p c = refl
is_on-new comment post j i v k p c = rw p
is_on-new comment comment j i v k p c = rw c
is_on-new comment (other x) j i v k p c = refl
is_on-new (other x) t j i v k p c = cc

module _ (r : Request) (id : ℕ) (votes : List Vote) (known : is_known r.target ≡ true) where
  is_on-added :
      (t : Target) (i : ℕ) → is_on t i (new_vote r id) ≡ same_item r.target r.target_id t i
  is_on-added t i = is_on-new r.target t r.target_id i (new_vote r id) known refl refl

  pub score-add :
      (t : Target) (i : ℕ)
      → votes_score t i (write_votes (add (new_vote r id)) votes)
        ≡ votes_score t i votes +ℤ share r.target r.target_id t i r.value
  unfolding write_votes
  score-add t i =
      rw (sum_by-append (score_part t i) votes (new_vote r id ∷ []), is_on-added t i, +ℤ-zero)

  pub count-add :
      (t : Target) (i : ℕ)
      → votes_count t i (write_votes (add (new_vote r id)) votes)
        ≡ votes_count t i votes +ℤ share r.target r.target_id t i (pos 1)
  unfolding write_votes
  count-add t i =
      rw (sum_by-append (count_part t i) votes (new_vote r id ∷ []), is_on-added t i, +ℤ-zero)

share_none : (b : Bool) (s : ℤ) → s ≡ s +ℤ (if b then pos 0 else pos 0)
share_none true s = omega int_laws
share_none false s = omega int_laws

-- A change that writes nothing moves nothing.
unchanged-Moves : (r : Request) (votes : List Vote) (k : ChangeKind) → Moves r votes (unchanged k)
unfolding write_votes
unchanged-Moves r votes k = record {
  score = λ t i. share_none (same_item r.target r.target_id t i) (votes_score t i votes);
  count = λ t i. share_none (same_item r.target r.target_id t i) (votes_count t i votes);
}

pub change_of_none-Moves :
    (r : Request) (id : ℕ) (votes : List Vote)
    → is_known r.target ≡ true
    → Moves r votes (change_of_none r id)
unfolding change_of_none
change_of_none-Moves r id votes known = elim (Bool-cases (eq_ℤ r.value (pos 0))) [
  | inl e ↦ rw e (unchanged-Moves r votes same_value_noop)
  | inr e ↦ rw e (record { score = score-add r id votes known; count = count-add r id votes known })
]

pub change_of_vote-Moves :
    (r : Request) (votes : List Vote) (v : Vote)
    → IsTheRow r votes v
    → Moves r votes (change_of_vote r v)
unfolding change_of_vote
change_of_vote-Moves r votes v h = elim (Bool-cases (eq_ℤ r.value (pos 0))) [
  | inl e ↦ elim (Bool-cases r.allow_recast) [
    | inl a ↦
        simp (e, a) (record { score = score-delete r votes v h; count = count-delete r votes v h })
    | inr a ↦ simp (e, a) (unchanged-Moves r votes same_value_noop)
  ]
  | inr e ↦ elim (Bool-cases r.allow_recast) [
    | inl a ↦ elim (Bool-cases (eq_ℤ v.value r.value)) [
      | inl q ↦ simp (e, a, q) (unchanged-Moves r votes same_value_noop)
      | inr q ↦
          simp (e, a, q)
            (record {
              score = score-set r votes v h r.value;
              count = λ t i.
                  count-set r votes v h r.value t i
                  ∙ share_none (same_item r.target r.target_id t i) (votes_count t i votes);
            })
    ]
    | inr a ↦ simp (e, a) (unchanged-Moves r votes insert_only_collision)
  ]
]
