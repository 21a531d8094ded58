-- ===== src/Vote/Table.antt =====
-- The Vote table of deaddit/models.py keeps its constraints under the writes of `cast_vote`.
use deaddit.Prelude.{
  ℕ, ◌+◌, ◌≤◌, ◌<◌, ◌≡◌, refl, ◌⊎◌, inl, inr, true, false, List, [], ◌∷◌, ◌++◌, All, All-imp,
  All-append, arith, ◌==◌, Bool-cases, is_some, not, count_where, count_where-append,
  count_where-update_where, count_where-delete_where, update_where-All, delete_where-All,
}
use deaddit.Prelude.Int.{ℤ, pos, negsuc, eq_ℤ, ◌-ℤ◌}
use deaddit.Vote.{Vote, Target, post, comment, other}
use deaddit.Vote.Cast.{
  Request, Write, keep, delete, add, set_value, write_votes, next_key, change_of_vote,
  change_of_none, post_key, comment_key,
}
use deaddit.Vote.Tally.{IsVoteRow, IsTable}
use deaddit.Vote.Moves.{is_known}

abbrev pub IsUnit : ℤ → Type 0
IsUnit x = (x ≡ pos 1) ⊎ (x ≡ negsuc 0)

abbrev pub IsGoodWrite : ℕ → Write → Type 0
IsGoodWrite n (add v) = (v.id ≡ n) × IsVoteRow v
IsGoodWrite n (set_value i x) = IsUnit x
IsGoodWrite n _ = Unit

none_with_next :
    (n : ℕ) (votes : List Vote) → All (λ v. v.id < n) votes → count_where (λ v. v.id == n) votes ≡ 0
none_with_next n [] h = refl
none_with_next n (v ∷ vs) h = ground (arith, none_with_next n vs h.1)

keys-add :
    (v : Vote) (votes : List Vote) (k : ℕ)
    → count_where (λ w. w.id == k) votes ≤ 1
    → (v.id ≡ k → count_where (λ w. w.id == k) votes ≡ 0)
    → count_where (λ w. w.id == k) (votes ++ v ∷ []) ≤ 1
keys-add v votes k h z = rw (count_where-append (λ w. w.id == k) votes (v ∷ [])) (ground arith)

pub write-IsTable :
    (w : Write) (votes : List Vote) (n : ℕ)
    → IsGoodWrite n w
    → IsTable votes n
    → IsTable (write_votes w votes) (next_key w n)
unfolding write_votes next_key
write-IsTable keep votes n g h = h
write-IsTable (delete i) votes n g h = record {
  rows = delete_where-All IsVoteRow (λ v. v.id == i) votes h.rows;
  keys = λ k.
      omega (arith, h.keys k, count_where-delete_where (λ v. v.id == i) (λ v. v.id == k) votes);
  fresh = delete_where-All (λ v. v.id < n) (λ v. v.id == i) votes h.fresh;
}
write-IsTable (add v) votes n g h = record {
  rows = All-append IsVoteRow votes (v ∷ []) h.rows (g.1, tt);
  keys = λ k. keys-add v votes k (h.keys k) (λ e. rw (← e, g.0) (none_with_next n votes h.fresh));
  fresh =
      All-append (λ w. w.id < n + 1) votes (v ∷ [])
        (All-imp (λ w. w.id < n) (λ w. w.id < n + 1) votes (λ w l. omega arith) h.fresh)
        (omega (arith, g.0), tt);
}
write-IsTable (set_value i x) votes n g h = record {
  rows =
      update_where-All IsVoteRow IsVoteRow (λ v. v.id == i) (λ v. record v { value = x }) votes
        (λ v e r. record { unit = g; one_target = r.one_target }) (λ v e r. r) h.rows;
  keys = λ k.
      rw
        (count_where-update_where (λ v. v.id == i) (λ v. v.id == k) (λ v. record v { value = x })
          votes (λ v e. refl))
        (h.keys k);
  fresh =
      update_where-All (λ v. v.id < n) (λ v. v.id < n) (λ v. v.id == i)
        (λ v. record v { value = x }) votes (λ v e l. l) (λ v e l. l) h.fresh;
}

abbrev pub IsVoteValue : ℤ → Type 0
IsVoteValue x = IsUnit x ⊎ (x ≡ pos 0)

nonzero-IsUnit : (x : ℤ) → IsVoteValue x → eq_ℤ x (pos 0) ≡ false → IsUnit x
nonzero-IsUnit x (inl u) e = u
nonzero-IsUnit x (inr z) e = ground arith

one_target_of :
    (t : Target) (i : ℕ)
    → is_known t ≡ true
    → is_some (post_key t i) ≡ not (is_some (comment_key t i))
one_target_of post i k = refl
one_target_of comment i k = refl
one_target_of (other t) i k = cc

pub change_of_vote-IsGoodWrite :
    (r : Request) (v : Vote) (n : ℕ)
    → IsVoteValue r.value
    → IsGoodWrite n (change_of_vote r v).write
unfolding change_of_vote
change_of_vote-IsGoodWrite r v n h = elim (Bool-cases (eq_ℤ r.value (pos 0))) [
  | inl e ↦ elim (Bool-cases r.allow_recast) [ inl a ↦ simp (e, a) tt | inr a ↦ simp (e, a) tt ]
  | inr e ↦ elim (Bool-cases r.allow_recast) [
    | inl a ↦ elim (Bool-cases (eq_ℤ v.value r.value)) [
      | inl q ↦ simp (e, a, q) tt
      | inr q ↦ simp (e, a, q) (nonzero-IsUnit r.value h e)
    ]
    | inr a ↦ simp (e, a) tt
  ]
]

pub change_of_none-IsGoodWrite :
    (r : Request) (n : ℕ)
    → is_known r.target ≡ true
    → IsVoteValue r.value
    → IsGoodWrite n (change_of_none r n).write
unfolding change_of_none
change_of_none-IsGoodWrite r n known h = elim (Bool-cases (eq_ℤ r.value (pos 0))) [
  | inl e ↦ simp e tt
  | inr e ↦ simp e (
    refl,
    record {
      unit = nonzero-IsUnit r.value h e;
      one_target = one_target_of r.target r.target_id known;
    },
  )
]

-- Only a change that leaves the number of the votes alone can leave their sum alone.
pub change_of_vote-quiet :
    (r : Request) (v : Vote)
    → IsUnit v.value
    → eq_ℤ (change_of_vote r v).delta (pos 0) ≡ true
    → (change_of_vote r v).count_delta ≡ pos 0
unfolding change_of_vote ◌-ℤ◌
change_of_vote-quiet r v u h = ground arith

pub change_of_none-quiet :
    (r : Request) (n : ℕ)
    → eq_ℤ (change_of_none r n).delta (pos 0) ≡ true
    → (change_of_none r n).count_delta ≡ pos 0
unfolding change_of_none
change_of_none-quiet r n h = ground arith
