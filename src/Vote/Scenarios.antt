-- ===== src/Vote/Scenarios.antt =====
-- A small instance with a post and a comment: bob has voted ada's post up, and ada has voted bob's
-- comment down.
use deaddit.Prelude.{◌≡◌, ◌⊎◌, ◌++◌, refl, some, none, true, false, [], ◌∷◌, inl, inr, arith}
use deaddit.Prelude.Int.{pos, negsuc, ◌+ℤ◌, ◌-ℤ◌}
use deaddit.Prelude.Text.{is_word, lower, strip}
use deaddit.Vote.{Store, Vote, post}
use deaddit.Vote.Cast.{
  Request, committed, conflict, cast_vote, returned, success, rejected, direction_switch, own_item,
  find_vote, no_vote, new_vote,
}
use deaddit.Vote.Tally.{IsConsistent, IsTable}
use deaddit.Vote.Consistency.{cast_vote-IsConsistent}
use deaddit.Vote.Recompute.{recompute_scores_and_karma}
use deaddit.Vote.Repair.{recompute-IsConsistent, recompute-same, no_repairs}
use deaddit.Vote.Outcomes.{cast_vote-unchanged, insert_only-votes}

abbrev bob_up : Vote
bob_up = record {
  id = 1;
  voter = some "bob";
  visitor_hash = none;
  post_id = some 7;
  comment_id = none;
  value = pos 1;
  source = "admin";
}

abbrev ada_down : Vote
ada_down = record {
  id = 2;
  voter = some "ada";
  visitor_hash = none;
  post_id = none;
  comment_id = some 7;
  value = negsuc 0;
  source = "simulator";
}

abbrev sample : Store
sample = record {
  posts = record { id = 7; user = "ada"; score = pos 1; vote_count = pos 1 } ∷ [];
  comments = record { id = 7; user = "bob"; score = negsuc 0; vote_count = pos 1 } ∷ [];
  users =
      record { username = "ada"; post_karma = pos 1; comment_karma = pos 0 }
      ∷ record { username = "bob"; post_karma = pos 0; comment_karma = negsuc 0 }
      ∷ [];
  votes = bob_up ∷ ada_down ∷ [];
  next_vote = 3;
  allow_downvotes = some (some " On ");
  events = [];
}

-- The same rows after the counters have drifted.
abbrev drifted : Store
drifted = record sample {
  posts = record { id = 7; user = "ada"; score = pos 5; vote_count = pos 1 } ∷ [];
}

sample-IsTable : IsTable sample.votes sample.next_vote
sample-IsTable = record {
  rows = (
    record { unit = inl refl; one_target = refl },
    (record { unit = inr refl; one_target = refl }, tt),
  );
  keys = λ k. ground arith;
  fresh = (omega arith, (omega arith, tt));
}

sample-IsConsistent : IsConsistent sample
unfolding ◌+ℤ◌
sample-IsConsistent = record {
  posts = (record { score = refl; count = refl }, tt);
  comments = (record { score = refl; count = refl }, tt);
  users = (
    record { post_karma = refl; comment_karma = refl },
    (record { post_karma = refl; comment_karma = refl }, tt),
  );
  table = sample-IsTable;
}

-- Bob changes his mind about the post.
abbrev bob_switches : Request
bob_switches = record {
  voter = some "bob";
  visitor_hash = none;
  target = post;
  target_id = 7;
  value = negsuc 0;
  source = "admin";
  allow_recast = true;
}

-- Ada votes on her own post.
abbrev ada_cheats : Request
ada_cheats = record {
  voter = some "ada";
  visitor_hash = none;
  target = post;
  target_id = 7;
  value = pos 1;
  source = "admin";
  allow_recast = true;
}

-- The simulator votes for bob once more.
abbrev simulated : Request
simulated = record {
  voter = some "bob";
  visitor_hash = none;
  target = post;
  target_id = 7;
  value = negsuc 0;
  source = "simulator";
  allow_recast = false;
}

switch_test :
    (cast_vote bob_switches committed committed sample).0
    ≡ returned (success (negsuc 0) true direction_switch)
unfolding cast_vote is_word lower strip ◌-ℤ◌ ◌+ℤ◌
switch_test = refl

cheat_test :
    (cast_vote ada_cheats committed committed sample).0
    ≡ returned (rejected (own_item post) (pos 1))
unfolding cast_vote
cheat_test = refl

cast_vote-IsConsistent_example :
    IsConsistent (cast_vote bob_switches (conflict sample) committed sample).1
cast_vote-IsConsistent_example =
    cast_vote-IsConsistent bob_switches (conflict sample) committed sample sample-IsConsistent tt
      sample-IsConsistent

recompute-IsConsistent_example : IsConsistent (recompute_scores_and_karma drifted).1
recompute-IsConsistent_example = recompute-IsConsistent drifted sample-IsTable

recompute-same_example : recompute_scores_and_karma sample ≡ (no_repairs, sample)
recompute-same_example = recompute-same sample sample-IsConsistent

cast_vote-unchanged_example : (cast_vote ada_cheats committed committed sample).1 ≡ sample
unfolding cast_vote
cast_vote-unchanged_example = cast_vote-unchanged ada_cheats committed sample refl

insert_only-votes_example :
    ((cast_vote simulated committed committed sample).1.votes ≡ sample.votes)
    ⊎ ((find_vote simulated sample ≡ no_vote)
        × ((cast_vote simulated committed committed sample).1.votes
            ≡ sample.votes ++ new_vote simulated sample.next_vote ∷ []))
insert_only-votes_example = insert_only-votes simulated committed sample refl
