-- ===== src/Thread/Scenarios.antt =====
-- Ada has answered bob, who had answered her.
use deaddit.Prelude.{◌≡◌, ◌≤◌, refl, ◌+◌, none, some, List, [], ◌∷◌, ◌++◌, All, length}
use deaddit.Prelude.Int.{pos}
use deaddit.Thread.{Comment}
use deaddit.Thread.Chain.{
  alternating_tail_length, chain, exchange_tail_for_reply, exchange_tail-enough,
}
use deaddit.Thread.Cap.{Config, exchange_cap, exchange_cap-bounds}
use deaddit.Thread.Reply.{Post}
use deaddit.Thread.Notify.{
  Account, emit, ends_exchange, is_human, reply_recipient, notify_comment_created, row, mention,
  mentioned_usernames,
}
use deaddit.Thread.Told.{IsForOther, notify_comment_created-IsForOther, emit-emit}

abbrev top : Comment
top = record { id = 1; post_id = 9; parent_id = none; user = "ada"; content = "first" }

abbrev second : Comment
second = record { id = 2; post_id = 9; parent_id = some 1; user = "bob"; content = "second" }

abbrev third : Comment
third = record {
  id = 3;
  post_id = 9;
  parent_id = some 2;
  user = "ada";
  content = "and @cyd, @cyd?";
}

abbrev two_comments : List Comment
two_comments = top ∷ second ∷ []

abbrev settings : Config
settings = record {
  cap_min = "2";
  cap_max = "3";
  int = λ text. some (pos 3);
  crc32 = λ post pair. length pair;
}

abbrev accounts : List Account
accounts =
    record { username = "ada"; password_hash = none }
    ∷ record { username = "bob"; password_hash = none }
    ∷ record { username = "cyd"; password_hash = some "hash" }
    ∷ []

abbrev posts : List Post
posts = record { id = 9; user = "bob"; comment_cap = some 20 } ∷ []

tail_test : exchange_tail_for_reply two_comments (some 2) "ada" ≡ 3
unfolding exchange_tail_for_reply
tail_test = refl

mention_test : mentioned_usernames accounts third.content ≡ "cyd" ∷ []
unfolding mentioned_usernames
mention_test = refl

exchange_tail-enough_example :
    exchange_tail_for_reply two_comments (some 2) "ada"
    ≡ alternating_tail_length ("ada" ∷ chain (length two_comments + 5) two_comments [] (some 2))
exchange_tail-enough_example = exchange_tail-enough two_comments (some 2) "ada" 5

exchange_cap-bounds_example :
    (1 ≤ exchange_cap settings 9 "ada" "bob")
    × (exchange_cap settings 9 "ada" "bob" ≤ 10)
    × (exchange_cap settings 9 "ada" "bob" ≡ exchange_cap settings 9 "bob" "ada")
exchange_cap-bounds_example = exchange_cap-bounds settings 9 "ada" "bob"

-- Here the exchange is over, so that bob is not told.
withheld :
    reply_recipient settings accounts posts (two_comments ++ third ∷ []) third (some 2) ≡ none
unfolding reply_recipient ends_exchange exchange_tail_for_reply exchange_cap is_human
withheld = refl

notify_comment_created-IsForOther_example :
    All IsForOther
      (notify_comment_created settings accounts posts (two_comments ++ third ∷ []) third 5000 [])
notify_comment_created-IsForOther_example =
    notify_comment_created-IsForOther settings accounts posts (two_comments ++ third ∷ []) third
      5000 [] tt

emit-emit_example :
    emit accounts (row third 5000 mention "cyd") (emit accounts (row third 5000 mention "cyd") [])
    ≡ emit accounts (row third 5000 mention "cyd") []
emit-emit_example = emit-emit accounts (row third 5000 mention "cyd") [] refl
