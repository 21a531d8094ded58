-- ===== src/Agent/Similarity.antt =====
-- The duplicate check of deaddit/agents/executor.py: normalized texts compared by their trigrams.
use deaddit.Prelude.{
  ℕ, ◌+◌, ◌*◌, ◌-◌, Bool, true, false, not, ◌&&◌, ◌||◌, List, [], ◌∷◌, leb, ltb, any, length,
  if◌then◌else◌, select,
}
use deaddit.Prelude.Text.{codes_eq, in_range, lower}

abbrev is_alnum : ℕ → Bool
is_alnum c = in_range b'a' b'z' c || in_range b'0' b'9' c

-- The runs of letters and digits, joined by one space: `first` says that no run has begun, `gap`
-- that a run has ended since the last letter.
join_runs : Bool → Bool → List ℕ → List ℕ
join_runs first gap [] = []
join_runs first gap (c ∷ cs) =
    let inside = c ∷ join_runs false false cs in
    let spaced = 32 ∷ c ∷ join_runs false false cs in
    let outside = join_runs first true cs in
    if is_alnum c then (if gap && not first then spaced else inside) else outside

unfoldable pub normalize : List ℕ → List ℕ
unfolding join_runs
normalize text = join_runs true false (lower text)

abbrev insert_text : List ℕ → List (List ℕ) → List (List ℕ)
insert_text t ts = if any (codes_eq t) ts then ts else t ∷ ts

-- The set of the substrings of length three.
unfoldable pub trigrams : List ℕ → List (List ℕ)
trigrams (a ∷ b ∷ c ∷ rest) = insert_text (a ∷ b ∷ c ∷ []) (trigrams (b ∷ c ∷ rest))
trigrams _ = []

abbrev pub common : List (List ℕ) → List (List ℕ) → ℕ
common a b = length (select (λ t. any (codes_eq t) b) a)

-- `_jaccard(a, b) >= 0.85`, that is 17/20: the sizes are far below the point where the rounding of
-- the quotient could reach the threshold from below.
unfoldable pub is_similar : List (List ℕ) → List (List ℕ) → Bool
is_similar [] b = false
is_similar a [] = false
is_similar a b = leb (17 * (length a + length b - common a b)) (20 * common a b)

abbrev dup_min_candidate_len : ℕ
dup_min_candidate_len = 25

-- A comment whose normalized text is short is not checked.
abbrev pub is_short : List ℕ → Bool
is_short candidate = ltb (length candidate) dup_min_candidate_len

-- The loop over the prior texts, which are normalized; an empty one is passed over.
unfoldable pub matches_prior : List ℕ → List (List ℕ) → Bool
unfolding is_similar trigrams
matches_prior candidate priors = any (λ t. is_similar (trigrams candidate) (trigrams t)) priors
