-- ===== src/Content/Title.antt =====
-- `process_post_title` of deaddit/utils.py, over the code points of a title.
use deaddit.Prelude.{
  ℕ, zero, suc, ◌+◌, ◌-◌, Bool, true, false, ◌&&◌, ◌||◌, List, [], ◌∷◌, ◌++◌, ◌==◌, if◌then◌else◌,
}
use deaddit.Prelude.Text.{codes, in_range}

abbrev pub starts_with : List ℕ → List ℕ → Bool
starts_with [] cs = true
starts_with (p ∷ ps) [] = false
starts_with (p ∷ ps) (c ∷ cs) = (c == p) && starts_with ps cs

-- How long the tag is that the text starts with.
abbrev pub tag_length : List ℕ → ℕ
tag_length cs =
    if starts_with (codes "<br>") cs || starts_with (codes "</p>") cs
    then 4
    else if starts_with (codes "<p>") cs
    then 3
    else 0

-- `n` code points of a tag are left to drop.
unfoldable pub remove_tags : ℕ → List ℕ → List ℕ
remove_tags n [] = []
remove_tags (suc n) (c ∷ cs) = remove_tags n cs
remove_tags zero (c ∷ cs) =
    let k : ℕ = tag_length (c ∷ cs) in
    let dropped = remove_tags (k - 1) cs in
    let rest = remove_tags zero cs in if k == 0 then c ∷ rest else dropped

-- `re.IGNORECASE` folds the two dotted and dotless letters outside ASCII onto `i` as well.
abbrev pub fold_case : ℕ → ℕ
fold_case c = if in_range b'A' b'Z' c then c + 32 else if c == 0x130 || c == 0x131 then b'i' else c

abbrev pub starts_folded : List ℕ → List ℕ → Bool
starts_folded [] cs = true
starts_folded (p ∷ ps) [] = false
starts_folded (p ∷ ps) (c ∷ cs) = (fold_case c == p) && starts_folded ps cs

unfoldable pub rename_reddit : ℕ → List ℕ → List ℕ
rename_reddit n [] = []
rename_reddit (suc n) (c ∷ cs) = rename_reddit n cs
rename_reddit zero (c ∷ cs) =
    let dropped = rename_reddit 5 cs in
    let rest = rename_reddit zero cs in
    if starts_folded (codes "reddit") (c ∷ cs) then codes "deaddit" ++ dropped else c ∷ rest

unfoldable pub process_post_title : List ℕ → List ℕ
unfolding remove_tags rename_reddit
process_post_title title = rename_reddit zero (remove_tags zero title)
