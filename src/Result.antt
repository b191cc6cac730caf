-- ===== src/Result.antt =====
-- internal/core/result: a batch of results as mergeResults prepares it, the merge with the file that
-- exists, and the writer. A result is its key, its score and its row, which ToRecord writes; Score() is a
-- float64 that is not negative, and stands as its bit pattern, which orders such floats.
pub mod Best
pub mod Merge
pub mod Writer
mod Tests
use bgscan.Base.{ℕ, ◌≡◌, Bool, true, false, ◌&&◌, ◌||◌, List, [], ◌∷◌, ltb, ◌==◌, if◌then◌else◌}
use bgscan.Config.Texts.{Text, same_text}

pub record ScanResult : Type 0 where
  pub key : Text
  pub score : ℕ
  pub row : List Text

-- strings.Compare(a, b) <= 0.
abbrev pub text_le : Text → Text → Bool
text_le [] t = true
text_le (c ∷ s) [] = false
text_le (c ∷ s) (d ∷ t) = ltb c d || (c == d && text_le s t)

-- Whether the comparison that SortFunc is given is not positive.
unfoldable pub ordered : ScanResult → ScanResult → Bool
ordered a b =
    if ltb b.score a.score then true else if ltb a.score b.score then false else text_le a.key b.key

-- slices.SortFunc: the documented result, a permutation in the order of the comparison.
unfoldable pub insert : ScanResult → List ScanResult → List ScanResult
insert r [] = r ∷ []
insert r (x ∷ xs) = let rest = insert r xs in if ordered r x then r ∷ x ∷ xs else x ∷ rest

unfoldable pub sort_results : List ScanResult → List ScanResult
unfolding insert
sort_results [] = []
sort_results (r ∷ rs) = insert r (sort_results rs)

abbrev pub has_key : Text → List Text → Bool
has_key k [] = false
has_key k (j ∷ js) = same_text k j || has_key k js

-- The loop over the sorted results, with the map `seen`.
unfoldable pub dedup : List Text → List ScanResult → List ScanResult
dedup seen [] = []
dedup seen (r ∷ rs) =
    let skip = dedup seen rs in
    let more = dedup (r.key ∷ seen) rs in if has_key r.key seen then skip else r ∷ more

unfoldable pub prepared : List ScanResult → List ScanResult
unfolding sort_results dedup
prepared results = dedup [] (sort_results results)
