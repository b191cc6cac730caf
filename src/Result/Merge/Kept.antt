-- ===== src/Result/Merge/Kept.antt =====
-- internal/core/result: the results whose rows are read back as they were, through a merge.
use bgscan.Base.{ℕ, ◌≡◌, refl, ap, Bool, List, [], ◌∷◌, ◌++◌, some, ltb, keep, All, if-elim}
use bgscan.Result.{ScanResult, prepared, sort_results}
use bgscan.Result.Best.{All-dedup, All-sort_results}
use bgscan.Result.Merge.{Parser, read_csv}
use bgscan.Result.Merge.Spec.{take_above, drop_above, merge_by_score}

-- The row of a result is read back as this result.
abbrev pub IsKept : Parser → ScanResult → Type 0
IsKept parser r = parser r.row ≡ some r

pub read_csv-kept :
    (parser : Parser) (rows : List ScanResult)
    → All (IsKept parser) rows
    → read_csv parser rows ≡ rows
unfolding read_csv
read_csv-kept parser [] a = refl
read_csv-kept parser (r ∷ rows) a = rw a.0 (ap (λ x. r ∷ x) (read_csv-kept parser rows a.1))

pub All-prepared : (P : ScanResult → Type 0) (rs : List ScanResult) → All P rs → All P (prepared rs)
unfolding prepared
All-prepared P rs a = All-dedup P [] (sort_results rs) (All-sort_results P rs a)

All-append :
    (P : ScanResult → Type 0) (xs ys : List ScanResult) → All P xs → All P ys → All P (xs ++ ys)
All-append P [] ys a b = b
All-append P (x ∷ xs) ys a b = (a.0, All-append P xs ys a.1 b)

All-take_above :
    (P : ScanResult → Type 0) (s : ℕ) (xs : List ScanResult) → All P xs → All P (take_above s xs)
All-take_above P s [] a = tt
All-take_above P s (x ∷ xs) a =
    if-elim (All P) (ltb s x.score) (λ _. (a.0, All-take_above P s xs a.1)) (λ _. tt)

All-drop_above :
    (P : ScanResult → Type 0) (s : ℕ) (xs : List ScanResult) → All P xs → All P (drop_above s xs)
All-drop_above P s [] a = tt
All-drop_above P s (x ∷ xs) a =
    if-elim (All P) (ltb s x.score) (λ _. All-drop_above P s xs a.1) (λ _. a)

pub All-merge :
    (P : ScanResult → Type 0) (xs ys : List ScanResult)
    → All P xs
    → All P ys
    → All P (merge_by_score xs ys)
All-merge P xs [] a b = a
All-merge P xs (y ∷ ys) a b =
    All-append P (take_above y.score xs) _ (All-take_above P y.score xs a)
      (b.0, All-merge P (drop_above y.score xs) ys (All-drop_above P y.score xs a) b.1)

pub All-concat :
    (P : ScanResult → Type 0) (xs ys : List ScanResult) → All P (xs ++ ys) → All P xs × All P ys
All-concat P [] ys a = (tt, a)
All-concat P (x ∷ xs) ys a = let (b, c) = All-concat P xs ys a.1 in ((a.0, b), c)

pub All-keep :
    (P : ScanResult → Type 0) (p : ScanResult → Bool) (xs : List ScanResult)
    → All P xs
    → All P (keep p xs)
All-keep P p [] a = tt
All-keep P p (x ∷ xs) a =
    if-elim (All P) (p x) (λ _. (a.0, All-keep P p xs a.1)) (λ _. All-keep P p xs a.1)
