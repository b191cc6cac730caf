-- ===== src/Result/Merge/Spec.antt =====
-- The reference merge of two lists by score, and what it keeps of them.
use bgscan.Base.{
  ℕ, ◌≤◌, ◌≡◌, refl, ap, ◌∙◌, true, false, List, [], ◌∷◌, ◌++◌, ltb, if◌then◌else◌, arith, All,
  Bool-cases, inl, inr, if-elim,
}
use bgscan.Result.{ScanResult}
use bgscan.Result.Best.{Descending, All-weaken}

abbrev pub take_above : ℕ → List ScanResult → List ScanResult
take_above s [] = []
take_above s (x ∷ xs) = if ltb s x.score then x ∷ take_above s xs else []

abbrev pub drop_above : ℕ → List ScanResult → List ScanResult
drop_above s [] = []
drop_above s (x ∷ xs) = if ltb s x.score then drop_above s xs else x ∷ xs

-- The results of the first list come before those of the second that have no higher score.
abbrev pub merge_by_score : List ScanResult → List ScanResult → List ScanResult
merge_by_score xs [] = xs
merge_by_score xs (y ∷ ys) = take_above y.score xs ++ y ∷ merge_by_score (drop_above y.score xs) ys

pub take-drop_above : (s : ℕ) (xs : List ScanResult) → take_above s xs ++ drop_above s xs ≡ xs
take-drop_above s [] = refl
take-drop_above s (x ∷ xs) = elim (Bool-cases (ltb s x.score)) [
  | inl e ↦ rw e (ap (List.◌∷◌ x) (take-drop_above s xs))
  | inr e ↦ rw e refl
]

pub take_above-none :
    (s : ℕ) (xs : List ScanResult) → All (λ x. x.score ≤ s) xs → take_above s xs ≡ []
take_above-none s [] a = refl
take_above-none s (x ∷ xs) a = let e : ltb s x.score ≡ false = ground arith in rw e refl

pub drop_above-All :
    (s : ℕ) (xs : List ScanResult) → All (λ x. x.score ≤ s) xs → drop_above s xs ≡ xs
drop_above-All s [] a = refl
drop_above-All s (x ∷ xs) a = let e : ltb s x.score ≡ false = ground arith in rw e refl

-- What lies above a score may be put first.
take_above-split :
    (s t : ℕ) (xs : List ScanResult) (ys : List ScanResult)
    → t ≤ s
    → take_above s xs ++ (take_above t (drop_above s xs) ++ ys) ≡ take_above t xs ++ ys
take_above-split s t [] ys h = refl
take_above-split s t (x ∷ xs) ys h = elim (Bool-cases (ltb s x.score)) [
  | inl e ↦
      let f : ltb t x.score ≡ true = ground arith in
      rw (e, f) (ap (List.◌∷◌ x) (take_above-split s t xs ys h))
  | inr e ↦ rw e refl
]

drop_above-twice :
    (s t : ℕ) (xs : List ScanResult) → t ≤ s → drop_above t (drop_above s xs) ≡ drop_above t xs
drop_above-twice s t [] h = refl
drop_above-twice s t (x ∷ xs) h = elim (Bool-cases (ltb s x.score)) [
  | inl e ↦ let f : ltb t x.score ≡ true = ground arith in rw (e, f) (drop_above-twice s t xs h)
  | inr e ↦ rw e refl
]

pub merge-split :
    (s : ℕ) (xs ys : List ScanResult)
    → All (λ y. y.score ≤ s) ys
    → take_above s xs ++ merge_by_score (drop_above s xs) ys ≡ merge_by_score xs ys
merge-split s xs [] a = take-drop_above s xs
merge-split s xs (y ∷ ys) a =
    take_above-split s y.score xs (y ∷ merge_by_score (drop_above y.score (drop_above s xs)) ys) a.0
    ∙ ap (λ (zs : List ScanResult). take_above y.score xs ++ y ∷ merge_by_score zs ys)
        (drop_above-twice s y.score xs a.0)

-- Bounds.
All-append :
    (P : ScanResult → Type 0) (xs ys : List ScanResult) → All P xs → All P ys → All P (xs ++ ys)
All-append P [] ys a b = b
All-append P (x ∷ xs) ys a b = (a.0, All-append P xs ys a.1 b)

All-take_above :
    (P : ScanResult → Type 0) (s : ℕ) (xs : List ScanResult) → All P xs → All P (take_above s xs)
All-take_above P s [] a = tt
All-take_above P s (x ∷ xs) a =
    if-elim (All P) (ltb s x.score) (λ _. (a.0, All-take_above P s xs a.1)) (λ _. tt)

All-drop_above :
    (P : ScanResult → Type 0) (s : ℕ) (xs : List ScanResult) → All P xs → All P (drop_above s xs)
All-drop_above P s [] a = tt
All-drop_above P s (x ∷ xs) a =
    if-elim (All P) (ltb s x.score) (λ _. All-drop_above P s xs a.1) (λ _. a)

All-merge :
    (P : ScanResult → Type 0) (xs ys : List ScanResult)
    → All P xs
    → All P ys
    → All P (merge_by_score xs ys)
All-merge P xs [] a b = a
All-merge P xs (y ∷ ys) a b =
    All-append P (take_above y.score xs) (y ∷ merge_by_score (drop_above y.score xs) ys)
      (All-take_above P y.score xs a)
      (b.0, All-merge P (drop_above y.score xs) ys (All-drop_above P y.score xs a) b.1)

drop_above-bound :
    (s : ℕ) (xs : List ScanResult) → Descending xs → All (λ x. x.score ≤ s) (drop_above s xs)
drop_above-bound s [] d = tt
drop_above-bound s (x ∷ xs) d =
    if-elim (All (λ x. x.score ≤ s)) (ltb s x.score) (λ _. drop_above-bound s xs d.1)
      (λ e. let low : x.score ≤ s = ground arith in (low, All-weaken x.score s xs low d.0))

pub drop_above-Descending :
    (s : ℕ) (xs : List ScanResult) → Descending xs → Descending (drop_above s xs)
drop_above-Descending s [] d = tt
drop_above-Descending s (x ∷ xs) d =
    if-elim Descending (ltb s x.score) (λ _. drop_above-Descending s xs d.1) (λ _. d)

-- Above a score s the head of a list keeps its order when what follows is at most s.
take_above-Descending :
    (s : ℕ) (xs ys : List ScanResult)
    → Descending xs
    → Descending ys
    → All (λ y. y.score ≤ s) ys
    → Descending (take_above s xs ++ ys)
take_above-Descending s [] ys d e a = e
take_above-Descending s (x ∷ xs) ys d e a =
    if-elim (λ (zs : List ScanResult). Descending (zs ++ ys)) (ltb s x.score)
      (λ h.
        let above : s ≤ x.score = ground arith in
        (
          All-append _ (take_above s xs) ys (All-take_above _ s xs d.0)
              (All-weaken s x.score ys above a),
          take_above-Descending s xs ys d.1 e a,
        ))
      (λ _. e)

pub merge-Descending :
    (xs ys : List ScanResult) → Descending xs → Descending ys → Descending (merge_by_score xs ys)
merge-Descending xs [] d e = d
merge-Descending xs (y ∷ ys) d e =
    let below = drop_above-bound y.score xs d in
    let rest = drop_above y.score xs in
    let bound = All-merge (λ x. x.score ≤ y.score) rest ys below e.0 in
    take_above-Descending y.score xs (y ∷ merge_by_score rest ys) d
      (bound, merge-Descending rest ys (drop_above-Descending y.score xs d) e.1)
      (omega arith, bound)
