-- ===== src/Result/Merge/Keys.antt =====
-- How often a key occurs in a list of results, and what a merge and a filter keep of it.
use bgscan.Base.{
  ℕ, suc, ◌+◌, ◌≤◌, ◌≡◌, refl, sym, ap, ◌∙◌, Bool, List, [], ◌∷◌, ◌++◌, Option, none, some,
  if◌then◌else◌, arith, keep, Bool-cases, inl, inr, if-elim,
}
use bgscan.Config.Texts.{Text, same_text}
use bgscan.Result.{ScanResult}
use bgscan.Result.Best.{score_of, UniqueKeys, same_text_refl, same_text-eq}
use bgscan.Result.Merge.Spec.{take_above, drop_above, merge_by_score, take-drop_above}

abbrev pub count : Text → List ScanResult → ℕ
count k [] = 0
count k (r ∷ rs) = if same_text k r.key then suc (count k rs) else count k rs

count-append : (k : Text) (xs ys : List ScanResult) → count k (xs ++ ys) ≡ count k xs + count k ys
count-append k [] ys = omega arith
count-append k (x ∷ xs) ys = ground (arith, count-append k xs ys)

count-split :
    (k : Text) (s : ℕ) (xs : List ScanResult)
    → count k (take_above s xs) + count k (drop_above s xs) ≡ count k xs
count-split k s xs =
    sym (count-append k (take_above s xs) (drop_above s xs)) ∙ ap (count k) (take-drop_above s xs)

pub count-merge :
    (k : Text) (xs ys : List ScanResult) → count k (merge_by_score xs ys) ≡ count k xs + count k ys
count-merge k xs [] = omega arith
count-merge k xs (y ∷ ys) =
    let rest = drop_above y.score xs in
    ground (
      arith,
      count-append k (take_above y.score xs) (y ∷ merge_by_score rest ys),
      count-merge k rest ys,
      count-split k y.score xs,
    )

pub count-keep :
    (k : Text) (p : ScanResult → Bool) (xs : List ScanResult) → count k (keep p xs) ≤ count k xs
count-keep k p [] = omega arith
count-keep k p (x ∷ xs) = ground (arith, count-keep k p xs)

pub count-none : (k : Text) (xs : List ScanResult) → score_of k xs ≡ none → count k xs ≡ 0
count-none k [] h = refl
count-none k (x ∷ xs) h = elim (Bool-cases (same_text k x.key)) [
  | inl e ↦ cc (rw e at h)
  | inr e ↦ rw e (count-none k xs (rw e at h))
]

pub none-count : (k : Text) (xs : List ScanResult) → count k xs ≡ 0 → score_of k xs ≡ none
none-count k [] h = refl
none-count k (x ∷ xs) h = elim (Bool-cases (same_text k x.key)) [
  | inl e ↦ absurd (omega (arith, rw e at h))
  | inr e ↦ rw e (none-count k xs (rw e at h))
]

pub UniqueKeys-count : (k : Text) (xs : List ScanResult) → UniqueKeys xs → count k xs ≤ 1
UniqueKeys-count k [] u = omega arith
UniqueKeys-count k (x ∷ xs) u = elim (Bool-cases (same_text k x.key)) [
  | inl e ↦
      let others : score_of k xs ≡ none = ap (λ j. score_of j xs) (same_text-eq k x.key e) ∙ u.0 in
      rw e (omega (arith, count-none k xs others))
  | inr e ↦ rw e (UniqueKeys-count k xs u.1)
]

pub count-UniqueKeys : (xs : List ScanResult) → ((k : Text) → count k xs ≤ 1) → UniqueKeys xs
count-UniqueKeys [] h = tt
count-UniqueKeys (x ∷ xs) h =
    let itself = same_text_refl x.key in
    let one : suc (count x.key xs) ≤ 1 = rw itself at (h x.key) in
    (
      none-count x.key xs (omega (arith, one)),
      count-UniqueKeys xs (λ k.
          if-elim (λ n. n ≤ 1 → count k xs ≤ 1) (same_text k x.key) (λ _ l. omega arith) (λ _ l. l)
            (h k)),
    )

abbrev or_else : Option ℕ → Option ℕ → Option ℕ
or_else none o = o
or_else (some s) o = some s

score_of-append :
    (k : Text) (xs ys : List ScanResult)
    → score_of k (xs ++ ys) ≡ or_else (score_of k xs) (score_of k ys)
score_of-append k [] ys = refl
score_of-append k (x ∷ xs) ys = elim (Bool-cases (same_text k x.key)) [
  | inl e ↦ rw e refl
  | inr e ↦ rw e (score_of-append k xs ys)
]

score_of-split :
    (k : Text) (s : ℕ) (xs : List ScanResult)
    → or_else (score_of k (take_above s xs)) (score_of k (drop_above s xs)) ≡ score_of k xs
score_of-split k s xs =
    sym (score_of-append k (take_above s xs) (drop_above s xs))
    ∙ ap (score_of k) (take-drop_above s xs)

-- A key that only one of the lists has keeps its score.
pub score_of-merge_left :
    (k : Text) (xs ys : List ScanResult)
    → score_of k ys ≡ none
    → score_of k (merge_by_score xs ys) ≡ score_of k xs
score_of-merge_left k xs [] h = refl
score_of-merge_left k xs (y ∷ ys) h =
    let rest = drop_above y.score xs in
    elim (Bool-cases (same_text k y.key)) [
      | inl e ↦ cc (rw e at h)
      | inr e ↦
          let head : score_of k (y ∷ merge_by_score rest ys) ≡ score_of k rest =
            rw e (score_of-merge_left k rest ys (rw e at h)) in
          score_of-append k (take_above y.score xs) (y ∷ merge_by_score rest ys)
          ∙ ap (or_else (score_of k (take_above y.score xs))) head
          ∙ score_of-split k y.score xs
    ]

pub score_of-merge_right :
    (k : Text) (xs ys : List ScanResult)
    → score_of k xs ≡ none
    → score_of k (merge_by_score xs ys) ≡ score_of k ys
score_of-merge_right k xs [] h = h
score_of-merge_right k xs (y ∷ ys) h =
    let rest = drop_above y.score xs in
    let zero_left = count-none k xs h in
    let first : score_of k (take_above y.score xs) ≡ none =
      none-count k _ (omega (arith, count-split k y.score xs)) in
    let second : score_of k rest ≡ none =
      none-count k rest (omega (arith, count-split k y.score xs)) in
    score_of-append k (take_above y.score xs) (y ∷ merge_by_score rest ys)
    ∙ ap (λ o. or_else o (score_of k (y ∷ merge_by_score rest ys))) first
    ∙ ap (λ o. if same_text k y.key then some y.score else o)
        (score_of-merge_right k rest ys second)

-- A score that passes a test.
abbrev pub passing : (ℕ → Bool) → Option ℕ → Option ℕ
passing q none = none
passing q (some s) = if q s then some s else none

pub score_of-keep :
    (k : Text) (q : Text → ℕ → Bool) (xs : List ScanResult)
    → UniqueKeys xs
    → score_of k (keep (λ x. q x.key x.score) xs) ≡ passing (q k) (score_of k xs)
score_of-keep k q [] u = refl
score_of-keep k q (x ∷ xs) u = elim (Bool-cases (same_text k x.key)) [
  | inl e ↦
      let same = same_text-eq k x.key e in
      let others : score_of k xs ≡ none = ap (λ j. score_of j xs) same ∙ u.0 in
      let test : q k x.score ≡ q x.key x.score = ap (λ j. q j x.score) same in
      elim (Bool-cases (q x.key x.score)) [
        | inl p ↦ let r = test ∙ p in rw (e, p, r, e) refl
        | inr p ↦
            let r = test ∙ p in rw (e, p, r) (score_of-keep k q xs u.1 ∙ ap (passing (q k)) others)
      ]
  | inr e ↦
      if-elim (λ (zs : List ScanResult). score_of k zs ≡ passing (q k) (score_of k (x ∷ xs)))
        (q x.key x.score) (λ _. rw e (score_of-keep k q xs u.1))
        (λ _. rw e (score_of-keep k q xs u.1))
]
