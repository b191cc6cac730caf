-- ===== src/Result/Best.antt =====
-- A batch is written sorted, with the best score of each key.
use bgscan.Base.{
  ℕ, ◌≤◌, ◌≡◌, refl, sym, ap, ◌∙◌, max, true, List, [], ◌∷◌, Option, none, some, if◌then◌else◌,
  arith, All, Bool-cases, inl, inr, if-elim,
}
use bgscan.Config.Texts.{Text, same_text}
use bgscan.Result.{ScanResult, ordered, insert, sort_results, has_key, dedup, prepared}

pub same_text_refl : (s : Text) → same_text s s ≡ true
same_text_refl [] = refl
same_text_refl (c ∷ s) = rw (same_text_refl s) (ground arith)

pub same_text-eq : (s t : Text) → same_text s t ≡ true → s ≡ t
same_text-eq [] [] h = refl
same_text-eq [] (d ∷ t) h = cc
same_text-eq (c ∷ s) [] h = cc
same_text-eq (c ∷ s) (d ∷ t) h =
    let head : c ≡ d = ground arith in
    let rest : same_text s t ≡ true = ground arith in cc (head, same_text-eq s t rest)

-- The score that a list has for a key at its first place.
abbrev pub score_of : Text → List ScanResult → Option ℕ
score_of k [] = none
score_of k (r ∷ rs) = if same_text k r.key then some r.score else score_of k rs

abbrev pub better : ℕ → Option ℕ → ℕ
better s none = s
better s (some t) = max s t

-- The best score of a key among all results.
abbrev pub best : Text → List ScanResult → Option ℕ
best k [] = none
best k (r ∷ rs) =
    let rest = best k rs in if same_text k r.key then some (better r.score rest) else rest

-- The scores fall from each result to the next.
abbrev pub Descending : List ScanResult → Type 0
Descending [] = Unit {0}
Descending (r ∷ rs) = All (λ x. x.score ≤ r.score) rs × Descending rs

-- No key occurs twice.
abbrev pub UniqueKeys : List ScanResult → Type 0
UniqueKeys [] = Unit {0}
UniqueKeys (r ∷ rs) = (score_of r.key rs ≡ none) × UniqueKeys rs

All-insert :
    (P : ScanResult → Type 0) (r : ScanResult) (xs : List ScanResult)
    → P r
    → All P xs
    → All P (insert r xs)
unfolding insert
All-insert P r [] h a = (h, tt)
All-insert P r (x ∷ xs) h a =
    if-elim (All P) (ordered r x) (λ _. (h, a)) (λ _. (a.0, All-insert P r xs h a.1))

pub All-sort_results :
    (P : ScanResult → Type 0) (rs : List ScanResult) → All P rs → All P (sort_results rs)
unfolding sort_results
All-sort_results P [] a = tt
All-sort_results P (r ∷ rs) a = All-insert P r (sort_results rs) a.0 (All-sort_results P rs a.1)

pub All-weaken :
    (s t : ℕ) (xs : List ScanResult) → s ≤ t → All (λ x. x.score ≤ s) xs → All (λ x. x.score ≤ t) xs
All-weaken s t [] h a = tt
All-weaken s t (x ∷ xs) h a = (omega (arith, a.0), All-weaken s t xs h a.1)

pub insert-Descending :
    (r : ScanResult) (xs : List ScanResult) → Descending xs → Descending (insert r xs)
unfolding insert ordered
insert-Descending r [] d = (tt, tt)
insert-Descending r (x ∷ xs) d =
    if-elim Descending (ordered r x)
      (λ o.
        let above : x.score ≤ r.score = ground arith in
        ((above, All-weaken x.score r.score xs above d.0), d))
      (λ o. (All-insert _ r xs (ground arith) d.0, insert-Descending r xs d.1))

pub sort_results-Descending : (rs : List ScanResult) → Descending (sort_results rs)
unfolding sort_results
sort_results-Descending [] = tt
sort_results-Descending (r ∷ rs) =
    insert-Descending r (sort_results rs) (sort_results-Descending rs)

better_swap : (s t : ℕ) (o : Option ℕ) → better s (some (better t o)) ≡ better t (some (better s o))
better_swap s t none = omega arith
better_swap s t (some u) = omega arith

best-swap :
    (k : Text) (a b : ScanResult) (xs : List ScanResult) → best k (a ∷ b ∷ xs) ≡ best k (b ∷ a ∷ xs)
best-swap k a b xs = elim (Bool-cases (same_text k a.key)) [
  | inl p ↦ elim (Bool-cases (same_text k b.key)) [
    | inl q ↦ rw (p, q) (ap some (better_swap a.score b.score (best k xs)))
    | inr q ↦ rw (p, q) refl
  ]
  | inr p ↦ rw p refl
]

best-insert :
    (k : Text) (r : ScanResult) (xs : List ScanResult) → best k (insert r xs) ≡ best k (r ∷ xs)
unfolding insert
best-insert k r [] = refl
best-insert k r (x ∷ xs) =
    if-elim (λ l. best k l ≡ best k (r ∷ x ∷ xs)) (ordered r x) (λ _. refl)
      (λ _.
        ap (λ o. if same_text k x.key then some (better x.score o) else o) (best-insert k r xs)
        ∙ best-swap k x r xs)

pub best-sort_results : (k : Text) (rs : List ScanResult) → best k (sort_results rs) ≡ best k rs
unfolding sort_results
best-sort_results k [] = refl
best-sort_results k (r ∷ rs) =
    best-insert k r (sort_results rs)
    ∙ ap (λ o. if same_text k r.key then some (better r.score o) else o) (best-sort_results k rs)

-- A bound on all scores bounds the best one.
better-bounded :
    (k : Text) (s : ℕ) (xs : List ScanResult) → All (λ x. x.score ≤ s) xs → better s (best k xs) ≡ s
better-bounded k s [] a = refl
better-bounded k s (x ∷ xs) a =
    if-elim (λ o. better s o ≡ s) (same_text k x.key)
      (λ _. max_better s x.score (best k xs) a.0 (better-bounded k s xs a.1))
      (λ _. better-bounded k s xs a.1)
  where
    max_better :
        (s t : ℕ) (o : Option ℕ) → t ≤ s → better s o ≡ s → better s (some (better t o)) ≡ s
    max_better s t none h e = omega arith
    max_better s t (some u) h e = omega arith

pub best-score_of : (k : Text) (xs : List ScanResult) → Descending xs → best k xs ≡ score_of k xs
best-score_of k [] d = refl
best-score_of k (x ∷ xs) d = elim (Bool-cases (same_text k x.key)) [
  | inl p ↦ rw p (ap some (better-bounded k x.score xs d.0))
  | inr p ↦ rw p (best-score_of k xs d.1)
]

-- What dedup keeps of a key.
pub dedup-score_of :
    (k : Text) (seen : List Text) (xs : List ScanResult)
    → score_of k (dedup seen xs) ≡ (if has_key k seen then none else score_of k xs)
unfolding dedup
dedup-score_of k seen [] = ground arith
dedup-score_of k seen (x ∷ xs) = elim (Bool-cases (same_text k x.key)) [
  | inl p ↦
      let known = ap (λ j. has_key j seen) (same_text-eq k x.key p) in
      elim (Bool-cases (has_key x.key seen)) [
        | inl h ↦ let k_seen = known ∙ h in rw (h, k_seen) (rw k_seen at (dedup-score_of k seen xs))
        | inr h ↦ let k_new = known ∙ h in rw (h, k_new, p) refl
      ]
  | inr p ↦
      if-elim (λ l. score_of k l ≡ (if has_key k seen then none else score_of k (x ∷ xs)))
        (has_key x.key seen) (λ h. rw p (dedup-score_of k seen xs))
        (λ h. rw p (rw p at (dedup-score_of k (x.key ∷ seen) xs)))
]

pub dedup-UniqueKeys : (seen : List Text) (xs : List ScanResult) → UniqueKeys (dedup seen xs)
unfolding dedup
dedup-UniqueKeys seen [] = tt
dedup-UniqueKeys seen (x ∷ xs) =
    if-elim UniqueKeys (has_key x.key seen) (λ _. dedup-UniqueKeys seen xs)
      (λ _.
        let once = dedup-score_of x.key (x.key ∷ seen) xs in
        let itself = same_text_refl x.key in
        (rw itself at once, dedup-UniqueKeys (x.key ∷ seen) xs))

pub All-dedup :
    (P : ScanResult → Type 0) (seen : List Text) (xs : List ScanResult)
    → All P xs
    → All P (dedup seen xs)
unfolding dedup
All-dedup P seen [] a = tt
All-dedup P seen (x ∷ xs) a =
    if-elim (All P) (has_key x.key seen) (λ _. All-dedup P seen xs a.1)
      (λ _. (a.0, All-dedup P (x.key ∷ seen) xs a.1))

pub dedup-Descending :
    (seen : List Text) (xs : List ScanResult) → Descending xs → Descending (dedup seen xs)
unfolding dedup
dedup-Descending seen [] d = tt
dedup-Descending seen (x ∷ xs) d =
    if-elim Descending (has_key x.key seen) (λ _. dedup-Descending seen xs d.1)
      (λ _. (All-dedup _ (x.key ∷ seen) xs d.0, dedup-Descending (x.key ∷ seen) xs d.1))

-- What mergeResults makes of a batch, and writes where no file exists: the scores never rise from
-- a result to the next, no key occurs twice, and every key of the batch, and no other, has the
-- best of its scores.
pub prepared-best :
    (results : List ScanResult) (k : Text)
    → Descending (prepared results)
      × UniqueKeys (prepared results)
      × (score_of k (prepared results) ≡ best k results)
unfolding prepared
prepared-best results k =
    let sorted = sort_results results in
    let falling = sort_results-Descending results in
    (
      dedup-Descending [] sorted falling,
      dedup-UniqueKeys [] sorted,
      dedup-score_of k [] sorted
          ∙ sym (best-score_of k sorted falling)
          ∙ best-sort_results k results,
    )
