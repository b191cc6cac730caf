-- ===== src/Result/Merge/Refines.antt =====
-- The result file is the map from each key to the best score that was ever flushed for it.
use bgscan.Base.{
  ℕ, ◌≤◌, ◌≡◌, refl, sym, ap, ◌∙◌, max, Bool, true, false, not, List, [], ◌∷◌, ◌++◌, Option, none,
  some, ltb, leb, arith, keep, All, if-elim, Bool-cases, inl, inr, ◌⊎◌,
}
use bgscan.Config.Texts.{Text, same_text}
use bgscan.Result.{ScanResult, prepared}
use bgscan.Result.Best.{score_of, better, best, Descending, UniqueKeys, prepared-best}
use bgscan.Result.Merge.{merge_with_existing, merge_results, flush_all, Parser}
use bgscan.Result.Merge.Spec.{merge_by_score, merge-Descending}
use bgscan.Result.Merge.Keys.{
  count, count-merge, count-keep, count-none, UniqueKeys-count, count-UniqueKeys,
  score_of-merge_left, score_of-merge_right, passing, score_of-keep,
}
use bgscan.Result.Merge.Pending.{at_most, below_some, superseded, outdone, kept_existing}
use bgscan.Result.Merge.Kept.{IsKept, read_csv-kept, All-keep, All-prepared, All-merge, All-concat}
use bgscan.Result.Merge.Loop.{kept_delta, merge_with_existing-merge}

-- The better of two scores that may be missing.
abbrev pub join : Option ℕ → Option ℕ → Option ℕ
join none o = o
join (some s) o = some (better s o)

keep-Descending :
    (p : ScanResult → Bool) (xs : List ScanResult) → Descending xs → Descending (keep p xs)
keep-Descending p [] d = tt
keep-Descending p (x ∷ xs) d =
    if-elim Descending (p x) (λ _. (All-keep _ p xs d.0, keep-Descending p xs d.1))
      (λ _. keep-Descending p xs d.1)

-- Of a key that both lists may have, one list keeps the better score, and the other nothing.
one_kept :
    (a b : Option ℕ)
    → let x = passing (λ s. not (at_most s b)) a in
      let y = passing (λ t. not (below_some t a)) b in
      ((x ≡ none) × (y ≡ join a b)) ⊎ ((y ≡ none) × (x ≡ join a b))
one_kept none none = inl (refl, refl)
one_kept none (some t) = inl (refl, refl)
one_kept (some s) none = inr (refl, refl)
one_kept (some s) (some t) = elim (Bool-cases (leb s t)) [
  | inl e ↦
      let f : ltb t s ≡ false = ground arith in
      let m : max s t ≡ t = ground arith in inl (rw (e) refl, rw (f, m) refl)
  | inr e ↦
      let f : ltb t s ≡ true = ground arith in
      let m : max s t ≡ s = ground arith in inr (rw f refl, rw (e, m) refl)
]

module _ (existing delta : List ScanResult) (v : Descending existing) (uv : UniqueKeys existing)
    (w : Descending delta) (uw : UniqueKeys delta) where
  abbrev merged : List ScanResult
  merged = merge_by_score (kept_delta existing delta) (kept_existing delta existing)

  delta_score :
      (k : Text)
      → score_of k (kept_delta existing delta)
        ≡ passing (λ s. not (at_most s (score_of k existing))) (score_of k delta)
  delta_score k = score_of-keep k (λ j s. not (superseded existing j s)) delta uw

  existing_score :
      (k : Text)
      → score_of k (kept_existing delta existing)
        ≡ passing (λ t. not (below_some t (score_of k delta))) (score_of k existing)
  existing_score k = score_of-keep k (λ j t. not (outdone delta j t)) existing uv

  merged-score : (k : Text) → score_of k merged ≡ join (score_of k delta) (score_of k existing)
  merged-score k = elim (one_kept (score_of k delta) (score_of k existing)) [
    | inl (x, y) ↦
        score_of-merge_right k (kept_delta existing delta) (kept_existing delta existing)
          (delta_score k ∙ x)
        ∙ existing_score k
        ∙ y
    | inr (y, x) ↦
        score_of-merge_left k (kept_delta existing delta) (kept_existing delta existing)
          (existing_score k ∙ y)
        ∙ delta_score k
        ∙ x
  ]

  merged-count : (k : Text) → count k merged ≤ 1
  merged-count k =
      let sum = count-merge k (kept_delta existing delta) (kept_existing delta existing) in
      let few = count-keep k (λ d. not (superseded existing d.key d.score)) delta in
      let few' = count-keep k (λ e. not (outdone delta e.key e.score)) existing in
      let one = UniqueKeys-count k delta uw in
      let one' = UniqueKeys-count k existing uv in
      elim (one_kept (score_of k delta) (score_of k existing)) [
        | inl (x, y) ↦ omega (arith, sum, few', one', count-none k _ (delta_score k ∙ x))
        | inr (y, x) ↦ omega (arith, sum, few, one, count-none k _ (existing_score k ∙ y))
      ]

-- For a sorted file and a sorted batch, neither with a repeated key: mergeWithExisting writes a
-- sorted file without repeated keys, in which each key has the better of its two scores.
pub merge_with_existing-best :
    (existing delta : List ScanResult) (k : Text)
    → Descending existing
    → UniqueKeys existing
    → Descending delta
    → UniqueKeys delta
    → let out = merge_with_existing existing delta in
      Descending out
      × UniqueKeys out
      × (score_of k out ≡ join (score_of k delta) (score_of k existing))
merge_with_existing-best existing delta k v uv w uw =
    rw (merge_with_existing-merge existing delta v w uw) (
      merge-Descending _ _ (keep-Descending _ delta w) (keep-Descending _ existing v),
      count-UniqueKeys _ (merged-count existing delta v uv w uw),
      merged-score existing delta v uv w uw k,
    )

-- The records of a file that may not exist.
abbrev pub records : Option (List ScanResult) → List ScanResult
records none = []
records (some rs) = rs

abbrev pub concat : List (List ScanResult) → List ScanResult
concat [] = []
concat (b ∷ bs) = b ++ concat bs

record Refined (parser : Parser) (k : Text) (file file' : Option (List ScanResult)) (o : Option ℕ)
    : Type 0 where
  falling : Descending (records file')
  unique : UniqueKeys (records file')
  score : score_of k (records file') ≡ join o (score_of k (records file))
  kept : All (IsKept parser) (records file')

join-none : (o : Option ℕ) → join o none ≡ o
join-none none = refl
join-none (some s) = refl

join_assoc : (a b c : Option ℕ) → join a (join b c) ≡ join (join b a) c
join_assoc none none c = refl
join_assoc none (some t) c = refl
join_assoc (some s) none c = refl
join_assoc (some s) (some t) none = ap some (omega arith)
join_assoc (some s) (some t) (some u) = ap some (omega arith)

best-append :
    (k : Text) (xs ys : List ScanResult) → best k (xs ++ ys) ≡ join (best k xs) (best k ys)
best-append k [] ys = refl
best-append k (x ∷ xs) ys = elim (Bool-cases (same_text k x.key)) [
  | inl e ↦ rw (e, best-append k xs ys) (ap some (nested x.score (best k xs) (best k ys)))
  | inr e ↦ rw e (best-append k xs ys)
]
  where
    nested : (s : ℕ) (a b : Option ℕ) → better s (join a b) ≡ better (better s a) b
    nested s none b = refl
    nested s (some t) none = refl
    nested s (some t) (some u) = omega arith

merge_results-Refined :
    (parser : Parser) (k : Text) (file : Option (List ScanResult)) (batch : List ScanResult)
    → Descending (records file)
    → UniqueKeys (records file)
    → All (IsKept parser) (records file)
    → All (IsKept parser) batch
    → Refined parser k file (merge_results parser file batch) (best k batch)
unfolding merge_results
merge_results-Refined parser k file [] v u a b = record {
  falling = v;
  unique = u;
  score = refl;
  kept = a;
}
merge_results-Refined parser k none (r ∷ rs) v u a b =
    let (falling, unique, score) = prepared-best (r ∷ rs) k in
    record {
      falling = falling;
      unique = unique;
      score = score ∙ sym (join-none (best k (r ∷ rs)));
      kept = All-prepared (IsKept parser) (r ∷ rs) b;
    }
merge_results-Refined parser k (some rows) (r ∷ rs) v u a b =
    let (falling, unique, score) = prepared-best (r ∷ rs) k in
    let new = prepared (r ∷ rs) in
    let (falling', unique', score') = merge_with_existing-best rows new k v u falling unique in
    let kept : All (IsKept parser) (merge_with_existing rows new) =
      rw (merge_with_existing-merge rows new v falling unique) (
        All-merge (IsKept parser) _ _ (All-keep _ _ new (All-prepared (IsKept parser) (r ∷ rs) b))
          (All-keep _ _ rows a)) in
    rw (read_csv-kept parser rows a) (record {
      falling = falling';
      unique = unique';
      score = score' ∙ ap (λ o. join o (score_of k rows)) score;
      kept = kept;
    })

flush_all-Refined :
    (parser : Parser) (k : Text) (file : Option (List ScanResult))
    (batches : List (List ScanResult))
    → Descending (records file)
    → UniqueKeys (records file)
    → All (IsKept parser) (records file)
    → All (IsKept parser) (concat batches)
    → Refined parser k file (flush_all parser file batches) (best k (concat batches))
unfolding flush_all
flush_all-Refined parser k file [] v u a b = record {
  falling = v;
  unique = u;
  score = refl;
  kept = a;
}
flush_all-Refined parser k file (batch ∷ bs) v u a b =
    let (now, later) = All-concat (IsKept parser) batch (concat bs) b in
    let one = merge_results-Refined parser k file batch v u a now in
    let rest =
      flush_all-Refined parser k (merge_results parser file batch) bs one.falling one.unique
        one.kept later in
    record {
      falling = rest.falling;
      unique = rest.unique;
      score =
          rest.score
          ∙ ap (join (best k (concat bs))) one.score
          ∙ join_assoc (best k (concat bs)) (best k batch) (score_of k (records file))
          ∙ ap (λ o. join o (score_of k (records file))) (sym (best-append k batch (concat bs)));
      kept = rest.kept;
    }

-- Whatever batches a writer flushes, in any division and order, starting without a file, if the row of
-- each of these results is read back as this result: the file is sorted by falling score, no key
-- occurs twice in it, and every key of the batches, and no other, has the best score that any batch
-- gave it.
pub flush_all-best :
    (parser : Parser) (batches : List (List ScanResult)) (k : Text)
    → All (IsKept parser) (concat batches)
    → let file = records (flush_all parser none batches) in
      Descending file × UniqueKeys file × (score_of k file ≡ best k (concat batches))
flush_all-best parser batches k a =
    let r = flush_all-Refined parser k none batches tt tt tt a in
    (r.falling, r.unique, r.score ∙ join-none (best k (concat batches)))
