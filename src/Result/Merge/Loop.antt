-- ===== src/Result/Merge/Loop.antt =====
-- mergeWithExisting is the reference merge of what it keeps of the batch and of the file.
use mathlib.Core.Option.{some-injective}
use bgscan.Base.{
  ℕ, zero, suc, ◌+◌, ◌-◌, ◌≤◌, ◌<◌, ◌≡◌, refl, sym, ap, subst, ◌∙◌, true, false, not, ◌||◌, List,
  [], ◌∷◌, ◌++◌, Option, none, some, ltb, leb, ◌==◌, get_elem?, keep, arith, All, Bool-cases, inl,
  inr, if-elim,
}
use bgscan.Config.Texts.{same_text}
use bgscan.Result.{ScanResult}
use bgscan.Result.Best.{score_of, Descending, UniqueKeys}
use bgscan.Result.Merge.{
  find_from, has_index, Flushed, flush_above, emit_rest, settle, merge_loop, merge_with_existing,
}
use bgscan.Result.Merge.Spec.{take_above, drop_above, merge_by_score, merge-split}
use bgscan.Result.Merge.Lookup.{find_from-get, find_from-found, find_from-score, find_from-none}
use bgscan.Result.Merge.Pending.{
  below_some, Placed-mark, superseded, outdone, kept_existing, to_write, to_write-passed, flush-out,
  Placed, flush-Rested,
}

emit_rest-to_write :
    (c : ℕ) (rest : List ScanResult) (emitted : List ℕ)
    → emit_rest c rest emitted ≡ to_write [] emitted c rest
unfolding emit_rest
emit_rest-to_write c [] emitted = refl
emit_rest-to_write c (d ∷ rest) emitted =
    let later =
      emit_rest-to_write (c + 1) rest (c ∷ emitted)
      ∙ to_write-passed [] emitted c (c + 1) rest (omega arith) in
    elim (Bool-cases (has_index c emitted)) [
      | inl i ↦ rw i later
      | inr i ↦ rw i (ap (List.◌∷◌ d) later)
    ]

-- Two states have the same to write if they agree on every record from the cursor on.
to_write-same :
    (es es' : List ScanResult) (emitted emitted' : List ℕ) (c : ℕ) (rest : List ScanResult)
    → ((j : ℕ) (d : ScanResult)
        → get_elem? rest j ≡ some d
        → (has_index (c + j) emitted || superseded es d.key d.score)
          ≡ (has_index (c + j) emitted' || superseded es' d.key d.score))
    → to_write es emitted c rest ≡ to_write es' emitted' c rest
to_write-same es es' emitted emitted' c [] h = refl
to_write-same es es' emitted emitted' c (d ∷ rest) h =
    let here : (has_index c emitted || superseded es d.key d.score)
        ≡ (has_index c emitted' || superseded es' d.key d.score) =
      let e : c + 0 ≡ c = omega arith in rw e at (h 0 d refl) in
    let later =
      to_write-same es es' emitted emitted' (c + 1) rest
        (λ j x g. let e : c + 1 + j ≡ c + suc j = omega arith in rw e (h (suc j) x g)) in
    rw (here, later) refl

module _ (delta : List ScanResult) (u : UniqueKeys delta) (e : ScanResult) (es : List ScanResult)
    (c : ℕ) (rest : List ScanResult) (emitted : List ℕ) (p : Placed delta c rest emitted)
    (low : All (λ x. x.score ≤ e.score) rest) where
  found_at :
      (j : ℕ) (d : ScanResult)
      → get_elem? rest j ≡ some d
      → same_text d.key e.key ≡ true
      → find_from 0 e.key delta ≡ some (c + j, d)
  found_at j d g s =
      let z : 0 + (c + j) ≡ c + j = omega arith in
      rw z at (find_from-get 0 e.key delta (c + j) d u (p.aligned j ∙ g) s)

  superseded-other :
      (d : ScanResult)
      → same_text d.key e.key ≡ false
      → superseded (e ∷ es) d.key d.score ≡ superseded es d.key d.score
  superseded-other d s = rw s refl

  superseded-same :
      (d : ScanResult)
      → same_text d.key e.key ≡ true
      → superseded (e ∷ es) d.key d.score ≡ leb d.score e.score
  superseded-same d s = rw s refl

  bound_at :
      (xs : List ScanResult) (j : ℕ) (d : ScanResult)
      → All (λ x. x.score ≤ e.score) xs
      → get_elem? xs j ≡ some d
      → d.score ≤ e.score
  bound_at [] j d a g = cc
  bound_at (x ∷ xs) zero d a g =
      let same : x ≡ d = some-injective _ _ g in subst (λ y. y.score ≤ e.score) same a.0
  bound_at (x ∷ xs) (suc j) d a g = bound_at xs j d a.1 g

  settled-none :
      find_from 0 e.key delta ≡ none → to_write es emitted c rest ≡ to_write (e ∷ es) emitted c rest
  settled-none n = to_write-same es (e ∷ es) emitted emitted c rest (λ j d g.
      elim (Bool-cases (same_text d.key e.key)) [
        | inl s ↦ cc (n, found_at j d g s)
        | inr s ↦ rw s refl
      ])

  settled-some :
      (i : ℕ) (d' : ScanResult)
      → find_from 0 e.key delta ≡ some (i, d')
      → to_write es (i ∷ emitted) c rest ≡ to_write (e ∷ es) emitted c rest
  settled-some i d' f = to_write-same es (e ∷ es) (i ∷ emitted) emitted c rest (λ j d g.
      elim (Bool-cases (same_text d.key e.key)) [
        | inl s ↦
            let at : i ≡ c + j = ap (λ q. q.0) (some-injective _ _ (sym f ∙ found_at j d g s)) in
            let hit : (c + j == i) ≡ true = ground arith in
            let high : leb d.score e.score ≡ true =
              let b = bound_at rest j d low g in ground arith in
            rw (hit, s, high) (ground arith)
        | inr s ↦
            let miss : (c + j == i) ≡ false = elim (Bool-cases (c + j == i)) [
              | inr m ↦ m
              | inl m ↦
                  let (n, at, got, key) = find_from-found 0 e.key delta i d' f in
                  let place : n ≡ c + j = ground arith in
                  let same : d' ≡ d =
                    some-injective _ _ (sym got ∙ ap (get_elem? delta) place ∙ p.aligned j ∙ g) in
                  cc (s, ap (λ x. same_text x.key e.key) (sym same) ∙ key)
            ] in
            rw (miss, s) refl
      ])

  -- A record of the batch above e has been written already.
  already_written :
      (i : ℕ) (d' : ScanResult)
      → find_from 0 e.key delta ≡ some (i, d')
      → e.score < d'.score
      → has_index i emitted ≡ true
  already_written i d' f h = elim (Bool-cases (ltb i c)) [
    | inl m ↦ p.passed i (ground arith)
    | inr m ↦
        let (n, at, got, key) = find_from-found 0 e.key delta i d' f in
        let place : n ≡ c + (i - c) = ground arith in
        let there = sym (p.aligned (i - c)) ∙ ap (get_elem? delta) (sym place) ∙ got in
        absurd (omega (arith, h, bound_at rest (i - c) d' low there))
  ]

kept-bounded :
    (delta : List ScanResult) (s : ℕ) (es : List ScanResult)
    → All (λ x. x.score ≤ s) es
    → All (λ x. x.score ≤ s) (kept_existing delta es)
kept-bounded delta s [] a = tt
kept-bounded delta s (e ∷ es) a =
    if-elim (All (λ x. x.score ≤ s)) (not (outdone delta e.key e.score))
      (λ _. (a.0, kept-bounded delta s es a.1)) (λ _. kept-bounded delta s es a.1)

-- The round for one record of the file, from what the flush has left.
settled :
    (delta : List ScanResult) (e : ScanResult) (es : List ScanResult)
    → All (λ x. x.score ≤ e.score) es
    → (f : Flushed) (pending : List ScanResult) → UniqueKeys delta
    → Placed delta f.cursor f.rest f.emitted
    → All (λ x. x.score ≤ e.score) f.rest
    → f.out ≡ take_above e.score pending
    → to_write (e ∷ es) f.emitted f.cursor f.rest ≡ drop_above e.score pending
    → ((marked : List ℕ)
        → Placed delta f.cursor f.rest marked
        → merge_loop delta es f.cursor f.rest marked
          ≡ merge_by_score (to_write es marked f.cursor f.rest) (kept_existing delta es))
    → (o : Option (ℕ × ScanResult)) → find_from 0 e.key delta ≡ o
    → f.out ++ settle e f.emitted o (merge_loop delta es f.cursor f.rest)
      ≡ merge_by_score pending (kept_existing delta (e ∷ es))
unfolding settle
settled delta e es a f pending u p low out left go none h =
    let kept : below_some e.score (score_of e.key delta) ≡ false =
      ap (below_some e.score) (find_from-none 0 e.key delta h) in
    let later =
      go f.emitted p
      ∙ ap (λ (xs : List ScanResult). merge_by_score xs (kept_existing delta es))
          (settled-none delta u e es f.cursor f.rest f.emitted p low h ∙ left) in
    rw (kept, out, later) refl
settled delta e es a f pending u p low out left go (some (i, d)) h =
    let score = ap (below_some e.score) (find_from-score 0 e.key delta i d h) in
    let later =
      go (i ∷ f.emitted) (Placed-mark delta f.cursor f.rest f.emitted i p)
      ∙ ap (λ (xs : List ScanResult). merge_by_score xs (kept_existing delta es))
          (settled-some delta u e es f.cursor f.rest f.emitted p low i d h ∙ left) in
    elim (Bool-cases (ltb e.score d.score)) [
      | inl y ↦
          let gone = score ∙ y in
          let written =
            already_written delta u e es f.cursor f.rest f.emitted p low i d h (ground arith) in
          rw (y, gone, written, out, later)
            (merge-split e.score pending (kept_existing delta es) (kept-bounded delta e.score es a))
      | inr y ↦ let kept = score ∙ y in rw (y, kept, out, later) refl
    ]

pub merge_loop-merge :
    (delta : List ScanResult)
    → UniqueKeys delta
    → (es : List ScanResult) → Descending es
    → (c : ℕ) (rest : List ScanResult) (emitted : List ℕ) → Placed delta c rest emitted
    → merge_loop delta es c rest emitted
      ≡ merge_by_score (to_write es emitted c rest) (kept_existing delta es)
unfolding merge_loop
merge_loop-merge delta u [] v c rest emitted p = emit_rest-to_write c rest emitted
merge_loop-merge delta u (e ∷ es) v c rest emitted p =
    let s = e.score in
    let bounded : All (λ x. x.score ≤ s) (e ∷ es) = (omega arith, v.0) in
    let f = flush_above s c rest emitted in
    let r = flush-Rested (e ∷ es) s c rest emitted delta bounded p in
    settled delta e es v.0 f (to_write (e ∷ es) emitted c rest) u r.placed r.low
      (flush-out (e ∷ es) s c rest emitted bounded p.falling) r.left
      (λ marked q. merge_loop-merge delta u es v.1 f.cursor f.rest marked q)
      (find_from 0 e.key delta) refl

abbrev pub kept_delta : List ScanResult → List ScanResult → List ScanResult
kept_delta existing delta = keep (λ d. not (superseded existing d.key d.score)) delta

to_write-start :
    (es : List ScanResult) (c : ℕ) (xs : List ScanResult) → to_write es [] c xs ≡ kept_delta es xs
to_write-start es c [] = refl
to_write-start es c (x ∷ xs) = elim (Bool-cases (superseded es x.key x.score)) [
  | inl h ↦ rw h (to_write-start es (c + 1) xs)
  | inr h ↦ rw h (ap (List.◌∷◌ x) (to_write-start es (c + 1) xs))
]

-- For a batch and a file that are sorted, a batch without repeated keys, and nothing written yet:
-- mergeWithExisting is the reference merge of the records of the batch that the file does not
-- supersede with those of the file that the batch does not outdo.
pub merge_with_existing-merge :
    (existing delta : List ScanResult)
    → Descending existing
    → Descending delta
    → UniqueKeys delta
    → merge_with_existing existing delta
      ≡ merge_by_score (kept_delta existing delta) (kept_existing delta existing)
unfolding merge_with_existing
merge_with_existing-merge existing delta v w u =
    let start : Placed delta 0 delta [] = record {
      falling = w;
      aligned = λ j. let z : 0 + j ≡ j = omega arith in ap (get_elem? delta) z;
      passed = λ i h. absurd (omega arith);
    } in
    merge_loop-merge delta u existing v 0 delta [] start
    ∙ ap (λ (xs : List ScanResult). merge_by_score xs (kept_existing delta existing))
        (to_write-start existing 0 delta)
