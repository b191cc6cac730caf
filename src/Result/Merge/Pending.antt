-- ===== src/Result/Merge/Pending.antt =====
-- What mergeWithExisting has still to write of the batch, and what its inner loop takes of it.
use bgscan.Base.{
  ℕ, suc, ◌+◌, ◌≤◌, ◌<◌, ◌≡◌, refl, sym, ap, ◌∙◌, Bool, true, false, not, ◌||◌, List, [], ◌∷◌,
  Option, none, some, ltb, leb, ◌==◌, get_elem?, keep, if◌then◌else◌, arith, All, Bool-cases, inl,
  inr, if-elim,
}
use bgscan.Config.Texts.{Text, same_text}
use bgscan.Result.{ScanResult}
use bgscan.Result.Best.{score_of, Descending, All-weaken}
use bgscan.Result.Merge.{has_index, emit_delta, Flushed, write_first, flush_above}
use bgscan.Result.Merge.Spec.{take_above, drop_above, take_above-none, drop_above-All}

-- Whether a score is at most, or below, a score that may be missing.
abbrev pub at_most : ℕ → Option ℕ → Bool
at_most s none = false
at_most s (some t) = leb s t

abbrev pub below_some : ℕ → Option ℕ → Bool
below_some s none = false
below_some s (some t) = ltb s t

-- A record of the batch is superseded when the file has its key with a score as high.
abbrev pub superseded : List ScanResult → Text → ℕ → Bool
superseded existing k s = at_most s (score_of k existing)

-- A record of the file is outdone when the batch has its key with a higher score.
abbrev pub outdone : List ScanResult → Text → ℕ → Bool
outdone delta k s = below_some s (score_of k delta)

abbrev pub kept_existing : List ScanResult → List ScanResult → List ScanResult
kept_existing delta existing = keep (λ e. not (outdone delta e.key e.score)) existing

-- What is still to be written of the batch from an index on.
abbrev pub to_write : List ScanResult → List ℕ → ℕ → List ScanResult → List ScanResult
to_write existing emitted c [] = []
to_write existing emitted c (d ∷ rest) =
    if has_index c emitted || superseded existing d.key d.score
    then to_write existing emitted (c + 1) rest
    else d ∷ to_write existing emitted (c + 1) rest

All-to_write :
    (P : ScanResult → Type 0) (es : List ScanResult) (emitted : List ℕ) (c : ℕ)
    (rest : List ScanResult)
    → All P rest
    → All P (to_write es emitted c rest)
All-to_write P es emitted c [] a = tt
All-to_write P es emitted c (d ∷ rest) a =
    if-elim (All P) (has_index c emitted || superseded es d.key d.score)
      (λ _. All-to_write P es emitted (c + 1) rest a.1)
      (λ _. (a.0, All-to_write P es emitted (c + 1) rest a.1))

-- An index that the cursor has passed makes no difference.
pub to_write-passed :
    (es : List ScanResult) (emitted : List ℕ) (i c : ℕ) (rest : List ScanResult)
    → i < c
    → to_write es (i ∷ emitted) c rest ≡ to_write es emitted c rest
to_write-passed es emitted i c [] h = refl
to_write-passed es emitted i c (d ∷ rest) h =
    let other : (c == i) ≡ false = ground arith in
    rw (other, to_write-passed es emitted i (c + 1) rest (omega arith)) refl

-- Scores above all those of the rest of the file are not superseded.
pub superseded-below :
    (es : List ScanResult) (k : Text) (s t : ℕ)
    → All (λ e. e.score ≤ s) es
    → s < t
    → superseded es k t ≡ false
superseded-below [] k s t a h = refl
superseded-below (e ∷ es) k s t a h =
    if-elim (λ o. at_most t o ≡ false) (same_text k e.key) (λ _. ground arith)
      (λ _. superseded-below es k s t a.1 h)

pub flush-out :
    (es : List ScanResult) (s c : ℕ) (rest : List ScanResult) (emitted : List ℕ)
    → All (λ e. e.score ≤ s) es
    → Descending rest
    → (flush_above s c rest emitted).out ≡ take_above s (to_write es emitted c rest)
unfolding flush_above
flush-out es s c [] emitted a v = refl
flush-out es s c (d ∷ rest) emitted a v = elim (Bool-cases (ltb s d.score)) [
  | inl h ↦
      let fresh = superseded-below es d.key s d.score a (ground arith) in
      let later =
        flush-out es s (c + 1) rest (c ∷ emitted) a v.1
        ∙ ap (take_above s) (to_write-passed es emitted c (c + 1) rest (omega arith)) in
      elim (Bool-cases (has_index c emitted)) [
        | inl i ↦ rw (h, i) later
        | inr i ↦ rw (h, i, fresh) (rw h (ap (List.◌∷◌ d) later))
      ]
  | inr h ↦
      let low : d.score ≤ s = ground arith in
      rw h (
        sym (
          take_above-none s _
            (All-to_write _ es emitted c (d ∷ rest) (low, All-weaken d.score s rest low v.0))))
]

-- What a flush leaves: the place of the cursor in the batch, everything before it marked, and
-- nothing from it on above the score.
pub record Placed (delta : List ScanResult) (c : ℕ) (rest : List ScanResult) (emitted : List ℕ)
    : Type 0 where
  pub falling : Descending rest
  pub aligned : (j : ℕ) → get_elem? delta (c + j) ≡ get_elem? rest j
  pub passed : (i : ℕ) → i < c → has_index i emitted ≡ true

Placed-next :
    (delta : List ScanResult) (c : ℕ) (d : ScanResult) (rest : List ScanResult) (emitted : List ℕ)
    → Placed delta c (d ∷ rest) emitted
    → Placed delta (c + 1) rest (c ∷ emitted)
Placed-next delta c d rest emitted p = record {
  falling = p.falling.1;
  aligned = λ j. let e : c + 1 + j ≡ c + suc j = omega arith in rw e (p.aligned (suc j));
  passed = λ i h. elim (Bool-cases (i == c)) [
    | inl e ↦ rw e refl
    | inr e ↦ rw e (p.passed i (ground arith))
  ];
}

pub Placed-mark :
    (delta : List ScanResult) (c : ℕ) (rest : List ScanResult) (emitted : List ℕ) (i : ℕ)
    → Placed delta c rest emitted
    → Placed delta c rest (i ∷ emitted)
Placed-mark delta c rest emitted i p = record {
  falling = p.falling;
  aligned = p.aligned;
  passed = λ j h. let known = p.passed j h in ground (arith, known);
}

pub record Rested (es : List ScanResult) (s c : ℕ) (rest : List ScanResult) (emitted : List ℕ)
    (delta : List ScanResult) (f : Flushed) : Type 0 where
  pub placed : Placed delta f.cursor f.rest f.emitted
  pub low : All (λ x. x.score ≤ s) f.rest
  pub left : to_write es f.emitted f.cursor f.rest ≡ drop_above s (to_write es emitted c rest)

pub flush-Rested :
    (es : List ScanResult) (s c : ℕ) (rest : List ScanResult) (emitted : List ℕ)
    (delta : List ScanResult)
    → All (λ e. e.score ≤ s) es
    → Placed delta c rest emitted
    → Rested es s c rest emitted delta (flush_above s c rest emitted)
unfolding flush_above
flush-Rested es s c [] emitted delta a p = record { placed = p; low = tt; left = refl }
flush-Rested es s c (d ∷ rest) emitted delta a p = elim (Bool-cases (ltb s d.score)) [
  | inl h ↦
      let fresh = superseded-below es d.key s d.score a (ground arith) in
      let later =
        flush-Rested es s (c + 1) rest (c ∷ emitted) delta a
          (Placed-next delta c d rest emitted p) in
      let same =
        later.left ∙ ap (drop_above s) (to_write-passed es emitted c (c + 1) rest (omega arith)) in
      let whole : drop_above s (to_write es emitted c (d ∷ rest))
          ≡ drop_above s (to_write es emitted (c + 1) rest) =
        elim (Bool-cases (has_index c emitted)) [
          | inl i ↦ rw i refl
          | inr i ↦ rw (i, fresh, h) refl
        ] in
      let f = flush_above s (c + 1) rest (c ∷ emitted) in
      let gone : Rested es s c (d ∷ rest) emitted delta (write_first (emit_delta c d emitted) f) =
        record { placed = later.placed; low = later.low; left = same ∙ sym whole } in
      rw h gone
  | inr h ↦
      let low : d.score ≤ s = ground arith in
      let all : All (λ x. x.score ≤ s) (d ∷ rest) =
        (low, All-weaken d.score s rest low p.falling.0) in
      let still : Rested es s c (d ∷ rest) emitted delta
          (record { out = []; cursor = c; rest = d ∷ rest; emitted = emitted }) =
        record {
          placed = p;
          low = all;
          left = sym (drop_above-All s _ (All-to_write _ es emitted c (d ∷ rest) all));
        } in
      rw h still
]
