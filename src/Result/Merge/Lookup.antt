-- ===== src/Result/Merge/Lookup.antt =====
-- What `holds` finds in a batch without repeated keys.
use mathlib.Core.Option.{some-injective}
use bgscan.Base.{
  ℕ, zero, suc, ◌+◌, ◌≡◌, refl, sym, ap, ◌∙◌, true, false, List, [], ◌∷◌, none, some, get_elem?,
  arith, Bool-cases, inl, inr,
}
use bgscan.Config.Texts.{Text, same_text}
use bgscan.Result.{ScanResult}
use bgscan.Result.Best.{score_of, UniqueKeys, same_text_refl, same_text-eq}
use bgscan.Result.Merge.{find_from}

pub same_text_comm : (s t : Text) → same_text s t ≡ same_text t s
same_text_comm [] [] = refl
same_text_comm [] (d ∷ t) = refl
same_text_comm (c ∷ s) [] = refl
same_text_comm (c ∷ s) (d ∷ t) = ground (arith, same_text_comm s t)

score_of-get :
    (k : Text) (xs : List ScanResult) (n : ℕ) (d : ScanResult)
    → score_of k xs ≡ none
    → get_elem? xs n ≡ some d
    → same_text d.key k ≡ false
score_of-get k [] n d h g = cc
score_of-get k (x ∷ xs) zero d h g = elim (Bool-cases (same_text k x.key)) [
  | inl e ↦ cc (rw e at h)
  | inr e ↦
      let same : x.key ≡ d.key = ap (λ r. r.key) (some-injective _ _ g) in
      same_text_comm d.key k ∙ ap (same_text k) (sym same) ∙ e
]
score_of-get k (x ∷ xs) (suc n) d h g = elim (Bool-cases (same_text k x.key)) [
  | inl e ↦ cc (rw e at h)
  | inr e ↦ score_of-get k xs n d (rw e at h) g
]

-- A record of the batch with the key is the one that is found.
pub find_from-get :
    (i : ℕ) (k : Text) (xs : List ScanResult) (n : ℕ) (d : ScanResult)
    → UniqueKeys xs
    → get_elem? xs n ≡ some d
    → same_text d.key k ≡ true
    → find_from i k xs ≡ some (i + n, d)
unfolding find_from
find_from-get i k [] n d u g e = cc
find_from-get i k (x ∷ xs) zero d u g e =
    let same : x ≡ d = cc in let place : i + 0 ≡ i = omega arith in rw (same, e, place) refl
find_from-get i k (x ∷ xs) (suc n) d u g e = elim (Bool-cases (same_text x.key k)) [
  | inl h ↦
      let same : x.key ≡ d.key = same_text-eq x.key k h ∙ sym (same_text-eq d.key k e) in
      let absent = score_of-get x.key xs n d u.0 g in
      let there : same_text d.key x.key ≡ true =
        ap (λ j. same_text j x.key) (sym same) ∙ same_text_refl x.key in
      cc (absent, there)
  | inr h ↦
      let place : i + suc n ≡ i + 1 + n = omega arith in
      rw (h, place) (find_from-get (i + 1) k xs n d u.1 g e)
]

-- What is found stands at its index and has the key.
pub find_from-found :
    (i : ℕ) (k : Text) (xs : List ScanResult) (j : ℕ) (d : ScanResult)
    → find_from i k xs ≡ some (j, d)
    → (n : ℕ) × (j ≡ i + n) × (get_elem? xs n ≡ some d) × (same_text d.key k ≡ true)
unfolding find_from
find_from-found i k [] j d h = cc
find_from-found i k (x ∷ xs) j d h = elim (Bool-cases (same_text x.key k)) [
  | inl e ↦
      let pair : (i, x) ≡ (j, d) = some-injective _ _ (rw e at h) in
      let at : i ≡ j = ap (λ p. p.0) pair in
      let same : x ≡ d = ap (λ p. p.1) pair in (0, omega arith, ap some same, rw same at e)
  | inr e ↦
      let (n, at, got, key) = find_from-found (i + 1) k xs j d (rw e at h) in
      (suc n, omega arith, got, key)
]

-- The score of the key is that of what is found.
pub find_from-score :
    (i : ℕ) (k : Text) (xs : List ScanResult) (j : ℕ) (d : ScanResult)
    → find_from i k xs ≡ some (j, d)
    → score_of k xs ≡ some d.score
unfolding find_from
find_from-score i k [] j d h = cc
find_from-score i k (x ∷ xs) j d h = elim (Bool-cases (same_text x.key k)) [
  | inl e ↦
      let pair : (i, x) ≡ (j, d) = some-injective _ _ (rw e at h) in
      let same : x.score ≡ d.score = ap (λ p. p.1.score) pair in
      let turned : same_text k x.key ≡ true = same_text_comm k x.key ∙ e in rw (turned, same) refl
  | inr e ↦
      let turned : same_text k x.key ≡ false = same_text_comm k x.key ∙ e in
      rw turned (find_from-score (i + 1) k xs j d (rw e at h))
]

pub find_from-none :
    (i : ℕ) (k : Text) (xs : List ScanResult) → find_from i k xs ≡ none → score_of k xs ≡ none
unfolding find_from
find_from-none i k [] h = refl
find_from-none i k (x ∷ xs) h = elim (Bool-cases (same_text x.key k)) [
  | inl e ↦ cc (rw e at h)
  | inr e ↦
      let turned : same_text k x.key ≡ false = same_text_comm k x.key ∙ e in
      rw turned (find_from-none (i + 1) k xs (rw e at h))
]
