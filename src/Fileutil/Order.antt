-- ===== src/Fileutil/Order.antt =====
-- internal/core/fileutil/sort.go: the order of lines, and that sorting has one result.
use bgscan.Base.{
  ℕ, ◌+◌, ◌<◌, ◌≡◌, refl, sym, ap, subst, true, false, List, [], ◌∷◌, All, tally, arith, Bool-cases,
  inl, inr, if◌then◌else◌, if-elim,
}
use bgscan.Config.Texts.{Text, same_text}
use bgscan.Result.{text_le}
use bgscan.Result.Best.{same_text_refl, same_text-eq}
use bgscan.Fileutil.{insert_line, sort_lines}

pub text_le_refl : (s : Text) → text_le s s ≡ true
text_le_refl [] = refl
text_le_refl (c ∷ s) = rw (text_le_refl s) (ground arith)

pub text_le_total : (s t : Text) → text_le s t ≡ false → text_le t s ≡ true
text_le_total [] t h = cc
text_le_total (c ∷ s) [] h = refl
text_le_total (c ∷ s) (d ∷ t) h = elim (Bool-cases (text_le s t)) [
  | inl e ↦ ground (arith, h, e)
  | inr e ↦ ground (arith, h, e, text_le_total s t e)
]

pub text_le_antisym : (s t : Text) → text_le s t ≡ true → text_le t s ≡ true → s ≡ t
text_le_antisym [] [] h k = refl
text_le_antisym [] (d ∷ t) h k = cc
text_le_antisym (c ∷ s) [] h k = cc
text_le_antisym (c ∷ s) (d ∷ t) h k =
    let head : c ≡ d = ground (arith, h, k) in
    let le : text_le s t ≡ true = ground (arith, h, k) in
    let ge : text_le t s ≡ true = ground (arith, h, k) in cc (head, text_le_antisym s t le ge)

pub text_le_trans : (s t u : Text) → text_le s t ≡ true → text_le t u ≡ true → text_le s u ≡ true
text_le_trans [] t u h k = refl
text_le_trans (c ∷ s) [] u h k = cc
text_le_trans (c ∷ s) (d ∷ t) [] h k = cc
text_le_trans (c ∷ s) (d ∷ t) (e ∷ u) h k = elim (Bool-cases (text_le s t)) [
  | inl a ↦ elim (Bool-cases (text_le t u)) [
    | inl b ↦ ground (arith, h, k, a, b, text_le_trans s t u a b)
    | inr b ↦ ground (arith, h, k, a, b)
  ]
  | inr a ↦ ground (arith, h, k, a)
]

abbrev pub Above : Text → List Text → Type 0
Above l ls = All (λ x. text_le l x ≡ true) ls

abbrev pub Sorted : List Text → Type 0
Sorted [] = Unit {0}
Sorted (l ∷ ls) = Above l ls × Sorted ls

pub Above-trans : (s t : Text) (ls : List Text) → text_le s t ≡ true → Above t ls → Above s ls
Above-trans s t [] h a = tt
Above-trans s t (x ∷ ls) h a = (text_le_trans s t x h a.0, Above-trans s t ls h a.1)

-- How often a line occurs.
abbrev pub count : Text → List Text → ℕ
count k ls = tally (same_text k) ls

pub All-count : (P : Text → Type 0) (k : Text) (ls : List Text) → All P ls → 0 < count k ls → P k
All-count P k [] a h = absurd (omega (arith, h))
All-count P k (x ∷ ls) a h = elim (Bool-cases (same_text k x)) [
  | inl e ↦ subst P (sym (same_text-eq k x e)) a.0
  | inr e ↦ All-count P k ls a.1 (ground (arith, h, e))
]

-- Sorted lists with the same lines are equal.
pub Sorted-unique :
    (xs ys : List Text) → Sorted xs → Sorted ys → ((k : Text) → count k xs ≡ count k ys) → xs ≡ ys
Sorted-unique [] [] s t c = refl
Sorted-unique [] (y ∷ ys) s t c = absurd (ground (arith, c y, same_text_refl y))
Sorted-unique (x ∷ xs) [] s t c = absurd (ground (arith, c x, same_text_refl x))
Sorted-unique (x ∷ xs) (y ∷ ys) s t c =
    let there : 0 < count x (y ∷ ys) = ground (arith, c x, same_text_refl x) in
    let here : 0 < count y (x ∷ xs) = ground (arith, c y, same_text_refl y) in
    let le : text_le y x ≡ true =
      All-count (λ z. text_le y z ≡ true) x (y ∷ ys) (text_le_refl y, t.0) there in
    let ge : text_le x y ≡ true =
      All-count (λ z. text_le x z ≡ true) y (x ∷ xs) (text_le_refl x, s.0) here in
    let same : x ≡ y = text_le_antisym x y ge le in
    cc (
      same,
      Sorted-unique xs ys s.1 t.1 (λ k.
          let heads : same_text k x ≡ same_text k y = ap (same_text k) same in
          ground (arith, c k, heads)),
    )

count-insert_line :
    (k l : Text) (ls : List Text)
    → count k (insert_line l ls) ≡ (if same_text k l then 1 else 0) + count k ls
unfolding insert_line
count-insert_line k l [] = ground arith
count-insert_line k l (x ∷ ls) =
    if-elim (λ ys. count k ys ≡ (if same_text k l then 1 else 0) + count k (x ∷ ls)) (text_le l x)
      (λ _. ground arith) (λ _. ground (arith, count-insert_line k l ls))

pub count-sort_lines : (k : Text) (ls : List Text) → count k (sort_lines ls) ≡ count k ls
unfolding sort_lines
count-sort_lines k [] = refl
count-sort_lines k (l ∷ ls) =
    ground (arith, count-insert_line k l (sort_lines ls), count-sort_lines k ls)

pub Above-insert_line :
    (b l : Text) (ls : List Text) → text_le b l ≡ true → Above b ls → Above b (insert_line l ls)
unfolding insert_line
Above-insert_line b l [] h a = (h, tt)
Above-insert_line b l (x ∷ ls) h a =
    if-elim (Above b) (text_le l x) (λ _. (h, a)) (λ _. (a.0, Above-insert_line b l ls h a.1))

insert_line-Sorted : (l : Text) (ls : List Text) → Sorted ls → Sorted (insert_line l ls)
unfolding insert_line
insert_line-Sorted l [] s = (tt, tt)
insert_line-Sorted l (x ∷ ls) s =
    if-elim Sorted (text_le l x) (λ le. ((le, Above-trans l x ls le s.0), s))
      (λ gt. (Above-insert_line x l ls (text_le_total l x gt) s.0, insert_line-Sorted l ls s.1))

pub sort_lines-Sorted : (ls : List Text) → Sorted (sort_lines ls)
unfolding sort_lines
sort_lines-Sorted [] = tt
sort_lines-Sorted (l ∷ ls) = insert_line-Sorted l (sort_lines ls) (sort_lines-Sorted ls)
