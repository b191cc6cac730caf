-- ===== src/Fileutil/Merge.antt =====
-- internal/core/fileutil/sort.go: the merge of sorted chunks by a heap.
use bgscan.Base.{
  ℕ, zero, suc, ◌+◌, ◌≤◌, ◌≡◌, refl, ap, ◌∙◌, true, List, [], ◌∷◌, ◌++◌, length, length-append, All,
  tally-append, arith, if◌then◌else◌, if-elim,
}
use bgscan.Config.Texts.{Text, same_text}
use bgscan.Result.{text_le}
use bgscan.Fileutil.{Item, push_next, pop_min, merge_items}
use bgscan.Fileutil.Order.{text_le_refl, text_le_total, Above, Above-trans, Sorted, count}

-- All lines that the items still stand for.
abbrev pub lines_of : Item → List Text
lines_of i = i.line ∷ i.left

abbrev pub flat : List Item → List Text
flat [] = []
flat (i ∷ items) = lines_of i ++ flat items

abbrev pub Chains : List Item → Type 0
Chains items = All (λ i. Sorted (lines_of i)) items

pub All-append : (P : Text → Type 0) (xs ys : List Text) → All P xs → All P ys → All P (xs ++ ys)
All-append P [] ys a b = b
All-append P (x ∷ xs) ys a b = (a.0, All-append P xs ys a.1 b)

-- The item that is popped, and the others.
record Popped (items : List Item) (p : Item × List Item) : Type 0 where
  counts : (k : Text) → count k (flat (p.0 ∷ p.1)) ≡ count k (flat items)
  size : length (flat (p.0 ∷ p.1)) ≡ length (flat items)
  chains : Chains (p.0 ∷ p.1)
  least : Above p.0.line (flat (p.0 ∷ p.1))
  bounds : (b : Text) → Above b (flat items) → Above b (flat (p.0 ∷ p.1))

count-flat :
    (k : Text) (i : Item) (items : List Item)
    → count k (flat (i ∷ items)) ≡ count k (lines_of i) + count k (flat items)
count-flat k i items = tally-append (same_text k) (lines_of i) (flat items)

pub All-split : (P : Text → Type 0) (xs ys : List Text) → All P (xs ++ ys) → All P xs × All P ys
All-split P [] ys a = (tt, a)
All-split P (x ∷ xs) ys a = let (l, r) = All-split P xs ys a.1 in ((a.0, l), r)

pop_min-Popped :
    (i : Item) (items : List Item) → Chains (i ∷ items) → Popped (i ∷ items) (pop_min i items)
unfolding pop_min
pop_min-Popped i [] c = record {
  counts = λ k. refl;
  size = refl;
  chains = c;
  least = (text_le_refl i.line, All-append _ i.left [] c.0.0 tt);
  bounds = λ b a. a;
}
pop_min-Popped i (j ∷ items) c =
    let p = pop_min j items in
    let rest : Popped (j ∷ items) p = pop_min-Popped j items c.1 in
    if-elim (Popped (i ∷ j ∷ items)) (text_le i.line p.0.line)
      (λ le. record {
        counts = λ k.
            omega (arith, rest.counts k, count-flat k i (j ∷ items), count-flat k i (p.0 ∷ p.1));
        size = omega (
          arith,
          rest.size,
          length-append (lines_of i) (flat (j ∷ items)),
          length-append (lines_of i) (flat (p.0 ∷ p.1)),
        );
        chains = (c.0, rest.chains);
        least =
            All-append _ (lines_of i) _ (text_le_refl i.line, c.0.0)
              (Above-trans i.line p.0.line (flat (p.0 ∷ p.1)) le rest.least);
        bounds = λ b a.
            let (l, r) = All-split _ (lines_of i) _ a in
            All-append _ (lines_of i) _ l (rest.bounds b r);
      })
      (λ gt.
        let ge : text_le p.0.line i.line ≡ true = text_le_total i.line p.0.line gt in
        let (own, others) = All-split _ (lines_of p.0) (flat p.1) rest.least in
        record {
          counts = λ k. omega (
            arith,
            rest.counts k,
            count-flat k i (j ∷ items),
            count-flat k p.0 (i ∷ p.1),
            count-flat k i p.1,
            count-flat k p.0 p.1,
          );
          size = omega (
            arith,
            rest.size,
            length-append (lines_of i) (flat (j ∷ items)),
            length-append (lines_of p.0) (flat (i ∷ p.1)),
            length-append (lines_of i) (flat p.1),
            length-append (lines_of p.0) (flat p.1),
          );
          chains = (rest.chains.0, (c.0, rest.chains.1));
          least = All-append _ (lines_of p.0) _ own (
              All-append _ (lines_of i) _
                (Above-trans p.0.line i.line (lines_of i) ge (text_le_refl i.line, c.0.0)) others);
          bounds = λ b a.
              let (l, r) = All-split _ (lines_of i) _ a in
              let (l', r') = All-split _ (lines_of p.0) _ (rest.bounds b r) in
              All-append _ (lines_of p.0) _ l' (All-append _ (lines_of i) _ l r');
        })

pub flat-push_next :
    (ls : List Text) (items : List Item) → flat (push_next ls items) ≡ ls ++ flat items
flat-push_next [] items = refl
flat-push_next (l ∷ ls) items = refl

pub push_next-Chains :
    (ls : List Text) (items : List Item) → Sorted ls → Chains items → Chains (push_next ls items)
push_next-Chains [] items s c = c
push_next-Chains (l ∷ ls) items s c = (s, c)

-- With fuel for every line: the merge of sorted chunks is sorted and has their lines.
pub record Merged (items : List Item) (out : List Text) : Type 0 where
  pub counts : (k : Text) → count k out ≡ count k (flat items)
  pub sorted : Sorted out
  pub bounds : (b : Text) → Above b (flat items) → Above b out

pub merge_items-Merged :
    (n : ℕ) (items : List Item)
    → length (flat items) ≤ n
    → Chains items
    → Merged items (merge_items n items)
unfolding merge_items
merge_items-Merged zero [] h c = record { counts = λ k. refl; sorted = tt; bounds = λ b a. tt }
merge_items-Merged zero (i ∷ items) h c = absurd (omega (arith, h))
merge_items-Merged (suc n) [] h c = record { counts = λ k. refl; sorted = tt; bounds = λ b a. tt }
merge_items-Merged (suc n) (i ∷ items) h c =
    let p = pop_min i items in
    let one : Popped (i ∷ items) p = pop_min-Popped i items c in
    let next = push_next p.0.left p.1 in
    let same : flat next ≡ p.0.left ++ flat p.1 = flat-push_next p.0.left p.1 in
    let fits : length (flat next) ≤ n = omega (arith, h, one.size, ap length same) in
    let rest : Merged next (merge_items n next) =
      merge_items-Merged n next fits (push_next-Chains p.0.left p.1 one.chains.0.1 one.chains.1) in
    record {
      counts = λ k.
          let tail : count k (merge_items n next) ≡ count k (p.0.left ++ flat p.1) =
            rest.counts k ∙ ap (count k) same in
          ap (λ (m : ℕ). if same_text k p.0.line then suc m else m) tail ∙ one.counts k;
      sorted = (rest.bounds p.0.line (rw same one.least.1), rest.sorted);
      bounds = λ b a. let all = one.bounds b a in (all.0, rest.bounds b (rw same all.1));
    }
