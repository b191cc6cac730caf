-- ===== src/Fileutil/External.antt =====
-- internal/core/fileutil/sort.go: the external merge sort is the sort in memory.
use bgscan.Base.{
  ℕ, suc, ◌≡◌, ◌≢◌, refl, sym, ap, ◌∙◌, Bool, true, leb, List, [], ◌∷◌, ◌++◌, length, length-append,
  All, tally-append, arith, if-elim,
}
use mathlib.Core.List.{append_assoc}
use bgscan.Config.Texts.{Text, same_text}
use bgscan.Result.{text_le}
use bgscan.Fileutil.{
  sort_lines, drop_last_empty, trim_right, at_least_one, sort_in_memory, sort_file,
  in_memory_threshold, default_chunk_lines, split_and_sort, scanned, open_chunks, merge_items,
  sort_external, insert_line,
}
use bgscan.Fileutil.Order.{count, count-sort_lines, sort_lines-Sorted, Sorted-unique}
use bgscan.Fileutil.Merge.{
  flat, Chains, All-append, flat-push_next, push_next-Chains, Merged, merge_items-Merged,
}

abbrev pub Fits : (Text → Bool) → List Text → Type 0
Fits fits ls = All (λ l. fits l ≡ true) ls

scanned-all : (fits : Text → Bool) (ls : List Text) → Fits fits ls → scanned fits ls ≡ ls
scanned-all fits [] f = refl
scanned-all fits (l ∷ ls) f = rw f.0 (ap (λ x. l ∷ x) (scanned-all fits ls f.1))

insert_line-Fits :
    (fits : Text → Bool) (l : Text) (ls : List Text)
    → fits l ≡ true
    → Fits fits ls
    → Fits fits (insert_line l ls)
unfolding insert_line
insert_line-Fits fits l [] h f = (h, tt)
insert_line-Fits fits l (x ∷ ls) h f =
    if-elim (Fits fits) (text_le l x) (λ _. (h, f)) (λ _. (f.0, insert_line-Fits fits l ls h f.1))

sort_lines-Fits : (fits : Text → Bool) (ls : List Text) → Fits fits ls → Fits fits (sort_lines ls)
unfolding sort_lines
sort_lines-Fits fits [] f = tt
sort_lines-Fits fits (l ∷ ls) f =
    insert_line-Fits fits l (sort_lines ls) f.0 (sort_lines-Fits fits ls f.1)

length-insert_line : (l : Text) (ls : List Text) → length (insert_line l ls) ≡ suc (length ls)
unfolding insert_line
length-insert_line l [] = refl
length-insert_line l (x ∷ ls) =
    if-elim (λ (ys : List Text). length ys ≡ suc (suc (length ls))) (text_le l x) (λ _. refl)
      (λ _. ap suc (length-insert_line l ls))

length-sort_lines : (ls : List Text) → length (sort_lines ls) ≡ length ls
unfolding sort_lines
length-sort_lines [] = refl
length-sort_lines (l ∷ ls) = length-insert_line l (sort_lines ls) ∙ ap suc (length-sort_lines ls)

-- What the chunks of some lines come to in the heap.
record Chunked (fits : Text → Bool) (lines : List Text) (chunks : List (List Text)) : Type 0 where
  counts : (k : Text) → count k (flat (open_chunks fits chunks)) ≡ count k lines
  size : length (flat (open_chunks fits chunks)) ≡ length lines
  chains : Chains (open_chunks fits chunks)

one_chunk :
    (fits : Text → Bool) (first rest : List Text) (chunks : List (List Text))
    → Fits fits first
    → Chunked fits rest chunks
    → Chunked fits (first ++ rest) (sort_lines first ∷ chunks)
one_chunk fits first rest chunks f c =
    let whole : scanned fits (sort_lines first) ≡ sort_lines first =
      scanned-all fits (sort_lines first) (sort_lines-Fits fits first f) in
    let same : flat (open_chunks fits (sort_lines first ∷ chunks))
        ≡ sort_lines first ++ flat (open_chunks fits chunks) =
      flat-push_next (scanned fits (sort_lines first)) (open_chunks fits chunks)
      ∙ ap (λ x. x ++ flat (open_chunks fits chunks)) whole in
    record {
      counts = λ k. omega (
        arith,
        ap (count k) same,
        tally-append (same_text k) (sort_lines first) (flat (open_chunks fits chunks)),
        tally-append (same_text k) first rest,
        count-sort_lines k first,
        c.counts k,
      );
      size = omega (
        arith,
        ap length same,
        length-append (sort_lines first) (flat (open_chunks fits chunks)),
        length-append first rest,
        length-sort_lines first,
        c.size,
      );
      chains = rw whole (
          push_next-Chains (sort_lines first) (open_chunks fits chunks) (sort_lines-Sorted first)
            c.chains);
    }

split_and_sort-Chunked :
    (fits : Text → Bool) (size : ℕ) (lines ls : List Text)
    → Fits fits lines
    → Fits fits ls
    → Chunked fits (lines ++ ls) (split_and_sort size lines ls)
unfolding split_and_sort
split_and_sort-Chunked fits size [] [] f g = record { counts = λ k. refl; size = refl; chains = tt }
split_and_sort-Chunked fits size (l ∷ lines) [] f g =
    one_chunk fits (l ∷ lines) [] [] f (record { counts = λ k. refl; size = refl; chains = tt })
split_and_sort-Chunked fits size lines (l ∷ ls) f g =
    let more = lines ++ l ∷ [] in
    let fit : Fits fits more = All-append _ lines (l ∷ []) f (g.0, tt) in
    let next : Chunked fits (more ++ ls) (sort_lines more ∷ split_and_sort size [] ls) =
      one_chunk fits more ls (split_and_sort size [] ls) fit
        (split_and_sort-Chunked fits size [] ls tt g.1) in
    let same : Chunked fits (more ++ ls) (split_and_sort size more ls) =
      split_and_sort-Chunked fits size more ls fit g.1 in
    rw (sym (append_assoc lines (l ∷ []) ls))
      (if-elim (Chunked fits (more ++ ls)) (leb size (length more)) (λ _. next) (λ _. same))

-- Where the last line is not empty, nothing is trimmed.
abbrev pub LastNotEmpty : List Text → Type 0
LastNotEmpty [] = ⊥
LastNotEmpty (l ∷ []) = l ≢ []
LastNotEmpty (l ∷ m ∷ ls) = LastNotEmpty (m ∷ ls)

trim_right-same : (ls : List Text) → LastNotEmpty ls → trim_right ls ≡ ls
trim_right-same [] h = elim h [ ]
trim_right-same ([] ∷ []) h = absurd (h refl)
trim_right-same ((c ∷ l) ∷ []) h = refl
trim_right-same (l ∷ m ∷ ls) h = ap (drop_last_empty l) (trim_right-same (m ∷ ls) h) ∙ kept l m ls
  where
    kept : (l m : Text) (ls : List Text) → drop_last_empty l (m ∷ ls) ≡ l ∷ m ∷ ls
    kept [] m ls = refl
    kept (c ∷ l) m ls = refl

at_least_one-same : (ls : List Text) → LastNotEmpty ls → at_least_one ls ≡ ls
at_least_one-same [] h = elim h [ ]
at_least_one-same (l ∷ ls) h = refl

-- For a file whose last line is not empty and all of whose lines fit the buffer of the scanners that
-- merge the chunks: whatever the number of lines of a chunk, the external merge sort writes what the sort
-- in memory writes.
pub sort_external-in_memory :
    (fits : Text → Bool) (size : ℕ) (lines : List Text)
    → All (λ l. fits l ≡ true) lines
    → LastNotEmpty lines
    → sort_external fits size lines ≡ sort_in_memory lines
unfolding sort_external sort_in_memory
sort_external-in_memory fits size lines f last =
    let chunks = split_and_sort size [] lines in
    let split : Chunked fits lines chunks = split_and_sort-Chunked fits size [] lines tt f in
    let merged : Merged (open_chunks fits chunks)
        (merge_items (length lines) (open_chunks fits chunks)) =
      merge_items-Merged (length lines) (open_chunks fits chunks) (omega (arith, split.size))
        split.chains in
    let kept : at_least_one (trim_right lines) ≡ lines =
      ap at_least_one (trim_right-same lines last) ∙ at_least_one-same lines last in
    rw kept (
      Sorted-unique _ (sort_lines lines) merged.sorted (sort_lines-Sorted lines)
        (λ k. merged.counts k ∙ split.counts k ∙ sym (count-sort_lines k lines)))

-- SortFile of such a file writes its sorted lines, whatever the size of the file.
pub sort_file-lines :
    (fits : Text → Bool) (bytes : ℕ) (lines : List Text)
    → All (λ l. fits l ≡ true) lines
    → LastNotEmpty lines
    → sort_file fits bytes lines ≡ sort_lines lines
unfolding sort_file sort_in_memory
sort_file-lines fits bytes lines f last =
    let kept : sort_in_memory lines ≡ sort_lines lines =
      ap sort_lines (ap at_least_one (trim_right-same lines last) ∙ at_least_one-same lines last) in
    if-elim (λ (ls : List Text). ls ≡ sort_lines lines) (leb bytes in_memory_threshold) (λ _. kept)
      (λ _. sort_external-in_memory fits default_chunk_lines lines f last ∙ kept)
