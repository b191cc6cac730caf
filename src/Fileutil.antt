-- ===== src/Fileutil.antt =====
-- internal/core/fileutil/sort.go: the two ways to sort a file. A file is the list of its lines, which
-- have no carriage return at their ends; errors of reading and writing are not modelled.
pub mod Order
pub mod Merge
pub mod External
mod Tests
use bgscan.Base.{
  ℕ, zero, suc, ◌+◌, Bool, true, false, leb, List, [], ◌∷◌, ◌++◌, length, if◌then◌else◌,
}
use bgscan.Config.Texts.{Text}
use bgscan.Result.{text_le}

-- sort.Strings: the documented result.
unfoldable pub insert_line : Text → List Text → List Text
insert_line l [] = l ∷ []
insert_line l (x ∷ xs) = let rest = insert_line l xs in if text_le l x then l ∷ x ∷ xs else x ∷ rest

unfoldable pub sort_lines : List Text → List Text
unfolding insert_line
sort_lines [] = []
sort_lines (l ∷ ls) = insert_line l (sort_lines ls)

-- strings.TrimRight of the newlines, then strings.Split: the empty lines at the end go, but a file of
-- nothing else is one empty line.
abbrev pub drop_last_empty : Text → List Text → List Text
drop_last_empty [] [] = []
drop_last_empty l ls = l ∷ ls

abbrev pub trim_right : List Text → List Text
trim_right [] = []
trim_right (l ∷ ls) = drop_last_empty l (trim_right ls)

abbrev pub at_least_one : List Text → List Text
at_least_one [] = [] ∷ []
at_least_one (l ∷ ls) = l ∷ ls

unfoldable pub sort_in_memory : List Text → List Text
sort_in_memory lines = sort_lines (at_least_one (trim_right lines))

abbrev pub default_chunk_lines : ℕ
default_chunk_lines = 100_000

-- The loop of splitAndSort: the chunks that writeSortedChunk writes, of so many lines.
unfoldable pub split_and_sort : ℕ → List Text → List Text → List (List Text)
split_and_sort size [] [] = []
split_and_sort size (l ∷ lines) [] = sort_lines (l ∷ lines) ∷ []
split_and_sort size lines (l ∷ ls) =
    let more = lines ++ l ∷ [] in
    let next = split_and_sort size [] ls in
    let same = split_and_sort size more ls in
    if leb size (length more) then sort_lines more ∷ next else same

-- What a scanner of a chunk reads: it ends at the first line that does not fit its buffer.
abbrev pub scanned : (Text → Bool) → List Text → List Text
scanned fits [] = []
scanned fits (l ∷ ls) = if fits l then l ∷ scanned fits ls else []

-- An item of the heap, with the lines that the reader of its file has left.
pub record Item : Type 0 where
  pub line : Text
  pub left : List Text

-- heap.Push of the next line of a reader, if it has one.
abbrev pub push_next : List Text → List Item → List Item
push_next [] items = items
push_next (l ∷ left) items = record { line = l; left = left } ∷ items

abbrev pub open_chunks : (Text → Bool) → List (List Text) → List Item
open_chunks fits [] = []
open_chunks fits (c ∷ chunks) = push_next (scanned fits c) (open_chunks fits chunks)

-- heap.Pop: an item whose line is the least, and the others.
unfoldable pub pop_min : Item → List Item → Item × List Item
pop_min i [] = (i, [])
pop_min i (j ∷ items) =
    let popped : Item × List Item = pop_min j items in
    if text_le i.line popped.0.line then (i, popped.0 ∷ popped.1) else (popped.0, i ∷ popped.1)

-- The loop of mergeChunks, on fuel.
unfoldable pub merge_items : ℕ → List Item → List Text
unfolding pop_min
merge_items zero items = []
merge_items (suc n) [] = []
merge_items (suc n) (i ∷ items) =
    let popped : Item × List Item = pop_min i items in
    popped.0.line ∷ merge_items n (push_next popped.0.left popped.1)

-- sortExternal; the fuel is the number of lines.
unfoldable pub sort_external : (Text → Bool) → ℕ → List Text → List Text
unfolding merge_items split_and_sort
sort_external fits size lines =
    merge_items (length lines) (open_chunks fits (split_and_sort size [] lines))

abbrev pub in_memory_threshold : ℕ
in_memory_threshold = 104_857_600

-- SortFile of a file of so many bytes.
unfoldable pub sort_file : (Text → Bool) → ℕ → List Text → List Text
unfolding sort_in_memory sort_external
sort_file fits bytes lines =
    if leb bytes in_memory_threshold
    then sort_in_memory lines
    else sort_external fits default_chunk_lines lines
