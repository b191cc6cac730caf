-- ===== src/Result/Merge.antt =====
-- internal/core/result/merger.go: mergeWithExisting, and mergeResults on a file. The file is the list
-- of the results whose rows it has, or none if there is no file; errors of reading and writing are not
-- modelled. The parser of the rows is that of the writer's schema, and is an argument.
-- `emitted` is the list of the indices that are set; the slice delta[cursor:] goes with the cursor.
pub mod Spec
pub mod Keys
pub mod Lookup
pub mod Pending
pub mod Loop
pub mod Kept
pub mod Refines
use bgscan.Base.{
  ℕ, ◌+◌, Bool, true, false, ◌||◌, List, [], ◌∷◌, ◌++◌, Option, none, some, ltb, ◌==◌,
  if◌then◌else◌,
}
use bgscan.Config.Texts.{Text, same_text}
use bgscan.Result.{ScanResult, prepared}

-- `holds`, with the record at the index that it returns. The binary search over the indices in the
-- order of their keys finds the index of a key, if the batch has it: no two records share a key.
unfoldable pub find_from : ℕ → Text → List ScanResult → Option (ℕ × ScanResult)
find_from i key [] = none
find_from i key (d ∷ delta) =
    let rest = find_from (i + 1) key delta in if same_text d.key key then some (i, d) else rest

abbrev pub has_index : ℕ → List ℕ → Bool
has_index i [] = false
has_index i (j ∷ js) = (i == j) || has_index i js

-- What emitDelta writes.
abbrev pub emit_delta : ℕ → ScanResult → List ℕ → List ScanResult
emit_delta idx d emitted = if has_index idx emitted then [] else d ∷ []

pub record Flushed : Type 0 where
  pub out : List ScanResult
  pub cursor : ℕ
  pub rest : List ScanResult
  pub emitted : List ℕ

abbrev pub write_first : List ScanResult → Flushed → Flushed
write_first out f = record f { out = out ++ f.out }

-- The loop over the records of the batch with scores above that of an existing record.
unfoldable pub flush_above : ℕ → ℕ → List ScanResult → List ℕ → Flushed
flush_above score cursor [] emitted = record {
  out = [];
  cursor = cursor;
  rest = [];
  emitted = emitted;
}
flush_above score cursor (d ∷ rest) emitted =
    let later = flush_above score (cursor + 1) rest (cursor ∷ emitted) in
    if ltb score d.score
    then write_first (emit_delta cursor d emitted) later
    else record { out = []; cursor = cursor; rest = d ∷ rest; emitted = emitted }

-- The last loop, over what the cursor has not reached.
unfoldable pub emit_rest : ℕ → List ScanResult → List ℕ → List ScanResult
emit_rest cursor [] emitted = []
emit_rest cursor (d ∷ rest) emitted =
    emit_delta cursor d emitted ++ emit_rest (cursor + 1) rest (cursor ∷ emitted)

-- The end of the callback: the existing record is written unless the batch has its key with a
-- higher score. `go emitted` is what follows.
unfoldable pub settle :
    ScanResult → List ℕ → Option (ℕ × ScanResult) → (List ℕ → List ScanResult) → List ScanResult
settle existing emitted none go = existing ∷ go emitted
settle existing emitted (some (idx, d)) go =
    if ltb existing.score d.score
    then emit_delta idx d emitted ++ go (idx ∷ emitted)
    else existing ∷ go (idx ∷ emitted)

unfoldable pub merge_loop :
    List ScanResult → List ScanResult → ℕ → List ScanResult → List ℕ → List ScanResult
unfolding flush_above find_from settle emit_rest
merge_loop delta [] cursor rest emitted = emit_rest cursor rest emitted
merge_loop delta (e ∷ existing) cursor rest emitted =
    let f = flush_above e.score cursor rest emitted in
    f.out
    ++ settle e f.emitted (find_from 0 e.key delta) (merge_loop delta existing f.cursor f.rest)

-- `existing` are the results that ReadCSV hands to the callback.
unfoldable pub merge_with_existing : List ScanResult → List ScanResult → List ScanResult
unfolding merge_loop
merge_with_existing existing delta = merge_loop delta existing 0 delta []

-- schema.Parser.
abbrev pub Parser : Type 0
Parser = List Text → Option ScanResult

abbrev pub put_result : Option ScanResult → List ScanResult → List ScanResult
put_result none rows = rows
put_result (some r) rows = r ∷ rows

-- ReadCSV of the result file: rows that the parser does not take are left out.
unfoldable pub read_csv : Parser → List ScanResult → List ScanResult
read_csv parser [] = []
read_csv parser (r ∷ rows) = put_result (parser r.row) (read_csv parser rows)

-- mergeResults: the file after it.
unfoldable pub merge_results :
    Parser → Option (List ScanResult) → List ScanResult → Option (List ScanResult)
unfolding read_csv
merge_results parser file [] = file
merge_results parser none (r ∷ results) = some (prepared (r ∷ results))
merge_results parser (some rows) (r ∷ results) =
    some (merge_with_existing (read_csv parser rows) (prepared (r ∷ results)))

-- The flushes of one writer, in order; Start has removed a file of this name.
unfoldable pub flush_all :
    Parser → Option (List ScanResult) → List (List ScanResult) → Option (List ScanResult)
flush_all parser file [] = file
flush_all parser file (batch ∷ batches) = flush_all parser (merge_results parser file batch) batches
