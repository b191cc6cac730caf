-- ===== src/Result/Tests.antt =====
-- The theorems on batches of results and on the result file at concrete batches.
use bgscan.Base.{
  ℕ, ◌≡◌, refl, List, [], ◌∷◌, some, none, arith, length, ◌+◌, ◌-◌, ◌*◌, ◌/◌, ◌≤◌, ◌<◌, false, true,
  Option, ◌⊎◌, All,
}
use bgscan.Config.Texts.{Text, codes}
use bgscan.Result.{ScanResult, prepared, ordered}
use bgscan.Result.Best.{Descending, UniqueKeys, score_of}
use bgscan.Result.Merge.{flush_all, merge_results, merge_with_existing}
use bgscan.Result.Writer.{
  WriterLimits, Writer, merged, receive, flush, Step, start, write_begins, write_sends, loop_step,
  Reach, fresh, later,
}
use bgscan.Result.Writer.LoopStep.{receives, ticks_on, flushes_batch, sees_closed, returns_finished}
use bgscan.Result.Writer.Bounds.{batches, reach-Bounded}
use bgscan.Result.Writer.Complete.{finished_complete}
use bgscan.Result.Writer.Progress.{Steps, done, more, GoesOn, Returned, close-returns}
use bgscan.Result.Merge.Refines.{flush_all-best, records}

abbrev scored : List ℕ → ℕ → ScanResult
scored key score = record { key = key; score = score; row = key ∷ (score ∷ []) ∷ [] }

-- A parser of such rows.
abbrev parse_row : List Text → Option ScanResult
parse_row (key ∷ (score ∷ []) ∷ []) = some (scored key score)
parse_row row = none

abbrev batch : List ScanResult
batch = scored (codes "10.0.0.1") 3 ∷ scored (codes "10.0.0.2") 5 ∷ scored (codes "10.0.0.1") 7 ∷ []

abbrev file : List ScanResult
file = scored (codes "10.0.0.1") 9 ∷ scored (codes "10.0.0.2") 4 ∷ []

abbrev delta : List ScanResult
delta = scored (codes "10.0.0.2") 5 ∷ scored (codes "10.0.0.1") 3 ∷ []

flush_all-best_example :
    Descending (records (flush_all parse_row none (batch ∷ delta ∷ [])))
    × UniqueKeys (records (flush_all parse_row none (batch ∷ delta ∷ [])))
    × (score_of (codes "10.0.0.1") (records (flush_all parse_row none (batch ∷ delta ∷ [])))
        ≡ some 7)
flush_all-best_example =
    flush_all-best parse_row (batch ∷ delta ∷ []) (codes "10.0.0.1")
      (refl, (refl, (refl, (refl, (refl, tt)))))

abbrev conf : WriterLimits
conf = record { chan_size = 2; batch_size = 2; ignore_err = false; parser = parse_row }

abbrev first : ScanResult
first = scored (codes "10.0.0.1") 3

abbrev second : ScanResult
second = scored (codes "10.0.0.1") 7

-- Start, and two calls of Write that send before the loop receives.
abbrev two_sent : (w : Writer) × Reach conf none w
two_sent = (
  _,
  later
      (later
        (later (later (later fresh (start refl)) (write_begins first refl refl))
          (write_sends [] first [] refl refl (omega arith)))
        (write_begins second refl refl))
      (write_sends [] second [] refl refl (omega arith)),
)

-- The loop takes the first, then Close, then it takes the second and flushes both, and returns.
abbrev closed_after_two : (w : Writer) × Reach conf none w
unfolding receive flush
closed_after_two = (
  _,
  later
      (later
        (later
          (later
            (later (later two_sent.1 (loop_step refl (receives first (second ∷ []) refl refl)))
              (Step.close refl refl))
            (loop_step refl (receives second [] refl refl)))
          (loop_step refl (flushes_batch merged refl)))
        (loop_step refl (sees_closed refl refl refl)))
      (loop_step refl (returns_finished merged refl)),
)

finished_complete_example :
    let file = records closed_after_two.0.file in
    Descending file
    × UniqueKeys file
    × (score_of (codes "10.0.0.1") file ≡ some 7)
    × (closed_after_two.0.written ≡ 2)
    × (closed_after_two.0.written + 0 + 0 ≡ closed_after_two.0.calls)
unfolding receive flush
finished_complete_example =
    finished_complete conf none closed_after_two.0 (codes "10.0.0.1") closed_after_two.1
      (refl, (refl, tt)) refl refl refl

-- The timer fires at once, then the first result is received.
abbrev closed_two : Writer
closed_two = record two_sent.0 { closed = true }

abbrev ticked : (w : Writer) × Steps conf closed_two w
unfolding receive flush
ticked = (
  _,
  more (loop_step refl (ticks_on refl)) (
      more (loop_step refl (flushes_batch merged refl))
        (more (loop_step refl (receives first (second ∷ []) refl refl)) done)),
)

close-returns_example :
    (1 ≤ length closed_two.input + 3) × (1 ≤ 1 + 1 + 1) × (GoesOn conf ticked.0 ⊎ Returned ticked.0)
unfolding ticked
close-returns_example = close-returns refl refl ticked.1

reach-Bounded_example :
    (length two_sent.0.input ≤ 2)
    × (length two_sent.0.batch < 2)
    × All (λ b. (0 < length b) × (length b ≤ 2)) (batches two_sent.0.handed)
reach-Bounded_example = reach-Bounded conf none two_sent.0 (omega arith) two_sent.1

-- Latencies in tenths of a millisecond, and as scores 100 less the milliseconds, which Score cuts off
-- and the parser of a row rounds.
abbrev timed : List ℕ → ℕ → ScanResult
timed key latency = record {
  key = key;
  score = 100 - latency / 10;
  row = key ∷ (latency ∷ []) ∷ [];
}

abbrev round_row : List Text → Option ScanResult
round_row (key ∷ (latency ∷ []) ∷ []) = some (timed key ((latency + 5) / 10 * 10))
round_row row = none

abbrev equal_scores : List ScanResult
equal_scores = timed (codes "10.0.0.1") 126 ∷ timed (codes "10.0.0.2") 122 ∷ []

abbrev scores : List ScanResult → List ℕ
scores [] = []
scores (r ∷ rs) = r.score ∷ scores rs

-- Two results of one score in memory get two scores at the next flush, which leaves them in the order
-- that they have.
rescored :
    scores
      (records (flush_all round_row none (equal_scores ∷ (timed (codes "10.0.0.3") 200 ∷ []) ∷ [])))
    ≡ 87 ∷ 88 ∷ 80 ∷ []
unfolding flush_all merge_results merge_with_existing prepared ordered
rescored = refl
