-- ===== src/Result/Writer/Counters.antt =====
-- internal/core/result/manager.go: what the counters of a writer and its first error come to.
use bgscan.Base.{
  ◌+◌, ◌≡◌, refl, false, not, ◌&&◌, ◌||◌, List, [], ◌∷◌, ◌++◌, Option, if◌then◌else◌, length,
  length-append, arith,
}
use bgscan.Result.{ScanResult}
use bgscan.Result.Writer.{
  WriterLimits, MergeOutcome, merged, failed, replaced, Writer, is_merged, flush, receive, LoopAct,
  LoopStep, Step, Reach, fresh, later,
}
use bgscan.Result.Writer.Accounts.{Same, flush-Same, results, merged_size, merged_count, any_error}

-- A call of Write has its result accepted or dropped, or still waits.
abbrev pub Counted : Writer → Type 0
Counted w = length w.accepted + length w.pending + w.dropped ≡ w.calls

Same-Counted : (w w' : Writer) → Same w w' → Counted w → Counted w'
Same-Counted w w' s h = rw (s.accepted, s.pending, s.dropped, s.calls) h

length-remove :
    (xs : List ScanResult) (r : ScanResult) (ys zs : List ScanResult)
    → zs ≡ xs ++ r ∷ ys
    → length zs ≡ length (xs ++ ys) + 1
length-remove xs r ys zs e = rw e (omega (arith, length-append xs (r ∷ ys), length-append xs ys))

LoopStep-Counted :
    {c : WriterLimits} {act : LoopAct} {w w' : Writer}
    → LoopStep c w act w'
    → Counted w
    → Counted w'
unfolding receive
LoopStep-Counted (LoopStep.receives r input l e) h = h
LoopStep-Counted (LoopStep.ticks_on l) h = h
LoopStep-Counted {c} {w = w} (LoopStep.flushes_batch o l) h =
    Same-Counted w (flush c o w.batch w) (flush-Same c o w.batch w) h
LoopStep-Counted (LoopStep.sees_done l d) h = h
LoopStep-Counted (LoopStep.drains r input l e) h = h
LoopStep-Counted (LoopStep.drains_last l e) h = h
LoopStep-Counted (LoopStep.sees_closed l d e) h = h
LoopStep-Counted {c} {w = w} (LoopStep.returns_cancelled o l) h =
    Same-Counted w (flush c o w.batch w) (flush-Same c o w.batch w) h
LoopStep-Counted {c} {w = w} (LoopStep.returns_finished o l) h =
    Same-Counted w (flush c o w.batch w) (flush-Same c o w.batch w) h

step-Counted : {c : WriterLimits} {w w' : Writer} → Step c w w' → Counted w → Counted w'
step-Counted (Step.start e) h = h
step-Counted (Step.start_fails e) h = h
step-Counted (Step.write_not_started e) h = omega (arith, h)
step-Counted (Step.write_cancelled e) h = omega (arith, h)
step-Counted (Step.write_begins r e d) h = omega (arith, h)
step-Counted {w = w} (Step.write_sends before r after e o room) h =
    omega (arith, h, length-append w.accepted (r ∷ []), length-remove before r after w.pending e)
step-Counted {w = w} (Step.write_closed before r after e o) h =
    omega (arith, h, length-remove before r after w.pending e)
step-Counted {w = w} (Step.write_gives_up before r after e o d) h =
    omega (arith, h, length-remove before r after w.pending e)
step-Counted (Step.close o e) h = h
step-Counted (Step.close_unstarted o e) h = h
step-Counted Step.cancel h = h
step-Counted (Step.loop_step e s) h = LoopStep-Counted s h

-- The statistics are those of the batches that were handed on, and an error of any of them is kept
-- unless it is to be ignored.
abbrev pub Tallied : WriterLimits → Writer → Type 0
Tallied c w =
    (w.written ≡ merged_size w.handed)
    × (w.flushes ≡ merged_count w.handed)
    × (w.first_err ≡ (not c.ignore_err && any_error w.handed))

merged_size-snoc :
    (hs : List (MergeOutcome × List ScanResult)) (o : MergeOutcome) (b : List ScanResult)
    → merged_size (hs ++ (o, b) ∷ []) ≡ merged_size hs + (if is_merged o then length b else 0)
merged_size-snoc [] o b = omega arith
merged_size-snoc ((p, d) ∷ hs) o b = omega (arith, merged_size-snoc hs o b)

merged_count-snoc :
    (hs : List (MergeOutcome × List ScanResult)) (o : MergeOutcome) (b : List ScanResult)
    → merged_count (hs ++ (o, b) ∷ []) ≡ merged_count hs + (if is_merged o then 1 else 0)
merged_count-snoc [] o b = omega arith
merged_count-snoc ((p, d) ∷ hs) o b = omega (arith, merged_count-snoc hs o b)

any_error-snoc :
    (hs : List (MergeOutcome × List ScanResult)) (o : MergeOutcome) (b : List ScanResult)
    → any_error (hs ++ (o, b) ∷ []) ≡ (any_error hs || not (is_merged o))
any_error-snoc [] merged b = refl
any_error-snoc [] failed b = refl
any_error-snoc [] replaced b = refl
any_error-snoc ((merged, d) ∷ hs) o b = any_error-snoc hs o b
any_error-snoc ((failed, d) ∷ hs) o b = refl
any_error-snoc ((replaced, d) ∷ hs) o b = refl

flush-Tallied :
    (c : WriterLimits) (o : MergeOutcome) (b : List ScanResult) (w : Writer)
    → Tallied c w
    → Tallied c (flush c o b w)
unfolding flush
flush-Tallied c o [] w t = t
flush-Tallied c merged (r ∷ rs) w t = (
  omega (arith, t.0, merged_size-snoc w.handed merged (r ∷ rs)),
  omega (arith, t.1, merged_count-snoc w.handed merged (r ∷ rs)),
  rw (any_error-snoc w.handed merged (r ∷ rs)) (ground (arith, t.2)),
)
flush-Tallied c failed (r ∷ rs) w t = (
  omega (arith, t.0, merged_size-snoc w.handed failed (r ∷ rs)),
  omega (arith, t.1, merged_count-snoc w.handed failed (r ∷ rs)),
  rw (any_error-snoc w.handed failed (r ∷ rs)) (ground (arith, t.2)),
)
flush-Tallied c replaced (r ∷ rs) w t = (
  omega (arith, t.0, merged_size-snoc w.handed replaced (r ∷ rs)),
  omega (arith, t.1, merged_count-snoc w.handed replaced (r ∷ rs)),
  rw (any_error-snoc w.handed replaced (r ∷ rs)) (ground (arith, t.2)),
)

LoopStep-Tallied :
    {c : WriterLimits} {act : LoopAct} {w w' : Writer}
    → LoopStep c w act w'
    → Tallied c w
    → Tallied c w'
unfolding receive
LoopStep-Tallied (LoopStep.receives r input l e) t = t
LoopStep-Tallied (LoopStep.ticks_on l) t = t
LoopStep-Tallied {c} {w = w} (LoopStep.flushes_batch o l) t = flush-Tallied c o w.batch w t
LoopStep-Tallied (LoopStep.sees_done l d) t = t
LoopStep-Tallied (LoopStep.drains r input l e) t = t
LoopStep-Tallied (LoopStep.drains_last l e) t = t
LoopStep-Tallied (LoopStep.sees_closed l d e) t = t
LoopStep-Tallied {c} {w = w} (LoopStep.returns_cancelled o l) t = flush-Tallied c o w.batch w t
LoopStep-Tallied {c} {w = w} (LoopStep.returns_finished o l) t = flush-Tallied c o w.batch w t

step-Tallied : {c : WriterLimits} {w w' : Writer} → Step c w w' → Tallied c w → Tallied c w'
step-Tallied (Step.start e) t = t
step-Tallied (Step.start_fails e) t = t
step-Tallied (Step.write_not_started e) t = t
step-Tallied (Step.write_cancelled e) t = t
step-Tallied (Step.write_begins r e d) t = t
step-Tallied (Step.write_sends before r after e o room) t = t
step-Tallied (Step.write_closed before r after e o) t = t
step-Tallied (Step.write_gives_up before r after e o d) t = t
step-Tallied (Step.close o e) t = t
step-Tallied (Step.close_unstarted o e) t = t
step-Tallied Step.cancel t = t
step-Tallied (Step.loop_step e s) t = LoopStep-Tallied s t

pub reach-Tallied :
    {c : WriterLimits} {old : Option (List ScanResult)} {w : Writer} → Reach c old w → Tallied c w
reach-Tallied {c} fresh = (refl, refl, ground arith)
reach-Tallied (later r s) = step-Tallied s (reach-Tallied r)

pub reach-Counted :
    {c : WriterLimits} {old : Option (List ScanResult)} {w : Writer} → Reach c old w → Counted w
reach-Counted fresh = refl
reach-Counted (later r s) = step-Counted s (reach-Counted r)

-- What is neither written nor handed over with an error is still in the writer.
pub merged_size-results :
    (hs : List (MergeOutcome × List ScanResult))
    → any_error hs ≡ false
    → merged_size hs ≡ length (results hs)
merged_size-results [] h = refl
merged_size-results ((merged, b) ∷ hs) h =
    omega (arith, length-append b (results hs), merged_size-results hs h)
merged_size-results ((failed, b) ∷ hs) h = cc
merged_size-results ((replaced, b) ∷ hs) h = cc
