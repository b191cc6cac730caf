-- ===== src/Result/Writer/Complete.antt =====
-- internal/core/result/manager.go: the file after Close.
use bgscan.Base.{
  ◌+◌, ◌≡◌, ◌≢◌, refl, sym, ap, ◌∙◌, true, false, List, [], ◌∷◌, ◌++◌, Option, none, leb, length,
  arith, Bool, subst, All, if◌then◌else◌,
}
use mathlib.Core.List.{append-nil}
use bgscan.Config.Texts.{Text}
use bgscan.Result.{ScanResult}
use bgscan.Result.Merge.{Parser, merge_results, flush_all}
use bgscan.Result.Merge.Kept.{IsKept}
use bgscan.Result.Writer.{
  WriterLimits, started, finished, MergeOutcome, merged, failed, replaced, Writer, flush, receive,
  Loop, running, flushing, closing, LoopAct, LoopStep, Step, Reach, fresh, later,
}
use bgscan.Result.Best.{Descending, UniqueKeys, score_of, best}
use bgscan.Result.Merge.Refines.{records, concat, flush_all-best}
use bgscan.Result.Writer.Accounts.{flush-Same, results, stored, any_error, reach-InOrder}
use bgscan.Result.Writer.Counters.{reach-Counted, reach-Tallied, merged_size-results}

-- The file is what the batches make of it that reached it, from the start on.
abbrev pub Filed : WriterLimits → Writer → Type 0
Filed c w =
    (w.start_state ≢ started → w.handed ≡ [])
    × (w.start_state ≡ started → w.file ≡ flush_all c.parser none (stored w.handed))

flush_all-snoc :
    (parser : Parser) (file : Option (List ScanResult)) (bs : List (List ScanResult))
    (b : List ScanResult)
    → flush_all parser file (bs ++ b ∷ []) ≡ merge_results parser (flush_all parser file bs) b
unfolding flush_all
flush_all-snoc parser file [] b = refl
flush_all-snoc parser file (x ∷ bs) b = flush_all-snoc parser (merge_results parser file x) bs b

stored-snoc :
    (hs : List (MergeOutcome × List ScanResult)) (o : MergeOutcome) (b : List ScanResult)
    → stored (hs ++ (o, b) ∷ []) ≡ stored hs ++ stored ((o, b) ∷ [])
stored-snoc [] o b = refl
stored-snoc ((merged, d) ∷ hs) o b = ap (λ x. d ∷ x) (stored-snoc hs o b)
stored-snoc ((failed, d) ∷ hs) o b = stored-snoc hs o b
stored-snoc ((replaced, d) ∷ hs) o b = ap (λ x. d ∷ x) (stored-snoc hs o b)

-- The file after a flush that reaches it.
stores :
    (parser : Parser) (file : Option (List ScanResult)) (hs : List (MergeOutcome × List ScanResult))
    (o : MergeOutcome) (b : List ScanResult)
    → stored ((o, b) ∷ []) ≡ b ∷ []
    → file ≡ flush_all parser none (stored hs)
    → merge_results parser file b ≡ flush_all parser none (stored (hs ++ (o, b) ∷ []))
stores parser file hs o b s e =
    ap (λ f. merge_results parser f b) e
    ∙ sym (flush_all-snoc parser none (stored hs) b)
    ∙ ap (λ x. flush_all parser none (stored hs ++ x)) (sym s)
    ∙ ap (flush_all parser none) (sym (stored-snoc hs o b))

flush-Filed :
    (c : WriterLimits) (o : MergeOutcome) (b : List ScanResult) (w : Writer)
    → w.start_state ≡ started
    → Filed c w
    → Filed c (flush c o b w)
unfolding flush
flush-Filed c o [] w e f = f
flush-Filed c merged (r ∷ rs) w e f =
    (λ n. absurd (n e), λ _. stores c.parser w.file w.handed merged (r ∷ rs) refl (f.1 e))
flush-Filed c failed (r ∷ rs) w e f = (
  λ n. absurd (n e),
  λ _.
      f.1 e
      ∙ ap (flush_all c.parser none)
          (sym (append-nil (stored w.handed)) ∙ sym (stored-snoc w.handed failed (r ∷ rs))),
)
flush-Filed c replaced (r ∷ rs) w e f =
    (λ n. absurd (n e), λ _. stores c.parser w.file w.handed replaced (r ∷ rs) refl (f.1 e))

LoopStep-Filed :
    {c : WriterLimits} {act : LoopAct} {w w' : Writer}
    → w.start_state ≡ started
    → LoopStep c w act w'
    → Filed c w
    → Filed c w'
unfolding receive
LoopStep-Filed e (LoopStep.receives r input l i) f = f
LoopStep-Filed e (LoopStep.ticks_on l) f = f
LoopStep-Filed {c} {w = w} e (LoopStep.flushes_batch o l) f = flush-Filed c o w.batch w e f
LoopStep-Filed e (LoopStep.sees_done l d) f = f
LoopStep-Filed e (LoopStep.drains r input l i) f = f
LoopStep-Filed e (LoopStep.drains_last l i) f = f
LoopStep-Filed e (LoopStep.sees_closed l d i) f = f
LoopStep-Filed {c} {w = w} e (LoopStep.returns_cancelled o l) f = flush-Filed c o w.batch w e f
LoopStep-Filed {c} {w = w} e (LoopStep.returns_finished o l) f = flush-Filed c o w.batch w e f

step-Filed : {c : WriterLimits} {w w' : Writer} → Step c w w' → Filed c w → Filed c w'
unfolding flush_all
step-Filed {c} {w} (Step.start e) f =
    let none_yet : w.handed ≡ [] = f.0 (λ s. cc (e, s)) in
    (λ n. none_yet, λ _. ap (λ hs. flush_all c.parser none (stored hs)) (sym none_yet))
step-Filed {w = w} (Step.start_fails e) f = (λ n. f.0 (λ s. cc (e, s)), λ s. cc)
step-Filed (Step.write_not_started e) f = f
step-Filed (Step.write_cancelled e) f = f
step-Filed (Step.write_begins r e d) f = f
step-Filed (Step.write_sends before r after e o room) f = f
step-Filed (Step.write_closed before r after e o) f = f
step-Filed (Step.write_gives_up before r after e o d) f = f
step-Filed (Step.close o e) f = f
step-Filed (Step.close_unstarted o e) f = f
step-Filed Step.cancel f = f
step-Filed (Step.loop_step e s) f = LoopStep-Filed e s f

pub reach-Filed :
    {c : WriterLimits} {old : Option (List ScanResult)} {w : Writer} → Reach c old w → Filed c w
reach-Filed fresh = (λ n. refl, λ s. cc)
reach-Filed (later r s) = step-Filed s (reach-Filed r)

-- Where the loop has seen the channel closed, no result waits in it; where it has returned after that,
-- none waits in the batch.
abbrev pub is_over : Loop → Bool
is_over closing = true
is_over finished = true
is_over l = false

abbrev pub Finished : Writer → Type 0
Finished w =
    (is_over w.loop ≡ true → (w.start_state ≡ started) × (w.closed ≡ true) × (w.input ≡ []))
    × (w.loop ≡ finished → w.batch ≡ [])

pub flush-empties :
    (c : WriterLimits) (o : MergeOutcome) (b : List ScanResult) (w : Writer)
    → w.batch ≡ b
    → (flush c o b w).batch ≡ []
unfolding flush
flush-empties c o [] w e = e
flush-empties c merged (r ∷ rs) w e = refl
flush-empties c failed (r ∷ rs) w e = refl
flush-empties c replaced (r ∷ rs) w e = refl

is_over-running : (b : Bool) → is_over (if b then flushing else running) ≡ true → ⊥
is_over-running true h = cc
is_over-running false h = cc

running_on : (b : Bool) → (if b then flushing else running) ≡ finished → ⊥
running_on true h = cc
running_on false h = cc

LoopStep-Finished :
    {c : WriterLimits} {act : LoopAct} {w w' : Writer}
    → w.start_state ≡ started
    → LoopStep c w act w'
    → Finished w
    → Finished w'
unfolding receive
LoopStep-Finished {c} {w = w} e (LoopStep.receives r input l i) f =
    let full = leb c.batch_size (length (w.batch ++ r ∷ [])) in
    (λ h. absurd (is_over-running full h), λ h. absurd (running_on full h))
LoopStep-Finished e (LoopStep.ticks_on l) f = (λ h. cc, λ h. cc)
LoopStep-Finished e (LoopStep.flushes_batch o l) f = (λ h. cc, λ h. cc)
LoopStep-Finished e (LoopStep.sees_done l d) f = (λ h. cc, λ h. cc)
LoopStep-Finished e (LoopStep.drains r input l i) f =
    (λ h. absurd (cc (h, ap is_over l)), λ h. cc (h, l))
LoopStep-Finished e (LoopStep.drains_last l i) f = (λ h. cc, λ h. cc)
LoopStep-Finished e (LoopStep.sees_closed l d i) f = (λ h. (e, d, i), λ h. cc)
LoopStep-Finished e (LoopStep.returns_cancelled o l) f = (λ h. cc, λ h. cc)
LoopStep-Finished {c} {w = w} e (LoopStep.returns_finished o l) f =
    let same = flush-Same c o w.batch w in
    let p = f.0 (ap is_over l) in
    (
      λ h. (same.start_state ∙ e, same.closed ∙ p.1, same.input ∙ p.2),
      λ h. flush-empties c o w.batch w refl,
    )

step-Finished : {c : WriterLimits} {w w' : Writer} → Step c w w' → Finished w → Finished w'
step-Finished (Step.start e) f = (λ h. let p = f.0 h in (refl, p.1, p.2), f.1)
step-Finished (Step.start_fails e) f = (λ h. let p = f.0 h in absurd (cc (e, p.0)), f.1)
step-Finished (Step.write_not_started e) f = f
step-Finished (Step.write_cancelled e) f = f
step-Finished (Step.write_begins r e d) f = f
step-Finished (Step.write_sends before r after e o room) f =
    (λ h. let p = f.0 h in absurd (cc (o, p.1)), f.1)
step-Finished (Step.write_closed before r after e o) f = f
step-Finished (Step.write_gives_up before r after e o d) f = f
step-Finished (Step.close o e) f = (λ h. let p = f.0 h in (p.0, refl, p.2), f.1)
step-Finished (Step.close_unstarted o e) f = (λ h. let p = f.0 h in (p.0, refl, p.2), f.1)
step-Finished Step.cancel f = f
step-Finished (Step.loop_step e s) f = LoopStep-Finished e s f

pub reach-Finished :
    {c : WriterLimits} {old : Option (List ScanResult)} {w : Writer} → Reach c old w → Finished w
reach-Finished fresh = (λ h. cc, λ h. cc)
reach-Finished (later r s) = step-Finished s (reach-Finished r)

concat-stored :
    (hs : List (MergeOutcome × List ScanResult))
    → any_error hs ≡ false
    → concat (stored hs) ≡ results hs
concat-stored [] h = refl
concat-stored ((merged, b) ∷ hs) h = ap (λ x. b ++ x) (concat-stored hs h)
concat-stored ((failed, b) ∷ hs) h = cc
concat-stored ((replaced, b) ∷ hs) h = cc

-- In every order of the steps of the callers and the loop, for a writer that does not ignore errors and
-- results whose rows are read back as these results: when the loop has returned after Close and no error
-- was kept, the file is sorted, no key occurs twice in it, every key has the best score among all results
-- that were accepted, Written counts each of these, and every other call of Write is counted in Dropped
-- or has not returned yet.
pub finished_complete :
    (c : WriterLimits) (old : Option (List ScanResult)) (w : Writer) (k : Text)
    → Reach c old w
    → All (IsKept c.parser) w.accepted
    → c.ignore_err ≡ false
    → w.loop ≡ finished
    → w.first_err ≡ false
    → let file = records w.file in
      Descending file
      × UniqueKeys file
      × (score_of k file ≡ best k w.accepted)
      × (w.written ≡ length w.accepted)
      × (w.written + length w.pending + w.dropped ≡ w.calls)
finished_complete c old w k r kept i l e =
    let over = reach-Finished r in
    let p = over.0 (ap is_over l) in
    let t = reach-Tallied r in
    let clean : any_error w.handed ≡ false = ground (arith, t.2, i, e) in
    let all : w.accepted ≡ results w.handed =
      reach-InOrder r
      ∙ ap (λ x. results w.handed ++ x) (cc (p.2, over.1 l))
      ∙ append-nil (results w.handed) in
    let filed : w.file ≡ flush_all c.parser none (stored w.handed) = (reach-Filed r).1 p.0 in
    let count : w.written ≡ length w.accepted =
      t.0 ∙ merged_size-results w.handed clean ∙ ap length (sym all) in
    let stored_all : concat (stored w.handed) ≡ w.accepted =
      concat-stored w.handed clean ∙ sym all in
    let best_of =
      flush_all-best c.parser (stored w.handed) k
        (subst (All (IsKept c.parser)) (sym stored_all) kept) in
    rw filed (
      best_of.0,
      best_of.1,
      best_of.2 ∙ ap (best k) stored_all,
      count,
      omega (arith, count, reach-Counted r),
    )
