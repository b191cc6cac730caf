-- ===== src/Result/Writer/Accounts.antt =====
-- internal/core/result/manager.go: what the counters and the order of the results of a writer come to
-- in every state that it reaches.
use bgscan.Base.{
  ℕ, ◌+◌, ◌≡◌, refl, sym, ap, ◌∙◌, Bool, false, not, ◌||◌, List, [], ◌∷◌, ◌++◌, Option,
  if◌then◌else◌, length,
}
use mathlib.Core.List.{append-nil, append_assoc}
use bgscan.Result.{ScanResult}
use bgscan.Result.Writer.{
  WriterLimits, MergeOutcome, merged, failed, replaced, Writer, is_merged, flush, receive, LoopAct,
  LoopStep, Step, Reach, fresh, later,
}

-- All results that were handed to mergeResults, in order.
abbrev pub results : List (MergeOutcome × List ScanResult) → List ScanResult
results [] = []
results ((o, b) ∷ hs) = b ++ results hs

-- The batches that reached the file.
abbrev pub stored : List (MergeOutcome × List ScanResult) → List (List ScanResult)
stored [] = []
stored ((merged, b) ∷ hs) = b ∷ stored hs
stored ((failed, b) ∷ hs) = stored hs
stored ((replaced, b) ∷ hs) = b ∷ stored hs

-- How many results, and how many batches, were merged without an error.
abbrev pub merged_size : List (MergeOutcome × List ScanResult) → ℕ
merged_size [] = 0
merged_size ((o, b) ∷ hs) = (if is_merged o then length b else 0) + merged_size hs

abbrev pub merged_count : List (MergeOutcome × List ScanResult) → ℕ
merged_count [] = 0
merged_count ((o, b) ∷ hs) = (if is_merged o then 1 else 0) + merged_count hs

abbrev pub any_error : List (MergeOutcome × List ScanResult) → Bool
any_error [] = false
any_error ((o, b) ∷ hs) = not (is_merged o) || any_error hs

results-snoc :
    (hs : List (MergeOutcome × List ScanResult)) (o : MergeOutcome) (b : List ScanResult)
    → results (hs ++ (o, b) ∷ []) ≡ results hs ++ b
results-snoc [] o b = append-nil b
results-snoc ((p, d) ∷ hs) o b =
    ap (λ x. d ++ x) (results-snoc hs o b) ∙ sym (append_assoc d (results hs) b)

-- What a flush does not touch.
pub record Same (w w' : Writer) : Type 0 where
  pub start_state : w'.start_state ≡ w.start_state
  pub closed : w'.closed ≡ w.closed
  pub input : w'.input ≡ w.input
  pub loop : w'.loop ≡ w.loop
  pub dropped : w'.dropped ≡ w.dropped
  pub pending : w'.pending ≡ w.pending
  pub accepted : w'.accepted ≡ w.accepted
  pub calls : w'.calls ≡ w.calls

pub flush-Same :
    (c : WriterLimits) (o : MergeOutcome) (b : List ScanResult) (w : Writer)
    → Same w (flush c o b w)
unfolding flush
flush-Same c o [] w = record {
  start_state = refl;
  closed = refl;
  input = refl;
  loop = refl;
  dropped = refl;
  pending = refl;
  accepted = refl;
  calls = refl;
}
flush-Same c merged (r ∷ rs) w = record {
  start_state = refl;
  closed = refl;
  input = refl;
  loop = refl;
  dropped = refl;
  pending = refl;
  accepted = refl;
  calls = refl;
}
flush-Same c failed (r ∷ rs) w = record {
  start_state = refl;
  closed = refl;
  input = refl;
  loop = refl;
  dropped = refl;
  pending = refl;
  accepted = refl;
  calls = refl;
}
flush-Same c replaced (r ∷ rs) w = record {
  start_state = refl;
  closed = refl;
  input = refl;
  loop = refl;
  dropped = refl;
  pending = refl;
  accepted = refl;
  calls = refl;
}

-- Every result that was accepted is in a batch that was handed on, or waits, in the order of the calls.
abbrev pub InOrder : Writer → Type 0
InOrder w = w.accepted ≡ results w.handed ++ (w.batch ++ w.input)

handed_on :
    (hs : List (MergeOutcome × List ScanResult)) (o : MergeOutcome) (b rest : List ScanResult)
    → results hs ++ (b ++ rest) ≡ results (hs ++ (o, b) ∷ []) ++ rest
handed_on hs o b rest =
    sym (append_assoc (results hs) b rest) ∙ ap (λ x. x ++ rest) (sym (results-snoc hs o b))

flush-InOrder :
    (c : WriterLimits) (o : MergeOutcome) (b : List ScanResult) (w : Writer)
    → w.batch ≡ b
    → InOrder w
    → InOrder (flush c o b w)
unfolding flush
flush-InOrder c o [] w e h = h
flush-InOrder c merged (r ∷ rs) w e h =
    h ∙ ap (λ b. results w.handed ++ (b ++ w.input)) e ∙ handed_on w.handed merged (r ∷ rs) w.input
flush-InOrder c failed (r ∷ rs) w e h =
    h ∙ ap (λ b. results w.handed ++ (b ++ w.input)) e ∙ handed_on w.handed failed (r ∷ rs) w.input
flush-InOrder c replaced (r ∷ rs) w e h =
    h
    ∙ ap (λ b. results w.handed ++ (b ++ w.input)) e
    ∙ handed_on w.handed replaced (r ∷ rs) w.input

-- A result is taken from the channel into the batch.
taken :
    (hs : List (MergeOutcome × List ScanResult)) (b : List ScanResult) (r : ScanResult)
    (input rest : List ScanResult)
    → input ≡ r ∷ rest
    → results hs ++ (b ++ input) ≡ results hs ++ ((b ++ r ∷ []) ++ rest)
taken hs b r input rest e =
    ap (λ i. results hs ++ (b ++ i)) e
    ∙ ap (λ x. results hs ++ x) (sym (append_assoc b (r ∷ []) rest))

LoopStep-InOrder :
    {c : WriterLimits} {act : LoopAct} {w w' : Writer}
    → LoopStep c w act w'
    → InOrder w
    → InOrder w'
unfolding receive
LoopStep-InOrder {w = w} (LoopStep.receives r input l e) h =
    h ∙ taken w.handed w.batch r w.input input e
LoopStep-InOrder (LoopStep.ticks_on l) h = h
LoopStep-InOrder {c} {w = w} (LoopStep.flushes_batch o l) h = flush-InOrder c o w.batch w refl h
LoopStep-InOrder (LoopStep.sees_done l d) h = h
LoopStep-InOrder {w = w} (LoopStep.drains r input l e) h =
    h ∙ taken w.handed w.batch r w.input input e
LoopStep-InOrder (LoopStep.drains_last l e) h = h
LoopStep-InOrder (LoopStep.sees_closed l d e) h = h
LoopStep-InOrder {c} {w = w} (LoopStep.returns_cancelled o l) h = flush-InOrder c o w.batch w refl h
LoopStep-InOrder {c} {w = w} (LoopStep.returns_finished o l) h = flush-InOrder c o w.batch w refl h

step-InOrder : {c : WriterLimits} {w w' : Writer} → Step c w w' → InOrder w → InOrder w'
step-InOrder (Step.start e) h = h
step-InOrder (Step.start_fails e) h = h
step-InOrder (Step.write_not_started e) h = h
step-InOrder (Step.write_cancelled e) h = h
step-InOrder (Step.write_begins r e d) h = h
step-InOrder {w = w} (Step.write_sends before r after e o room) h =
    ap (λ x. x ++ r ∷ []) h
    ∙ append_assoc (results w.handed) (w.batch ++ w.input) (r ∷ [])
    ∙ ap (λ x. results w.handed ++ x) (append_assoc w.batch w.input (r ∷ []))
step-InOrder (Step.write_closed before r after e o) h = h
step-InOrder (Step.write_gives_up before r after e o d) h = h
step-InOrder (Step.close o e) h = h
step-InOrder (Step.close_unstarted o e) h = h
step-InOrder Step.cancel h = h
step-InOrder (Step.loop_step e s) h = LoopStep-InOrder s h

pub reach-InOrder :
    {c : WriterLimits} {old : Option (List ScanResult)} {w : Writer} → Reach c old w → InOrder w
reach-InOrder fresh = refl
reach-InOrder (later r s) = step-InOrder s (reach-InOrder r)
