-- ===== src/Result/Writer.antt =====
-- internal/core/result/manager.go: the writer of a result file, as the steps that its callers and
-- its loop take in any order. `pending` are the calls of Write that have passed the test of the
-- context and wait for the channel; `Close` and the parent's cancellation come at any time.

pub mod Accounts
pub mod Counters
pub mod Complete
pub mod Progress
pub mod Bounds
use bgscan.Base.{
  ℕ, ◌+◌, ◌≤◌, ◌<◌, ◌≡◌, ◌≢◌, Bool, true, false, not, List, [], ◌∷◌, ◌++◌, Option, none, some, leb,
  if◌then◌else◌, length,
}
use bgscan.Result.{ScanResult}
use bgscan.Result.Merge.{Parser, merge_results}

-- The fields of config.WriterConfig that the writer reads, but the paths and the interval, and the
-- parser of its schema.
pub record WriterLimits : Type 0 where
  pub chan_size : ℕ
  pub batch_size : ℕ
  pub ignore_err : Bool
  pub parser : Parser

-- startOnce: not run, run with an error, run without.
pub data Started : Type 0 where
  new : Started
  start_failed : Started
  started : Started

-- Where the loop is: it waits in its select; it is about to flush and go back to it; it is in
-- drainIntoBatch as the context was done; it is about to flush and return, after that or as the channel
-- was closed; it has returned.
pub data Loop : Type 0 where
  running : Loop
  flushing : Loop
  draining : Loop
  drained : Loop
  closing : Loop
  cancelled : Loop
  finished : Loop

-- mergeResults: no error, an error before the file is replaced, an error after it.
pub data MergeOutcome : Type 0 where
  merged : MergeOutcome
  failed : MergeOutcome
  replaced : MergeOutcome

-- The writer, and what its callers saw: `accepted` are the results that were sent to the channel,
-- `handed` the batches that flush gave to mergeResults, `calls` the number of calls of Write.
pub record Writer : Type 0 where
  pub start_state : Started
  pub ctx_done : Bool
  pub closed : Bool
  pub input : List ScanResult
  pub loop : Loop
  pub batch : List ScanResult
  pub first_err : Bool
  pub file : Option (List ScanResult)
  pub written : ℕ
  pub dropped : ℕ
  pub flushes : ℕ
  pub pending : List ScanResult
  pub accepted : List ScanResult
  pub handed : List (MergeOutcome × List ScanResult)
  pub calls : ℕ

abbrev pub new_writer : Option (List ScanResult) → Writer
new_writer file = record {
  start_state = new;
  ctx_done = false;
  closed = false;
  input = [];
  loop = running;
  batch = [];
  first_err = false;
  file = file;
  written = 0;
  dropped = 0;
  flushes = 0;
  pending = [];
  accepted = [];
  handed = [];
  calls = 0;
}

abbrev pub is_merged : MergeOutcome → Bool
is_merged merged = true
is_merged failed = false
is_merged replaced = false

-- flush after the copy of the batch, up to its counters.
abbrev pub flush_batch : WriterLimits → MergeOutcome → List ScanResult → Writer → Writer
flush_batch c merged batch w = record w {
  batch = [];
  file = merge_results c.parser w.file batch;
  flushes = w.flushes + 1;
  written = w.written + length batch;
  handed = w.handed ++ (merged, batch) ∷ [];
}
flush_batch c failed batch w = record w {
  batch = [];
  first_err = if c.ignore_err then w.first_err else true;
  handed = w.handed ++ (failed, batch) ∷ [];
}
flush_batch c replaced batch w = record w {
  batch = [];
  file = merge_results c.parser w.file batch;
  first_err = if c.ignore_err then w.first_err else true;
  handed = w.handed ++ (replaced, batch) ∷ [];
}

-- Whether flush returns true.
abbrev pub is_fatal : WriterLimits → MergeOutcome → List ScanResult → Bool
is_fatal c o [] = false
is_fatal c o (r ∷ rs) = if is_merged o then false else not c.ignore_err

unfoldable pub flush : WriterLimits → MergeOutcome → List ScanResult → Writer → Writer
flush c o [] w = w
flush c o (r ∷ rs) w = flush_batch c o (r ∷ rs) w

-- A flush after which the loop goes back to its select; a fatal one cancels the context.
abbrev pub flush_or_cancel : WriterLimits → MergeOutcome → Writer → Writer
flush_or_cancel c o w =
    let after : Writer = flush c o w.batch w in
    record after {
      ctx_done = if is_fatal c o w.batch then true else after.ctx_done;
      loop = running;
    }

-- The case of the loop that receives from the channel, up to its flush.
unfoldable pub receive : WriterLimits → ScanResult → List ScanResult → Writer → Writer
receive c r input w = record w {
  input = input;
  batch = w.batch ++ r ∷ [];
  loop = if leb c.batch_size (length (w.batch ++ r ∷ [])) then flushing else running;
}

-- The last flush and the return of the loop, with its deferred cancellation.
abbrev pub exit_loop : WriterLimits → MergeOutcome → Loop → Writer → Writer
exit_loop c o loop w = record (flush c o w.batch w) { loop = loop; ctx_done = true }

-- A kind of step of the loop: the timer of its select, a flush after which it goes on, or another.
pub data LoopAct : Type 0 where
  ticks : LoopAct
  flushes : LoopAct
  proceeds : LoopAct

pub data LoopStep (c : WriterLimits) (w : Writer) : LoopAct → Writer → Type 0 where
  receives :
      (r : ScanResult) (input : List ScanResult)
      → w.loop ≡ running
      → w.input ≡ r ∷ input
      → LoopStep c w proceeds (receive c r input w)
  ticks_on : w.loop ≡ running → LoopStep c w ticks (record w { loop = flushing })
  flushes_batch :
      (o : MergeOutcome) → w.loop ≡ flushing → LoopStep c w flushes (flush_or_cancel c o w)
  sees_done :
      w.loop ≡ running → w.ctx_done ≡ true → LoopStep c w proceeds (record w { loop = draining })
  drains :
      (r : ScanResult) (input : List ScanResult)
      → w.loop ≡ draining
      → w.input ≡ r ∷ input
      → LoopStep c w proceeds (record w { input = input; batch = w.batch ++ r ∷ [] })
  drains_last :
      w.loop ≡ draining → w.input ≡ [] → LoopStep c w proceeds (record w { loop = drained })
  sees_closed :
      w.loop ≡ running
      → w.closed ≡ true
      → w.input ≡ []
      → LoopStep c w proceeds (record w { loop = closing })
  returns_cancelled :
      (o : MergeOutcome) → w.loop ≡ drained → LoopStep c w proceeds (exit_loop c o cancelled w)
  returns_finished :
      (o : MergeOutcome) → w.loop ≡ closing → LoopStep c w proceeds (exit_loop c o finished w)

pub data Step (c : WriterLimits) (w : Writer) : Writer → Type 0 where
  -- Start, the first time.
  start : w.start_state ≡ new → Step c w (record w { start_state = started; file = none })
  start_fails : w.start_state ≡ new → Step c w (record w { start_state = start_failed })
  -- Write.
  write_not_started :
      w.start_state ≢ started → Step c w (record w { dropped = w.dropped + 1; calls = w.calls + 1 })
  write_cancelled :
      w.ctx_done ≡ true → Step c w (record w { dropped = w.dropped + 1; calls = w.calls + 1 })
  write_begins :
      (r : ScanResult)
      → w.start_state ≡ started
      → w.ctx_done ≡ false
      → Step c w (record w { pending = r ∷ w.pending; calls = w.calls + 1 })
  write_sends :
      (before : List ScanResult) (r : ScanResult) (after : List ScanResult)
      → w.pending ≡ before ++ r ∷ after
      → w.closed ≡ false
      → length w.input < c.chan_size
      → Step c w (record w {
        pending = before ++ after;
        input = w.input ++ r ∷ [];
        accepted = w.accepted ++ r ∷ [];
      })
  write_closed :
      (before : List ScanResult) (r : ScanResult) (after : List ScanResult)
      → w.pending ≡ before ++ r ∷ after
      → w.closed ≡ true
      → Step c w (record w { pending = before ++ after; dropped = w.dropped + 1 })
  write_gives_up :
      (before : List ScanResult) (r : ScanResult) (after : List ScanResult)
      → w.pending ≡ before ++ r ∷ after
      → w.closed ≡ false
      → w.ctx_done ≡ true
      → Step c w (record w { pending = before ++ after; dropped = w.dropped + 1 })
  -- Close, up to its wait for the loop, and the parent's cancellation.
  close : w.closed ≡ false → w.start_state ≡ started → Step c w (record w { closed = true })
  close_unstarted :
      w.closed ≡ false
      → w.start_state ≢ started
      → Step c w (record w { closed = true; ctx_done = true })
  cancel : Step c w (record w { ctx_done = true })
  -- The loop, which Start has started.
  loop_step :
      {act : LoopAct} {w' : Writer} → w.start_state ≡ started → LoopStep c w act w' → Step c w w'

-- What a writer can come to from NewWriter, whatever file there was.
pub data Reach (c : WriterLimits) (old : Option (List ScanResult)) : Writer → Type 0 where
  fresh : Reach c old (new_writer old)
  later : {w w' : Writer} → Reach c old w → Step c w w' → Reach c old w'
