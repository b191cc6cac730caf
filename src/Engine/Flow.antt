-- ===== src/Engine/Flow.antt =====
-- internal/core/scanner/engine/chain.go: runStreaming, streamStageFromFile, streamStage and forward, with
-- runWorker of worker.go, as steps that the goroutines take in any order, up to the first cancellation.
-- No stage has a limit. A station is a stage with the channel that it receives from.

pub mod Attempts
pub mod Counts
pub mod Ends
pub mod Progress
pub mod Exact
use bgscan.Base.{
  ℕ, suc, ◌+◌, ◌*◌, ◌<◌, ◌≡◌, Bool, true, false, List, [], ◌∷◌, ◌++◌, length, Option, none, some,
}
use bgscan.Result.{ScanResult}
use bgscan.Engine.Errors.{Error, terminating}
use bgscan.Engine.Chain.{get_worker_count, create_stage_channels}
use bgscan.Engine.Stage.{StageConfig, Attempt, Executor, new_executor, process_ip}

-- `busy` are the addresses that workers probe, `passing` those that they wait to forward.
pub record Station (A : Type 0) : Type 0 where
  pub world : A → Attempt
  pub ignore_writer_err : Bool
  pub capacity : ℕ
  pub workers : ℕ
  pub queue : List A
  pub closed : Bool
  pub busy : List A
  pub passing : List A
  pub reported : List ScanResult
  pub total : ℕ

abbrev pub new_station : {A : Type 0} → (A → Attempt) → Bool → ℕ → ℕ → ℕ → Station A
new_station world ignore capacity workers total = record {
  world = world;
  ignore_writer_err = ignore;
  capacity = capacity;
  workers = workers;
  queue = [];
  closed = false;
  busy = [];
  passing = [];
  reported = [];
  total = total;
}

-- Of a stage: what its addresses meet, and the number of workers that is configured.
pub record StageSpec (A : Type 0) : Type 0 where
  pub world : A → Attempt
  pub workers : ℕ

abbrev pub workers_of : {A : Type 0} → List (StageSpec A) → List ℕ
workers_of [] = []
workers_of (c ∷ cs) = c.workers ∷ workers_of cs

-- The stages after the first, with the channels that they receive from.
abbrev pub later_stations : {A : Type 0} → Bool → List ℕ → List (StageSpec A) → List (Station A)
later_stations ignore [] cs = []
later_stations ignore (size ∷ sizes) [] = []
later_stations ignore (size ∷ sizes) (c ∷ cs) =
    new_station c.world ignore size (get_worker_count c.workers) 0 ∷ later_stations ignore sizes cs

-- The first stage receives from the channel of streamStageFromFile, and has the total of countInput.
unfoldable pub open_stations :
    {A : Type 0} → Bool → ℕ → ℕ → StageSpec A → List (StageSpec A) → List (Station A)
open_stations ignore buffer total c cs =
    new_station c.world ignore (get_worker_count c.workers * 2) (get_worker_count c.workers) total
    ∷ later_stations ignore (create_stage_channels buffer (c.workers ∷ workers_of cs)) cs

-- One call of processIP at a stage without a limit: what it adds to the results, and what it returns.
abbrev pub streaming_config : Bool → StageConfig
streaming_config ignore = record {
  result_limit = 0;
  ignore_writer_err = ignore;
  writer_disabled = false;
}

abbrev pub attempt : {A : Type 0} → Station A → A → Executor × Option Error
attempt s ip = process_ip (streaming_config s.ignore_writer_err) (s.world ip) (new_executor 0)

-- A step of the stages from one on. There is none for a call of processIP with an error that ends the
-- scan: stageErr cancels the pipeline then.
pub data Step (A : Type 0) : List (Station A) → List (Station A) → Type 0 where
  -- A worker receives an address.
  receives :
      {s : Station A} {ss : List (Station A)} (ip : A) (rest : List A)
      → s.queue ≡ ip ∷ rest
      → length s.busy + length s.passing < s.workers
      → Step A (s ∷ ss) (record s { queue = rest; busy = ip ∷ s.busy } ∷ ss)
  -- processIP returns an error that does not end the scan, and it is logged.
  fails_ip :
      {s : Station A} {ss : List (Station A)} (before : List A) (ip : A) (after : List A)
      (err : Error)
      → s.busy ≡ before ++ ip ∷ after
      → (attempt s ip).1 ≡ some err
      → terminating err ≡ false
      → Step A (s ∷ ss) (
          record s { busy = before ++ after; reported = s.reported ++ (attempt s ip).0.reported }
          ∷ ss)
  -- processIP returns nil, at the last stage and before it.
  passes_last :
      {s : Station A} (before : List A) (ip : A) (after : List A)
      → s.busy ≡ before ++ ip ∷ after
      → (attempt s ip).1 ≡ none
      → Step A (s ∷ []) (
          record s { busy = before ++ after; reported = s.reported ++ (attempt s ip).0.reported }
          ∷ [])
  passes_ip :
      {s t : Station A} {ss : List (Station A)} (before : List A) (ip : A) (after : List A)
      → s.busy ≡ before ++ ip ∷ after
      → (attempt s ip).1 ≡ none
      → Step A (s ∷ t ∷ ss) (
          record s {
            busy = before ++ after;
            passing = ip ∷ s.passing;
            reported = s.reported ++ (attempt s ip).0.reported;
          }
          ∷ t
          ∷ ss)
  -- forward sends an address and counts it.
  forwards :
      {s t : Station A} {ss : List (Station A)} (before : List A) (ip : A) (after : List A)
      → s.passing ≡ before ++ ip ∷ after
      → length t.queue < t.capacity
      → Step A (s ∷ t ∷ ss) (
          record s { passing = before ++ after }
          ∷ record t { queue = t.queue ++ ip ∷ []; total = t.total + 1 }
          ∷ ss)
  -- The pool of a stage ends, and its output is closed.
  closes_output :
      {s t : Station A} {ss : List (Station A)}
      → s.closed ≡ true
      → s.queue ≡ []
      → s.busy ≡ []
      → s.passing ≡ []
      → t.closed ≡ false
      → Step A (s ∷ t ∷ ss) (s ∷ record t { closed = true } ∷ ss)
  later_stage :
      {s : Station A} {ss ss' : List (Station A)} → Step A ss ss' → Step A (s ∷ ss) (s ∷ ss')

-- The whole pipeline: what StreamActiveIPs has not sent yet, and the stages.
pub record Pipeline (A : Type 0) : Type 0 where
  pub source : List A
  pub stations : List (Station A)

pub data Move (A : Type 0) : Pipeline A → Pipeline A → Type 0 where
  sends :
      {s : Station A} {ss : List (Station A)} (ip : A) (rest : List A)
      → length s.queue < s.capacity
      → Move A
          (record { source = ip ∷ rest; stations = s ∷ ss })
          (record { source = rest; stations = record s { queue = s.queue ++ ip ∷ [] } ∷ ss })
  ends_source :
      {s : Station A} {ss : List (Station A)}
      → s.closed ≡ false
      → Move A
          (record { source = []; stations = s ∷ ss })
          (record { source = []; stations = record s { closed = true } ∷ ss })
  stage_moves :
      {ips : List A} {ss ss' : List (Station A)}
      → Step A ss ss'
      → Move A (record { source = ips; stations = ss }) (record { source = ips; stations = ss' })

-- A run of a number of moves.
pub data Run (A : Type 0) : ℕ → Pipeline A → Pipeline A → Type 0 where
  stays : {p : Pipeline A} → Run A 0 p p
  moves : {n : ℕ} {p q r : Pipeline A} → Move A p q → Run A n q r → Run A (suc n) p r
