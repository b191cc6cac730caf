-- ===== src/Engine/Chain.antt =====
-- internal/core/scanner/engine/chain.go, and runPool of worker.go: a chain of stages in batch mode with
-- one worker a stage, and the sizes and the wiring of its channels. The cause of the pipeline's context
-- is none until it is cancelled. A size of 0 stands for every size that is not positive.
pub mod Batches
pub mod Wiring
pub mod Results
pub mod Single
pub mod Process
pub mod Complete
pub mod Build
use bgscan.Base.{
  ℕ, zero, suc, ◌+◌, max, Bool, true, false, not, ◌&&◌, ◌||◌, List, [], ◌∷◌, ◌++◌, Option, none,
  some, ltb, leb, ◌==◌, length, get_elem?, if◌then◌else◌,
}
use mathlib.Core.Logic.{◌⊎◌, inl, inr}
use bgscan.Engine.Errors.{Error, canceled, result_limit, writer_fatal, is_error}
use bgscan.Engine.Stage.{StageConfig, Attempt, Executor, new_executor, WorkerRun, run_worker}

abbrev pub default_batch_size : ℕ
default_batch_size = 1000

abbrev pub default_stage_chan_buf : ℕ
default_stage_chan_buf = 10_000

-- getWorkerCount.
abbrev pub get_worker_count : ℕ → ℕ
get_worker_count workers = if workers == 0 then 1 else workers

-- resultLimitFor, of the stage i among so many.
abbrev pub result_limit_for : ℕ → ℕ → ℕ → ℕ
result_limit_for stages max_successful i = if i + 1 == stages then max_successful else 0

abbrev pub max_workers : List ℕ → ℕ
max_workers [] = 0
max_workers (w ∷ ws) = max w (max_workers ws)

-- batchSize, of the configured size and the numbers of workers of the stages.
unfoldable pub batch_size : ℕ → List ℕ → ℕ
batch_size size [] = if size == 0 then default_batch_size else size
batch_size size (w ∷ workers) =
    if size == 0 then default_batch_size else max (max_workers workers) size

-- createStageChannels: the sizes of the channels, by the numbers of workers of the stages.
unfoldable pub create_stage_channels : ℕ → List ℕ → List ℕ
create_stage_channels buffer [] = []
create_stage_channels buffer (w ∷ []) =
    (if buffer == 0 then default_stage_chan_buf else buffer) ∷ []
create_stage_channels buffer (w ∷ v ∷ workers) =
    max (if buffer == 0 then default_stage_chan_buf else buffer) (get_worker_count v)
    ∷ create_stage_channels buffer (v ∷ workers)

-- getInputChannel and getOutputChannel: the number of a channel, none for nil.
abbrev pub get_input_channel : ℕ → Option ℕ
get_input_channel zero = none
get_input_channel (suc i) = some i

abbrev pub get_output_channel : ℕ → ℕ → Option ℕ
get_output_channel i total = if leb total (i + 1) then none else some i

-- The loop of streamBatches over the addresses, where nothing is cancelled.
unfoldable pub stream_batches : {A : Type 0} → ℕ → List A → List A → List (List A)
stream_batches size [] [] = []
stream_batches size (ip ∷ batch) [] = (ip ∷ batch) ∷ []
stream_batches size batch (ip ∷ ips) =
    let more = batch ++ ip ∷ [] in
    let next = stream_batches size [] ips in
    let same = stream_batches size more ips in if length more == size then more ∷ next else same

-- context.CancelCauseFunc: the first cause stays.
abbrev pub cancel_with : Error → Option Error → Option Error
cancel_with err none = some err
cancel_with err (some cause) = some cause

-- stageErr: the error that it returns, and the cause after it.
abbrev pub stage_err : Error → Option Error → Option Error × Option Error
stage_err err cause =
    if is_error result_limit err
    then (none, cancel_with (canceled ∷ []) cause)
    else if is_error writer_fatal err
    then (some err, cancel_with (writer_fatal ∷ []) cause)
    else (some err, cause)

-- stopCause, which is also what runPool returns.
unfoldable pub stop_cause : Option Error → Option Error
stop_cause none = none
stop_cause (some cause) = if is_error canceled cause then none else some cause

-- A stage: its executor, its configuration and what its addresses meet.
pub record Stage (A : Type 0) : Type 0 where
  pub config : StageConfig
  pub world : A → Attempt
  pub executor : Executor

-- The cause after runPool; `seen` is whether its goroutine receives the worker's error before `done`.
abbrev pub pool_cause : Bool → Option Error → Option Error → Option Error
pool_cause seen none cause = cause
pool_cause seen (some err) cause = if seen then cancel_with err cause else cause

-- buildExecutors, of so many stages, from the stage i on, where no writer fails to start and no probe
-- fails to initialise.
unfoldable pub build_executors :
    {A : Type 0} → ℕ → ℕ → Bool → ℕ → ℕ → List (A → Attempt) → List (Stage A)
build_executors stages max_successful ignore_writer_error first_total i [] = []
build_executors stages max_successful ignore_writer_error first_total i (world ∷ worlds) =
    record {
      config = record {
        result_limit = result_limit_for stages max_successful i;
        ignore_writer_err = ignore_writer_error;
        writer_disabled = false;
      };
      world = world;
      executor = new_executor (if i == 0 then first_total else 0);
    }
    ∷ build_executors stages max_successful ignore_writer_error first_total (i + 1) worlds

-- What runStageBatch leaves, and what processBatch and runBatch leave.
pub record StageRun (A : Type 0) : Type 0 where
  pub stage : Stage A
  pub out : List A
  pub cause : Option Error
  pub error : Option Error

pub record ChainRun (A : Type 0) : Type 0 where
  pub stages : List (Stage A)
  pub cause : Option Error
  pub error : Option Error

unfoldable pub run_stage_batch : {A : Type 0} → Bool → List A → Option Error → Stage A → StageRun A
run_stage_batch {A} seen batch cause s =
    let w : WorkerRun A = run_worker s.config s.world batch s.executor in
    record {
      stage = record s { executor = w.executor };
      out = w.out;
      cause = pool_cause seen w.error cause;
      error = stop_cause (pool_cause seen w.error cause);
    }

-- `total.Add`, before the stage runs: so many addresses passed the stage before it.
abbrev pub add_total : {A : Type 0} → ℕ → Stage A → Stage A
add_total n s = record s { executor = record s.executor { total = s.executor.total + n } }

abbrev pub then_stages : {A : Type 0} → Stage A → ChainRun A → ChainRun A
then_stages s r = record { stages = s ∷ r.stages; cause = r.cause; error = r.error }

abbrev pub is_none : {A : Type 0} → Option A → Bool
is_none none = true
is_none (some a) = false

abbrev pub is_nil : {A : Type 0} → List A → Bool
is_nil [] = true
is_nil (a ∷ rest) = false

-- processBatch after a stage; `go` are the stages that follow.
abbrev pub after_stage :
    {A : Type 0}
    → StageRun A
    → Option Error
    → List (Stage A)
    → (List A → Option Error → ChainRun A)
    → ChainRun A
after_stage r (some err) stages go = record {
  stages = r.stage ∷ stages;
  cause = r.cause;
  error = some err;
}
after_stage r none stages go = then_stages r.stage (go r.out r.cause)

-- processBatch; n is what is added to the total of the first of these stages.
unfoldable pub process_batch :
    {A : Type 0} → Bool → ℕ → List A → Option Error → List (Stage A) → ChainRun A
unfolding run_stage_batch stop_cause
process_batch seen n batch cause [] = record { stages = []; cause = cause; error = none }
process_batch seen n batch cause (s ∷ stages) =
    let r : StageRun _ = run_stage_batch seen batch cause (add_total n s) in
    if is_nil batch || not (is_none cause)
    then record { stages = add_total n s ∷ stages; cause = cause; error = stop_cause cause }
    else after_stage r r.error stages
        (λ out cause'. process_batch seen (length out) out cause' stages)

-- runBatch after a batch; `go` are the batches that follow.
abbrev pub after_batch :
    {A : Type 0}
    → ChainRun A
    → Option Error
    → (Option Error → List (Stage A) → ChainRun A)
    → ChainRun A
after_batch r (some err) go = r
after_batch r none go = go r.cause r.stages

-- The loop of runBatch.
unfoldable pub run_batches :
    {A : Type 0} → Bool → List (List A) → Option Error → List (Stage A) → ChainRun A
unfolding process_batch stop_cause
run_batches seen [] cause stages = record {
  stages = stages;
  cause = cause;
  error = stop_cause cause;
}
run_batches seen (batch ∷ batches) cause stages =
    let r : ChainRun _ = process_batch seen 0 batch cause stages in
    if not (is_none cause)
    then record { stages = stages; cause = cause; error = stop_cause cause }
    else after_batch r r.error (run_batches seen batches)

-- close of an executor, of the error of its writer's Close.
abbrev pub close_stage : {A : Type 0} → Stage A → Option Error → Option Error
close_stage s err = if s.config.ignore_writer_err then none else err

-- errors.Join of two errors that may be nil.
abbrev pub join_errors : Option Error → Option Error → Option Error
join_errors none err = err
join_errors (some err) none = some err
join_errors (some err) (some other) = some (err ++ other)

-- closeExecutors; `closes` are the errors of the Close of the stages' writers, in order.
unfoldable pub close_executors : {A : Type 0} → List (Stage A) → List (Option Error) → Option Error
close_executors [] closes = none
close_executors (s ∷ stages) [] = none
close_executors (s ∷ stages) (err ∷ closes) =
    join_errors (close_stage s err) (close_executors stages closes)

-- runBatch over the addresses that StreamActiveIPs sends, with the deferred closeExecutors.
unfoldable pub run_batch :
    {A : Type 0} → Bool → List (Option Error) → ℕ → List A → List (Stage A) → ChainRun A
unfolding run_batches stream_batches close_executors
run_batch seen closes size ips stages =
    let r : ChainRun _ = run_batches seen (stream_batches size [] ips) none stages in
    record r { error = join_errors r.error (close_executors stages closes) }

-- RunScanWithChain: what it returns after the run of its mode.
abbrev pub is_limit : Option Error → Bool
is_limit none = false
is_limit (some cause) = is_error result_limit cause

abbrev pub first_error : Option Error → Option Error → Option Error
first_error none err = err
first_error (some err) other = some err

unfoldable pub scan_error : {A : Type 0} → ChainRun A → Option Error
unfolding stop_cause
scan_error r = if is_limit r.cause then none else first_error r.error (stop_cause r.cause)
