-- ===== src/Engine/Stage.antt =====
-- internal/core/scanner/engine/stage.go and worker.go: processIP, and a worker that takes addresses
-- from its input. What the rate limiter, the probe, the writer and the context do is an argument.
pub mod Limit
pub mod Invariant
use bgscan.Base.{
  ℕ, ◌+◌, Bool, true, false, not, ◌&&◌, ◌||◌, List, [], ◌∷◌, ◌++◌, Option, none, some, ltb, leb,
  ◌==◌, if◌then◌else◌,
}
use bgscan.Result.{ScanResult}
use bgscan.Engine.Errors.{
  Error, result_limit, writer_fatal, normalize_err, ErrorStats, no_errors, log_ip_error,
  terminating,
}

pub record StageConfig : Type 0 where
  pub result_limit : ℕ
  pub ignore_writer_err : Bool
  pub writer_disabled : Bool

pub data ProbeRun : Type 0 where
  passes : ScanResult → ProbeRun
  fails : Error → ProbeRun

-- What one call of processIP meets: the error of rateLimiter.Wait, if there is a limiter and it fails;
-- the probe; ctx.Err() != nil after the probe; the error of Writer.Write; ctx.Err() != nil after it.
pub record Attempt : Type 0 where
  pub limiter : Option Error
  pub probe : ProbeRun
  pub done_after_probe : Bool
  pub write : Option Error
  pub done_after_write : Bool

-- The counters of an executor, the results that it gave to OnSuccess and those it gave to its writer.
pub record Executor : Type 0 where
  pub total : ℕ
  pub processed : ℕ
  pub succeeded : ℕ
  pub errs : ErrorStats
  pub reported : List ScanResult
  pub sent : List ScanResult

-- newStageExecutor, with its total.
abbrev pub new_executor : ℕ → Executor
new_executor total = record {
  total = total;
  processed = 0;
  succeeded = 0;
  errs = no_errors;
  reported = [];
  sent = [];
}

abbrev pub limit_error : Error
limit_error = result_limit ∷ []

abbrev pub result_limit_reached : StageConfig → Executor → Bool
result_limit_reached c e = ltb 0 c.result_limit && leb c.result_limit e.succeeded

-- What processIP returns after a call of Write.
abbrev pub write_error : StageConfig → Attempt → Option Error
write_error c a = if c.writer_disabled then none else elim a.write [
  | none ↦ none
  | some err ↦
      if c.ignore_writer_err
      then none
      else if a.done_after_write
      then some err
      else some (writer_fatal ∷ err)
]

-- processIP from its slot on; n is the number of the slot.
unfoldable pub deliver : StageConfig → Attempt → ScanResult → ℕ → Executor → Executor × Option Error
deliver c a r n e = (
  record e {
    succeeded = n;
    reported = e.reported ++ r ∷ [];
    sent = if c.writer_disabled then e.sent else e.sent ++ r ∷ [];
  },
  elim (write_error c a) [
    | some err ↦ some err
    | none ↦ if ltb 0 c.result_limit && leb c.result_limit n then some limit_error else none
  ],
)

-- claimResultSlot where no other call runs, and the rest of processIP.
unfoldable pub claim_and_deliver :
    StageConfig → Attempt → ScanResult → Executor → Executor × Option Error
unfolding deliver
claim_and_deliver c a r e =
    if result_limit_reached c e then (e, some limit_error) else deliver c a r (e.succeeded + 1) e

-- processIP after the probe has run.
unfoldable pub after_probe : StageConfig → Attempt → ProbeRun → Executor → Executor × Option Error
unfolding claim_and_deliver
after_probe c a (fails err) e = (e, some (if a.done_after_probe then err else normalize_err err))
after_probe c a (passes r) e = claim_and_deliver c a r e

abbrev pub after_limiter : StageConfig → Attempt → Option Error → Executor → Executor × Option Error
after_limiter c a (some err) e = (e, some err)
after_limiter c a none e = after_probe c a a.probe (record e { processed = e.processed + 1 })

unfoldable pub process_ip : StageConfig → Attempt → Executor → Executor × Option Error
unfolding after_probe
process_ip c a e =
    if result_limit_reached c e then (e, some limit_error) else after_limiter c a a.limiter e

-- What a worker leaves: the executor, the addresses that passed, and the error that it returns.
pub record WorkerRun (A : Type 0) : Type 0 where
  pub executor : Executor
  pub out : List A
  pub error : Option Error

abbrev pub passed_on : {A : Type 0} → A → WorkerRun A → WorkerRun A
passed_on ip w = record { executor = w.executor; out = ip ∷ w.out; error = w.error }

-- The part of runWorker after process has returned; `go` is the rest of the loop.
unfoldable pub after_process :
    {A : Type 0} → A → Executor × Option Error → (Executor → WorkerRun A) → WorkerRun A
after_process ip (e, none) go = passed_on ip (go e)
after_process ip (e, some err) go =
    if terminating err
    then record { executor = e; out = []; error = some err }
    else go (record e { errs = log_ip_error err e.errs })

-- runWorker over the addresses that it takes until its input ends; `world` says what each meets.
unfoldable pub run_worker :
    {A : Type 0} → StageConfig → (A → Attempt) → List A → Executor → WorkerRun A
unfolding process_ip after_process
run_worker c world [] e = record { executor = e; out = []; error = none }
run_worker c world (ip ∷ ips) e =
    after_process ip (process_ip c (world ip) e) (run_worker c world ips)
