-- ===== src/Engine/Chain/Single.antt =====
-- internal/core/scanner/engine/chain.go: runStageBatch, of one batch and one stage.
use bgscan.Base.{
  ℕ, ◌+◌, ◌≡◌, refl, sym, ap, ◌∙◌, Bool, true, false, List, [], ◌∷◌, ◌++◌, Option, none, some,
  length, if◌then◌else◌, All,
}
use bgscan.Engine.Errors.{Error}
use bgscan.Engine.Stage.{Attempt, limit_error, result_limit_reached}
use bgscan.Engine.Stage.Limit.{Clean, results, survivors, cap, reaches, run_worker-Ran}
use bgscan.Engine.Chain.{Stage, StageRun, run_stage_batch, pool_cause, stop_cause}

-- The error that a limit ends the scan with, if so many more results reach it.
abbrev pub stop_error : ℕ → ℕ → ℕ → Option Error
stop_error limit before more = if reaches limit before more then some limit_error else none

-- One stage, with the context not cancelled.
pub record StageRan {A : Type 0} (s : Stage A) (batch : List A) (r : StageRun A) : Type 0 where
  pub reported :
      r.stage.executor.reported
      ≡ s.executor.reported
        ++ cap s.config.result_limit s.executor.succeeded (results s.world batch)
  pub succeeded :
      r.stage.executor.succeeded
      ≡ s.executor.succeeded
        + length (cap s.config.result_limit s.executor.succeeded (results s.world batch))
  pub config : r.stage.config ≡ s.config
  pub world : r.stage.world ≡ s.world
  pub error :
      r.error
      ≡ stop_error s.config.result_limit s.executor.succeeded (length (results s.world batch))
  pub cause :
      r.cause
      ≡ stop_error s.config.result_limit s.executor.succeeded (length (results s.world batch))
  pub out : r.error ≡ none → r.out ≡ survivors s.world batch

pub stop_cause-stop :
    (b : Bool)
    → stop_cause (if b then some limit_error else none) ≡ (if b then some limit_error else none)
unfolding stop_cause
stop_cause-stop true = refl
stop_cause-stop false = refl

pub pool_cause-stop :
    (b : Bool)
    → pool_cause true (if b then some limit_error else none) none
      ≡ (if b then some limit_error else none)
pool_cause-stop true = refl
pool_cause-stop false = refl

pub if-some-none : (b : Bool) → (if b then some limit_error else none) ≡ none → b ≡ false
if-some-none true h = cc
if-some-none false h = refl

pub All-Clean :
    {A : Type 0} (world : A → Attempt) (ips : List A)
    → ((ip : A) → Clean (world ip))
    → All (λ ip. Clean (world ip)) ips
All-Clean world [] k = tt
All-Clean world (ip ∷ ips) k = (k ip, All-Clean world ips k)

pub run_stage_batch-Ran :
    {A : Type 0} (s : Stage A) (batch : List A)
    → ((ip : A) → Clean (s.world ip))
    → result_limit_reached s.config s.executor ≡ false
    → StageRan s batch (run_stage_batch true batch none s)
unfolding run_stage_batch
run_stage_batch-Ran s batch k room =
    let ran = run_worker-Ran s.config s.world batch s.executor (All-Clean s.world batch k) room in
    let full : Bool =
      reaches s.config.result_limit s.executor.succeeded (length (results s.world batch)) in
    let cause = ap (λ o. pool_cause true o none) ran.error ∙ pool_cause-stop full in
    let error = ap stop_cause cause ∙ stop_cause-stop full in
    record {
      reported = ran.reported;
      succeeded = ran.succeeded;
      config = refl;
      world = refl;
      error = error;
      cause = cause;
      out = λ n. ran.out (ran.error ∙ sym error ∙ n);
    }
