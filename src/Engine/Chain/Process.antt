-- ===== src/Engine/Chain/Process.antt =====
-- internal/core/scanner/engine/chain.go: processBatch, of one batch and all stages.
use bgscan.Base.{
  ℕ, ◌+◌, ◌≡◌, refl, sym, ap, subst, ◌∙◌, true, false, ◌&&◌, List, [], ◌∷◌, ◌++◌, Option, none,
  some, ltb, leb, length, arith, Bool-cases, inl, inr,
}
use mathlib.Core.List.{append-nil}
use bgscan.Result.{ScanResult}
use bgscan.Engine.Errors.{Error}
use bgscan.Engine.Stage.{StageConfig, Attempt, limit_error, result_limit_reached}
use bgscan.Engine.Stage.Limit.{Clean, results, survivors, cap, cap-nil, reaches}
use bgscan.Engine.Chain.{
  Stage, ChainRun, run_stage_batch, stop_cause, add_total, after_stage, process_batch,
}
use bgscan.Engine.Chain.Results.{chain_results, last_executor, Limited, Sound, chain_results-nil}
use bgscan.Engine.Chain.Single.{stop_error, StageRan, run_stage_batch-Ran}

-- A chain that met these results of its last stage, from a context that is not cancelled.
pub record ChainRan (A : Type 0) (limit : ℕ) (stages : List (Stage A)) (rs : List ScanResult)
    (r : ChainRun A) : Type 0 where
  pub reported :
      (last_executor r.stages).reported
      ≡ (last_executor stages).reported ++ cap limit (last_executor stages).succeeded rs
  pub succeeded :
      (last_executor r.stages).succeeded
      ≡ (last_executor stages).succeeded + length (cap limit (last_executor stages).succeeded rs)
  pub error : r.error ≡ stop_error limit (last_executor stages).succeeded (length rs)
  pub cause : r.cause ≡ stop_error limit (last_executor stages).succeeded (length rs)
  pub limited : Limited limit r.stages
  pub sound : Sound r.stages
  pub same : (ips : List A) → chain_results r.stages ips ≡ chain_results stages ips

pub last_executor-cons :
    {A : Type 0} (limit : ℕ) (s : Stage A) (stages : List (Stage A))
    → Limited limit stages
    → last_executor (s ∷ stages) ≡ last_executor stages
last_executor-cons limit s [] l = elim l [ ]
last_executor-cons limit s (t ∷ stages) l = refl

pub Limited-cons :
    {A : Type 0} (limit : ℕ) (s : Stage A) (stages : List (Stage A))
    → s.config.result_limit ≡ 0
    → Limited limit stages
    → Limited limit (s ∷ stages)
Limited-cons limit s [] z l = elim l [ ]
Limited-cons limit s (t ∷ stages) z l = (z, l)

pub chain_results-cons :
    {A : Type 0} (limit : ℕ) (s : Stage A) (stages : List (Stage A)) (ips : List A)
    → Limited limit stages
    → chain_results (s ∷ stages) ips ≡ chain_results stages (survivors s.world ips)
chain_results-cons limit s [] ips l = elim l [ ]
chain_results-cons limit s (t ∷ stages) ips l = refl

-- No address, no result.
pub stop_error-none :
    (limit before : ℕ)
    → (ltb 0 limit && leb limit before) ≡ false
    → stop_error limit before 0 ≡ none
stop_error-none limit before room =
    let h : reaches limit before 0 ≡ false = ground (arith, room) in rw h refl

pub nothing_run :
    {A : Type 0} (limit n : ℕ) (s : Stage A) (stages : List (Stage A))
    → Limited limit (s ∷ stages)
    → Sound (s ∷ stages)
    → (ltb 0 limit && leb limit (last_executor (s ∷ stages)).succeeded) ≡ false
    → ChainRan A limit
        (s ∷ stages)
        []
        (record { stages = add_total n s ∷ stages; cause = none; error = none })
nothing_run limit n s [] l k room = record {
  reported = rw (cap-nil limit s.executor.succeeded) (sym (append-nil s.executor.reported));
  succeeded = rw (cap-nil limit s.executor.succeeded) (omega arith);
  error = sym (stop_error-none limit s.executor.succeeded room);
  cause = sym (stop_error-none limit s.executor.succeeded room);
  limited = l;
  sound = k;
  same = λ ips. refl;
}
nothing_run limit n s (t ∷ stages) l k room =
    let last = last_executor (t ∷ stages) in
    record {
      reported = rw (cap-nil limit last.succeeded) (sym (append-nil last.reported));
      succeeded = rw (cap-nil limit last.succeeded) (omega arith);
      error = sym (stop_error-none limit last.succeeded room);
      cause = sym (stop_error-none limit last.succeeded room);
      limited = l;
      sound = k;
      same = λ ips. refl;
    }

-- The last stage.
pub after_last :
    {A : Type 0} (n : ℕ) (s : Stage A) (batch : List A) (go : List A → Option Error → ChainRun A)
    → ((ip : A) → Clean (s.world ip))
    → result_limit_reached s.config s.executor ≡ false
    → ((out : List A) (cause : Option Error)
        → go out cause ≡ record { stages = []; cause = cause; error = none })
    → let r = run_stage_batch true batch none (add_total n s) in
      ChainRan A s.config.result_limit
        (s ∷ [])
        (results s.world batch)
        (after_stage r r.error [] go)
after_last {A} n s batch go k room end =
    let r = run_stage_batch true batch none (add_total n s) in
    let one : StageRan (add_total n s) batch r = run_stage_batch-Ran (add_total n s) batch k room in
    let sound : Sound (r.stage ∷ []) =
      (λ ip. subst (λ (w : A → Attempt). Clean (w ip)) (sym one.world) (k ip), tt) in
    elim (Bool-cases
      (reaches s.config.result_limit s.executor.succeeded (length (results s.world batch)))) [
        | inl full ↦
            let stop : stop_error s.config.result_limit s.executor.succeeded
                  (length (results s.world batch))
                ≡ some limit_error =
              rw full refl in
            rw (one.error ∙ stop) (record {
              reported = one.reported;
              succeeded = one.succeeded;
              error = sym stop;
              cause = one.cause;
              limited = ap (λ (c : StageConfig). c.result_limit) one.config;
              sound = sound;
              same = λ ips. ap (λ (w : A → Attempt). results w ips) one.world;
            })
        | inr more ↦
            let stop : stop_error s.config.result_limit s.executor.succeeded
                  (length (results s.world batch))
                ≡ none =
              rw more refl in
            rw (one.error ∙ stop, end r.out r.cause)
              (record {
                reported = one.reported;
                succeeded = one.succeeded;
                error = sym stop;
                cause = one.cause;
                limited = ap (λ (c : StageConfig). c.result_limit) one.config;
                sound = sound;
                same = λ ips. ap (λ (w : A → Attempt). results w ips) one.world;
              })
      ]

pub no_limit : (limit before more : ℕ) → limit ≡ 0 → stop_error limit before more ≡ none
no_limit limit before more z =
    let h : reaches limit before more ≡ false = ground (arith, z) in rw h refl

-- A stage that another follows.
pub after_first :
    {A : Type 0} (limit n : ℕ) (s : Stage A) (stages : List (Stage A)) (batch : List A)
    (go : List A → Option Error → ChainRun A)
    → s.config.result_limit ≡ 0
    → ((ip : A) → Clean (s.world ip))
    → Limited limit stages
    → ChainRan A limit stages
        (chain_results stages (survivors s.world batch))
        (go (survivors s.world batch) none)
    → let r = run_stage_batch true batch none (add_total n s) in
      ChainRan A limit
        (s ∷ stages)
        (chain_results (s ∷ stages) batch)
        (after_stage r r.error stages go)
after_first {A} limit n s stages batch go z k l rest =
    let r = run_stage_batch true batch none (add_total n s) in
    let open_ : result_limit_reached s.config s.executor ≡ false = ground (arith, z) in
    let one : StageRan (add_total n s) batch r =
      run_stage_batch-Ran (add_total n s) batch k open_ in
    let stop =
      no_limit s.config.result_limit s.executor.succeeded (length (results s.world batch)) z in
    let passed = go (survivors s.world batch) none in
    let config : r.stage.config.result_limit ≡ 0 =
      ap (λ (c : StageConfig). c.result_limit) one.config ∙ z in
    let before = last_executor-cons limit s stages l in
    let after = last_executor-cons limit r.stage passed.stages rest.limited in
    rw
      (
        one.error ∙ stop,
        one.out (one.error ∙ stop),
        one.cause ∙ stop,
        chain_results-cons limit s stages batch l,
      )
      (record {
        reported = rw (after, before) rest.reported;
        succeeded = rw (after, before) rest.succeeded;
        error = rw before rest.error;
        cause = rw before rest.cause;
        limited = Limited-cons limit r.stage passed.stages config rest.limited;
        sound =
            (λ ip. subst (λ (w : A → Attempt). Clean (w ip)) (sym one.world) (k ip), rest.sound);
        same = λ ips.
            chain_results-cons limit r.stage passed.stages ips rest.limited
            ∙ ap (λ (w : A → Attempt). chain_results passed.stages (survivors w ips)) one.world
            ∙ rest.same (survivors s.world ips)
            ∙ sym (chain_results-cons limit s stages ips l);
      })

pub process_batch-Ran :
    {A : Type 0} (limit n : ℕ) (batch : List A) (stages : List (Stage A))
    → Limited limit stages
    → Sound stages
    → (ltb 0 limit && leb limit (last_executor stages).succeeded) ≡ false
    → ChainRan A limit stages (chain_results stages batch) (process_batch true n batch none stages)
unfolding process_batch stop_cause
process_batch-Ran limit n batch [] l k room = elim l [ ]
process_batch-Ran limit n [] (s ∷ stages) l k room =
    rw (chain_results-nil (s ∷ stages)) (nothing_run limit n s stages l k room)
process_batch-Ran limit n (ip ∷ ips) (s ∷ []) l k room =
    rw (sym l) (after_last n s (ip ∷ ips) _ k.0 (rw l room) (λ out cause. refl))
process_batch-Ran limit n (ip ∷ ips) (s ∷ t ∷ stages) l k room =
    let rest =
      process_batch-Ran limit (length (survivors s.world (ip ∷ ips))) (survivors s.world (ip ∷ ips))
        (t ∷ stages) l.1 k.1 room in
    after_first limit n s (t ∷ stages) (ip ∷ ips) _ l.0 k.0 l.1 rest
