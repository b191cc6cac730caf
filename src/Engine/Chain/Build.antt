-- ===== src/Engine/Chain/Build.antt =====
-- internal/core/scanner/engine/chain.go: what a scan in batch mode reports.
use bgscan.Base.{
  ℕ, suc, ◌+◌, ◌-◌, ◌≡◌, refl, ap, ◌∙◌, Bool, true, false, ◌&&◌, ◌==◌, List, [], ◌∷◌, ◌++◌, Option,
  none, some, ltb, leb, length, take, if◌then◌else◌, arith, All, if-elim,
}
use bgscan.Result.{ScanResult}
use bgscan.Engine.Errors.{Error}
use bgscan.Engine.Stage.{Attempt, Executor, new_executor, limit_error}
use bgscan.Engine.Stage.Limit.{Clean, results, survivors, cap, reaches}
use bgscan.Engine.Chain.{
  Stage, stop_cause, is_limit, first_error, run_batch, scan_error, build_executors, stream_batches,
  join_errors, close_executors,
}
use bgscan.Engine.Chain.Batches.{joined, stream_batches-joined}
use bgscan.Engine.Chain.Results.{chain_results, last_executor, Limited, Sound}
use bgscan.Engine.Chain.Complete.{run_batches-Ran}

first_error-none : (err : Option Error) → first_error err none ≡ err
first_error-none none = refl
first_error-none (some err) = refl

pub run_batch-results :
    {A : Type 0} (closes : List (Option Error)) (limit size total : ℕ) (ips : List A)
    (stages : List (Stage A))
    → Limited limit stages
    → Sound stages
    → last_executor stages ≡ new_executor total
    → let r = run_batch true closes size ips stages in
      let rs = chain_results stages ips in
      ((last_executor r.stages).reported ≡ (if limit == 0 then rs else take limit rs))
      × (scan_error r
          ≡ (if reaches limit 0 (length rs) then none else close_executors stages closes))
unfolding run_batch scan_error
run_batch-results closes limit size total ips stages l k fresh =
    let first = last_executor stages in
    let none_yet : first.succeeded ≡ 0 = ap (λ (e : Executor). e.succeeded) fresh in
    let room : (ltb 0 limit && leb limit first.succeeded) ≡ false = ground (arith, none_yet) in
    let rs = chain_results stages ips in
    let all = ap (chain_results stages) (stream_batches-joined size [] ips) in
    let ran = run_batches-Ran limit (stream_batches size [] ips) stages l k room in
    let capped : cap limit 0 rs ≡ (if limit == 0 then rs else take limit rs) =
      let whole : limit - 0 ≡ limit = omega arith in rw whole refl in
    let full : reaches limit first.succeeded
          (length (chain_results stages (joined (stream_batches size [] ips))))
        ≡ reaches limit 0 (length rs) =
      ap
        (λ (s : ℕ).
          reaches limit s (length (chain_results stages (joined (stream_batches size [] ips)))))
        none_yet
      ∙ ap (λ (x : List ScanResult). reaches limit 0 (length x)) all in
    (
      ran.reported
          ∙ ap
              (λ (e : Executor).
                e.reported
                ++ cap limit e.succeeded
                    (chain_results stages (joined (stream_batches size [] ips))))
              fresh
          ∙ ap (cap limit 0) all
          ∙ capped,
      rw (ran.cause, ran.error, full) (ends (reaches limit 0 (length rs))),
    )
  where
    ends :
        (full : Bool)
        → (if is_limit (if full then some limit_error else none)
            then none
            else first_error
                (join_errors
                  (if full then some limit_error else none)
                  (close_executors stages closes))
                (stop_cause (if full then some limit_error else none)))
          ≡ (if full then none else close_executors stages closes)
    ends true = refl
    ends false = first_error-none (close_executors stages closes)

build_executors-Limited :
    {A : Type 0} (stages limit total i : ℕ) (ignore : Bool) (world : A → Attempt)
    (worlds : List (A → Attempt))
    → stages ≡ i + suc (length worlds)
    → Limited limit (build_executors stages limit ignore total i (world ∷ worlds))
unfolding build_executors
build_executors-Limited stages limit total i ignore world [] h =
    if-elim (λ (n : ℕ). n ≡ limit) (i + 1 == stages) (λ _. refl)
      (λ other. absurd (ground (arith, h, other)))
build_executors-Limited stages limit total i ignore world (w ∷ worlds) h = (
  if-elim (λ (n : ℕ). n ≡ 0) (i + 1 == stages) (λ last. absurd (ground (arith, h, last)))
      (λ _. refl),
  build_executors-Limited stages limit total (i + 1) ignore w worlds (omega (arith, h)),
)

build_executors-Sound :
    {A : Type 0} (stages limit total i : ℕ) (ignore : Bool) (worlds : List (A → Attempt))
    → All (λ world. (ip : A) → Clean (world ip)) worlds
    → Sound (build_executors stages limit ignore total i worlds)
unfolding build_executors
build_executors-Sound stages limit total i ignore [] k = tt
build_executors-Sound stages limit total i ignore (w ∷ worlds) k =
    (k.0, build_executors-Sound stages limit total (i + 1) ignore worlds k.1)

build_executors-fresh :
    {A : Type 0} (stages limit total i : ℕ) (ignore : Bool) (worlds : List (A → Attempt))
    → (n : ℕ) × (last_executor (build_executors stages limit ignore total i worlds)
        ≡ new_executor n)
unfolding build_executors
build_executors-fresh stages limit total i ignore [] = (0, refl)
build_executors-fresh stages limit total i ignore (w ∷ []) = (_, refl)
build_executors-fresh stages limit total i ignore (w ∷ v ∷ worlds) =
    build_executors-fresh stages limit total (i + 1) ignore (v ∷ worlds)

-- What passes every stage of a chain, and its results at the last.
abbrev pub scan_results : {A : Type 0} → List (A → Attempt) → List A → List ScanResult
scan_results [] ips = []
scan_results (w ∷ []) ips = results w ips
scan_results (w ∷ v ∷ worlds) ips = scan_results (v ∷ worlds) (survivors w ips)

build_executors-results :
    {A : Type 0} (stages limit total i : ℕ) (ignore : Bool) (worlds : List (A → Attempt))
    (ips : List A)
    → chain_results (build_executors stages limit ignore total i worlds) ips
      ≡ scan_results worlds ips
unfolding build_executors
build_executors-results stages limit total i ignore [] ips = refl
build_executors-results stages limit total i ignore (w ∷ []) ips = refl
build_executors-results stages limit total i ignore (w ∷ v ∷ worlds) ips =
    build_executors-results stages limit total (i + 1) ignore (v ∷ worlds) (survivors w ips)

-- For a chain of one or more stages in which no limiter and no Write fails and no probe fails with an
-- error that ends the scan, with one worker a stage and nobody who cancels, if the error of the limit is
-- received before the pool ends: whatever the size of the batches, the last stage reports the results of
-- the addresses that pass every stage, in the order of the input, the first MaxSuccessfulIPs of them or,
-- if that is 0, all. The scan returns no error if that limit is reached, and else the joined errors of
-- the writers' Close, none of them where writer errors are ignored.
pub run_batch-first :
    {A : Type 0} (closes : List (Option Error)) (limit size total : ℕ) (ignore : Bool)
    (ips : List A) (world : A → Attempt) (worlds : List (A → Attempt))
    → All (λ world. (ip : A) → Clean (world ip)) (world ∷ worlds)
    → let stages = build_executors (suc (length worlds)) limit ignore total 0 (world ∷ worlds) in
      let r = run_batch true closes size ips stages in
      let rs = scan_results (world ∷ worlds) ips in
      ((last_executor r.stages).reported ≡ (if limit == 0 then rs else take limit rs))
      × (scan_error r
          ≡ (if reaches limit 0 (length rs) then none else close_executors stages closes))
run_batch-first closes limit size total ignore ips world worlds k =
    let n = suc (length worlds) in
    let stages = build_executors n limit ignore total 0 (world ∷ worlds) in
    let (m, fresh) = build_executors-fresh n limit total 0 ignore (world ∷ worlds) in
    let (reported, error) =
      run_batch-results closes limit size m ips stages
        (build_executors-Limited n limit total 0 ignore world worlds (omega arith))
        (build_executors-Sound n limit total 0 ignore (world ∷ worlds) k) fresh in
    let results = build_executors-results n limit total 0 ignore (world ∷ worlds) ips in
    (
      reported ∙ ap (λ (rs : List ScanResult). if limit == 0 then rs else take limit rs) results,
      error
          ∙ ap
              (λ (rs : List ScanResult).
                if reaches limit 0 (length rs) then none else close_executors stages closes)
              results,
    )
