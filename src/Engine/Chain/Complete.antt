-- ===== src/Engine/Chain/Complete.antt =====
-- internal/core/scanner/engine/chain.go: runBatch, of all batches and all stages.
use bgscan.Base.{
  ℕ, ◌+◌, ◌-◌, ◌≤◌, ◌≡◌, refl, sym, ap, ◌∙◌, Bool, true, false, ◌&&◌, ◌==◌, List, [], ◌∷◌, ◌++◌,
  none, some, ltb, leb, length, take, take-append, take-length_le, take-none, length-append,
  if◌then◌else◌, arith, Bool-cases, inl, inr,
}
use mathlib.Core.List.{append-nil, append_assoc}
use bgscan.Result.{ScanResult}
use bgscan.Engine.Stage.{limit_error}
use bgscan.Engine.Stage.Limit.{cap, cap-nil, reaches}
use bgscan.Engine.Chain.{Stage, ChainRun, stop_cause, process_batch, run_batches}
use bgscan.Engine.Chain.Batches.{joined}
use bgscan.Engine.Chain.Results.{
  chain_results, last_executor, Limited, Sound, chain_results-append, chain_results-nil,
}
use bgscan.Engine.Chain.Single.{stop_error}
use bgscan.Engine.Chain.Process.{ChainRan, stop_error-none, process_batch-Ran}

-- What a limit lets through of two lists, where the first does not reach it.
pub cap-append :
    (limit before : ℕ) (rs ss : List ScanResult)
    → reaches limit before (length rs) ≡ false
    → (cap limit before (rs ++ ss) ≡ rs ++ cap limit (before + length rs) ss)
      × (cap limit before rs ≡ rs)
cap-append limit before rs ss h = elim (Bool-cases (limit == 0)) [
  | inl z ↦ rw z (refl, refl)
  | inr z ↦
      let fits : length rs ≤ limit - before = ground (arith, z, h) in
      let left : limit - before - length rs ≡ limit - (before + length rs) = omega arith in
      let whole = take-length_le (limit - before) rs fits in
      rw z (
        take-append (limit - before) rs ss
            ∙ ap (λ x. x ++ take (limit - before - length rs) ss) whole
            ∙ ap (λ (n : ℕ). rs ++ take n ss) left,
        whole,
      )
]

-- And where it does.
pub cap-full :
    (limit before : ℕ) (rs ss : List ScanResult)
    → reaches limit before (length rs) ≡ true
    → cap limit before (rs ++ ss) ≡ cap limit before rs
cap-full limit before rs ss h =
    let z : (limit == 0) ≡ false = ground (arith, h) in
    let over : limit - before - length rs ≤ 0 = ground (arith, h) in
    rw z (
      take-append (limit - before) rs ss
      ∙ ap (λ x. take (limit - before) rs ++ x) (take-none (limit - before - length rs) ss over)
      ∙ append-nil (take (limit - before) rs))

pub no_batches :
    {A : Type 0} (limit : ℕ) (stages : List (Stage A))
    → Limited limit stages
    → Sound stages
    → (ltb 0 limit && leb limit (last_executor stages).succeeded) ≡ false
    → ChainRan A limit stages [] (record { stages = stages; cause = none; error = none })
no_batches limit stages l k room =
    let last = last_executor stages in
    record {
      reported = rw (cap-nil limit last.succeeded) (sym (append-nil last.reported));
      succeeded = rw (cap-nil limit last.succeeded) (omega arith);
      error = sym (stop_error-none limit last.succeeded room);
      cause = sym (stop_error-none limit last.succeeded room);
      limited = l;
      sound = k;
      same = λ ips. refl;
    }

-- A batch that reaches the limit ends the run.
pub last_batch :
    {A : Type 0} (limit : ℕ) (stages : List (Stage A)) (rs ss : List ScanResult) (r : ChainRun A)
    → reaches limit (last_executor stages).succeeded (length rs) ≡ true
    → ChainRan A limit stages rs r
    → ChainRan A limit stages (rs ++ ss) r
last_batch limit stages rs ss r full one =
    let before = (last_executor stages).succeeded in
    let same = cap-full limit before rs ss full in
    let both : reaches limit before (length (rs ++ ss)) ≡ reaches limit before (length rs) =
      full_too limit before (length rs) (length (rs ++ ss)) (omega (arith, length-append rs ss))
        full in
    record {
      reported = rw same one.reported;
      succeeded = rw same one.succeeded;
      error = one.error ∙ ap (λ (b : Bool). if b then some limit_error else none) (sym both);
      cause = one.cause ∙ ap (λ (b : Bool). if b then some limit_error else none) (sym both);
      limited = one.limited;
      sound = one.sound;
      same = one.same;
    }
  where
    full_too :
        (limit before m n : ℕ)
        → m ≤ n
        → reaches limit before m ≡ true
        → reaches limit before n ≡ reaches limit before m
    full_too limit before m n le h = rw h (ground (arith, le, h))

-- A batch that does not, and the rest of the run.
pub more_batches :
    {A : Type 0} (limit : ℕ) (stages : List (Stage A)) (rs ss : List ScanResult) (r r' : ChainRun A)
    → reaches limit (last_executor stages).succeeded (length rs) ≡ false
    → ChainRan A limit stages rs r
    → ChainRan A limit r.stages ss r'
    → ChainRan A limit stages (rs ++ ss) r'
more_batches limit stages rs ss r r' more one rest =
    let first = last_executor stages in
    let (split, whole) = cap-append limit first.succeeded rs ss more in
    let count : (last_executor r.stages).succeeded ≡ first.succeeded + length rs =
      one.succeeded ∙ ap (λ (xs : List ScanResult). first.succeeded + length xs) whole in
    let stop : stop_error limit (last_executor r.stages).succeeded (length ss)
        ≡ stop_error limit first.succeeded (length (rs ++ ss)) =
      ap (λ (b : Bool). if b then some limit_error else none)
        (reaches_sum limit first.succeeded (last_executor r.stages).succeeded (length rs)
          (length ss) (length (rs ++ ss)) count (length-append rs ss)) in
    record {
      reported =
          rest.reported
          ∙ ap (λ (n : ℕ). (last_executor r.stages).reported ++ cap limit n ss) count
          ∙ ap (λ x. x ++ cap limit (first.succeeded + length rs) ss)
              (one.reported ∙ ap (λ x. first.reported ++ x) whole)
          ∙ append_assoc first.reported rs _
          ∙ ap (λ x. first.reported ++ x) (sym split);
      succeeded = rw split (
          omega (
            arith,
            rest.succeeded,
            count,
            length-append rs (cap limit (first.succeeded + length rs) ss),
            ap (λ (n : ℕ). length (cap limit n ss)) count,
          ));
      error = rest.error ∙ stop;
      cause = rest.cause ∙ stop;
      limited = rest.limited;
      sound = rest.sound;
      same = λ ips. rest.same ips ∙ one.same ips;
    }
  where
    reaches_sum :
        (limit a b m n k : ℕ) → b ≡ a + m → k ≡ m + n → reaches limit b n ≡ reaches limit a k
    reaches_sum limit a b m n k h e = ground (arith, h, e)

pub run_batches-Ran :
    {A : Type 0} (limit : ℕ) (batches : List (List A)) (stages : List (Stage A))
    → Limited limit stages
    → Sound stages
    → (ltb 0 limit && leb limit (last_executor stages).succeeded) ≡ false
    → ChainRan A limit stages
        (chain_results stages (joined batches))
        (run_batches true batches none stages)
unfolding run_batches stop_cause
run_batches-Ran limit [] stages l k room =
    rw (chain_results-nil stages) (no_batches limit stages l k room)
run_batches-Ran limit (b ∷ bs) stages l k room =
    let r = process_batch true 0 b none stages in
    let first = last_executor stages in
    let rs = chain_results stages b in
    let one : ChainRan _ limit stages rs r = process_batch-Ran limit 0 b stages l k room in
    rw (chain_results-append stages b (joined bs))
      (elim (Bool-cases (reaches limit first.succeeded (length rs))) [
        | inl full ↦
            let stop : stop_error limit first.succeeded (length rs) ≡ some limit_error =
              rw full refl in
            rw (one.error ∙ stop)
              (last_batch limit stages rs (chain_results stages (joined bs)) r full one)
        | inr more ↦
            let stop : stop_error limit first.succeeded (length rs) ≡ none = rw more refl in
            let (split, whole) = cap-append limit first.succeeded rs [] more in
            let count =
              one.succeeded ∙ ap (λ (xs : List ScanResult). first.succeeded + length xs) whole in
            let rest =
              run_batches-Ran limit bs r.stages one.limited one.sound
                (ground (arith, more, count)) in
            rw (one.error ∙ stop, one.cause ∙ stop, sym (one.same (joined bs)))
              (more_batches limit stages rs (chain_results r.stages (joined bs)) r _ more one rest)
      ])
