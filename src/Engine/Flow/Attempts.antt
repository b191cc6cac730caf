-- ===== src/Engine/Flow/Attempts.antt =====
-- internal/core/scanner/engine/stage.go: what processIP does in a streaming stage whose limiter and
-- writer do not fail.
use bgscan.Base.{◌≡◌, refl, ap, false, List, [], ◌∷◌, none, some, ◌⊎◌, inl, inr, if-elim, All}
use bgscan.Result.{ScanResult}
use bgscan.Engine.Errors.{Error, terminating}
use bgscan.Engine.Stage.{ProbeRun, passes, fails, Attempt, new_executor}
use bgscan.Engine.Stage.Limit.{
  Clean, process_ip-passes, process_ip-fails, terminating-normalize_err,
}
use bgscan.Engine.Flow.{Station, streaming_config, attempt}

-- At every stage, no address meets a limiter or a writer that fails, or a probe with an error that
-- ends the scan.
abbrev pub AllClean : {A : Type 0} → List (A → Attempt) → Type 0
AllClean {A} worlds = All (λ world. (ip : A) → Clean (world ip)) worlds

pub record Passed {A : Type 0} (s : Station A) (ip : A) (r : ScanResult) : Type 0 where
  pub probe : (s.world ip).probe ≡ passes r
  pub error : (attempt s ip).1 ≡ none
  pub reported : (attempt s ip).0.reported ≡ r ∷ []

pub record Failed {A : Type 0} (s : Station A) (ip : A) (err logged : Error) : Type 0 where
  pub probe : (s.world ip).probe ≡ fails err
  pub error : (attempt s ip).1 ≡ some logged
  pub mild : terminating logged ≡ false
  pub reported : (attempt s ip).0.reported ≡ []

pub attempt-cases :
    {A : Type 0} (s : Station A) (ip : A)
    → Clean (s.world ip)
    → ((r : ScanResult) × Passed s ip r)
      ⊎ ((err : Error) × (logged : Error) × Failed s ip err logged)
attempt-cases s ip k = of_probe (s.world ip).probe refl
  where
    of_probe :
        (p : ProbeRun)
        → (s.world ip).probe ≡ p
        → ((r : ScanResult) × Passed s ip r)
          ⊎ ((err : Error) × (logged : Error) × Failed s ip err logged)
    of_probe (passes r) h =
        let run =
          process_ip-passes (streaming_config s.ignore_writer_err) (s.world ip) (new_executor 0) r k
            refl h in
        inl (
          r,
          record { probe = h; error = ap (λ x. x.1) run; reported = ap (λ x. x.0.reported) run },
        )
    of_probe (fails err) h =
        let run =
          process_ip-fails (streaming_config s.ignore_writer_err) (s.world ip) (new_executor 0) err
            k refl h in
        inr (
          err,
          _,
          record {
            probe = h;
            error = ap (λ x. x.1) run;
            mild =
                if-elim (λ x. terminating x ≡ false) (s.world ip).done_after_probe (λ _. k.2 err h)
                  (λ _. terminating-normalize_err err (k.2 err h));
            reported = ap (λ x. x.0.reported) run;
          },
        )
