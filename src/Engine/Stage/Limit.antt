-- ===== src/Engine/Stage/Limit.antt =====
-- internal/core/scanner/engine/stage.go and worker.go: what a worker reports under a limit of results.
use bgscan.Base.{
  ℕ, suc, ◌+◌, ◌-◌, ◌≡◌, refl, sym, ap, ◌∙◌, Bool, true, false, ◌&&◌, List, [], ◌∷◌, ◌++◌, Option,
  none, some, ltb, leb, ◌==◌, if◌then◌else◌, length, take, arith, if-elim, Bool-cases, inl, inr,
  All, take-nil,
}
use mathlib.Core.List.{append-nil, append_assoc}
use bgscan.Result.{ScanResult}
use bgscan.Engine.Errors.{Error, normalize_err, terminating}
use bgscan.Engine.Stage.{
  StageConfig, new_executor, ProbeRun, passes, fails, Attempt, Executor, limit_error,
  result_limit_reached, write_error, deliver, claim_and_deliver, after_probe, process_ip, WorkerRun,
  after_process, run_worker,
}

-- Neither the limiter nor the writer fails, and the probe fails with no error that ends the scan.
abbrev pub Clean : Attempt → Type 0
Clean a =
    (a.limiter ≡ none)
    × (a.write ≡ none)
    × ((err : Error) → a.probe ≡ fails err → terminating err ≡ false)

write_error-none : (c : StageConfig) (a : Attempt) → a.write ≡ none → write_error c a ≡ none
write_error-none c a h =
    if-elim (λ (o : Option Error). o ≡ none) c.writer_disabled (λ _. refl) (λ _. rw h refl)

pub terminating-normalize_err :
    (err : Error) → terminating err ≡ false → terminating (normalize_err err) ≡ false
unfolding normalize_err
terminating-normalize_err err h = ground (arith, h)

abbrev pub after_pass : StageConfig → ScanResult → Executor → Executor
after_pass c r e = record e {
  processed = e.processed + 1;
  succeeded = e.succeeded + 1;
  reported = e.reported ++ r ∷ [];
  sent = if c.writer_disabled then e.sent else e.sent ++ r ∷ [];
}

abbrev pub count_probe : Executor → Executor
count_probe e = record e { processed = e.processed + 1 }

pub process_ip-full :
    (c : StageConfig) (a : Attempt) (e : Executor)
    → result_limit_reached c e ≡ true
    → process_ip c a e ≡ (e, some limit_error)
unfolding process_ip
process_ip-full c a e h = rw h refl

pub process_ip-passes :
    (c : StageConfig) (a : Attempt) (e : Executor) (r : ScanResult)
    → Clean a
    → result_limit_reached c e ≡ false
    → a.probe ≡ passes r
    → process_ip c a e ≡ (
      after_pass c r e,
      if ltb 0 c.result_limit && leb c.result_limit (e.succeeded + 1)
          then some limit_error
          else none,
    )
unfolding process_ip claim_and_deliver deliver
process_ip-passes c a e r k room h = rw (room, k.0, h, room, write_error-none c a k.1) refl

pub process_ip-fails :
    (c : StageConfig) (a : Attempt) (e : Executor) (err : Error)
    → Clean a
    → result_limit_reached c e ≡ false
    → a.probe ≡ fails err
    → process_ip c a e
      ≡ (count_probe e, some (if a.done_after_probe then err else normalize_err err))
unfolding process_ip after_probe
process_ip-fails c a e err k room h = rw (room, k.0, h) refl

abbrev pub add_result : ProbeRun → List ScanResult → List ScanResult
add_result (passes r) rs = r ∷ rs
add_result (fails err) rs = rs

abbrev pub add_survivor : {A : Type 0} → ProbeRun → A → List A → List A
add_survivor (passes r) ip ips = ip ∷ ips
add_survivor (fails err) ip ips = ips

-- The results of the probes that pass, and the addresses that they are of.
abbrev pub results : {A : Type 0} → (A → Attempt) → List A → List ScanResult
results world [] = []
results world (ip ∷ ips) = add_result (world ip).probe (results world ips)

abbrev pub survivors : {A : Type 0} → (A → Attempt) → List A → List A
survivors world [] = []
survivors world (ip ∷ ips) = add_survivor (world ip).probe ip (survivors world ips)

-- What a limit leaves of the results where some were reported before; 0 is no limit.
abbrev pub cap : ℕ → ℕ → List ScanResult → List ScanResult
cap limit before rs = if limit == 0 then rs else take (limit - before) rs

-- Whether so many more results reach the limit.
abbrev pub reaches : ℕ → ℕ → ℕ → Bool
reaches limit before more = ltb 0 limit && leb limit (before + more)

-- A worker that met these results, of these addresses.
pub record Ran {A : Type 0} (c : StageConfig) (rs : List ScanResult) (ips : List A) (e : Executor)
    (w : WorkerRun A) : Type 0 where
  pub reported : w.executor.reported ≡ e.reported ++ cap c.result_limit e.succeeded rs
  pub succeeded : w.executor.succeeded ≡ e.succeeded + length (cap c.result_limit e.succeeded rs)
  pub error :
      w.error ≡ (if reaches c.result_limit e.succeeded (length rs) then some limit_error else none)
  pub out : w.error ≡ none → w.out ≡ ips

data Probed (p : ProbeRun) : Type 0 where
  passed : (r : ScanResult) → p ≡ passes r → Probed p
  failed : (err : Error) → p ≡ fails err → Probed p

probed : (p : ProbeRun) → Probed p
probed (passes r) = passed r refl
probed (fails err) = failed err refl

pub cap-nil : (limit s : ℕ) → cap limit s [] ≡ []
cap-nil limit s =
    if-elim (λ (xs : List ScanResult). xs ≡ []) (limit == 0) (λ _. refl) (λ _. take-nil (limit - s))

-- The last result that a limit lets through, and one before it.
cap-last :
    (limit s : ℕ) (r : ScanResult) (rs : List ScanResult)
    → (ltb 0 limit && leb limit s) ≡ false
    → (ltb 0 limit && leb limit (s + 1)) ≡ true
    → cap limit s (r ∷ rs) ≡ r ∷ []
cap-last limit s r rs room h =
    let one : limit - s ≡ 1 = ground (arith, room, h) in
    let some_limit : (limit == 0) ≡ false = ground (arith, h) in rw (some_limit, one) refl

cap-cons :
    (limit s : ℕ) (r : ScanResult) (rs : List ScanResult)
    → (ltb 0 limit && leb limit (s + 1)) ≡ false
    → cap limit s (r ∷ rs) ≡ r ∷ cap limit (s + 1) rs
cap-cons limit s r rs h = elim (Bool-cases (limit == 0)) [
  | inl z ↦ rw z refl
  | inr z ↦ let next : limit - s ≡ suc (limit - (s + 1)) = ground (arith, h, z) in rw (z, next) refl
]

pub run_worker-Ran :
    {A : Type 0} (c : StageConfig) (world : A → Attempt) (ips : List A) (e : Executor)
    → All (λ ip. Clean (world ip)) ips
    → result_limit_reached c e ≡ false
    → Ran c (results world ips) (survivors world ips) e (run_worker c world ips e)
unfolding run_worker after_process
run_worker-Ran c world [] e k room = record {
  reported = rw (cap-nil c.result_limit e.succeeded) (sym (append-nil e.reported));
  succeeded = rw (cap-nil c.result_limit e.succeeded) (omega arith);
  error = ground (arith, room);
  out = λ _. refl;
}
run_worker-Ran {A} c world (ip ∷ ips) e k room = elim (probed (world ip).probe) [
  | passed r h ↦
      rw (process_ip-passes c (world ip) e r k.0 room h, h)
        (elim (Bool-cases (ltb 0 c.result_limit && leb c.result_limit (e.succeeded + 1))) [
          | inl full ↦
              let last = cap-last c.result_limit e.succeeded r (results world ips) room full in
              rw full (record {
                reported = ap (λ x. e.reported ++ x) (sym last);
                succeeded = ap (λ (x : List ScanResult). e.succeeded + length x) (sym last);
                error = ground (arith, full);
                out = λ n. cc;
              })
          | inr more ↦
              let rest = run_worker-Ran c world ips (after_pass c r e) k.1 more in
              let next = cap-cons c.result_limit e.succeeded r (results world ips) more in
              rw more (record {
                reported =
                    rest.reported
                    ∙ append_assoc e.reported (r ∷ []) _
                    ∙ ap (λ x. e.reported ++ x) (sym next);
                succeeded = rw next (omega (arith, rest.succeeded));
                error =
                    rest.error
                    ∙ ap (λ (b : Bool). if b then some limit_error else none)
                        (ground (arith, more));
                out = λ n. ap (λ (x : List A). ip ∷ x) (rest.out n);
              })
        ])
  | failed err h ↦
      let mild : terminating (if (world ip).done_after_probe then err else normalize_err err)
          ≡ false =
        if-elim (λ x. terminating x ≡ false) (world ip).done_after_probe (λ _. k.0.2 err h)
          (λ _. terminating-normalize_err err (k.0.2 err h)) in
      let rest = run_worker-Ran c world ips _ k.1 room in
      rw (process_ip-fails c (world ip) e err k.0 room h, h, mild)
        (record {
          reported = rest.reported;
          succeeded = rest.succeeded;
          error = rest.error;
          out = rest.out;
        })
]

-- For a worker of a new stage whose limiter and writer do not fail and whose probes fail with no error
-- that ends the scan: it reports the first results, in the order of its input, as many as the limit
-- lets through, and all of them where the limit is 0. It returns the limit's error exactly if there are
-- that many, and else the addresses that passed go on.
pub run_worker-first :
    {A : Type 0} (c : StageConfig) (world : A → Attempt) (ips : List A) (total : ℕ)
    → All (λ ip. Clean (world ip)) ips
    → let w = run_worker c world ips (new_executor total) in
      let rs = results world ips in
      (w.executor.reported ≡ (if c.result_limit == 0 then rs else take (c.result_limit - 0) rs))
      × (w.error ≡ (
          if ltb 0 c.result_limit && leb c.result_limit (0 + length rs)
          then some limit_error
          else none))
      × (w.error ≡ none → w.out ≡ survivors world ips)
run_worker-first c world ips total k =
    let ran = run_worker-Ran c world ips (new_executor total) k (ground arith) in
    (ran.reported, ran.error, ran.out)
