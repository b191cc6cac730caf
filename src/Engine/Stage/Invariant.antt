-- ===== src/Engine/Stage/Invariant.antt =====
-- internal/core/scanner/engine/stage.go and worker.go: the counters of a stage, whatever fails.
use bgscan.Base.{
  ℕ, ◌+◌, ◌≤◌, ◌<◌, ◌≡◌, refl, ap, Bool, true, false, List, [], ◌∷◌, ◌++◌, Option, none, some,
  if◌then◌else◌, length, length-append, arith, if-elim,
}
use bgscan.Result.{ScanResult}
use bgscan.Engine.Errors.{Error, terminating}
use bgscan.Engine.Stage.{
  StageConfig, new_executor, ProbeRun, passes, fails, Attempt, Executor, result_limit_reached,
  deliver, claim_and_deliver, after_probe, after_limiter, process_ip, WorkerRun, after_process,
  run_worker,
}

-- The successes are those reported, within the limit and the processed addresses, and the writer was
-- given each of them, unless it is disabled.
abbrev pub Consistent : StageConfig → Executor → Type 0
Consistent c e =
    (length e.reported ≡ e.succeeded)
    × (0 < c.result_limit → e.succeeded ≤ c.result_limit)
    × (e.succeeded ≤ e.processed)
    × (e.sent ≡ (if c.writer_disabled then [] else e.reported))

claim_and_deliver-Consistent :
    (c : StageConfig) (a : Attempt) (r : ScanResult) (e : Executor)
    → Consistent c e
    → Consistent c (claim_and_deliver c a r (record e { processed = e.processed + 1 })).0
unfolding claim_and_deliver deliver
claim_and_deliver-Consistent c a r e k =
    if-elim (λ (x : Executor × Option Error). Consistent c x.0) (result_limit_reached c e)
      (λ _. (k.0, k.1, omega (arith, k.2), k.3))
      (λ room. (
        omega (arith, k.0, length-append e.reported (r ∷ [])),
        λ pos. ground (arith, room, pos),
        omega (arith, k.2),
        grew c.writer_disabled r e.sent e.reported k.3,
      ))
  where
    grew :
        (b : Bool) (r : ScanResult) (sent reported : List ScanResult)
        → sent ≡ (if b then [] else reported)
        → (if b then sent else sent ++ r ∷ []) ≡ (if b then [] else reported ++ r ∷ [])
    grew true r sent reported h = h
    grew false r sent reported h = ap (λ x. x ++ r ∷ []) h

process_ip-Consistent :
    (c : StageConfig) (a : Attempt) (e : Executor)
    → Consistent c e
    → Consistent c (process_ip c a e).0
unfolding process_ip after_probe
process_ip-Consistent c a e k =
    if-elim (λ (x : Executor × Option Error). Consistent c x.0) (result_limit_reached c e) (λ _. k)
      (λ _. limited a.limiter)
  where
    probed :
        (p : ProbeRun)
        → Consistent c (after_probe c a p (record e { processed = e.processed + 1 })).0
    probed (fails err) = (k.0, k.1, omega (arith, k.2), k.3)
    probed (passes r) = claim_and_deliver-Consistent c a r e k

    limited : (o : Option Error) → Consistent c (after_limiter c a o e).0
    limited (some err) = k
    limited none = probed a.probe

after_process-Consistent :
    {A : Type 0} (c : StageConfig) (ip : A) (x : Executor × Option Error)
    (go : Executor → WorkerRun A)
    → Consistent c x.0
    → ((f : Executor) → Consistent c f → Consistent c (go f).executor)
    → Consistent c (after_process ip x go).executor
unfolding after_process
after_process-Consistent c ip (f, none) go h k = k f h
after_process-Consistent {A} c ip (f, some err) go h k =
    if-elim (λ (w : WorkerRun A). Consistent c w.executor) (terminating err) (λ _. h) (λ _. k _ h)

run_worker-keeps :
    {A : Type 0} (c : StageConfig) (world : A → Attempt) (ips : List A) (e : Executor)
    → Consistent c e
    → Consistent c (run_worker c world ips e).executor
unfolding run_worker
run_worker-keeps c world [] e k = k
run_worker-keeps c world (ip ∷ ips) e k =
    after_process-Consistent c ip (process_ip c (world ip) e) (run_worker c world ips)
      (process_ip-Consistent c (world ip) e k) (run_worker-keeps c world ips)

-- Whatever the limiter, the probes, the writer and the context do: of a worker of a new stage, the
-- successes are as many as the results reported, at most a limit that is not 0 and at most the addresses
-- that were probed, and the writer was given the results reported, in order, unless it is disabled.
pub run_worker-Consistent :
    {A : Type 0} (c : StageConfig) (world : A → Attempt) (ips : List A) (total : ℕ)
    → Consistent c (run_worker c world ips (new_executor total)).executor
run_worker-Consistent c world ips total = run_worker-keeps c world ips (new_executor total) (
  refl,
  λ pos. omega arith,
  omega arith,
  if-elim (λ xs. [] ≡ xs) c.writer_disabled (λ _. refl) (λ _. refl),
)
