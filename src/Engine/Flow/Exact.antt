-- ===== src/Engine/Flow/Exact.antt =====
-- internal/core/scanner/engine/chain.go: what the streaming pipeline has reported when it is done.
use bgscan.Base.{
  ℕ, suc, ◌*◌, ◌≤◌, ◌<◌, ◌≡◌, ◌≢◌, refl, ap, Bool, List, [], ◌∷◌, length, tally, All, ◌⊎◌, arith,
  subst, sym,
}
use bgscan.Result.{ScanResult}
use bgscan.Engine.Stage.{Attempt}
use bgscan.Engine.Chain.{get_worker_count, create_stage_channels}
use bgscan.Engine.Chain.Build.{scan_results}
use bgscan.Engine.Flow.{
  Station, new_station, Pipeline, Move, Run, stays, moves, StageSpec, workers_of, later_stations,
  open_stations,
}
use bgscan.Engine.Flow.Counts.{
  run-worlds_of, yield, sum, worlds_of, due, due_all, run-due, sum-yield,
}
use bgscan.Engine.Flow.Attempts.{AllClean}
use bgscan.Engine.Flow.Ends.{work_all, run-work}
use bgscan.Engine.Flow.Progress.{Idle, Done, Fit, step-cons, run-Fit, Move-or_Done}

abbrev pub last_reported : {A : Type 0} → List (Station A) → List ScanResult
last_reported [] = []
last_reported (s ∷ []) = s.reported
last_reported (s ∷ t ∷ ss) = last_reported (t ∷ ss)

-- What the stages of a scan meet.
abbrev pub spec_worlds : {A : Type 0} → List (StageSpec A) → List (A → Attempt)
spec_worlds [] = []
spec_worlds (c ∷ cs) = c.world ∷ spec_worlds cs

due-Idle :
    {A : Type 0} (test : ScanResult → Bool) (ss : List (Station A))
    → All Idle ss
    → due test ss ≡ tally test (last_reported ss)
due-Idle test [] i = refl
due-Idle test (s ∷ []) i = rw (i.0.0, i.0.1, i.0.2) (omega arith)
due-Idle test (s ∷ t ∷ ss) i = rw (i.0.0, i.0.1, i.0.2) (omega (arith, due-Idle test (t ∷ ss) i.1))

-- As many channels as there are stages.
create_stage_channels-length :
    (buffer : ℕ) (workers : List ℕ) → length (create_stage_channels buffer workers) ≡ length workers
unfolding create_stage_channels
create_stage_channels-length buffer [] = refl
create_stage_channels-length buffer (w ∷ []) = refl
create_stage_channels-length buffer (w ∷ v ∷ workers) =
    ap suc (create_stage_channels-length buffer (v ∷ workers))

create_stage_channels-positive :
    (buffer : ℕ) (workers : List ℕ) → All (λ size. 0 < size) (create_stage_channels buffer workers)
unfolding create_stage_channels
create_stage_channels-positive buffer [] = tt
create_stage_channels-positive buffer (w ∷ []) = (ground arith, tt)
create_stage_channels-positive buffer (w ∷ v ∷ workers) =
    (ground arith, create_stage_channels-positive buffer (v ∷ workers))

later_stations-Fit :
    {A : Type 0} (ignore : Bool) (sizes : List ℕ) (cs : List (StageSpec A))
    → All (λ size. 0 < size) sizes
    → Fit (later_stations ignore sizes cs)
later_stations-Fit ignore [] cs h = tt
later_stations-Fit ignore (size ∷ sizes) [] h = tt
later_stations-Fit ignore (size ∷ sizes) (c ∷ cs) h =
    (h.0, ground arith, λ _. refl, later_stations-Fit ignore sizes cs h.1)

later_stations-worlds :
    {A : Type 0} (ignore : Bool) (sizes : List ℕ) (cs : List (StageSpec A))
    → length cs ≤ length sizes
    → worlds_of (later_stations ignore sizes cs) ≡ spec_worlds cs
later_stations-worlds ignore [] [] h = refl
later_stations-worlds ignore [] (c ∷ cs) h = absurd (omega (arith, h))
later_stations-worlds ignore (size ∷ sizes) [] h = refl
later_stations-worlds ignore (size ∷ sizes) (c ∷ cs) h =
    ap (λ ws. c.world ∷ ws) (later_stations-worlds ignore sizes cs (omega (arith, h)))

later_stations-Idle :
    {A : Type 0} (ignore : Bool) (sizes : List ℕ) (cs : List (StageSpec A))
    → All Idle (later_stations ignore sizes cs)
later_stations-Idle ignore [] cs = tt
later_stations-Idle ignore (size ∷ sizes) [] = tt
later_stations-Idle ignore (size ∷ sizes) (c ∷ cs) =
    ((refl, refl, refl), later_stations-Idle ignore sizes cs)

later_stations-last :
    {A : Type 0} (s : Station A) (ignore : Bool) (sizes : List ℕ) (cs : List (StageSpec A))
    → s.reported ≡ []
    → last_reported (s ∷ later_stations ignore sizes cs) ≡ []
later_stations-last s ignore [] cs h = h
later_stations-last s ignore (size ∷ sizes) [] h = h
later_stations-last s ignore (size ∷ sizes) (c ∷ cs) h =
    later_stations-last (new_station c.world ignore size (get_worker_count c.workers) 0) ignore
      sizes cs refl

length-workers_of : {A : Type 0} (cs : List (StageSpec A)) → length (workers_of cs) ≡ length cs
length-workers_of [] = refl
length-workers_of (c ∷ cs) = ap suc (length-workers_of cs)

run-cons : {A : Type 0} (n : ℕ) {p q : Pipeline A} → Run A n p q → p.stations ≢ [] → q.stations ≢ []
run-cons n stays h = h
run-cons n (moves (Move.sends ip rest room) r) h = run-cons _ r (λ e. cc)
run-cons n (moves (Move.ends_source o) r) h = run-cons _ r (λ e. cc)
run-cons n (moves (Move.stage_moves step) r) h = run-cons _ r (step-cons step)

goes_on :
    {A : Type 0} (p : Pipeline A)
    → Fit p.stations
    → AllClean (worlds_of p.stations)
    → p.stations ≢ []
    → ((q : Pipeline A) × Move A p q) ⊎ Done p
goes_on p f k h = from_stations p.source p.stations f k h
  where
    from_stations :
        {A : Type 0} (ips : List A) (ss : List (Station A))
        → Fit ss
        → AllClean (worlds_of ss)
        → ss ≢ []
        → let p : Pipeline A = record { source = ips; stations = ss } in
          ((q : Pipeline A) × Move A p q) ⊎ Done p
    from_stations ips [] f k h = absurd (h refl)
    from_stations ips (s ∷ ss) f k h = Move-or_Done ips s ss f k

open_stations-worlds :
    {A : Type 0} (ignore : Bool) (buffer total : ℕ) (c : StageSpec A) (cs : List (StageSpec A))
    → worlds_of (open_stations ignore buffer total c cs) ≡ spec_worlds (c ∷ cs)
unfolding open_stations
open_stations-worlds ignore buffer total c cs =
    let sizes = create_stage_channels buffer (c.workers ∷ workers_of cs) in
    ap (λ ws. c.world ∷ ws)
      (later_stations-worlds ignore sizes cs (
        omega (
          arith,
          create_stage_channels-length buffer (c.workers ∷ workers_of cs),
          length-workers_of cs,
        )))

open_stations-starts :
    {A : Type 0} (test : ScanResult → Bool) (ignore : Bool) (buffer total : ℕ) (c : StageSpec A)
    (cs : List (StageSpec A)) (ips : List A)
    → due_all test (record { source = ips; stations = open_stations ignore buffer total c cs })
      ≡ tally test (scan_results (spec_worlds (c ∷ cs)) ips)
unfolding open_stations
open_stations-starts {A} test ignore buffer total c cs ips =
    let sizes = create_stage_channels buffer (c.workers ∷ workers_of cs) in
    let first : Station A =
      new_station c.world ignore (get_worker_count c.workers * 2) (get_worker_count c.workers)
        total in
    let enough : length cs ≤ length sizes = omega (
      arith,
      create_stage_channels-length buffer (c.workers ∷ workers_of cs),
      length-workers_of cs,
    ) in
    let worlds = later_stations-worlds ignore sizes cs enough in
    let idle =
      due-Idle test (first ∷ later_stations ignore sizes cs)
        ((refl, refl, refl), later_stations-Idle ignore sizes cs) in
    let nothing : tally test (last_reported (first ∷ later_stations ignore sizes cs)) ≡ 0 =
      ap (tally test) (later_stations-last first ignore sizes cs refl) in
    let yields = ap (λ ws. sum (yield test (c.world ∷ ws)) ips) worlds in
    omega (arith, idle, nothing, yields, sum-yield test (spec_worlds (c ∷ cs)) ips)

-- For one stage or more, with any number of workers and any sizes, where nobody cancels, no stage has a
-- limit, no limiter or writer fails and no probe fails with an error that ends the scan: in any order of
-- the steps of all goroutines, the pipeline can go on until it is done, it is done after a bounded number
-- of steps, and then the last stage has reported exactly the results of the addresses that pass every
-- stage, each as often as the input has it, in some order.
pub run_streaming-exact :
    {A : Type 0} (ignore : Bool) (buffer total : ℕ) (c : StageSpec A) (cs : List (StageSpec A))
    (ips : List A) (n : ℕ) (p : Pipeline A)
    → AllClean (spec_worlds (c ∷ cs))
    → Run A n (record { source = ips; stations = open_stations ignore buffer total c cs }) p
    → (((q : Pipeline A) × Move A p q) ⊎ Done p)
      × (n ≤ work_all (record { source = ips; stations = open_stations ignore buffer total c cs }))
      × (Done p
          → (test : ScanResult → Bool)
          → tally test (last_reported p.stations)
            ≡ tally test (scan_results (spec_worlds (c ∷ cs)) ips))
unfolding open_stations
run_streaming-exact ignore buffer total c cs ips n p k r =
    let sizes = create_stage_channels buffer (c.workers ∷ workers_of cs) in
    let fit =
      later_stations-Fit ignore sizes cs
        (create_stage_channels-positive buffer (c.workers ∷ workers_of cs)) in
    let clean = subst AllClean (sym (open_stations-worlds ignore buffer total c cs)) k in
    let clean_now = subst AllClean (sym (run-worlds_of n r)) clean in
    (
      goes_on p (run-Fit n r (ground arith, ground arith, λ _. refl, fit)) clean_now
          (run-cons n r (λ e. cc)),
      omega (arith, run-work n r),
      λ d test.
          let empty : sum (yield test (worlds_of p.stations)) p.source ≡ 0 =
            ap (sum (yield test (worlds_of p.stations))) d.0 in
          omega (
            arith,
            empty,
            due-Idle test p.stations d.1,
            run-due test n clean r,
            open_stations-starts test ignore buffer total c cs ips,
          ),
    )
