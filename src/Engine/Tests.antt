-- ===== src/Engine/Tests.antt =====
-- The theorems on the engine at concrete calls, errors, stages and pipelines.
use bgscan.Base.{
  ℕ, ◌≤◌, ◌<◌, ◌≡◌, refl, sym, ◌⊎◌, Bool, true, false, ◌==◌, List, [], ◌∷◌, none, some, tally,
  get_elem?, if◌then◌else◌, arith, if-elim,
}
use bgscan.Result.{ScanResult}
use bgscan.Engine.Slots.{SlotCall, claim_step, step_call, run_calls, new_slots}
use bgscan.Engine.Slots.Unique.{holders, run_calls_unique}
use bgscan.Engine.Slots.Ends.{Returned, run_calls-returns}
use bgscan.Engine.Errors.{
  Error, timeout, refused, econnrefused, eof, other, terminating, no_errors, total_errors,
  count_error,
}
use bgscan.Engine.Errors.Classes.{count_error-total}
use bgscan.Engine.Stage.{
  StageConfig, ProbeRun, passes, fails, Attempt, new_executor, limit_error, run_worker, process_ip,
  claim_and_deliver, deliver,
}
use bgscan.Engine.Stage.Limit.{Clean, run_worker-first}
use bgscan.Engine.Stage.Invariant.{Consistent, run_worker-Consistent}
use bgscan.Engine.Chain.{
  create_stage_channels, get_input_channel, get_output_channel, batch_size, stream_batches,
  run_batch, scan_error, build_executors, close_executors,
}
use bgscan.Engine.Chain.Batches.{joined, Filled, stream_batches-round}
use bgscan.Engine.Chain.Wiring.{create_stage_channels-wired}
use bgscan.Engine.Chain.Results.{last_executor}
use bgscan.Engine.Chain.Build.{run_batch-first}
use bgscan.Engine.Flow.{Step, Pipeline, Move, Run, stays, moves, StageSpec, open_stations}
use bgscan.Engine.Flow.Ends.{work_all}
use bgscan.Engine.Flow.Progress.{Done}
use bgscan.Engine.Flow.Exact.{last_reported, run_streaming-exact}

-- Two calls that both read 0, of which the second wins.
abbrev race : List ℕ
race = 0 ∷ 1 ∷ 1 ∷ 0 ∷ 0 ∷ []

run_calls_unique_example :
    (holders 1 (run_calls 1 (new_slots 2) race).calls ≡ 1)
    × (0 < 1 → (run_calls 1 (new_slots 2) race).succeeded ≤ 1)
unfolding run_calls step_call claim_step
run_calls_unique_example = run_calls_unique 1 2 race 1

run_calls-returns_example : Returned (SlotCall.refused 1)
unfolding run_calls step_call claim_step
run_calls-returns_example = run_calls-returns 1 2 race 0 (SlotCall.refused 1) (omega arith) refl

abbrev refused_error : Error
refused_error = econnrefused ∷ other 3 ∷ []

count_error-total_example :
    let t = (count_error (eof ∷ []) no_errors).0 in
    (total_errors t ≡ 1)
    × ((count_error (eof ∷ []) no_errors).1 ≡ true)
    × (t.timeouts ≡ 0)
    × (t.unreachables ≡ 0)
    × (t.refusals ≡ 0)
    × (t.bad_responses ≡ 0)
    × (t.closes ≡ 1)
    × (t.others ≡ 0)
count_error-total_example = count_error-total (eof ∷ []) no_errors

abbrev three : List ℕ
three = 3 ∷ 1 ∷ 2 ∷ []

abbrev four : List ℕ
four = 3 ∷ 1 ∷ 2 ∷ 4 ∷ []

-- All numbers but 1 pass, with themselves as scores; 1 times out.
abbrev scored : ℕ → ScanResult
scored n = record { key = n ∷ []; score = n; row = (n ∷ []) ∷ [] }

abbrev meets : ℕ → Attempt
meets n = record {
  limiter = none;
  probe = if n == 1 then fails (timeout ∷ []) else passes (scored n);
  done_after_probe = false;
  write = none;
  done_after_write = false;
}

abbrev stage_config : StageConfig
stage_config = record { result_limit = 2; ignore_writer_err = false; writer_disabled = false }

meets-Clean : (n : ℕ) → Clean (meets n)
meets-Clean n = (
  refl,
  refl,
  λ err.
      if-elim (λ (p : ProbeRun). p ≡ fails err → terminating err ≡ false) (n == 1)
        (λ one h. let same : timeout ∷ [] ≡ err = cc h in rw (sym same) refl) (λ other h. cc),
)

run_worker-first_example :
    let w = run_worker stage_config meets four (new_executor 4) in
    (w.executor.reported ≡ scored 3 ∷ scored 2 ∷ [])
    × (w.error ≡ some limit_error)
    × (w.error ≡ none → w.out ≡ 3 ∷ 2 ∷ 4 ∷ [])
run_worker-first_example =
    run_worker-first stage_config meets four 4
      (meets-Clean 3, (meets-Clean 1, (meets-Clean 2, (meets-Clean 4, tt))))

run_worker-Consistent_example :
    Consistent stage_config (run_worker stage_config meets four (new_executor 4)).executor
run_worker-Consistent_example = run_worker-Consistent stage_config meets four 4

stream_batches-round_example :
    (joined (stream_batches (batch_size 2 (1 ∷ 2 ∷ [])) [] three) ≡ three)
    × Filled (batch_size 2 (1 ∷ 2 ∷ [])) (stream_batches (batch_size 2 (1 ∷ 2 ∷ [])) [] three)
stream_batches-round_example = stream_batches-round 2 (1 ∷ 2 ∷ []) three

create_stage_channels-wired_example :
    (get_output_channel 0 2 ≡ get_input_channel 1)
    × ((size : ℕ) × (get_elem? (create_stage_channels 4 (1 ∷ 8 ∷ [])) 0 ≡ some size)
        × (8 ≤ size)
        × (4 ≤ size)
        × (0 < size))
create_stage_channels-wired_example = create_stage_channels-wired 4 (1 ∷ 8 ∷ []) 0 8 refl

-- Without a limit the scan returns the error of the second writer's Close.
run_batch-first_example :
    let stages = build_executors 2 0 false 4 0 (meets ∷ meets ∷ []) in
    let r = run_batch true (none ∷ some (other 5 ∷ []) ∷ []) 2 four stages in
    ((last_executor r.stages).reported ≡ scored 3 ∷ scored 2 ∷ scored 4 ∷ [])
    × (scan_error r ≡ some (other 5 ∷ []))
unfolding build_executors close_executors
run_batch-first_example =
    run_batch-first (none ∷ some (other 5 ∷ []) ∷ []) 0 2 4 false four meets (meets ∷ [])
      (meets-Clean, (meets-Clean, tt))

abbrev spec : StageSpec ℕ
spec = record { world = meets; workers = 2 }

abbrev opened : Pipeline ℕ
opened = record { source = 3 ∷ []; stations = open_stations false 0 1 spec [] }

-- The only address is sent, received and probed, and the input is closed.
abbrev streamed : (p : Pipeline ℕ) × Run ℕ 4 opened p
unfolding open_stations create_stage_channels process_ip claim_and_deliver deliver
streamed = (
  _,
  moves (Move.sends 3 [] (omega arith)) (
      moves (Move.stage_moves (Step.receives 3 [] refl (omega arith))) (
        moves (Move.stage_moves (Step.passes_last [] 3 [] refl refl))
          (moves (Move.ends_source refl) stays))),
)

run_streaming-exact_example :
    (((q : Pipeline ℕ) × Move ℕ streamed.0 q) ⊎ Done streamed.0)
    × (4 ≤ work_all opened)
    × (Done streamed.0
        → (test : ScanResult → Bool)
        → tally test (last_reported streamed.0.stations) ≡ tally test (scored 3 ∷ []))
run_streaming-exact_example =
    run_streaming-exact false 0 1 spec [] (3 ∷ []) 4 streamed.0 (meets-Clean, tt) streamed.1
