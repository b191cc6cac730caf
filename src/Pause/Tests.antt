-- ===== src/Pause/Tests.antt =====
-- The theorems on the pause controller at a concrete sequence of calls.
use bgscan.Base.{ℕ, ◌≡◌, refl, true, false, some, List, [], ◌∷◌}
use bgscan.Pause.{
  Controller, new_pause_controller, paused_duration, wait, blocks, Call, pausing, resuming, run,
}
use bgscan.Pause.Clock.{run-measures, wait-run}

-- Paused from 5 to 12, and from 20 on.
abbrev some_calls : List (ℕ × Call)
some_calls = (5, pausing) ∷ (7, resuming) ∷ (8, pausing) ∷ (3, pausing) ∷ []

abbrev at_end : Controller
at_end = record {
  is_paused = true;
  resume_open = true;
  paused_at = some 20;
  total_pause = 7;
  done_open = true;
}

run-measures_example :
    (final : Controller) × (run 0 some_calls new_pause_controller ≡ some final)
    × (paused_duration 23 final ≡ 10)
run-measures_example = run-measures some_calls

wait-run_example : wait false at_end ≡ blocks
unfolding run
wait-run_example = wait-run some_calls at_end false refl
