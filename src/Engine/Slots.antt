-- ===== src/Engine/Slots.antt =====
-- internal/core/scanner/engine/stage.go: claimResultSlot, as calls of any number of workers that
-- run in any order. One step is one atomic operation on the counter `succeeded`.
pub mod Unique
pub mod Ends
use bgscan.Base.{ℕ, zero, suc, ◌+◌, Bool, true, false, ◌==◌, leb, List, [], ◌∷◌, if◌then◌else◌}

-- A call: before its Load (or its Add, where there is no limit), after a Load of this value, and
-- after its return, with the slot or without one.
pub data SlotCall : Type 0 where
  begun : SlotCall
  loaded : ℕ → SlotCall
  claimed : ℕ → SlotCall
  refused : ℕ → SlotCall

pub record Slots : Type 0 where
  pub succeeded : ℕ
  pub calls : List SlotCall

-- The next operation of a call, on the counter.
unfoldable pub claim_step : ℕ → ℕ → SlotCall → ℕ × SlotCall
claim_step limit succeeded begun =
    if limit == 0
    then (succeeded + 1, claimed (succeeded + 1))
    else if leb limit succeeded
    then (succeeded, refused succeeded)
    else (succeeded, loaded succeeded)
claim_step limit succeeded (loaded cur) =
    if succeeded == cur then (cur + 1, claimed (cur + 1)) else (succeeded, begun)
claim_step limit succeeded (claimed n) = (succeeded, claimed n)
claim_step limit succeeded (refused n) = (succeeded, refused n)

abbrev pub with_call : SlotCall → Slots → Slots
with_call p s = record { succeeded = s.succeeded; calls = p ∷ s.calls }

-- The step of the call with a number, and nothing where there is no such call.
unfoldable pub step_call : ℕ → ℕ → List SlotCall → ℕ → Slots
unfolding claim_step
step_call limit succeeded [] i = record { succeeded = succeeded; calls = [] }
step_call limit succeeded (p ∷ ps) zero =
    let next : ℕ × SlotCall = claim_step limit succeeded p in
    record { succeeded = next.0; calls = next.1 ∷ ps }
step_call limit succeeded (p ∷ ps) (suc i) = with_call p (step_call limit succeeded ps i)

-- The calls take their steps in the order of a schedule.
unfoldable pub run_calls : ℕ → Slots → List ℕ → Slots
unfolding step_call
run_calls limit s [] = s
run_calls limit s (i ∷ schedule) = run_calls limit (step_call limit s.succeeded s.calls i) schedule

abbrev pub all_begun : ℕ → List SlotCall
all_begun zero = []
all_begun (suc n) = begun ∷ all_begun n

abbrev pub new_slots : ℕ → Slots
new_slots workers = record { succeeded = 0; calls = all_begun workers }
