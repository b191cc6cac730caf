-- ===== src/Engine/Slots/Ends.antt =====
-- internal/core/scanner/engine/stage.go: the loop of claimResultSlot ends.
use bgscan.Base.{
  ℕ, zero, suc, ◌+◌, ◌-◌, ◌*◌, ◌≤◌, ◌≡◌, ◌⊎◌, inl, inr, ◌==◌, leb, List, [], ◌∷◌, some, get_elem?,
  tally, if◌then◌else◌, arith, All, if-elim,
}
use bgscan.Engine.Slots.{
  SlotCall, begun, loaded, claimed, refused, Slots, claim_step, step_call, run_calls, all_begun,
  new_slots,
}
use bgscan.Engine.Slots.Unique.{
  Sound, claim_step-Moved, step_call-Stepped, all_begun-Sound, run_calls-Stepped,
}

-- How many of its own steps a call can still take.
abbrev pub left : ℕ → ℕ → SlotCall → ℕ
left limit s begun = 2 * (limit - s) + 1
left limit s (loaded cur) = 2 * (limit - cur)
left limit s (claimed n) = 0
left limit s (refused n) = 0

left-own :
    (limit s : ℕ) (p : SlotCall)
    → Sound limit s p
    → left limit (claim_step limit s p).0 (claim_step limit s p).1 ≤ left limit s p - 1
unfolding claim_step
left-own limit s begun h =
    if-elim (λ (x : ℕ × SlotCall). left limit x.0 x.1 ≤ left limit s begun - 1) (limit == 0)
      (λ z. omega arith)
      (λ z.
        if-elim (λ (x : ℕ × SlotCall). left limit x.0 x.1 ≤ left limit s begun - 1) (leb limit s)
          (λ full. omega arith) (λ room. ground arith))
left-own limit s (loaded cur) h =
    if-elim (λ (x : ℕ × SlotCall). left limit x.0 x.1 ≤ left limit s (loaded cur) - 1) (s == cur)
      (λ same. omega arith) (λ other. ground (arith, h.0, h.1, other))
left-own limit s (claimed n) h = omega arith
left-own limit s (refused n) h = omega arith

left-other : (limit s t : ℕ) (p : SlotCall) → s ≤ t → left limit t p ≤ left limit s p
left-other limit s t begun h = omega (arith, h)
left-other limit s t (loaded cur) h = omega arith
left-other limit s t (claimed n) h = omega arith
left-other limit s t (refused n) h = omega arith

-- The steps that the call with a number can still take; 0 where there is no such call.
abbrev pub left_at : ℕ → ℕ → List SlotCall → ℕ → ℕ
left_at limit s [] i = 0
left_at limit s (p ∷ ps) zero = left limit s p
left_at limit s (p ∷ ps) (suc i) = left_at limit s ps i

left_at-other :
    (limit s t : ℕ) (ps : List SlotCall) (i : ℕ)
    → s ≤ t
    → left_at limit t ps i ≤ left_at limit s ps i
left_at-other limit s t [] i h = omega arith
left_at-other limit s t (p ∷ ps) zero h = left-other limit s t p h
left_at-other limit s t (p ∷ ps) (suc i) h = left_at-other limit s t ps i h

step_call-left :
    (limit s : ℕ) (ps : List SlotCall) (i j : ℕ)
    → All (Sound limit s) ps
    → let next = step_call limit s ps i in
      left_at limit next.succeeded next.calls j ≤ left_at limit s ps j - (if i == j then 1 else 0)
unfolding step_call
step_call-left limit s [] i j a = omega arith
step_call-left limit s (p ∷ ps) zero zero a = ground (arith, left-own limit s p a.0)
step_call-left limit s (p ∷ ps) zero (suc j) a =
    ground (arith, left_at-other limit s _ ps j (claim_step-Moved limit s p a.0).grows)
step_call-left limit s (p ∷ ps) (suc i) zero a =
    ground (arith, left-other limit s _ p (step_call-Stepped limit s ps i a.1).grows)
step_call-left limit s (p ∷ ps) (suc i) (suc j) a =
    let same : (suc i == suc j) ≡ (i == j) = ground arith in
    rw same (step_call-left limit s ps i j a.1)

run_calls-left :
    (limit : ℕ) (s : Slots) (schedule : List ℕ) (j : ℕ)
    → All (Sound limit s.succeeded) s.calls
    → let after = run_calls limit s schedule in
      left_at limit after.succeeded after.calls j
      ≤ left_at limit s.succeeded s.calls j - tally (λ i. i == j) schedule
unfolding run_calls
run_calls-left limit s [] j a = omega arith
run_calls-left limit s (i ∷ schedule) j a =
    let one = step_call-left limit s.succeeded s.calls i j a in
    let rest =
      run_calls-left limit (step_call limit s.succeeded s.calls i) schedule j
        (step_call-Stepped limit s.succeeded s.calls i a).sound in
    ground (arith, one, rest)

all_begun-left : (limit workers j : ℕ) → left_at limit 0 (all_begun workers) j ≤ 2 * limit + 1
all_begun-left limit zero j = omega arith
all_begun-left limit (suc w) zero = omega arith
all_begun-left limit (suc w) (suc j) = all_begun-left limit w j

-- The calls that have returned.
abbrev pub Returned : SlotCall → Type 0
Returned p = ((n : ℕ) × (p ≡ claimed n)) ⊎ ((n : ℕ) × (p ≡ refused n))

left-Returned :
    (limit s : ℕ) (ps : List SlotCall) (j : ℕ) (p : SlotCall)
    → All (Sound limit s) ps
    → get_elem? ps j ≡ some p
    → left_at limit s ps j ≤ 0
    → Returned p
left-Returned limit s [] j p a e h = cc
left-Returned limit s (begun ∷ ps) zero p a e h = absurd (omega (arith, h))
left-Returned limit s (loaded cur ∷ ps) zero p a e h = absurd (omega (arith, h, a.0.0))
left-Returned limit s (claimed n ∷ ps) zero p a e h = inl (n, cc e)
left-Returned limit s (refused n ∷ ps) zero p a e h = inr (n, cc e)
left-Returned limit s (q ∷ ps) (suc j) p a e h = left-Returned limit s ps j p a.1 e h

-- In whatever order the operations of any number of calls run: a call that has taken 2 * limit + 1
-- operations has returned, so that no worker goes round the loop for ever.
pub run_calls-returns :
    (limit workers : ℕ) (schedule : List ℕ) (j : ℕ) (p : SlotCall)
    → 2 * limit + 1 ≤ tally (λ i. i == j) schedule
    → get_elem? (run_calls limit (new_slots workers) schedule).calls j ≡ some p
    → Returned p
run_calls-returns limit workers schedule j p turns e =
    let sound = all_begun-Sound limit 0 workers in
    let r = run_calls-left limit (new_slots workers) schedule j sound in
    left-Returned limit _ _ j p (run_calls-Stepped limit (new_slots workers) schedule sound).sound e
      (omega (arith, r, turns, all_begun-left limit workers j))
