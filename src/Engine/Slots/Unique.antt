-- ===== src/Engine/Slots/Unique.antt =====
-- internal/core/scanner/engine/stage.go: the slots that claimResultSlot gives out.
use bgscan.Base.{
  ℕ, zero, suc, ◌+◌, ◌≤◌, ◌<◌, ◌≡◌, refl, ◌&&◌, ◌==◌, leb, List, [], ◌∷◌, if◌then◌else◌, arith, All,
  if-elim,
}
use bgscan.Engine.Slots.{
  SlotCall, begun, loaded, claimed, refused, Slots, claim_step, step_call, run_calls, all_begun,
  new_slots,
}

-- 1 for the calls that hold the slot n.
abbrev pub holds : ℕ → SlotCall → ℕ
holds n begun = 0
holds n (loaded cur) = 0
holds n (claimed m) = if m == n then 1 else 0
holds n (refused m) = 0

abbrev pub holders : ℕ → List SlotCall → ℕ
holders n [] = 0
holders n (p ∷ ps) = holds n p + holders n ps

-- 1 for the numbers from 1 to the counter.
abbrev pub given : ℕ → ℕ → ℕ
given n succeeded = if leb 1 n && leb n succeeded then 1 else 0

-- What a call has read is below the limit and not above the counter.
abbrev pub Sound : ℕ → ℕ → SlotCall → Type 0
Sound limit succeeded begun = Unit {0}
Sound limit succeeded (loaded cur) = (cur < limit) × (cur ≤ succeeded)
Sound limit succeeded (claimed n) = Unit {0}
Sound limit succeeded (refused n) = Unit {0}

pub Sound-mono : (limit s t : ℕ) (p : SlotCall) → s ≤ t → Sound limit s p → Sound limit t p
Sound-mono limit s t begun h a = tt
Sound-mono limit s t (loaded cur) h a = (a.0, omega (arith, h, a.1))
Sound-mono limit s t (claimed n) h a = tt
Sound-mono limit s t (refused n) h a = tt

All-Sound-mono :
    (limit s t : ℕ) (ps : List SlotCall) → s ≤ t → All (Sound limit s) ps → All (Sound limit t) ps
All-Sound-mono limit s t [] h a = tt
All-Sound-mono limit s t (p ∷ ps) h a =
    (Sound-mono limit s t p h a.0, All-Sound-mono limit s t ps h a.1)

-- What one operation does to the counter and to the slot n.
pub record Moved (limit s : ℕ) (p : SlotCall) (next : ℕ × SlotCall) : Type 0 where
  pub grows : s ≤ next.0
  pub within : 0 < limit → s ≤ limit → next.0 ≤ limit
  pub sound : Sound limit next.0 next.1
  pub slot : (n : ℕ) → holds n next.1 + given n s ≡ holds n p + given n next.0

pub claim_step-Moved :
    (limit s : ℕ) (p : SlotCall) → Sound limit s p → Moved limit s p (claim_step limit s p)
unfolding claim_step
claim_step-Moved limit s begun h =
    if-elim (Moved limit s begun) (limit == 0)
      (λ z. record {
        grows = omega arith;
        within = λ pos below. ground arith;
        sound = tt;
        slot = λ n. ground arith;
      })
      (λ z.
        if-elim (Moved limit s begun) (leb limit s)
          (λ full. record {
            grows = omega arith;
            within = λ pos below. below;
            sound = tt;
            slot = λ n. refl;
          })
          (λ room. record {
            grows = omega arith;
            within = λ pos below. below;
            sound = (ground (arith, room), omega arith);
            slot = λ n. refl;
          }))
claim_step-Moved limit s (loaded cur) h =
    if-elim (Moved limit s (loaded cur)) (s == cur)
      (λ same. record {
        grows = ground (arith, same);
        within = λ pos below. omega (arith, h.0);
        sound = tt;
        slot = λ n. ground (arith, same);
      })
      (λ other. record {
        grows = omega arith;
        within = λ pos below. below;
        sound = tt;
        slot = λ n. refl;
      })
claim_step-Moved limit s (claimed m) h = record {
  grows = omega arith;
  within = λ pos below. below;
  sound = tt;
  slot = λ n. refl;
}
claim_step-Moved limit s (refused m) h = record {
  grows = omega arith;
  within = λ pos below. below;
  sound = tt;
  slot = λ n. refl;
}

-- The same for a step of one call among all.
pub record Stepped (limit s : ℕ) (ps : List SlotCall) (next : Slots) : Type 0 where
  pub grows : s ≤ next.succeeded
  pub within : 0 < limit → s ≤ limit → next.succeeded ≤ limit
  pub sound : All (Sound limit next.succeeded) next.calls
  pub slot : (n : ℕ) → holders n next.calls + given n s ≡ holders n ps + given n next.succeeded

pub step_call-Stepped :
    (limit s : ℕ) (ps : List SlotCall) (i : ℕ)
    → All (Sound limit s) ps
    → Stepped limit s ps (step_call limit s ps i)
unfolding step_call
step_call-Stepped limit s [] i a = record {
  grows = omega arith;
  within = λ pos below. below;
  sound = tt;
  slot = λ n. refl;
}
step_call-Stepped limit s (p ∷ ps) zero a =
    let one = claim_step-Moved limit s p a.0 in
    record {
      grows = one.grows;
      within = one.within;
      sound = (one.sound, All-Sound-mono limit s _ ps one.grows a.1);
      slot = λ n. omega (arith, one.slot n);
    }
step_call-Stepped limit s (p ∷ ps) (suc i) a =
    let rest = step_call-Stepped limit s ps i a.1 in
    record {
      grows = rest.grows;
      within = rest.within;
      sound = (Sound-mono limit s _ p rest.grows a.0, rest.sound);
      slot = λ n. omega (arith, rest.slot n);
    }

pub run_calls-Stepped :
    (limit : ℕ) (s : Slots) (schedule : List ℕ)
    → All (Sound limit s.succeeded) s.calls
    → Stepped limit s.succeeded s.calls (run_calls limit s schedule)
unfolding run_calls
run_calls-Stepped limit s [] a = record {
  grows = omega arith;
  within = λ pos below. below;
  sound = a;
  slot = λ n. refl;
}
run_calls-Stepped limit s (i ∷ schedule) a =
    let one = step_call-Stepped limit s.succeeded s.calls i a in
    let rest = run_calls-Stepped limit (step_call limit s.succeeded s.calls i) schedule one.sound in
    record {
      grows = omega (arith, one.grows, rest.grows);
      within = λ pos below. rest.within pos (one.within pos below);
      sound = rest.sound;
      slot = λ n. omega (arith, one.slot n, rest.slot n);
    }

pub all_begun-Sound : (limit s workers : ℕ) → All (Sound limit s) (all_begun workers)
all_begun-Sound limit s zero = tt
all_begun-Sound limit s (suc n) = (tt, all_begun-Sound limit s n)

all_begun-holders : (n workers : ℕ) → holders n (all_begun workers) ≡ 0
all_begun-holders n zero = refl
all_begun-holders n (suc w) = omega (arith, all_begun-holders n w)

-- However many calls there are and in whatever order their operations run: each of the slots from 1
-- to the counter is held by exactly one call and no call holds another, and the counter does not
-- pass a limit that is not 0.
pub run_calls_unique :
    (limit workers : ℕ) (schedule : List ℕ) (n : ℕ)
    → let s = run_calls limit (new_slots workers) schedule in
      (holders n s.calls ≡ (if leb 1 n && leb n s.succeeded then 1 else 0))
      × (0 < limit → s.succeeded ≤ limit)
run_calls_unique limit workers schedule n =
    let r =
      run_calls-Stepped limit (new_slots workers) schedule (all_begun-Sound limit 0 workers) in
    let none_given : given n 0 ≡ 0 = ground arith in
    (
      omega (arith, r.slot n, none_given, all_begun-holders n workers),
      λ pos. r.within pos (omega arith),
    )
