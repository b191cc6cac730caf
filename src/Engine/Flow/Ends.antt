-- ===== src/Engine/Flow/Ends.antt =====
-- internal/core/scanner/engine/chain.go: every run of the streaming pipeline ends.
use bgscan.Base.{
  ℕ, suc, ◌+◌, ◌*◌, ◌≤◌, ◌<◌, ◌≡◌, refl, ap, List, [], ◌∷◌, length, if◌then◌else◌, arith,
}
use bgscan.Engine.Flow.{Station, Step, Pipeline, Move, Run, stays, moves}
use bgscan.Engine.Flow.Counts.{sum, sum-append, sum-remove}

-- A bound of the steps that the addresses under way and the channels still open can give rise to.
abbrev pub work : {A : Type 0} → List (Station A) → ℕ
work [] = 0
work {A} (s ∷ ss) =
    (if s.closed then 0 else 1)
    + sum (λ (ip : A). 3 * length ss + 3) s.queue
    + sum (λ (ip : A). 3 * length ss + 2) s.busy
    + sum (λ (ip : A). 3 * length ss + 1) s.passing
    + work ss

abbrev pub work_all : {A : Type 0} → Pipeline A → ℕ
work_all {A} p = sum (λ (ip : A). 3 * length p.stations + 1) p.source + work p.stations

step-length : {A : Type 0} {ss ss' : List (Station A)} → Step A ss ss' → length ss' ≡ length ss
step-length (Step.receives ip rest e room) = refl
step-length (Step.fails_ip before ip after err e p m) = refl
step-length (Step.passes_last before ip after e p) = refl
step-length (Step.passes_ip before ip after e p) = refl
step-length (Step.forwards before ip after e room) = refl
step-length (Step.closes_output c q b p o) = refl
step-length (Step.later_stage step) = ap suc (step-length step)

step-work : {A : Type 0} {ss ss' : List (Station A)} → Step A ss ss' → work ss' < work ss
step-work {A} (Step.receives {s = s} {ss = ss} ip rest e room) =
    omega (arith, ap (sum (λ (ip : A). 3 * length ss + 3)) e)
step-work {A} (Step.fails_ip {s = s} {ss = ss} before ip after err e p m) =
    omega (arith, sum-remove (λ (ip : A). 3 * length ss + 2) s.busy before ip after e)
step-work {A} (Step.passes_last {s = s} before ip after e p) =
    omega (arith, sum-remove (λ (ip : A). 3 * 0 + 2) s.busy before ip after e)
step-work {A} (Step.passes_ip {s = s} {t = t} {ss = ss} before ip after e p) =
    omega (arith, sum-remove (λ (ip : A). 3 * suc (length ss) + 2) s.busy before ip after e)
step-work {A} (Step.forwards {s = s} {t = t} {ss = ss} before ip after e room) = omega (
  arith,
  sum-remove (λ (ip : A). 3 * suc (length ss) + 1) s.passing before ip after e,
  sum-append (λ (ip : A). 3 * length ss + 3) t.queue (ip ∷ []),
)
step-work (Step.closes_output {s = s} {t = t} {ss = ss} c q b p o) = rw o (omega arith)
step-work (Step.later_stage {s = s} step) = rw (step-length step) (omega (arith, step-work step))

Move-work : {A : Type 0} {p q : Pipeline A} → Move A p q → work_all q < work_all p
Move-work {A} (Move.sends {s = s} {ss = ss} ip rest room) =
    omega (arith, sum-append (λ (ip : A). 3 * length ss + 3) s.queue (ip ∷ []))
Move-work (Move.ends_source {s = s} {ss = ss} o) = rw o (omega arith)
Move-work (Move.stage_moves step) = rw (step-length step) (omega (arith, step-work step))

-- A run takes no more moves than the work that it starts with.
pub run-work : {A : Type 0} (n : ℕ) {p q : Pipeline A} → Run A n p q → n + work_all q ≤ work_all p
run-work n stays = omega arith
run-work n (moves m r) = omega (arith, Move-work m, run-work _ r)
