-- ===== src/Engine/Flow/Progress.antt =====
-- internal/core/scanner/engine/chain.go: the streaming pipeline does not get stuck, and what it has
-- reported when it is done.
use bgscan.Base.{
  ℕ, ◌+◌, ◌<◌, ◌≡◌, ◌≢◌, refl, true, List, [], ◌∷◌, length, All, ◌⊎◌, inl, inr, arith, Bool-cases,
  none,
}
use bgscan.Engine.Stage.Limit.{Clean}
use bgscan.Engine.Flow.Attempts.{AllClean, attempt-cases}
use bgscan.Engine.Flow.Counts.{worlds_of}
use bgscan.Engine.Flow.{attempt, Station, Step, Pipeline, Move, Run, stays, moves}

-- Nothing is under way in a stage.
abbrev pub Idle : {A : Type 0} → Station A → Type 0
Idle s = (s.queue ≡ []) × (s.busy ≡ []) × (s.passing ≡ [])

-- All has been sent and processed, and all channels are closed.
abbrev pub Done : {A : Type 0} → Pipeline A → Type 0
Done p = (p.source ≡ []) × All Idle p.stations × All (λ s. s.closed ≡ true) p.stations

-- Every channel has room for one address at least, every stage has a worker, and nothing waits to be
-- forwarded by the last stage.
abbrev pub Fit : {A : Type 0} → List (Station A) → Type 0
Fit [] = Unit {0}
Fit (s ∷ ss) = (0 < s.capacity) × (0 < s.workers) × (ss ≡ [] → s.passing ≡ []) × Fit ss

pub step-cons : {A : Type 0} {ss ss' : List (Station A)} → Step A ss ss' → ss' ≢ []
step-cons (Step.receives ip rest e room) h = cc
step-cons (Step.fails_ip before ip after err e p m) h = cc
step-cons (Step.passes_last before ip after e p) h = cc
step-cons (Step.passes_ip before ip after e p) h = cc
step-cons (Step.forwards before ip after e room) h = cc
step-cons (Step.closes_output c q b p o) h = cc
step-cons (Step.later_stage step) h = cc

step-Fit : {A : Type 0} {ss ss' : List (Station A)} → Step A ss ss' → Fit ss → Fit ss'
step-Fit (Step.receives ip rest e room) f = f
step-Fit (Step.fails_ip before ip after err e p m) f = f
step-Fit (Step.passes_last before ip after e p) f = f
step-Fit (Step.passes_ip before ip after e p) f = (f.0, f.1, λ h. cc, f.3)
step-Fit (Step.forwards before ip after e room) f = (f.0, f.1, λ h. cc, f.3)
step-Fit (Step.closes_output c q b p o) f = (f.0, f.1, λ h. cc, f.3)
step-Fit (Step.later_stage step) f = (f.0, f.1, λ h. absurd (step-cons step h), step-Fit step f.3)

Move-Fit : {A : Type 0} {p q : Pipeline A} → Move A p q → Fit p.stations → Fit q.stations
Move-Fit (Move.sends ip rest room) f = f
Move-Fit (Move.ends_source o) f = f
Move-Fit (Move.stage_moves step) f = step-Fit step f

pub run-Fit :
    {A : Type 0} (n : ℕ) {p q : Pipeline A} → Run A n p q → Fit p.stations → Fit q.stations
run-Fit n stays f = f
run-Fit n (moves m r) f = run-Fit _ r (Move-Fit m f)

-- There is a step.
abbrev Steps : {A : Type 0} → List (Station A) → Type 0
Steps {A} ss = (ss' : List (Station A)) × Step A ss ss'

forwards_one :
    {A : Type 0} (s : Station A) (ss : List (Station A)) (ip : A) (rest : List A)
    → s.passing ≡ ip ∷ rest
    → Fit (s ∷ ss)
    → All Idle ss
    → Steps (s ∷ ss)
forwards_one s [] ip rest e f i = absurd (cc (f.2 refl, e))
forwards_one s (t ∷ ss) ip rest e f i =
    let room : length t.queue < t.capacity = rw i.0.0 f.3.0 in (_, Step.forwards [] ip rest e room)

probes_one :
    {A : Type 0} (s : Station A) (ss : List (Station A)) (ip : A) (rest : List A)
    → s.busy ≡ ip ∷ rest
    → Clean (s.world ip)
    → Steps (s ∷ ss)
probes_one s ss ip rest e k = elim (attempt-cases s ip k) [
  | inl (r, c) ↦ passes_one ss c.error
  | inr (err, logged, c) ↦ (_, Step.fails_ip [] ip rest logged e c.error c.mild)
]
  where
    passes_one : (ss : List (Station _)) → (attempt s ip).1 ≡ none → Steps (s ∷ ss)
    passes_one [] h = (_, Step.passes_last [] ip rest e h)
    passes_one (t ∷ ss) h = (_, Step.passes_ip [] ip rest e h)

list-cases : {A : Type 0} (xs : List A) → (xs ≡ []) ⊎ ((x : A) × (rest : List A) × (xs ≡ x ∷ rest))
list-cases [] = inl refl
list-cases (x ∷ xs) = inr (x, xs, refl)

-- Where nothing is under way after a stage, it can step or is idle.
head_moves :
    {A : Type 0} (s : Station A) (ss : List (Station A))
    → Fit (s ∷ ss)
    → ((ip : A) → Clean (s.world ip))
    → All Idle ss
    → Steps (s ∷ ss) ⊎ Idle s
head_moves s ss f k i = elim (list-cases s.passing) [
  | inr (ip, rest, e) ↦ inl (forwards_one s ss ip rest e f i)
  | inl p ↦ elim (list-cases s.busy) [
    | inr (ip, rest, e) ↦ inl (probes_one s ss ip rest e (k ip))
    | inl b ↦ elim (list-cases s.queue) [
      | inr (ip, rest, e) ↦
          let room : length s.busy + length s.passing < s.workers =
            rw (b, p) (omega (arith, f.1)) in
          inl (_, Step.receives ip rest e room)
      | inl q ↦ inr (q, b, p)
    ]
  ]
]

stages_move :
    {A : Type 0} (ss : List (Station A)) → Fit ss → AllClean (worlds_of ss) → Steps ss ⊎ All Idle ss
stages_move [] f k = inr tt
stages_move (s ∷ ss) f k = elim (stages_move ss f.3 k.1) [
  | inl (ss', step) ↦ inl (s ∷ ss', Step.later_stage step)
  | inr i ↦ elim (head_moves s ss f k.0 i) [ inl step ↦ inl step | inr h ↦ inr (h, i) ]
]

-- Idle stages whose first channel is closed close the next, until all are closed.
closes :
    {A : Type 0} (s : Station A) (ss : List (Station A))
    → s.closed ≡ true
    → All Idle (s ∷ ss)
    → Steps (s ∷ ss) ⊎ All (λ t. t.closed ≡ true) (s ∷ ss)
closes s [] c i = inr (c, tt)
closes s (t ∷ ss) c i = elim (Bool-cases t.closed) [
  | inr o ↦ inl (_, Step.closes_output c i.0.0 i.0.1 i.0.2 o)
  | inl d ↦ elim (closes t ss d i.1) [
    | inl (ss', step) ↦ inl (s ∷ ss', Step.later_stage step)
    | inr all ↦ inr (c, all)
  ]
]

pub Move-or_Done :
    {A : Type 0} (ips : List A) (s : Station A) (ss : List (Station A))
    → Fit (s ∷ ss)
    → AllClean (worlds_of (s ∷ ss))
    → let p : Pipeline A = record { source = ips; stations = s ∷ ss } in
      ((q : Pipeline A) × Move A p q) ⊎ Done p
Move-or_Done {A} ips s ss f k = elim (stages_move (s ∷ ss) f k) [
  | inl (ss', step) ↦ inl (_, Move.stage_moves step)
  | inr i ↦ idle_moves ips i
]
  where
    idle_moves :
        (ips : List A)
        → All Idle (s ∷ ss)
        → let p : Pipeline A = record { source = ips; stations = s ∷ ss } in
          ((q : Pipeline A) × Move A p q) ⊎ Done p
    idle_moves (ip ∷ rest) i =
        let room : length s.queue < s.capacity = rw i.0.0 f.0 in inl (_, Move.sends ip rest room)
    idle_moves [] i = elim (Bool-cases s.closed) [
      | inr o ↦ inl (_, Move.ends_source o)
      | inl c ↦ elim (closes s ss c i) [
        | inl (ss', step) ↦ inl (_, Move.stage_moves step)
        | inr all ↦ inr (refl, i, all)
      ]
    ]
