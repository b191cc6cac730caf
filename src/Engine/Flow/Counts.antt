-- ===== src/Engine/Flow/Counts.antt =====
-- internal/core/scanner/engine/chain.go: no step of the streaming pipeline loses or repeats a result.
use bgscan.Base.{
  ℕ, ◌+◌, ◌≡◌, refl, ap, ◌∙◌, Bool, true, false, List, [], ◌∷◌, ◌++◌, tally, tally-append, none,
  some, subst, sym, inl, inr, if◌then◌else◌, arith,
}
use bgscan.Result.{ScanResult}
use bgscan.Engine.Stage.{ProbeRun, passes, fails, Attempt}
use bgscan.Engine.Stage.Limit.{results, survivors, add_result, add_survivor}
use bgscan.Engine.Chain.{is_nil}
use bgscan.Engine.Chain.Build.{scan_results}
use bgscan.Engine.Stage.Limit.{Clean}
use bgscan.Engine.Errors.{Error}
use mathlib.Core.List.{append-nil}
use bgscan.Engine.Flow.Attempts.{AllClean, Passed, Failed, attempt-cases}
use bgscan.Engine.Flow.{attempt, Station, Step, Pipeline, Move, Run, stays, moves}

-- What an address adds to a count of the results of the last stage, from one of the stages on.
abbrev pub yield_of : (ScanResult → Bool) → ProbeRun → ℕ → Bool → ℕ
yield_of test (fails err) rest last = 0
yield_of test (passes r) rest true = if test r then 1 else 0
yield_of test (passes r) rest false = rest

abbrev pub yield : {A : Type 0} → (ScanResult → Bool) → List (A → Attempt) → A → ℕ
yield test [] ip = 0
yield test (w ∷ worlds) ip = yield_of test (w ip).probe (yield test worlds ip) (is_nil worlds)

abbrev pub sum : {A : Type 0} → (A → ℕ) → List A → ℕ
sum f [] = 0
sum f (x ∷ xs) = f x + sum f xs

pub sum-append : {A : Type 0} (f : A → ℕ) (xs ys : List A) → sum f (xs ++ ys) ≡ sum f xs + sum f ys
sum-append f [] ys = omega arith
sum-append f (x ∷ xs) ys = omega (arith, sum-append f xs ys)

pub sum-remove :
    {A : Type 0} (f : A → ℕ) (zs xs : List A) (x : A) (ys : List A)
    → zs ≡ xs ++ x ∷ ys
    → sum f zs ≡ sum f (xs ++ ys) + f x
sum-remove f zs xs x ys e = rw e (omega (arith, sum-append f xs (x ∷ ys), sum-append f xs ys))

abbrev pub worlds_of : {A : Type 0} → List (Station A) → List (A → Attempt)
worlds_of [] = []
worlds_of (s ∷ ss) = s.world ∷ worlds_of ss

-- What the last stage has reported, 0 at a stage before it.
abbrev pub last_count : {A : Type 0} → (ScanResult → Bool) → Station A → List (Station A) → ℕ
last_count test s [] = tally test s.reported
last_count test s (t ∷ ss) = 0

-- How many results that pass a test the last stage has reported, or will of what is under way.
abbrev pub due : {A : Type 0} → (ScanResult → Bool) → List (Station A) → ℕ
due test [] = 0
due test (s ∷ ss) =
    last_count test s ss
    + sum (yield test (worlds_of ss)) s.passing
    + sum (yield test (s.world ∷ worlds_of ss)) s.busy
    + sum (yield test (s.world ∷ worlds_of ss)) s.queue
    + due test ss

-- The same of a pipeline.
abbrev pub due_all : {A : Type 0} → (ScanResult → Bool) → Pipeline A → ℕ
due_all test p = sum (yield test (worlds_of p.stations)) p.source + due test p.stations

step-worlds_of :
    {A : Type 0} {ss ss' : List (Station A)} → Step A ss ss' → worlds_of ss' ≡ worlds_of ss
step-worlds_of (Step.receives ip rest e room) = refl
step-worlds_of (Step.fails_ip before ip after err e p m) = refl
step-worlds_of (Step.passes_last before ip after e p) = refl
step-worlds_of (Step.passes_ip before ip after e p) = refl
step-worlds_of (Step.forwards before ip after e room) = refl
step-worlds_of (Step.closes_output c q b p o) = refl
step-worlds_of (Step.later_stage {s = s} step) = ap (λ ws. s.world ∷ ws) (step-worlds_of step)

step-last_count :
    {A : Type 0} (test : ScanResult → Bool) (u : Station A) {ss ss' : List (Station A)}
    → Step A ss ss'
    → last_count test u ss' ≡ last_count test u ss
step-last_count test u (Step.receives ip rest e room) = refl
step-last_count test u (Step.fails_ip before ip after err e p m) = refl
step-last_count test u (Step.passes_last before ip after e p) = refl
step-last_count test u (Step.passes_ip before ip after e p) = refl
step-last_count test u (Step.forwards before ip after e room) = refl
step-last_count test u (Step.closes_output c q b p o) = refl
step-last_count test u (Step.later_stage step) = refl

last_count-same :
    {A : Type 0} (test : ScanResult → Bool) (s s' : Station A) (ss : List (Station A))
    → s'.reported ≡ s.reported
    → last_count test s' ss ≡ last_count test s ss
last_count-same test s s' [] h = ap (tally test) h
last_count-same test s s' (t ∷ ss) h = refl

-- What an attempt without an error, and one with an error, met.
passed :
    {A : Type 0} (s : Station A) (ip : A)
    → Clean (s.world ip)
    → (attempt s ip).1 ≡ none
    → (r : ScanResult) × Passed s ip r
passed s ip k h = elim (attempt-cases s ip k) [
  | inl c ↦ c
  | inr (err, logged, c) ↦ absurd (cc (h, c.error))
]

failed :
    {A : Type 0} (s : Station A) (ip : A) (logged : Error)
    → Clean (s.world ip)
    → (attempt s ip).1 ≡ some logged
    → (err : Error) × (logged' : Error) × Failed s ip err logged'
failed s ip logged k h = elim (attempt-cases s ip k) [
  | inl (r, c) ↦ absurd (cc (h, c.error))
  | inr c ↦ c
]

failed-reported :
    {A : Type 0} (s : Station A) (ip : A) (logged : Error)
    → Clean (s.world ip)
    → (attempt s ip).1 ≡ some logged
    → (attempt s ip).0.reported ≡ []
failed-reported s ip logged k h = let (err, l, c) = failed s ip logged k h in c.reported

yield-failed :
    {A : Type 0} (test : ScanResult → Bool) (s : Station A) (ip : A) (logged : Error) (rest : ℕ)
    (last : Bool)
    → Clean (s.world ip)
    → (attempt s ip).1 ≡ some logged
    → yield_of test (s.world ip).probe rest last ≡ 0
yield-failed test s ip logged rest last k h =
    let (err, l, c) = failed s ip logged k h in ap (λ q. yield_of test q rest last) c.probe

step-due :
    {A : Type 0} (test : ScanResult → Bool) {ss ss' : List (Station A)}
    → AllClean (worlds_of ss)
    → Step A ss ss'
    → due test ss' ≡ due test ss
step-due test k (Step.receives {s = s} {ss = ss} ip rest e room) = omega (
  arith,
  ap (sum (yield test (s.world ∷ worlds_of ss))) e,
  last_count-same test s (record s { queue = rest; busy = ip ∷ s.busy }) ss refl,
)
step-due test k (Step.fails_ip {s = s} {ss = ss} before ip after err e p m) =
    let f = yield test (s.world ∷ worlds_of ss) in
    let none_added = failed-reported s ip err (k.0 ip) p in
    let nothing : f ip ≡ 0 =
      yield-failed test s ip err (yield test (worlds_of ss) ip) (is_nil (worlds_of ss)) (k.0 ip)
        p in
    let all = ap (λ x. s.reported ++ x) none_added ∙ append-nil s.reported in
    let after_it = record s {
      busy = before ++ after;
      reported = s.reported ++ (attempt s ip).0.reported;
    } in
    omega (
      arith,
      nothing,
      sum-remove f s.busy before ip after e,
      last_count-same test s after_it ss all,
    )
step-due test k (Step.passes_last {s = s} before ip after e p) =
    let f = yield test (s.world ∷ []) in
    let (r, c) = passed s ip (k.0 ip) p in
    let one : f ip ≡ (if test r then 1 else 0) = ap (λ q. yield_of test q 0 true) c.probe in
    let single : tally test (r ∷ []) ≡ (if test r then 1 else 0) = ground arith in
    rw c.reported (
      omega (
        arith,
        one,
        sum-remove f s.busy before ip after e,
        tally-append test s.reported (r ∷ []),
        single,
      ))
step-due test k (Step.passes_ip {s = s} {t = t} {ss = ss} before ip after e p) =
    let f = yield test (s.world ∷ t.world ∷ worlds_of ss) in
    let g = yield test (t.world ∷ worlds_of ss) in
    let (r, c) = passed s ip (k.0 ip) p in
    let moved : f ip ≡ g ip = ap (λ q. yield_of test q (g ip) false) c.probe in
    omega (arith, moved, sum-remove f s.busy before ip after e)
step-due test k (Step.forwards {s = s} {t = t} {ss = ss} before ip after e room) =
    let g = yield test (t.world ∷ worlds_of ss) in
    omega (
      arith,
      sum-remove g s.passing before ip after e,
      sum-append g t.queue (ip ∷ []),
      last_count-same test t (record t { queue = t.queue ++ ip ∷ []; total = t.total + 1 }) ss refl,
    )
step-due test k (Step.closes_output {s = s} {t = t} {ss = ss} c q b p o) =
    omega (arith, last_count-same test t (record t { closed = true }) ss refl)
step-due test k (Step.later_stage {s = s} step) =
    rw (step-worlds_of step) (omega (arith, step-last_count test s step, step-due test k.1 step))

Move-due :
    {A : Type 0} (test : ScanResult → Bool) {p q : Pipeline A}
    → AllClean (worlds_of p.stations)
    → Move A p q
    → due_all test q ≡ due_all test p
Move-due test k (Move.sends {s = s} {ss = ss} ip rest room) = omega (
  arith,
  sum-append (yield test (s.world ∷ worlds_of ss)) s.queue (ip ∷ []),
  last_count-same test s (record s { queue = s.queue ++ ip ∷ [] }) ss refl,
)
Move-due test k (Move.ends_source {s = s} {ss = ss} o) =
    omega (arith, last_count-same test s (record s { closed = true }) ss refl)
Move-due test k (Move.stage_moves {ips = ips} step) =
    rw (step-worlds_of step) (omega (arith, step-due test k step))

Move-worlds_of :
    {A : Type 0} {p q : Pipeline A} → Move A p q → worlds_of q.stations ≡ worlds_of p.stations
Move-worlds_of (Move.sends ip rest room) = refl
Move-worlds_of (Move.ends_source o) = refl
Move-worlds_of (Move.stage_moves step) = step-worlds_of step

pub run-worlds_of :
    {A : Type 0} (n : ℕ) {p q : Pipeline A}
    → Run A n p q
    → worlds_of q.stations ≡ worlds_of p.stations
run-worlds_of n stays = refl
run-worlds_of n (moves m r) = run-worlds_of _ r ∙ Move-worlds_of m

pub run-due :
    {A : Type 0} (test : ScanResult → Bool) (n : ℕ) {p q : Pipeline A}
    → AllClean (worlds_of p.stations)
    → Run A n p q
    → due_all test q ≡ due_all test p
run-due test n k stays = refl
run-due test n k (moves m r) =
    run-due test _ (subst AllClean (sym (Move-worlds_of m)) k) r ∙ Move-due test k m

yield-results :
    (test : ScanResult → Bool) (p : ProbeRun) (rs : List ScanResult)
    → yield_of test p 0 true + tally test rs ≡ tally test (add_result p rs)
yield-results test (passes r) rs = ground arith
yield-results test (fails err) rs = omega arith

sum-results :
    {A : Type 0} (test : ScanResult → Bool) (w : A → Attempt) (ips : List A)
    → sum (yield test (w ∷ [])) ips ≡ tally test (results w ips)
sum-results test w [] = refl
sum-results test w (ip ∷ ips) =
    omega (arith, sum-results test w ips, yield-results test (w ip).probe (results w ips))

yield-survivors :
    {A : Type 0} (test : ScanResult → Bool) (p : ProbeRun) (f : A → ℕ) (ip : A) (ips : List A)
    → yield_of test p (f ip) false + sum f ips ≡ sum f (add_survivor p ip ips)
yield-survivors test (passes r) f ip ips = refl
yield-survivors test (fails err) f ip ips = omega arith

sum-survivors :
    {A : Type 0} (test : ScanResult → Bool) (w v : A → Attempt) (worlds : List (A → Attempt))
    (ips : List A)
    → sum (yield test (w ∷ v ∷ worlds)) ips ≡ sum (yield test (v ∷ worlds)) (survivors w ips)
sum-survivors test w v worlds [] = refl
sum-survivors test w v worlds (ip ∷ ips) = omega (
  arith,
  sum-survivors test w v worlds ips,
  yield-survivors test (w ip).probe (yield test (v ∷ worlds)) ip (survivors w ips),
)

-- The yields of a list are the results that pass the test.
pub sum-yield :
    {A : Type 0} (test : ScanResult → Bool) (worlds : List (A → Attempt)) (ips : List A)
    → sum (yield test worlds) ips ≡ tally test (scan_results worlds ips)
sum-yield test [] [] = refl
sum-yield test [] (ip ∷ ips) = omega (arith, sum-yield test [] ips)
sum-yield test (w ∷ []) ips = sum-results test w ips
sum-yield test (w ∷ v ∷ worlds) ips =
    sum-survivors test w v worlds ips ∙ sum-yield test (v ∷ worlds) (survivors w ips)
