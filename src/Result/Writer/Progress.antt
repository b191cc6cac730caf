-- ===== src/Result/Writer/Progress.antt =====
-- internal/core/result/manager.go: the loop of a writer ends after Close.
use bgscan.Base.{
  ℕ, ◌+◌, ◌≤◌, ◌≡◌, ◌≢◌, refl, ap, ◌∙◌, Bool, true, false, List, [], ◌∷◌, ◌++◌, leb, length, arith,
  ◌⊎◌, inl, inr, if◌then◌else◌,
}
use bgscan.Result.{ScanResult}
use bgscan.Result.Writer.{
  WriterLimits, started, Loop, running, flushing, draining, drained, closing, cancelled, finished,
  merged, Writer, receive, LoopAct, ticks, flushes, proceeds, LoopStep, Step,
}
use bgscan.Result.Writer.Accounts.{flush-Same}

-- Any number of steps of the callers and the loop, in any order.
pub data Steps (c : WriterLimits) : Writer → Writer → Type 0 where
  done : {w : Writer} → Steps c w w
  more : {w v u : Writer} → Step c w v → Steps c v u → Steps c w u

-- How often the loop's timer fires in a step, how often the loop flushes and goes on, and how often it
-- takes another step.
abbrev pub ticks_in : {c : WriterLimits} {w w' : Writer} → Step c w w' → ℕ
ticks_in (Step.loop_step {act = ticks} e s) = 1
ticks_in s = 0

abbrev pub flushes_in : {c : WriterLimits} {w w' : Writer} → Step c w w' → ℕ
flushes_in (Step.loop_step {act = flushes} e s) = 1
flushes_in s = 0

abbrev pub proceeds_in : {c : WriterLimits} {w w' : Writer} → Step c w w' → ℕ
proceeds_in (Step.loop_step {act = proceeds} e s) = 1
proceeds_in s = 0

-- The same of a run.
abbrev pub tick_count : {c : WriterLimits} {w w' : Writer} → Steps c w w' → ℕ
tick_count done = 0
tick_count (more s run) = ticks_in s + tick_count run

abbrev pub flush_count : {c : WriterLimits} {w w' : Writer} → Steps c w w' → ℕ
flush_count done = 0
flush_count (more s run) = flushes_in s + flush_count run

abbrev pub proceed_count : {c : WriterLimits} {w w' : Writer} → Steps c w w' → ℕ
proceed_count done = 0
proceed_count (more s run) = proceeds_in s + proceed_count run

-- How many such other steps a loop has before it at most, once the channel is closed.
abbrev left_of : Loop → ℕ
left_of running = 3
left_of flushing = 3
left_of draining = 2
left_of drained = 1
left_of closing = 1
left_of cancelled = 0
left_of finished = 0

abbrev left : Writer → ℕ
left w = length w.input + left_of w.loop

-- Whether a flush is due.
abbrev due_of : Loop → ℕ
due_of flushing = 1
due_of l = 0

left_of-bound : (l : Loop) → left_of l ≤ 3
left_of-bound running = omega arith
left_of-bound flushing = omega arith
left_of-bound draining = omega arith
left_of-bound drained = omega arith
left_of-bound closing = omega arith
left_of-bound cancelled = omega arith
left_of-bound finished = omega arith

due_of-bound : (l : Loop) → due_of l ≤ 1
due_of-bound running = omega arith
due_of-bound flushing = omega arith
due_of-bound draining = omega arith
due_of-bound drained = omega arith
due_of-bound closing = omega arith
due_of-bound cancelled = omega arith
due_of-bound finished = omega arith

left_of-receive : (full : Bool) → left_of (if full then flushing else running) ≡ 3
left_of-receive true = refl
left_of-receive false = refl

-- What a step of a closed and started writer keeps, and how it moves the loop on.
record Moved {c : WriterLimits} {w w' : Writer} (s : Step c w w') : Type 0 where
  closed : w'.closed ≡ true
  start_state : w'.start_state ≡ started
  left : proceeds_in s + left w' ≤ left w
  due : flushes_in s + due_of w'.loop ≤ ticks_in s + (proceeds_in s + due_of w.loop)

LoopStep-Moved :
    {c : WriterLimits} {act : LoopAct} {w w' : Writer} (e : w.start_state ≡ started)
    → w.closed ≡ true
    → (s : LoopStep c w act w') → Moved (Step.loop_step e s)
unfolding receive
LoopStep-Moved {c} {w = w} e d (LoopStep.receives r input l i) =
    let full = leb c.batch_size (length (w.batch ++ r ∷ [])) in
    record {
      closed = d;
      start_state = e;
      left = omega (arith, left_of-receive full, ap left_of l, ap length i);
      due = omega (arith, due_of-bound (if full then flushing else running));
    }
LoopStep-Moved e d (LoopStep.ticks_on l) = record {
  closed = d;
  start_state = e;
  left = omega (arith, ap left_of l);
  due = omega arith;
}
LoopStep-Moved {c} {w = w} e d (LoopStep.flushes_batch o l) =
    let same = flush-Same c o w.batch w in
    record {
      closed = same.closed ∙ d;
      start_state = same.start_state ∙ e;
      left = omega (arith, ap left_of l, ap length same.input);
      due = omega (arith, ap due_of l);
    }
LoopStep-Moved e d (LoopStep.sees_done l x) = record {
  closed = d;
  start_state = e;
  left = omega (arith, ap left_of l);
  due = omega arith;
}
LoopStep-Moved e d (LoopStep.drains r input l i) = record {
  closed = d;
  start_state = e;
  left = omega (arith, ap length i);
  due = omega arith;
}
LoopStep-Moved e d (LoopStep.drains_last l i) = record {
  closed = d;
  start_state = e;
  left = omega (arith, ap left_of l);
  due = omega arith;
}
LoopStep-Moved e d (LoopStep.sees_closed l x i) = record {
  closed = d;
  start_state = e;
  left = omega (arith, ap left_of l);
  due = omega arith;
}
LoopStep-Moved {c} {w = w} e d (LoopStep.returns_cancelled o l) =
    let same = flush-Same c o w.batch w in
    record {
      closed = same.closed ∙ d;
      start_state = same.start_state ∙ e;
      left = omega (arith, ap left_of l, ap length same.input);
      due = omega arith;
    }
LoopStep-Moved {c} {w = w} e d (LoopStep.returns_finished o l) =
    let same = flush-Same c o w.batch w in
    record {
      closed = same.closed ∙ d;
      start_state = same.start_state ∙ e;
      left = omega (arith, ap left_of l, ap length same.input);
      due = omega arith;
    }

step-Moved :
    {c : WriterLimits} {w w' : Writer}
    → w.start_state ≡ started
    → w.closed ≡ true
    → (s : Step c w w') → Moved s
step-Moved e d (Step.start n) = absurd (cc (e, n))
step-Moved e d (Step.start_fails n) = absurd (cc (e, n))
step-Moved e d (Step.write_not_started n) = absurd (n e)
step-Moved e d (Step.write_cancelled x) = record {
  closed = d;
  start_state = e;
  left = omega arith;
  due = omega arith;
}
step-Moved e d (Step.write_begins r s x) = record {
  closed = d;
  start_state = e;
  left = omega arith;
  due = omega arith;
}
step-Moved e d (Step.write_sends before r after x o room) = absurd (cc (d, o))
step-Moved e d (Step.write_closed before r after x o) = record {
  closed = d;
  start_state = e;
  left = omega arith;
  due = omega arith;
}
step-Moved e d (Step.write_gives_up before r after x o y) = absurd (cc (d, o))
step-Moved e d (Step.close o x) = absurd (cc (d, o))
step-Moved e d (Step.close_unstarted o n) = absurd (n e)
step-Moved e d Step.cancel = record {
  closed = d;
  start_state = e;
  left = omega arith;
  due = omega arith;
}
step-Moved e d (Step.loop_step x s) = LoopStep-Moved x d s

-- The loop has returned.
abbrev pub Returned : Writer → Type 0
Returned w = (w.loop ≡ cancelled) ⊎ (w.loop ≡ finished)

-- The loop can take a step that its timer does not give it.
abbrev pub GoesOn : WriterLimits → Writer → Type 0
GoesOn c w = (act : LoopAct) × (w' : Writer) × (act ≢ ticks) × LoopStep c w act w'

goes_on : (c : WriterLimits) (w : Writer) → w.closed ≡ true → GoesOn c w ⊎ Returned w
goes_on c w d = of_loop w.loop w.input refl refl
  where
    of_loop :
        (l : Loop) (input : List ScanResult)
        → w.loop ≡ l
        → w.input ≡ input
        → GoesOn c w ⊎ Returned w
    of_loop running [] l i = inl (_, _, λ h. cc, LoopStep.sees_closed l d i)
    of_loop running (r ∷ input) l i = inl (_, _, λ h. cc, LoopStep.receives r input l i)
    of_loop flushing input l i = inl (_, _, λ h. cc, LoopStep.flushes_batch merged l)
    of_loop draining [] l i = inl (_, _, λ h. cc, LoopStep.drains_last l i)
    of_loop draining (r ∷ input) l i = inl (_, _, λ h. cc, LoopStep.drains r input l i)
    of_loop drained input l i = inl (_, _, λ h. cc, LoopStep.returns_cancelled merged l)
    of_loop closing input l i = inl (_, _, λ h. cc, LoopStep.returns_finished merged l)
    of_loop cancelled input l i = inr (inl l)
    of_loop finished input l i = inr (inr l)

run-Moved :
    {c : WriterLimits} {w w' : Writer}
    → w.start_state ≡ started
    → w.closed ≡ true
    → (run : Steps c w w')
    → (w'.closed ≡ true)
      × (proceed_count run + left w' ≤ left w)
      × (flush_count run + due_of w'.loop ≤ tick_count run + (proceed_count run + due_of w.loop))
run-Moved e d done = (d, omega arith, omega arith)
run-Moved e d (more s run) =
    let m = step-Moved e d s in
    let (closed, rest, flushed) = run-Moved m.start_state m.closed run in
    (closed, omega (arith, m.left, rest), omega (arith, m.due, flushed))

-- After Close has closed the channel of a writer that was started, in every run of the callers and the
-- loop, in any order and whatever mergeResults returns: a flush follows a tick of the timer or another
-- step of the loop, of these others there are at most three more than results in the channel, and the
-- loop has returned or can take a step other than a tick. So it returns unless its select takes the timer
-- for ever.
pub close-returns :
    {c : WriterLimits} {w w' : Writer}
    → w.start_state ≡ started
    → w.closed ≡ true
    → (run : Steps c w w')
    → (proceed_count run ≤ length w.input + 3)
      × (flush_count run ≤ tick_count run + proceed_count run + 1)
      × (GoesOn c w' ⊎ Returned w')
close-returns {c} {w} {w'} e d run =
    let (closed, rest, flushed) = run-Moved e d run in
    (
      omega (arith, rest, left_of-bound w.loop),
      omega (arith, flushed, due_of-bound w.loop),
      goes_on c w' closed,
    )
