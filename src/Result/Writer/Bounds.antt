-- ===== src/Result/Writer/Bounds.antt =====
-- internal/core/result/manager.go: how many results the channel, the batch and the flushes of a writer
-- hold.
use bgscan.Base.{
  ℕ, ◌≤◌, ◌<◌, ◌≡◌, refl, sym, ap, List, [], ◌∷◌, ◌++◌, Option, leb, length, length-append, arith,
  All, Bool-cases, inl, inr, subst,
}
use bgscan.Result.{ScanResult}
use bgscan.Result.Writer.{
  WriterLimits, Loop, running, flushing, draining, drained, closing, cancelled, MergeOutcome,
  merged, failed, replaced, Writer, receive, flush, LoopAct, LoopStep, Step, Reach, fresh, later,
}
use bgscan.Result.Writer.Accounts.{flush-Same}
use bgscan.Result.Writer.Complete.{flush-empties}

-- The batches that flush gave to mergeResults.
abbrev pub batches : List (MergeOutcome × List ScanResult) → List (List ScanResult)
batches [] = []
batches ((o, b) ∷ hs) = b ∷ batches hs

-- A batch that flush may hand on.
abbrev pub OfSize : ℕ → List ScanResult → Type 0
OfSize size b = (0 < length b) × (length b ≤ size)

-- What the batch holds: up to BatchSize before a flush, and anything after a cancellation, when all that
-- waits is drained into it.
abbrev pub BatchFits : ℕ → Loop → ℕ → Type 0
BatchFits size flushing n = n ≤ size
BatchFits size draining n = Unit {0}
BatchFits size drained n = Unit {0}
BatchFits size l n = n < size

-- What has been handed on, before the last flush after a cancellation.
abbrev pub HandedFits : ℕ → Loop → List (MergeOutcome × List ScanResult) → Type 0
HandedFits size cancelled hs = Unit {0}
HandedFits size l hs = All (OfSize size) (batches hs)

abbrev pub Bounded : WriterLimits → Writer → Type 0
Bounded c w =
    (length w.input ≤ c.chan_size)
    × BatchFits c.batch_size w.loop (length w.batch)
    × HandedFits c.batch_size w.loop w.handed

All-batches :
    (P : List ScanResult → Type 0) (hs : List (MergeOutcome × List ScanResult)) (o : MergeOutcome)
    (b : List ScanResult)
    → All P (batches hs)
    → P b
    → All P (batches (hs ++ (o, b) ∷ []))
All-batches P [] o b a h = (h, tt)
All-batches P ((p, d) ∷ hs) o b a h = (a.0, All-batches P hs o b a.1 h)

flush-OfSize :
    (c : WriterLimits) (o : MergeOutcome) (b : List ScanResult) (w : Writer) (size : ℕ)
    → All (OfSize size) (batches w.handed)
    → length b ≤ size
    → All (OfSize size) (batches (flush c o b w).handed)
unfolding flush
flush-OfSize c o [] w size a h = a
flush-OfSize c merged (r ∷ rs) w size a h =
    All-batches _ w.handed merged (r ∷ rs) a (omega arith, h)
flush-OfSize c failed (r ∷ rs) w size a h =
    All-batches _ w.handed failed (r ∷ rs) a (omega arith, h)
flush-OfSize c replaced (r ∷ rs) w size a h =
    All-batches _ w.handed replaced (r ∷ rs) a (omega arith, h)

-- What the bounds say where the loop is known.
fits_at :
    (size : ℕ) (w : Writer) (l : Loop)
    → w.loop ≡ l
    → BatchFits size w.loop (length w.batch)
    → BatchFits size l (length w.batch)
fits_at size w l e f = subst (λ (x : Loop). BatchFits size x (length w.batch)) e f

handed_at :
    (size : ℕ) (w : Writer) (l : Loop)
    → w.loop ≡ l
    → HandedFits size w.loop w.handed
    → HandedFits size l w.handed
handed_at size w l e f = subst (λ (x : Loop). HandedFits size x w.handed) e f

receive-Bounded :
    (c : WriterLimits) (r : ScanResult) (input : List ScanResult) (w : Writer)
    → length input ≤ c.chan_size
    → length w.batch < c.batch_size
    → All (OfSize c.batch_size) (batches w.handed)
    → Bounded c (receive c r input w)
unfolding receive
receive-Bounded c r input w fits small a =
    let more = length-append w.batch (r ∷ []) in
    elim (Bool-cases (leb c.batch_size (length (w.batch ++ r ∷ [])))) [
      | inl full ↦ rw full (fits, omega (arith, more, small), a)
      | inr room ↦ rw room (fits, ground (arith, room), a)
    ]

LoopStep-Bounded :
    {c : WriterLimits} {act : LoopAct} {w w' : Writer}
    → 0 < c.batch_size
    → LoopStep c w act w'
    → Bounded c w
    → Bounded c w'
LoopStep-Bounded {c} {w = w} z (LoopStep.receives r input l i) (h, b, a) =
    receive-Bounded c r input w (omega (arith, h, ap length i)) (fits_at c.batch_size w running l b)
      (handed_at c.batch_size w running l a)
LoopStep-Bounded {c} {w = w} z (LoopStep.ticks_on l) (h, b, a) =
    let small : length w.batch < c.batch_size = fits_at c.batch_size w running l b in
    (h, omega (arith, small), handed_at c.batch_size w running l a)
LoopStep-Bounded {c} {w = w} z (LoopStep.flushes_batch o l) (h, b, a) =
    let empty = flush-empties c o w.batch w refl in
    let size = fits_at c.batch_size w flushing l b in
    (
      rw (flush-Same c o w.batch w).input h,
      rw empty z,
      flush-OfSize c o w.batch w c.batch_size (handed_at c.batch_size w flushing l a) size,
    )
LoopStep-Bounded {c} {w = w} z (LoopStep.sees_done l d) (h, b, a) =
    (h, tt, handed_at c.batch_size w running l a)
LoopStep-Bounded {c} {w = w} z (LoopStep.drains r input l i) (h, b, a) = (
  omega (arith, h, ap length i),
  subst (λ (x : Loop). BatchFits c.batch_size x (length (w.batch ++ r ∷ []))) (sym l) tt,
  a,
)
LoopStep-Bounded {c} {w = w} z (LoopStep.drains_last l i) (h, b, a) =
    (h, tt, handed_at c.batch_size w draining l a)
LoopStep-Bounded {c} {w = w} z (LoopStep.sees_closed l d i) (h, b, a) =
    (h, fits_at c.batch_size w running l b, handed_at c.batch_size w running l a)
LoopStep-Bounded {c} {w = w} z (LoopStep.returns_cancelled o l) (h, b, a) =
    (rw (flush-Same c o w.batch w).input h, rw (flush-empties c o w.batch w refl) z, tt)
LoopStep-Bounded {c} {w = w} z (LoopStep.returns_finished o l) (h, b, a) =
    let small : length w.batch < c.batch_size = fits_at c.batch_size w closing l b in
    (
      rw (flush-Same c o w.batch w).input h,
      rw (flush-empties c o w.batch w refl) z,
      flush-OfSize c o w.batch w c.batch_size (handed_at c.batch_size w closing l a)
          (omega (arith, small)),
    )

step-Bounded :
    {c : WriterLimits} {w w' : Writer} → 0 < c.batch_size → Step c w w' → Bounded c w → Bounded c w'
step-Bounded z (Step.start e) h = h
step-Bounded z (Step.start_fails e) h = h
step-Bounded z (Step.write_not_started e) h = h
step-Bounded z (Step.write_cancelled e) h = h
step-Bounded z (Step.write_begins r e d) h = h
step-Bounded {w = w} z (Step.write_sends before r after e o room) h =
    (omega (arith, room, length-append w.input (r ∷ [])), h.1, h.2)
step-Bounded z (Step.write_closed before r after e o) h = h
step-Bounded z (Step.write_gives_up before r after e o d) h = h
step-Bounded z (Step.close o e) h = h
step-Bounded z (Step.close_unstarted o e) h = h
step-Bounded z Step.cancel h = h
step-Bounded z (Step.loop_step e s) h = LoopStep-Bounded z s h

-- For a batch size that is not 0, in every state that a writer reaches, in any order of the steps: the
-- channel holds at most ChanSize results; the batch holds fewer than BatchSize, at most BatchSize where
-- it is about to be flushed, and is not bounded only between a cancellation and the last flush after it;
-- and until the loop has returned from that flush, every batch that was handed to mergeResults has from
-- one to BatchSize results.
pub reach-Bounded :
    (c : WriterLimits) (old : Option (List ScanResult)) (w : Writer)
    → 0 < c.batch_size
    → Reach c old w
    → (length w.input ≤ c.chan_size)
      × BatchFits c.batch_size w.loop (length w.batch)
      × HandedFits c.batch_size w.loop w.handed
reach-Bounded c old w z fresh = (omega arith, z, tt)
reach-Bounded c old w z (later {w = v} r s) = step-Bounded z s (reach-Bounded c old v z r)
