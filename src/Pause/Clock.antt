-- ===== src/Pause/Clock.antt =====
-- No call panics, and PausedDuration measures the time spent paused.
use mathlib.Core.Option.{some-injective}
use bgscan.Base.{
  ℕ, ◌+◌, ◌≤◌, ◌≡◌, refl, sym, ap, subst, ◌∙◌, Bool, true, false, not, Option, none, some, List, [],
  ◌∷◌, if◌then◌else◌, arith,
}
use bgscan.Pause.{
  Controller, new_pause_controller, pause, resume, stop, since, paused_duration, wait, blocks,
  go_on, give_up, Call, pausing, resuming, stopping, call, and_then, run,
}

-- A paused controller has an open channel and a time in the past; any other has no time.
abbrev Shape : ℕ → Bool → Bool → Option ℕ → Type 0
Shape now true true (some t) = t ≤ now
Shape now true true none = ⊥
Shape now true false at = ⊥
Shape now false r none = Unit {0}
Shape now false r (some t) = ⊥

abbrev Sound : ℕ → Controller → Type 0
Sound now p = Shape now p.is_paused p.resume_open p.paused_at

-- Whether the controller is paused after a call.
abbrev pub after : Call → Bool → Bool → Bool
after pausing done paused = true
after resuming done paused = false
after stopping false paused = paused
after stopping true paused = false

-- The state of a sequence of calls, on its own: whether Stop has not run, whether it is paused,
-- and for how long it has been.
abbrev pub still_open : Call → Bool → Bool
still_open stopping open' = false
still_open pausing open' = open'
still_open resuming open' = open'

abbrev pub time_paused : Bool → Bool → ℕ → List (ℕ × Call) → ℕ
time_paused open' paused acc [] = acc
time_paused open' paused acc ((delay, c) ∷ cs) =
    time_paused (still_open c open') (after c open' paused) (acc + (if paused then delay else 0)) cs

record Called (now : ℕ) (c : Call) (p : Controller) : Type 0 where
  next : Controller
  runs : call now c p ≡ some next
  sound : Sound now next
  paused : next.is_paused ≡ after c p.done_open p.is_paused
  opened : next.done_open ≡ still_open c p.done_open
  same : paused_duration now next ≡ paused_duration now p

call-fields :
    (now : ℕ) (c : Call) (b r : Bool) (at : Option ℕ) (total : ℕ) (d : Bool)
    → Shape now b r at
    → Called now c (record {
      is_paused = b;
      resume_open = r;
      paused_at = at;
      total_pause = total;
      done_open = d;
    })
unfolding call pause resume stop paused_duration
call-fields now pausing true true (some t) total d h = record {
  next = _;
  runs = refl;
  sound = h;
  paused = refl;
  opened = refl;
  same = refl;
}
call-fields now pausing false r none total d h = record {
  next = _;
  runs = refl;
  sound = omega arith;
  paused = refl;
  opened = refl;
  same = omega arith;
}
call-fields now resuming true true (some t) total d h = record {
  next = _;
  runs = refl;
  sound = tt;
  paused = refl;
  opened = refl;
  same = omega arith;
}
call-fields now resuming false r none total d h = record {
  next = _;
  runs = refl;
  sound = tt;
  paused = refl;
  opened = refl;
  same = refl;
}
call-fields now stopping true true (some t) total true h = record {
  next = _;
  runs = refl;
  sound = tt;
  paused = refl;
  opened = refl;
  same = omega arith;
}
call-fields now stopping true true (some t) total false h = record {
  next = _;
  runs = refl;
  sound = h;
  paused = refl;
  opened = refl;
  same = refl;
}
call-fields now stopping false r none total true h = record {
  next = _;
  runs = refl;
  sound = tt;
  paused = refl;
  opened = refl;
  same = refl;
}
call-fields now stopping false r none total false h = record {
  next = _;
  runs = refl;
  sound = tt;
  paused = refl;
  opened = refl;
  same = refl;
}
call-fields now pausing false r (some t) total d h = elim h [ ]
call-fields now pausing true false at total d h = elim h [ ]
call-fields now pausing true true none total d h = elim h [ ]
call-fields now resuming false r (some t) total d h = elim h [ ]
call-fields now resuming true false at total d h = elim h [ ]
call-fields now resuming true true none total d h = elim h [ ]
call-fields now stopping false r (some t) total d h = elim h [ ]
call-fields now stopping true false at total d h = elim h [ ]
call-fields now stopping true true none total d h = elim h [ ]

-- Time passes.
delayed :
    (now delay : ℕ) (b r : Bool) (at : Option ℕ) (total : ℕ)
    → Shape now b r at
    → Shape (now + delay) b r at
      × (total + since (now + delay) at ≡ total + since now at + (if b then delay else 0))
delayed now delay true true (some t) total h = (omega arith, omega arith)
delayed now delay false r none total h = (tt, omega arith)
delayed now delay false r (some t) total h = elim h [ ]
delayed now delay true false at total h = elim h [ ]
delayed now delay true true none total h = elim h [ ]

abbrev pub end_time : ℕ → List (ℕ × Call) → ℕ
end_time now [] = now
end_time now ((delay, c) ∷ cs) = end_time (now + delay) cs

record Ran (now : ℕ) (cs : List (ℕ × Call)) (p : Controller) : Type 0 where
  final : Controller
  runs : run now cs p ≡ some final
  sound : Sound (end_time now cs) final
  measured :
      paused_duration (end_time now cs) final
      ≡ time_paused p.done_open p.is_paused (paused_duration now p) cs

runs-on : (now : ℕ) (cs : List (ℕ × Call)) (p : Controller) → Sound now p → Ran now cs p
unfolding run paused_duration
runs-on now [] p h = record { final = p; runs = refl; sound = h; measured = refl }
runs-on now ((delay, c) ∷ cs) p h =
    let (later, grown) = delayed now delay p.is_paused p.resume_open p.paused_at p.total_pause h in
    let one =
      call-fields (now + delay) c p.is_paused p.resume_open p.paused_at p.total_pause p.done_open
        later in
    let rest = runs-on (now + delay) cs one.next one.sound in
    record {
      final = rest.final;
      runs = ap (λ o. and_then o (run (now + delay) cs)) one.runs ∙ rest.runs;
      sound = rest.sound;
      measured =
          rest.measured
          ∙ ap (λ o. time_paused o one.next.is_paused (paused_duration (now + delay) one.next) cs)
              one.opened
          ∙ ap
              (λ b.
                time_paused (still_open c p.done_open) b (paused_duration (now + delay) one.next)
                  cs)
              one.paused
          ∙ ap (λ t. time_paused (still_open c p.done_open) (after c p.done_open p.is_paused) t cs)
              (one.same ∙ grown);
    }

-- For any sequence of calls of Pause, Resume and Stop that do not overlap, each some time after the
-- one before: no call closes a closed channel, and PausedDuration at the end is the time spent
-- between a Pause and the Resume or first Stop after it.
pub run-measures :
    (cs : List (ℕ × Call))
    → (final : Controller) × (run 0 cs new_pause_controller ≡ some final)
      × (paused_duration (end_time 0 cs) final ≡ time_paused true false 0 cs)
unfolding paused_duration
run-measures cs = let r = runs-on 0 cs new_pause_controller tt in (r.final, r.runs, r.measured)

wait-fields :
    (now : ℕ) (cancelled b r d : Bool) (at : Option ℕ) (total : ℕ)
    → Shape now b r at
    → wait cancelled (record {
      is_paused = b;
      resume_open = r;
      paused_at = at;
      total_pause = total;
      done_open = d;
    })
      ≡ (if cancelled then give_up else if not d then give_up else if b then blocks else go_on)
unfolding wait
wait-fields now c true true d (some t) total h = refl
wait-fields now c true true d none total h = elim h [ ]
wait-fields now c true false d at total h = elim h [ ]
wait-fields now c false r d at total h = refl

-- After any such sequence of calls Wait returns at once, with false if the context is closed or
-- the controller stopped and with true otherwise, except that it blocks while it is paused.
pub wait-run :
    (cs : List (ℕ × Call)) (p : Controller) (cancelled : Bool)
    → run 0 cs new_pause_controller ≡ some p
    → wait cancelled p ≡ (
        if cancelled
        then give_up
        else if not p.done_open
        then give_up
        else if p.is_paused
        then blocks
        else go_on)
wait-run cs p cancelled e =
    let r = runs-on 0 cs new_pause_controller tt in
    let same : r.final ≡ p = some-injective _ _ (sym r.runs ∙ e) in
    wait-fields (end_time 0 cs) cancelled p.is_paused p.resume_open p.done_open p.paused_at
      p.total_pause (subst (Sound (end_time 0 cs)) same r.sound)
