-- ===== src/Pause.antt =====
-- internal/core/scanner/engine/pause.go: the controller that pauses and resumes the workers. A call
-- is one step, at a time in nanoseconds: calls whose own steps overlap are not modelled.
pub mod Clock
mod Tests
use bgscan.Base.{
  ℕ, ◌+◌, ◌-◌, ◌≡◌, Bool, true, false, not, Option, none, some, List, [], ◌∷◌, if◌then◌else◌,
}

pub record Controller : Type 0 where
  pub is_paused : Bool
  pub resume_open : Bool
  pub paused_at : Option ℕ
  pub total_pause : ℕ
  pub done_open : Bool

abbrev pub new_pause_controller : Controller
new_pause_controller = record {
  is_paused = false;
  resume_open = true;
  paused_at = none;
  total_pause = 0;
  done_open = true;
}

unfoldable pub pause : ℕ → Controller → Controller
pause now p =
    if p.is_paused
    then p
    else record p { is_paused = true; paused_at = some now; resume_open = true }

-- The time from pausedAt on, and 0 if it is the zero time.
abbrev pub since : ℕ → Option ℕ → ℕ
since now none = 0
since now (some t) = now - t

-- none is the panic of closing a closed channel.
unfoldable pub resume : ℕ → Controller → Option Controller
resume now p =
    if not p.is_paused
    then some p
    else if not p.resume_open
    then none
    else some (record p {
      is_paused = false;
      total_pause = p.total_pause + since now p.paused_at;
      paused_at = none;
      resume_open = false;
    })

abbrev pub close_done : Option Controller → Option Controller
close_done none = none
close_done (some p) = some (record p { done_open = false })

-- stopOnce has run exactly if doneCh is closed.
unfoldable pub stop : ℕ → Controller → Option Controller
unfolding resume
stop now p = if p.done_open then close_done (resume now p) else some p

unfoldable pub paused_duration : ℕ → Controller → ℕ
paused_duration now p = p.total_pause + since now p.paused_at

-- The outcome of Wait.
pub data Waited : Type 0 where
  go_on give_up blocks : Waited

-- Wait, with the context closed or not. A closed doneCh wins over a closed resumeCh by the second
-- test.
unfoldable pub wait : Bool → Controller → Waited
wait cancelled p =
    if cancelled
    then give_up
    else if not p.done_open
    then give_up
    else if not p.is_paused
    then go_on
    else if p.resume_open
    then blocks
    else go_on

pub data Call : Type 0 where
  pausing resuming stopping : Call

unfoldable pub call : ℕ → Call → Controller → Option Controller
unfolding pause resume stop
call now pausing p = some (pause now p)
call now resuming p = resume now p
call now stopping p = stop now p

abbrev pub and_then : Option Controller → (Controller → Option Controller) → Option Controller
and_then none f = none
and_then (some p) f = f p

-- Calls, each after some time has passed.
unfoldable pub run : ℕ → List (ℕ × Call) → Controller → Option Controller
unfolding call
run now [] p = some p
run now ((delay, c) ∷ cs) p = and_then (call (now + delay) c p) (run (now + delay) cs)
