-- ===== src/Portmgr/Tests.antt =====
-- The theorems on the port pool at concrete pools, and a run of it.
use bgscan.Base.{◌≤◌, ◌≡◌, refl, true, false, List, [], ◌∷◌, Option, none, some, arith, All, ◌⊎◌}
use bgscan.Portmgr.{
  Manager, new_manager, step, Action, receiving, testing, Reaches, here, then_step,
}
use bgscan.Portmgr.Tokens.{tokens, new_manager-tokens}
use bgscan.Portmgr.Range.{Inside, new_manager-range}

abbrev two_ports : Manager
two_ports = record {
  ports = 49150 ∷ 49151 ∷ [];
  capacity = 2;
  done = false;
  start_port = 49150;
  last_added_port = 49151;
  checking = [];
  held = [];
}

abbrev one_checking : Manager
one_checking = record two_ports { ports = 49151 ∷ []; checking = 49150 ∷ [] }

abbrev one_held : Manager
one_held = record two_ports { ports = 49151 ∷ []; held = 49150 ∷ [] }

two_steps : Reaches two_ports one_held
unfolding step
two_steps =
    then_step two_ports one_checking one_held (testing 49150 true)
      (then_step two_ports two_ports one_checking receiving (here two_ports) refl) refl

new_manager-tokens_example :
    (tokens one_held ≤ 2) × ((one_held.done ≡ true) ⊎ (tokens one_held ≡ 2))
unfolding new_manager
new_manager-tokens_example = new_manager-tokens 49150 2 two_ports one_held refl two_steps

new_manager-range_example :
    All (Inside 49150) one_held.ports
    × All (Inside 49150) one_held.checking
    × All (Inside 49150) one_held.held
unfolding new_manager
new_manager-range_example =
    new_manager-range 49150 2 two_ports one_held (omega arith) (omega arith) refl two_steps

abbrev run : List Action → Manager → Option Manager
run [] m = some m
run (a ∷ rest) m = elim (step m a) [ none ↦ none | some n ↦ run rest n ]

-- The port 49150 is held; the other is found busy, and what replaces it, after starting over, is
-- 49150 again: two holders of one port.
shared_port :
    run
      (receiving
        ∷ testing 49150 true
        ∷ receiving
        ∷ testing 49151 false
        ∷ receiving
        ∷ testing 49150 true
        ∷ [])
      two_ports
    ≡ some (record {
      ports = [];
      capacity = 2;
      done = false;
      start_port = 49150;
      last_added_port = 49150;
      checking = [];
      held = 49150 ∷ 49150 ∷ [];
    })
unfolding step
shared_port = refl
