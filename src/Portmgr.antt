-- ===== src/Portmgr.antt =====
-- internal/core/scanner/portmgr/portmgr.go: the pool of local ports that concurrent probes share.
-- The channel `ports` is a list, its head the next to be received. The calls of Get, Release and
-- Close by several goroutines are sequences of their atomic steps: a Get receives a port, and then
-- tests it. `checking` holds the ports that a Get has received and not yet tested, `held` those
-- that Get has returned and that are not yet released.
pub mod Tokens
pub mod Range
mod Tests
use bgscan.Base.{
  ℕ, zero, suc, ◌+◌, ◌-◌, ◌%◌, ◌≡◌, refl, Bool, true, false, List, [], ◌∷◌, ◌++◌, Option, none,
  some, ltb, leb, ◌==◌, if◌then◌else◌, length,
}

abbrev pub u16 : ℕ
u16 = 65536

abbrev pub min_port : ℕ
min_port = 20000

abbrev pub ephemeral_port : ℕ
ephemeral_port = 49152

pub record Manager : Type 0 where
  pub ports : List ℕ
  pub capacity : ℕ
  pub done : Bool
  pub start_port : ℕ
  pub last_added_port : ℕ
  pub checking : List ℕ
  pub held : List ℕ

-- startPort + i on uint16, for the numbers i from `from` on.
abbrev pub initial_ports : ℕ → ℕ → ℕ → List ℕ
initial_ports start from zero = []
initial_ports start from (suc n) = ((start + from) % u16) ∷ initial_ports start (from + 1) n

-- New; none is the error on a count of 0.
unfoldable pub new_manager : ℕ → ℕ → Option Manager
new_manager start count =
    if count == 0
    then none
    else some (record {
      ports = initial_ports start 0 count;
      capacity = count;
      done = false;
      start_port = start;
      last_added_port = (start + count + (u16 - 1)) % u16;
      checking = [];
      held = [];
    })

-- A send that does not block: dropped if the channel is full.
unfoldable pub try_send : ℕ → Manager → Manager
try_send port m =
    if ltb (length m.ports) m.capacity then record m { ports = m.ports ++ port ∷ [] } else m

-- nextPort: the manager after it; its result is the new lastAddedPort.
unfoldable pub next_port : Manager → Manager
next_port m =
    let next = (m.last_added_port + 1) % u16 in
    record m { last_added_port = if leb ephemeral_port next then m.start_port else next }

unfoldable pub release : ℕ → Manager → Manager
unfolding try_send
release port m = if m.done then m else try_send port m

unfoldable pub close : Manager → Manager
close m = record m { done = true }

-- Get after it has received a port, by what isFree says of it.
unfoldable pub tested : Bool → ℕ → Manager → Manager
unfolding try_send next_port
tested free port m =
    if m.done
    then m
    else if free
    then record m { held = port ∷ m.held }
    else let m' = next_port m in try_send m'.last_added_port m'

abbrev pub remove : ℕ → List ℕ → Option (List ℕ)
remove p [] = none
remove p (q ∷ qs) =
    let rest = remove p qs in
    if p == q then some qs else elim rest [ none ↦ none | some r ↦ some (q ∷ r) ]

pub data Action : Type 0 where
  receiving : Action
  testing : ℕ → Bool → Action
  releasing : ℕ → Action
  closing : Action

abbrev pub start_checking : List ℕ → Manager → Option Manager
start_checking [] m = none
start_checking (p ∷ ps) m = some (record m { ports = ps; checking = p ∷ m.checking })

abbrev pub end_checking : Bool → ℕ → Manager → Option (List ℕ) → Option Manager
end_checking free p m none = none
end_checking free p m (some rest) = some (tested free p (record m { checking = rest }))

abbrev pub end_holding : ℕ → Manager → Option (List ℕ) → Option Manager
end_holding p m none = none
end_holding p m (some rest) = some (release p (record m { held = rest }))

-- One atomic step; none where it cannot happen: a receive from an empty channel blocks, and only
-- held ports are released.
unfoldable pub step : Manager → Action → Option Manager
unfolding tested release close
step m receiving = start_checking m.ports m
step m (testing p free) = end_checking free p m (remove p m.checking)
step m (releasing p) = end_holding p m (remove p m.held)
step m closing = some (close m)

-- The managers that some steps lead to.
pub data Reaches : Manager → Manager → Type 0 where
  here : (m : Manager) → Reaches m m
  then_step : (m n o : Manager) (a : Action) → Reaches m n → step n a ≡ some o → Reaches m o

-- RandomBase, from what rand.Intn returns; uint16 arithmetic.
unfoldable pub random_base_bound : ℕ → ℕ
random_base_bound size = (ephemeral_port + u16 - size % u16 + (u16 - min_port)) % u16

unfoldable pub random_base : ℕ → ℕ
random_base drawn = (min_port + drawn) % u16
