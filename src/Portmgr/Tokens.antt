-- ===== src/Portmgr/Tokens.antt =====
-- No port is lost and no send is dropped while the pool is open.
use mathlib.Core.Option.{some-injective}
use bgscan.Base.{
  ℕ, zero, suc, ◌+◌, ◌≤◌, ◌≡◌, refl, Bool, true, false, List, [], ◌∷◌, Option, none, some, ltb,
  ◌==◌, ap, subst, if-elim, ◌⊎◌, length, length-append, arith, Bool-cases, Option-cases, inl, inr,
}
use bgscan.Portmgr.{
  Manager, initial_ports, new_manager, try_send, next_port, release, close, tested, remove, Action,
  receiving, testing, releasing, closing, step, start_checking, end_checking, end_holding, Reaches,
  here, then_step,
}

-- The ports that are in the pool, in a test, or held.
abbrev pub tokens : Manager → ℕ
tokens m = length m.ports + length m.checking + length m.held

pub record Conserved (count : ℕ) (m : Manager) : Type 0 where
  pub room : m.capacity ≡ count
  pub at_most : tokens m ≤ count
  pub whole : m.done ≡ false → tokens m ≡ count

length-remove : (p : ℕ) (xs rest : List ℕ) → remove p xs ≡ some rest → length xs ≡ suc (length rest)
length-remove p [] rest e = cc
length-remove p (q ∷ qs) rest e = elim (Option-cases (remove p qs)) [
  | inl n ↦ ground (arith, n)
  | inr (r, n) ↦ ground (arith, n, length-remove p qs r n)
]

try_send-Conserved :
    (count p : ℕ) (m : Manager)
    → m.capacity ≡ count
    → suc (tokens m) ≡ count
    → Conserved count (try_send p m)
unfolding try_send
try_send-Conserved count p m c t =
    let free : ltb (length m.ports) m.capacity ≡ true = ground arith in
    let grown = length-append m.ports (p ∷ []) in
    rw free (record { room = c; at_most = omega arith; whole = λ _. omega arith })

receive-Conserved :
    (count : ℕ) (ps : List ℕ) (m n : Manager)
    → m.ports ≡ ps
    → Conserved count m
    → start_checking ps m ≡ some n
    → Conserved count n
receive-Conserved count [] m n q v e = cc
receive-Conserved count (p ∷ ps) m n q v e =
    let size : length m.ports ≡ suc (length ps) = ap length q in
    let moved : Conserved count (record m { ports = ps; checking = p ∷ m.checking }) = record {
      room = v.room;
      at_most = omega (arith, v.at_most);
      whole = λ o. omega (arith, v.whole o);
    } in
    subst (Conserved count) (some-injective _ _ e) moved

-- A test with its port taken out of `checking`, which had the rest and that port.
tested-Conserved :
    (count p : ℕ) (free : Bool) (m : Manager)
    → m.capacity ≡ count
    → suc (tokens m) ≤ count
    → (m.done ≡ false → suc (tokens m) ≡ count)
    → Conserved count (tested free p m)
unfolding tested
tested-Conserved count p free m c l w =
    if-elim (Conserved count) m.done
      (λ d. record { room = c; at_most = omega arith; whole = λ o. cc (d, o) })
      (λ d.
        if-elim (Conserved count) free
          (λ f. record { room = c; at_most = omega arith; whole = λ o. omega (arith, w o) })
          (λ f. try_send-Conserved count (next_port m).last_added_port (next_port m) c (w d)))

release-Conserved :
    (count p : ℕ) (m : Manager)
    → m.capacity ≡ count
    → suc (tokens m) ≤ count
    → (m.done ≡ false → suc (tokens m) ≡ count)
    → Conserved count (release p m)
unfolding release
release-Conserved count p m c l w =
    if-elim (Conserved count) m.done
      (λ d. record { room = c; at_most = omega arith; whole = λ o. cc (d, o) })
      (λ d. try_send-Conserved count p m c (w d))

testing-Conserved :
    (count p : ℕ) (free : Bool) (m n : Manager) (rest : Option (List ℕ))
    → remove p m.checking ≡ rest
    → Conserved count m
    → end_checking free p m rest ≡ some n
    → Conserved count n
testing-Conserved count p free m n none q v e = cc
testing-Conserved count p free m n (some rest) q v e =
    let size = length-remove p m.checking rest q in
    subst (Conserved count) (some-injective _ _ e) (
      tested-Conserved count p free (record m { checking = rest }) v.room (omega (arith, v.at_most))
        (λ o. omega (arith, v.whole o)))

releasing-Conserved :
    (count p : ℕ) (m n : Manager) (rest : Option (List ℕ))
    → remove p m.held ≡ rest
    → Conserved count m
    → end_holding p m rest ≡ some n
    → Conserved count n
releasing-Conserved count p m n none q v e = cc
releasing-Conserved count p m n (some rest) q v e =
    let size = length-remove p m.held rest q in
    subst (Conserved count) (some-injective _ _ e) (
      release-Conserved count p (record m { held = rest }) v.room (omega (arith, v.at_most))
        (λ o. omega (arith, v.whole o)))

-- Every step keeps the ports: their number never exceeds the count of New, and equals it as long
-- as the manager is open.
step-Conserved :
    (count : ℕ) (m n : Manager) (a : Action)
    → Conserved count m
    → step m a ≡ some n
    → Conserved count n
unfolding step close
step-Conserved count m n receiving v e = receive-Conserved count m.ports m n refl v e
step-Conserved count m n (testing p free) v e =
    testing-Conserved count p free m n (remove p m.checking) refl v e
step-Conserved count m n (releasing p) v e =
    releasing-Conserved count p m n (remove p m.held) refl v e
step-Conserved count m n closing v e =
    let closed : Conserved count (record m { done = true }) = record {
      room = v.room;
      at_most = v.at_most;
      whole = λ o. cc;
    } in
    subst (Conserved count) (some-injective _ _ e) closed

length-initial_ports : (start from n : ℕ) → length (initial_ports start from n) ≡ n
length-initial_ports start from zero = refl
length-initial_ports start from (suc n) = ap suc (length-initial_ports start (from + 1) n)

new_manager-Conserved :
    (start count : ℕ) (m : Manager) → new_manager start count ≡ some m → Conserved count m
unfolding new_manager
new_manager-Conserved start zero m e = cc
new_manager-Conserved start (suc k) m e =
    let size = length-initial_ports start 0 (suc k) in
    let positive : (suc k == 0) ≡ false = ground arith in
    subst (Conserved (suc k)) (some-injective _ _ (rw positive at e))
      (record { room = refl; at_most = omega arith; whole = λ o. omega arith })

-- Whatever steps the concurrent calls of Get, Release and Close take after New with a positive
-- count, if each Get's port is released at most once: the ports in the pool, in a test and held
-- are never more than the count, and as long as the manager is open they are exactly that many,
-- so that no port is lost, also where busy ports are replaced.
pub new_manager-tokens :
    (start count : ℕ) (m n : Manager)
    → new_manager start count ≡ some m
    → Reaches m n
    → (tokens n ≤ count) × ((n.done ≡ true) ⊎ (tokens n ≡ count))
new_manager-tokens start count m n e r =
    let v = reaches m n r (new_manager-Conserved start count m e) in
    elim (Bool-cases n.done) [ inl d ↦ (v.at_most, inl d) | inr d ↦ (v.at_most, inr (v.whole d)) ]
  where
    reaches : (m n : Manager) → Reaches m n → Conserved count m → Conserved count n
    reaches m _ (here _) v = v
    reaches m _ (then_step _ n o a r e) v = step-Conserved count n o a (reaches m n r v) e
