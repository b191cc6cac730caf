-- ===== src/Portmgr/Range.antt =====
-- The ports that are handed out stay below the ephemeral range; RandomBase leaves room for them.
use mathlib.Core.Option.{some-injective}
use bgscan.Base.{
  ℕ, zero, suc, ◌+◌, ◌-◌, ◌%◌, ◌≤◌, ◌<◌, ◌≡◌, refl, sym, Bool, true, false, List, [], ◌∷◌, ◌++◌,
  Option, none, some, ltb, leb, ◌==◌, length, arith, ==-iff, Bool-cases, Option-cases, inl, inr,
  All, if-elim, subst,
}
use bgscan.Portmgr.{
  Manager, u16, ephemeral_port, min_port, initial_ports, new_manager, try_send, next_port, release,
  close, tested, remove, Action, receiving, testing, releasing, closing, step, start_checking,
  end_checking, end_holding, Reaches, here, then_step, random_base, random_base_bound,
}

abbrev pub Inside : ℕ → ℕ → Type 0
Inside start p = (start ≤ p) × (p < ephemeral_port)

pub record Ranged (start : ℕ) (m : Manager) : Type 0 where
  pub pool : All (Inside start) m.ports
  pub checked : All (Inside start) m.checking
  pub returned : All (Inside start) m.held
  pub first : m.start_port ≡ start
  pub last : Inside start m.last_added_port

All-append : (P : ℕ → Type 0) (xs : List ℕ) (p : ℕ) → All P xs → P p → All P (xs ++ p ∷ [])
All-append P [] p a h = (h, tt)
All-append P (x ∷ xs) p a h = (a.0, All-append P xs p a.1 h)

-- What is removed, and what is left.
All-remove :
    (P : ℕ → Type 0) (p : ℕ) (xs rest : List ℕ)
    → remove p xs ≡ some rest
    → All P xs
    → P p × All P rest
All-remove P p [] rest e a = cc
All-remove P p (q ∷ qs) rest e a = elim (Bool-cases (p == q)) [
  | inl y ↦
      let same : q ≡ p = sym ((==-iff p q).0 y) in
      let left : qs ≡ rest = some-injective _ _ (rw y at e) in
      (subst P same a.0, subst (All P) left a.1)
  | inr y ↦ elim (Option-cases (remove p qs)) [
    | inl n ↦ cc (rw (y, n) at e)
    | inr (r, n) ↦
        let left : q ∷ r ≡ rest = some-injective _ _ (rw (y, n) at e) in
        let (h, others) = All-remove P p qs r n a.1 in (h, subst (All P) left (a.0, others))
  ]
]

module _ (start : ℕ) (low : start < ephemeral_port) where
  try_send-Ranged :
      (p : ℕ) (m : Manager) → Ranged start m → Inside start p → Ranged start (try_send p m)
  unfolding try_send
  try_send-Ranged p m v h =
      if-elim (Ranged start) (ltb (length m.ports) m.capacity)
        (λ _. record {
          pool = All-append (Inside start) m.ports p v.pool h;
          checked = v.checked;
          returned = v.returned;
          first = v.first;
          last = v.last;
        })
        (λ _. v)

  next_port-Ranged : (m : Manager) → Ranged start m → Ranged start (next_port m)
  unfolding next_port
  next_port-Ranged m v = record {
    pool = v.pool;
    checked = v.checked;
    returned = v.returned;
    first = v.first;
    last =
        if-elim (Inside start) (leb ephemeral_port ((m.last_added_port + 1) % u16))
          (λ _. (omega (arith, v.first), omega (arith, v.first)))
          (λ b.
            let (below, above) = v.last in
            let next : (m.last_added_port + 1) % u16 ≡ m.last_added_port + 1 = omega arith in
            (omega arith, ground arith));
  }

  tested-Ranged :
      (p : ℕ) (free : Bool) (m : Manager)
      → Ranged start m
      → Inside start p
      → Ranged start (tested free p m)
  unfolding tested
  tested-Ranged p free m v h =
      if-elim (Ranged start) m.done (λ _. v)
        (λ _.
          if-elim (Ranged start) free
            (λ _. record {
              pool = v.pool;
              checked = v.checked;
              returned = (h, v.returned);
              first = v.first;
              last = v.last;
            })
            (λ _.
              let moved = next_port-Ranged m v in
              try_send-Ranged (next_port m).last_added_port (next_port m) moved moved.last))

  release-Ranged :
      (p : ℕ) (m : Manager) → Ranged start m → Inside start p → Ranged start (release p m)
  unfolding release
  release-Ranged p m v h = if-elim (Ranged start) m.done (λ _. v) (λ _. try_send-Ranged p m v h)

  receive-Ranged :
      (ps : List ℕ) (m n : Manager)
      → m.ports ≡ ps
      → Ranged start m
      → start_checking ps m ≡ some n
      → Ranged start n
  receive-Ranged [] m n q v e = cc
  receive-Ranged (p ∷ ps) m n q v e =
      let all = subst (All (Inside start)) q v.pool in
      let moved : Ranged start (record m { ports = ps; checking = p ∷ m.checking }) = record {
        pool = all.1;
        checked = (all.0, v.checked);
        returned = v.returned;
        first = v.first;
        last = v.last;
      } in
      subst (Ranged start) (some-injective _ _ e) moved

  testing-Ranged :
      (p : ℕ) (free : Bool) (m n : Manager) (rest : Option (List ℕ))
      → remove p m.checking ≡ rest
      → Ranged start m
      → end_checking free p m rest ≡ some n
      → Ranged start n
  testing-Ranged p free m n none q v e = cc
  testing-Ranged p free m n (some rest) q v e =
      let (h, others) = All-remove (Inside start) p m.checking rest q v.checked in
      subst (Ranged start) (some-injective _ _ e) (
        tested-Ranged p free (record m { checking = rest })
          (record {
            pool = v.pool;
            checked = others;
            returned = v.returned;
            first = v.first;
            last = v.last;
          })
          h)

  releasing-Ranged :
      (p : ℕ) (m n : Manager) (rest : Option (List ℕ))
      → remove p m.held ≡ rest
      → Ranged start m
      → end_holding p m rest ≡ some n
      → Ranged start n
  releasing-Ranged p m n none q v e = cc
  releasing-Ranged p m n (some rest) q v e =
      let (h, others) = All-remove (Inside start) p m.held rest q v.returned in
      subst (Ranged start) (some-injective _ _ e) (
        release-Ranged p (record m { held = rest })
          (record {
            pool = v.pool;
            checked = v.checked;
            returned = others;
            first = v.first;
            last = v.last;
          })
          h)

  step-Ranged : (m n : Manager) (a : Action) → Ranged start m → step m a ≡ some n → Ranged start n
  unfolding step close
  step-Ranged m n receiving v e = receive-Ranged m.ports m n refl v e
  step-Ranged m n (testing p free) v e = testing-Ranged p free m n (remove p m.checking) refl v e
  step-Ranged m n (releasing p) v e = releasing-Ranged p m n (remove p m.held) refl v e
  step-Ranged m n closing v e =
      let closed : Ranged start (record m { done = true }) = record {
        pool = v.pool;
        checked = v.checked;
        returned = v.returned;
        first = v.first;
        last = v.last;
      } in
      subst (Ranged start) (some-injective _ _ e) closed

  Reaches-Ranged : (m n : Manager) → Reaches m n → Ranged start m → Ranged start n
  Reaches-Ranged m _ (here _) v = v
  Reaches-Ranged m _ (then_step _ n o a r e) v = step-Ranged n o a (Reaches-Ranged m n r v) e

initial_ports-Inside :
    (start from n : ℕ)
    → start + from + n ≤ ephemeral_port
    → All (Inside start) (initial_ports start from n)
initial_ports-Inside start from zero h = tt
initial_ports-Inside start from (suc n) h =
    let whole : (start + from) % u16 ≡ start + from = omega arith in
    ((omega arith, omega arith), initial_ports-Inside start (from + 1) n (omega arith))

new_manager-Ranged :
    (start count : ℕ) (m : Manager)
    → start + count ≤ ephemeral_port
    → new_manager start count ≡ some m
    → Ranged start m
unfolding new_manager
new_manager-Ranged start zero m h e = cc
new_manager-Ranged start (suc k) m h e =
    let positive : (suc k == 0) ≡ false = ground arith in
    subst (Ranged start) (some-injective _ _ (rw positive at e)) (record {
      pool = initial_ports-Inside start 0 (suc k) (omega arith);
      checked = tt;
      returned = tt;
      first = refl;
      last = (omega arith, omega arith);
    })

-- For a range of ports below the ephemeral ones: whatever steps the concurrent calls take after
-- New, every port in the pool, in a test or held is at least startPort and below 49152, also
-- after lastAddedPort has started over.
pub new_manager-range :
    (start count : ℕ) (m n : Manager)
    → 0 < count
    → start + count ≤ ephemeral_port
    → new_manager start count ≡ some m
    → Reaches m n
    → All (Inside start) n.ports × All (Inside start) n.checking × All (Inside start) n.held
new_manager-range start count m n c h e r =
    let v = Reaches-Ranged start (omega arith) m n r (new_manager-Ranged start count m h e) in
    (v.pool, v.checked, v.returned)

-- For fewer than 29152 ports, whatever the random source draws below the bound that RandomBase
-- gives it, that bound is 29152 less the size, and the ports from the result on lie from 20000 up to 49152.
pub random_base-range :
    (size drawn : ℕ)
    → size < 29152
    → drawn < random_base_bound size
    → (random_base_bound size ≡ 29152 - size)
      × (min_port ≤ random_base drawn)
      × (random_base drawn + size ≤ ephemeral_port)
unfolding random_base random_base_bound
random_base-range size drawn h k = (omega arith, omega arith, omega arith)
