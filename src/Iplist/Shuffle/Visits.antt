-- ===== src/Iplist/Shuffle/Visits.antt =====
-- What the shuffled stream sends: each target of the index once.
use native.Mathlib.Nat.{mod-eq_of_lt}
use mathlib.Core.List.{filter_map}
use bgscan.Base.{
  ℕ, zero, suc, ◌+◌, ◌-◌, ◌*◌, ◌%◌, ◌^◌, ◌≤◌, ◌<◌, ◌≡◌, ◌≢◌, refl, arith, true, false, ◌&&◌, leb,
  ltb, if◌then◌else◌, Bool-cases, inl, inr, ◌⊎◌, lt→ltb, List, [], ◌∷◌, Option, some, none, take,
  take-none, take-nil, keep, keep-nil_of_tally, tally,
}
use bgscan.Base.Arith.{u64_mod}
use bgscan.Iplist.Addr.{Addr}
use bgscan.Iplist.Lcg.{lcg_a, lcg_c, orbit}
use bgscan.Iplist.Index.{MasterIndexer}
use bgscan.Iplist.Shuffle.{
  Streamed, done, Target, address, unreadable, out_of_range, target_of, visit, stream_rounds,
}
use bgscan.Iplist.Shuffle.Modulus.{state_bits, next_state_lem}

-- The address that a number leads to.
abbrev pub target_addr : Target → Option Addr
target_addr (address a) = some a
target_addr unreadable = none
target_addr out_of_range = none

module _ (read : ℕ → Option Addr) (m : MasterIndexer) where
  -- The addresses that a list of numbers leads to; unreadable lines are passed over.
  abbrev pub addresses : List ℕ → List Addr
  addresses = filter_map (λ s. target_addr (target_of read m s))

  abbrev pub visited : List ℕ → List ℕ
  visited = keep (λ s. ltb s m.grand_total)

  module _ (limit : ℕ) (l : 0 < limit) (lm : limit < u64_mod) (g : 0 < m.grand_total)
      (gm : m.grand_total < u64_mod)
      (inside : (s : ℕ) → s < m.grand_total → target_of read m s ≢ out_of_range) where
    abbrev pub rounds : ℕ → ℕ → ℕ → ℕ → ℕ → Streamed
    rounds = stream_rounds read (λ _. false) (λ _. false) m limit

    abbrev pub after : ℕ → ℕ
    after state = (state * lcg_a + lcg_c) % 2 ^ state_bits m.grand_total

    rounds-end :
        (f r state dispatched count : ℕ)
        → (m.grand_total ≤ dispatched) ⊎ (limit ≤ count)
        → rounds (suc f) r state dispatched count ≡ record { out = []; outcome = done }
    unfolding stream_rounds
    rounds-end f r state dispatched count h = elim (Bool-cases (leb m.grand_total dispatched)) [
      | inl e ↦ rw e
      | inr e ↦ let full : leb limit count ≡ true = ground arith in rw (e, lt→ltb 0 limit l, full)
    ]

    -- A round that goes on to the test of the next state.
    rounds-on :
        (f r state dispatched count : ℕ)
        → dispatched < m.grand_total
        → count < limit
        → rounds (suc f) r state dispatched count ≡ (
            if leb m.grand_total (after state)
            then rounds f (r + 1) (after state) dispatched count
            else visit false
                (target_of read m (after state))
                (rounds f (r + 1) (after state) (dispatched + 1) count)
                (rounds f (r + 1) (after state) (dispatched + 1) (count + 1)))
    unfolding stream_rounds
    rounds-on f r state dispatched count h k =
        let going : leb m.grand_total dispatched ≡ false = ground arith in
        let room : leb limit count ≡ false = ground arith in
        let d : (dispatched + 1) % u64_mod ≡ dispatched + 1 = mod-eq_of_lt (omega arith) in
        let c : (count + 1) % u64_mod ≡ count + 1 = mod-eq_of_lt (omega arith) in
        rw (going, lt→ltb 0 limit l, room, next_state_lem m.grand_total state g, d, c)

    -- The outcome of the rounds over some states.
    abbrev pub Sends : ℕ → List ℕ → Streamed → Type 0
    Sends count states s =
        s ≡ record { out = take (limit - count) (addresses (visited states)); outcome = done }

    Sends-end :
        (count : ℕ) (states : List ℕ)
        → (tally (λ s. ltb s m.grand_total) states ≤ 0) ⊎ (limit ≤ count)
        → Sends count states (record { out = []; outcome = done })
    unfolding filter_map
    Sends-end count states (inl h) =
        rw (keep-nil_of_tally (λ s. ltb s m.grand_total) states h)
          (rw (take-nil {A = Addr} (limit - count)))
    Sends-end count states (inr h) =
        rw (take-none (limit - count) (addresses (visited states)) (omega arith))

    -- A round whose state is a number of the index.
    visit-Sends :
        (count y : ℕ) (states : List ℕ) (missed sent : Streamed) (t : Target)
        → target_of read m y ≡ t
        → y < m.grand_total
        → count < limit
        → Sends count states missed
        → Sends (count + 1) states sent
        → Sends count (y ∷ states) (visit false t missed sent)
    unfolding visit filter_map
    visit-Sends count y states missed sent (address a) e h k n o =
        let step : limit - count ≡ suc (limit - (count + 1)) = omega arith in
        rw (lt→ltb y m.grand_total h, e, step, o)
    visit-Sends count y states missed sent unreadable e h k n o =
        rw (lt→ltb y m.grand_total h, e, n)
    visit-Sends count y states missed sent out_of_range e h k n o = absurd (inside y h e)

    pub rounds-Sends :
        (j r state dispatched count : ℕ)
        → let states = orbit (2 ^ state_bits m.grand_total) j state in
          dispatched + tally (λ s. ltb s m.grand_total) states ≡ m.grand_total
          → count ≤ limit
          → Sends count states (rounds (suc j) r state dispatched count)
    unfolding orbit
    rounds-Sends zero r state dispatched count t c =
        rw (rounds-end 0 r state dispatched count (inl (omega arith)))
          (Sends-end count [] (inl (omega arith)))
    rounds-Sends (suc j) r state dispatched count t c =
        let y = after state in
        let rest = orbit (2 ^ state_bits m.grand_total) j y in
        elim (Bool-cases (ltb dispatched m.grand_total && ltb count limit)) [
          | inr over ↦ elim (Bool-cases (leb m.grand_total dispatched)) [
            | inl e ↦
                rw (rounds-end (suc j) r state dispatched count (inl (ground arith)))
                  (Sends-end count (y ∷ rest) (inl (ground arith)))
            | inr e ↦
                rw (rounds-end (suc j) r state dispatched count (inr (ground arith)))
                  (Sends-end count (y ∷ rest) (inr (ground arith)))
          ]
          | inl on ↦
              rw (rounds-on (suc j) r state dispatched count (ground arith) (ground arith))
                (elim (Bool-cases (leb m.grand_total y)) [
                  | inl e ↦
                      let drop : ltb y m.grand_total ≡ false = ground arith in
                      rw (e, drop) (rounds-Sends j (r + 1) y dispatched count (ground arith) c)
                  | inr e ↦
                      let hit : y < m.grand_total = ground arith in
                      let fewer : dispatched + 1 + tally (λ s. ltb s m.grand_total) rest
                          ≡ m.grand_total =
                        ground arith in
                      rw e (
                        visit-Sends count y rest _ _ (target_of read m y) refl hit (ground arith)
                          (rounds-Sends j (r + 1) y (dispatched + 1) count fewer c)
                          (rounds-Sends j (r + 1) y (dispatched + 1) (count + 1) fewer
                            (ground arith)))
                ])
        ]
