-- ===== src/Iplist/Shuffle/Covers.antt =====
-- The shuffled stream is a permutation of the targets of its index.
use native.Mathlib.Bridge.{from_ℕ}
use native.Mathlib.Nat.{suc-add}
use native.Mathlib.Decide.{dec_lt}
use mathlib.Core.List
use mathlib.Core.List.{
  Perm, filter, filter_map, filter_map-append, perm_append_comm, filter_map-some,
}
use mathlib.Core.List.Perm
use bgscan.Base.{
  ℕ, zero, suc, ◌+◌, ◌-◌, ◌^◌, ◌≤◌, ◌<◌, ◌≡◌, ◌≢◌, refl, sym, ap, ◌∙◌, arith, Bool, false, ◌==◌,
  ltb, Bool-cases, inl, inr, ==-iff, ltb→le, ltb→lt, lt→ltb, le→ltb, List, [], ◌∷◌, ◌++◌, Option,
  some, none, length, take, take-nil, keep, tally, length-keep, get_elem?, length-append, subst,
}
use bgscan.Base.Arith.{u64_mod}
use bgscan.Iplist.Addr.{Addr}
use bgscan.Iplist.Lcg.{orbit, below, orbit-perm}
use bgscan.Iplist.Index.{CidrBlock, MasterIndexer}
use bgscan.Iplist.Index.Tiling.{Tiled, IsComplete}
use bgscan.Iplist.Index.Search.{
  get_ip_from_cidr_blocks-enumerate, enumerate, offsets, length-offsets, get-in-range,
}
use bgscan.Iplist.Shuffle.{
  done, address, unreadable, out_of_range, to_target, target_of, first_state,
  stream_active_ips_shuffled,
}
use bgscan.Iplist.Shuffle.Modulus.{state_bits, le-two-pow-state_bits}
use bgscan.Iplist.Shuffle.Visits.{target_addr, addresses, visited, rounds-Sends}

abbrev pub no_ctx : ℕ → Bool
no_ctx r = false

keep-filter : (n : ℕ) (xs : List ℕ) → keep (λ s. ltb s n) xs ≡ filter (λ s. dec_lt s n) xs
keep-filter n [] = refl
keep-filter n (x ∷ xs) = ground (arith, keep-filter n xs)

keep-below-all : (g n : ℕ) → n ≤ g → keep (λ s. ltb s g) (below n) ≡ below n
keep-below-all g zero h = refl
keep-below-all g (suc n) h = rw (lt→ltb n g h) (ap (List.◌∷◌ n) (keep-below-all g n (omega arith)))

keep-below : (g n : ℕ) → g ≤ n → keep (λ s. ltb s g) (below n) ≡ below g
keep-below zero zero h = refl
keep-below (suc g) zero h = absurd (omega arith)
keep-below g (suc n) h = elim (Bool-cases (ltb n g)) [
  | inl e ↦
      let top : g ≡ suc n = ground arith in
      ap (λ k. keep (λ s. ltb s k) (below (suc n))) top
      ∙ keep-below-all (suc n) (suc n) (omega arith)
      ∙ sym (ap below top)
  | inr e ↦ rw e (keep-below g n (ground arith))
]

length-from_ℕ {ℓ} : {A : Type ℓ} (xs : List A) → length xs ≡ from_ℕ (List.length xs)
length-from_ℕ [] = refl
length-from_ℕ (x ∷ xs) = ap suc (length-from_ℕ xs)

length-below : (n : ℕ) → length (below n) ≡ n
length-below zero = refl
length-below (suc n) = ap suc (length-below n)

-- The numbers from s on, n of them.
abbrev pub upto : ℕ → ℕ → List ℕ
upto s zero = []
upto s (suc n) = s ∷ upto (s + 1) n

upto-last : (s n : ℕ) → upto s (suc n) ≡ upto s n ++ (s + n) ∷ []
upto-last s zero = let e : s + 0 ≡ s = omega arith in rw e
upto-last s (suc n) =
    let e : s + suc n ≡ s + 1 + n = omega arith in rw e (ap (List.◌∷◌ s) (upto-last (s + 1) n))

below-upto : (n : ℕ) → Perm (below n) (upto 0 n)
below-upto zero = Perm.nil
below-upto (suc n) =
    let e : 0 + n ≡ n = omega arith in
    rw (upto-last 0 n, e)
      (Perm.trans (Perm.cons n (below-upto n)) (Perm.symm (perm_append_comm (upto 0 n) (n ∷ []))))

upto-append : (s m n : ℕ) → upto s (m + n) ≡ upto s m ++ upto (s + m) n
upto-append s zero n =
    let e : 0 + n ≡ n = omega arith in let f : s + 0 ≡ s = omega arith in rw (e, f)
upto-append s (suc m) n =
    let f : s + 1 + m ≡ s + suc m = omega arith in
    rw suc-add (ap (List.◌∷◌ s) (upto-append (s + 1) m n ∙ rw f refl))

-- Looking up every place of a list gives the list.
filter_map-upto :
    {A B : Type 0} (f : ℕ → Option B) (h : A → Option B) (xs : List A) (s : ℕ)
    → ((i : ℕ) (x : A) → get_elem? xs i ≡ some x → f (s + i) ≡ h x)
    → filter_map f (upto s (length xs)) ≡ filter_map h xs
unfolding filter_map
filter_map-upto f h [] s e = refl
filter_map-upto f h (x ∷ xs) s e =
    let zero_place : s + 0 ≡ s = omega arith in
    let here : f s ≡ h x = rw zero_place at (e 0 x refl) in
    let rest =
      filter_map-upto f h xs (s + 1)
        (λ i y g. let next : s + 1 + i ≡ s + suc i = omega arith in rw next (e (suc i) y g)) in
    rw (here, rest)

Tiled-length : (s : ℕ) (bs : List CidrBlock) (t : ℕ) → Tiled s bs t → s + length (enumerate bs) ≡ t
Tiled-length s [] t h = omega arith
Tiled-length s (b ∷ bs) t h = omega (
  arith,
  length-append (offsets b.start_ip 0 b.total_ips) (enumerate bs),
  length-offsets b.start_ip 0 b.total_ips,
  Tiled-length (s + b.total_ips) bs t h.1,
)

lt-length : {A : Type 0} (xs : List A) (i : ℕ) (x : A) → get_elem? xs i ≡ some x → i < length xs
lt-length [] i x e = cc
lt-length (y ∷ xs) zero x e = omega arith
lt-length (y ∷ xs) (suc i) x e = omega (arith, lt-length xs i x e)

target_addr-to_target : (o : Option Addr) → target_addr (to_target o unreadable) ≡ o
target_addr-to_target none = refl
target_addr-to_target (some a) = refl

to_target-inside : (o : Option Addr) → to_target o unreadable ≢ out_of_range
to_target-inside none e = cc
to_target-inside (some a) e = cc

module _ (read : ℕ → Option Addr) (m : MasterIndexer) where
  -- All targets of an index: the addresses of its ranges, then its single addresses that can be
  -- read.
  abbrev pub index_targets : List Addr
  index_targets = enumerate m.cidr_blocks ++ filter_map read m.single_offsets

  module _ (v : IsComplete m) where
    target-block :
        (i : ℕ) (a : Addr)
        → get_elem? (enumerate m.cidr_blocks) i ≡ some a
        → i < m.total_cidr_ips
        → target_of read m i ≡ address a
    unfolding target_of
    target-block i a e h =
        let found =
          (get_ip_from_cidr_blocks-enumerate m.cidr_blocks m.total_cidr_ips i v.0
            (omega (arith, v.2, v.3)) h).0 in
        rw (lt→ltb i m.total_cidr_ips h, found, e)

    target-single :
        (i offset : ℕ)
        → get_elem? m.single_offsets i ≡ some offset
        → target_of read m (m.total_cidr_ips + i) ≡ to_target (read offset) unreadable
    unfolding target_of
    target-single i offset e =
        let back : m.total_cidr_ips + i - m.total_cidr_ips ≡ i = omega arith in
        rw (le→ltb (m.total_cidr_ips + i) m.total_cidr_ips (omega arith), back, e)

    count-block : m.total_cidr_ips ≡ length (enumerate m.cidr_blocks)
    count-block = omega (arith, Tiled-length 0 m.cidr_blocks m.total_cidr_ips v.0)

    addresses-upto : addresses read m (upto 0 m.grand_total) ≡ index_targets
    addresses-upto =
        let ranges = enumerate m.cidr_blocks in
        let lines = m.single_offsets in
        let total : m.grand_total ≡ length ranges + length lines =
          omega (arith, v.1, v.2, count-block) in
        let first =
          filter_map-upto (λ s. target_addr (target_of read m s)) some ranges 0
            (λ i a e.
              let place : 0 + i ≡ i = omega arith in
              rw
                (place, target-block i a e (omega (arith, lt-length ranges i a e, count-block)))) in
        let second =
          filter_map-upto (λ s. target_addr (target_of read m s)) read lines (0 + length ranges)
            (λ i offset e.
              let place : 0 + length ranges + i ≡ m.total_cidr_ips + i =
                omega (arith, count-block) in
              rw (place, target-single i offset e) (target_addr-to_target (read offset))) in
        ap (λ k. addresses read m (upto 0 k)) total
        ∙ ap (addresses read m) (upto-append 0 (length ranges) (length lines))
        ∙ filter_map-append _ (upto 0 (length ranges)) (upto (0 + length ranges) (length lines))
        ∙ ap (λ (xs : List Addr). xs ++ addresses read m (upto (0 + length ranges) (length lines)))
            (first ∙ filter_map-some ranges)
        ∙ ap (λ (xs : List Addr). ranges ++ xs) second

    target-inside : (s : ℕ) → s < m.grand_total → target_of read m s ≢ out_of_range
    target-inside s h z = elim (Bool-cases (ltb s m.total_cidr_ips)) [
      | inl e ↦
          let (a, at) =
            get-in-range (enumerate m.cidr_blocks) s (omega (arith, count-block, ltb→lt _ _ e)) in
          let t = target-block s a at (ltb→lt _ _ e) in cc (t, z)
      | inr e ↦
          let i = s - m.total_cidr_ips in
          let past = ltb→le _ _ e in
          let (offset, at) = get-in-range m.single_offsets i (omega (arith, v.1, v.2)) in
          let place : s ≡ m.total_cidr_ips + i = omega arith in
          to_target-inside (read offset)
            (sym (target-single i offset at) ∙ ap (target_of read m) (sym place) ∙ z)
    ]

    no_targets : m.grand_total ≡ 0 → index_targets ≡ []
    unfolding filter_map
    no_targets e = sym addresses-upto ∙ ap (λ k. addresses read m (upto 0 k)) e

    -- The rounds of the whole ring visit every number of the index once.
    visited-perm :
        (state : ℕ)
        → 0 < m.grand_total
        → let n = 2 ^ state_bits m.grand_total in
          Perm (below m.grand_total) (visited read m (orbit n n state))
    visited-perm state g =
        let n = 2 ^ state_bits m.grand_total in
        let room = le-two-pow-state_bits m.grand_total g (omega (arith, v.3)) in
        let filtered =
          Perm.filter (λ s. dec_lt s m.grand_total) (orbit-perm (state_bits m.grand_total) state) in
        rw (keep-filter m.grand_total (orbit n n state))
          (rw (← keep-filter m.grand_total (below n), keep-below m.grand_total n room) at filtered)

    visited-tally :
        (state : ℕ)
        → 0 < m.grand_total
        → let n = 2 ^ state_bits m.grand_total in
          tally (λ s. ltb s m.grand_total) (orbit n n state) ≡ m.grand_total
    visited-tally state g =
        let n = 2 ^ state_bits m.grand_total in
        let states = orbit n n state in
        sym (length-keep (λ s. ltb s m.grand_total) states)
        ∙ length-from_ℕ (visited read m states)
        ∙ ap from_ℕ (sym (Perm.length-eq (visited-perm state g)))
        ∙ sym (length-from_ℕ (below m.grand_total))
        ∙ length-below m.grand_total

-- For the index of any file, a limit of at least 1, no cancellation, and whatever the random source
-- draws first: with one round for every state of the ring and one more, the shuffled stream ends
-- by itself, with no index out of range, and sends the first `limit` members of a permutation of
-- all targets of the index.
pub stream_active_ips_shuffled-perm :
    (read : ℕ → Option Addr) (m : MasterIndexer) (limit drawn : ℕ)
    → IsComplete m
    → 0 < limit
    → limit < u64_mod
    → (sent : List Addr) × Perm (index_targets read m) sent
      × (stream_active_ips_shuffled read no_ctx no_ctx m limit
            (suc (2 ^ state_bits m.grand_total))
            drawn
          ≡ record { out = take limit sent; outcome = done })
unfolding stream_active_ips_shuffled
stream_active_ips_shuffled-perm read m limit drawn v l lm = elim (Bool-cases (m.grand_total == 0)) [
  | inl e ↦
      let none_left : m.grand_total ≡ 0 = (==-iff _ _).0 e in
      (
        index_targets read m,
        Perm.refl (index_targets read m),
        rw e (
            ap (λ xs. record { out = xs; outcome = done })
              (sym (ap (take limit) (no_targets read m v none_left) ∙ take-nil limit))),
      )
  | inr e ↦
      let g : 0 < m.grand_total = ground arith in
      let n = 2 ^ state_bits m.grand_total in
      let state = first_state m.grand_total drawn in
      let states = orbit n n state in
      let whole : limit - 0 ≡ limit = omega arith in
      let sends =
        rounds-Sends read m limit l lm g (omega (arith, v.3)) (target-inside read m v) n 0 state 0 0
          (omega (arith, visited-tally read m v state g)) (omega arith) in
      (
        addresses read m (visited read m states),
        subst (λ xs. Perm xs (addresses read m (visited read m states))) (addresses-upto read m v)
            (Perm.filter_map _
              (Perm.trans (Perm.symm (below-upto m.grand_total)) (visited-perm read m v state g))),
        rw e (rw whole at sends),
      )
]
