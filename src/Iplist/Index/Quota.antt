-- ===== src/Iplist/Index/Quota.antt =====
-- What each entry gets: everything when the total fits in a uint64, and else its quota.
-- Also randBigIntBelow, whose attempts are the byte slices that the random source yields.
use native.Mathlib.Nat.{mod-eq_of_lt, div-eq_of_lt, le_refl, lt_trans, pow-succ'}
use bgscan.Base.{
  ℕ, zero, suc, ◌+◌, ◌-◌, ◌*◌, ◌/◌, ◌%◌, ◌^◌, ◌≤◌, ◌<◌, ◌≡◌, refl, sym, ap, ◌∙◌, true, false, List,
  [], ◌∷◌, leb, ltb, ◌==◌, if◌then◌else◌, arith, length, Bool-cases, if-elim, inl, inr, lt→ltb,
  ==-iff, Option, some, none,
}
use bgscan.Base.Arith.{max_uint64}
use bgscan.Iplist.Count.{Entry}
use bgscan.Iplist.Index.{
  MasterIndexer, empty_indexer, RawEntry, single, cidr, raw_size, raw_entries, total_count,
  add_block, index_direct, quota, random_offset, add_quota, index_quota, with_grand_total,
  new_master_indexer,
}
use bgscan.Iplist.Index.Tiling.{
  index_direct-IsIndex, empty-IsIndex, new_master_indexer-IsComplete, with_grand_total-IsComplete,
}

with_grand_total-fields :
    (m : MasterIndexer)
    → ((with_grand_total m).single_offsets ≡ m.single_offsets)
      × ((with_grand_total m).total_cidr_ips ≡ m.total_cidr_ips)
      × ((with_grand_total m).total_singles ≡ m.total_singles)
unfolding with_grand_total
with_grand_total-fields m = (refl, refl, refl)

-- Where the total fits in a uint64, GrandTotal is the number of addresses of the rows that are on.
pub new_master_indexer-direct :
    (draw : ℕ → ℕ → ℕ) (rows : List (Entry × ℕ))
    → total_count (raw_entries rows) ≤ max_uint64
    → (new_master_indexer draw rows).grand_total ≡ total_count (raw_entries rows)
unfolding new_master_indexer
new_master_indexer-direct draw rows h =
    let es = raw_entries rows in
    let direct = index_direct-IsIndex empty_indexer es empty-IsIndex (omega arith) in
    let (valid, total) = direct in
    let sums = with_grand_total-fields (index_direct empty_indexer es) in
    let complete = with_grand_total-IsComplete (index_direct empty_indexer es) valid in
    elim (Bool-cases (total_count es == 0)) [
      | inl e ↦ rw e (sym ((==-iff (total_count es) 0).0 e))
      | inr e ↦
          let small : leb (total_count es) max_uint64 ≡ true = ground arith in
          rw (e, small) (omega (arith, total, sums.1, sums.2, complete.2))
    ]

quota-zero : (total : ℕ) (e : RawEntry) → raw_size e * max_uint64 < total → quota total e ≡ 0
unfolding quota
quota-zero total e h = div-eq_of_lt h

-- An entry of which 2^64 - 1 copies are smaller than the total is left out of the index.
add_quota-skips :
    (draw : ℕ → ℕ → ℕ) (total : ℕ) (m : MasterIndexer) (e : RawEntry)
    → raw_size e * max_uint64 < total
    → add_quota draw total m e ≡ m
unfolding add_quota
add_quota-skips draw total m (single offset) h = rw (quota-zero total (single offset) h)
add_quota-skips draw total m (cidr start size) h = rw (quota-zero total (cidr start size) h)

add_quota-singles :
    (draw : ℕ → ℕ → ℕ) (total : ℕ) (m : MasterIndexer) (e : RawEntry)
    → max_uint64 < total
    → (add_quota draw total m e).single_offsets ≡ m.single_offsets
unfolding add_quota add_block
add_quota-singles draw total m (single offset) h =
    ap (λ (n : MasterIndexer). n.single_offsets)
      (add_quota-skips draw total m (single offset) (omega arith))
add_quota-singles draw total m (cidr start size) h = ground arith

index_quota-singles :
    (draw : ℕ → ℕ → ℕ) (total : ℕ) (m : MasterIndexer) (es : List RawEntry)
    → max_uint64 < total
    → (index_quota draw total m es).single_offsets ≡ m.single_offsets
unfolding index_quota
index_quota-singles draw total m [] h = refl
index_quota-singles draw total m (e ∷ es) h =
    index_quota-singles draw total (add_quota draw total m e) es h
    ∙ add_quota-singles draw total m e h

master-quota :
    (draw : ℕ → ℕ → ℕ) (rows : List (Entry × ℕ))
    → max_uint64 < total_count (raw_entries rows)
    → (new_master_indexer draw rows).single_offsets ≡ []
unfolding new_master_indexer
master-quota draw rows h =
    let es = raw_entries rows in
    let nonzero : (total_count es == 0) ≡ false = ground arith in
    let large : leb (total_count es) max_uint64 ≡ false = ground arith in
    let m = index_quota draw (total_count es) empty_indexer es in
    rw (nonzero, large)
      ((with_grand_total-fields m).0 ∙ index_quota-singles draw (total_count es) empty_indexer es h)

-- Where the total exceeds a uint64, the index has no single address at all: whatever single
-- addresses the file lists, the shuffled stream never visits one.
pub new_master_indexer-no_singles :
    (draw : ℕ → ℕ → ℕ) (rows : List (Entry × ℕ))
    → max_uint64 < total_count (raw_entries rows)
    → ((new_master_indexer draw rows).single_offsets ≡ [])
      × ((new_master_indexer draw rows).grand_total ≡ (new_master_indexer draw rows).total_cidr_ips)
new_master_indexer-no_singles draw rows h =
    let complete = new_master_indexer-IsComplete draw rows in
    let none_left = master-quota draw rows h in
    (none_left, omega (arith, complete.1, complete.2, ap length none_left))

-- With random offsets below what is asked for, the share of a range lies inside the range.
pub random_offset-inside :
    (draw : ℕ → ℕ → ℕ) (k size q : ℕ)
    → ((k max : ℕ) → 0 < max → draw k max < max)
    → q ≤ size
    → random_offset draw k size q + q ≤ size
unfolding random_offset
random_offset-inside draw k size q law h =
    if-elim (λ (x : ℕ). x + q ≤ size) (ltb q size)
      (λ y. let b = law k (size - q) (ground arith) in omega arith) (λ _. omega arith)

-- One attempt of randBigIntBelow: the bytes as a big-endian number, masked to nbits bits.
unfoldable pub of_big_endian : ℕ → List ℕ → ℕ
of_big_endian acc [] = acc
of_big_endian acc (b ∷ bs) = of_big_endian (256 * acc + b) bs

-- big.Int.BitLen.
unfoldable pub bit_len_from : ℕ → ℕ → ℕ
bit_len_from zero n = 0
bit_len_from (suc fuel) n = let rest = suc (bit_len_from fuel (n / 2)) in if n == 0 then 0 else rest

-- randBigIntBelow over the attempts in turn; none if all of them are rejected. The number of bits
-- of max is at most max.
unfoldable pub rand_big_int_below : ℕ → List (List ℕ) → Option ℕ
unfolding of_big_endian bit_len_from
rand_big_int_below max [] = none
rand_big_int_below max (bytes ∷ attempts) =
    let n = of_big_endian 0 bytes % 2 ^ bit_len_from max max in
    let again = rand_big_int_below max attempts in if ltb n max then some n else again

pub lt-two-pow-bit_len : (fuel n : ℕ) → n ≤ fuel → n < 2 ^ bit_len_from fuel n
unfolding bit_len_from
lt-two-pow-bit_len zero n h = omega arith
lt-two-pow-bit_len (suc fuel) n h = elim (Bool-cases (n == 0)) [
  | inl e ↦ rw e (omega (arith, (==-iff n 0).0 e))
  | inr e ↦
      let half = lt-two-pow-bit_len fuel (n / 2) (ground arith) in
      rw (e, pow-succ' 2 (bit_len_from fuel (n / 2))) (omega (arith, half))
]

-- A number that randBigIntBelow returns is below max.
pub rand_big_int_below-lt :
    (max : ℕ) (attempts : List (List ℕ)) (n : ℕ)
    → rand_big_int_below max attempts ≡ some n
    → n < max
unfolding rand_big_int_below
rand_big_int_below-lt max [] n e = cc
rand_big_int_below-lt max (b ∷ attempts) n e = ground (arith, rand_big_int_below-lt max attempts n)

-- An attempt that spells a number below max is returned as it is: the mask cuts nothing off, so
-- that every number below max can come out.
pub rand_big_int_below-exact :
    (max : ℕ) (bytes : List ℕ) (attempts : List (List ℕ))
    → of_big_endian 0 bytes < max
    → rand_big_int_below max (bytes ∷ attempts) ≡ some (of_big_endian 0 bytes)
unfolding rand_big_int_below
rand_big_int_below-exact max bytes attempts h =
    let whole = mod-eq_of_lt (lt_trans h (lt-two-pow-bit_len max max (le_refl max))) in
    rw (whole, lt→ltb _ _ h)
