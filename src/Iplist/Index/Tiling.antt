-- ===== src/Iplist/Index/Tiling.antt =====
-- The blocks of the index cover the numbers from 0 on without a gap or an overlap, and no total
-- is ever clamped.
use native.Mathlib.Nat.{
  div-mul-le_self, le_of_mul-le-mul_right, mul-le-mul_right, le_trans, add_assoc, add_right_comm,
}
use bgscan.Base.{
  ℕ, ◌+◌, ◌*◌, ◌≤◌, ◌<◌, ◌≡◌, refl, sym, ◌∙◌, not, List, [], ◌∷◌, ◌++◌, leb, ◌==◌, arith, length,
  length-append, if-elim,
}
use bgscan.Base.Arith.{max_uint64}
use bgscan.Iplist.Addr.{Addr}
use bgscan.Iplist.Count.{Entry}
use bgscan.Iplist.Offset.{saturating_add-min, add_big_offset}
use bgscan.Iplist.Index.{
  CidrBlock, MasterIndexer, empty_indexer, RawEntry, single, cidr, raw_size, raw_entries,
  total_count, add_single, add_block, index_direct, quota, random_offset, add_quota, index_quota,
  with_grand_total, new_master_indexer,
}

-- The blocks cover the numbers from s up to t, in order and without a gap.
abbrev pub Tiled : ℕ → List CidrBlock → ℕ → Type 0
Tiled s [] t = s ≡ t
Tiled s (b ∷ bs) t = (b.global_idx ≡ s) × Tiled (s + b.total_ips) bs t

Tiled-append :
    (s : ℕ) (bs : List CidrBlock) (t : ℕ) (b : CidrBlock)
    → Tiled s bs t
    → b.global_idx ≡ t
    → Tiled s (bs ++ b ∷ []) (t + b.total_ips)
Tiled-append s [] t b h e = (e ∙ sym h, omega arith)
Tiled-append s (x ∷ bs) t b h e = (h.0, Tiled-append (s + x.total_ips) bs t b h.1 e)

pub record IsIndex (m : MasterIndexer) : Type 0 where
  pub tiled : Tiled 0 m.cidr_blocks m.total_cidr_ips
  pub singles : m.total_singles ≡ length m.single_offsets
  pub fits : m.total_cidr_ips + m.total_singles ≤ max_uint64

add_single-IsIndex :
    (offset : ℕ) (m : MasterIndexer)
    → IsIndex m
    → m.total_cidr_ips + m.total_singles + 1 ≤ max_uint64
    → IsIndex (add_single offset m)
unfolding add_single
add_single-IsIndex offset m v h = record {
  tiled = v.tiled;
  singles = omega (arith, v.singles, length-append m.single_offsets (offset ∷ []));
  fits = omega arith;
}

add_block-total :
    (start : Addr) (count : ℕ) (m : MasterIndexer)
    → m.total_cidr_ips + count ≤ max_uint64
    → (add_block start count m).total_cidr_ips ≡ m.total_cidr_ips + count
unfolding add_block
add_block-total start count m h =
    omega (arith, saturating_add-min m.total_cidr_ips count (omega arith) (omega arith))

add_single-total :
    (offset : ℕ) (m : MasterIndexer)
    → m.total_singles < max_uint64
    → (add_single offset m).total_singles ≡ m.total_singles + 1
unfolding add_single
add_single-total offset m h = omega arith

add_single-cidr :
    (offset : ℕ) (m : MasterIndexer) → (add_single offset m).total_cidr_ips ≡ m.total_cidr_ips
unfolding add_single
add_single-cidr offset m = refl

add_block-singles :
    (start : Addr) (count : ℕ) (m : MasterIndexer)
    → (add_block start count m).total_singles ≡ m.total_singles
unfolding add_block
add_block-singles start count m = refl

add_block-IsIndex :
    (start : Addr) (count : ℕ) (m : MasterIndexer)
    → IsIndex m
    → m.total_cidr_ips + m.total_singles + count ≤ max_uint64
    → IsIndex (add_block start count m)
unfolding add_block
add_block-IsIndex start count m v h =
    let total = add_block-total start count m (omega arith) in
    record {
      tiled = rw total (Tiled-append 0 m.cidr_blocks m.total_cidr_ips _ v.tiled refl);
      singles = v.singles;
      fits = omega (arith, total);
    }

-- In the direct branch the totals stay below the sum of the sizes.
pub index_direct-IsIndex :
    (m : MasterIndexer) (es : List RawEntry)
    → IsIndex m
    → m.total_cidr_ips + m.total_singles + total_count es ≤ max_uint64
    → let r = index_direct m es in
      IsIndex r
      × (r.total_cidr_ips + r.total_singles ≡ m.total_cidr_ips + m.total_singles + total_count es)
unfolding index_direct total_count
index_direct-IsIndex m [] v h = (v, omega arith)
index_direct-IsIndex m (single offset ∷ es) v h =
    let one : (add_single offset m).total_singles ≡ m.total_singles + 1 =
      add_single-total offset m (omega arith) in
    let same : (add_single offset m).total_cidr_ips ≡ m.total_cidr_ips = add_single-cidr offset m in
    let (w, e) =
      index_direct-IsIndex (add_single offset m) es (add_single-IsIndex offset m v (omega arith))
        (omega (arith, one, same)) in
    (w, omega (arith, e, one, same))
index_direct-IsIndex m (cidr start size ∷ es) v h =
    let total = add_block-total start size m (omega arith) in
    let same : (add_block start size m).total_singles ≡ m.total_singles =
      add_block-singles start size m in
    let (w, e) =
      index_direct-IsIndex (add_block start size m) es
        (add_block-IsIndex start size m v (omega arith)) (omega (arith, total, same)) in
    (w, omega (arith, e, total, same))

-- In the other branch a quota is a share of the largest uint64: all quotas together stay below it.
quota-share : (total : ℕ) (e : RawEntry) → quota total e * total ≤ raw_size e * max_uint64
unfolding quota
quota-share total e = div-mul-le_self (raw_size e * max_uint64) total

abbrev Share : ℕ → ℕ → MasterIndexer → Type 0
Share total done m = (m.total_cidr_ips + m.total_singles) * total ≤ done * max_uint64

share_fits :
    (total done x : ℕ) → 0 < total → done ≤ total → x * total ≤ done * max_uint64 → x ≤ max_uint64
share_fits total done x t d h = le_of_mul-le-mul_right {k = total} (grind arith) t

-- The totals after one more entry of the given size, of which the quota q was taken.
share_grows :
    (total done size x q : ℕ)
    → x * total ≤ done * max_uint64
    → q * total ≤ size * max_uint64
    → (x + q) * total ≤ (done + size) * max_uint64
share_grows total done size x q h k = omega arith

abbrev Indexed : ℕ → ℕ → MasterIndexer → Type 0
Indexed total done m = IsIndex m × Share total done m

Indexed-kept :
    (total done size : ℕ) (m : MasterIndexer) → Indexed total done m → Indexed total (done + size) m
Indexed-kept total done size m (v, h) = (v, omega arith)

add_quota-Indexed :
    (draw : ℕ → ℕ → ℕ) (total done : ℕ) (m : MasterIndexer) (e : RawEntry)
    → 0 < total
    → done + raw_size e ≤ total
    → Indexed total done m
    → Indexed total (done + raw_size e) (add_quota draw total m e)
unfolding add_quota
add_quota-Indexed draw total done m (single offset) t d (v, h) =
    let q = quota total (single offset) in
    let P = Indexed total (done + 1) in
    let kept = Indexed-kept total done 1 m (v, h) in
    if-elim P (not (leb q max_uint64)) (λ _. kept)
      λ _.
        if-elim P (q == 0) (λ _. kept)
          λ some_quota.
            let unit : 1 * total ≤ q * total =
              mul-le-mul_right {m = 1} {n = q} total (ground arith) in
            let share =
              share_grows total done 1 (m.total_cidr_ips + m.total_singles) 1 h
                (le_trans unit (quota-share total (single offset))) in
            let room : m.total_cidr_ips + m.total_singles + 1 ≤ max_uint64 =
              share_fits total (done + 1) _ t d share in
            let one = add_single-total offset m (omega arith) in
            let same = add_single-cidr offset m in
            (add_single-IsIndex offset m v room, rw (one, same) (rw (← add_assoc) share))
add_quota-Indexed draw total done m (cidr start size) t d (v, h) =
    let q = quota total (cidr start size) in
    let P = Indexed total (done + size) in
    let kept = Indexed-kept total done size m (v, h) in
    if-elim P (not (leb q max_uint64)) (λ _. kept)
      λ _.
        if-elim P (q == 0) (λ _. kept)
          λ some_quota.
            let from = add_big_offset start (random_offset draw (length m.cidr_blocks) size q) in
            let share =
              share_grows total done size (m.total_cidr_ips + m.total_singles) q h
                (quota-share total (cidr start size)) in
            let room : m.total_cidr_ips + m.total_singles + q ≤ max_uint64 =
              share_fits total (done + size) _ t d share in
            let sum = add_block-total from q m (omega arith) in
            let same = add_block-singles from q m in
            (
              add_block-IsIndex from q m v room,
              rw (sum, same, add_right_comm m.total_cidr_ips q m.total_singles) share,
            )

index_quota-IsIndex :
    (draw : ℕ → ℕ → ℕ) (total done : ℕ) (m : MasterIndexer) (es : List RawEntry)
    → 0 < total
    → done + total_count es ≡ total
    → Indexed total done m
    → IsIndex (index_quota draw total m es)
unfolding index_quota total_count
index_quota-IsIndex draw total done m [] t d h = h.0
index_quota-IsIndex draw total done m (e ∷ es) t d h =
    index_quota-IsIndex draw total (done + raw_size e) (add_quota draw total m e) es t (omega arith)
      (add_quota-Indexed draw total done m e t (omega arith) h)

pub empty-IsIndex : IsIndex empty_indexer
empty-IsIndex = record { tiled = refl; singles = refl; fits = omega arith }

-- A complete index, with its grand total.
abbrev pub IsComplete : MasterIndexer → Type 0
IsComplete m =
    Tiled 0 m.cidr_blocks m.total_cidr_ips
    × (m.total_singles ≡ length m.single_offsets)
    × (m.grand_total ≡ m.total_cidr_ips + m.total_singles)
    × (m.grand_total ≤ max_uint64)

pub with_grand_total-IsComplete : (m : MasterIndexer) → IsIndex m → IsComplete (with_grand_total m)
unfolding with_grand_total
with_grand_total-IsComplete m v =
    let sum = saturating_add-min m.total_cidr_ips m.total_singles (omega arith) (omega arith) in
    (v.tiled, v.singles, omega (arith, sum), omega (arith, sum))

-- The index of any file, with any random offsets: its blocks cover the numbers below TotalCIDRIPs
-- in order, without a gap or an overlap; TotalSingles counts the recorded lines; and GrandTotal
-- is their exact sum, at most the largest uint64.
pub new_master_indexer-IsComplete :
    (draw : ℕ → ℕ → ℕ) (rows : List (Entry × ℕ)) → IsComplete (new_master_indexer draw rows)
unfolding new_master_indexer
new_master_indexer-IsComplete draw rows =
    let es = raw_entries rows in
    let total = total_count es in
    if-elim IsComplete (total == 0) (λ _. (refl, refl, refl, omega arith))
      λ nonzero. with_grand_total-IsComplete _ (
        if-elim IsIndex (leb total max_uint64)
          (λ small. (index_direct-IsIndex empty_indexer es empty-IsIndex (ground arith)).0)
          λ large.
            index_quota-IsIndex draw total 0 empty_indexer es (ground arith) (omega arith)
              (empty-IsIndex, omega arith))
