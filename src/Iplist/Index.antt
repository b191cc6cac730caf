-- ===== src/Iplist/Index.antt =====
-- internal/core/iplist/shuffle.go: NewMasterIndexer and the types of type.go that it builds.
-- The file is the list of its parsed rows with the byte offset of each line.
pub mod Tiling
pub mod Quota
pub mod Search
use bgscan.Base.{
  ℕ, zero, suc, ◌+◌, ◌-◌, ◌*◌, ◌/◌, ◌%◌, ◌^◌, ◌≤◌, ◌<◌, ◌≡◌, refl, Bool, true, false, not, List, [],
  ◌∷◌, ◌++◌, leb, ltb, ◌==◌, if◌then◌else◌, length,
}
use bgscan.Base.Arith.{u64_mod, max_uint64}
use bgscan.Iplist.Addr.{Addr, Prefix, host_bits, masked}
use bgscan.Iplist.Count.{Entry, is_single}
use bgscan.Iplist.Offset.{saturating_add, add_big_offset}

pub record CidrBlock : Type 0 where
  pub start_ip : Addr
  pub total_ips : ℕ
  pub global_idx : ℕ

pub record MasterIndexer : Type 0 where
  pub cidr_blocks : List CidrBlock
  pub single_offsets : List ℕ
  pub total_cidr_ips : ℕ
  pub total_singles : ℕ
  pub grand_total : ℕ

abbrev pub empty_indexer : MasterIndexer
empty_indexer = record {
  cidr_blocks = [];
  single_offsets = [];
  total_cidr_ips = 0;
  total_singles = 0;
  grand_total = 0;
}

-- rawEntry, by its flag isCIDR: a line with one address, of size 1, or a range of a size.
pub data RawEntry : Type 0 where
  single : ℕ → RawEntry
  cidr : Addr → ℕ → RawEntry

abbrev pub raw_size : RawEntry → ℕ
raw_size (single offset) = 1
raw_size (cidr start size) = size

-- The first loop: the rows that are on, as entries; sizes are big integers.
unfoldable pub raw_entries : List (Entry × ℕ) → List RawEntry
unfolding is_single
raw_entries [] = []
raw_entries ((row, offset) ∷ rows) =
    let rest = raw_entries rows in
    if not row.enable
    then rest
    else if is_single row
    then single offset ∷ rest
    else cidr (masked row.ip).addr (2 ^ host_bits row.ip) ∷ rest

unfoldable pub total_count : List RawEntry → ℕ
total_count [] = 0
total_count (e ∷ es) = raw_size e + total_count es

unfoldable pub add_single : ℕ → MasterIndexer → MasterIndexer
add_single offset m = record m {
  single_offsets = m.single_offsets ++ offset ∷ [];
  total_singles = (m.total_singles + 1) % u64_mod;
}

-- The variable globalIdx of the source is at all times the field TotalCIDRIPs.
unfoldable pub add_block : Addr → ℕ → MasterIndexer → MasterIndexer
add_block start count m = record m {
  cidr_blocks =
      m.cidr_blocks
      ++ record { start_ip = start; total_ips = count; global_idx = m.total_cidr_ips } ∷ [];
  total_cidr_ips = saturating_add m.total_cidr_ips count;
}

-- The branch where the total fits in a uint64.
unfoldable pub index_direct : MasterIndexer → List RawEntry → MasterIndexer
index_direct m [] = m
index_direct m (single offset ∷ es) = index_direct (add_single offset m) es
index_direct m (cidr start size ∷ es) = index_direct (add_block start size m) es

-- The other branch. `draw k max` stands for the k-th call of randBigIntBelow.
unfoldable pub quota : ℕ → RawEntry → ℕ
quota total e = raw_size e * max_uint64 / total

unfoldable pub random_offset : (ℕ → ℕ → ℕ) → ℕ → ℕ → ℕ → ℕ
random_offset draw k size q = if ltb q size then draw k (size - q) else 0

unfoldable pub add_quota : (ℕ → ℕ → ℕ) → ℕ → MasterIndexer → RawEntry → MasterIndexer
unfolding quota
add_quota draw total m (single offset) =
    let q = quota total (single offset) in
    if not (leb q max_uint64) then m else if q == 0 then m else add_single offset m
add_quota draw total m (cidr start size) =
    let q = quota total (cidr start size) in
    let from = random_offset draw (length m.cidr_blocks) size q in
    if not (leb q max_uint64)
    then m
    else if q == 0
    then m
    else add_block (add_big_offset start from) q m

unfoldable pub index_quota : (ℕ → ℕ → ℕ) → ℕ → MasterIndexer → List RawEntry → MasterIndexer
index_quota draw total m [] = m
index_quota draw total m (e ∷ es) = index_quota draw total (add_quota draw total m e) es

unfoldable pub with_grand_total : MasterIndexer → MasterIndexer
with_grand_total m = record m { grand_total = saturating_add m.total_cidr_ips m.total_singles }

-- NewMasterIndexer on a file that can be read.
unfoldable pub new_master_indexer : (ℕ → ℕ → ℕ) → List (Entry × ℕ) → MasterIndexer
new_master_indexer draw rows =
    let es = raw_entries rows in
    let total = total_count es in
    if total == 0
    then empty_indexer
    else with_grand_total (
        if leb total max_uint64
        then index_direct empty_indexer es
        else index_quota draw total empty_indexer es)
