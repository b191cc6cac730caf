-- ===== src/Iplist/Tests.antt =====
-- The theorems on internal/core/iplist at concrete lists, and runs of the code.
use mathlib.Core.List.{Perm}
use bgscan.Base.{
  ℕ, suc, ◌+◌, ◌-◌, ◌%◌, ◌^◌, ◌≤◌, ◌<◌, ◌≡◌, ◌≢◌, refl, arith, true, false, Bool, ltb, ◌⊎◌, List,
  [], ◌∷◌, Option, some, none, length, take, get_elem?,
}
use bgscan.Base.Arith.{u128_mod, max_uint64}
use bgscan.Iplist.Addr.{Addr, v4, v6, Prefix, mapped_base, masked, unmap}
use bgscan.Iplist.Offset.{
  add_offset_to_addr, add_big_offset, add_big_offset_lem, add_offset_to_addr-eq,
}
use bgscan.Iplist.Count.{Entry, count_active_ips, count_active_ips-min}
use bgscan.Iplist.Stream.{finished, stopped, stream_cidr, stream_active_ips_sequential}
use bgscan.Iplist.Stream.Cidr.{stream_cidr-sends}
use bgscan.Iplist.Stream.Sequential.{targets, stream_active_ips_sequential-sends}
use bgscan.Iplist.Index.{CidrBlock, MasterIndexer, raw_entries, total_count, new_master_indexer}
use bgscan.Iplist.Index.Tiling.{IsComplete, new_master_indexer-IsComplete}
use bgscan.Iplist.Index.Quota.{new_master_indexer-no_singles}
use bgscan.Iplist.Index.Search.{
  get_ip_from_cidr_blocks, get_ip_from_cidr_blocks-enumerate, enumerate,
}
use bgscan.Config.Texts.{Text, codes}
use bgscan.Fileutil.{sort_in_memory, sort_lines}
use bgscan.Iplist.Import.{import_ip_list_map, import_ip_list_disk, imported, has, read_rows}
use bgscan.Iplist.Import.Distinct.{
  never, prefixes, masked_prefixes, Distinct, limited, import_ip_list_map-Distinct,
  import_ip_list_map-limited,
}
use bgscan.Iplist.Import.Grouped.{import_ip_list_disk-map}
use bgscan.Iplist.Lcg.{below, orbit, orbit-perm}
use bgscan.Iplist.Shuffle.{stream_active_ips_shuffled, done, m_size, m_bits}
use bgscan.Iplist.Shuffle.Modulus.{m_size-fits, state_bits}
use bgscan.Iplist.Shuffle.Covers.{stream_active_ips_shuffled-perm, index_targets, no_ctx}

-- 10.0.0.4/30 and 192.168.1.1, both on, and 10.0.0.0/8, off.
abbrev quad_range : Prefix
quad_range = record { addr = v4 0x0a00_0006; bits = 30 }

abbrev host : Prefix
host = record { addr = v4 0xc0a8_0101; bits = 32 }

abbrev some_rows : List Entry
some_rows =
    record { ip = quad_range; enable = true }
    ∷ record { ip = host; enable = true }
    ∷ record { ip = record { addr = v4 0x0a00_0000; bits = 8 }; enable = false }
    ∷ []

abbrev some_file : List (Entry × ℕ)
some_file =
    (record { ip = quad_range; enable = true }, 0) ∷ (record { ip = host; enable = true }, 14) ∷ []

-- A host and the range 2001:db8::/32.
abbrev huge_file : List (Entry × ℕ)
huge_file =
    (record { ip = host; enable = true }, 0)
    ∷ (
      record {
        ip = record { addr = v6 0x2001_0db8_0000_0000_0000_0000_0000_0000; bits = 32 };
        enable = true;
      },
      14,
    )
    ∷ []

abbrev first_draw : ℕ → ℕ → ℕ
first_draw k max = 0

abbrev two_blocks : List CidrBlock
two_blocks =
    record { start_ip = v4 0x0a00_0000; total_ips = 4; global_idx = 0 }
    ∷ record { start_ip = v4 0x0b00_0000; total_ips = 2; global_idx = 4 }
    ∷ []

abbrev two_block_index : MasterIndexer
two_block_index = record {
  cidr_blocks = two_blocks;
  single_offsets = 40 ∷ [];
  total_cidr_ips = 6;
  total_singles = 1;
  grand_total = 7;
}

abbrev read_host : ℕ → Option Addr
read_host offset = some (v4 0xc0a8_0101)

add_big_offset_lem_example :
    add_big_offset (v4 0x0a00_00ff) 1 ≡ unmap ((mapped_base + 0x0a00_00ff + 1) % u128_mod)
add_big_offset_lem_example = add_big_offset_lem (v4 0x0a00_00ff) 1 (omega arith)

add_offset_to_addr-eq_example :
    add_offset_to_addr (v4 0x0a00_00ff) 1 ≡ add_big_offset (v4 0x0a00_00ff) 1
add_offset_to_addr-eq_example = add_offset_to_addr-eq (v4 0x0a00_00ff) 1 (omega arith) (omega arith)

count_active_ips-min_example : count_active_ips some_rows ≡ 5
count_active_ips-min_example = count_active_ips-min some_rows

stream_cidr-sends_example :
    stream_cidr (λ _. false) quad_range 3 1
    ≡ record { out = v4 0x0a00_0004 ∷ v4 0x0a00_0005 ∷ []; count = 3; status = finished }
unfolding masked
stream_cidr-sends_example =
    stream_cidr-sends quad_range 3 1 (omega arith, omega arith) (omega arith) (omega arith)
      (omega arith)

stream_active_ips_sequential-sends_example :
    let s = stream_active_ips_sequential (λ _. false) 0 some_rows in
    (s.out ≡ take (max_uint64 - 1) (targets some_rows))
    × (s.count ≡ length s.out)
    × ((s.status ≡ finished) ⊎ (s.status ≡ stopped))
stream_active_ips_sequential-sends_example =
    stream_active_ips_sequential-sends 0 some_rows
      ((omega arith, omega arith), ((omega arith, omega arith), ((omega arith, omega arith), tt)))
      (omega arith)

new_master_indexer-IsComplete_example : IsComplete (new_master_indexer first_draw some_file)
new_master_indexer-IsComplete_example = new_master_indexer-IsComplete first_draw some_file

new_master_indexer-no_singles_example :
    ((new_master_indexer first_draw huge_file).single_offsets ≡ [])
    × ((new_master_indexer first_draw huge_file).grand_total
        ≡ (new_master_indexer first_draw huge_file).total_cidr_ips)
unfolding raw_entries total_count masked
new_master_indexer-no_singles_example =
    new_master_indexer-no_singles first_draw huge_file (omega arith)

abbrev last_draw : ℕ → ℕ → ℕ
last_draw k max = max - 1

get_ip_from_cidr_blocks-enumerate_example :
    (get_ip_from_cidr_blocks two_blocks 5 ≡ get_elem? (enumerate two_blocks) 5)
    × (get_ip_from_cidr_blocks two_blocks 5 ≢ none)
get_ip_from_cidr_blocks-enumerate_example =
    get_ip_from_cidr_blocks-enumerate two_blocks 6 5 (refl, (refl, refl)) (omega arith)
      (omega arith)

orbit-perm_example : Perm (below 8) (orbit 8 8 5)
orbit-perm_example = orbit-perm 3 5

m_size-fits_example : (m_size 5 ≡ 2 ^ m_bits 5) × (5 ≤ m_size 5) × (m_size 5 < 10) × (m_bits 5 ≤ 64)
m_size-fits_example = m_size-fits 5 (omega arith) (omega arith)

stream_active_ips_shuffled-perm_example :
    (sent : List Addr) × Perm (index_targets read_host two_block_index) sent
    × (stream_active_ips_shuffled read_host no_ctx no_ctx two_block_index 4
          (suc (2 ^ state_bits 7))
          12345
        ≡ record { out = take 4 sent; outcome = done })
stream_active_ips_shuffled-perm_example =
    stream_active_ips_shuffled-perm read_host two_block_index 4 12345
      ((refl, (refl, refl)), refl, refl, omega arith) (omega arith) (omega arith)

-- 10.0.0.1/8 twice, together, and a host.
abbrev range_of_8 : ℕ → Entry
range_of_8 n = record { ip = record { addr = v4 n; bits = 8 }; enable = true }

abbrev repeated_rows : List Entry
repeated_rows =
    range_of_8 0x0a00_0001 ∷ range_of_8 0x0a00_0002 ∷ record { ip = host; enable = true } ∷ []

import_ip_list_map-Distinct_example :
    let w = import_ip_list_map never 0 repeated_rows in
    (w.status ≡ imported)
    × Distinct (prefixes w.rows)
    × (has host (prefixes w.rows) ≡ has host (masked_prefixes repeated_rows))
import_ip_list_map-Distinct_example = import_ip_list_map-Distinct repeated_rows host

import_ip_list_map-limited_example :
    import_ip_list_map never 1 repeated_rows
    ≡ limited 1 (import_ip_list_map never 0 repeated_rows).rows
import_ip_list_map-limited_example = import_ip_list_map-limited 1 repeated_rows (omega arith)

-- A reader of lines like 10.0.0.1/8, by their eighth and tenth characters.
abbrev read_line : Text → Option Entry
read_line (c1 ∷ c0 ∷ d1 ∷ c2 ∷ d2 ∷ c3 ∷ d3 ∷ last ∷ slash ∷ bits ∷ []) = some (record {
  ip = record { addr = v4 (0x0a00_0000 + (last - 48)); bits = bits - 48 };
  enable = true;
})
read_line l = none

abbrev short : Text → Bool
short l = ltb (length l) 64

abbrev grouped_lines : List Text
grouped_lines =
    codes "10.0.0.2/8" ∷ codes "10.0.0.1/8" ∷ codes "10.0.0.3/9" ∷ codes "10.0.0.1/8" ∷ []

abbrev of_8 : Prefix
of_8 = record { addr = v4 0x0a00_0000; bits = 8 }

import_ip_list_disk-map_example :
    let w = import_ip_list_disk read_line short never 43 grouped_lines in
    (w ≡ import_ip_list_map never 0 (read_rows read_line (sort_lines grouped_lines)))
    × Distinct (prefixes w.rows)
    × (has of_8 (prefixes w.rows)
        ≡ has of_8 (prefixes (import_ip_list_map never 0 (read_rows read_line grouped_lines)).rows))
unfolding masked sort_lines
import_ip_list_disk-map_example =
    import_ip_list_disk-map read_line short 43 grouped_lines of_8 (refl, (refl, (refl, (refl, tt))))
      (λ e. cc) (refl, (refl, (refl, (refl, tt))))

-- 10.0.0.1/8, 10.0.0.2/8 and 10.0.0.1/9 are sorted apart: the disk strategy writes 10.0.0.0/8 twice.
abbrev parted_lines : List Text
parted_lines = codes "10.0.0.1/8" ∷ codes "10.0.0.2/8" ∷ codes "10.0.0.1/9" ∷ []

written_twice : length (import_ip_list_disk read_line short never 32 parted_lines).rows ≡ 3
unfolding import_ip_list_disk masked sort_in_memory sort_lines
written_twice = refl

written_once : length (import_ip_list_map never 0 (read_rows read_line parted_lines)).rows ≡ 2
unfolding import_ip_list_map masked
written_once = refl
