-- ===== src/Iplist/Shuffle.antt =====
-- internal/core/iplist/shuffle.go: streamActiveIPsShuffled on an index, and readIPAtCSVOffset.
-- The channel `out` is the list of what was sent. Each round polls ctx.Done() once, and the
-- `select` of a send asks it again: `polled r` and `refused r` say that round r finds it closed.
pub mod Modulus
pub mod Visits
pub mod Covers
use Prim.Native.Nat.{bit_and}
use bgscan.Base.{
  ℕ, zero, suc, ◌+◌, ◌-◌, ◌*◌, ◌/◌, ◌%◌, ◌^◌, ◌≤◌, ◌<◌, ◌≡◌, Bool, true, false, ◌&&◌, List, [], ◌∷◌,
  Option, none, some, leb, ltb, ◌==◌, if◌then◌else◌, get_elem?,
}
use bgscan.Base.Arith.{u64_mod, max_uint64}
use bgscan.Iplist.Addr.{Addr}
use bgscan.Iplist.Lcg.{lcg_a, lcg_c}
use bgscan.Iplist.Index.{MasterIndexer}
use bgscan.Iplist.Index.Quota.{bit_len_from}
use bgscan.Iplist.Index.Search.{get_ip_from_cidr_blocks}

-- bits.Len64.
unfoldable pub len64 : ℕ → ℕ
unfolding bit_len_from
len64 n = bit_len_from n n

unfoldable pub use_full_uint64 : ℕ → Bool
use_full_uint64 grand_total = ltb (2 ^ 63) grand_total

-- mBits and mSize, the smallest power of two that is at least GrandTotal.
unfoldable pub m_bits : ℕ → ℕ
unfolding len64
m_bits grand_total =
    if bit_and grand_total (grand_total - 1) == 0 then len64 grand_total - 1 else len64 grand_total

unfoldable pub m_size : ℕ → ℕ
unfolding m_bits
m_size grand_total = 2 ^ m_bits grand_total % u64_mod

-- The first state, from what rng.Uint64 returns.
unfoldable pub first_state : ℕ → ℕ → ℕ
unfolding use_full_uint64 m_size
first_state grand_total drawn =
    if use_full_uint64 grand_total then drawn else drawn % m_size grand_total

unfoldable pub next_state : ℕ → ℕ → ℕ
unfolding use_full_uint64 m_size
next_state grand_total state =
    let wrapped = (state * lcg_a % u64_mod + lcg_c) % u64_mod in
    if use_full_uint64 grand_total then wrapped else wrapped % m_size grand_total

pub data Outcome : Type 0 where
  done cancelled panic out_of_fuel : Outcome

pub record Streamed : Type 0 where
  pub out : List Addr
  pub outcome : Outcome

-- What one number leads to: an address, a line that cannot be read, or an index out of range.
pub data Target : Type 0 where
  address : Addr → Target
  unreadable : Target
  out_of_range : Target

abbrev pub to_target : Option Addr → Target → Target
to_target none t = t
to_target (some a) t = address a

-- `read offset` is readIPAtCSVOffset at a byte offset of the file.
unfoldable pub target_of : (ℕ → Option Addr) → MasterIndexer → ℕ → Target
target_of read m state =
    if ltb state m.total_cidr_ips
    then to_target (get_ip_from_cidr_blocks m.cidr_blocks state) out_of_range
    else elim (get_elem? m.single_offsets (state - m.total_cidr_ips)) [
      | none ↦ out_of_range
      | some offset ↦ to_target (read offset) unreadable
    ]

-- The end of a round that has found a number of the index.
unfoldable pub visit : Bool → Target → Streamed → Streamed → Streamed
visit refused (address a) missed sent =
    if refused then record { out = []; outcome = cancelled } else record sent { out = a ∷ sent.out }
visit refused unreadable missed sent = missed
visit refused out_of_range missed sent = record { out = []; outcome = panic }

module _ (read : ℕ → Option Addr) (polled refused : ℕ → Bool) (m : MasterIndexer) (limit : ℕ) where
  -- The rounds of the loop, from round r on.
  unfoldable pub stream_rounds : ℕ → ℕ → ℕ → ℕ → ℕ → Streamed
  stream_rounds zero r state dispatched count = record { out = []; outcome = out_of_fuel }
  stream_rounds (suc fuel) r state dispatched count =
      let state' = next_state m.grand_total state in
      let skip = stream_rounds fuel (r + 1) state' dispatched count in
      let missed = stream_rounds fuel (r + 1) state' ((dispatched + 1) % u64_mod) count in
      let sent =
        stream_rounds fuel (r + 1) state' ((dispatched + 1) % u64_mod) ((count + 1) % u64_mod) in
      if leb m.grand_total dispatched
      then record { out = []; outcome = done }
      else if ltb 0 limit && leb limit count
      then record { out = []; outcome = done }
      else if polled r
      then record { out = []; outcome = cancelled }
      else if leb m.grand_total state'
      then skip
      else visit (refused r) (target_of read m state') missed sent

  -- streamActiveIPsShuffled after the index is built, from what the random source draws.
  unfoldable pub stream_active_ips_shuffled : ℕ → ℕ → Streamed
  stream_active_ips_shuffled fuel drawn =
      if m.grand_total == 0
      then record { out = []; outcome = done }
      else stream_rounds fuel 0 (first_state m.grand_total drawn) 0 0
