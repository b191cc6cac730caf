-- ===== src/Iplist/Stream.antt =====
-- internal/core/iplist/parser.go: StreamCIDR and the sequential branch of StreamActiveIPs.
-- The channel `out` is the list of what was sent. A `select` between a send and ctx.Done() asks
-- `ctx`: `ctx k` says that after k sends the branch of ctx.Done() is taken.
pub mod Cidr
pub mod Sequential
use native.Mathlib.Nat.{
  mul-pos, mod-eq_of_lt, div-lt_iff_lt-mul, mul-le-mul_right, mul_comm, div-eq_of_lt-le,
  add-div_right, add-zero, mul-div_cancel,
}
use bgscan.Base.{
  ℕ, zero, suc, ◌+◌, ◌-◌, ◌*◌, ◌/◌, ◌%◌, ◌^◌, ◌≤◌, ◌<◌, min, ◌≡◌, refl, sym, ap, ◌∙◌, Bool, true,
  false, ◌&&◌, not, List, [], ◌∷◌, ◌++◌, Option, none, some, leb, ltb, ◌==◌, if◌then◌else◌, arith,
  Bool-cases, inl, inr, ltb→lt, ltb→le, lt→ltb, ne→==, ==-iff,
}
use bgscan.Base.Arith.{u64_mod, max_uint64, two-pow_pos, pow-add}
use bgscan.Iplist.Addr.{
  Addr, v4, v6, IsAddr, Prefix, IsPrefix, host_bits, bit_len, value, at_value, masked, same_bits,
  contains, next,
}
use bgscan.Iplist.Count.{Entry, is_single, size}

pub data Status : Type 0 where
  finished cancelled stopped out_of_fuel : Status

-- What was sent, the counter after it, and how the loop ended: `cancelled` is ctx.Err(), and
-- `stopped` the io.EOF with which a callback ends the reading of a file.
pub record Sent : Type 0 where
  pub out : List Addr
  pub count : ℕ
  pub status : Status

abbrev pub emit : Addr → Sent → Sent
emit a s = record s { out = a ∷ s.out }

-- The end of a round: the loop breaks where the address has no next one.
unfoldable pub stream_next : (Addr → Sent) → ℕ → Option Addr → Sent
stream_next again count none = record { out = []; count = count; status = finished }
stream_next again count (some a) = again a

-- The loop of StreamCIDR at the address `curr`; the uint64 counter wraps.
unfoldable pub stream_loop : ℕ → (ℕ → Bool) → Prefix → ℕ → Addr → ℕ → Sent
stream_loop zero ctx p limit curr count = record { out = []; count = count; status = out_of_fuel }
stream_loop (suc fuel) ctx p limit curr count =
    let counted = (count + 1) % u64_mod in
    let rest = stream_next (λ a. stream_loop fuel ctx p limit a counted) counted (next curr) in
    if not (contains p curr)
    then record { out = []; count = count; status = finished }
    else if ltb 0 limit && leb limit count
    then record { out = []; count = count; status = finished }
    else if ctx count
    then record { out = []; count = count; status = cancelled }
    else emit curr rest

-- StreamCIDR. The fuel is one round more than the prefix has addresses.
unfoldable pub stream_cidr : (ℕ → Bool) → Prefix → ℕ → ℕ → Sent
unfolding stream_loop
stream_cidr ctx prefix limit count =
    let p = masked prefix in stream_loop (suc (size p)) ctx p limit p.addr count

-- The n addresses from number v on, in the family of an address.
abbrev pub addrs : Addr → ℕ → ℕ → List Addr
addrs a v zero = []
addrs a v (suc n) = at_value a v ∷ addrs a (v + 1) n

-- The callback of streamActiveIPsSequential on one row.
unfoldable pub stream_row : (ℕ → Bool) → ℕ → Entry → ℕ → Sent
stream_row ctx limit row count =
    if not row.enable
    then record { out = []; count = count; status = finished }
    else if ltb 0 limit && leb limit count
    then record { out = []; count = count; status = stopped }
    else if not (is_single row)
    then stream_cidr ctx row.ip limit count
    else if ctx count
    then record { out = []; count = count; status = cancelled }
    else record { out = row.ip.addr ∷ []; count = (count + 1) % u64_mod; status = finished }

-- The rows after one: the reader goes on where the callback returned nil.
unfoldable pub then_rows : (ℕ → Sent) → Sent → Sent
then_rows rest s = elim s.status [
  | finished ↦ let r = rest s.count in record r { out = s.out ++ r.out }
  | _ ↦ s
]

unfoldable pub stream_rows : (ℕ → Bool) → ℕ → List Entry → ℕ → Sent
stream_rows ctx limit [] count = record { out = []; count = count; status = finished }
stream_rows ctx limit (row ∷ rows) count =
    then_rows (stream_rows ctx limit rows) (stream_row ctx limit row count)

-- streamActiveIPsSequential under StreamActiveIPs, which reads the limit 0 as MaxUint64 - 1. The
-- statuses `finished` and `stopped` are the error nil.
unfoldable pub stream_active_ips_sequential : (ℕ → Bool) → ℕ → List Entry → Sent
stream_active_ips_sequential ctx limit rows =
    stream_rows ctx (if limit == 0 then max_uint64 - 1 else limit) rows 0
