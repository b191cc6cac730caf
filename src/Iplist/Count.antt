-- ===== src/Iplist/Count.antt =====
-- internal/core/iplist/type.go: the entries of a list; loader.go: countIPEntry, CountIPs and
-- CountActiveIPs, over the entries that ReadCSV hands to the callback.
use native.Mathlib.Nat.{pow-le-pow_right}
use bgscan.Base.{
  ℕ, ◌+◌, ◌%◌, ◌^◌, ◌≤◌, ◌<◌, min, ◌≡◌, ◌∙◌, Bool, ◌||◌, not, List, [], ◌∷◌, leb, ◌==◌,
  if◌then◌else◌, arith, Bool-cases, inl, inr,
}
use bgscan.Base.Arith.{u64_mod, max_uint64}
use bgscan.Iplist.Addr.{Prefix, host_bits, bit_len}
use bgscan.Iplist.Offset.{saturating_add, saturating_add-min}

pub record Entry : Type 0 where
  pub ip : Prefix
  pub enable : Bool

-- IPList.IsSingle: every bit of the address is fixed.
unfoldable pub is_single : Entry → Bool
is_single e = e.ip.bits == bit_len e.ip.addr

unfoldable pub count_ip_entry : Prefix → ℕ
count_ip_entry p = if leb 64 (host_bits p) then max_uint64 else 2 ^ host_bits p % u64_mod

-- The callback of CountIPs, folded over the rows.
unfoldable pub count_ips_from : ℕ → List Entry → ℕ
count_ips_from total [] = total
count_ips_from total (e ∷ es) = count_ips_from (saturating_add total (count_ip_entry e.ip)) es

unfoldable pub count_ips : List Entry → ℕ
unfolding count_ips_from
count_ips es = count_ips_from 0 es

-- The callback of CountActiveIPs: rows that are off are skipped, and so is every row once the
-- total has reached its maximum.
unfoldable pub count_active_row : ℕ → Entry → ℕ
count_active_row total e =
    if not e.enable || total == max_uint64
    then total
    else saturating_add total (count_ip_entry e.ip)

unfoldable pub count_active_ips_from : ℕ → List Entry → ℕ
unfolding count_active_row
count_active_ips_from total [] = total
count_active_ips_from total (e ∷ es) = count_active_ips_from (count_active_row total e) es

unfoldable pub count_active_ips : List Entry → ℕ
unfolding count_active_ips_from
count_active_ips es = count_active_ips_from 0 es

-- The number of addresses of a prefix, and of the prefixes that are on.
abbrev pub size : Prefix → ℕ
size p = 2 ^ host_bits p

abbrev pub total_size : List Entry → ℕ
total_size [] = 0
total_size (e ∷ es) = size e.ip + total_size es

abbrev pub active_size : List Entry → ℕ
active_size [] = 0
active_size (e ∷ es) = (if e.enable then size e.ip else 0) + active_size es

-- countIPEntry is the number of addresses of the prefix, capped at the largest uint64.
count_ip_entry-min : (p : Prefix) → count_ip_entry p ≡ min (size p) max_uint64
unfolding count_ip_entry
count_ip_entry-min p = elim (Bool-cases (leb 64 (host_bits p))) [
  | inl e ↦
      let big : 2 ^ 64 ≤ 2 ^ host_bits p =
        pow-le-pow_right (omega arith) {i = 64} {j = host_bits p} (ground arith) in
      rw e (omega arith)
  | inr e ↦
      let small : 2 ^ host_bits p ≤ 2 ^ 63 =
        pow-le-pow_right (omega arith) {i = host_bits p} {j = 63} (ground arith) in
      rw e (omega arith)
]

count_ips_from-min :
    (t : ℕ) (es : List Entry)
    → t < u64_mod
    → count_ips_from t es ≡ min (t + total_size es) max_uint64
unfolding count_ips_from
count_ips_from-min t [] h = omega arith
count_ips_from-min t (e ∷ es) h =
    let c = count_ip_entry-min e.ip in
    let s = saturating_add-min t (count_ip_entry e.ip) h (omega arith) in
    count_ips_from-min (saturating_add t (count_ip_entry e.ip)) es (omega arith) ∙ omega arith

-- CountIPs is the number of addresses of all rows, counted with multiplicity and capped at the
-- largest uint64.
pub count_ips-min : (es : List Entry) → count_ips es ≡ min (total_size es) max_uint64
unfolding count_ips
count_ips-min es = count_ips_from-min 0 es (omega arith) ∙ omega arith

count_active_row-min :
    (t : ℕ) (e : Entry)
    → t < u64_mod
    → count_active_row t e ≡ min (t + (if e.enable then size e.ip else 0)) max_uint64
unfolding count_active_row
count_active_row-min t e h =
    ground (arith, count_ip_entry-min e.ip, saturating_add-min t (count_ip_entry e.ip) h)

count_active_ips_from-min :
    (t : ℕ) (es : List Entry)
    → t < u64_mod
    → count_active_ips_from t es ≡ min (t + active_size es) max_uint64
unfolding count_active_ips_from
count_active_ips_from-min t [] h = omega arith
count_active_ips_from-min t (e ∷ es) h =
    let row = count_active_row-min t e h in
    count_active_ips_from-min (count_active_row t e) es (omega arith) ∙ omega arith

-- CountActiveIPs is the number of addresses of the rows that are on, counted with multiplicity
-- and capped at the largest uint64: the early stop at the cap loses nothing.
pub count_active_ips-min : (es : List Entry) → count_active_ips es ≡ min (active_size es) max_uint64
unfolding count_active_ips
count_active_ips-min es = count_active_ips_from-min 0 es (omega arith) ∙ omega arith
