-- ===== src/Iplist/Addr.antt =====
-- The part of net/netip that internal/core/iplist uses: an address with its family and value, its
-- 16-byte form, and prefixes. Zones and the zero `netip.Addr` do not occur in the lists.
use bgscan.Base.{
  ℕ, zero, suc, ◌+◌, ◌-◌, ◌*◌, ◌/◌, ◌%◌, ◌^◌, ◌<◌, Bool, false, Option, none, some, List, [], ◌∷◌,
  ltb, ◌==◌, if◌then◌else◌,
}
use bgscan.Base.Arith.{u32_mod, u128_mod}

-- An IPv4 address below 2^32, or an IPv6 address below 2^128.
pub data Addr : Type 0 where
  v4 : ℕ → Addr
  v6 : ℕ → Addr

abbrev pub IsAddr : Addr → Type 0
IsAddr (v4 n) = n < u32_mod
IsAddr (v6 n) = n < u128_mod

abbrev pub bit_len : Addr → ℕ
bit_len (v4 n) = 32
bit_len (v6 n) = 128

abbrev pub value : Addr → ℕ
value (v4 n) = n
value (v6 n) = n

-- The bytes of a number, the least significant first: index 15 of a 16-byte array is the head.
unfoldable pub to_bytes : ℕ → ℕ → List ℕ
to_bytes zero n = []
to_bytes (suc k) n = (n % 256) ∷ to_bytes k (n / 256)

unfoldable pub of_bytes : List ℕ → ℕ
of_bytes [] = 0
of_bytes (b ∷ bs) = b + 256 * of_bytes bs

-- The numbers of the IPv4-mapped IPv6 addresses, ::ffff:0:0/96, start here.
abbrev pub mapped_base : ℕ
mapped_base = 0xffff_0000_0000

-- netip.Addr.As16: an IPv4 address in its IPv4-mapped form.
unfoldable pub as16 : Addr → List ℕ
unfolding to_bytes
as16 (v4 n) = to_bytes 16 (mapped_base + n)
as16 (v6 n) = to_bytes 16 n

-- netip.Addr.Unmap on an IPv6 address of this value.
unfoldable pub unmap : ℕ → Addr
unmap n = if n / u32_mod == 0xffff then v4 (n % u32_mod) else v6 n

-- netip.AddrFromSlice on 16 bytes, followed by Unmap.
unfoldable pub from_slice_unmap : List ℕ → Addr
unfolding of_bytes unmap
from_slice_unmap bs = unmap (of_bytes bs)

-- netip.Addr.Next; none stands for the invalid address.
unfoldable pub next : Addr → Option Addr
next (v4 n) = if ltb (n + 1) u32_mod then some (v4 (n + 1)) else none
next (v6 n) = if ltb (n + 1) u128_mod then some (v6 (n + 1)) else none

-- netip.Prefix: an address and the number of its leading bits that are fixed.
pub record Prefix : Type 0 where
  pub addr : Addr
  pub bits : ℕ

abbrev pub IsPrefix : Prefix → Type 0
IsPrefix p = IsAddr p.addr × (p.bits < bit_len p.addr + 1)

-- How many bits of the address are free.
abbrev pub host_bits : Prefix → ℕ
host_bits p = bit_len p.addr - p.bits

abbrev pub at_value : Addr → ℕ → Addr
at_value (v4 m) n = v4 n
at_value (v6 m) n = v6 n

-- netip.Prefix.Masked: the free bits are cleared.
unfoldable pub masked : Prefix → Prefix
masked p = record p { addr = at_value p.addr (value p.addr / 2 ^ host_bits p * 2 ^ host_bits p) }

-- Whether two addresses have one family and agree but for the last k bits.
unfoldable pub same_bits : ℕ → Addr → Addr → Bool
same_bits k (v4 m) (v4 n) = m / 2 ^ k == n / 2 ^ k
same_bits k (v6 m) (v6 n) = m / 2 ^ k == n / 2 ^ k
same_bits k _ _ = false

-- netip.Prefix.Contains.
unfoldable pub contains : Prefix → Addr → Bool
unfolding same_bits
contains p a = same_bits (host_bits p) p.addr a
