-- ===== src/Base/Arith.antt =====
-- Facts about remainders and powers at variable moduli, and the bounds of the machine integers.
use Prim.Native.Nat.{ℕ, zero, suc, ◌+◌, ◌*◌, ◌^◌, ◌<◌}
use Prim.Native.Nat.add
use mathlib.Core.Path.{◌≡◌, sym}
use native.Mathlib.Nat.{pow-zero, one-mul, pow-succ', mul_assoc, one-le-pow}
use native.Mathlib.Omega.{arith}

-- uint16, uint32, uint64 and 128-bit addresses hold the numbers below these.
abbrev pub u16_mod : ℕ
u16_mod = 0x10000

abbrev pub u32_mod : ℕ
u32_mod = 0x1_0000_0000

abbrev pub u64_mod : ℕ
u64_mod = 0x1_0000_0000_0000_0000

abbrev pub u128_mod : ℕ
u128_mod = 0x1_0000_0000_0000_0000_0000_0000_0000_0000

-- math.MaxUint64.
abbrev pub max_uint64 : ℕ
max_uint64 = 0xffff_ffff_ffff_ffff

pub pow-add : (b m n : ℕ) → b ^ (m + n) ≡ b ^ m * b ^ n
pow-add b zero n = rw (add.zero n, pow-zero b) (sym (one-mul (b ^ n)))
pow-add b (suc m) n =
    rw (add.suc m n, pow-succ' b (m + n), pow-succ' b m, pow-add b m n)
      (sym (mul_assoc b (b ^ m) (b ^ n)))

pub two-pow_pos : (n : ℕ) → 0 < 2 ^ n
two-pow_pos n = one-le-pow n 2 (omega arith)
