-- ===== src/Iplist/Offset.antt =====
-- internal/core/iplist/shuffle.go: addOffsetToAddr, addBigOffset and saturatingAdd.
use native.Mathlib.Nat.{
  mod-lt, div-add-mod, add-mul-mod_self_left, mod-eq_of_lt, pow-succ', one-le-pow,
}
use bgscan.Base.{
  ℕ, zero, suc, ◌+◌, ◌*◌, ◌/◌, ◌%◌, ◌^◌, ◌≤◌, ◌<◌, min, ◌≡◌, refl, sym, ◌∙◌, ap, List, [], ◌∷◌, All,
  length, ltb, ◌==◌, if◌then◌else◌, arith, Bool-cases, inl, inr, ==-iff, ltb→lt, ltb→le, ne→==,
}
use bgscan.Base.Arith.{u32_mod, u64_mod, u128_mod, max_uint64}
use bgscan.Iplist.Addr.{
  Addr, v4, v6, IsAddr, to_bytes, of_bytes, as16, unmap, from_slice_unmap, mapped_base,
}

-- saturatingAdd on uint64.
unfoldable pub saturating_add : ℕ → ℕ → ℕ
saturating_add a b = let result = (a + b) % u64_mod in if ltb result a then max_uint64 else result

-- The loop of addOffsetToAddr, from index 15 down while the carry is positive; carry and sum are
-- uint64.
unfoldable pub add_offset_bytes : List ℕ → ℕ → List ℕ
add_offset_bytes [] carry = []
add_offset_bytes (b ∷ bs) carry =
    let sum = (b + carry % 256) % u64_mod in
    let rest = add_offset_bytes bs ((carry / 256 + sum / 256) % u64_mod) in
    if carry == 0 then b ∷ bs else (sum % 256) ∷ rest

unfoldable pub add_offset_to_addr : Addr → ℕ → Addr
unfolding add_offset_bytes as16 from_slice_unmap
add_offset_to_addr addr offset = from_slice_unmap (add_offset_bytes (as16 addr) offset)

-- The loop of addBigOffset: carry and sum are big integers.
unfoldable pub add_big_offset_bytes : List ℕ → ℕ → List ℕ
add_big_offset_bytes [] carry = []
add_big_offset_bytes (b ∷ bs) carry =
    let sum = b + carry % 256 in
    let rest = add_big_offset_bytes bs (carry / 256 + sum / 256) in
    if carry == 0 then b ∷ bs else (sum % 256) ∷ rest

unfoldable pub add_big_offset : Addr → ℕ → Addr
unfolding add_big_offset_bytes as16 from_slice_unmap
add_big_offset addr offset = from_slice_unmap (add_big_offset_bytes (as16 addr) offset)

abbrev IsByte : ℕ → Type 0
IsByte b = b < 256

of_bytes-lt : (bs : List ℕ) → All IsByte bs → of_bytes bs < 256 ^ length bs
unfolding of_bytes
of_bytes-lt [] h = omega arith
of_bytes-lt (b ∷ bs) h = rw (pow-succ' 256 (length bs)) (omega (arith, of_bytes-lt bs h.1))

-- Splitting the lowest byte off a number modulo 256 * m.
mod_low_byte : (s x m : ℕ) → s < 256 → 0 < m → (s + 256 * x) % (256 * m) ≡ s + 256 * (x % m)
mod_low_byte s x m h k =
    let split : s + 256 * x ≡ s + 256 * (x % m) + 256 * m * (x / m) =
      omega (arith, div-add-mod x m) in
    rw split (
      add-mul-mod_self_left (s + 256 * (x % m)) (256 * m) (x / m)
      ∙ mod-eq_of_lt (omega (arith, mod-lt x k)))

-- The carry loop is addition modulo the size of the array.
add_big_offset_bytes-sum :
    (bs : List ℕ) (c : ℕ)
    → All IsByte bs
    → of_bytes (add_big_offset_bytes bs c) ≡ (of_bytes bs + c) % 256 ^ length bs
unfolding add_big_offset_bytes of_bytes
add_big_offset_bytes-sum [] c h = omega arith
add_big_offset_bytes-sum (b ∷ bs) c h = elim (Bool-cases (c == 0)) [
  | inl e ↦
      let z : b + 256 * of_bytes bs + c ≡ b + 256 * of_bytes bs = omega (arith, (==-iff c 0).0 e) in
      rw (e, z) (sym (mod-eq_of_lt (of_bytes-lt (b ∷ bs) h)))
  | inr e ↦
      let low : (b + c % 256) % 256 + 256 * (of_bytes bs + (c / 256 + (b + c % 256) / 256))
          ≡ b + 256 * of_bytes bs + c =
        omega arith in
      rw e (
        rw (add_big_offset_bytes-sum bs _ h.1, pow-succ' 256 (length bs), ← low)
          (sym (
            mod_low_byte ((b + c % 256) % 256) _ (256 ^ length bs) (omega arith)
              (one-le-pow (length bs) 256 (omega arith)))))
]

-- The uint64 loop never wraps: on bytes and a uint64 carry it is the loop over big integers.
add_offset_bytes-eq :
    (bs : List ℕ) (c : ℕ)
    → All IsByte bs
    → c < u64_mod
    → add_offset_bytes bs c ≡ add_big_offset_bytes bs c
unfolding add_offset_bytes add_big_offset_bytes
add_offset_bytes-eq [] c h k = refl
add_offset_bytes-eq (b ∷ bs) c h k =
    let s : (b + c % 256) % u64_mod ≡ b + c % 256 = omega arith in
    let d : (c / 256 + (b + c % 256) / 256) % u64_mod ≡ c / 256 + (b + c % 256) / 256 =
      omega arith in
    rw s (rw d (rw (add_offset_bytes-eq bs (c / 256 + (b + c % 256) / 256) h.1 (omega arith))))

to_bytes-All : (k n : ℕ) → All IsByte (to_bytes k n)
unfolding to_bytes
to_bytes-All zero n = tt
to_bytes-All (suc k) n = (omega arith, to_bytes-All k (n / 256))

length-to_bytes : (k n : ℕ) → length (to_bytes k n) ≡ k
unfolding to_bytes
length-to_bytes zero n = refl
length-to_bytes (suc k) n = ap suc (length-to_bytes k (n / 256))

pub of_bytes-to_bytes : (k n : ℕ) → of_bytes (to_bytes k n) ≡ n % 256 ^ k
unfolding to_bytes of_bytes
of_bytes-to_bytes zero n = omega arith
of_bytes-to_bytes (suc k) n =
    let split : n % 256 + 256 * (n / 256) ≡ n = omega arith in
    rw (of_bytes-to_bytes k (n / 256), pow-succ' 256 k)
      (sym (
          mod_low_byte (n % 256) (n / 256) (256 ^ k) (omega arith) (one-le-pow k 256 (omega arith)))
        ∙ ap (λ m. m % (256 * 256 ^ k)) split)

-- The number that the 16-byte form of an address stands for.
abbrev pub mapped_value : Addr → ℕ
mapped_value (v4 n) = mapped_base + n
mapped_value (v6 n) = n

of_bytes-as16 : (a : Addr) → IsAddr a → of_bytes (as16 a) ≡ mapped_value a
unfolding as16
of_bytes-as16 (v4 n) h = of_bytes-to_bytes 16 (mapped_base + n) ∙ omega arith
of_bytes-as16 (v6 n) h = of_bytes-to_bytes 16 n ∙ omega arith

as16-All : (a : Addr) → All IsByte (as16 a)
unfolding as16
as16-All (v4 n) = to_bytes-All 16 (mapped_base + n)
as16-All (v6 n) = to_bytes-All 16 n

length-as16 : (a : Addr) → length (as16 a) ≡ 16
unfolding as16
length-as16 (v4 n) = length-to_bytes 16 (mapped_base + n)
length-as16 (v6 n) = length-to_bytes 16 n

-- addBigOffset adds the offset to the 16-byte number modulo 2^128, and unmaps the sum.
pub add_big_offset_lem :
    (a : Addr) (k : ℕ) → IsAddr a → add_big_offset a k ≡ unmap ((mapped_value a + k) % u128_mod)
unfolding add_big_offset from_slice_unmap
add_big_offset_lem a k h =
    ap unmap (
      add_big_offset_bytes-sum (as16 a) k (as16-All a) ∙ rw (of_bytes-as16 a h, length-as16 a) refl)

-- On a valid address and a uint64 offset the byte loop of addOffsetToAddr, whose carry is a
-- uint64, gives the address that the arbitrary-precision addBigOffset gives.
pub add_offset_to_addr-eq :
    (a : Addr) (k : ℕ) → IsAddr a → k < u64_mod → add_offset_to_addr a k ≡ add_big_offset a k
unfolding add_offset_to_addr add_big_offset
add_offset_to_addr-eq a k h l = ap from_slice_unmap (add_offset_bytes-eq (as16 a) k (as16-All a) l)

unmap-mapped :
    (n k : ℕ)
    → n < u32_mod
    → k < u64_mod
    → unmap ((mapped_base + n + k) % u128_mod)
      ≡ (if ltb (n + k) u32_mod then v4 (n + k) else v6 (mapped_base + n + k))
unfolding unmap
unmap-mapped n k h l =
    let whole : (mapped_base + n + k) % u128_mod ≡ mapped_base + n + k = omega arith in
    rw whole (elim (Bool-cases (ltb (n + k) u32_mod)) [
      | inl e ↦
          let low : n + k < u32_mod = ltb→lt _ _ e in
          let quotient : (mapped_base + n + k) / u32_mod ≡ 0xffff = omega arith in
          let rest : (mapped_base + n + k) % u32_mod ≡ n + k = omega arith in rw (e, quotient, rest)
      | inr e ↦
          let high : u32_mod ≤ n + k = ltb→le _ _ e in
          rw (e, ne→== ((mapped_base + n + k) / u32_mod) 0xffff (omega arith))
    ])

-- For an IPv4 address and a uint64 offset, addOffsetToAddr gives the IPv4 address that is the
-- offset further on while the sum is below 2^32, and an IPv6 address otherwise.
pub add_offset_to_addr-v4 :
    (n k : ℕ)
    → n < u32_mod
    → k < u64_mod
    → add_offset_to_addr (v4 n) k
      ≡ (if ltb (n + k) u32_mod then v4 (n + k) else v6 (mapped_base + n + k))
add_offset_to_addr-v4 n k h l =
    add_offset_to_addr-eq (v4 n) k h l ∙ add_big_offset_lem (v4 n) k h ∙ unmap-mapped n k h l

-- saturatingAdd of two uint64 values is their sum, capped at the largest uint64.
pub saturating_add-min :
    (a b : ℕ) → a < u64_mod → b < u64_mod → saturating_add a b ≡ min (a + b) max_uint64
unfolding saturating_add
saturating_add-min a b h k = ground arith
