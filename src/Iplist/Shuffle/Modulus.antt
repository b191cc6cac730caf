-- ===== src/Iplist/Shuffle/Modulus.antt =====
-- The modulus of the generator: the smallest power of two at or above GrandTotal.
use Prim.Native.Nat.{bit_and, bit_and-bitwise, digits, ◌∣◌}
use native.Mathlib.Nat.{
  pow-succ', mod-eq_of_lt, pow-le-pow_right, mod-add-mod, mod-mod_of_dvd, dvd-mul_right,
}
use bgscan.Base.{
  ℕ, zero, suc, ◌+◌, ◌-◌, ◌*◌, ◌/◌, ◌%◌, ◌^◌, ◌≤◌, ◌<◌, ◌≡◌, ◌≢◌, refl, sym, ap, ◌∙◌, arith, min,
  ◌==◌, leb, ltb, if◌then◌else◌, Bool-cases, inl, inr, ==-iff, ltb→le, if-elim,
}
use bgscan.Base.Arith.{u64_mod, pow-add}
use bgscan.Iplist.Lcg.{lcg_a, lcg_c}
use bgscan.Iplist.Index.Quota.{bit_len_from, lt-two-pow-bit_len}
use bgscan.Iplist.Shuffle.{use_full_uint64, m_bits, m_size, next_state}

abbrev and_within : ℕ → ℕ → ℕ → ℕ
and_within n a b = digits (λ _. zero) min n a b

and_within_self : (n a : ℕ) → a ≤ n → and_within n a a ≡ a
and_within_self zero a h = omega arith
and_within_self (suc n) zero h = refl
and_within_self (suc n) (suc a) h = omega (arith, and_within_self n (suc a / 2) (omega arith))

-- What the test a & (a - 1) == 0 says about the number of bits of a.
record Bits (a bits conj : ℕ) : Type 0 where
  pub bounded : 2 ^ bits ≤ a + a
  pub exact : conj ≡ 0 → 2 ^ bits ≡ a + a
  pub strict : conj ≢ 0 → 2 ^ bits < a + a

Bits-even :
    (a bits conj m b c : ℕ)
    → a ≡ m + m
    → bits ≡ suc b
    → conj ≡ c * 2
    → Bits m b c
    → Bits a bits conj
Bits-even a bits conj m b c ea eb ec h =
    let double : 2 ^ bits ≡ 2 * 2 ^ b = ap (λ k. 2 ^ k) eb ∙ pow-succ' 2 b in
    record {
      bounded = omega (arith, h.bounded);
      exact = λ z. omega (arith, h.exact (omega arith));
      strict = λ z. omega (arith, h.strict (λ e. z (omega arith)));
    }

Bits-odd :
    (a bits conj m b : ℕ)
    → a ≡ m + m + 1
    → bits ≡ suc b
    → conj ≡ m * 2
    → (m ≡ 0 → b ≡ 0)
    → (0 < m → 2 ^ b ≤ m + m)
    → Bits a bits conj
Bits-odd zero bits conj m b ea eb ec z h = absurd (omega arith)
Bits-odd (suc zero) bits conj m b ea eb ec z h =
    let single : bits ≡ 1 = omega (arith, eb, z (omega arith)) in
    let one : 2 ^ bits ≡ 2 = ap (λ k. 2 ^ k) single in
    record {
      bounded = omega arith;
      exact = λ _. omega arith;
      strict = λ n. absurd (n (omega arith));
    }
Bits-odd (suc (suc a)) bits conj m b ea eb ec z h =
    let double : 2 ^ bits ≡ 2 * 2 ^ b = ap (λ k. 2 ^ k) eb ∙ pow-succ' 2 b in
    let le = h (omega arith) in
    record { bounded = omega arith; exact = λ n. absurd (omega arith); strict = λ _. omega arith }

bit_len_from-zero : (n : ℕ) → bit_len_from n 0 ≡ 0
unfolding bit_len_from
bit_len_from-zero zero = refl
bit_len_from-zero (suc n) = refl

bit_len_from-suc : (n a : ℕ) → bit_len_from (suc n) (suc a) ≡ suc (bit_len_from n (suc a / 2))
unfolding bit_len_from
bit_len_from-suc n a = ground arith

and_within-Bits : (n a : ℕ) → a ≤ n → 0 < a → Bits a (bit_len_from n a) (and_within n a (a - 1))
and_within-Bits zero a h k = absurd (omega arith)
and_within-Bits (suc n) zero h k = absurd (omega arith)
and_within-Bits (suc n) (suc a) h k =
    let m = suc a / 2 in
    let len = bit_len_from-suc n a in
    elim (Bool-cases (suc a % 2 == 0)) [
      | inl even ↦
          let parity : suc a ≡ m + m = ground arith in
          let half : (suc a - 1) / 2 ≡ m - 1 = omega arith in
          let conj : and_within (suc n) (suc a) (suc a - 1) ≡ and_within n m (m - 1) * 2 =
            omega (arith, ap (and_within n m) half) in
          Bits-even (suc a) _ _ m (bit_len_from n m) (and_within n m (m - 1)) parity len conj
            (and_within-Bits n m (omega arith) (omega arith))
      | inr odd ↦
          let parity : suc a ≡ m + m + 1 = ground arith in
          let half : (suc a - 1) / 2 ≡ m = omega arith in
          let conj : and_within (suc n) (suc a) (suc a - 1) ≡ m * 2 =
            omega (arith, ap (and_within n m) half, and_within_self n m (omega arith)) in
          Bits-odd (suc a) _ _ m (bit_len_from n m) parity len conj
            (λ z. ap (bit_len_from n) z ∙ bit_len_from-zero n)
            (λ p. (and_within-Bits n m (omega arith) p).bounded)
    ]

half_pow : (len g : ℕ) → 0 < g → 2 ^ len ≡ g + g → 2 ^ (len - 1) ≡ g
half_pow zero g p e = absurd (omega arith)
half_pow (suc len) g p e =
    let back : suc len - 1 ≡ len = omega arith in rw back (omega (arith, pow-succ' 2 len))

pow_below : (k n : ℕ) → 2 ^ k < 2 ^ n → k ≤ n
pow_below k n h = elim (Bool-cases (leb k n)) [
  | inl e ↦ ground arith
  | inr e ↦
      let above : 2 ^ n ≤ 2 ^ k = pow-le-pow_right (omega arith) {i = n} {j = k} (ground arith) in
      absurd (omega arith)
]

m_bits-bounds : (g : ℕ) → 0 < g → (g ≤ 2 ^ m_bits g) × (2 ^ m_bits g < g + g)
unfolding m_bits
m_bits-bounds g p =
    let len = bit_len_from g g in
    let b = and_within-Bits g g (omega arith) p in
    let conj = bit_and-bitwise g (g - 1) in
    elim (Bool-cases (bit_and g (g - 1) == 0)) [
      | inl e ↦
          let whole : 2 ^ len ≡ g + g = b.exact (sym conj ∙ (==-iff _ _).0 e) in
          let half = half_pow len g p whole in rw (e, half) (omega arith, omega arith)
      | inr e ↦
          let more : 2 ^ len < g + g = b.strict (λ z. absurd (ground arith)) in
          rw e (omega (arith, lt-two-pow-bit_len g g (omega arith)), more)
    ]

-- For a GrandTotal from 1 to 2^63 the modulus is a power of two, at least GrandTotal and below
-- its double, so that fewer than half of the states are rejected; it fits in a uint64.
pub m_size-fits :
    (g : ℕ)
    → 0 < g
    → g ≤ 2 ^ 63
    → (m_size g ≡ 2 ^ m_bits g) × (g ≤ m_size g) × (m_size g < g + g) × (m_bits g ≤ 64)
unfolding m_size
m_size-fits g p h =
    let (low, high) = m_bits-bounds g p in
    let fits : m_size g ≡ 2 ^ m_bits g = mod-eq_of_lt (omega arith) in
    (fits, omega (arith, fits), omega (arith, fits), pow_below (m_bits g) 64 (omega arith))

-- The number of bits of the ring that the states run through.
abbrev pub state_bits : ℕ → ℕ
state_bits g = if use_full_uint64 g then 64 else m_bits g

-- For every uint64 GrandTotal above 0, the ring has room for all its numbers.
pub le-two-pow-state_bits : (g : ℕ) → 0 < g → g < u64_mod → g ≤ 2 ^ state_bits g
unfolding use_full_uint64
le-two-pow-state_bits g p h =
    if-elim (λ (k : ℕ). g ≤ 2 ^ k) (ltb (2 ^ 63) g) (λ _. omega arith) (λ _. (m_bits-bounds g p).0)

pub next_state_lem : (g x : ℕ) → 0 < g → next_state g x ≡ (x * lcg_a + lcg_c) % 2 ^ state_bits g
unfolding next_state use_full_uint64
next_state_lem g x p = elim (Bool-cases (ltb (2 ^ 63) g)) [
  | inl e ↦ rw e (mod-add-mod (x * lcg_a) u64_mod lcg_c)
  | inr e ↦
      let (fits, _, _, room) = m_size-fits g p (ltb→le _ _ e) in
      let sum : 64 ≡ m_bits g + (64 - m_bits g) = omega arith in
      let whole : 2 ^ 64 ≡ 2 ^ m_bits g * 2 ^ (64 - m_bits g) =
        ap (λ k. 2 ^ k) sum ∙ pow-add 2 (m_bits g) (64 - m_bits g) in
      let divides : 2 ^ m_bits g ∣ 2 ^ 64 = rw whole (dvd-mul_right (2 ^ m_bits g) _) in
      rw (e, fits, mod-add-mod (x * lcg_a) u64_mod lcg_c)
        (mod-mod_of_dvd (2 ^ m_bits g) (x * lcg_a + lcg_c) divides)
]
