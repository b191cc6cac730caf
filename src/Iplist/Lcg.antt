-- ===== src/Iplist/Lcg.antt =====
-- internal/core/iplist/shuffle.go: the generator of streamActiveIPsShuffled. With its multiplier
-- and increment it runs through every residue modulo a power of two, whatever it starts from.
use native.Mathlib.Nat.{
  add-mul-mod_self_left, mod-eq_of_lt, mod-lt, div-add-mod, two-pow-succ, suc-add,
}
use native.Mathlib.Bridge.{le_prop}
use mathlib.Core.List.{
  Mem, mem-cons_self, mem-cons_of_mem, mem-cons, not-mem-nil, Nodup, Nodup-nil, Nodup-cons, Perm,
  Subset,
}
use mathlib.Core.List.Subperm
use mathlib.Core.List.Nodup
use mathlib.Core.Logic.Or
use mathlib.Core.List
use mathlib.Core.Nat as MathlibNat
use bgscan.Base.{
  ℕ, zero, suc, ◌+◌, ◌*◌, ◌/◌, ◌%◌, ◌^◌, ◌<◌, ◌≡◌, refl, sym, ap, ◌∙◌, List, [], ◌∷◌, arith, ◌⊎◌,
  inl, inr, Bool-cases, ◌==◌, true, false,
}
use bgscan.Base.Arith.{two-pow_pos}

-- lcgA and lcgC.
abbrev pub lcg_a : ℕ
lcg_a = 6364136223846793005

abbrev pub lcg_c : ℕ
lcg_c = 1442695040888963407

-- The states after 1 to n rounds modulo m.
unfoldable pub orbit : ℕ → ℕ → ℕ → List ℕ
orbit m zero x = []
orbit m (suc n) x = let y = (x * lcg_a + lcg_c) % m in y ∷ orbit m n y

-- n rounds without a modulus.
iter : ℕ → ℕ → ℕ
iter zero x = x
iter (suc n) x = iter n (x * lcg_a + lcg_c)

iter-add : (m n x : ℕ) → iter (m + n) x ≡ iter n (iter m x)
unfolding iter
iter-add zero n x = let e : 0 + n ≡ n = omega arith in rw e
iter-add (suc m) n x = rw (suc-add m n) (iter-add m n (x * lcg_a + lcg_c))

round_mod : (m x : ℕ) → (x % m * lcg_a + lcg_c) % m ≡ (x * lcg_a + lcg_c) % m
round_mod m x =
    let split : x * lcg_a + lcg_c ≡ x % m * lcg_a + lcg_c + m * (x / m * lcg_a) =
      omega (arith, ap (λ (t : ℕ). t * lcg_a) (div-add-mod x m)) in
    rw split (sym (add-mul-mod_self_left (x % m * lcg_a + lcg_c) m (x / m * lcg_a)))

iter-mod : (m n x y : ℕ) → x % m ≡ y % m → iter n x % m ≡ iter n y % m
unfolding iter
iter-mod m zero x y h = h
iter-mod m (suc n) x y h =
    iter-mod m n (x * lcg_a + lcg_c) (y * lcg_a + lcg_c)
      (sym (round_mod m x) ∙ ap (λ (r : ℕ). (r * lcg_a + lcg_c) % m) h ∙ round_mod m y)

iter-mem-orbit : (m n i x : ℕ) → i < n → Mem (iter i (x * lcg_a + lcg_c) % m) (orbit m n x)
unfolding iter orbit
iter-mem-orbit m zero i x h = absurd (omega arith)
iter-mem-orbit m (suc n) zero x h = mem-cons_self
iter-mem-orbit m (suc n) (suc i) x h =
    let y = (x * lcg_a + lcg_c) % m in
    let same : iter i (y * lcg_a + lcg_c) % m ≡ iter i ((x * lcg_a + lcg_c) * lcg_a + lcg_c) % m =
      iter-mod m i (y * lcg_a + lcg_c) ((x * lcg_a + lcg_c) * lcg_a + lcg_c)
        (round_mod m (x * lcg_a + lcg_c)) in
    mem-cons_of_mem y (rw same at (iter-mem-orbit m n i y (omega arith)))

-- 2^n rounds are an affine map: its factor is 1 modulo 2^(n+2), its constant an odd multiple of
-- 2^n.
iter-doubled :
    (n : ℕ) → (u v : ℕ) × ((x : ℕ) → iter (2 ^ n) x ≡ x + 4 * 2 ^ n * u * x + 2 ^ n + 2 * 2 ^ n * v)
unfolding iter
iter-doubled zero = (1591034055961698251, 721347520444481703, λ x. omega arith)
iter-doubled (suc n) =
    let (u, v, once) = iter-doubled n in
    let p = 2 ^ n in
    (
      u + 2 * p * u * u,
      v + p * u + 2 * p * u * v,
      λ x. rw (two-pow-succ n, iter-add p p x, once (iter p x), once x) (omega arith),
    )

-- The remainder modulo 2p is the remainder modulo p, or that and p.
mod_double : (z p : ℕ) → 0 < p → (z % (p + p) ≡ z % p) ⊎ (z % (p + p) ≡ z % p + p)
mod_double z p h =
    let s = z % p in
    let whole = div-add-mod z p in
    elim (Bool-cases (z / p % 2 == 0)) [
      | inl even ↦
          let split : z ≡ s + (p + p) * (z / p / 2) =
            omega (arith, ap (λ (t : ℕ). p * t) (halves even)) in
          inl (ap (λ t. t % (p + p)) split ∙ low s (z / p / 2) (omega (arith, mod-lt z h)))
      | inr odd ↦
          let split : z ≡ s + p + (p + p) * (z / p / 2) =
            omega (arith, ap (λ (t : ℕ). p * t) (halves_odd odd)) in
          inr (ap (λ t. t % (p + p)) split ∙ low (s + p) (z / p / 2) (omega (arith, mod-lt z h)))
    ]
  where
    low : (r t : ℕ) → r < p + p → (r + (p + p) * t) % (p + p) ≡ r
    low r t b = add-mul-mod_self_left r (p + p) t ∙ mod-eq_of_lt b

    halves : (z / p % 2 == 0) ≡ true → z / p ≡ 2 * (z / p / 2)
    halves e = ground arith

    halves_odd : (z / p % 2 == 0) ≡ false → z / p ≡ 2 * (z / p / 2) + 1
    halves_odd e = ground arith

-- Adding p goes from one of the two to the other.
mod_shift :
    (z p : ℕ)
    → 0 < p
    → (z % (p + p) ≡ z % p → (z + p) % (p + p) ≡ z % p + p)
      × (z % (p + p) ≡ z % p + p → (z + p) % (p + p) ≡ z % p)
mod_shift z p h =
    let k = z / (p + p) in
    let whole = div-add-mod z (p + p) in
    (
      λ e.
          let split : z + p ≡ z % p + p + (p + p) * k = omega arith in
          ap (λ t. t % (p + p)) split
          ∙ add-mul-mod_self_left (z % p + p) (p + p) k
          ∙ mod-eq_of_lt (omega (arith, mod-lt z h)),
      λ e.
          let split : z + p ≡ z % p + (p + p) * (k + 1) = omega arith in
          ap (λ t. t % (p + p)) split
          ∙ add-mul-mod_self_left (z % p) (p + p) (k + 1)
          ∙ mod-eq_of_lt (omega (arith, mod-lt z h)),
    )

-- 2^n more rounds add 2^n modulo 2^(n+1).
iter-half_period : (n z : ℕ) → let p = 2 ^ n in iter p z % (p + p) ≡ (z + p) % (p + p)
iter-half_period n z =
    let p = 2 ^ n in
    let (u, v, once) = iter-doubled n in
    let split : iter p z ≡ z + p + (p + p) * (2 * u * z + v) = once z ∙ omega arith in
    ap (λ t. t % (p + p)) split ∙ add-mul-mod_self_left (z + p) (p + p) (2 * u * z + v)

-- From any start, every residue modulo 2^n is met within 2^n rounds.
iter-reaches : (n x y : ℕ) → (i : ℕ) × (i < 2 ^ n) × (iter i x % 2 ^ n ≡ y % 2 ^ n)
unfolding iter
iter-reaches zero x y = (0, omega arith, omega arith)
iter-reaches (suc n) x y =
    let (i, h, e) = iter-reaches n x y in
    let p = 2 ^ n in
    let z = iter i x in
    let more : iter (i + p) x % (p + p) ≡ (z + p) % (p + p) =
      ap (λ t. t % (p + p)) (iter-add i p x) ∙ iter-half_period n z in
    let shift = mod_shift z p (two-pow_pos n) in
    rw (two-pow-succ n) (elim (mod_double z p (two-pow_pos n)) [
      | inl zl ↦ elim (mod_double y p (two-pow_pos n)) [
        | inl yl ↦ (i, omega arith, omega arith)
        | inr yr ↦ (i + p, omega arith, omega (arith, more, shift.0 zl))
      ]
      | inr zr ↦ elim (mod_double y p (two-pow_pos n)) [
        | inl yl ↦ (i + p, omega arith, omega (arith, more, shift.1 zr))
        | inr yr ↦ (i, omega arith, omega arith)
      ]
    ])

-- The numbers below n.
abbrev pub below : ℕ → List ℕ
below zero = []
below (suc n) = n ∷ below n

mem-below : (n a : ℕ) → Mem a (below n) → a < n
mem-below zero a m = absurd (not-mem-nil m)
mem-below (suc n) a m =
    Or.elim le_prop (mem-cons.0 m) (λ e. omega arith) (λ r. omega (arith, mem-below n a r))

below-Nodup : (n : ℕ) → Nodup (below n)
below-Nodup zero = Nodup-nil
below-Nodup (suc n) = Nodup-cons.1 ((λ m. absurd (omega (arith, mem-below n n m))), below-Nodup n)

length-orbit : (m n x : ℕ) → List.length (below n) ≡ List.length (orbit m n x)
unfolding orbit
length-orbit m zero x = refl
length-orbit m (suc n) x = ap MathlibNat.suc (length-orbit m n ((x * lcg_a + lcg_c) % m))

-- Full period: 2^n rounds modulo 2^n meet every number below 2^n exactly once, from any start.
pub orbit-perm : (n x : ℕ) → Perm (below (2 ^ n)) (orbit (2 ^ n) (2 ^ n) x)
orbit-perm n x =
    Subperm.perm_of_length_le (Nodup.subperm (below-Nodup (2 ^ n)) reached)
      (MathlibNat.le_of_eq (sym (length-orbit (2 ^ n) (2 ^ n) x)))
  where
    reached : Subset (below (2 ^ n)) (orbit (2 ^ n) (2 ^ n) x)
    reached a m =
        let (i, h, e) = iter-reaches n (x * lcg_a + lcg_c) a in
        let same : iter i (x * lcg_a + lcg_c) % 2 ^ n ≡ a =
          e ∙ mod-eq_of_lt (mem-below (2 ^ n) a m) in
        rw same at (iter-mem-orbit (2 ^ n) (2 ^ n) i x h)
