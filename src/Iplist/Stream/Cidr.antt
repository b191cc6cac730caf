-- ===== src/Iplist/Stream/Cidr.antt =====
-- What StreamCIDR sends.
use native.Mathlib.Nat.{
  mod-eq_of_lt, div-lt_iff_lt-mul, mul-le-mul_right, div-eq_of_lt-le, add-div_right, add-zero,
  mul-div_cancel,
}
use bgscan.Base.{
  ℕ, zero, suc, ◌+◌, ◌-◌, ◌*◌, ◌/◌, ◌%◌, ◌^◌, ◌≤◌, ◌<◌, min, ◌≡◌, refl, sym, ap, ◌∙◌, Bool, true,
  false, [], none, some, leb, ltb, ◌==◌, if◌then◌else◌, arith, Bool-cases, inl, inr, ltb→lt, ltb→le,
  lt→ltb, ne→==, ==-iff,
}
use bgscan.Base.Arith.{u64_mod, two-pow_pos, pow-add}
use bgscan.Iplist.Addr.{
  Addr, v4, v6, Prefix, IsPrefix, host_bits, bit_len, value, at_value, masked, same_bits, contains,
  next,
}
use bgscan.Iplist.Count.{size}
use bgscan.Iplist.Stream.{finished, emit, stream_next, stream_loop, stream_cidr, addrs}

next-at_value :
    (a : Addr) (n : ℕ)
    → next (at_value a n)
      ≡ (if ltb (n + 1) (2 ^ bit_len a) then some (at_value a (n + 1)) else none)
unfolding next
next-at_value (v4 m) n = refl
next-at_value (v6 m) n = refl

same_bits-at_value :
    (k : ℕ) (a : Addr) (n : ℕ) → same_bits k a (at_value a n) ≡ (value a / 2 ^ k == n / 2 ^ k)
unfolding same_bits
same_bits-at_value k (v4 m) n = refl
same_bits-at_value k (v6 m) n = refl

-- A prefix whose free bits are clear and whose addresses exist.
record IsBlock (p : Prefix) : Type 0 where
  first : value p.addr ≡ value p.addr / size p * size p
  fits : value p.addr + size p ≤ 2 ^ bit_len p.addr

module _ (p : Prefix) (v : IsBlock p) where
  contains-in : (i : ℕ) → i < size p → contains p (at_value p.addr (value p.addr + i)) ≡ true
  unfolding contains
  contains-in i h =
      let q = value p.addr / size p in
      let same : (value p.addr + i) / size p ≡ q =
        div-eq_of_lt-le {k = q} (size p) (omega arith) (omega arith) in
      same_bits-at_value (host_bits p) p.addr (value p.addr + i) ∙ rw same ((==-iff q q).1 refl)

  contains-out : contains p (at_value p.addr (value p.addr + size p)) ≡ false
  unfolding contains
  contains-out =
      let q = value p.addr / size p in
      let other : (value p.addr + size p) / size p ≡ q + 1 =
        add-div_right (value p.addr) (two-pow_pos (host_bits p)) in
      same_bits-at_value (host_bits p) p.addr (value p.addr + size p)
      ∙ rw other (ne→== q (q + 1) (omega arith))

  next-in :
      (i : ℕ)
      → i + 1 < size p
      → next (at_value p.addr (value p.addr + i)) ≡ some (at_value p.addr (value p.addr + (i + 1)))
  next-in i h =
      next-at_value p.addr (value p.addr + i)
      ∙ rw (lt→ltb (value p.addr + i + 1) (2 ^ bit_len p.addr) (omega (arith, v.fits)))
          (ap (λ n. some (at_value p.addr n)) (omega arith))

  -- Behind the last address of the prefix the loop ends.
  loop-out :
      (fuel limit count : ℕ)
      → 0 < fuel
      → stream_loop fuel (λ _. false) p limit (at_value p.addr (value p.addr + size p)) count
        ≡ record { out = []; count = count; status = finished }
  unfolding stream_loop
  loop-out zero limit count h = absurd (omega arith)
  loop-out (suc fuel) limit count h = rw contains-out

  next-out :
      (fuel i limit count : ℕ)
      → i + 1 ≡ size p
      → 0 < fuel
      → stream_next
          (λ a. stream_loop fuel (λ _. false) p limit a count)
          count
          (next (at_value p.addr (value p.addr + i)))
        ≡ record { out = []; count = count; status = finished }
  unfolding stream_next
  next-out fuel i limit count e h =
      rw (next-at_value p.addr (value p.addr + i))
        (elim (Bool-cases (ltb (value p.addr + i + 1) (2 ^ bit_len p.addr))) [
          | inl y ↦
              let s : value p.addr + i + 1 ≡ value p.addr + size p = omega arith in
              rw y (rw s (loop-out fuel limit count h))
          | inr n ↦ rw n
        ])

  -- From the address with offset i on, and with no cancellation, the loop sends the addresses up
  -- to the end of the prefix or up to the limit, whichever comes first.
  stream_loop-sends :
      (fuel i limit count n : ℕ)
      → i < size p
      → size p < fuel + i
      → 0 < limit
      → limit < u64_mod
      → count ≤ limit
      → n ≡ min (size p - i) (limit - count)
      → stream_loop fuel (λ _. false) p limit (at_value p.addr (value p.addr + i)) count
        ≡ record { out = addrs p.addr (value p.addr + i) n; count = count + n; status = finished }
  unfolding stream_loop stream_next
  stream_loop-sends zero i limit count n h f l m c e = absurd (omega arith)
  stream_loop-sends (suc fuel) i limit count zero h f l m c e =
      let full : leb limit count ≡ true = ground arith in
      let same : count + 0 ≡ count = omega arith in
      rw (contains-in i h, lt→ltb 0 limit l, full, same)
  stream_loop-sends (suc fuel) i limit count (suc n) h f l m c e =
      let more : leb limit count ≡ false = ground arith in
      let counted : (count + 1) % u64_mod ≡ count + 1 = mod-eq_of_lt (omega arith) in
      rw (contains-in i h, lt→ltb 0 limit l, more, counted)
        (elim (Bool-cases (ltb (i + 1) (size p))) [
          | inl y ↦
              let k : i + 1 < size p = ltb→lt _ _ y in
              let step : value p.addr + i + 1 ≡ value p.addr + (i + 1) = omega arith in
              let total : count + suc n ≡ count + 1 + n = omega arith in
              rw (next-in i k, stream_next, step, total)
                (ap (emit (at_value p.addr (value p.addr + i))) (
                  stream_loop-sends fuel (i + 1) limit (count + 1) n k (omega arith) l m
                    (omega arith) (omega arith)))
          | inr y ↦
              let k : size p ≤ i + 1 = ltb→le _ _ y in
              let none_left : n ≡ 0 = omega arith in
              rw (none_left, next-out fuel i limit (count + 1) (omega arith) (omega arith))
        ])

block_fits :
    (v len b : ℕ)
    → v < 2 ^ len
    → b ≤ len
    → v / 2 ^ (len - b) * 2 ^ (len - b) + 2 ^ (len - b) ≤ 2 ^ len
block_fits v len b h k =
    let whole : b + (len - b) ≡ len = omega arith in
    let split : 2 ^ len ≡ 2 ^ b * 2 ^ (len - b) =
      ap (λ n. 2 ^ n) (sym whole) ∙ pow-add 2 b (len - b) in
    let below : v / 2 ^ (len - b) < 2 ^ b =
      (div-lt_iff_lt-mul (two-pow_pos (len - b))).1 (omega (arith, split)) in
    omega (arith, split, mul-le-mul_right (2 ^ (len - b)) below)

masked-IsBlock : (p : Prefix) → IsPrefix p → IsBlock (masked p)
unfolding masked
masked-IsBlock p v = block p.addr p.bits v
  where
    block :
        (a : Addr) (b : ℕ)
        → IsPrefix (record { addr = a; bits = b })
        → IsBlock (masked (record { addr = a; bits = b }))
    block (v4 n) b (h, k) = record {
      first =
          ap (λ (q : ℕ). q * 2 ^ (32 - b))
            (sym (mul-div_cancel (n / 2 ^ (32 - b)) (two-pow_pos (32 - b))));
      fits = block_fits n 32 b h (omega arith);
    }
    block (v6 n) b (h, k) = record {
      first =
          ap (λ (q : ℕ). q * 2 ^ (128 - b))
            (sym (mul-div_cancel (n / 2 ^ (128 - b)) (two-pow_pos (128 - b))));
      fits = block_fits n 128 b h (omega arith);
    }

host_bits-masked : (p : Prefix) → host_bits (masked p) ≡ host_bits p
unfolding masked
host_bits-masked p = same p.addr
  where
    same :
        (a : Addr)
        → bit_len (at_value a (value a / 2 ^ host_bits p * 2 ^ host_bits p)) - p.bits
          ≡ bit_len a - p.bits
    same (v4 n) = refl
    same (v6 n) = refl

stream_cidr_lem :
    (ctx : ℕ → Bool) (p : Prefix) (limit count : ℕ)
    → stream_cidr ctx p limit count
      ≡ stream_loop (suc (size (masked p))) ctx (masked p) limit (masked p).addr count
unfolding stream_cidr
stream_cidr_lem ctx p limit count = refl

at_value-value : (a : Addr) → at_value a (value a) ≡ a
at_value-value (v4 n) = refl
at_value-value (v6 n) = refl

pub size-masked : (p : Prefix) → size (masked p) ≡ size p
size-masked p = ap (λ k. 2 ^ k) (host_bits-masked p)

-- On a valid prefix, with a limit above 0 and no cancellation, StreamCIDR ends by itself. It sends
-- the addresses of the prefix in order, from its first one on, each once, until the prefix or
-- the limit (counted over all prefixes so far) is exhausted, and counts each.
pub stream_cidr-sends :
    (p : Prefix) (limit count : ℕ)
    → IsPrefix p
    → 0 < limit
    → limit < u64_mod
    → count ≤ limit
    → let n = min (size p) (limit - count) in
      stream_cidr (λ _. false) p limit count ≡ record {
        out = addrs (masked p).addr (value (masked p).addr) n;
        count = count + n;
        status = finished;
      }
stream_cidr-sends p limit count v l m c =
    let q = masked p in
    let loop =
      stream_loop-sends q (masked-IsBlock p v) (suc (size q)) 0 limit count
        (min (size p) (limit - count)) (two-pow_pos (host_bits q)) (omega arith) l m c
        (omega (arith, size-masked p)) in
    stream_cidr_lem (λ _. false) p limit count
    ∙ (rw (add-zero (value q.addr), at_value-value q.addr) at loop)
