-- ===== src/Iplist/Stream/Sequential.antt =====
-- What streamActiveIPsSequential sends.
use native.Mathlib.Nat.{mod-eq_of_lt}
use bgscan.Base.{
  ℕ, zero, suc, ◌+◌, ◌-◌, ◌*◌, ◌/◌, ◌^◌, ◌≤◌, ◌<◌, ◌⊎◌, min, ◌≡◌, refl, sym, ap, ◌∙◌, true, false,
  List, [], ◌∷◌, ◌++◌, leb, ◌==◌, if◌then◌else◌, arith, All, length, length-take, length-append,
  take, take-nil, take-none, take-singleton, take-append, Bool-cases, inl, inr, lt→ltb, ==-iff,
}
use bgscan.Base.Arith.{u64_mod, max_uint64}
use bgscan.Iplist.Addr.{Addr, v4, v6, Prefix, IsPrefix, host_bits, bit_len, value, at_value, masked}
use bgscan.Iplist.Count.{Entry, is_single, size}
use bgscan.Iplist.Stream.{
  finished, stopped, Sent, stream_row, stream_rows, then_rows, stream_active_ips_sequential, addrs,
}
use bgscan.Iplist.Stream.Cidr.{stream_cidr-sends}

-- The targets of the rows that are on, in the order of the file.
abbrev pub row_targets : Entry → List Addr
row_targets e =
    if e.enable then addrs (masked e.ip).addr (value (masked e.ip).addr) (size e.ip) else []

abbrev pub targets : List Entry → List Addr
targets [] = []
targets (e ∷ es) = row_targets e ++ targets es

length-addrs : (a : Addr) (v n : ℕ) → length (addrs a v n) ≡ n
length-addrs a v zero = refl
length-addrs a v (suc n) = ap suc (length-addrs a (v + 1) n)

take-addrs : (a : Addr) (v n k : ℕ) → take k (addrs a v n) ≡ addrs a v (min n k)
take-addrs a v zero zero = refl
take-addrs a v zero (suc k) = let e : min 0 (suc k) ≡ 0 = omega arith in rw e
take-addrs a v (suc n) zero = let e : min (suc n) 0 ≡ 0 = omega arith in rw e
take-addrs a v (suc n) (suc k) =
    let e : min (suc n) (suc k) ≡ suc (min n k) = omega arith in
    rw e (ap (◌∷◌ (at_value a v)) (take-addrs a (v + 1) n k))

at_value-whole :
    (a : Addr) → let b = at_value a (value a / 2 ^ 0 * 2 ^ 0) in addrs b (value b) (2 ^ 0) ≡ a ∷ []
at_value-whole (v4 n) = let e : n / 1 * 1 ≡ n = omega arith in rw e
at_value-whole (v6 n) = let e : n / 1 * 1 ≡ n = omega arith in rw e

-- A single row sends its own address.
single_targets :
    (p : Prefix)
    → p.bits ≡ bit_len p.addr
    → addrs (masked p).addr (value (masked p).addr) (size p) ≡ p.addr ∷ []
unfolding masked
single_targets p e = let whole : host_bits p ≡ 0 = omega arith in rw whole (at_value-whole p.addr)

is_single_bits : (e : Entry) → is_single e ≡ true → (e.ip.bits == bit_len e.ip.addr) ≡ true
unfolding is_single
is_single_bits e h = h

-- What one row sends.
record Row (limit : ℕ) (e : Entry) (count : ℕ) (s : Sent) : Type 0 where
  sent : s.out ≡ take (limit - count) (row_targets e)
  counted : s.count ≡ count + length s.out
  ended : (s.status ≡ finished) ⊎ ((s.status ≡ stopped) × (limit ≤ count))

stream_row-Row :
    (limit : ℕ) (e : Entry) (count : ℕ)
    → IsPrefix e.ip
    → 0 < limit
    → limit < u64_mod
    → count ≤ limit
    → Row limit e count (stream_row (λ _. false) limit e count)
unfolding stream_row
stream_row-Row limit e count v l m c = elim (Bool-cases e.enable) [
  | inr off ↦
      rw off
        (record { sent = sym (take-nil (limit - count)); counted = omega arith; ended = inl refl })
  | inl on ↦ elim (Bool-cases (leb limit count)) [
    | inl full ↦
        rw (on, lt→ltb 0 limit l, full)
          (record {
            sent = sym (take-none (limit - count) _ (ground arith));
            counted = omega arith;
            ended = inr (refl, ground arith);
          })
    | inr more ↦ elim (Bool-cases (is_single e)) [
      | inl one ↦
          rw (one, on, lt→ltb 0 limit l, more)
            (record {
              sent = sym (
                  rw (single_targets e.ip ((==-iff _ _).0 (is_single_bits e one)))
                    (take-singleton (limit - count) e.ip.addr (ground arith)));
              counted = mod-eq_of_lt (ground arith);
              ended = inl refl;
            })
      | inr many ↦
          rw (many, on, lt→ltb 0 limit l, more)
            (let a = (masked e.ip).addr in
              let sent = stream_cidr-sends e.ip limit count v l m c in
              rw sent (record {
                sent = sym (take-addrs a (value a) (size e.ip) (limit - count));
                counted = rw (length-addrs a (value a) (min (size e.ip) (limit - count)));
                ended = inl refl;
              }))
    ]
  ]
]

then_rows-finished :
    (rest : ℕ → Sent) (s : Sent)
    → s.status ≡ finished
    → then_rows rest s ≡ record (rest s.count) { out = s.out ++ (rest s.count).out }
unfolding then_rows
then_rows-finished rest s e = rw e

then_rows-stopped : (rest : ℕ → Sent) (s : Sent) → s.status ≡ stopped → then_rows rest s ≡ s
unfolding then_rows
then_rows-stopped rest s e = ground arith

abbrev Sends : ℕ → List Entry → ℕ → Sent → Type 0
Sends limit rows count s =
    (s.out ≡ take (limit - count) (targets rows))
    × (s.count ≡ count + length s.out)
    × ((s.status ≡ finished) ⊎ (s.status ≡ stopped))

-- For a list of valid prefixes, with a limit of at least 1 and no cancellation: the rows are sent
-- in order, and what is sent is the sequence of all their targets, cut off at the limit.
stream_rows-Sends :
    (limit : ℕ) (rows : List Entry) (count : ℕ)
    → All (λ e. IsPrefix e.ip) rows
    → 0 < limit
    → limit < u64_mod
    → count ≤ limit
    → Sends limit rows count (stream_rows (λ _. false) limit rows count)
unfolding stream_rows
stream_rows-Sends limit [] count v l m c = (sym (take-nil (limit - count)), omega arith, inl refl)
stream_rows-Sends limit (e ∷ es) count v l m c =
    let r = stream_row-Row limit e count v.0 l m c in
    let first = stream_row (λ _. false) limit e count in
    let rest = stream_rows (λ _. false) limit es in
    elim r.ended [
      | inl go ↦
          let short : length first.out ≡ min (limit - count) (length (row_targets e)) =
            ap length r.sent ∙ length-take (limit - count) (row_targets e) in
          let ih =
            stream_rows-Sends limit es first.count v.1 l m (omega (arith, r.counted, short)) in
          let left : limit - first.count ≡ limit - count - length (row_targets e) =
            omega (arith, r.counted, short) in
          let out : first.out ++ (rest first.count).out ≡ take (limit - count) (targets (e ∷ es)) =
            rw (take-append (limit - count) (row_targets e) (targets es), ← r.sent, ← left)
              (ap (◌++◌ first.out) ih.0) in
          rw (then_rows-finished rest first go) (
            out,
            omega (arith, ih.1, r.counted, length-append first.out (rest first.count).out),
            ih.2,
          )
      | inr (stop, full) ↦
          let nothing : limit - count ≡ 0 = omega arith in
          rw (then_rows-stopped rest first stop) (r.sent ∙ rw nothing, r.counted, inr stop)
    ]

-- For a list of valid prefixes and a uint64 limit, with no cancellation, StreamActiveIPs in file
-- order returns no error and sends the targets of the rows that are on, in order: the first
-- `limit` of them, or the first MaxUint64 - 1 if the limit is 0.
pub stream_active_ips_sequential-sends :
    (limit : ℕ) (rows : List Entry)
    → All (λ e. IsPrefix e.ip) rows
    → limit < u64_mod
    → let s = stream_active_ips_sequential (λ _. false) limit rows in
      (s.out ≡ take (if limit == 0 then max_uint64 - 1 else limit) (targets rows))
      × (s.count ≡ length s.out)
      × ((s.status ≡ finished) ⊎ (s.status ≡ stopped))
unfolding stream_active_ips_sequential
stream_active_ips_sequential-sends limit rows v h =
    let cap : ℕ = if limit == 0 then max_uint64 - 1 else limit in
    let all = stream_rows-Sends cap rows 0 v (ground arith) (ground arith) (omega arith) in
    let whole : cap - 0 ≡ cap = omega arith in (rw whole at all.0, omega (arith, all.1), all.2)
