-- ===== src/Iplist/Index/Search.antt =====
-- internal/core/iplist/shuffle.go: getIPFromCIDRBlocks.
use bgscan.Base.{
  ℕ, zero, suc, ◌+◌, ◌-◌, ◌/◌, ◌%◌, ◌≤◌, ◌<◌, ◌≡◌, refl, sym, ap, ◌∙◌, true, false, List, [], ◌∷◌,
  ◌++◌, leb, ltb, arith, length, Bool-cases, inl, inr, ltb→lt, ltb→le, Option, some, none, ◌≢◌,
  get_elem?,
}
use mathlib.Core.Option
use bgscan.Base.Arith.{u64_mod, max_uint64}
use bgscan.Iplist.Addr.{Addr, v6}
use bgscan.Iplist.Offset.{add_offset_to_addr}
use bgscan.Iplist.Index.{CidrBlock}
use bgscan.Iplist.Index.Tiling.{Tiled}

-- The zero value of CIDRBlock; As16 of the zero netip.Addr is sixteen zero bytes.
abbrev zero_block : CidrBlock
zero_block = record { start_ip = v6 0; total_ips = 0; global_idx = 0 }

-- The loop over low and high. Here `high` is one more than in the source, where it starts at
-- len - 1 and may fall to -1. An index out of range, and the end of the fuel, are none.
unfoldable pub search_loop : ℕ → List CidrBlock → ℕ → ℕ → ℕ → CidrBlock → Option CidrBlock
search_loop zero blocks idx low high target = none
search_loop (suc fuel) blocks idx low high target =
    let mid = (low + (high - 1)) / 2 in
    elim (ltb low high) [
      | false ↦ some target
      | true ↦ elim (get_elem? blocks mid) [
        | none ↦ none
        | some b ↦ elim (leb b.global_idx idx) [
          | true ↦ search_loop fuel blocks idx (mid + 1) high b
          | false ↦ search_loop fuel blocks idx low mid target
        ]
      ]
    ]

-- Each round makes the interval smaller, so its length bounds the rounds.
unfoldable pub get_ip_from_cidr_blocks : List CidrBlock → ℕ → Option Addr
get_ip_from_cidr_blocks blocks idx =
    Option.map (λ b. add_offset_to_addr b.start_ip ((idx + u64_mod - b.global_idx) % u64_mod))
      (search_loop (suc (length blocks)) blocks idx 0 (length blocks) zero_block)

-- The number at which block i begins, and for i past the end the total t.
abbrev edge : List CidrBlock → ℕ → ℕ → ℕ
edge [] t i = t
edge (b ∷ bs) t zero = b.global_idx
edge (b ∷ bs) t (suc i) = edge bs t i

edge-get :
    (bs : List CidrBlock) (t i : ℕ) (b : CidrBlock)
    → get_elem? bs i ≡ some b
    → edge bs t i ≡ b.global_idx
edge-get [] t i b e = cc
edge-get (x ∷ bs) t zero b e = ground arith
edge-get (x ∷ bs) t (suc i) b e = edge-get bs t i b e

pub get-in-range :
    {A : Type 0} (xs : List A) (i : ℕ) → i < length xs → (x : A) × (get_elem? xs i ≡ some x)
get-in-range [] i h = absurd (omega arith)
get-in-range (x ∷ xs) zero h = (x, refl)
get-in-range (x ∷ xs) (suc i) h = get-in-range xs i (omega arith)

edge-next :
    (s : ℕ) (bs : List CidrBlock) (t i : ℕ) (b : CidrBlock)
    → Tiled s bs t
    → get_elem? bs i ≡ some b
    → edge bs t (suc i) ≡ b.global_idx + b.total_ips
edge-next s [] t i b h e = cc
edge-next s (x ∷ []) t zero b h e = ground arith
edge-next s (x ∷ y ∷ bs) t zero b h e = ground arith
edge-next s (x ∷ bs) t (suc i) b h e = edge-next (s + x.total_ips) bs t i b h.1 e

-- The block that owns a number.
abbrev Owns : List CidrBlock → ℕ → CidrBlock → Type 0
Owns bs g b =
    (i : ℕ) × (get_elem? bs i ≡ some b) × (b.global_idx ≤ g) × (g < b.global_idx + b.total_ips)

-- The state of the search: what lies below `low` begins at or before the number, what lies from
-- `high` on begins after it.
record Searching (bs : List CidrBlock) (t g low high : ℕ) (target : CidrBlock) : Type 0 where
  ordered : low ≤ high
  within : high ≤ length bs
  above : g < edge bs t high
  found : 0 < low → (get_elem? bs (low - 1) ≡ some target) × (target.global_idx ≤ g)

first_edge : (bs : List CidrBlock) (t : ℕ) → Tiled 0 bs t → edge bs t 0 ≡ 0
first_edge [] t h = sym h
first_edge (b ∷ bs) t h = h.0

-- Where low has met high, the last block taken owns the number.
searched :
    (bs : List CidrBlock) (t g low high : ℕ) (target : CidrBlock)
    → Tiled 0 bs t
    → Searching bs t g low high target
    → high ≤ low
    → Owns bs g target
searched bs t g zero zero target tiled s h = absurd (omega (arith, s.above, first_edge bs t tiled))
searched bs t g zero (suc high) target tiled s h = absurd (omega arith)
searched bs t g (suc low) high target tiled s h =
    let e : high ≡ suc low = omega (arith, s.ordered) in
    let (got, before) = s.found (omega arith) in
    let at : get_elem? bs low ≡ some target = rw pred_suc at got in
    (
      low,
      at,
      before,
      omega (arith, edge-next 0 bs t low target tiled at, ap (edge bs t) e, s.above),
    )
  where
    pred_suc : suc low - 1 ≡ low
    pred_suc = omega arith

search_loop-finds :
    (fuel : ℕ) (bs : List CidrBlock) (t g low high : ℕ) (target : CidrBlock)
    → Tiled 0 bs t
    → Searching bs t g low high target
    → high < fuel + low
    → (b : CidrBlock) × (search_loop fuel bs g low high target ≡ some b) × Owns bs g b
unfolding search_loop
search_loop-finds zero bs t g low high target tiled s f = absurd (omega (arith, s.ordered))
search_loop-finds (suc fuel) bs t g low high target tiled s f = elim (Bool-cases (ltb low high)) [
  | inr met ↦
      rw (met, search_loop)
        (target, refl, searched bs t g low high target tiled s (ltb→le low high met))
  | inl apart ↦
      let order : low < high = ltb→lt low high apart in
      let mid = (low + (high - 1)) / 2 in
      let (b, got) = get-in-range bs mid (omega (arith, s.within)) in
      rw (apart, search_loop)
        (rw (got, search_loop)
          (elim (Bool-cases (leb b.global_idx g)) [
            | inl le ↦
                let back : mid + 1 - 1 ≡ mid = omega arith in
                rw (le, search_loop)
                  (search_loop-finds fuel bs t g (mid + 1) high b tiled
                    (record {
                      ordered = omega arith;
                      within = s.within;
                      above = s.above;
                      found = λ _. (rw back got, ground arith);
                    })
                    (omega arith))
            | inr gt ↦
                rw (gt, search_loop)
                  (search_loop-finds fuel bs t g low mid target tiled
                    (record {
                      ordered = omega arith;
                      within = omega (arith, s.within);
                      above = rw (edge-get bs t mid b got) (ground arith);
                      found = s.found;
                    })
                    (omega arith))
          ]))
]

edge-end : (s : ℕ) (bs : List CidrBlock) (t : ℕ) → edge bs t (length bs) ≡ t
edge-end s [] t = refl
edge-end s (b ∷ bs) t = edge-end s bs t

-- The addresses of the blocks, in the order of their numbers.
abbrev pub offsets : Addr → ℕ → ℕ → List Addr
offsets a k zero = []
offsets a k (suc n) = add_offset_to_addr a k ∷ offsets a (k + 1) n

abbrev pub enumerate : List CidrBlock → List Addr
enumerate [] = []
enumerate (b ∷ bs) = offsets b.start_ip 0 b.total_ips ++ enumerate bs

pub length-offsets : (a : Addr) (k n : ℕ) → length (offsets a k n) ≡ n
length-offsets a k zero = refl
length-offsets a k (suc n) = ap suc (length-offsets a (k + 1) n)

get-offsets :
    (a : Addr) (k n i : ℕ)
    → i < n
    → get_elem? (offsets a k n) i ≡ some (add_offset_to_addr a (k + i))
get-offsets a k zero i h = absurd (omega arith)
get-offsets a k (suc n) zero h = let e : k + 0 ≡ k = omega arith in rw e
get-offsets a k (suc n) (suc i) h =
    let e : k + suc i ≡ k + 1 + i = omega arith in rw e (get-offsets a (k + 1) n i (omega arith))

get-append-left :
    {A : Type 0} (xs ys : List A) (i : ℕ) → i < length xs → get_elem? (xs ++ ys) i ≡ get_elem? xs i
get-append-left [] ys i h = absurd (omega arith)
get-append-left (x ∷ xs) ys zero h = refl
get-append-left (x ∷ xs) ys (suc i) h = get-append-left xs ys i (omega arith)

get-append-right :
    {A : Type 0} (xs ys : List A) (i : ℕ) → get_elem? (xs ++ ys) (length xs + i) ≡ get_elem? ys i
get-append-right [] ys i = let e : 0 + i ≡ i = omega arith in rw e
get-append-right (x ∷ xs) ys i =
    let e : suc (length xs) + i ≡ suc (length xs + i) = omega arith in
    rw e (get-append-right xs ys i)

Tiled-le :
    (s : ℕ) (bs : List CidrBlock) (t i : ℕ) (b : CidrBlock)
    → Tiled s bs t
    → get_elem? bs i ≡ some b
    → s ≤ b.global_idx
Tiled-le s [] t i b h e = cc
Tiled-le s (x ∷ bs) t zero b h e = ground arith
Tiled-le s (x ∷ bs) t (suc i) b h e = omega (arith, Tiled-le (s + x.total_ips) bs t i b h.1 e)

enumerate-get :
    (s : ℕ) (bs : List CidrBlock) (t i g : ℕ) (b : CidrBlock)
    → Tiled s bs t
    → get_elem? bs i ≡ some b
    → b.global_idx ≤ g
    → g < b.global_idx + b.total_ips
    → get_elem? (enumerate bs) (g - s) ≡ some (add_offset_to_addr b.start_ip (g - b.global_idx))
enumerate-get s [] t i g b h e l m = cc
enumerate-get s (x ∷ bs) t zero g b h e l m =
    let same : x ≡ b = cc in
    let start : b.global_idx ≡ s = rw same at h.0 in
    let place : g - s ≡ g - b.global_idx = omega arith in
    let inside : g - b.global_idx < b.total_ips = omega arith in
    let whole : 0 + (g - b.global_idx) ≡ g - b.global_idx = omega arith in
    rw (same, place)
      (get-append-left (offsets b.start_ip 0 b.total_ips) (enumerate bs) (g - b.global_idx)
          (omega (arith, length-offsets b.start_ip 0 b.total_ips))
        ∙ (rw whole at (get-offsets b.start_ip 0 b.total_ips (g - b.global_idx) inside)))
enumerate-get s (x ∷ bs) t (suc i) g b h e l m =
    let below = Tiled-le (s + x.total_ips) bs t i b h.1 e in
    let xs = offsets x.start_ip 0 x.total_ips in
    let split : g - s ≡ length xs + (g - (s + x.total_ips)) =
      omega (arith, length-offsets x.start_ip 0 x.total_ips) in
    rw split (
      get-append-right xs (enumerate bs) (g - (s + x.total_ips))
      ∙ enumerate-get (s + x.total_ips) bs t i g b h.1 e l m)

-- For blocks that cover the numbers below t, with t at most the largest uint64, and a number below
-- t: the binary search ends without an index out of range, and its result is the address at that
-- place of the list of all addresses of the blocks.
pub get_ip_from_cidr_blocks-enumerate :
    (bs : List CidrBlock) (t g : ℕ)
    → Tiled 0 bs t
    → t ≤ max_uint64
    → g < t
    → (get_ip_from_cidr_blocks bs g ≡ get_elem? (enumerate bs) g)
      × (get_ip_from_cidr_blocks bs g ≢ none)
unfolding get_ip_from_cidr_blocks
get_ip_from_cidr_blocks-enumerate bs t g tiled h l =
    let start : Searching bs t g 0 (length bs) zero_block = record {
      ordered = omega arith;
      within = omega arith;
      above = omega (arith, edge-end 0 bs t);
      found = λ p. absurd (omega arith);
    } in
    let (b, found, owns) =
      search_loop-finds (suc (length bs)) bs t g 0 (length bs) zero_block tiled start
        (omega arith) in
    let (i, at, le, lt) = owns in
    let wrapped : (g + u64_mod - b.global_idx) % u64_mod ≡ g - b.global_idx = omega arith in
    let place : g - 0 ≡ g = omega arith in
    let listed = enumerate-get 0 bs t i g b tiled at le lt in
    rw (found, wrapped) (sym (rw place at listed), λ e. cc)
