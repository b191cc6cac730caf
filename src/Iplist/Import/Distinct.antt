-- ===== src/Iplist/Import/Distinct.antt =====
-- The map strategy writes each prefix once, up to its limit of entries.
use bgscan.Base.{
  ℕ, suc, ◌+◌, ◌-◌, ◌≤◌, ◌<◌, ◌≡◌, refl, ap, ◌∙◌, Bool, true, false, ◌||◌, List, [], ◌∷◌, ltb, leb,
  if◌then◌else◌, length, take, arith, ==-iff, Bool-cases, inl, inr, if-elim,
}
use bgscan.Iplist.Addr.{Addr, v4, v6, Prefix, masked}
use bgscan.Iplist.Count.{Entry}
use bgscan.Iplist.Import.{
  same_addr, same_prefix, has, imported, limit_exceeded, Imported, write, masked_entry,
  import_map_rows, import_ip_list_map,
}

abbrev pub never : ℕ → Bool
never r = false

abbrev pub prefixes : List Entry → List Prefix
prefixes [] = []
prefixes (e ∷ es) = e.ip ∷ prefixes es

abbrev pub masked_prefixes : List Entry → List Prefix
masked_prefixes [] = []
masked_prefixes (e ∷ es) = masked e.ip ∷ masked_prefixes es

-- No prefix occurs twice.
abbrev pub Distinct : List Prefix → Type 0
Distinct [] = Unit {0}
Distinct (p ∷ ps) = (has p ps ≡ false) × Distinct ps

same_addr_refl : (a : Addr) → same_addr a a ≡ true
same_addr_refl (v4 n) = ground arith
same_addr_refl (v6 n) = ground arith

pub same_prefix_refl : (p : Prefix) → same_prefix p p ≡ true
same_prefix_refl p = rw (same_addr_refl p.addr) (ground arith)

same_addr-eq : (a b : Addr) → same_addr a b ≡ true → a ≡ b
same_addr-eq (v4 m) (v4 n) h = ap v4 ((==-iff m n).0 h)
same_addr-eq (v6 m) (v6 n) h = ap v6 ((==-iff m n).0 h)
same_addr-eq (v4 m) (v6 n) h = cc
same_addr-eq (v6 m) (v4 n) h = cc

pub same_prefix-eq : (p q : Prefix) → same_prefix p q ≡ true → p ≡ q
same_prefix-eq p q h =
    let addr : p.addr ≡ q.addr = same_addr-eq p.addr q.addr (ground arith) in
    let bits : p.bits ≡ q.bits = ground arith in λ i. record { addr = addr i; bits = bits i }

map_rows-status :
    (seen : List Prefix) (r : ℕ) (es : List Entry)
    → (import_map_rows never 0 seen r es).status ≡ imported
unfolding import_map_rows
map_rows-status seen r [] = refl
map_rows-status seen r (e ∷ es) =
    if-elim (λ (w : Imported). w.status ≡ imported) (has (masked e.ip) seen)
      (λ _. map_rows-status seen (r + 1) es) (λ _. map_rows-status (masked e.ip ∷ seen) (r + 1) es)

-- Nothing that was seen is written again.
map_rows-unseen :
    (seen : List Prefix) (r : ℕ) (es : List Entry) (q : Prefix)
    → has q seen ≡ true
    → has q (prefixes (import_map_rows never 0 seen r es).rows) ≡ false
unfolding import_map_rows
map_rows-unseen seen r [] q h = refl
map_rows-unseen seen r (e ∷ es) q h =
    if-elim (λ (w : Imported). has q (prefixes w.rows) ≡ false) (has (masked e.ip) seen)
      (λ _. map_rows-unseen seen (r + 1) es q h)
      (λ n. elim (Bool-cases (same_prefix q (masked e.ip))) [
        | inl s ↦ let same = same_prefix-eq q (masked e.ip) s in cc (n, h, same)
        | inr s ↦
            let later : has q (masked e.ip ∷ seen) ≡ true = rw (s) h in
            rw (s) (map_rows-unseen (masked e.ip ∷ seen) (r + 1) es q later)
      ])

map_rows-Distinct :
    (seen : List Prefix) (r : ℕ) (es : List Entry)
    → Distinct (prefixes (import_map_rows never 0 seen r es).rows)
unfolding import_map_rows
map_rows-Distinct seen r [] = tt
map_rows-Distinct seen r (e ∷ es) =
    if-elim (λ (w : Imported). Distinct (prefixes w.rows)) (has (masked e.ip) seen)
      (λ _. map_rows-Distinct seen (r + 1) es)
      (λ n.
        let itself : has (masked e.ip) (masked e.ip ∷ seen) ≡ true =
          rw (same_prefix_refl (masked e.ip)) refl in
        (
          map_rows-unseen (masked e.ip ∷ seen) (r + 1) es (masked e.ip) itself,
          map_rows-Distinct (masked e.ip ∷ seen) (r + 1) es,
        ))

-- What is written or was seen is what was read or was seen.
map_rows-has :
    (seen : List Prefix) (r : ℕ) (es : List Entry) (q : Prefix)
    → has q (prefixes (import_map_rows never 0 seen r es).rows) || has q seen
      ≡ has q (masked_prefixes es) || has q seen
unfolding import_map_rows
map_rows-has seen r [] q = refl
map_rows-has seen r (e ∷ es) q =
    if-elim
      (λ (w : Imported).
        has q (prefixes w.rows) || has q seen ≡ has q (masked_prefixes (e ∷ es)) || has q seen)
      (has (masked e.ip) seen)
      (λ n. elim (Bool-cases (same_prefix q (masked e.ip))) [
        | inl s ↦
            let known : has q seen ≡ true =
              ap (λ p. has p seen) (same_prefix-eq q (masked e.ip) s) ∙ n in
            ground (arith, known, map_rows-has seen (r + 1) es q)
        | inr s ↦ rw s (map_rows-has seen (r + 1) es q)
      ])
      (λ n. ground (arith, map_rows-has (masked e.ip ∷ seen) (r + 1) es q))

-- Without a limit and without cancellation importIPListMap succeeds; the prefixes that it writes
-- are pairwise different, and they are exactly the masked prefixes of the rows.
pub import_ip_list_map-Distinct :
    (rows : List Entry) (q : Prefix)
    → let w = import_ip_list_map never 0 rows in
      (w.status ≡ imported)
      × Distinct (prefixes w.rows)
      × (has q (prefixes w.rows) ≡ has q (masked_prefixes rows))
unfolding import_ip_list_map
import_ip_list_map-Distinct rows q = (
  map_rows-status [] 0 rows,
  map_rows-Distinct [] 0 rows,
  ground (arith, map_rows-has [] 0 rows q),
)

-- The outcome under a limit, by what there is to write.
abbrev pub limited : ℕ → List Entry → Imported
limited room all =
    if leb (length all) room
    then record { rows = all; status = imported }
    else record { rows = take room all; status = limit_exceeded }

limited-write :
    (n : ℕ) (e : Entry) (es : List Entry) → write e (limited n es) ≡ limited (suc n) (e ∷ es)
limited-write n e es = elim (Bool-cases (leb (length es) n)) [
  | inl h ↦ let fits : leb (length (e ∷ es)) (suc n) ≡ true = ground arith in rw (h, fits) refl
  | inr h ↦ let over : leb (length (e ∷ es)) (suc n) ≡ false = ground arith in rw (h, over) refl
]

map_rows-limited :
    (limit : ℕ) (seen : List Prefix) (r : ℕ) (es : List Entry)
    → 0 < limit
    → length seen ≤ limit
    → import_map_rows never limit seen r es
      ≡ limited (limit - length seen) (import_map_rows never 0 seen r es).rows
unfolding import_map_rows
map_rows-limited limit seen r [] l h =
    let fits : leb 0 (limit - length seen) ≡ true = ground arith in rw fits refl
map_rows-limited limit seen r (e ∷ es) l h = elim (Bool-cases (has (masked e.ip) seen)) [
  | inl s ↦ rw s (map_rows-limited limit seen (r + 1) es l h)
  | inr s ↦ elim (Bool-cases (leb limit (length seen))) [
    | inl f ↦
        let positive : ltb 0 limit ≡ true = ground arith in
        let room : limit - length seen ≡ 0 = ground arith in
        let rest = (import_map_rows never 0 (masked e.ip ∷ seen) (r + 1) es).rows in
        let over : leb (suc (length rest)) 0 ≡ false = ground arith in
        rw (s, positive, f, room, over) refl
    | inr f ↦
        let room : limit - length seen ≡ suc (limit - suc (length seen)) = ground arith in
        let positive : ltb 0 limit ≡ true = ground arith in
        rw (s, positive, f, room)
          (ap (write (masked_entry e))
              (map_rows-limited limit (masked e.ip ∷ seen) (r + 1) es l (ground arith))
            ∙ limited-write (limit - suc (length seen)) (masked_entry e) _)
  ]
]

-- With a limit on the entries, and no cancellation: if the rows have at most that many different
-- prefixes, importIPListMap writes what it writes without a limit; otherwise it writes the first
-- ones up to the limit and fails.
pub import_ip_list_map-limited :
    (limit : ℕ) (rows : List Entry)
    → 0 < limit
    → import_ip_list_map never limit rows ≡ limited limit (import_ip_list_map never 0 rows).rows
unfolding import_ip_list_map
import_ip_list_map-limited limit rows l =
    let whole : limit - 0 ≡ limit = omega arith in
    rw whole at (map_rows-limited limit [] 0 rows l (omega arith))
