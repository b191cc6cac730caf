-- ===== src/Iplist/Import/Grouped.antt =====
-- Where equal prefixes stand together, the disk strategy writes what the map strategy writes.
use bgscan.Base.{
  ℕ, Bool, ◌+◌, ◌≡◌, refl, sym, ap, ◌∙◌, true, false, List, [], ◌∷◌, Option, none, some, Bool-cases,
  inl, inr, subst, All, if-elim, ◌||◌, arith,
}
use bgscan.Config.Texts.{Text}
use bgscan.Fileutil.{sort_file, sort_lines, insert_line}
use bgscan.Fileutil.External.{LastNotEmpty, sort_file-lines}
use bgscan.Result.{text_le}
use bgscan.Iplist.Addr.{Prefix, masked}
use bgscan.Iplist.Count.{Entry}
use bgscan.Iplist.Import.{
  same_prefix, has, write, masked_entry, import_map_rows, import_ip_list_map, is_last,
  import_disk_rows, import_ip_list_disk, read_rows, put_row,
}
use bgscan.Iplist.Import.Distinct.{
  never, prefixes, masked_prefixes, Distinct, same_prefix-eq, import_ip_list_map-Distinct,
}

-- After the prefixes `before`, a prefix has occurred already just if it is the last one.
abbrev pub Grouped : List Prefix → Option Prefix → List Prefix → Type 0
Grouped before last [] = Unit {0}
Grouped before last (p ∷ ps) = (has p before ≡ is_last p last) × Grouped (p ∷ before) (some p) ps

is_last-eq : (p : Prefix) (last : Option Prefix) → is_last p last ≡ true → last ≡ some p
is_last-eq p none h = cc
is_last-eq p (some q) h = ap some (same_prefix-eq q p h)

-- The set of the map may be any list with the same members.
disk_rows-map :
    (before seen : List Prefix) (last : Option Prefix) (r : ℕ) (es : List Entry)
    → ((q : Prefix) → has q before ≡ has q seen)
    → Grouped before last (masked_prefixes es)
    → import_disk_rows never last r es ≡ import_map_rows never 0 seen r es
unfolding import_disk_rows import_map_rows
disk_rows-map before seen last r [] h g = refl
disk_rows-map before seen last r (e ∷ es) h g =
    let p = masked e.ip in
    let test : is_last p last ≡ has p seen = sym g.0 ∙ h p in
    elim (Bool-cases (has p seen)) [
      | inl s ↦
          let same : (q : Prefix) → has q (p ∷ before) ≡ has q seen = λ q.
            elim (Bool-cases (same_prefix q p)) [
              | inl t ↦ rw t (sym (ap (λ x. has x seen) (same_prefix-eq q p t) ∙ s))
              | inr t ↦ rw t (h q)
            ] in
          let kept : some p ≡ last = sym (is_last-eq p last (test ∙ s)) in
          let first : is_last p last ≡ true = test ∙ s in
          rw (first, s)
            (disk_rows-map (p ∷ before) seen last (r + 1) es same
              (subst (λ (l : Option Prefix). Grouped (p ∷ before) l (masked_prefixes es)) kept g.1))
      | inr s ↦
          let same : (q : Prefix) → has q (p ∷ before) ≡ has q (p ∷ seen) = λ q. rw (h q) refl in
          let other : is_last p last ≡ false = test ∙ s in
          rw (other, s)
            (ap (write (masked_entry e))
              (disk_rows-map (p ∷ before) (p ∷ seen) (some p) (r + 1) es same g.1))
    ]

-- Whether a line is read as an entry with this masked prefix.
abbrev names : Prefix → Option Entry → Bool
names q none = false
names q (some e) = same_prefix q (masked e.ip)

has-put_row :
    (q : Prefix) (o : Option Entry) (rows : List Entry)
    → has q (masked_prefixes (put_row o rows)) ≡ (names q o || has q (masked_prefixes rows))
has-put_row q none rows = refl
has-put_row q (some e) rows = refl

module _ (read : Text → Option Entry) (q : Prefix) where
  has_line-insert :
      (l : Text) (lines : List Text)
      → has q (masked_prefixes (read_rows read (insert_line l lines)))
        ≡ (names q (read l) || has q (masked_prefixes (read_rows read lines)))
  unfolding insert_line
  has_line-insert l [] = has-put_row q (read l) []
  has_line-insert l (x ∷ lines) =
      if-elim
        (λ ls.
          has q (masked_prefixes (read_rows read ls))
          ≡ (names q (read l) || has q (masked_prefixes (read_rows read (x ∷ lines)))))
        (text_le l x) (λ _. has-put_row q (read l) (read_rows read (x ∷ lines)))
        (λ _.
          let old = has-put_row q (read x) (read_rows read lines) in
          let new = has-put_row q (read x) (read_rows read (insert_line l lines)) in
          let rest = has_line-insert l lines in rw (new, old, rest) (ground arith))

  has_line-sort :
      (lines : List Text)
      → has q (masked_prefixes (read_rows read (sort_lines lines)))
        ≡ has q (masked_prefixes (read_rows read lines))
  unfolding sort_lines
  has_line-sort [] = refl
  has_line-sort (l ∷ lines) =
      let all = has_line-insert l (sort_lines lines) in
      let first = has-put_row q (read l) (read_rows read lines) in
      rw (all, first, has_line-sort lines) refl

-- Without a limit and without cancellation, on a file whose last line is not empty, whose lines fit the
-- buffer of the scanners of the external sort, and in whose sorted lines every masked prefix that has
-- occurred before is the prefix of the row just before: importIPListDisk writes what importIPListMap
-- writes of the sorted file, which is every prefix that importIPListMap writes of the file itself, and no
-- other, each once.
pub import_ip_list_disk-map :
    (read : Text → Option Entry) (fits : Text → Bool) (bytes : ℕ) (lines : List Text) (q : Prefix)
    → All (λ l. fits l ≡ true) lines
    → LastNotEmpty lines
    → Grouped [] none (masked_prefixes (read_rows read (sort_lines lines)))
    → let w = import_ip_list_disk read fits never bytes lines in
      (w ≡ import_ip_list_map never 0 (read_rows read (sort_lines lines)))
      × Distinct (prefixes w.rows)
      × (has q (prefixes w.rows)
          ≡ has q (prefixes (import_ip_list_map never 0 (read_rows read lines)).rows))
unfolding import_ip_list_disk import_ip_list_map
import_ip_list_disk-map read fits bytes lines q f last g =
    let sorted = read_rows read (sort_lines lines) in
    let ordered = disk_rows-map [] [] none 0 sorted (λ p. refl) g in
    let of_sorted = import_ip_list_map-Distinct sorted q in
    let of_file = import_ip_list_map-Distinct (read_rows read lines) q in
    let same : import_disk_rows never none 0 (read_rows read (sort_file fits bytes lines))
        ≡ import_ip_list_map never 0 sorted =
      ap (λ ls. import_disk_rows never none 0 (read_rows read ls))
        (sort_file-lines fits bytes lines f last)
      ∙ ordered in
    rw same (refl, of_sorted.1, of_sorted.2 ∙ has_line-sort read q lines ∙ sym of_file.2)
