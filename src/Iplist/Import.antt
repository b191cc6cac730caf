-- ===== src/Iplist/Import.antt =====
-- internal/core/iplist/loader.go: ImportIPList with its two strategies, over a file that is the list of
-- its lines. The reading of a line, by encoding/csv and the parser of the list, is an argument, and none
-- where it gives no entry; `ctx r` says that row r finds the context closed.
pub mod Distinct
pub mod Grouped
use bgscan.Base.{
  ℕ, zero, suc, ◌+◌, ◌≡◌, refl, Bool, true, false, ◌&&◌, ◌||◌, List, [], ◌∷◌, Option, none, some,
  ltb, leb, ◌==◌, if◌then◌else◌, length, map,
}
use bgscan.Config.Texts.{Text}
use bgscan.Fileutil.{sort_file}
use bgscan.Iplist.Addr.{Addr, v4, v6, Prefix, masked}
use bgscan.Iplist.Count.{Entry}

-- The == of netip.Prefix.
abbrev pub same_addr : Addr → Addr → Bool
same_addr (v4 m) (v4 n) = m == n
same_addr (v6 m) (v6 n) = m == n
same_addr _ _ = false

abbrev pub same_prefix : Prefix → Prefix → Bool
same_prefix p q = same_addr p.addr q.addr && (p.bits == q.bits)

-- The keys of the map `seen`.
abbrev pub has : Prefix → List Prefix → Bool
has p [] = false
has p (q ∷ qs) = same_prefix p q || has p qs

pub data ImportStatus : Type 0 where
  imported cancelled limit_exceeded : ImportStatus

-- The rows written, and how the import ended.
pub record Imported : Type 0 where
  pub rows : List Entry
  pub status : ImportStatus

abbrev pub write : Entry → Imported → Imported
write e w = record w { rows = e ∷ w.rows }

abbrev pub masked_entry : Entry → Entry
masked_entry e = record e { ip = masked e.ip }

-- The callback of importIPListMap on the rows from number r on.
unfoldable pub import_map_rows : (ℕ → Bool) → ℕ → List Prefix → ℕ → List Entry → Imported
import_map_rows ctx max_entries seen r [] = record { rows = []; status = imported }
import_map_rows ctx max_entries seen r (e ∷ es) =
    let entry = masked_entry e in
    let skip = import_map_rows ctx max_entries seen (r + 1) es in
    let more = import_map_rows ctx max_entries (entry.ip ∷ seen) (r + 1) es in
    if ctx r
    then record { rows = []; status = cancelled }
    else if has entry.ip seen
    then skip
    else if ltb 0 max_entries && leb max_entries (length seen)
    then record { rows = []; status = limit_exceeded }
    else write entry more

unfoldable pub import_ip_list_map : (ℕ → Bool) → ℕ → List Entry → Imported
unfolding import_map_rows
import_ip_list_map ctx max_entries rows = import_map_rows ctx max_entries [] 0 rows

abbrev pub is_last : Prefix → Option Prefix → Bool
is_last p none = false
is_last p (some q) = same_prefix q p

-- The callback of importIPListDisk; none is the invalid prefix that `last` starts with.
unfoldable pub import_disk_rows : (ℕ → Bool) → Option Prefix → ℕ → List Entry → Imported
import_disk_rows ctx last r [] = record { rows = []; status = imported }
import_disk_rows ctx last r (e ∷ es) =
    let entry = masked_entry e in
    let skip = import_disk_rows ctx last (r + 1) es in
    let more = import_disk_rows ctx (some entry.ip) (r + 1) es in
    if ctx r
    then record { rows = []; status = cancelled }
    else if is_last entry.ip last
    then skip
    else write entry more

abbrev pub put_row : Option Entry → List Entry → List Entry
put_row none rows = rows
put_row (some e) rows = e ∷ rows

-- The entries that ReadCSV hands to its callback.
abbrev pub read_rows : (Text → Option Entry) → List Text → List Entry
read_rows read [] = []
read_rows read (l ∷ lines) = put_row (read l) (read_rows read lines)

-- importIPListDisk of a file of so many bytes; `fits` says of a line that it fits the buffer of a scanner.
unfoldable pub import_ip_list_disk :
    (Text → Option Entry) → (Text → Bool) → (ℕ → Bool) → ℕ → List Text → Imported
unfolding import_disk_rows sort_file
import_ip_list_disk read fits ctx bytes lines =
    import_disk_rows ctx none 0 (read_rows read (sort_file fits bytes lines))

-- ImportIPList: the strategy by the size of the file.
unfoldable pub import_ip_list :
    (Text → Option Entry) → (Text → Bool) → (ℕ → Bool) → ℕ → ℕ → ℕ → List Text → Imported
unfolding import_ip_list_map import_ip_list_disk
import_ip_list read fits ctx max_map_file_size max_entries bytes lines =
    if leb bytes max_map_file_size
    then import_ip_list_map ctx max_entries (read_rows read lines)
    else import_ip_list_disk read fits ctx bytes lines
