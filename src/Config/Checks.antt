-- ===== src/Config/Checks.antt =====
-- internal/core/config/validate/validate.go: the check and fix functions; types.go: DurationMS.
-- Go's int and int64 are integers, with the wrap-around of int64 written out where durations are
-- computed; a string is the list of its characters.
use mathlib.Core.List.{append-nil}
use bgscan.Config.Texts.{
  Text, any_char, blank, illegal_filename_char, starts_with, ends_with, has_dot_dot, same_text,
  lower, one_of,
}
use bgscan.Base.{
  ℕ, ◌+◌, ◌-◌, ◌*◌, ◌%◌, ◌^◌, ◌≡◌, refl, ◌∙◌, sym, Bool, true, false, ◌||◌, Option, none, some,
  List, [], ◌∷◌, ◌++◌, leb, ltb, if◌then◌else◌, Option-cases, inl, inr,
}

pub data ℤ : Type 0 where
  pos : ℕ → ℤ
  negsuc : ℕ → ℤ

abbrev pub lt : ℤ → ℤ → Bool
lt (pos m) (pos n) = ltb m n
lt (pos m) (negsuc n) = false
lt (negsuc m) (pos n) = true
lt (negsuc m) (negsuc n) = ltb n m

-- A residue modulo 2^64 as an int64.
abbrev pub signed : ℕ → ℤ
signed r = if ltb r (2 ^ 63) then pos r else negsuc (2 ^ 64 - 1 - r)

abbrev pub wrap_int64 : ℤ → ℤ
wrap_int64 (pos n) = signed (n % 2 ^ 64)
wrap_int64 (negsuc n) = signed (2 ^ 64 - 1 - n % 2 ^ 64)

-- v + k and v - k on int64.
abbrev pub plus : ℤ → ℕ → ℤ
plus (pos n) k = wrap_int64 (pos (n + k))
plus (negsuc n) k = if ltb n k then pos (k - n - 1) else negsuc (n - k)

abbrev pub minus : ℤ → ℕ → ℤ
minus (pos n) k = if leb k n then pos (n - k) else negsuc (k - n - 1)
minus (negsuc n) k = wrap_int64 (negsuc (n + k))

-- time.Millisecond, in nanoseconds.
abbrev pub millisecond : ℕ
millisecond = 1_000_000

-- DurationMS.Duration.
unfoldable pub duration : ℤ → ℤ
duration (pos n) = wrap_int64 (pos (n * millisecond))
duration (negsuc n) = wrap_int64 (negsuc (n * millisecond + (millisecond - 1)))

-- The errors that the checks wrap.
pub data CheckError : Type 0 where
  out_of_range empty invalid_enum illegal_chars leading_trailing dot_dot negative : CheckError
  scheme_not_allowed path_or_port invalid_domain : CheckError

unfoldable pub check_int : ℤ → ℕ → ℕ → Option CheckError
check_int v min max = if lt v (pos min) || lt (pos max) v then some out_of_range else none

unfoldable pub check_uint16 : ℕ → ℕ → ℕ → Option CheckError
check_uint16 v min max = if ltb v min || ltb max v then some out_of_range else none

-- The bounds are relaxed by one millisecond.
unfoldable pub check_duration : ℤ → ℕ → ℕ → Option CheckError
check_duration v min max =
    if lt (plus v millisecond) (pos min) || lt (pos max) (minus v millisecond)
    then some out_of_range
    else none

unfoldable pub check_string : Text → Option CheckError
check_string v = if blank v then some empty else none

unfoldable pub check_enum : Text → List Text → Option CheckError
check_enum v allowed = if one_of (lower v) allowed then none else some invalid_enum

abbrev pub edged : Text → Bool
edged s = starts_with b'.' s || ends_with b'.' s || starts_with b' ' s || ends_with b' ' s

unfoldable pub check_prefix : Text → Option CheckError
unfolding illegal_filename_char
check_prefix prefix =
    if blank prefix
    then some empty
    else if any_char illegal_filename_char prefix
    then some illegal_chars
    else if edged prefix
    then some leading_trailing
    else none

unfoldable pub check_directory_name : Text → Option CheckError
unfolding illegal_filename_char
check_directory_name name =
    if blank name
    then some empty
    else if any_char illegal_filename_char name
    then some illegal_chars
    else if same_text name (b'.' ∷ []) || same_text name (b'.' ∷ b'.' ∷ [])
    then some illegal_chars
    else if edged name
    then some leading_trailing
    else if has_dot_dot name
    then some dot_dot
    else none

-- The fields of the sections.
pub data Field : Type 0 where
  accepted_status_codes_field batch_size_field chan_size_field check_types_field : Field
  connectivity_test_type_field dial_max_attempts_field domain_field download_speed_field : Field
  dpi_timeout_field dpi_tries_field fingerprint_field host_field : Field
  max_concurrent_dials_field max_ips_per_stage_field max_ips_to_test_field
        max_successful_ips_field :
      Field
  max_tls_version_field merge_flush_interval_field min_probe_duration_field min_tls_version_field :
      Field
  output_prefix_field pipeline_mode_field port_field pre_scan_type_field : Field
  probe_burst_field probe_per_sec_field protocol_field result_base_dir_field : Field
  server_name_field speed_test_timeout_field status_interval_field timeout_field : Field
  transport_field tries_field upload_speed_field version_field workers_field : Field

-- The fields with errors, in the order of the checks: the keys of the map of Validate are
-- distinct, and so is each Warning's field in one normalisation.
abbrev pub Report : Type 0
Report = List (Field × CheckError)

abbrev pub report : Field → Option CheckError → Report
report field none = []
report field (some e) = (field, e) ∷ []

-- The body of every fix function: on an error the default and one more warning.
unfoldable pub fix : {A : Type 0} → Field → (A → Option CheckError) → A → A → Report → A × Report
fix field check def v warns = elim (check v) [
  | none ↦ (v, warns)
  | some e ↦ (def, warns ++ (field, e) ∷ [])
]

module _ {A : Type 0} (field : Field) (check : A → Option CheckError) (def v : A)
    (warns : Report) where
  -- With a default that passes the check, a fixed value passes it.
  pub fix-passes : check def ≡ none → check (fix field check def v warns).0 ≡ none
  unfolding fix
  fix-passes h = elim (Option-cases (check v)) [
    | inl e ↦ rw (e, fix) e
    | inr (x, e) ↦ rw (e, fix) h
  ]

  -- The warnings of a fix are the report of its check.
  pub fix-warns : (fix field check def v warns).1 ≡ warns ++ report field (check v)
  unfolding fix
  fix-warns = elim (Option-cases (check v)) [
    | inl e ↦ rw (e, fix) (sym (append-nil warns))
    | inr (x, e) ↦ rw (e, fix) refl
  ]

  pub fix-keeps : check v ≡ none → (fix field check def v warns).0 ≡ v
  unfolding fix
  fix-keeps h = rw (h, fix) refl

-- The value after a failed check.
pub fix-replaces :
    {A : Type 0} (field : Field) (check : A → Option CheckError) (def v : A) (warns : Report)
    (e : CheckError)
    → check v ≡ some e
    → (fix field check def v warns).0 ≡ def
unfolding fix
fix-replaces field check def v warns e h = rw (h, fix) refl

-- The last check and the others of a report without errors.
pub report-none :
    (r : Report) (field : Field) (o : Option CheckError)
    → r ++ report field o ≡ []
    → (o ≡ none) × (r ≡ [])
report-none r field none h = (refl, sym (append-nil r) ∙ h)
report-none [] field (some e) h = cc
report-none (x ∷ r) field (some e) h = cc

pub report-passes : (field : Field) (o : Option CheckError) → report field o ≡ [] → o ≡ none
report-passes field none h = refl
report-passes field (some e) h = cc
