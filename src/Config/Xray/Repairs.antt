-- ===== src/Config/Xray/Repairs.antt =====
-- internal/core/config/validate/xray.go: the defaults are valid, and what NormalizeXray repairs.
use mathlib.Core.List.{append-nil}
use bgscan.Base.{◌≡◌, refl, ◌∙◌, ap, [], none, some, inl, inr, if◌then◌else◌, Bool-cases}
use bgscan.Config.Platforms.{Platform, android, desktop, server, Tier, low, mid, high}
use bgscan.Config.Texts.{blank}
use bgscan.Config.Checks.{
  duration, report, report-none, report-passes, empty, fix-passes, fix-keeps, fix-replaces,
  check_int, check_uint16, check_duration, check_prefix, check_string, check_enum,
  check_directory_name, workers_field, timeout_field, output_prefix_field,
  connectivity_test_type_field, download_speed_field, upload_speed_field, speed_test_timeout_field,
  pre_scan_type_field, max_concurrent_dials_field, dial_max_attempts_field,
}
use bgscan.Config.Xray.{
  XrayConfig, xray_test_type, xray_workers, xray_speed, xray_timeout, xray_pre_scan, xray_dials,
  xray_attempts, default_xray, validate_xray, normalize_xray,
}

default_xray-valid : (p : Platform) (t : Tier) → validate_xray (default_xray p t) ≡ []
unfolding validate_xray check_int check_uint16 check_duration check_prefix check_string check_enum
    check_directory_name duration
default_xray-valid server low = refl
default_xray-valid server mid = refl
default_xray-valid server high = refl
default_xray-valid desktop low = refl
default_xray-valid desktop mid = refl
default_xray-valid desktop high = refl
default_xray-valid android low = refl
default_xray-valid android mid = refl
default_xray-valid android high = refl

normalize_xray-valid :
    (def c : XrayConfig)
    → validate_xray def ≡ []
    → validate_xray (normalize_xray def c).0
      ≡ report output_prefix_field (check_prefix (normalize_xray def c).0.output_prefix)
unfolding validate_xray normalize_xray
normalize_xray-valid def c h =
    let (p9, r9) = report-none _ dial_max_attempts_field (xray_attempts def.dial_max_attempts) h in
    let (p8, r8) =
      report-none _ max_concurrent_dials_field (xray_dials def.max_concurrent_dials) r9 in
    let (p7, r7) = report-none _ output_prefix_field (check_prefix def.output_prefix) r8 in
    let (p6, r6) = report-none _ pre_scan_type_field (xray_pre_scan def.pre_scan_type) r7 in
    let (p5, r5) =
      report-none _ speed_test_timeout_field (xray_timeout def.speed_test_timeout) r6 in
    let (p4, r4) = report-none _ timeout_field (xray_timeout def.timeout) r5 in
    let (p3, r3) = report-none _ upload_speed_field (xray_speed def.upload_speed) r4 in
    let (p2, r2) = report-none _ download_speed_field (xray_speed def.download_speed) r3 in
    let (p1, r1) =
      report-none _ connectivity_test_type_field (xray_test_type def.connectivity_test_type) r2 in
    let p0 = report-passes workers_field (xray_workers def.workers) r1 in
    rw
      (
        fix-passes workers_field xray_workers def.workers c.workers _ p0,
        fix-passes connectivity_test_type_field xray_test_type def.connectivity_test_type
            c.connectivity_test_type _ p1,
        fix-passes download_speed_field xray_speed def.download_speed c.download_speed _ p2,
        fix-passes upload_speed_field xray_speed def.upload_speed c.upload_speed _ p3,
        fix-passes timeout_field xray_timeout def.timeout c.timeout _ p4,
        fix-passes speed_test_timeout_field xray_timeout def.speed_test_timeout c.speed_test_timeout
            _ p5,
        fix-passes pre_scan_type_field xray_pre_scan def.pre_scan_type c.pre_scan_type _ p6,
        fix-passes max_concurrent_dials_field xray_dials def.max_concurrent_dials
            c.max_concurrent_dials _ p8,
        fix-passes dial_max_attempts_field xray_attempts def.dial_max_attempts c.dial_max_attempts _
            p9,
      )
      (simp append-nil)

default_xray-prefix :
    (p : Platform) (t : Tier) → check_prefix (default_xray p t).output_prefix ≡ none
unfolding check_prefix
default_xray-prefix server low = refl
default_xray-prefix server mid = refl
default_xray-prefix server high = refl
default_xray-prefix desktop low = refl
default_xray-prefix desktop mid = refl
default_xray-prefix desktop high = refl
default_xray-prefix android low = refl
default_xray-prefix android mid = refl
default_xray-prefix android high = refl

-- On every platform and tier, for any section: ValidateXray has nothing to report of what NormalizeXray
-- leaves but the error of an output prefix that was neither blank nor valid, which NormalizeXray leaves
-- as it is.
pub normalize_xray-repairs :
    (p : Platform) (t : Tier) (c : XrayConfig)
    → validate_xray (normalize_xray (default_xray p t) c).0
      ≡ report output_prefix_field
          (if blank c.output_prefix then none else check_prefix c.output_prefix)
unfolding normalize_xray check_string
normalize_xray-repairs p t c =
    let def = default_xray p t in
    normalize_xray-valid def c (default_xray-valid p t)
    ∙ ap (report output_prefix_field) (elim (Bool-cases (blank c.output_prefix)) [
      | inl b ↦
          let bad : check_string c.output_prefix ≡ some empty = rw b refl in
          rw b (
            ap check_prefix (
              fix-replaces output_prefix_field check_string def.output_prefix c.output_prefix _
                empty bad)
            ∙ default_xray-prefix p t)
      | inr b ↦
          let good : check_string c.output_prefix ≡ none = rw b refl in
          rw b (
            ap check_prefix
              (fix-keeps output_prefix_field check_string def.output_prefix c.output_prefix _ good))
    ])
