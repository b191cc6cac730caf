-- ===== src/Config/Xray.antt =====
-- internal/core/config/xray.go and validate/xray.go: the section on tests through Xray.
pub mod Repairs
use mathlib.Core.List.{append-nil}
use bgscan.Base.{
  ℕ, ◌*◌, ltb, ◌≡◌, refl, ◌∙◌, ap, List, [], ◌∷◌, ◌++◌, Option, none, some, inl, inr, if◌then◌else◌,
  Bool-cases,
}
use bgscan.Config.Platforms.{Platform, android, desktop, server, Tier, low, mid, high}
use bgscan.Config.Texts.{Text, codes, blank}
use bgscan.Config.Checks.{
  ℤ, pos, duration, millisecond, Report, report, report-none, report-passes, CheckError, empty, fix,
  fix-passes, fix-keeps, fix-replaces, check_int, check_uint16, check_duration, check_prefix,
  check_string, check_enum, check_directory_name, workers_field, timeout_field, output_prefix_field,
  connectivity_test_type_field, download_speed_field, upload_speed_field, speed_test_timeout_field,
  pre_scan_type_field, max_concurrent_dials_field, dial_max_attempts_field, invalid_enum,
}

pub record XrayConfig : Type 0 where
  pub workers : ℤ
  pub connectivity_test_type : ℕ
  pub download_speed : ℤ
  pub upload_speed : ℤ
  pub timeout : ℤ
  pub speed_test_timeout : ℤ
  pub pre_scan_type : Text
  pub output_prefix : Text
  pub max_concurrent_dials : ℤ
  pub dial_max_attempts : ℤ

-- ConnectivityOnly, DownloadSpeedOnly, UploadSpeedOnly and Both are 0 to 3; the error of another value
-- lists them, as that of an unknown word does.
abbrev pub xray_test_type : ℕ → Option CheckError
xray_test_type v = if ltb 3 v then some invalid_enum else none

abbrev pub allowed_pre_scan_types : List Text
allowed_pre_scan_types = codes "tcp" ∷ codes "icmp" ∷ codes "none" ∷ codes "http" ∷ []

abbrev pub xray_workers : ℤ → Option CheckError
xray_workers v = check_int v 1 500

abbrev pub xray_speed : ℤ → Option CheckError
xray_speed v = check_int v 0 100_000

abbrev pub xray_timeout : ℤ → Option CheckError
xray_timeout v = check_duration (duration v) (100 * millisecond) (60_000 * millisecond)

abbrev pub xray_pre_scan : Text → Option CheckError
xray_pre_scan v = check_enum v allowed_pre_scan_types

abbrev pub xray_dials : ℤ → Option CheckError
xray_dials v = check_int v 0 10_000

abbrev pub xray_attempts : ℤ → Option CheckError
xray_attempts v = check_int v 1 10

-- xrayBase.
abbrev pub xray_base : XrayConfig
xray_base = record {
  workers = pos 0;
  connectivity_test_type = 3;
  download_speed = pos 0;
  upload_speed = pos 0;
  timeout = pos 0;
  speed_test_timeout = pos 0;
  output_prefix = codes "xray_";
  pre_scan_type = codes "tcp";
  max_concurrent_dials = pos 0;
  dial_max_attempts = pos 0;
}

abbrev pub with_xray : XrayConfig → ℕ → ℕ → ℕ → ℕ → ℕ → ℕ → ℕ → XrayConfig
with_xray base workers download upload timeout speed_test_timeout dials attempts = record base {
  workers = pos workers;
  download_speed = pos download;
  upload_speed = pos upload;
  timeout = pos timeout;
  speed_test_timeout = pos speed_test_timeout;
  max_concurrent_dials = pos dials;
  dial_max_attempts = pos attempts;
}

-- DefaultXrayConfig, by what DetectPlatform and SelectTier return; durations in milliseconds.
abbrev pub default_xray : Platform → Tier → XrayConfig
default_xray server low = with_xray xray_base 16 50 25 2000 6000 128 2
default_xray server mid = with_xray xray_base 32 100 50 2000 6000 256 3
default_xray server high = with_xray xray_base 64 200 100 2000 5000 512 3
default_xray desktop low = with_xray xray_base 8 50 25 3000 6000 64 2
default_xray desktop mid = with_xray xray_base 16 100 50 2000 6000 128 3
default_xray desktop high = with_xray xray_base 32 150 75 2000 5000 256 3
default_xray android low = with_xray xray_base 4 20 10 3000 6000 32 2
default_xray android mid = with_xray xray_base 8 50 25 2000 6000 64 3
default_xray android high = with_xray xray_base 16 80 40 2000 6000 128 3

unfoldable pub validate_xray : XrayConfig → Report
validate_xray c =
    report workers_field (xray_workers c.workers)
    ++ report connectivity_test_type_field (xray_test_type c.connectivity_test_type)
    ++ report download_speed_field (xray_speed c.download_speed)
    ++ report upload_speed_field (xray_speed c.upload_speed)
    ++ report timeout_field (xray_timeout c.timeout)
    ++ report speed_test_timeout_field (xray_timeout c.speed_test_timeout)
    ++ report pre_scan_type_field (xray_pre_scan c.pre_scan_type)
    ++ report output_prefix_field (check_prefix c.output_prefix)
    ++ report max_concurrent_dials_field (xray_dials c.max_concurrent_dials)
    ++ report dial_max_attempts_field (xray_attempts c.dial_max_attempts)

-- NormalizeXray: the section after it, and its warnings.
unfoldable pub normalize_xray : XrayConfig → XrayConfig → XrayConfig × Report
normalize_xray def c =
    let (workers, w0) = fix workers_field xray_workers def.workers c.workers [] in
    let (connectivity_test_type, w1) =
      fix connectivity_test_type_field xray_test_type def.connectivity_test_type
        c.connectivity_test_type w0 in
    let (download_speed, w2) =
      fix download_speed_field xray_speed def.download_speed c.download_speed w1 in
    let (upload_speed, w3) = fix upload_speed_field xray_speed def.upload_speed c.upload_speed w2 in
    let (timeout, w4) = fix timeout_field xray_timeout def.timeout c.timeout w3 in
    let (speed_test_timeout, w5) =
      fix speed_test_timeout_field xray_timeout def.speed_test_timeout c.speed_test_timeout w4 in
    let (pre_scan_type, w6) =
      fix pre_scan_type_field xray_pre_scan def.pre_scan_type c.pre_scan_type w5 in
    let (output_prefix, w7) =
      fix output_prefix_field check_string def.output_prefix c.output_prefix w6 in
    let (max_concurrent_dials, w8) =
      fix max_concurrent_dials_field xray_dials def.max_concurrent_dials c.max_concurrent_dials
        w7 in
    let (dial_max_attempts, w9) =
      fix dial_max_attempts_field xray_attempts def.dial_max_attempts c.dial_max_attempts w8 in
    (
      record {
        workers = workers;
        connectivity_test_type = connectivity_test_type;
        download_speed = download_speed;
        upload_speed = upload_speed;
        timeout = timeout;
        speed_test_timeout = speed_test_timeout;
        pre_scan_type = pre_scan_type;
        output_prefix = output_prefix;
        max_concurrent_dials = max_concurrent_dials;
        dial_max_attempts = dial_max_attempts;
      },
      w9,
    )
