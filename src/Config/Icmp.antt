-- ===== src/Config/Icmp.antt =====
-- internal/core/config/icmp.go and validate/icmp.go: the section on ICMP probes.
use bgscan.Base.{ℕ, ◌*◌, ◌≡◌, refl, ◌∙◌, ap, [], ◌++◌, Option, none}
use bgscan.Config.Platforms.{Platform, android, desktop, server, Tier, low, mid, high}
use bgscan.Config.Texts.{Text, codes}
use bgscan.Config.Checks.{
  ℤ, pos, duration, millisecond, Report, report, report-none, report-passes, CheckError, fix,
  fix-passes, fix-keeps, check_int, check_uint16, check_duration, check_prefix, check_string,
  check_enum, check_directory_name, workers_field, timeout_field, tries_field, output_prefix_field,
}

pub record IcmpConfig : Type 0 where
  pub workers : ℤ
  pub timeout : ℤ
  pub tries : ℕ
  pub output_prefix : Text

abbrev pub icmp_workers : ℤ → Option CheckError
icmp_workers v = check_int v 1 5000

abbrev pub icmp_timeout : ℤ → Option CheckError
icmp_timeout v = check_duration (duration v) (100 * millisecond) (30_000 * millisecond)

abbrev pub icmp_tries : ℕ → Option CheckError
icmp_tries v = check_uint16 v 1 10

-- An entry of icmpDefaults.
abbrev pub icmp_entry : ℕ → ℕ → IcmpConfig
icmp_entry workers timeout = record {
  workers = pos workers;
  timeout = pos timeout;
  tries = 1;
  output_prefix = codes "icmp_";
}

-- DefaultICMPConfig, by what DetectPlatform and SelectTier return.
abbrev pub default_icmp : Platform → Tier → IcmpConfig
default_icmp server low = icmp_entry 100 2000
default_icmp server mid = icmp_entry 400 2000
default_icmp server high = icmp_entry 1000 1500
default_icmp desktop low = icmp_entry 30 2000
default_icmp desktop mid = icmp_entry 150 2000
default_icmp desktop high = icmp_entry 300 2000
default_icmp android low = icmp_entry 15 3000
default_icmp android mid = icmp_entry 60 3000
default_icmp android high = icmp_entry 100 2500

unfoldable pub validate_icmp : IcmpConfig → Report
validate_icmp c =
    report workers_field (icmp_workers c.workers)
    ++ report timeout_field (icmp_timeout c.timeout)
    ++ report tries_field (icmp_tries c.tries)
    ++ report output_prefix_field (check_prefix c.output_prefix)

-- NormalizeICMP: the section after it, and its warnings.
unfoldable pub normalize_icmp : IcmpConfig → IcmpConfig → IcmpConfig × Report
normalize_icmp def c =
    let (workers, w0) = fix workers_field icmp_workers def.workers c.workers [] in
    let (timeout, w1) = fix timeout_field icmp_timeout def.timeout c.timeout w0 in
    let (tries, w2) = fix tries_field icmp_tries def.tries c.tries w1 in
    let (output_prefix, w3) =
      fix output_prefix_field check_string def.output_prefix c.output_prefix w2 in
    (
      record { workers = workers; timeout = timeout; tries = tries; output_prefix = output_prefix },
      w3,
    )

default_icmp-valid : (p : Platform) (t : Tier) → validate_icmp (default_icmp p t) ≡ []
unfolding validate_icmp check_int check_uint16 check_duration check_prefix check_string check_enum
    check_directory_name duration
default_icmp-valid server low = refl
default_icmp-valid server mid = refl
default_icmp-valid server high = refl
default_icmp-valid desktop low = refl
default_icmp-valid desktop mid = refl
default_icmp-valid desktop high = refl
default_icmp-valid android low = refl
default_icmp-valid android mid = refl
default_icmp-valid android high = refl

normalize_icmp-valid :
    (def c : IcmpConfig)
    → validate_icmp def ≡ []
    → validate_icmp (normalize_icmp def c).0
      ≡ report output_prefix_field (check_prefix (normalize_icmp def c).0.output_prefix)
unfolding validate_icmp normalize_icmp
normalize_icmp-valid def c h =
    let (p3, r3) = report-none _ output_prefix_field (check_prefix def.output_prefix) h in
    let (p2, r2) = report-none _ tries_field (icmp_tries def.tries) r3 in
    let (p1, r1) = report-none _ timeout_field (icmp_timeout def.timeout) r2 in
    let p0 = report-passes workers_field (icmp_workers def.workers) r1 in
    rw
      (
        fix-passes workers_field icmp_workers def.workers c.workers _ p0,
        fix-passes timeout_field icmp_timeout def.timeout c.timeout _ p1,
        fix-passes tries_field icmp_tries def.tries c.tries _ p2,
      )
      refl

-- On every platform and tier, for any section: the only error that ValidateICMP can report after
-- NormalizeICMP is one of the output prefix, and none at all if the prefix was blank or valid.
pub normalize_icmp-repairs :
    (p : Platform) (t : Tier) (c : IcmpConfig)
    → let after = (normalize_icmp (default_icmp p t) c).0 in
      validate_icmp after ≡ report output_prefix_field (check_prefix after.output_prefix)
normalize_icmp-repairs p t c = normalize_icmp-valid (default_icmp p t) c (default_icmp-valid p t)

-- NormalizeICMP leaves an output prefix that is not blank as it is, also one that ValidateICMP
-- refuses: after it ValidateICMP reports exactly the error of that prefix.
pub normalize_icmp-misses :
    (p : Platform) (t : Tier) (c : IcmpConfig)
    → check_string c.output_prefix ≡ none
    → validate_icmp (normalize_icmp (default_icmp p t) c).0
      ≡ report output_prefix_field (check_prefix c.output_prefix)
unfolding normalize_icmp
normalize_icmp-misses p t c h =
    let def = default_icmp p t in
    normalize_icmp-repairs p t c
    ∙ ap (λ v. report output_prefix_field (check_prefix v))
        (fix-keeps output_prefix_field check_string def.output_prefix c.output_prefix _ h)
