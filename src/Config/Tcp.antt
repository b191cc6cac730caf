-- ===== src/Config/Tcp.antt =====
-- internal/core/config/tcp.go and validate/tcp.go: the section on TCP probes.
use mathlib.Core.List.{append_assoc}
use bgscan.Base.{ℕ, ◌*◌, ◌≡◌, refl, ◌∙◌, [], ◌++◌, Option}
use bgscan.Config.Platforms.{Platform, android, desktop, server, Tier, low, mid, high}
use bgscan.Config.Texts.{Text, codes}
use bgscan.Config.Checks.{
  ℤ, pos, duration, millisecond, Report, report, report-none, report-passes, CheckError, fix,
  fix-passes, fix-warns, fix-keeps, check_int, check_uint16, check_duration, check_prefix,
  check_string, check_enum, check_directory_name, workers_field, port_field, timeout_field,
  tries_field, output_prefix_field,
}

pub record TcpConfig : Type 0 where
  pub workers : ℤ
  pub port : ℤ
  pub timeout : ℤ
  pub tries : ℕ
  pub output_prefix : Text

abbrev pub tcp_workers : ℤ → Option CheckError
tcp_workers v = check_int v 1 5000

abbrev pub tcp_port : ℤ → Option CheckError
tcp_port v = check_int v 1 65535

abbrev pub tcp_timeout : ℤ → Option CheckError
tcp_timeout v = check_duration (duration v) (100 * millisecond) (30_000 * millisecond)

abbrev pub tcp_tries : ℕ → Option CheckError
tcp_tries v = check_uint16 v 1 10

-- An entry of tcpDefaults.
abbrev pub tcp_entry : ℕ → ℕ → TcpConfig
tcp_entry workers timeout = record {
  workers = pos workers;
  port = pos 443;
  timeout = pos timeout;
  tries = 1;
  output_prefix = codes "tcp_";
}

-- DefaultTCPConfig, by what DetectPlatform and SelectTier return: the tables are total.
abbrev pub default_tcp : Platform → Tier → TcpConfig
default_tcp server low = tcp_entry 100 2000
default_tcp server mid = tcp_entry 400 2000
default_tcp server high = tcp_entry 1000 1500
default_tcp desktop low = tcp_entry 30 2000
default_tcp desktop mid = tcp_entry 200 2000
default_tcp desktop high = tcp_entry 400 2000
default_tcp android low = tcp_entry 20 3000
default_tcp android mid = tcp_entry 100 3000
default_tcp android high = tcp_entry 150 2500

unfoldable pub validate_tcp : TcpConfig → Report
validate_tcp c =
    report workers_field (tcp_workers c.workers)
    ++ report port_field (tcp_port c.port)
    ++ report timeout_field (tcp_timeout c.timeout)
    ++ report tries_field (tcp_tries c.tries)
    ++ report output_prefix_field (check_prefix c.output_prefix)

-- NormalizeTCP: the section after it, and its warnings.
unfoldable pub normalize_tcp : TcpConfig → TcpConfig → TcpConfig × Report
normalize_tcp def c =
    let (workers, w0) = fix workers_field tcp_workers def.workers c.workers [] in
    let (port, w1) = fix port_field tcp_port def.port c.port w0 in
    let (timeout, w2) = fix timeout_field tcp_timeout def.timeout c.timeout w1 in
    let (tries, w3) = fix tries_field tcp_tries def.tries c.tries w2 in
    let (output_prefix, w4) =
      fix output_prefix_field check_prefix def.output_prefix c.output_prefix w3 in
    (
      record {
        workers = workers;
        port = port;
        timeout = timeout;
        tries = tries;
        output_prefix = output_prefix;
      },
      w4,
    )

default_tcp-valid : (p : Platform) (t : Tier) → validate_tcp (default_tcp p t) ≡ []
unfolding validate_tcp check_int check_uint16 check_duration check_prefix check_string check_enum
    check_directory_name duration
default_tcp-valid server low = refl
default_tcp-valid server mid = refl
default_tcp-valid server high = refl
default_tcp-valid desktop low = refl
default_tcp-valid desktop mid = refl
default_tcp-valid desktop high = refl
default_tcp-valid android low = refl
default_tcp-valid android mid = refl
default_tcp-valid android high = refl

normalize_tcp-valid :
    (def c : TcpConfig) → validate_tcp def ≡ [] → validate_tcp (normalize_tcp def c).0 ≡ []
unfolding validate_tcp normalize_tcp
normalize_tcp-valid def c h =
    let (p4, r4) = report-none _ output_prefix_field (check_prefix def.output_prefix) h in
    let (p3, r3) = report-none _ tries_field (tcp_tries def.tries) r4 in
    let (p2, r2) = report-none _ timeout_field (tcp_timeout def.timeout) r3 in
    let (p1, r1) = report-none _ port_field (tcp_port def.port) r2 in
    let p0 = report-passes workers_field (tcp_workers def.workers) r1 in
    rw
      (
        fix-passes workers_field tcp_workers def.workers c.workers _ p0,
        fix-passes port_field tcp_port def.port c.port _ p1,
        fix-passes timeout_field tcp_timeout def.timeout c.timeout _ p2,
        fix-passes tries_field tcp_tries def.tries c.tries _ p3,
        fix-passes output_prefix_field check_prefix def.output_prefix c.output_prefix _ p4,
      )
      refl

-- On every platform and tier, for any section: what NormalizeTCP leaves passes ValidateTCP.
pub normalize_tcp-repairs :
    (p : Platform) (t : Tier) (c : TcpConfig)
    → validate_tcp (normalize_tcp (default_tcp p t) c).0 ≡ []
normalize_tcp-repairs p t c = normalize_tcp-valid (default_tcp p t) c (default_tcp-valid p t)

-- The warnings of NormalizeTCP are the errors of ValidateTCP, in order, whatever the defaults.
pub normalize_tcp-warns : (def c : TcpConfig) → (normalize_tcp def c).1 ≡ validate_tcp c
unfolding validate_tcp normalize_tcp
normalize_tcp-warns def c = simp (fix-warns, append_assoc)

-- A section that passes ValidateTCP is left as it is, and without a warning.
pub normalize_tcp-keeps :
    (def c : TcpConfig)
    → validate_tcp c ≡ []
    → let r = normalize_tcp def c in (r.0 ≡ c) × (r.1 ≡ [])
unfolding validate_tcp normalize_tcp
normalize_tcp-keeps def c h =
    let (p4, r4) = report-none _ output_prefix_field (check_prefix c.output_prefix) h in
    let (p3, r3) = report-none _ tries_field (tcp_tries c.tries) r4 in
    let (p2, r2) = report-none _ timeout_field (tcp_timeout c.timeout) r3 in
    let (p1, r1) = report-none _ port_field (tcp_port c.port) r2 in
    let p0 = report-passes workers_field (tcp_workers c.workers) r1 in
    let same : (normalize_tcp def c).0 ≡ c =
      rw
        (
          fix-keeps workers_field tcp_workers def.workers c.workers _ p0,
          fix-keeps port_field tcp_port def.port c.port _ p1,
          fix-keeps timeout_field tcp_timeout def.timeout c.timeout _ p2,
          fix-keeps tries_field tcp_tries def.tries c.tries _ p3,
          fix-keeps output_prefix_field check_prefix def.output_prefix c.output_prefix _ p4,
        )
        refl in
    (same, normalize_tcp-warns def c ∙ h)
