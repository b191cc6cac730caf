-- ===== src/Config/Dns.antt =====
-- internal/core/config/dns.go and validate/dns.go: the section on the DNS resolver and the tunnels. The
-- fields of DPIConfig stand in the resolver's record; is_ip is net.ParseIP.
pub mod Repairs
use bgscan.Base.{ℕ, ◌*◌, ◌≡◌, refl, List, [], ◌∷◌, ◌++◌, Option, none, some, Bool, true}
use bgscan.Config.Platforms.{Platform, android, desktop, server, Tier, low, mid, high}
use bgscan.Config.Texts.{Text, codes}
use bgscan.Config.Checks.{
  ℤ, pos, duration, millisecond, Report, report, report-none, report-passes, CheckError, empty, fix,
  fix-passes, check_int, check_uint16, check_duration, check_prefix, check_enum, workers_field,
  port_field, timeout_field, tries_field, output_prefix_field, transport_field, domain_field,
  check_types_field, dpi_tries_field, dpi_timeout_field,
}
use bgscan.Config.Domains.{check_domain, check_domain-example}

abbrev pub allowed_dns_transport : List Text
allowed_dns_transport = codes "udp" ∷ codes "tcp" ∷ codes "dot" ∷ codes "doh" ∷ []

unfoldable pub check_string_slice : List Text → Option CheckError
check_string_slice [] = some empty
check_string_slice (t ∷ ts) = none

abbrev pub resolver_workers : ℤ → Option CheckError
resolver_workers v = check_int v 1 2500

abbrev pub resolver_transport : Text → Option CheckError
resolver_transport v = check_enum v allowed_dns_transport

abbrev pub resolver_port : ℕ → Option CheckError
resolver_port v = check_uint16 v 1 65535

abbrev pub resolver_timeout : ℤ → Option CheckError
resolver_timeout v = check_duration (duration v) (100 * millisecond) (30_000 * millisecond)

abbrev pub resolver_tries : ℤ → Option CheckError
resolver_tries v = check_int v 1 10

abbrev pub dpi_timeout_check : ℤ → Option CheckError
dpi_timeout_check v = check_duration (duration v) (100 * millisecond) (10_000 * millisecond)

abbrev pub tunnel_workers : ℤ → Option CheckError
tunnel_workers v = check_int v 1 500

abbrev pub tunnel_timeout : ℤ → Option CheckError
tunnel_timeout v = check_duration (duration v) (100 * millisecond) (60_000 * millisecond)

pub record ResolverConfig : Type 0 where
  pub workers : ℤ
  pub transport : Text
  pub domain : Text
  pub port : ℕ
  pub check_types : List Text
  pub edns_buf_size : ℕ
  pub timeout : ℤ
  pub tries : ℤ
  pub random_subdomain : Bool
  pub accepted_rcodes : List Text
  pub output_prefix : Text
  pub dpi_enabled : Bool
  pub dpi_timeout : ℤ
  pub dpi_tries : ℤ

pub record DnsTunneling : Type 0 where
  pub workers : ℤ
  pub tries : ℤ
  pub timeout : ℤ
  pub check_dns_resolver : Bool
  pub adaptive_resolver : Bool
  pub output_prefix : Text

pub record DnsConfig : Type 0 where
  pub resolver : ResolverConfig
  pub dns_tunneling : DnsTunneling

abbrev pub resolver_base : ResolverConfig
resolver_base = record {
  workers = pos 0;
  transport = codes "udp";
  domain = codes "example.com";
  port = 53;
  check_types = codes "TXT" ∷ [];
  edns_buf_size = 1232;
  timeout = pos 0;
  tries = pos 0;
  random_subdomain = true;
  accepted_rcodes = codes "NOERROR" ∷ codes "NXDOMAIN" ∷ codes "SERVFAIL" ∷ [];
  output_prefix = codes "dns_";
  dpi_enabled = true;
  dpi_timeout = pos 2000;
  dpi_tries = pos 1;
}

abbrev pub with_resolver : ResolverConfig → ℕ → ℕ → ℕ → ResolverConfig
with_resolver base workers tries timeout = record base {
  workers = pos workers;
  tries = pos tries;
  timeout = pos timeout;
}

abbrev pub tunnel_base : DnsTunneling
tunnel_base = record {
  workers = pos 0;
  tries = pos 0;
  timeout = pos 0;
  check_dns_resolver = true;
  adaptive_resolver = true;
  output_prefix = codes "dns_tun_";
}

abbrev pub with_tunnel : DnsTunneling → ℕ → ℕ → ℕ → DnsTunneling
with_tunnel base workers tries timeout = record base {
  workers = pos workers;
  tries = pos tries;
  timeout = pos timeout;
}

abbrev pub dns_entry : ℕ → ℕ → ℕ → ℕ → DnsConfig
dns_entry workers timeout tunnels tunnel_time = record {
  resolver = with_resolver resolver_base workers 1 timeout;
  dns_tunneling = with_tunnel tunnel_base tunnels 1 tunnel_time;
}

-- DefaultDNSConfig, by what DetectPlatform and SelectTier return; durations in milliseconds.
abbrev pub default_dns : Platform → Tier → DnsConfig
default_dns server low = dns_entry 80 2000 12 10000
default_dns server mid = dns_entry 100 2000 24 10000
default_dns server high = dns_entry 200 1500 64 8000
default_dns desktop low = dns_entry 30 2000 8 10000
default_dns desktop mid = dns_entry 80 2000 16 10000
default_dns desktop high = dns_entry 100 2000 32 10000
default_dns android low = dns_entry 15 3000 3 10000
default_dns android mid = dns_entry 40 3000 6 10000
default_dns android high = dns_entry 80 2500 12 10000

unfoldable pub validate_resolver : (Text → Bool) → ResolverConfig → Report
validate_resolver is_ip c =
    report workers_field (resolver_workers c.workers)
    ++ report transport_field (resolver_transport c.transport)
    ++ report domain_field ((check_domain is_ip) c.domain)
    ++ report port_field (resolver_port c.port)
    ++ report check_types_field (check_string_slice c.check_types)
    ++ report timeout_field (resolver_timeout c.timeout)
    ++ report tries_field (resolver_tries c.tries)
    ++ report dpi_tries_field (resolver_tries c.dpi_tries)
    ++ report dpi_timeout_field (dpi_timeout_check c.dpi_timeout)
    ++ report output_prefix_field (check_prefix c.output_prefix)

unfoldable pub validate_dns_tunneling : DnsTunneling → Report
validate_dns_tunneling c =
    report workers_field (tunnel_workers c.workers)
    ++ report timeout_field (tunnel_timeout c.timeout)
    ++ report tries_field (resolver_tries c.tries)
    ++ report output_prefix_field (check_prefix c.output_prefix)

-- ValidateDNS: the errors of the two parts, whose fields it names after them.
unfoldable pub validate_dns : (Text → Bool) → DnsConfig → Report × Report
unfolding validate_resolver validate_dns_tunneling
validate_dns is_ip c = (validate_resolver is_ip c.resolver, validate_dns_tunneling c.dns_tunneling)

unfoldable pub normalize_resolver :
    (Text → Bool) → ResolverConfig → ResolverConfig → ResolverConfig × Report
normalize_resolver is_ip def c =
    let (workers, w0) = fix workers_field resolver_workers def.workers c.workers [] in
    let (transport, w1) = fix transport_field resolver_transport def.transport c.transport w0 in
    let (domain, w2) = fix domain_field (check_domain is_ip) def.domain c.domain w1 in
    let (port, w3) = fix port_field resolver_port def.port c.port w2 in
    let (check_types, w4) =
      fix check_types_field check_string_slice def.check_types c.check_types w3 in
    let (timeout, w5) = fix timeout_field resolver_timeout def.timeout c.timeout w4 in
    let (tries, w6) = fix tries_field resolver_tries def.tries c.tries w5 in
    let (dpi_tries, w7) = fix dpi_tries_field resolver_tries def.dpi_tries c.dpi_tries w6 in
    let (dpi_timeout, w8) =
      fix dpi_timeout_field dpi_timeout_check def.dpi_timeout c.dpi_timeout w7 in
    let (output_prefix, w9) =
      fix output_prefix_field check_prefix def.output_prefix c.output_prefix w8 in
    (
      record {
        workers = workers;
        transport = transport;
        domain = domain;
        port = port;
        check_types = check_types;
        edns_buf_size = c.edns_buf_size;
        timeout = timeout;
        tries = tries;
        random_subdomain = c.random_subdomain;
        accepted_rcodes = c.accepted_rcodes;
        output_prefix = output_prefix;
        dpi_enabled = c.dpi_enabled;
        dpi_timeout = dpi_timeout;
        dpi_tries = dpi_tries;
      },
      w9,
    )

unfoldable pub normalize_dns_tunneling : DnsTunneling → DnsTunneling → DnsTunneling × Report
normalize_dns_tunneling def c =
    let (workers, w0) = fix workers_field tunnel_workers def.workers c.workers [] in
    let (tries, w1) = fix tries_field resolver_tries def.tries c.tries w0 in
    let (timeout, w2) = fix timeout_field tunnel_timeout def.timeout c.timeout w1 in
    let (output_prefix, w3) =
      fix output_prefix_field check_prefix def.output_prefix c.output_prefix w2 in
    (
      record {
        workers = workers;
        tries = tries;
        timeout = timeout;
        check_dns_resolver = c.check_dns_resolver;
        adaptive_resolver = c.adaptive_resolver;
        output_prefix = output_prefix;
      },
      w3,
    )

-- NormalizeDNS: the section after it, and the warnings of the two parts.
unfoldable pub normalize_dns : (Text → Bool) → DnsConfig → DnsConfig → DnsConfig × Report
unfolding normalize_resolver normalize_dns_tunneling
normalize_dns is_ip def c =
    let (resolver, w) = normalize_resolver is_ip def.resolver c.resolver in
    let (tunneling, v) = normalize_dns_tunneling def.dns_tunneling c.dns_tunneling in
    (record { resolver = resolver; dns_tunneling = tunneling }, w ++ v)
