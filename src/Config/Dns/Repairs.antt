-- ===== src/Config/Dns/Repairs.antt =====
-- internal/core/config/validate/dns.go: the defaults are valid, and NormalizeDNS repairs a section.
use bgscan.Base.{◌≡◌, refl, [], Bool}
use bgscan.Config.Platforms.{Platform, android, desktop, server, Tier, low, mid, high}
use bgscan.Config.Texts.{Text}
use bgscan.Config.Checks.{
  duration, report-none, report-passes, fix-passes, check_int, check_uint16, check_duration,
  check_prefix, check_enum, workers_field, port_field, timeout_field, tries_field,
  output_prefix_field, transport_field, domain_field, check_types_field, dpi_tries_field,
  dpi_timeout_field,
}
use bgscan.Config.Domains.{check_domain, check_domain-example}
use bgscan.Config.Dns.{
  check_string_slice, resolver_workers, resolver_transport, resolver_port, resolver_timeout,
  resolver_tries, dpi_timeout_check, tunnel_workers, tunnel_timeout, ResolverConfig, DnsTunneling,
  DnsConfig, default_dns, validate_resolver, validate_dns_tunneling, validate_dns,
  normalize_resolver, normalize_dns_tunneling, normalize_dns,
}

default_resolver-valid :
    (is_ip : Text → Bool) (p : Platform) (t : Tier)
    → validate_resolver is_ip (default_dns p t).resolver ≡ []
unfolding validate_resolver check_int check_uint16 check_duration check_prefix check_enum
    check_string_slice duration
default_resolver-valid is_ip server low = rw (check_domain-example is_ip) refl
default_resolver-valid is_ip server mid = rw (check_domain-example is_ip) refl
default_resolver-valid is_ip server high = rw (check_domain-example is_ip) refl
default_resolver-valid is_ip desktop low = rw (check_domain-example is_ip) refl
default_resolver-valid is_ip desktop mid = rw (check_domain-example is_ip) refl
default_resolver-valid is_ip desktop high = rw (check_domain-example is_ip) refl
default_resolver-valid is_ip android low = rw (check_domain-example is_ip) refl
default_resolver-valid is_ip android mid = rw (check_domain-example is_ip) refl
default_resolver-valid is_ip android high = rw (check_domain-example is_ip) refl

default_tunneling-valid :
    (p : Platform) (t : Tier) → validate_dns_tunneling (default_dns p t).dns_tunneling ≡ []
unfolding validate_dns_tunneling check_int check_uint16 check_duration check_prefix check_enum
    check_string_slice duration
default_tunneling-valid server low = refl
default_tunneling-valid server mid = refl
default_tunneling-valid server high = refl
default_tunneling-valid desktop low = refl
default_tunneling-valid desktop mid = refl
default_tunneling-valid desktop high = refl
default_tunneling-valid android low = refl
default_tunneling-valid android mid = refl
default_tunneling-valid android high = refl

normalize_resolver-valid :
    (is_ip : Text → Bool) (def c : ResolverConfig)
    → validate_resolver is_ip def ≡ []
    → validate_resolver is_ip (normalize_resolver is_ip def c).0 ≡ []
unfolding validate_resolver normalize_resolver
normalize_resolver-valid is_ip def c h =
    let (p9, r9) = report-none _ output_prefix_field (check_prefix def.output_prefix) h in
    let (p8, r8) = report-none _ dpi_timeout_field (dpi_timeout_check def.dpi_timeout) r9 in
    let (p7, r7) = report-none _ dpi_tries_field (resolver_tries def.dpi_tries) r8 in
    let (p6, r6) = report-none _ tries_field (resolver_tries def.tries) r7 in
    let (p5, r5) = report-none _ timeout_field (resolver_timeout def.timeout) r6 in
    let (p4, r4) = report-none _ check_types_field (check_string_slice def.check_types) r5 in
    let (p3, r3) = report-none _ port_field (resolver_port def.port) r4 in
    let (p2, r2) = report-none _ domain_field ((check_domain is_ip) def.domain) r3 in
    let (p1, r1) = report-none _ transport_field (resolver_transport def.transport) r2 in
    let p0 = report-passes workers_field (resolver_workers def.workers) r1 in
    rw
      (
        fix-passes workers_field resolver_workers def.workers c.workers _ p0,
        fix-passes transport_field resolver_transport def.transport c.transport _ p1,
        fix-passes domain_field (check_domain is_ip) def.domain c.domain _ p2,
        fix-passes port_field resolver_port def.port c.port _ p3,
        fix-passes check_types_field check_string_slice def.check_types c.check_types _ p4,
        fix-passes timeout_field resolver_timeout def.timeout c.timeout _ p5,
        fix-passes tries_field resolver_tries def.tries c.tries _ p6,
        fix-passes dpi_tries_field resolver_tries def.dpi_tries c.dpi_tries _ p7,
        fix-passes dpi_timeout_field dpi_timeout_check def.dpi_timeout c.dpi_timeout _ p8,
        fix-passes output_prefix_field check_prefix def.output_prefix c.output_prefix _ p9,
      )
      refl

normalize_dns_tunneling-valid :
    (def c : DnsTunneling)
    → validate_dns_tunneling def ≡ []
    → validate_dns_tunneling (normalize_dns_tunneling def c).0 ≡ []
unfolding validate_dns_tunneling normalize_dns_tunneling
normalize_dns_tunneling-valid def c h =
    let (p3, r3) = report-none _ output_prefix_field (check_prefix def.output_prefix) h in
    let (p2, r2) = report-none _ tries_field (resolver_tries def.tries) r3 in
    let (p1, r1) = report-none _ timeout_field (tunnel_timeout def.timeout) r2 in
    let p0 = report-passes workers_field (tunnel_workers def.workers) r1 in
    rw
      (
        fix-passes workers_field tunnel_workers def.workers c.workers _ p0,
        fix-passes timeout_field tunnel_timeout def.timeout c.timeout _ p1,
        fix-passes tries_field resolver_tries def.tries c.tries _ p2,
        fix-passes output_prefix_field check_prefix def.output_prefix c.output_prefix _ p3,
      )
      refl

-- On every platform and tier, for any section and whatever net.ParseIP accepts: what NormalizeDNS leaves
-- passes ValidateDNS.
pub normalize_dns-repairs :
    (is_ip : Text → Bool) (p : Platform) (t : Tier) (c : DnsConfig)
    → validate_dns is_ip (normalize_dns is_ip (default_dns p t) c).0 ≡ ([], [])
unfolding validate_dns normalize_dns
normalize_dns-repairs is_ip p t c =
    let def = default_dns p t in
    rw
      (
        normalize_resolver-valid is_ip def.resolver c.resolver (default_resolver-valid is_ip p t),
        normalize_dns_tunneling-valid def.dns_tunneling c.dns_tunneling
            (default_tunneling-valid p t),
      )
      refl
