-- ===== src/Config/Tests.antt =====
-- The theorems on the configuration at concrete sections.
use bgscan.Base.{Bool, false, ◌≡◌, refl, [], ◌∷◌, inl}
use bgscan.Config.Platforms.{android, low, desktop, server, mid, high}
use bgscan.Config.Texts.{Text, codes}
use bgscan.Config.Dns.{DnsConfig, default_dns, validate_dns, normalize_dns}
use bgscan.Config.Dns.Repairs.{normalize_dns-repairs}
use bgscan.Config.Xray.{XrayConfig, default_xray, validate_xray, normalize_xray}
use bgscan.Config.Xray.Repairs.{normalize_xray-repairs}
use bgscan.Config.Checks.{
  pos, negsuc, report, check_prefix, output_prefix_field, min_probe_duration_field, out_of_range,
  illegal_chars, check_duration, check_string, duration,
}
use bgscan.Config.Tcp.{TcpConfig, default_tcp, validate_tcp, normalize_tcp, normalize_tcp-repairs}
use bgscan.Config.Icmp.{
  IcmpConfig, default_icmp, validate_icmp, normalize_icmp, normalize_icmp-misses,
}
use bgscan.Config.Writer.{
  WriterConfig, default_writer, validate_writer, normalize_writer, normalize_writer-repairs,
}
use bgscan.Config.General.{
  GeneralConfig, default_general, validate_general, normalize_general, normalize_general-repairs,
  normalize_general-server_high,
}

-- A port out of range and a prefix that is no part of a file name.
abbrev bad_tcp : TcpConfig
bad_tcp = record (default_tcp desktop mid) { port = pos 70000; output_prefix = codes "a/b" }

abbrev bad_icmp : IcmpConfig
bad_icmp = record (default_icmp desktop mid) { workers = negsuc 3; output_prefix = codes "a/b" }

abbrev bad_writer : WriterConfig
bad_writer = record (default_writer desktop mid) {
  result_base_dir = codes "a..b";
  chan_size = pos 0;
}

abbrev bad_general : GeneralConfig
bad_general = record (default_general server high) {
  batch_size = pos 0;
  min_probe_duration = pos 0;
}

normalize_tcp-repairs_example :
    validate_tcp (normalize_tcp (default_tcp desktop mid) bad_tcp).0 ≡ []
normalize_tcp-repairs_example = normalize_tcp-repairs desktop mid bad_tcp

normalize_icmp-misses_example :
    validate_icmp (normalize_icmp (default_icmp desktop mid) bad_icmp).0
    ≡ (output_prefix_field, illegal_chars) ∷ []
unfolding check_string check_prefix
normalize_icmp-misses_example = normalize_icmp-misses desktop mid bad_icmp refl

normalize_writer-repairs_example :
    validate_writer (normalize_writer (default_writer desktop mid) bad_writer).0 ≡ []
normalize_writer-repairs_example = normalize_writer-repairs desktop mid bad_writer

normalize_general-repairs_example :
    validate_general (normalize_general (default_general desktop high) bad_general).0 ≡ []
normalize_general-repairs_example =
    normalize_general-repairs desktop high bad_general (inl (λ e. cc))

normalize_general-server_high_example :
    validate_general (normalize_general (default_general server high) bad_general).0
    ≡ (min_probe_duration_field, out_of_range) ∷ []
unfolding check_duration duration
normalize_general-server_high_example = normalize_general-server_high bad_general out_of_range refl

-- A section with a prefix that is not valid, and no worker.
abbrev bad_xray : XrayConfig
bad_xray = record (default_xray desktop mid) { workers = pos 0; output_prefix = codes "a/b" }

normalize_xray-repairs_example :
    validate_xray (normalize_xray (default_xray desktop mid) bad_xray).0
    ≡ report output_prefix_field (check_prefix (codes "a/b"))
normalize_xray-repairs_example = normalize_xray-repairs desktop mid bad_xray

-- A resolver section with a domain that has a port, and no tries.
abbrev bad_dns : DnsConfig
bad_dns = record (default_dns android low) {
  resolver = record (default_dns android low).resolver {
    domain = codes "example.com:53";
    tries = pos 0;
  };
}

abbrev reads_nothing : Text → Bool
reads_nothing host = false

normalize_dns-repairs_example :
    validate_dns reads_nothing (normalize_dns reads_nothing (default_dns server high) bad_dns).0
    ≡ ([], [])
normalize_dns-repairs_example = normalize_dns-repairs reads_nothing server high bad_dns
