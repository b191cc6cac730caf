-- ===== src/Config.antt =====
-- internal/core/config and its validate package: the sections of the configuration, their strict
-- validation, and the normalisation that replaces invalid fields by the platform's defaults.
pub mod Texts
pub mod Checks
pub mod Platforms
pub mod Tcp
pub mod Icmp
pub mod Writer
pub mod General
pub mod Xray
pub mod Domains
pub mod Dns
mod Tests
