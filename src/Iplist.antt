-- ===== src/Iplist.antt =====
-- internal/core/iplist: addresses, prefixes, the streams of targets and the shuffled index.
pub mod Addr
pub mod Offset
pub mod Count
pub mod Import
pub mod Stream
pub mod Index
pub mod Lcg
pub mod Shuffle
mod Tests
