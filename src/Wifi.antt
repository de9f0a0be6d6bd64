-- ===== src/Wifi.antt =====
-- What a beacon says of a network's security, and what the kernel reports and is asked
-- (crates/caw-80211, crates/caw-nl80211).
pub mod Suites
pub mod Nl80211
