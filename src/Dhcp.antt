-- ===== src/Dhcp.antt =====
-- crates/caw-dhcp: address configuration. Addresses and masks, the option area, the message and
-- the client's state machine, each in a child.
pub mod Addr
pub mod Mask
pub mod Options
pub mod Area
pub mod Message
pub mod Lease
pub mod Client
pub mod Ipv6
mod Examples
