-- ===== src/Eap.antt =====
-- crates/caw-eapol: EAP, the conversation that an Enterprise network authenticates by.
pub mod Error
pub mod Packet
pub mod Frag
pub mod Exchange
mod Examples
