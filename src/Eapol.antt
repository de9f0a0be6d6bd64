-- ===== src/Eapol.antt =====
-- EAPOL frames, the EAPOL-Key descriptor and the 4-way handshake (crates/caw-eapol/src/lib.rs and
-- key.rs).
pub mod Frame
pub mod Key
pub mod FourWay
