-- ===== src/Lib.antt =====
-- caw, a network manager for Linux: the protocol code of its crates, modelled and proved.
--
-- The program is a daemon (crates/cawd) that drives protocol engines which do no input or output
-- of their own: an engine is given an event, a datagram or a timeout and answers with actions. The
-- connection of crates/caw-core is the engine that joins a network: it picks a BSS by its policy,
-- authenticates, associates, runs the 4-way handshake of crates/caw-eapol over EAPOL, and asks for
-- an address, which the DHCP client and IPv6 autoconfiguration of crates/caw-dhcp obtain. The EAP
-- packets and the fragmentation of the TLS-based methods of crates/caw-eapol serve 802.1X, and the
-- daemon's table of timers turns what the engines ask for into deadlines.
--
-- Dhcp (crates/caw-dhcp/src)
--   Dhcp/Addr, Dhcp/Mask: lib.rs, the errors, IPv4 addresses as their octets, and
--     `prefix_len_from_mask` with `mask_from_prefix_len`.
--   Dhcp/Options: options.rs, `DhcpOption` with `decode` (decode_option), `encode` (encode_option)
--     and `tlv`; Dhcp/Area: `decode_into` and `encode_all`.
--   Dhcp/Message: message.rs, `Message::decode` and `encode`, overloaded fields included.
--   Dhcp/Lease: client.rs, `Lease::from_ack` and `netmask`.
--   Dhcp/Client: client.rs, `Dhcp4`. A method that changes the machine returns the new machine with
--     its actions; Dhcp/Client/Poll has the timers, `poll` and `run`, a list of inputs.
--   Dhcp/Ipv6: ipv6.rs, `RouterAdvert::decode` and `slaac_address`.
-- Eap (crates/caw-eapol/src/eap)
--   Eap/Packet: packet.rs, `EapPacket::parse` and `encode`, and the Nak.
--   Eap/Frag: frag.rs, `Fragment`, `Reassembler` and `Fragmenter`.
--   Eap/Exchange: frag.rs, `Exchange`, the lock step of the two. A panic is an Option's `none`.
-- Crypto (crates/caw-crypto/src): lib.rs, the errors, keys and steps; Crypto/Mic: mic.rs, over an
--   HMAC and a CMAC that are parameters; Crypto/Kdf: kdf.rs, the key derivations.
--   Crypto/Sae: sae.rs, `SaeProvider` over a group and hashes that are the parameter `SaeGroup`.
--     Crypto/Sae/Frames has the frames, Crypto/Sae/Element the password element and the encodings,
--     Crypto/Sae/Exchange `start`, `on_frame` and `on_timeout` with the handlers under them, and
--     Crypto/Sae/Laws what the theorems rely on of P-256. A panic is `panics`, or `none`.
-- Ipc/Frame (crates/caw-ipc/src/frame.rs): `Decoder` and `encode`, with `receive` for what the daemon
--   takes off a connection (crates/cawd/src/ipc.rs, `read`). JSON is a parameter.
-- Netlink (crates/caw-netlink/src/lib.rs): `Message`, `Attrs` and `MsgBuilder`, whose value is its
--   buffer. Whether words have the low byte first is a parameter. Netlink/Request: `Socket::request`
--   over a list of what the receives return, with the handler's captured state passed along; the
--   walk over a datagram has a round for each byte, and a round takes at least sixteen.
-- Eapol (crates/caw-eapol/src)
--   Eapol/Frame: lib.rs, `Eapol::parse` and `encode`; Eapol/Key: key.rs, `KeyFrame` and its MIC;
--     Eapol/Key/Data: key.rs, the elements of Key Data, `gtk_kde` and `rsn_element`.
--   Eapol/FourWay: lib.rs, `FourWay` with `poll`; `with_snonce` takes the SNonce, and `Primitives`
--     holds the MACs, `derive_ptk` and `unwrap_key_data`. A panic is an Option's `none`.
-- Daemon (crates/cawd/src)
--   Daemon/Timers: timers.rs, `Timers`, the deadlines that the engines ask for, by key. A key's `==`
--     is a parameter, and an instant is a number.
-- Wifi: Wifi/Suites, crates/caw-80211/src/lib.rs, the cipher and key-management suites;
--   Wifi/Nl80211, crates/caw-nl80211/src (bss.rs, event.rs, consts.rs), what the kernel reports.
-- Core (crates/caw-core/src)
--   Core/Policy: policy.rs, the choice of the suite and the floor under a network's security, with
--     Core/Policy/Select, the choice of the BSS. Whether the build has its `enterprise` feature is
--     a parameter. Core/Profile: profile.rs, `Profile`; Core/Profile/FileName, `file_name`
--     and `ssid_from_file_name`. Core/Rsn: rsn.rs, `StationRsn::encode`.
--   Core/Failure: conn.rs, `Failure`. Core/Auth: auth.rs, `assemble`; `Providers` is the interface
--     of the PSK, SAE and 802.1X providers, and its `Draw` is what the system gives to one call.
--   Core/Conn: conn.rs, the types of `Connection`; its methods stand in Core/Conn/Transition
--     (`enter`, `fail`, `arm`, `disarm`), Negotiate (`evaluate`), Join (`associate`, `drive_sae`),
--     Plan (`plan`), Handshake and Keys (`on_eapol`, `on_associated`), Address (`on_lease`) and
--     Events (`poll` and the handler of each input). A method returns the new connection with the
--     actions that it pushes; where it calls `expect` and fails the result is `none`.
--     Core/Conn/Clock is the timer that the daemon keeps for a connection, which may expire at any
--     time, and Core/Conn/Runs feeds the connection inputs and lets that timer expire.
-- Prelude holds what they share: tests and lists on native numbers, results, words and their bytes,
-- bits, and the lossy reading of UTF-8.
--
-- Bytes are numbers below 256 and words are numbers; where the code saturates, shifts out or casts,
-- the operation is written out. A string is its bytes. The loops over an option area run on fuel for
-- each byte, which is enough since every round takes at least one.
--
-- Not modelled: sockets, signals, logging and the terminal, which are system calls; TLS and the
-- ciphers, which are other libraries; the 802.1X exchange, which the connection takes as an interface,
-- as it does SAE; and the parts of the program above and beside these engines (the daemon's table of
-- links, the nl80211 families).
pub mod Prelude
pub mod Ipc
pub mod Netlink
pub mod Dhcp
pub mod Eap
pub mod Daemon
pub mod Wifi
pub mod Core
pub mod Crypto
pub mod Eapol
