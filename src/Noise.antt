-- ===== src/Noise.antt =====
-- crates/noise and crates/tailcfg: the server's side of the TS2021 handshake.
pub mod Tailcfg
pub mod Ts
pub mod Text
pub mod Error
pub mod Initiation
pub mod FramedIo
pub mod Responder
pub mod Client
pub mod Stream
