-- ===== src/Proto.antt =====
-- src/proto.rs: varints and the plaintext framing of the ESPHome API.
pub mod Varint
pub mod Frame
