-- ===== src/RawAdv.antt =====
-- src/raw_adv.rs: the advertising data of a device, rebuilt from BlueZ's properties. A `&mut Vec<u8>`
-- is passed on as the bytes it holds. Slicing a `String` at a byte that is no character's first
-- panics, so what parses a UUID is an `Outcome`.
pub mod Uuid
pub mod Data
pub mod Structure
