-- ===== src/DBus.antt =====
-- What the program uses of `zbus`: values of D-Bus messages, and the reads that succeed only on a
-- value of the type asked for. BlueZ's properties of a device are a map from names to values.
use linux_bt_proxy.Prelude.{ℕ, ◌^◌, ◌<◌, ◌≡◌, Bool, Option, some, List, Bytes, IsBytes}
use linux_bt_proxy.Prelude.Int.{ℤ, pos, negsuc}

-- An `i16`.
abbrev pub IsI16 : ℤ → Type 0
IsI16 (pos n) = n < 2 ^ 15
IsI16 (negsuc n) = n < 2 ^ 15

pub record DBus : Type 1 where
  -- `OwnedValue` and `Value`
  pub Value : Type 0
  -- `downcast_ref::<T>().ok()` and `downcast::<T>().ok()`
  pub as_string : Value → Option Bytes
  pub as_i16 : Value → Option ℤ
  pub as_u16 : Value → Option ℕ
  pub as_bool : Value → Option Bool
  pub as_bytes : Value → Option Bytes
  -- `Vec::<String>::try_from(v).ok()`
  pub as_strings : Value → Option (List Bytes)
  -- `Dict::try_from(v).ok()`, its entries in the order of iteration
  pub as_dict : Value → Option (List (Value × Value))
  -- What the Rust types say of the values read.
  pub as_u16_range : (v : Value) {n : ℕ} → as_u16 v ≡ some n → n < 2 ^ 16
  pub as_i16_range : (v : Value) {z : ℤ} → as_i16 v ≡ some z → IsI16 z
  pub as_bytes_range : (v : Value) {b : Bytes} → as_bytes v ≡ some b → IsBytes b
  pub as_string_range : (v : Value) {b : Bytes} → as_string v ≡ some b → IsBytes b

-- `HashMap<String, OwnedValue>`, by its `get`.
abbrev pub Props : DBus → Type 0
Props bus = Bytes → Option bus.Value
