-- ===== src/Prelude/Int.antt =====
-- Signed integers over the native numbers, under the library's names, and the casts of the program.
use Prim.Native.Nat.{ℕ, ◌-◌}
use mathlib.Core.Option.{Option, none, some}
use linux_bt_proxy.Prelude.Tests.{ltb, if◌then◌else◌}

-- `negsuc n` is -(n + 1).
pub data ℤ : Type 0 where
  pos : ℕ → ℤ
  negsuc : ℕ → ℤ

-- `i8::try_from`
abbrev pub i8_try_from : ℤ → Option ℤ
i8_try_from (pos n) = if ltb 127 n then none else some (pos n)
i8_try_from (negsuc n) = if ltb 127 n then none else some (negsuc n)

-- `x as u8` of an `i8`.
abbrev pub i8_as_u8 : ℤ → ℕ
i8_as_u8 (pos n) = n
i8_as_u8 (negsuc n) = 255 - n
