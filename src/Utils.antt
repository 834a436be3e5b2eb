-- ===== src/Utils.antt =====
-- src/utils.rs: MAC addresses in and out of text.
pub mod Mac
use linux_bt_proxy.Prelude.{
  ℕ, ◌≡◌, Option, none, some, List, [], ◌∷◌, Bytes, length, ◌==◌, if◌then◌else◌, map,
}
use linux_bt_proxy.Text.{split, join, upper_hex, u8_from_hex}

-- The two messages of `parse_mac`; the second quotes the part.
pub data MacError : Type 0 where
  invalid_format : MacError
  invalid_hex_byte : Bytes → MacError

pub data MacResult : Type 0 where
  ok : Bytes → MacResult
  err : MacError → MacResult

-- `mac[i] = …` for the parts in turn, up to the first that is refused.
unfoldable pub parse_parts : List Bytes → MacResult
parse_parts [] = ok []
parse_parts (part ∷ parts) = elim (u8_from_hex part) [
  | none ↦ err (invalid_hex_byte part)
  | some byte ↦ elim (parse_parts parts) [ ok mac ↦ ok (byte ∷ mac) | err e ↦ err e ]
]

unfoldable pub parse_mac : Bytes → MacResult
unfolding parse_parts
parse_mac s =
    let parts = split b':' s in if length parts == 6 then parse_parts parts else err invalid_format

unfoldable pub format_mac : Bytes → Bytes → Bytes
format_mac mac sep = join sep (map upper_hex mac)
