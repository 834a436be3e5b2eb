-- ===== src/Utils/Mac.antt =====
-- `parse_mac` and `format_mac` (src/utils.rs) against one another.
use linux_bt_proxy.Prelude.{
  ℕ, ◌/◌, ◌%◌, ◌≡◌, refl, sym, ap, ◌∙◌, List, [], ◌∷◌, ◌++◌, Bytes, All, IsByte, IsBytes, length,
  ◌==◌, arith, map, inl, inr, length-map, some, ◌↔◌, Bool-cases, ==_iff,
}
use mathlib.Core.List.{map-append, map-map}
use linux_bt_proxy.Text.{split, join, upper_hex, u8_from_hex, to_lowercase, lower}
use linux_bt_proxy.Text.Hex.{
  u8_from_hex-upper_hex, u8_from_hex-lower, upper_digit-ne_colon, lower-ne_colon,
}
use linux_bt_proxy.Text.Split.{Lacks, split-join}
use linux_bt_proxy.Utils.{ok, parse_parts, parse_mac, format_mac}

upper_hex-Lacks : (b : ℕ) → IsByte b → Lacks b':' (upper_hex b)
unfolding upper_hex
upper_hex-Lacks b h =
    (upper_digit-ne_colon (b / 16) (omega arith), (upper_digit-ne_colon (b % 16) (omega arith), tt))

lower_hex-Lacks : (b : ℕ) → IsByte b → Lacks b':' (to_lowercase (upper_hex b))
unfolding upper_hex
lower_hex-Lacks b h =
    (lower-ne_colon (b / 16) (omega arith), (lower-ne_colon (b % 16) (omega arith), tt))

module _ (print : ℕ → Bytes) (reads : (b : ℕ) → IsByte b → u8_from_hex (print b) ≡ some b)
    (lacks : (b : ℕ) → IsByte b → Lacks b':' (print b)) where
  All-Lacks : (mac : Bytes) → IsBytes mac → All (Lacks b':') (map print mac)
  All-Lacks [] h = tt
  All-Lacks (b ∷ mac) (hb, h) = (lacks b hb, All-Lacks mac h)

  parse_parts-print : (mac : Bytes) → IsBytes mac → parse_parts (map print mac) ≡ ok mac
  unfolding parse_parts
  parse_parts-print [] h = refl
  parse_parts-print (b ∷ mac) (hb, h) = rw (parse_parts, reads b hb, parse_parts-print mac h)

  split-print :
      (mac : Bytes)
      → IsBytes mac
      → length mac ≡ 6
      → split b':' (join (b':' ∷ []) (map print mac)) ≡ map print mac
  split-print [] h six = absurd (omega arith)
  split-print (b ∷ mac) h six = split-join b':' (print b) (map print mac) (All-Lacks (b ∷ mac) h)

  parse_mac-print :
      (mac : Bytes)
      → IsBytes mac
      → length mac ≡ 6
      → parse_mac (join (b':' ∷ []) (map print mac)) ≡ ok mac
  unfolding parse_mac
  parse_mac-print mac h six =
      rw (split-print mac h six, length-map mac print, six) (parse_parts-print mac h)

-- `parse_mac` reads back any six bytes that `format_mac` printed with colons.
pub parse_mac-format_mac :
    (mac : Bytes) → IsBytes mac → length mac ≡ 6 → parse_mac (format_mac mac (b':' ∷ [])) ≡ ok mac
unfolding format_mac
parse_mac-format_mac = parse_mac-print upper_hex u8_from_hex-upper_hex upper_hex-Lacks

to_lowercase-join :
    (parts : List Bytes)
    → to_lowercase (join (b':' ∷ []) parts) ≡ join (b':' ∷ []) (map to_lowercase parts)
unfolding join
to_lowercase-join [] = refl
to_lowercase-join (part ∷ []) = refl
to_lowercase-join (part ∷ next ∷ parts) =
    map-append lower part _
    ∙ ap (λ (t : Bytes). to_lowercase part ++ b':' ∷ t) (to_lowercase-join (next ∷ parts))

-- So it does from the lower-case form, which `start_mdns` publishes.
pub parse_mac-to_lowercase :
    (mac : Bytes)
    → IsBytes mac
    → length mac ≡ 6
    → parse_mac (to_lowercase (format_mac mac (b':' ∷ []))) ≡ ok mac
unfolding format_mac
parse_mac-to_lowercase mac h six =
    rw (to_lowercase-join (map upper_hex mac), map-map to_lowercase upper_hex mac)
      (parse_mac-print (λ b. to_lowercase (upper_hex b)) u8_from_hex-lower lower_hex-Lacks mac h
        six)

parse_parts-cons :
    (part : Bytes) (parts : List Bytes) {b : ℕ} {mac : Bytes}
    → parse_parts (part ∷ parts) ≡ ok (b ∷ mac)
    → (u8_from_hex part ≡ some b) × (parse_parts parts ≡ ok mac)
unfolding parse_parts
parse_parts-cons part parts e = ground arith

parse_parts_iff :
    (parts : List Bytes) (mac : Bytes)
    → (parse_parts parts ≡ ok mac) ↔ (map u8_from_hex parts ≡ map some mac)
unfolding parse_parts
parse_parts_iff [] [] = (λ _. refl, λ _. refl)
parse_parts_iff [] (b ∷ mac) = (λ e. cc, λ e. cc)
parse_parts_iff (part ∷ parts) [] = (λ e. ground arith, λ e. cc)
parse_parts_iff (part ∷ parts) (b ∷ mac) = (
  λ e. let (p, q) = parse_parts-cons part parts e in cc (p, (parse_parts_iff parts mac).0 q),
  λ e. ground (arith, (parse_parts_iff parts mac).1 (cc)),
)

-- `parse_mac` returns a MAC exactly when the text has six parts between its colons and each is the
-- hexadecimal text of the MAC's byte in its place.
pub parse_mac_iff :
    (s mac : Bytes)
    → (parse_mac s ≡ ok mac) ↔ ((length mac ≡ 6) × (map u8_from_hex (split b':' s) ≡ map some mac))
unfolding parse_mac
parse_mac_iff s mac = elim (Bool-cases (length (split b':' s) == 6)) [
  | inl six ↦ rw six (
    λ e. (
      omega (
        arith,
        same_length ((parse_parts_iff _ mac).0 e),
        (==_iff (length (split b':' s)) 6).0 six,
      ),
      (parse_parts_iff _ mac).0 e,
    ),
    λ e. (parse_parts_iff _ mac).1 e.1,
  )
  | inr other ↦ rw other (λ e. cc, λ e. absurd (ground (arith, same_length e.1)))
]
  where
    same_length : map u8_from_hex (split b':' s) ≡ map some mac → length (split b':' s) ≡ length mac
    same_length e = sym (length-map (split b':' s) u8_from_hex) ∙ ap length e ∙ length-map mac some
