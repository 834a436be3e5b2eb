-- ===== src/Tests/Instances.antt =====
-- Concrete libraries for the tests: D-Bus values of a few types, and a socket that accepts all that is written.
use linux_bt_proxy.Prelude.{
  ℕ, ◌%◌, ◌^◌, ◌≤◌, ◌<◌, ◌≡◌, refl, Bool, true, false, Option, none, some, List, [], ◌∷◌, ◌++◌,
  Bytes, IsBytes, length, take, drop, map, ltb, if◌then◌else◌, ◌&&◌, arith, ltb→lt, Bool-cases, inl,
  inr,
}
use linux_bt_proxy.Prelude.Int.{ℤ, pos, negsuc}
use linux_bt_proxy.DBus.{DBus, IsI16}
use linux_bt_proxy.Net.{Net}
use linux_bt_proxy.Proto.Frame.{BytesMut}

abbrev pub within_split : (at : ℕ) (b : Bytes) → Option (Bytes × Bytes)
within_split at b = if ltb (length b) at then none else some (take at b, drop at b)

pub within_split-within :
    (at : ℕ) (b : Bytes) → at ≤ length b → within_split at b ≡ some (take at b, drop at b)
within_split-within at b h = ground arith

pub within_split-beyond : (at : ℕ) (b : Bytes) → length b < at → within_split at b ≡ none
within_split-beyond at b h = ground arith

abbrev pub bytes_mut : BytesMut
bytes_mut = record {
  split_to = within_split;
  split_off = within_split;
  split_to_within = within_split-within;
  split_to_beyond = within_split-beyond;
  split_off_within = within_split-within;
}

pub appended :
    (bytes s s' : Bytes)
    → (let r : Bool × Bytes = (true, s ++ bytes) in r) ≡ (true, s')
    → s' ≡ s ++ bytes
appended bytes s s' e = cc

abbrev pub net : Net
net = record {
  Stream = Bytes;
  enabled = λ level. true;
  peer_addr = λ s. true;
  write_all = λ bytes s. (true, s ++ bytes);
  shutdown = λ s. (true, s);
  write_to_vec = λ out bytes. some (out ++ bytes);
  sent = λ s. s;
  sent-write_all = appended;
  sent-shutdown = λ s. refl;
  write_to_vec-append = λ out bytes h. refl;
}

-- A value is read as what it is: a text, a list of texts, a number, or a dictionary of one entry.
pub data TestValue : Type 0 where
  text : Bytes → TestValue
  texts : List Bytes → TestValue
  signed : ℤ → TestValue
  entry : Bytes → Bytes → TestValue

abbrev pub read_octets : TestValue → Option Bytes
read_octets (text s) = some (map (λ n. n % 256) s)
read_octets (texts ss) = none
read_octets (signed z) = none
read_octets (entry k v) = none

abbrev pub read_texts : TestValue → Option (List Bytes)
read_texts (text s) = none
read_texts (texts ss) = some ss
read_texts (signed z) = none
read_texts (entry k v) = none

abbrev pub i16_of : ℤ → Option ℤ
i16_of (pos n) = if ltb n 0x8000 then some (pos n) else none
i16_of (negsuc n) = if ltb n 0x8000 then some (negsuc n) else none

abbrev pub read_signed : TestValue → Option ℤ
read_signed (text s) = none
read_signed (texts ss) = none
read_signed (signed z) = i16_of z
read_signed (entry k v) = none

abbrev pub read_entry : TestValue → Option (List (TestValue × TestValue))
read_entry (text s) = none
read_entry (texts ss) = none
read_entry (signed z) = none
read_entry (entry k v) = some ((text k, text v) ∷ [])

octets-IsBytes : (b : Bytes) → IsBytes (map (λ (n : ℕ). n % 256) b)
octets-IsBytes [] = tt
octets-IsBytes (n ∷ b) = (omega arith, octets-IsBytes b)

pub read_octets_range : (v : TestValue) {b : Bytes} → read_octets v ≡ some b → IsBytes b
read_octets_range (text s) {b} e =
    rw (let q : b ≡ map (λ (n : ℕ). n % 256) s = cc in q) (octets-IsBytes s)
read_octets_range (texts ss) e = cc
read_octets_range (signed z) e = cc
read_octets_range (entry k v) e = cc

pub no_u16 : (v : TestValue) {n : ℕ} → (let r : Option ℕ = none in r) ≡ some n → n < 2 ^ 16
no_u16 v e = cc

i16_of-IsI16 : (z z' : ℤ) → i16_of z ≡ some z' → IsI16 z'
i16_of-IsI16 (pos n) z' e = elim (Bool-cases (ltb n 0x8000)) [
  | inl small ↦
      let q : pos n ≡ z' = (let f = (rw small at e) in cc) in rw⁻¹ q (ltb→lt n 0x8000 small)
  | inr large ↦ absurd (let f = (rw large at e) in cc)
]
i16_of-IsI16 (negsuc n) z' e = elim (Bool-cases (ltb n 0x8000)) [
  | inl small ↦
      let q : negsuc n ≡ z' = (let f = (rw small at e) in cc) in rw⁻¹ q (ltb→lt n 0x8000 small)
  | inr large ↦ absurd (let f = (rw large at e) in cc)
]

pub read_signed_range : (v : TestValue) {z : ℤ} → read_signed v ≡ some z → IsI16 z
read_signed_range (text s) e = cc
read_signed_range (texts ss) e = cc
read_signed_range (signed z) {z = z'} e = i16_of-IsI16 z z' e
read_signed_range (entry k v) e = cc

abbrev pub dbus : DBus
dbus = record {
  Value = TestValue;
  as_string = read_octets;
  as_i16 = read_signed;
  as_u16 = λ v. none;
  as_bool = λ v. none;
  as_bytes = read_octets;
  as_strings = read_texts;
  as_dict = read_entry;
  as_u16_range = no_u16;
  as_i16_range = read_signed_range;
  as_bytes_range = read_octets_range;
  as_string_range = read_octets_range;
}

abbrev pub all_octets : Bytes → Bool
all_octets [] = true
all_octets (b ∷ bs) = ltb b 256 && all_octets bs

pub in_bytes : (b : Bytes) → all_octets b ≡ true → IsBytes b
in_bytes [] e = tt
in_bytes (b ∷ bs) e = elim (Bool-cases (ltb b 256)) [
  | inl small ↦ (ltb→lt b 256 small, in_bytes bs (rw small at e))
  | inr large ↦ absurd (let q : false ≡ true = rw large at e in cc)
]
