-- ===== src/Api/Runtime.antt =====
-- What the generated code of src/api/api.rs calls of the `protobuf` crate, and the shapes that its
-- functions share.
pub mod Sizes
pub mod Merge
pub mod ReadsBack
pub mod RoundTrip
pub mod Fields
use linux_bt_proxy.Prelude.{
  ℕ, ◌+◌, ◌%◌, ◌^◌, ◌≤◌, ◌<◌, ◌≡◌, Bool, Option, none, some, List, [], ◌∷◌, ◌++◌, Bytes, length,
  if◌then◌else◌, not, ◌==◌,
}
use linux_bt_proxy.Prelude.Int.{ℤ, pos, negsuc}

-- `CodedOutputStream` appends bytes, so a `write_…` is the bytes that it appends: a tag made of the
-- field's number and wire type, then the value. `protobuf::rt` has the sizes. `message_header` is what
-- `write_message_field_with_cached_size` writes before the message itself. A read of a
-- `CodedInputStream` fails, or returns the value and the stream behind it.
pub record Protobuf : Type 1 where
  pub UnknownFields : Type 0
  pub no_unknown : UnknownFields
  pub write_unknown_fields : UnknownFields → Bytes
  pub unknown_fields_size : UnknownFields → ℕ
  pub write_bool : ℕ → Bool → Bytes
  pub write_string : ℕ → Bytes → Bytes
  pub write_bytes : ℕ → Bytes → Bytes
  pub write_uint32 : ℕ → ℕ → Bytes
  pub write_uint64 : ℕ → ℕ → Bytes
  pub write_sint32 : ℕ → ℤ → Bytes
  pub write_repeated_packed_uint32 : ℕ → List ℕ → Bytes
  pub write_repeated_packed_uint64 : ℕ → List ℕ → Bytes
  pub message_header : ℕ → ℕ → Bytes
  pub string_size : ℕ → Bytes → ℕ
  pub bytes_size : ℕ → Bytes → ℕ
  pub uint32_size : ℕ → ℕ → ℕ
  pub uint64_size : ℕ → ℕ → ℕ
  pub sint32_size : ℕ → ℤ → ℕ
  pub vec_packed_uint32_size : ℕ → List ℕ → ℕ
  pub vec_packed_uint64_size : ℕ → List ℕ → ℕ
  pub compute_raw_varint64_size : ℕ → ℕ
  -- A size is the number of bytes that the write appends; a tag takes one byte for the field
  -- numbers below 16 and two below 2048.
  pub length-unknown : (u : UnknownFields) → length (write_unknown_fields u) ≡ unknown_fields_size u
  pub length-bool_near : (f : ℕ) (b : Bool) → f < 16 → length (write_bool f b) ≡ 2
  pub length-bool_far : (f : ℕ) (b : Bool) → 16 ≤ f → f < 2048 → length (write_bool f b) ≡ 3
  pub length-string : (f : ℕ) (s : Bytes) → length (write_string f s) ≡ string_size f s
  pub length-bytes : (f : ℕ) (s : Bytes) → length (write_bytes f s) ≡ bytes_size f s
  pub length-uint32 : (f n : ℕ) → length (write_uint32 f n) ≡ uint32_size f n
  pub length-uint64 : (f n : ℕ) → length (write_uint64 f n) ≡ uint64_size f n
  pub length-sint32 : (f : ℕ) (z : ℤ) → length (write_sint32 f z) ≡ sint32_size f z
  pub length-packed32 :
      (f : ℕ) (xs : List ℕ)
      → length (write_repeated_packed_uint32 f xs) ≡ vec_packed_uint32_size f xs
  pub length-packed64 :
      (f : ℕ) (xs : List ℕ)
      → length (write_repeated_packed_uint64 f xs) ≡ vec_packed_uint64_size f xs
  pub length-header_near :
      (f n : ℕ) → f < 16 → length (message_header f n) ≡ 1 + compute_raw_varint64_size n
  pub length-header_far :
      (f n : ℕ) → 16 ≤ f → f < 2048 → length (message_header f n) ≡ 2 + compute_raw_varint64_size n
  pub CodedInputStream : Type 0
  pub of_bytes : Bytes → CodedInputStream
  pub remaining : CodedInputStream → ℕ
  pub read_raw_tag_or_eof : CodedInputStream → Option (Option ℕ × CodedInputStream)
  pub read_string : CodedInputStream → Option (Bytes × CodedInputStream)
  pub read_bool : CodedInputStream → Option (Bool × CodedInputStream)
  pub read_uint32 : CodedInputStream → Option (ℕ × CodedInputStream)
  pub read_bytes : CodedInputStream → Option (Bytes × CodedInputStream)
  pub read_uint64 : CodedInputStream → Option (ℕ × CodedInputStream)
  pub read_sint32 : CodedInputStream → Option (ℤ × CodedInputStream)
  -- What `read_repeated_packed_…_into` adds to its vector.
  pub read_packed_uint32 : CodedInputStream → Option (List ℕ × CodedInputStream)
  pub read_packed_uint64 : CodedInputStream → Option (List ℕ × CodedInputStream)
  -- `read_message` and `read_singular_message_into_field` run the message's own `merge_from`,
  -- which is given here with the message's default.
  pub read_message :
      {M : Type 0}
      → (M → CodedInputStream → Option M)
      → M
      → CodedInputStream
      → Option (M × CodedInputStream)
  pub read_singular_message_into_field :
      {M : Type 0}
      → (M → CodedInputStream → Option M)
      → M
      → Option M
      → CodedInputStream
      → Option (Option M × CodedInputStream)
  pub read_unknown_or_skip_group :
      ℕ → UnknownFields → CodedInputStream → Option (UnknownFields × CodedInputStream)
  -- A tag takes at least a byte, and no read gives bytes back.
  pub tag_advances :
      (is : CodedInputStream) {tag : ℕ} {is' : CodedInputStream}
      → read_raw_tag_or_eof is ≡ some (some tag, is')
      → remaining is' < remaining is
  pub string_advances :
      (is : CodedInputStream) {s : Bytes} {is' : CodedInputStream}
      → read_string is ≡ some (s, is')
      → remaining is' ≤ remaining is
  pub bool_advances :
      (is : CodedInputStream) {b : Bool} {is' : CodedInputStream}
      → read_bool is ≡ some (b, is')
      → remaining is' ≤ remaining is
  pub uint32_advances :
      (is : CodedInputStream) {n : ℕ} {is' : CodedInputStream}
      → read_uint32 is ≡ some (n, is')
      → remaining is' ≤ remaining is
  pub bytes_advances :
      (is : CodedInputStream) {s : Bytes} {is' : CodedInputStream}
      → read_bytes is ≡ some (s, is')
      → remaining is' ≤ remaining is
  pub uint64_advances :
      (is : CodedInputStream) {n : ℕ} {is' : CodedInputStream}
      → read_uint64 is ≡ some (n, is')
      → remaining is' ≤ remaining is
  pub sint32_advances :
      (is : CodedInputStream) {z : ℤ} {is' : CodedInputStream}
      → read_sint32 is ≡ some (z, is')
      → remaining is' ≤ remaining is
  pub packed_uint32_advances :
      (is : CodedInputStream) {ns : List ℕ} {is' : CodedInputStream}
      → read_packed_uint32 is ≡ some (ns, is')
      → remaining is' ≤ remaining is
  pub packed_uint64_advances :
      (is : CodedInputStream) {ns : List ℕ} {is' : CodedInputStream}
      → read_packed_uint64 is ≡ some (ns, is')
      → remaining is' ≤ remaining is
  pub message_advances :
      {M : Type 0} (merge_from : M → CodedInputStream → Option M) (default : M)
      (is : CodedInputStream) {m : M} {is' : CodedInputStream}
      → read_message merge_from default is ≡ some (m, is')
      → remaining is' ≤ remaining is
  pub singular_advances :
      {M : Type 0} (merge_from : M → CodedInputStream → Option M) (default : M) (held : Option M)
      (is : CodedInputStream) {m : Option M} {is' : CodedInputStream}
      → read_singular_message_into_field merge_from default held is ≡ some (m, is')
      → remaining is' ≤ remaining is
  pub unknown_advances :
      (tag : ℕ) (u : UnknownFields) (is : CodedInputStream)
      → {u' : UnknownFields} {is' : CodedInputStream}
      → read_unknown_or_skip_group tag u is ≡ some (u', is')
      → remaining is' ≤ remaining is

-- `my_size += …` and `os.write_…` for the fields in turn.
abbrev pub sum : List ℕ → ℕ
sum [] = 0
sum (n ∷ ns) = n + sum ns

abbrev pub concat : List Bytes → Bytes
concat [] = []
concat (b ∷ bs) = b ++ concat bs

-- `if test { my_size += n; }` and `if test { os.write_…; }`
abbrev pub when : Bool → ℕ → ℕ
when test n = if test then n else 0

abbrev pub emit : Bool → Bytes → Bytes
emit test bytes = if test then bytes else []

-- `!xs.is_empty()` and `n != 0`
abbrev pub nonempty {ℓ} : {A : Type ℓ} → List A → Bool
nonempty [] = Bool.false
nonempty (x ∷ xs) = Bool.true

abbrev pub nonzero : ℕ → Bool
nonzero n = not (n == 0)

abbrev pub nonzero_ℤ : ℤ → Bool
nonzero_ℤ (pos n) = nonzero n
nonzero_ℤ (negsuc n) = Bool.true

-- `for value in &self.field { … }`, in the size and in the output.
abbrev pub total {ℓ} : {A : Type ℓ} → (A → ℕ) → List A → ℕ
total size [] = 0
total size (x ∷ xs) = size x + total size xs

abbrev pub emit_all {ℓ} : {A : Type ℓ} → (A → Bytes) → List A → Bytes
emit_all write [] = []
emit_all write (x ∷ xs) = write x ++ emit_all write xs

-- `if let Some(v) = self.field.as_ref() { … }`
abbrev pub of_option {ℓ} : {A : Type ℓ} → Option A → List A
of_option none = []
of_option (some x) = x ∷ []

-- `write_message_field_with_cached_size`: the size was stored by `set(my_size as u32)`.
abbrev pub message_field : (rt : Protobuf) → {M : Type 0} → ℕ → (M → ℕ) → (M → Bytes) → M → Bytes
message_field rt field size write v = rt.message_header field (size v % 2 ^ 32) ++ write v

-- `my_size += 1 + compute_raw_varint64_size(len) + len`, and with 2 for a longer tag.
abbrev pub near_size : (rt : Protobuf) → {M : Type 0} → (M → ℕ) → M → ℕ
near_size rt size v = 1 + rt.compute_raw_varint64_size (size v) + size v

abbrev pub far_size : (rt : Protobuf) → {M : Type 0} → (M → ℕ) → M → ℕ
far_size rt size v = 2 + rt.compute_raw_varint64_size (size v) + size v
