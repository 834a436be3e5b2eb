-- ===== src/Api/Runtime/ReadsBack.antt =====
-- What the code relies on when a message that the `protobuf` crate wrote is read with it.
use linux_bt_proxy.Prelude.{
  Bool, ℕ, ◌+◌, ◌*◌, ◌^◌, ◌<◌, ◌≡◌, Option, none, some, List, true, All, [], ◌++◌, Bytes, length,
}
use linux_bt_proxy.Prelude.Int.{ℤ, pos, negsuc}
use linux_bt_proxy.Api.Runtime.{Protobuf, nonempty}

-- An `i32`.
abbrev pub IsI32 : ℤ → Type 0
IsI32 (pos n) = n < 2 ^ 31
IsI32 (negsuc n) = n < 2 ^ 31

-- Before any other bytes, the bytes written are read as the tag and the value, and the other bytes
-- are left.
abbrev pub Back :
    (rt : Protobuf)
    → {A : Type 0} → ℕ
    → Bytes
    → (rt.CodedInputStream → Option (A × rt.CodedInputStream))
    → A
    → Type 0
Back rt tag written read a =
    (rest : Bytes)
    → (is' : rt.CodedInputStream) × (rt.read_raw_tag_or_eof (rt.of_bytes (written ++ rest))
        ≡ some (some tag, is'))
      × (read is' ≡ some (a, rt.of_bytes rest))

-- A tag is the field's number with the wire type in its low three bits: 0 for a varint, 2 for what has
-- a length. A length is below 2 ^ 31.
pub record ReadsBack (rt : Protobuf) : Type 1 where
  pub IsUtf8 : Bytes → Type 0
  pub ends :
      (is' : rt.CodedInputStream) × (rt.read_raw_tag_or_eof (rt.of_bytes []) ≡ some (none, is'))
  pub no_unknown_back : rt.write_unknown_fields rt.no_unknown ≡ []
  pub bool_back :
      (f : ℕ) (b : Bool) → 0 < f → f < 2 ^ 29 → Back rt (f * 8) (rt.write_bool f b) rt.read_bool b
  pub uint32_back :
      (f n : ℕ)
      → 0 < f
      → f < 2 ^ 29
      → n < 2 ^ 32
      → Back rt (f * 8) (rt.write_uint32 f n) rt.read_uint32 n
  pub uint64_back :
      (f n : ℕ)
      → 0 < f
      → f < 2 ^ 29
      → n < 2 ^ 64
      → Back rt (f * 8) (rt.write_uint64 f n) rt.read_uint64 n
  pub sint32_back :
      (f : ℕ) (z : ℤ)
      → 0 < f
      → f < 2 ^ 29
      → IsI32 z
      → Back rt (f * 8) (rt.write_sint32 f z) rt.read_sint32 z
  pub string_back :
      (f : ℕ) (s : Bytes)
      → 0 < f
      → f < 2 ^ 29
      → IsUtf8 s
      → length s < 2 ^ 31
      → Back rt (f * 8 + 2) (rt.write_string f s) rt.read_string s
  pub bytes_back :
      (f : ℕ) (s : Bytes)
      → 0 < f
      → f < 2 ^ 29
      → length s < 2 ^ 31
      → Back rt (f * 8 + 2) (rt.write_bytes f s) rt.read_bytes s
  -- An empty vector is not written.
  pub packed_uint32_none : (f : ℕ) → rt.write_repeated_packed_uint32 f [] ≡ []
  pub packed_uint32_back :
      (f : ℕ) (ns : List ℕ)
      → 0 < f
      → f < 2 ^ 29
      → nonempty ns ≡ true
      → All (λ n. n < 2 ^ 32) ns
      → length ns < 2 ^ 27
      → Back rt (f * 8 + 2) (rt.write_repeated_packed_uint32 f ns) rt.read_packed_uint32 ns
  pub packed_uint64_none : (f : ℕ) → rt.write_repeated_packed_uint64 f [] ≡ []
  pub packed_uint64_back :
      (f : ℕ) (ns : List ℕ)
      → 0 < f
      → f < 2 ^ 29
      → nonempty ns ≡ true
      → All (λ n. n < 2 ^ 64) ns
      → length ns < 2 ^ 27
      → Back rt (f * 8 + 2) (rt.write_repeated_packed_uint64 f ns) rt.read_packed_uint64 ns
  -- A message whose own bytes its `merge_from` reads.
  pub message_back :
      {M : Type 0} (merge_from : M → rt.CodedInputStream → Option M) (default m : M) (f : ℕ)
      (s : Bytes)
      → 0 < f
      → f < 2 ^ 29
      → length s < 2 ^ 31
      → merge_from default (rt.of_bytes s) ≡ some m
      → Back rt
          (f * 8 + 2)
          (rt.message_header f (length s) ++ s)
          (rt.read_message merge_from default)
          m
  -- The same for a field that holds no message yet.
  pub singular_back :
      {M : Type 0} (merge_from : M → rt.CodedInputStream → Option M) (default m : M) (f : ℕ)
      (s : Bytes)
      → 0 < f
      → f < 2 ^ 29
      → length s < 2 ^ 31
      → merge_from default (rt.of_bytes s) ≡ some m
      → Back rt
          (f * 8 + 2)
          (rt.message_header f (length s) ++ s)
          (rt.read_singular_message_into_field merge_from default none)
          (some m)
