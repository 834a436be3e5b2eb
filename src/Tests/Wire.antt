-- ===== src/Tests/Wire.antt =====
-- A concrete `protobuf` for the tests: its wire format, with reads of all the bytes there are.
use linux_bt_proxy.Prelude.{
  ℕ, ◌+◌, ◌*◌, ◌/◌, ◌%◌, ◌≤◌, ◌<◌, ◌≡◌, refl, Bool, true, false, Option, none, some, List, [], ◌∷◌,
  ◌++◌, Bytes, length, length-append, length-drop, take, drop, ltb, leb, if◌then◌else◌, arith, inl,
  inr, if_holds, and_then, Option-cases, suc, zero, ◌==◌,
}
use linux_bt_proxy.Prelude.Int.{ℤ, pos, negsuc}
use linux_bt_proxy.Proto.Varint.{encode_varint}
use linux_bt_proxy.Proto.Varint.Encode.{encode_loop_step}
use linux_bt_proxy.Api.Runtime.{Protobuf, emit, nonempty}

-- A field's number and wire type.
abbrev pub tag : ℕ → ℕ → Bytes
tag field wire = encode_varint (field * 8 + wire)

pub length-tag_near : (f wire : ℕ) → f < 16 → wire < 8 → length (tag f wire) ≡ 1
unfolding encode_varint
length-tag_near f wire h k = rw (encode_loop_step 9 (f * 8 + wire)) (ground arith)

pub length-tag_far : (f wire : ℕ) → 16 ≤ f → f < 2048 → wire < 8 → length (tag f wire) ≡ 2
unfolding encode_varint
length-tag_far f wire h h' k =
    rw (encode_loop_step 9 (f * 8 + wire))
      (rw (encode_loop_step 8 ((f * 8 + wire) / 128)) (ground arith))

abbrev pub bit : Bool → ℕ
bit true = 1
bit false = 0

abbrev pub zigzag : ℤ → ℕ
zigzag (pos n) = n * 2
zigzag (negsuc n) = n * 2 + 1

abbrev pub packed : List ℕ → Bytes
packed [] = []
packed (n ∷ ns) = encode_varint n ++ packed ns

abbrev pub delimited : ℕ → Bytes → Bytes
delimited field bytes = tag field 2 ++ (encode_varint (length bytes) ++ bytes)

-- A varint, lowest bits first, of any number of bytes.
abbrev pub add_low : ℕ → Option (ℕ × Bytes) → Option (ℕ × Bytes)
add_low b none = none
add_low b (some (n, bs)) = some (b % 128 + 128 * n, bs)

abbrev pub read_varint : Bytes → Option (ℕ × Bytes)
read_varint [] = none
read_varint (b ∷ bs) =
    let more = read_varint bs in if ltb b 128 then some (b, bs) else add_low b more

-- What is read leaves no more than there was.
abbrev pub IsLess : {A : Type 0} → Bytes → Option (A × Bytes) → Type 0
IsLess is none = Unit
IsLess is (some (a, is')) = length is' < length is

pub less :
    {A : Type 0} {a : A} (is : Bytes) (r : Option (A × Bytes)) {is' : Bytes}
    → IsLess is r
    → r ≡ some (a, is')
    → length is' < length is
less is none h e = cc
less is (some (b, is1)) {is'} h e = omega (arith, let q : length is1 ≡ length is' = cc in q)

add_low-IsLess :
    (b : ℕ) (bs : Bytes) (r : Option (ℕ × Bytes)) → IsLess bs r → IsLess (b ∷ bs) (add_low b r)
add_low-IsLess b bs none h = tt
add_low-IsLess b bs (some (n, is)) h = omega arith

pub read_varint-IsLess : (is : Bytes) → IsLess is (read_varint is)
read_varint-IsLess [] = tt
read_varint-IsLess (b ∷ bs) =
    if_holds (IsLess (b ∷ bs)) (ltb b 128) (some (b, bs)) (add_low b (read_varint bs)) (omega arith)
      (add_low-IsLess b bs (read_varint bs) (read_varint-IsLess bs))

-- What is made of a varint and the bytes behind it.
abbrev pub via_varint : {A : Type 0} → (ℕ → Bytes → Option (A × Bytes)) → Bytes → Option (A × Bytes)
via_varint f is = and_then (read_varint is) (λ (n, is'). f n is')

pub via_varint-IsLess :
    {A : Type 0} (f : ℕ → Bytes → Option (A × Bytes)) (is : Bytes)
    → ((n : ℕ) (is' : Bytes) → length is' < length is → IsLess is (f n is'))
    → IsLess is (via_varint f is)
via_varint-IsLess f is h = elim (Option-cases (read_varint is)) [
  | inl e ↦ rw e tt
  | inr ((n, is'), e) ↦ rw e (h n is' (less is (read_varint is) (read_varint-IsLess is) e))
]

-- The end of the stream, or a tag.
abbrev pub tagged : Option (ℕ × Bytes) → Option (Option ℕ × Bytes)
tagged none = none
tagged (some (n, is)) = some (some n, is)

abbrev pub read_tag : Bytes → Option (Option ℕ × Bytes)
read_tag [] = some (none, [])
read_tag (b ∷ bs) = tagged (read_varint (b ∷ bs))

tagged-less :
    (is : Bytes) (r : Option (ℕ × Bytes)) {t : ℕ} {is' : Bytes}
    → IsLess is r
    → tagged r ≡ some (some t, is')
    → length is' < length is
tagged-less is none h e = cc
tagged-less is (some (n, is1)) {t} {is'} h e =
    omega (arith, let q : length is1 ≡ length is' = cc in q)

pub read_tag_less :
    (is : Bytes) {t : ℕ} {is' : Bytes} → read_tag is ≡ some (some t, is') → length is' < length is
read_tag_less [] e = cc
read_tag_less (b ∷ bs) e =
    tagged-less (b ∷ bs) (read_varint (b ∷ bs)) (read_varint-IsLess (b ∷ bs)) e

abbrev pub read_number : Bytes → Option (ℕ × Bytes)
read_number = via_varint (λ n is. some (n, is))

abbrev pub read_flag : Bytes → Option (Bool × Bytes)
read_flag = via_varint (λ n is. some (leb 1 n, is))

abbrev pub unzigzag : ℕ → ℤ
unzigzag n = if n % 2 == 0 then pos (n / 2) else negsuc (n / 2)

abbrev pub read_signed : Bytes → Option (ℤ × Bytes)
read_signed = via_varint (λ n is. some (unzigzag n, is))

-- So many bytes as the varint says, and what they mean.
abbrev pub cut {ℓ} : {A : Type ℓ} → (Bytes → Option A) → ℕ → Bytes → Option (A × Bytes)
cut f n is = if ltb (length is) n then none else and_then (f (take n is)) (λ a. some (a, drop n is))

abbrev pub read_cut : {A : Type 0} → (Bytes → Option A) → Bytes → Option (A × Bytes)
read_cut f = via_varint (cut f)

pub cut-IsLess :
    {A : Type 0} (f : Bytes → Option A) (is : Bytes) (n : ℕ) (is' : Bytes)
    → length is' < length is
    → IsLess is (cut f n is')
cut-IsLess {A} f is n is' h =
    if_holds (IsLess is) (ltb (length is') n) none
      (and_then (f (take n is')) (λ a. some (a, drop n is'))) tt (kept (f (take n is')))
  where
    kept : (o : Option A) → IsLess is (and_then o (λ a. some (a, drop n is')))
    kept none = tt
    kept (some a) = omega (arith, length-drop n is')

-- The varints of all the bytes.
abbrev pub varints : ℕ → Bytes → Option (List ℕ)
varints zero is = none
varints (suc rounds) [] = some []
varints (suc rounds) (b ∷ bs) =
    and_then (read_varint (b ∷ bs))
      (λ (n, is'). and_then (varints rounds is') (λ ns. some (n ∷ ns)))

abbrev pub all_varints : Bytes → Option (List ℕ)
all_varints is = varints (suc (length is)) is

-- No read gives bytes back.
pub varint-le :
    {A : Type 0} {a : A} (f : ℕ → Bytes → Option (A × Bytes)) (is : Bytes) {is' : Bytes}
    → ((n : ℕ) (is' : Bytes) → length is' < length is → IsLess is (f n is'))
    → via_varint f is ≡ some (a, is')
    → length is' ≤ length is
varint-le f is h e = omega (arith, less is (via_varint f is) (via_varint-IsLess f is h) e)

pub near_header :
    (f n : ℕ) → f < 16 → length (tag f 2 ++ encode_varint n) ≡ 1 + length (encode_varint n)
near_header f n h =
    omega (arith, length-append (tag f 2) (encode_varint n), length-tag_near f 2 h (omega arith))

pub far_header :
    (f n : ℕ)
    → 16 ≤ f
    → f < 2048
    → length (tag f 2 ++ encode_varint n) ≡ 2 + length (encode_varint n)
far_header f n h k =
    omega (arith, length-append (tag f 2) (encode_varint n), length-tag_far f 2 h k (omega arith))

pub near_bool : (f : ℕ) (b : Bool) → f < 16 → length (tag f 0 ++ bit b ∷ []) ≡ 2
near_bool f b h =
    omega (arith, length-append (tag f 0) (bit b ∷ []), length-tag_near f 0 h (omega arith))

pub far_bool : (f : ℕ) (b : Bool) → 16 ≤ f → f < 2048 → length (tag f 0 ++ bit b ∷ []) ≡ 3
far_bool f b h k =
    omega (arith, length-append (tag f 0) (bit b ∷ []), length-tag_far f 0 h k (omega arith))

pub skip_one_advances :
    {u u' : Unit {0}} (is : Bytes) {is' : Bytes}
    → (let r : Option (Unit {0} × Bytes) = some (u, drop 1 is) in r) ≡ some (u', is')
    → length is' ≤ length is
skip_one_advances is {is'} e =
    omega (arith, length-drop 1 is, let q : length (drop 1 is) ≡ length is' = cc in q)

abbrev pub protobuf : Protobuf
protobuf = record {
  UnknownFields = Unit;
  no_unknown = tt;
  write_unknown_fields = λ u. [];
  unknown_fields_size = λ u. 0;
  write_bool = λ f b. tag f 0 ++ bit b ∷ [];
  write_string = delimited;
  write_bytes = delimited;
  write_uint32 = λ f n. tag f 0 ++ encode_varint n;
  write_uint64 = λ f n. tag f 0 ++ encode_varint n;
  write_sint32 = λ f z. tag f 0 ++ encode_varint (zigzag z);
  write_repeated_packed_uint32 = λ f ns. emit (nonempty ns) (delimited f (packed ns));
  write_repeated_packed_uint64 = λ f ns. emit (nonempty ns) (delimited f (packed ns));
  message_header = λ f n. tag f 2 ++ encode_varint n;
  string_size = λ f s. length (delimited f s);
  bytes_size = λ f s. length (delimited f s);
  uint32_size = λ f n. length (tag f 0 ++ encode_varint n);
  uint64_size = λ f n. length (tag f 0 ++ encode_varint n);
  sint32_size = λ f z. length (tag f 0 ++ encode_varint (zigzag z));
  vec_packed_uint32_size = λ f ns. length (emit (nonempty ns) (delimited f (packed ns)));
  vec_packed_uint64_size = λ f ns. length (emit (nonempty ns) (delimited f (packed ns)));
  compute_raw_varint64_size = λ n. length (encode_varint n);
  length-unknown = λ u. refl;
  length-bool_near = near_bool;
  length-bool_far = far_bool;
  length-string = λ f s. refl;
  length-bytes = λ f s. refl;
  length-uint32 = λ f n. refl;
  length-uint64 = λ f n. refl;
  length-sint32 = λ f z. refl;
  length-packed32 = λ f ns. refl;
  length-packed64 = λ f ns. refl;
  length-header_near = near_header;
  length-header_far = far_header;
  CodedInputStream = Bytes;
  of_bytes = λ b. b;
  remaining = length;
  read_raw_tag_or_eof = read_tag;
  read_string = read_cut some;
  read_bool = read_flag;
  read_uint32 = read_number;
  read_bytes = read_cut some;
  read_uint64 = read_number;
  read_sint32 = read_signed;
  read_packed_uint32 = read_cut all_varints;
  read_packed_uint64 = read_cut all_varints;
  read_message = λ merge_from default. read_cut (merge_from default);
  read_singular_message_into_field = λ merge_from default held.
      read_cut (λ b. and_then (merge_from default b) (λ m. some (some m)));
  read_unknown_or_skip_group = λ t u is. some (u, drop 1 is);
  tag_advances = λ is e. read_tag_less is e;
  string_advances = λ is e. varint-le (cut some) is (cut-IsLess some is) e;
  bool_advances = λ is e. varint-le (λ n is. some (leb 1 n, is)) is (λ n is' h. h) e;
  uint32_advances = λ is e. varint-le (λ n is. some (n, is)) is (λ n is' h. h) e;
  bytes_advances = λ is e. varint-le (cut some) is (cut-IsLess some is) e;
  uint64_advances = λ is e. varint-le (λ n is. some (n, is)) is (λ n is' h. h) e;
  sint32_advances = λ is e. varint-le (λ n is. some (unzigzag n, is)) is (λ n is' h. h) e;
  packed_uint32_advances = λ is e. varint-le (cut all_varints) is (cut-IsLess all_varints is) e;
  packed_uint64_advances = λ is e. varint-le (cut all_varints) is (cut-IsLess all_varints is) e;
  message_advances = λ merge_from default is e.
      varint-le (cut (merge_from default)) is (cut-IsLess (merge_from default) is) e;
  singular_advances = λ merge_from default held is e.
      varint-le (cut (λ b. and_then (merge_from default b) (λ m. some (some m)))) is
        (cut-IsLess (λ b. and_then (merge_from default b) (λ m. some (some m))) is) e;
  unknown_advances = λ t u is e. skip_one_advances is e;
}
