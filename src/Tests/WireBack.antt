-- ===== src/Tests/WireBack.antt =====
-- What the `protobuf` of the tests wrote is read back.
use linux_bt_proxy.Prelude.{
  Bool, and_then, true, List, ◌≤◌, All, ℕ, ◌+◌, ◌*◌, ◌/◌, ◌^◌, ◌<◌, ◌≡◌, refl, false, Option, some,
  [], ◌∷◌, ◌++◌, Bytes, length, length-append, take-append, drop-append, ltb, arith, suc, zero, ap,
  ◌∙◌, append_assoc,
}
use linux_bt_proxy.Prelude.Int.{ℤ, pos, negsuc}
use linux_bt_proxy.Proto.Varint.{encode_varint, encode_loop}
use linux_bt_proxy.Proto.Varint.Encode.{encode_loop_step, length-encode_varint}
use linux_bt_proxy.Api.Runtime.ReadsBack.{Back, ReadsBack, IsI32}
use linux_bt_proxy.Api.Runtime.{emit, nonempty}
use linux_bt_proxy.Api.Runtime.Sizes.{All-map}
use linux_bt_proxy.Tests.Wire.{
  bit, read_flag, packed, varints, all_varints, protobuf, tag, zigzag, delimited, read_varint,
  via_varint, tagged, read_tag, read_signed, unzigzag, read_cut,
}

-- What was written is read.
read_varint-encode_loop :
    (k v : ℕ) (rest : Bytes)
    → v < 128 ^ suc k
    → read_varint (encode_loop (suc k) v ++ rest) ≡ some (v, rest)
read_varint-encode_loop zero v rest h = rw (encode_loop_step zero v) (ground arith)
read_varint-encode_loop (suc k) v rest h =
    rw (encode_loop_step (suc k) v)
      (ground (arith, read_varint-encode_loop k (v / 128) rest (omega arith)))

read_varint-encode_varint :
    (v : ℕ) (rest : Bytes) → v < 2 ^ 64 → read_varint (encode_varint v ++ rest) ≡ some (v, rest)
unfolding encode_varint
read_varint-encode_varint v rest h = read_varint-encode_loop 9 v rest (omega arith)

read_tag-varint :
    (is : Bytes) {n : ℕ} {is' : Bytes}
    → read_varint is ≡ some (n, is')
    → read_tag is ≡ some (some n, is')
read_tag-varint [] e = cc
read_tag-varint (b ∷ bs) e = ap tagged e

-- Before a value of its own that is read back, a tag makes a field that is.
wire-Back :
    {A : Type 0} (f wire t : ℕ) (body : Bytes) (read : Bytes → Option (A × Bytes)) (a : A)
    → f * 8 + wire ≡ t
    → f < 2 ^ 29
    → wire < 8
    → ((rest : Bytes) → read (body ++ rest) ≡ some (a, rest))
    → Back protobuf t (tag f wire ++ body) read a
wire-Back f wire t body read a e h k reads rest = (
  body ++ rest,
  ap read_tag (append_assoc (tag f wire) body rest)
      ∙ read_tag-varint (tag f wire ++ (body ++ rest))
          (read_varint-encode_varint (f * 8 + wire) (body ++ rest) (omega arith))
      ∙ ap (λ (t : ℕ). some (some t, body ++ rest)) e,
  reads rest,
)

pub number-Back :
    {A : Type 0} (f n : ℕ) (of_number : ℕ → A)
    → f < 2 ^ 29
    → n < 2 ^ 64
    → Back protobuf
        (f * 8)
        (tag f 0 ++ encode_varint n)
        (via_varint (λ n is. some (of_number n, is)))
        (of_number n)
number-Back f n of_number h k =
    wire-Back f 0 (f * 8) (encode_varint n) (via_varint (λ n is. some (of_number n, is)))
      (of_number n) (omega arith) h (omega arith)
      (λ rest. rw (read_varint-encode_varint n rest k) refl)

pub cut-Back :
    {A : Type 0} (f : ℕ) (s : Bytes) (meaning : Bytes → Option A) (a : A)
    → f < 2 ^ 29
    → length s < 2 ^ 31
    → meaning s ≡ some a
    → Back protobuf (f * 8 + 2) (delimited f s) (read_cut meaning) a
cut-Back f s meaning a h k means =
    wire-Back f 2 (f * 8 + 2) (encode_varint (length s) ++ s) (read_cut meaning) a refl h
      (omega arith)
      (λ rest.
        let within : ltb (length (s ++ rest)) (length s) ≡ false =
          ground (arith, length-append s rest) in
        rw
          (
            append_assoc (encode_varint (length s)) s rest,
            read_varint-encode_varint (length s) (s ++ rest) (omega arith),
            within,
            take-append s rest,
            drop-append s rest,
            means,
          )
          refl)

unzigzag-zigzag : (z : ℤ) → unzigzag (zigzag z) ≡ z
unzigzag-zigzag (pos n) = ground arith
unzigzag-zigzag (negsuc n) = ground arith

zigzag_fits : (z : ℤ) → IsI32 z → zigzag z < 2 ^ 64
zigzag_fits (pos n) h = omega arith
zigzag_fits (negsuc n) h = omega arith

pub signed-Back :
    (f : ℕ) (z : ℤ)
    → 0 < f
    → f < 2 ^ 29
    → IsI32 z
    → Back protobuf (f * 8) (tag f 0 ++ encode_varint (zigzag z)) read_signed z
signed-Back f z h k small rest =
    let (is', t, r) = number-Back f (zigzag z) unzigzag k (zigzag_fits z small) rest in
    (is', t, r ∙ ap (λ (z : ℤ). some (z, rest)) (unzigzag-zigzag z))

varints-front :
    (rounds : ℕ) (is : Bytes) {n : ℕ} {is' : Bytes} {ns : List ℕ}
    → read_varint is ≡ some (n, is')
    → varints rounds is' ≡ some ns
    → varints (suc rounds) is ≡ some (n ∷ ns)
varints-front rounds [] e f = cc
varints-front rounds (b ∷ bs) e f = rw (varints, e, f) refl

-- Of the bytes of the numbers, with no fewer rounds than there are bytes.
varints-packed :
    (rounds : ℕ) (ns : List ℕ)
    → All (λ n. n < 2 ^ 64) ns
    → length (packed ns) < rounds
    → varints rounds (packed ns) ≡ some ns
varints-packed zero ns h k = absurd (omega arith)
varints-packed (suc rounds) [] h k = refl
varints-packed (suc rounds) (n ∷ ns) (hn, h) k =
    varints-front rounds (encode_varint n ++ packed ns)
      (read_varint-encode_varint n (packed ns) (omega arith))
      (varints-packed rounds ns h
        (omega (arith, length-append (encode_varint n) (packed ns), length-encode_varint n)))

length-packed : (ns : List ℕ) → length (packed ns) ≤ 10 * length ns
length-packed [] = omega arith
length-packed (n ∷ ns) =
    omega
      (arith, length-packed ns, length-append (encode_varint n) (packed ns), length-encode_varint n)

pub packed-Back :
    (f : ℕ) (ns : List ℕ)
    → 0 < f
    → f < 2 ^ 29
    → nonempty ns ≡ true
    → All (λ n. n < 2 ^ 64) ns
    → length ns < 2 ^ 27
    → Back protobuf
        (f * 8 + 2)
        (emit (nonempty ns) (delimited f (packed ns)))
        (read_cut all_varints)
        ns
packed-Back f ns h k some_ns range short = rw some_ns (
    cut-Back f (packed ns) all_varints ns k (omega (arith, length-packed ns))
      (varints-packed (suc (length (packed ns))) ns range (omega arith)))

pub flag-Back :
    (f : ℕ) (b : Bool)
    → 0 < f
    → f < 2 ^ 29
    → Back protobuf (f * 8) (tag f 0 ++ bit b ∷ []) read_flag b
flag-Back f b h k =
    wire-Back f 0 (f * 8) (bit b ∷ []) read_flag b (omega arith) k (omega arith)
      (λ rest. flag-read b rest)
  where
    flag-read : (b : Bool) (rest : Bytes) → read_flag (bit b ∷ rest) ≡ some (b, rest)
    flag-read true rest = refl
    flag-read false rest = refl

-- A message inside another.
pub inside-Back :
    {A : Type 0} (f : ℕ) (s : Bytes) (meaning : Bytes → Option A) (a : A)
    → f < 2 ^ 29
    → length s < 2 ^ 31
    → meaning s ≡ some a
    → Back protobuf (f * 8 + 2) ((tag f 2 ++ encode_varint (length s)) ++ s) (read_cut meaning) a
inside-Back f s meaning a k small e rest =
    let (is', t, r) = cut-Back f s meaning a k small e rest in
    (
      is',
      ap (λ (b : Bytes). read_tag (b ++ rest)) (append_assoc (tag f 2) (encode_varint (length s)) s)
          ∙ t,
      r,
    )

abbrev pub reads_back : ReadsBack protobuf
reads_back = record {
  IsUtf8 = λ s. Unit;
  ends = ([], refl);
  no_unknown_back = refl;
  uint32_back = λ f n h k small. number-Back f n (λ n. n) k (omega arith);
  uint64_back = λ f n h k small. number-Back f n (λ n. n) k small;
  sint32_back = signed-Back;
  string_back = λ f s h k utf8 small. cut-Back f s some s k small refl;
  bytes_back = λ f s h k small. cut-Back f s some s k small refl;
  packed_uint32_none = λ f. refl;
  packed_uint32_back = λ f ns h k filled range short.
      packed-Back f ns h k filled
        (All-map (λ n. n < 2 ^ 32) (λ n. n < 2 ^ 64) ns (λ n small. omega arith) range) short;
  packed_uint64_none = λ f. refl;
  packed_uint64_back = packed-Back;
  bool_back = flag-Back;
  message_back =
      λ merge_from default m f s h k small e. inside-Back f s (merge_from default) m k small e;
  singular_back = λ merge_from default m f s h k small e.
      inside-Back f s (λ b. and_then (merge_from default b) (λ m. some (some m))) (some m) k small
        (ap (λ o. and_then o (λ m. some (some m))) e);
}
