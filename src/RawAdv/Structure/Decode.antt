-- ===== src/RawAdv/Structure/Decode.antt =====
-- A scanner's reading of advertising data, and what it makes of the data that src/raw_adv.rs builds.
use linux_bt_proxy.Prelude.{
  ℕ, zero, suc, ◌+◌, ◌%◌, ◌≤◌, ◌≡◌, refl, Option, none, some, List, [], ◌∷◌, Bytes, length, take,
  drop, All, All-drop, false, IsByte, IsBytes, ltb, if◌then◌else◌, Option-cases, Bool-cases, inl,
  inr, arith, take-append, drop-append, length-append, length-take, ltb→le, and_then, ◌↔◌,
}
use linux_bt_proxy.Prelude.Outcome.{returns}
use linux_bt_proxy.DBus.{DBus, Props}
use linux_bt_proxy.RawAdv.Data.{build_raw_advertisement_data}
use linux_bt_proxy.RawAdv.Structure.{Ad, ad, encode_ads, structures}
use linux_bt_proxy.RawAdv.Structure.Refine.{build-structures}

-- Each structure by its length byte; `none` on a length of 0 or beyond the data. Every structure
-- takes a byte at least, so the data's length is enough rounds.
read_loop : ℕ → Bytes → Option (List Ad)
read_loop rounds [] = some []
read_loop zero (n ∷ rest) = none
read_loop (suc rounds) (zero ∷ rest) = none
read_loop (suc rounds) (suc n ∷ []) = none
read_loop (suc rounds) (suc n ∷ t ∷ rest) =
    let more = read_loop rounds (drop n rest) in
    if ltb (length rest) n then none else and_then more (λ ads. some (ad t (take n rest) ∷ ads))

pub read_ads : Bytes → Option (List Ad)
unfolding read_loop
read_ads data_bytes = read_loop (length data_bytes) data_bytes

-- A payload whose length and type fit the length byte.
abbrev pub FitsByte : Ad → Type 0
FitsByte a = length a.payload ≤ 254

read_loop-cons :
    (rounds n t : ℕ) (rest : Bytes) {ads : List Ad}
    → read_loop (suc rounds) (suc n ∷ t ∷ rest) ≡ some ads
    → (ltb (length rest) n ≡ false)
      × (more : List Ad) × (read_loop rounds (drop n rest) ≡ some more)
      × (ads ≡ ad t (take n rest) ∷ more)
unfolding read_loop
read_loop-cons rounds n t rest e = elim (Bool-cases (ltb (length rest) n)) [
  | inl short ↦ absurd (ground (arith, short))
  | inr inside ↦ elim (Option-cases (read_loop rounds (drop n rest))) [
    | inl stop ↦ absurd (ground (arith, stop))
    | inr (more, read) ↦ (inside, more, read, ground (arith, read))
  ]
]

read_loop-encode_ads :
    (ads : List Ad) (rounds : ℕ)
    → All FitsByte ads
    → length (encode_ads ads) ≤ rounds
    → read_loop rounds (encode_ads ads) ≡ some ads
unfolding read_loop
read_loop-encode_ads [] zero h e = refl
read_loop-encode_ads [] (suc rounds) h e = refl
read_loop-encode_ads (a ∷ ads) zero h e = absurd (omega arith)
read_loop-encode_ads (a ∷ ads) (suc rounds) (h, hs) e =
    rw
      (
        let q : (length a.payload + 1) % 256 ≡ suc (length a.payload) = omega arith in q,
        take-append a.payload (encode_ads ads),
        drop-append a.payload (encode_ads ads),
        read_loop-encode_ads ads rounds hs
            (omega (arith, e, length-append a.payload (encode_ads ads))),
      )
      (ground (arith, length-append a.payload (encode_ads ads)))

-- A payload that is read is at most 254 bytes long.
read_loop-FitsByte :
    (rounds : ℕ) (bytes : Bytes) {ads : List Ad}
    → IsBytes bytes
    → read_loop rounds bytes ≡ some ads
    → All FitsByte ads
unfolding read_loop
read_loop-FitsByte zero [] {ads} h e = rw (let q : ads ≡ [] = cc in q) tt
read_loop-FitsByte (suc rounds) [] {ads} h e = rw (let q : ads ≡ [] = cc in q) tt
read_loop-FitsByte zero (n ∷ rest) h e = cc
read_loop-FitsByte (suc rounds) (zero ∷ rest) h e = cc
read_loop-FitsByte (suc rounds) (suc n ∷ []) h e = cc
read_loop-FitsByte (suc rounds) (suc n ∷ t ∷ rest) {ads} h e =
    let (inside, more, read, parts) = read_loop-cons rounds n t rest e in
    rw parts (
      omega (arith, h, length-take n rest (ltb→le (length rest) n inside)),
      read_loop-FitsByte rounds (drop n rest) {ads = more} (All-drop IsByte n rest h.1.1) read,
    )

module _ (bus : DBus) where
  -- A scanner reads the structures back from the data that is built exactly when each payload, with
  -- its type, fits the length byte: the data is built for any properties whose UUIDs do not make
  -- `parse_uuid` panic and whose structures are written as bytes, and with a longer payload it does not read back as those structures.
  pub build-read_ads :
      (props : Props bus) {ads : List Ad}
      → structures bus props ≡ returns ads
      → IsBytes (encode_ads ads)
      → (out : Bytes) × (build_raw_advertisement_data bus props ≡ returns out)
        × ((read_ads out ≡ some ads) ↔ All FitsByte ads)
  unfolding read_ads
  build-read_ads props {ads} e bytes = (
    encode_ads ads,
    rw (build-structures bus props, e) refl,
    (
      read_loop-FitsByte (length (encode_ads ads)) (encode_ads ads) bytes,
      λ fits. read_loop-encode_ads ads (length (encode_ads ads)) fits (omega arith),
    ),
  )
