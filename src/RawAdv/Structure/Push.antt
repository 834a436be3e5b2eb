-- ===== src/RawAdv/Structure/Push.antt =====
-- What the pushes of src/raw_adv.rs that need no D-Bus value append: structures, encoded.
use linux_bt_proxy.Prelude.{
  ℕ, ◌≡◌, refl, sym, ap, ◌∙◌, Option, none, some, List, [], ◌∷◌, ◌++◌, Bytes, append-nil,
  append_assoc, reverse, and_then, inl, inr,
}
use linux_bt_proxy.Prelude.Outcome.{returns, on_return, Outcome-cases}
use linux_bt_proxy.RawAdv.Uuid.{ShortUuid, bit16, bit32, bit128, parse_uuid}
use linux_bt_proxy.RawAdv.Data.{
  u16_to_le_bytes, u32_to_le_bytes, push_ad, UuidLists, add_uuid, sort_uuids, push_nonempty,
  push_uuid_list_ad, push_service_data,
}
use linux_bt_proxy.RawAdv.Structure.{
  Ad, ad, encode_ads, cons?, shorts, of16, of32, of128, nonempty, list_ads, service_ad,
}

encode_ads-append : (xs ys : List Ad) → encode_ads (xs ++ ys) ≡ encode_ads xs ++ encode_ads ys
encode_ads-append [] ys = refl
encode_ads-append (x ∷ xs) ys =
    rw (encode_ads-append xs ys, append_assoc x.payload (encode_ads xs) (encode_ads ys))

push_ad-encode_ads :
    (out : Bytes) (t : ℕ) (p : Bytes) → push_ad out t p ≡ out ++ encode_ads (ad t p ∷ [])
unfolding push_ad
push_ad-encode_ads out t p = rw append-nil

abbrev after : UuidLists → List ShortUuid → UuidLists
after l ss = record {
  list16 = l.list16 ++ of16 ss;
  list32 = l.list32 ++ of32 ss;
  list128 = l.list128 ++ of128 ss;
}

after-add_uuid :
    (l : UuidLists) (short : Option ShortUuid) (ss : List ShortUuid)
    → after (add_uuid l short) ss ≡ after l (cons? short ss)
unfolding add_uuid
after-add_uuid l none ss = refl
after-add_uuid l (some (bit16 id)) ss = rw append_assoc
after-add_uuid l (some (bit32 id)) ss = rw append_assoc
after-add_uuid l (some (bit128 bytes)) ss = rw append_assoc

after_nil : (l : UuidLists) → after l [] ≡ l
after_nil l = rw (append-nil l.list16, append-nil l.list32, append-nil l.list128)

sort_uuids-shorts :
    (uuids : List Bytes) (l : UuidLists) → sort_uuids l uuids ≡ on_return (after l) (shorts uuids)
unfolding sort_uuids shorts
sort_uuids-shorts [] l = rw (after_nil l)
sort_uuids-shorts (uuid ∷ uuids) l = elim (Outcome-cases (parse_uuid uuid)) [
  | inl e ↦ rw (sort_uuids, shorts, e) refl
  | inr (short, e) ↦
      rw (sort_uuids, shorts, e)
        (sort_uuids-shorts uuids (add_uuid l short) ∙ elim (Outcome-cases (shorts uuids)) [
          | inl f ↦ rw f refl
          | inr (ss, f) ↦ rw f (ap returns (after-add_uuid l short ss))
        ])
]

push_nonempty-encode_ads :
    (out : Bytes) (t : ℕ) (p : Bytes) → push_nonempty out t p ≡ out ++ encode_ads (nonempty t p)
unfolding push_nonempty
push_nonempty-encode_ads out t [] = sym (append-nil out)
push_nonempty-encode_ads out t (b ∷ bs) = push_ad-encode_ads out t (b ∷ bs)

pub push_uuid_list_ad-list_ads :
    (out : Bytes) (uuids : List Bytes)
    → push_uuid_list_ad out uuids ≡ on_return (λ ss. out ++ encode_ads (list_ads ss)) (shorts uuids)
unfolding push_uuid_list_ad
push_uuid_list_ad-list_ads out uuids =
    rw (sort_uuids-shorts uuids) (elim (Outcome-cases (shorts uuids)) [
      | inl e ↦ rw e refl
      | inr (ss, e) ↦ rw e (simp (push_nonempty-encode_ads, encode_ads-append, append_assoc))
    ])

pub encode_ads-cons? :
    (a : Option Ad) (ads : List Ad)
    → encode_ads (cons? a ads) ≡ encode_ads (cons? a []) ++ encode_ads ads
encode_ads-cons? none ads = refl
encode_ads-cons? (some a) ads = rw append-nil

pub joined :
    (name : Option Ad) (lists served made tx : List Ad)
    → (((encode_ads (cons? name []) ++ encode_ads lists) ++ encode_ads served) ++ encode_ads made)
        ++ encode_ads tx
      ≡ encode_ads (cons? name (lists ++ (served ++ (made ++ tx))))
joined name lists served made tx =
    rw (encode_ads-cons? name (lists ++ (served ++ (made ++ tx))))
      (simp (encode_ads-append, append_assoc))

pub push_service_data-service_ad :
    (out : Bytes) (short : Option ShortUuid) (d : Bytes)
    → push_service_data out short d
      ≡ out ++ encode_ads (cons? (and_then short (λ s. some (service_ad d s))) [])
unfolding push_service_data
push_service_data-service_ad out none d = sym (append-nil out)
push_service_data-service_ad out (some (bit16 id)) d =
    push_ad-encode_ads out 0x16 (u16_to_le_bytes id ++ d)
push_service_data-service_ad out (some (bit32 id)) d =
    push_ad-encode_ads out 0x20 (u32_to_le_bytes id ++ d)
push_service_data-service_ad out (some (bit128 bytes)) d =
    push_ad-encode_ads out 0x21 (reverse bytes ++ d)
