-- ===== src/Start/Valid.antt =====
-- The context that src/main.rs hands to the server.
use mathlib.Core.Path.{subst}
use linux_bt_proxy.Prelude.{
  ℕ, zero, suc, ◌+◌, ◌≡◌, ◌⊎◌, refl, ltb, if_holds, if◌then◌else◌, Option, none, some, Option-cases,
  inl, inr, List, [], ◌∷◌, map, Bytes, IsBytes, length,
}
use linux_bt_proxy.Text.{split, u8_from_hex}
use linux_bt_proxy.Text.Hex.{u8_from_hex-IsByte}
use linux_bt_proxy.Utils.{MacResult, ok, err, parse_mac}
use linux_bt_proxy.Utils.Mac.{parse_mac_iff}
use linux_bt_proxy.Context.{ProxyContext}
use linux_bt_proxy.Ble.{adapter_path, get_adapter_mac, mac_of}
use linux_bt_proxy.Start.{
  Looked, bt_mac, exits, missing, lookup_loop, lookup_mac, SystemMac, system_mac, no_mac, mac_error,
  Environment, Start, exit, panic, serves, choose_mac, make_context, main,
}

-- The type `[u8; 6]`.
abbrev pub IsMac : Bytes → Type 0
IsMac mac = (length mac ≡ 6) × IsBytes mac

octets-IsBytes :
    (parts : List Bytes) (mac : Bytes) → map u8_from_hex parts ≡ map some mac → IsBytes mac
octets-IsBytes [] [] e = tt
octets-IsBytes [] (b ∷ mac) e = cc
octets-IsBytes (part ∷ parts) [] e = cc
octets-IsBytes (part ∷ parts) (b ∷ mac) e = (
  u8_from_hex-IsByte part (let r : u8_from_hex part ≡ some b = cc in r),
  octets-IsBytes parts mac (cc),
)

parse_mac-IsMac : (s mac : Bytes) → parse_mac s ≡ ok mac → IsMac mac
parse_mac-IsMac s mac e =
    let (six, parts) = (parse_mac_iff s mac).0 e in (six, octets-IsBytes (split b':' s) mac parts)

mac_of-IsMac :
    (r : MacResult) (mac : Bytes)
    → ((m : Bytes) → r ≡ ok m → IsMac m)
    → mac_of r ≡ some mac
    → IsMac mac
mac_of-IsMac (ok m) mac h e = h mac (cc)
mac_of-IsMac (err refused) mac h e = cc

get_adapter_mac-IsMac :
    (hci : ℕ) (address : Bytes → Option Bytes) (mac : Bytes)
    → get_adapter_mac address hci ≡ some mac
    → IsMac mac
unfolding get_adapter_mac
get_adapter_mac-IsMac hci address mac e = elim (Option-cases (address (adapter_path hci))) [
  | inl gone ↦ let q : none ≡ some mac = rw (get_adapter_mac, gone) at e in cc
  | inr (s, there) ↦
      mac_of-IsMac (parse_mac s) mac (parse_mac-IsMac s) (rw (get_adapter_mac, there) at e)
]

-- The bytes that the lookup has found.
Found : Looked → Type 0
Found (bt_mac mac) = IsMac mac
Found exits = Unit
Found missing = Unit

lookup_loop-Found :
    (hci : ℕ) (address : ℕ → Bytes → Option Bytes) (left attempt : ℕ)
    → Found ((lookup_loop hci address left attempt).0)
unfolding lookup_loop Found
lookup_loop-Found hci address zero attempt = tt
lookup_loop-Found hci address (suc left) attempt =
    elim (Option-cases (get_adapter_mac (address attempt) hci)) [
      | inr (mac, now) ↦ rw (lookup_loop, now) (get_adapter_mac-IsMac hci (address attempt) mac now)
      | inl none_now ↦
          rw (lookup_loop, none_now)
            (if_holds (λ (r : Looked × ℕ). Found (r.0)) (ltb attempt 5) _ _
              (lookup_loop-Found hci address left (attempt + 1)) tt)
    ]

-- The MACs that come from elsewhere are of that type: the command line's by `parse_mac`.
abbrev pub IsTyped : Environment → Type 0
IsTyped env =
    ((mac : Bytes) → env.cli_mac ≡ some mac → IsMac mac)
    × ((mac : Bytes) → env.system ≡ system_mac mac → IsMac mac)

choose_mac-IsMac :
    (cli : Option Bytes) (system : SystemMac) (mac : Bytes)
    → ((m : Bytes) → cli ≡ some m → IsMac m)
    → ((m : Bytes) → system ≡ system_mac m → IsMac m)
    → choose_mac cli system ≡ some mac
    → IsMac mac
unfolding choose_mac
choose_mac-IsMac (some m) system mac hc hs e = hc mac (cc)
choose_mac-IsMac none (system_mac m) mac hc hs e = hs mac (cc)
choose_mac-IsMac none no_mac mac hc hs e = cc
choose_mac-IsMac none mac_error mac hc hs e = cc

pub Looked-cases : (l : Looked) → ((mac : Bytes) × (l ≡ bt_mac mac)) ⊎ (l ≡ exits) ⊎ (l ≡ missing)
Looked-cases (bt_mac mac) = inl (mac, refl)
Looked-cases exits = inr (inl refl)
Looked-cases missing = inr (inr refl)

Holds : Start → Type 0
Holds exit = Unit
Holds panic = Unit
Holds (serves ctx) = IsMac ctx.bt_mac × IsMac ctx.net_mac

module _ (env : Environment) (typed : IsTyped env) where
  main_chosen-Holds :
      (bt : Bytes) (chosen : Option Bytes)
      → IsMac bt
      → ((mac : Bytes) → chosen ≡ some mac → IsMac mac)
      → Holds (elim chosen [
        | none ↦ exit
        | some net ↦
            if env.mdns
            then (if env.socket then serves (make_context env bt net) else exit)
            else panic
      ])
  unfolding Holds make_context
  main_chosen-Holds bt none h k = tt
  main_chosen-Holds bt (some net) h k =
      if_holds Holds env.mdns _ _ (if_holds Holds env.socket _ _ (h, k net refl) tt) tt

  main_looked-Holds :
      (looked : Looked)
      → Found looked
      → Holds (elim looked [
        | exits ↦ exit
        | missing ↦ panic
        | bt_mac bt ↦ elim (choose_mac env.cli_mac env.system) [
          | none ↦ exit
          | some net ↦
              if env.mdns
              then (if env.socket then serves (make_context env bt net) else exit)
              else panic
        ]
      ])
  unfolding Holds Found
  main_looked-Holds exits h = tt
  main_looked-Holds missing h = tt
  main_looked-Holds (bt_mac bt) h =
      main_chosen-Holds bt (choose_mac env.cli_mac env.system) h
        (λ mac. choose_mac-IsMac env.cli_mac env.system mac (typed.0) (typed.1))

  -- The server only ever runs with a context whose two MACs are six bytes each, if those that the
  -- command line and the system give are.
  pub main-IsMac :
      (ctx : ProxyContext) → main env ≡ serves ctx → IsMac ctx.bt_mac × IsMac ctx.net_mac
  unfolding main lookup_mac Holds
  main-IsMac ctx e =
      let h : Holds (main env) =
        if_holds Holds env.bus _ _
          (main_looked-Holds ((lookup_mac env.hci env.address).0)
            (lookup_loop-Found env.hci env.address 5 1))
          tt in
      subst Holds e h
