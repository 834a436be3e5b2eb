-- ===== src/Mdns/Announce.antt =====
-- What `start_mdns` (src/mdns.rs) announces, beside what a client is told (src/handlers.rs).
use linux_bt_proxy.Prelude.{ℕ, ◌≡◌, refl, Option, none, some, List, [], ◌∷◌, Bytes, if◌then◌else◌}
use linux_bt_proxy.Text.{codes}
use linux_bt_proxy.Utils.{ok, parse_mac}
use linux_bt_proxy.Utils.Mac.{parse_mac-format_mac, parse_mac-to_lowercase}
use linux_bt_proxy.Context.{ProxyContext}
use linux_bt_proxy.Net.{Net}
use linux_bt_proxy.RawAdv.Uuid.{bytes_eq}
use linux_bt_proxy.Api.Runtime.{Protobuf}
use linux_bt_proxy.Handlers.{device_info_response}
use linux_bt_proxy.Start.{Environment, serves, main}
use linux_bt_proxy.Start.Valid.{IsTyped, main-IsMac}
use linux_bt_proxy.Start.Serves.{IsLocal, found, main-serves}
use linux_bt_proxy.Mdns.{start_mdns}

-- A text record by its key.
abbrev pub lookup : Bytes → List (Bytes × Bytes) → Option Bytes
lookup key [] = none
lookup key ((k, v) ∷ records) =
    let later = lookup key records in if bytes_eq k key then some v else later

-- If the server runs, and the MACs that the command line and the system give are six bytes each: the
-- address that the service announces and the Bluetooth address that a client is told are read by
-- `parse_mac` as the one that the first attempt has found of the adapter, also where the command line
-- gives a MAC; and the other address that a client is told is read as the command line's, if it gives
-- one, and else as the system's.
pub announced_mac :
    (net : Net) (rt : Protobuf) (env : Environment) (ctx : ProxyContext)
    → IsTyped env
    → main env ≡ serves ctx
    → (text : Bytes) × (lookup (codes "mac") (start_mdns ctx).txt_records ≡ some text)
      × (parse_mac text ≡ ok ctx.bt_mac)
      × (parse_mac (device_info_response net rt ctx).bluetooth_mac_address ≡ ok ctx.bt_mac)
      × (parse_mac (device_info_response net rt ctx).mac_address ≡ ok ctx.net_mac)
      × ((k : ℕ) × (found env ≡ some (k, ctx.bt_mac)))
      × IsLocal env.cli_mac env.system ctx.net_mac
unfolding start_mdns device_info_response bytes_eq
announced_mac net rt env ctx typed e =
    let (bt, local) = main-IsMac env typed ctx e in
    let (_, _, _, (_, _, _, _, first, chosen)) = (main-serves env ctx).0 e in
    (
      _,
      refl,
      parse_mac-to_lowercase ctx.bt_mac (bt.1) (bt.0),
      parse_mac-format_mac ctx.bt_mac (bt.1) (bt.0),
      parse_mac-format_mac ctx.net_mac (local.1) (local.0),
      first,
      chosen,
    )
