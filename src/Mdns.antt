-- ===== src/Mdns.antt =====
-- src/mdns.rs: the service that `start_mdns` registers; the registration itself is `mdns_sd`'s.
pub mod Announce
use linux_bt_proxy.Prelude.{ℕ, List, [], ◌∷◌, ◌++◌, Bytes, drop}
use linux_bt_proxy.Text.{codes, to_lowercase}
use linux_bt_proxy.Utils.{format_mac}
use linux_bt_proxy.Context.{ProxyContext}

-- The arguments of `ServiceInfo::new`; the address is left to `enable_addr_auto`.
pub record ServiceInfo : Type 0 where
  pub service_type : Bytes
  pub service_name : Bytes
  pub service_hostname : Bytes
  pub port : ℕ
  pub txt_records : List (Bytes × Bytes)

-- `format_mac(&ctx.bt_mac[2..], "")`
unfoldable pub short_bt_mac : ProxyContext → Bytes
unfolding format_mac
short_bt_mac ctx = format_mac (drop 2 ctx.bt_mac) []

unfoldable pub start_mdns : ProxyContext → ServiceInfo
unfolding short_bt_mac format_mac
start_mdns ctx = record {
  service_type = codes "_esphomelib._tcp.local.";
  service_name = ctx.hostname ++ codes "_" ++ short_bt_mac ctx;
  service_hostname = ctx.hostname ++ codes ".local.";
  port = ctx.port;
  txt_records =
      (codes "friendly_name", codes "Bluetooth Proxy " ++ short_bt_mac ctx)
      ∷ (codes "version", ctx.version)
      ∷ (codes "mac", to_lowercase (format_mac ctx.bt_mac (codes ":")))
      ∷ (codes "platform", codes "linux")
      ∷ (codes "network", codes "ethernet")
      ∷ [];
}
