-- ===== src/Context.antt =====
-- src/context.rs: what the command line and the system say of the proxy.
use linux_bt_proxy.Prelude.{ℕ, Bytes}

pub record ProxyContext : Type 0 where
  pub hostname : Bytes
  pub port : ℕ
  pub net_mac : Bytes
  pub bt_mac : Bytes
  pub build_time : Bytes
  pub version : Bytes
