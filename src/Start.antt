-- ===== src/Start.antt =====
-- src/main.rs: what the program does until it serves clients. `std::process::exit(1)` is an exit.
pub mod Lookup
pub mod Valid
pub mod Serves
pub mod Service
use linux_bt_proxy.Prelude.{
  ℕ, zero, suc, ◌+◌, ◌*◌, ◌≡◌, Bool, true, false, Option, none, some, Bytes, ltb, if◌then◌else◌,
}
use linux_bt_proxy.Context.{ProxyContext}
use linux_bt_proxy.Ble.{get_adapter_mac}

abbrev pub mac_lookup_attempts : ℕ
mac_lookup_attempts = 5

-- `missing` is the `expect` after the loop, which would panic.
pub data Looked : Type 0 where
  bt_mac : Bytes → Looked
  exits : Looked
  missing : Looked

-- `for attempt in 1..=MAC_LOOKUP_ATTEMPTS`, from `attempt` on with `left` of them to come; what the bus
-- answers to each. The seconds slept are the second result.
unfoldable pub lookup_loop : ℕ → (ℕ → Bytes → Option Bytes) → ℕ → ℕ → Looked × ℕ
unfolding get_adapter_mac
lookup_loop hci address zero attempt = (missing, 0)
lookup_loop hci address (suc left) attempt =
    let (looked, slept) = lookup_loop hci address left (attempt + 1) in
    elim (get_adapter_mac (address attempt) hci) [
      | some mac ↦ (bt_mac mac, 0)
      | none ↦ if ltb attempt mac_lookup_attempts then (looked, slept + 2) else (exits, 0)
    ]

unfoldable pub lookup_mac : ℕ → (ℕ → Bytes → Option Bytes) → Looked × ℕ
unfolding lookup_loop
lookup_mac hci address = lookup_loop hci address mac_lookup_attempts 1

-- What `get_mac_address` answers.
pub data SystemMac : Type 0 where
  system_mac : Bytes → SystemMac
  no_mac : SystemMac
  mac_error : SystemMac

-- The command line, and what the system answers: the bus, the adapters' addresses at each attempt, the
-- system's MAC, the registration by mDNS, and the listening socket.
pub record Environment : Type 0 where
  pub hci : ℕ
  pub cli_hostname : Bytes
  pub cli_port : ℕ
  pub cli_mac : Option Bytes
  pub build_time : Bytes
  pub version : Bytes
  pub bus : Bool
  pub address : ℕ → Bytes → Option Bytes
  pub system : SystemMac
  pub mdns : Bool
  pub socket : Bool

-- `exit` may come after the supervisor was spawned and the service registered. `start_mdns` panics where
-- the registration fails.
pub data Start : Type 0 where
  exit : Start
  panic : Start
  serves : ProxyContext → Start

unfoldable pub choose_mac : Option Bytes → SystemMac → Option Bytes
choose_mac (some mac) system = some mac
choose_mac none (system_mac mac) = some mac
choose_mac none no_mac = none
choose_mac none mac_error = none

unfoldable pub make_context : Environment → Bytes → Bytes → ProxyContext
make_context env bt net = record {
  hostname = env.cli_hostname;
  port = env.cli_port;
  net_mac = net;
  bt_mac = bt;
  build_time = env.build_time;
  version = env.version;
}

-- From the connection to the bus to the TCP server.
unfoldable pub main : Environment → Start
unfolding lookup_mac choose_mac make_context
main env =
    if env.bus
    then elim ((lookup_mac env.hci env.address).0) [
      | exits ↦ exit
      | missing ↦ panic
      | bt_mac bt ↦ elim (choose_mac env.cli_mac env.system) [
        | none ↦ exit
        | some net ↦
            if env.mdns
            then (if env.socket then serves (make_context env bt net) else exit)
            else panic
      ]
    ]
    else exit
