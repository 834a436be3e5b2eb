-- ===== src/Tests/Starting.antt =====
-- Runs of the start of the program, of its announcement and of the listener on BlueZ.
use linux_bt_proxy.Prelude.{
  zero, suc, ◌*◌, ◌<◌, arith, ℕ, ◌==◌, ◌≡◌, ◌↔◌, refl, true, Option, none, some, List, [], ◌∷◌,
  Bytes, if◌then◌else◌,
}
use linux_bt_proxy.Text.{codes, split, u8_from_hex}
use linux_bt_proxy.Utils.{parse_mac, ok}
use linux_bt_proxy.Context.{ProxyContext}
use linux_bt_proxy.Handlers.{device_info_response}
use linux_bt_proxy.Ble.{get_adapter_mac, build_advertisement}
use linux_bt_proxy.RawAdv.Uuid.{bytes_eq}
use linux_bt_proxy.Prelude.Outcome.{returns}
use linux_bt_proxy.RawAdv.Structure.{encode_ads}
use linux_bt_proxy.Ble.{BleAdvertisement, legacy_of}
use linux_bt_proxy.Ble.Reported.{raw_beside}
use linux_bt_proxy.DBus.{Props}
use linux_bt_proxy.Ble.Listener.{
  Streams, Device, Adapter, method_error, get_device_properties, Signal, device_changed,
  interfaces_added, listening, listen, run_bluez_advertisement_listener,
}
use linux_bt_proxy.Ble.Listener.Steps.{
  all, built, properties, with_more, starts, turned_off, listen-advertises,
}
use linux_bt_proxy.Ble.Listener.Discovery.{IsStarted, run-IsStarted}
use linux_bt_proxy.Start.{
  Environment, no_mac, serves, main, lookup_mac, bt_mac, choose_mac, make_context,
}
use linux_bt_proxy.Start.Lookup.{lookup_mac-first}
use linux_bt_proxy.Start.Service.{Interval, Service, ready, status, pings}
use linux_bt_proxy.Start.Valid.{IsTyped}
use linux_bt_proxy.Start.Serves.{IsLocal, found, IsServing, main-serves}
use linux_bt_proxy.Mdns.{start_mdns}
use linux_bt_proxy.Mdns.Announce.{lookup, announced_mac}
use linux_bt_proxy.Tests.Wire.{protobuf}
use linux_bt_proxy.Tests.Instances.{net, dbus, in_bytes}
use linux_bt_proxy.Tests.Devices.{lamp, lamp_ads}

-- The adapter hci12 comes up after the second attempt.
abbrev late : ℕ → Bytes → Option Bytes
late attempt path =
    if attempt == 3
    then (if bytes_eq path (codes "/org/bluez/hci12")
        then some (codes "0A:0B:0C:0D:0E:0F")
        else none)
    else none

lookup_mac-first_example : lookup_mac 12 late ≡ (bt_mac (10 ∷ 11 ∷ 12 ∷ 13 ∷ 14 ∷ 15 ∷ []), 4)
unfolding get_adapter_mac parse_mac split u8_from_hex bytes_eq
lookup_mac-first_example = lookup_mac-first 12 late

abbrev env : Environment
env = record {
  hci = 12;
  cli_hostname = codes "proxy";
  cli_port = 6053;
  cli_mac = some (1 ∷ 2 ∷ 3 ∷ 4 ∷ 5 ∷ 6 ∷ []);
  build_time = [];
  version = [];
  bus = true;
  address = late;
  system = no_mac;
  mdns = true;
  socket = true;
}

abbrev served : ProxyContext
served = record {
  hostname = codes "proxy";
  port = 6053;
  net_mac = 1 ∷ 2 ∷ 3 ∷ 4 ∷ 5 ∷ 6 ∷ [];
  bt_mac = 10 ∷ 11 ∷ 12 ∷ 13 ∷ 14 ∷ 15 ∷ [];
  build_time = [];
  version = [];
}

env-IsTyped : IsTyped env
env-IsTyped = (
  (λ mac e.
      let q : 1 ∷ 2 ∷ 3 ∷ 4 ∷ 5 ∷ 6 ∷ [] ≡ mac = cc in
      rw⁻¹ q (refl, in_bytes (1 ∷ 2 ∷ 3 ∷ 4 ∷ 5 ∷ 6 ∷ []) refl)),
  (λ mac e. cc),
)

env-serves : main env ≡ serves served
unfolding main lookup_mac get_adapter_mac bytes_eq parse_mac split u8_from_hex choose_mac
    make_context
env-serves = refl

main-serves_example : (main env ≡ serves served) ↔ IsServing env served
main-serves_example = main-serves env served

announced_mac_example :
    (text : Bytes) × (lookup (codes "mac") (start_mdns served).txt_records ≡ some text)
    × (parse_mac text ≡ ok served.bt_mac)
    × (parse_mac (device_info_response net protobuf served).bluetooth_mac_address
        ≡ ok served.bt_mac)
    × (parse_mac (device_info_response net protobuf served).mac_address ≡ ok served.net_mac)
    × ((k : ℕ) × (found env ≡ some (k, served.bt_mac)))
    × IsLocal env.cli_mac env.system served.net_mac
announced_mac_example = announced_mac net protobuf env served env-IsTyped env-serves

abbrev pub busy : Adapter
busy = record {
  proxy = true;
  filter = true;
  discovery = method_error (codes "org.bluez.Error.InProgress");
}

abbrev pub all_open : Streams
all_open = record {
  connection = true;
  rules = true;
  adapter_stream = true;
  props_stream = true;
  iface_stream = true;
}

abbrev pub there : Props dbus → Device dbus
there props = record { object_path = true; proxy = true; get_all = some props }

abbrev signals : List (Signal dbus protobuf)
signals =
    device_changed (some (there lamp)) ∷ device_changed none ∷ interfaces_added (some lamp) ∷ []

run-IsStarted_example :
    IsStarted dbus protobuf (run_bluez_advertisement_listener dbus protobuf all_open busy signals)
run-IsStarted_example = run-IsStarted dbus protobuf all_open busy signals

listen-advertises_example :
    listen dbus protobuf (listening (record { advertised = []; calls = [] })) signals
    ≡ listening (
        with_more dbus protobuf
          (record { advertised = []; calls = [] })
          (all (λ s. built dbus protobuf (properties dbus protobuf s)) signals)
          (all (λ s. starts dbus protobuf (turned_off dbus protobuf s)) signals))
unfolding build_advertisement bytes_eq get_device_properties
listen-advertises_example =
    listen-advertises dbus protobuf (record { advertised = []; calls = [] }) signals
      ((refl, tt, (_, refl)), ((refl, tt, tt), ((refl, tt, (_, refl)), tt)))

abbrev pub lamp_advert : BleAdvertisement protobuf
lamp_advert = record {
  legacy = legacy_of dbus protobuf lamp 11042563100175;
  raw = raw_beside dbus protobuf lamp 11042563100175 (encode_ads lamp_ads);
}

pub lamp_built : build_advertisement dbus protobuf lamp ≡ returns (some lamp_advert)
unfolding build_advertisement bytes_eq split u8_from_hex
lamp_built = refl

abbrev every : ℕ → Option (ℕ → ℕ)
every period = if period == 0 then none else some (λ k. k * period)

every-period :
    (period : ℕ)
    → 0 < period
    → (ticks : ℕ → ℕ) × (every period ≡ some ticks) × ((k : ℕ) → ticks k ≡ k * period)
every-period zero h = absurd (omega arith)
every-period (suc period) h = (λ k. k * suc period, ground arith, λ k. refl)

abbrev ticker : Interval
ticker = record {
  interval = every;
  interval-zero = refl;
  interval-period = λ period h. every-period period h;
}

abbrev service : Service
service = record {
  ctx = served;
  notified =
      status (codes "BLE listener down, retrying in 1s")
      ∷ ready
      ∷ status (codes "Serving ESPHome API")
      ∷ [];
  watchdog = pings (λ k. k * 15);
}
