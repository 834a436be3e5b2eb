-- ===== src/Tests/Running.antt =====
-- Runs of a client from its first byte on, and messages that are written and read.
use linux_bt_proxy.Prelude.{true, false, ◌≤◌, ◌≡◌, ◌≢◌, refl, List, [], ◌∷◌, Bytes, length, arith}
use linux_bt_proxy.Prelude.Int.{negsuc}
use linux_bt_proxy.Proto.Varint.{encode_varint, decode_varint}
use linux_bt_proxy.Proto.Frame.{next_message}
use linux_bt_proxy.Api.Runtime.Merge.{merged}
use linux_bt_proxy.Api.PingResponse
use linux_bt_proxy.Api.BluetoothLeRawAdvertisement
use linux_bt_proxy.Api.BluetoothLeRawAdvertisement.{BluetoothLeRawAdvertisement}
use linux_bt_proxy.Api.BluetoothLeRawAdvertisementsResponse
use linux_bt_proxy.Api.BluetoothLeRawAdvertisementsResponse.{BluetoothLeRawAdvertisementsResponse}
use linux_bt_proxy.Api.BluetoothLeRawAdvertisementsResponse.RoundTrip
use linux_bt_proxy.Api.BluetoothServiceData
use linux_bt_proxy.Api.BluetoothServiceData.{BluetoothServiceData}
use linux_bt_proxy.Api.BluetoothLeAdvertisementResponse
use linux_bt_proxy.Api.BluetoothLeAdvertisementResponse.{BluetoothLeAdvertisementResponse}
use linux_bt_proxy.Api.BluetoothLeAdvertisementResponse.RoundTrip as Parsed
use linux_bt_proxy.Ble.{BleAdvertisement}
use linux_bt_proxy.Handlers.{no_flags, ping_request}
use linux_bt_proxy.Server.{
  Client, Event, read_bytes, lagged, advert, serving, stuck, step, run, handle_client,
}
use linux_bt_proxy.Server.Total.{IsBack}
use linux_bt_proxy.Server.Buffer.{handle_client-ne-stuck, handle_client-IsBack}
use linux_bt_proxy.Server.Session.{IsSound}
use linux_bt_proxy.Server.Delivered
use linux_bt_proxy.Server.Delivered.{received}
use linux_bt_proxy.Server.Received.{run-received}
use linux_bt_proxy.Tests.Wire.{protobuf}
use linux_bt_proxy.Tests.WireBack.{reads_back}
use linux_bt_proxy.Tests.Instances.{bytes_mut, net, in_bytes}
use linux_bt_proxy.Tests.Advertising.{idle_ctx}

pub sound : IsSound net
sound = record { known = λ s. refl; writes = λ bytes s. refl }

-- A ping request in two reads, and the first byte of what comes next.
abbrev pinging : List (Event protobuf)
pinging = read_bytes (0 ∷ 0 ∷ []) ∷ lagged 3 ∷ read_bytes (7 ∷ 0 ∷ []) ∷ []

handle_client-ne-stuck_example : handle_client bytes_mut net protobuf idle_ctx [] pinging ≢ stuck
handle_client-ne-stuck_example =
    handle_client-ne-stuck bytes_mut net protobuf idle_ctx [] pinging
      (in_bytes (0 ∷ 0 ∷ 7 ∷ 0 ∷ []) refl, omega arith)

abbrev waiting : Client net
waiting = record { buf = 0 ∷ []; subscription_flags = no_flags; stream = 0 ∷ 0 ∷ 8 ∷ [] }

handle_client-IsBack_example :
    IsBack (0 ∷ []) (0 ∷ 0 ∷ 7 ∷ 0 ∷ []) × (length (let b : Bytes = 0 ∷ [] in b) ≤ 4)
unfolding handle_client run step encode_varint next_message decode_varint ping_request
    PingResponse.compute_size PingResponse.write_to
handle_client-IsBack_example =
    handle_client-IsBack bytes_mut net protobuf idle_ctx [] pinging waiting
      (in_bytes (0 ∷ 0 ∷ 7 ∷ 0 ∷ []) refl, omega arith) refl

abbrev pub seen : BluetoothLeRawAdvertisement protobuf
seen = record {
  address = 10;
  rssi = negsuc 59;
  address_type = 1;
  payload = 2 ∷ 1 ∷ 6 ∷ [];
  special_fields = tt;
}

abbrev batch : BluetoothLeRawAdvertisementsResponse protobuf
batch = record { advertisements = seen ∷ seen ∷ []; special_fields = tt }

pub seen-IsInside : RoundTrip.IsInside protobuf reads_back seen
unfolding BluetoothLeRawAdvertisement.compute_size encode_varint
seen-IsInside = ((omega arith, omega arith, omega arith, omega arith, refl), omega arith)

parse-write_to_batch_example :
    BluetoothLeRawAdvertisementsResponse.parse protobuf
      (BluetoothLeRawAdvertisementsResponse.write_to protobuf batch)
    ≡ merged batch
parse-write_to_batch_example =
    RoundTrip.parse-write_to_batch protobuf reads_back batch
      ((seen-IsInside, (seen-IsInside, tt)), refl)

abbrev maker : BluetoothServiceData protobuf
maker = record {
  uuid = b'4' ∷ b'c' ∷ [];
  legacy_data = 7 ∷ 300 ∷ [];
  payload = 2 ∷ [];
  special_fields = tt;
}

abbrev pub parsed_advert : BluetoothLeAdvertisementResponse protobuf
parsed_advert = record {
  address = 10;
  name = [];
  rssi = negsuc 59;
  service_uuids = (b'a' ∷ []) ∷ (b'b' ∷ []) ∷ [];
  service_data = [];
  manufacturer_data = maker ∷ [];
  address_type = 0;
  special_fields = tt;
}

pub parsed_advert-IsTyped : Parsed.IsTyped protobuf reads_back parsed_advert
unfolding BluetoothServiceData.compute_size encode_varint
parsed_advert-IsTyped = (
  omega arith,
  omega arith,
  omega arith,
  ((tt, omega arith), ((tt, omega arith), tt)),
  tt,
  (
    (
      (tt, omega arith, (omega arith, (omega arith, tt)), omega arith, omega arith, refl),
      omega arith,
    ),
    tt,
  ),
  omega arith,
  refl,
)

parse-write_to_example :
    BluetoothLeAdvertisementResponse.parse protobuf
      (BluetoothLeAdvertisementResponse.write_to protobuf parsed_advert)
    ≡ merged parsed_advert
parse-write_to_example =
    Parsed.parse-write_to protobuf reads_back parsed_advert parsed_advert-IsTyped

-- A client that has subscribed to parsed advertisements.
abbrev pub parsed_client : Client net
parsed_client = record {
  buf = [];
  subscription_flags = record { regular = true; raw = false };
  stream = [];
}

abbrev pub both_forms : BleAdvertisement protobuf
both_forms = record { legacy = parsed_advert; raw = seen }

run-received_example :
    (s' : Bytes) × (bytes : Bytes) × (run bytes_mut net protobuf idle_ctx
        (serving parsed_client)
        (advert both_forms ∷ [])
      ≡ serving (record parsed_client { stream = s' }))
    × (s' ≡ bytes)
    × (received bytes_mut protobuf 1 bytes ≡ Delivered.parsed_advert parsed_advert ∷ [])
unfolding encode_varint BluetoothLeRawAdvertisement.compute_size BluetoothServiceData.compute_size
    BluetoothLeRawAdvertisement.write_to BluetoothLeRawAdvertisementsResponse.write_to
    BluetoothServiceData.write_to BluetoothLeAdvertisementResponse.write_to
    BluetoothLeRawAdvertisementsResponse.compute_size BluetoothLeRawAdvertisementsResponse.new
    BluetoothLeAdvertisementResponse.compute_size
run-received_example =
    run-received bytes_mut protobuf reads_back net idle_ctx sound parsed_client (both_forms ∷ [])
      ((((omega arith, tt), omega arith), ((tt, (omega arith, tt)), omega arith)), tt)
      (
        (
          ((seen-IsInside, tt), refl),
          in_bytes
              (BluetoothLeRawAdvertisementsResponse.write_to protobuf
                (record { advertisements = seen ∷ []; special_fields = tt }))
              refl,
          parsed_advert-IsTyped,
          in_bytes (BluetoothLeAdvertisementResponse.write_to protobuf parsed_advert) refl,
        ),
        tt,
      )
