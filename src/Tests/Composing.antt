-- ===== src/Tests/Composing.antt =====
-- A run of the whole program: an advertisement that comes before the client, its connection, a read, and an
-- advertisement that it takes.
use linux_bt_proxy.Prelude.{ℕ, ◌+◌, ◌≡◌, refl, some, List, [], ◌∷◌, length, arith}
use linux_bt_proxy.Proto.Frame.{next_message}
use linux_bt_proxy.Proto.Varint.{decode_varint}
use linux_bt_proxy.Handlers.{no_flags}
use linux_bt_proxy.Ble.{BleAdvertisement}
use linux_bt_proxy.Server.{
  Event, Client, read_bytes, advert, serving, handle_client, run, step, drain, forward,
}
use linux_bt_proxy.Server.Accept.{get_elem?, accept_step, run_tcp_server}
use linux_bt_proxy.System.{
  Happening, advertises, reads, receives, start, taken, arrival_of, receivers_after, chan_after,
  system_step, run_system, arrivals,
}
use linux_bt_proxy.System.Taken.{Follows}
use linux_bt_proxy.System.Client.{run_system-client}
use linux_bt_proxy.System.Prompt.{run_system-prompt}
use linux_bt_proxy.Tests.Wire.{protobuf}
use linux_bt_proxy.Tests.Instances.{bytes_mut, net}
use linux_bt_proxy.Tests.Channel.{broadcast}
use linux_bt_proxy.Tests.Advertising.{idle_ctx}
use linux_bt_proxy.Tests.Running.{both_forms}

abbrev before : List (Happening net protobuf)
before = advertises both_forms ∷ []

abbrev after : List (Happening net protobuf)
after = receives 0 ∷ advertises both_forms ∷ reads 0 (0 ∷ []) ∷ receives 0 ∷ []

abbrev events : List (Event protobuf)
events = read_bytes (0 ∷ []) ∷ advert both_forms ∷ []

abbrev left : Client net
left = record { buf = 0 ∷ []; subscription_flags = no_flags; stream = [] }

run_system-client_example :
    (get_elem? (serving left ∷ []) 0
      ≡ some (handle_client bytes_mut net protobuf idle_ctx [] events))
    × ((i : ℕ) × Follows (both_forms ∷ []) 0 events i)
unfolding start run_system system_step arrivals arrival_of receivers_after chan_after taken
    run_tcp_server accept_step handle_client run step drain forward next_message decode_varint
run_system-client_example =
    run_system-client bytes_mut net protobuf idle_ctx (broadcast (BleAdvertisement protobuf)) before
      after [] (serving left ∷ []) refl

run_system-prompt_example :
    (get_elem? (serving left ∷ []) 0
      ≡ some (handle_client bytes_mut net protobuf idle_ctx [] events))
    × ((r : ℕ) × (to_come : List (BleAdvertisement protobuf)) × (get_elem? (2 ∷ []) 0 ≡ some r)
        × (both_forms ∷ to_come ≡ both_forms ∷ [])
        × (r + length to_come ≡ 2))
unfolding start run_system system_step arrivals arrival_of receivers_after chan_after taken
    run_tcp_server accept_step handle_client run step drain forward next_message decode_varint
run_system-prompt_example =
    run_system-prompt bytes_mut net protobuf idle_ctx (broadcast (BleAdvertisement protobuf)) before
      after [] (serving left ∷ []) refl
      (omega arith, (omega arith, (omega arith, (omega arith, tt))))
