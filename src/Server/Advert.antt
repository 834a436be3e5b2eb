-- ===== src/Server/Advert.antt =====
-- The advertisement branch of `handle_client` (src/server.rs).
use linux_bt_proxy.Prelude.{
  ◌≡◌, refl, ap, Bool, true, false, Option, none, some, [], ◌∷◌, Bytes, if◌then◌else◌,
}
use linux_bt_proxy.Context.{ProxyContext}
use linux_bt_proxy.Net.{Net, debug}
use linux_bt_proxy.Proto.Frame.{BytesMut}
use linux_bt_proxy.Api.Runtime.{Protobuf}
use linux_bt_proxy.Api.Message
use linux_bt_proxy.Api.BluetoothLeRawAdvertisementsResponse
use linux_bt_proxy.Ble.{BleAdvertisement}
use linux_bt_proxy.Handlers.{
  SubscriptionFlags, forward_ble_advertisement, forward_raw_ble_advertisement,
}
use linux_bt_proxy.Handlers.Reply.{answer_frame, IsSendable, reply, write_response-reply}
use linux_bt_proxy.Server.{Client, Served, serving, answered, forward}

module _ (rt : Protobuf) where
  -- The message of type 93 that carries one raw advertisement.
  abbrev pub raw_message :
      BleAdvertisement rt
      → BluetoothLeRawAdvertisementsResponse.BluetoothLeRawAdvertisementsResponse rt
  raw_message a = record (BluetoothLeRawAdvertisementsResponse.new rt) {
    advertisements = a.raw ∷ [];
  }

  -- The one frame that a subscription asks for, if it asks for any; raw comes before parsed.
  abbrev pub chosen_frame : SubscriptionFlags → BleAdvertisement rt → Option Bytes
  chosen_frame flags a =
      if flags.raw
      then some (answer_frame (Message.bluetooth_le_raw_advertisements_response rt) (raw_message a))
      else if flags.regular
      then some (answer_frame (Message.bluetooth_le_advertisement_response rt) a.legacy)
      else none

  abbrev pub IsForwardable : BleAdvertisement rt → Type 0
  IsForwardable a =
      IsSendable (Message.bluetooth_le_raw_advertisements_response rt) (raw_message a)
      × IsSendable (Message.bluetooth_le_advertisement_response rt) a.legacy

  module _ (lib : BytesMut) (net : Net) (ctx : ProxyContext) where
    abbrev pub forward_frame : Client net → Option Bytes → Served net
    forward_frame c none = serving c
    forward_frame c (some bytes) = answered lib net rt ctx c (reply net debug true bytes c.stream)

    -- A client that is subscribed to raw advertisements is sent the raw frame, one that is
    -- subscribed to parsed ones the parsed frame, and any other nothing; the buffer and the flags
    -- stay, and a write that fails drops the client. Both are below 2 ^ 31 bytes, as protobuf
    -- demands.
    pub forward-chosen_frame :
        (c : Client net) (a : BleAdvertisement rt)
        → IsForwardable a
        → forward lib net rt ctx c a ≡ forward_frame c (chosen_frame c.subscription_flags a)
    unfolding forward forward_ble_advertisement forward_raw_ble_advertisement
    forward-chosen_frame c a (raw_sendable, sendable) =
        choose c.subscription_flags.raw c.subscription_flags.regular _ _
          (ap (answered lib net rt ctx c) (
            write_response-reply net debug (Message.bluetooth_le_raw_advertisements_response rt)
              (raw_message a) c.stream raw_sendable))
          (ap (answered lib net rt ctx c) (
            write_response-reply net debug (Message.bluetooth_le_advertisement_response rt) a.legacy
              c.stream sendable))
      where
        choose :
            (raw regular : Bool) {x y : Served net} (m n : Bytes)
            → x ≡ forward_frame c (some m)
            → y ≡ forward_frame c (some n)
            → (if raw then x else if regular then y else serving c)
              ≡ forward_frame c (if raw then some m else if regular then some n else none)
        choose true regular m n p q = p
        choose false true m n p q = q
        choose false false m n p q = refl
