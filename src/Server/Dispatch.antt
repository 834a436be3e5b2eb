-- ===== src/Server/Dispatch.antt =====
-- `match msg_type` of `handle_client` (src/server.rs), against a table of the requests.
use linux_bt_proxy.Prelude.{ℕ, ◌≡◌, ap, ◌∙◌, Bool, Bytes}
use linux_bt_proxy.Context.{ProxyContext}
use linux_bt_proxy.Net.{Net, info, ◌>>=◌, >>=_assoc, checked, log_peer}
use linux_bt_proxy.Proto.Frame.{BytesMut}
use linux_bt_proxy.Api.Runtime.{Protobuf}
use linux_bt_proxy.Api.Message
use linux_bt_proxy.Api.HelloRequest
use linux_bt_proxy.Api.ConnectRequest
use linux_bt_proxy.Api.ConnectResponse
use linux_bt_proxy.Api.PingRequest
use linux_bt_proxy.Api.PingResponse
use linux_bt_proxy.Api.DisconnectRequest
use linux_bt_proxy.Api.DisconnectResponse
use linux_bt_proxy.Api.DeviceInfoRequest
use linux_bt_proxy.Api.ListEntitiesRequest
use linux_bt_proxy.Api.ListEntitiesDoneResponse
use linux_bt_proxy.Api.SubscribeBluetoothConnectionsFreeRequest
use linux_bt_proxy.Handlers.{
  SubscriptionFlags, hello_response, device_info_response, connections_free_response, hello_request,
  connect_request, ping_request, disconnect_request, device_info_request, list_entities_request,
  subscribe_bluetooth_connections_free_request,
}
use linux_bt_proxy.Handlers.Reply.{accepted, answer_frame, IsSendable, reply, respond-reply}
use linux_bt_proxy.Server.{dispatch, keeping}

-- The requests that are answered by a message and leave the connection open.
pub data Query : Type 0 where
  hello : Query
  connect : Query
  ping : Query
  device_info : Query
  list_entities : Query
  connections_free : Query

-- Their `id`s in proto/api.proto.
abbrev pub code : Query → ℕ
code hello = 1
code connect = 3
code ping = 7
code device_info = 9
code list_entities = 11
code connections_free = 80

module _ (net : Net) (rt : Protobuf) (ctx : ProxyContext) where
  open net use {Stream, sent}

  abbrev pub is_request : Query → Bytes → Bool
  is_request hello payload = accepted (HelloRequest.parse rt payload)
  is_request connect payload = accepted (ConnectRequest.parse rt payload)
  is_request ping payload = accepted (PingRequest.parse rt payload)
  is_request device_info payload = accepted (DeviceInfoRequest.parse rt payload)
  is_request list_entities payload = accepted (ListEntitiesRequest.parse rt payload)
  is_request connections_free payload =
      accepted (SubscribeBluetoothConnectionsFreeRequest.parse rt payload)

  -- The frame that answers.
  abbrev pub answer : Query → Bytes
  answer hello = answer_frame (Message.hello_response rt) (hello_response net rt)
  answer connect = answer_frame (Message.connect_response rt) (ConnectResponse.new rt)
  answer ping = answer_frame (Message.ping_response rt) (PingResponse.new rt)
  answer device_info =
      answer_frame (Message.device_info_response rt) (device_info_response net rt ctx)
  answer list_entities =
      answer_frame (Message.list_entities_done_response rt) (ListEntitiesDoneResponse.new rt)
  answer connections_free =
      answer_frame (Message.bluetooth_connections_free_response rt)
        (connections_free_response net rt)

  abbrev pub HasSendable : Query → Type 0
  HasSendable hello = IsSendable (Message.hello_response rt) (hello_response net rt)
  HasSendable connect = IsSendable (Message.connect_response rt) (ConnectResponse.new rt)
  HasSendable ping = IsSendable (Message.ping_response rt) (PingResponse.new rt)
  HasSendable device_info =
      IsSendable (Message.device_info_response rt) (device_info_response net rt ctx)
  HasSendable list_entities =
      IsSendable (Message.list_entities_done_response rt) (ListEntitiesDoneResponse.new rt)
  HasSendable connections_free =
      IsSendable (Message.bluetooth_connections_free_response rt) (connections_free_response net rt)

  module _ (lib : BytesMut) where
    -- Each of these requests is answered by its own response's frame, on every branch: the client is
    -- dropped if the log line finds no peer address, the payload is no such request or the write
    -- fails; the flags stay. The response is below 2 ^ 31 bytes, as protobuf demands.
    pub dispatch-query :
        (q : Query) (flags : SubscriptionFlags) (s : Stream) (payload : Bytes)
        → HasSendable q
        → dispatch lib net rt ctx flags s (code q) payload
          ≡ keeping flags (reply net info (is_request q payload) (answer q) s)
    unfolding dispatch hello_request connect_request ping_request device_info_request
        list_entities_request subscribe_bluetooth_connections_free_request
    dispatch-query hello flags s payload sendable = ap (keeping flags) (
        respond-reply net info (HelloRequest.parse rt payload) (Message.hello_response rt)
          (hello_response net rt) s sendable)
    dispatch-query connect flags s payload sendable = ap (keeping flags) (
        respond-reply net info (ConnectRequest.parse rt payload) (Message.connect_response rt)
          (ConnectResponse.new rt) s sendable)
    dispatch-query ping flags s payload sendable = ap (keeping flags) (
        respond-reply net info (PingRequest.parse rt payload) (Message.ping_response rt)
          (PingResponse.new rt) s sendable)
    dispatch-query device_info flags s payload sendable = ap (keeping flags) (
        respond-reply net info (DeviceInfoRequest.parse rt payload)
          (Message.device_info_response rt) (device_info_response net rt ctx) s sendable)
    dispatch-query list_entities flags s payload sendable = ap (keeping flags) (
        respond-reply net info (ListEntitiesRequest.parse rt payload)
          (Message.list_entities_done_response rt) (ListEntitiesDoneResponse.new rt) s sendable)
    dispatch-query connections_free flags s payload sendable = ap (keeping flags) (
        respond-reply net info (SubscribeBluetoothConnectionsFreeRequest.parse rt payload)
          (Message.bluetooth_connections_free_response rt) (connections_free_response net rt) s
          sendable)

    -- A disconnect request is answered by its response's frame, and then the connection is shut
    -- down; an error of the shutdown drops the client as one of the reply does. The response is below 2 ^ 31
    -- bytes, as protobuf demands.
    pub dispatch-disconnect :
        (flags : SubscriptionFlags) (s : Stream) (payload : Bytes)
        → IsSendable (Message.disconnect_response rt) (DisconnectResponse.new rt)
        → dispatch lib net rt ctx flags s 5 payload
          ≡ keeping flags (
              reply net info
                (accepted (DisconnectRequest.parse rt payload))
                (answer_frame (Message.disconnect_response rt) (DisconnectResponse.new rt))
                s
              >>= λ r. checked (net.shutdown (r.1)))
    unfolding dispatch disconnect_request
    dispatch-disconnect flags s payload sendable = ap (keeping flags) (
        >>=_assoc (log_peer net info s) _ _
        ∙ ap (λ m. m >>= λ r. checked (net.shutdown (r.1)))
            (respond-reply net info (DisconnectRequest.parse rt payload)
              (Message.disconnect_response rt) (DisconnectResponse.new rt) s sendable))
