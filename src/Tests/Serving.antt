-- ===== src/Tests/Serving.antt =====
-- Runs of the protocol and of the server.
use linux_bt_proxy.Prelude.{suc, ◌≡◌, refl, none, some, List, [], ◌∷◌, ◌++◌, length, arith}
use linux_bt_proxy.Prelude.Outcome.{returns, panics}
use linux_bt_proxy.Context.{ProxyContext}
use linux_bt_proxy.Net.{info, checked, ◌>>=◌}
use linux_bt_proxy.Proto.Varint.{encode_varint, decode_varint, ok}
use linux_bt_proxy.Proto.Varint.RoundTrip.{decode_varint-encode_varint}
use linux_bt_proxy.Proto.Frame.{next_message, frame, frame_header}
use linux_bt_proxy.Proto.Frame.Whole.{
  next_message-frame_header, next_message-frame, next_message_short,
}
use linux_bt_proxy.Proto.Frame.Cut.{next_message-cut}
use linux_bt_proxy.Proto.Frame.Progress.{Leaves, next_message-Leaves}
use linux_bt_proxy.Api.Message
use linux_bt_proxy.Api.PingResponse
use linux_bt_proxy.Api.DisconnectRequest
use linux_bt_proxy.Api.DisconnectResponse
use linux_bt_proxy.Handlers.{no_flags, encode_response}
use linux_bt_proxy.Handlers.Reply.{accepted, answer_frame, reply, encode_response-frame}
use linux_bt_proxy.Server.{serving, keeping, dispatch, drain, run, read_bytes}
use linux_bt_proxy.Server.Dispatch.{ping, is_request, answer, dispatch-query, dispatch-disconnect}
use linux_bt_proxy.Server.Drain.{Parcel, frames, dispatch_all, with_buffer, drain-frames}
use linux_bt_proxy.Server.Chunks.{run-two_reads}
use linux_bt_proxy.Tests.Wire.{protobuf}
use linux_bt_proxy.Tests.Instances.{bytes_mut, net, in_bytes}

abbrev ctx : ProxyContext
ctx = record {
  hostname = b'p' ∷ [];
  port = 6053;
  net_mac = 1 ∷ 2 ∷ 3 ∷ 4 ∷ 5 ∷ 6 ∷ [];
  bt_mac = 6 ∷ 5 ∷ 4 ∷ 3 ∷ 2 ∷ 1 ∷ [];
  build_time = [];
  version = [];
}

-- A ping request, then a request to unsubscribe.
abbrev parcels : List Parcel
parcels = (7, []) ∷ (87, []) ∷ []

drain-frames_example :
    drain bytes_mut net protobuf ctx
      (suc (length (frames parcels ++ 0 ∷ [])))
      (record { buf = frames parcels ++ 0 ∷ []; subscription_flags = no_flags; stream = [] })
    ≡ with_buffer bytes_mut net protobuf ctx
        (0 ∷ [])
        (dispatch_all bytes_mut net protobuf ctx no_flags [] parcels)
unfolding encode_varint next_message decode_varint
drain-frames_example =
    drain-frames bytes_mut net protobuf ctx parcels (0 ∷ []) no_flags []
      ((omega arith, tt), ((omega arith, tt), tt))
      (in_bytes (frames parcels ++ 0 ∷ []) refl, omega arith) (omega arith, tt) refl

dispatch-query_example :
    dispatch bytes_mut net protobuf ctx no_flags [] 7 []
    ≡ keeping no_flags
        (reply net info (is_request net protobuf ctx ping []) (answer net protobuf ctx ping) [])
unfolding PingResponse.compute_size PingResponse.new
dispatch-query_example =
    dispatch-query net protobuf ctx bytes_mut ping no_flags [] [] (tt, omega arith)

dispatch-disconnect_example :
    dispatch bytes_mut net protobuf ctx no_flags [] 5 []
    ≡ keeping no_flags (
        reply net info
          (accepted (DisconnectRequest.parse protobuf []))
          (answer_frame (Message.disconnect_response protobuf) (DisconnectResponse.new protobuf))
          []
        >>= λ r. checked (net.shutdown (r.1)))
unfolding DisconnectResponse.compute_size DisconnectResponse.new
dispatch-disconnect_example =
    dispatch-disconnect net protobuf ctx bytes_mut no_flags [] [] (tt, omega arith)

run-two_reads_example :
    run bytes_mut net protobuf ctx
      (serving (record { buf = []; subscription_flags = no_flags; stream = [] }))
      (read_bytes (0 ∷ 0 ∷ 7 ∷ 0 ∷ []) ∷ read_bytes (0 ∷ 87 ∷ []) ∷ [])
    ≡ run bytes_mut net protobuf ctx
        (serving (record { buf = []; subscription_flags = no_flags; stream = [] }))
        (read_bytes (0 ∷ 0 ∷ 7 ∷ 0 ∷ 0 ∷ 87 ∷ []) ∷ [])
unfolding encode_varint next_message decode_varint
run-two_reads_example =
    run-two_reads bytes_mut net protobuf ctx
      (record { buf = []; subscription_flags = no_flags; stream = [] }) ((7, []) ∷ []) (0 ∷ []) 0 0
      (0 ∷ 7 ∷ 0 ∷ []) (87 ∷ []) [] ((omega arith, tt), tt)
      (in_bytes (0 ∷ 0 ∷ 7 ∷ 0 ∷ 0 ∷ 87 ∷ []) refl, omega arith) (omega arith, tt)
      (in_bytes (0 ∷ 87 ∷ []) refl) refl refl

encode_response-frame_example :
    encode_response net (Message.ping_response protobuf) 8 (PingResponse.new protobuf)
    ≡ some (frame 8 (PingResponse.write_to protobuf (PingResponse.new protobuf)))
unfolding PingResponse.compute_size PingResponse.new
encode_response-frame_example =
    encode_response-frame net (Message.ping_response protobuf) 8 (PingResponse.new protobuf)
      (tt, omega arith)

next_message-frame_header_example :
    next_message bytes_mut (frame_header 7 2 ++ (9 ∷ 8 ∷ 0 ∷ []))
    ≡ returns (some (7, 9 ∷ 8 ∷ []), 0 ∷ [])
unfolding encode_varint
next_message-frame_header_example =
    next_message-frame_header bytes_mut 7 2 (9 ∷ 8 ∷ 0 ∷ []) (omega arith) (omega arith)
      (in_bytes (9 ∷ 8 ∷ 0 ∷ []) refl)

next_message-frame_example :
    next_message bytes_mut (frame 7 (9 ∷ 8 ∷ []) ++ 0 ∷ []) ≡ returns (some (7, 9 ∷ 8 ∷ []), 0 ∷ [])
next_message-frame_example =
    next_message-frame bytes_mut 7 (9 ∷ 8 ∷ []) (0 ∷ []) (omega arith) (omega arith)
      (in_bytes (9 ∷ 8 ∷ []) refl) (omega arith, tt)

next_message_short_example : next_message bytes_mut (frame_header 7 2 ++ 9 ∷ []) ≡ panics
unfolding encode_varint
next_message_short_example =
    next_message_short bytes_mut 7 (9 ∷ []) (8 ∷ []) (omega arith) (omega arith) (omega arith, tt)
      (λ e. cc) (omega arith)

next_message-cut_example : next_message bytes_mut (0 ∷ 2 ∷ []) ≡ returns (none, 0 ∷ 2 ∷ [])
unfolding encode_varint
next_message-cut_example =
    next_message-cut bytes_mut 7 2 7 (0 ∷ 2 ∷ []) [] (omega arith) (omega arith) refl

next_message-Leaves_example : Leaves (0 ∷ 0 ∷ 7 ∷ []) (next_message bytes_mut (0 ∷ 0 ∷ 7 ∷ []))
next_message-Leaves_example =
    next_message-Leaves bytes_mut (0 ∷ 0 ∷ 7 ∷ []) (in_bytes (0 ∷ 0 ∷ 7 ∷ []) refl) (omega arith)

decode_varint-encode_varint_example : decode_varint (encode_varint 300 ++ 5 ∷ []) ≡ ok 300 2
unfolding encode_varint
decode_varint-encode_varint_example =
    decode_varint-encode_varint 300 (5 ∷ []) (omega arith) (omega arith, tt)
