-- ===== src/Lib.antt =====
-- A model of linux_bt_proxy, a Bluetooth proxy for ESPHome: it takes the advertisements that BlueZ
-- reports over D-Bus and forwards them to API clients such as Home Assistant over TCP.
--
-- The parts and how they interact. A client's bytes come in through `handle_client` (src/server.rs),
-- which cuts them into messages by `next_message` (src/proto.rs) and calls a handler for each
-- (src/handlers.rs); a handler reads the request and writes a response, both protobuf messages of
-- the generated src/api/api.rs, in a frame. Advertisements come from `build_advertisement`
-- (src/ble.rs), which takes a device's D-Bus properties, and which has src/raw_adv.rs rebuild the raw
-- advertising data; each client's loop forwards them as its subscription says. src/utils.rs reads and
-- prints MAC addresses, src/context.rs holds what the program knows of itself. src/main.rs finds the
-- adapter's and the system's MAC, has src/mdns.rs announce the service, starts the listener of src/ble.rs,
-- which is restarted with a backoff, and the server.
--
-- The files:
--   Prelude, Prelude/*     lists, bits, signed numbers, tests, and `Outcome` for code that may panic
--   Text, Text/*           Rust's text operations over UTF-8 bytes: hexadecimal and decimal digits,
--                          `split`, `join`
--   Proto/Varint, below    `decode_varint` and `encode_varint`
--   Proto/Frame, below     `next_message`, in the steps that its comments name
--   Api/Runtime, below     what the generated code calls of the protobuf crate: a record of operations
--                          with their laws; the loop of `merge_from`; the reading back of each kind
--                          of field (Fields)
--   Api/<Message>          a generated message: its fields, `new`, `compute_size`, `write_to` for
--                          `write_to_with_cached_sizes`, and `merge_field` for `merge_from`;
--                          its RoundTrip reads back what was written
--   Api/Message            the messages that are sent, with their ids from proto/api.proto
--   Net                    `TcpStream` and the log levels, as a record with laws; results of handlers
--   Context                `ProxyContext`
--   Handlers, Handlers/*   the handlers by their names in the source; `SubscriptionFlags`
--   Server, Server/*       `handle_client`: `dispatch` is its `match msg_type`, `drain` its inner loop,
--                          `forward` its advertisement branch, `step` a round of its `select!`
--   Server/Accept          `run_tcp_server`, over connections and the tasks' events in any order
--   Server/Delivered       what a client reads, frame by frame, from what it is sent
--   Server/Conversation    the requests of a client, and what it is to read in response
--   Broadcast              tokio's broadcast channel, as a record with its documented behaviour
--   System, System/*       the channel of `main`, the listener that sends into it, `run_tcp_server` and
--                          the receiver of each client, as a step over what happens next
--   DBus                   values of D-Bus, as a record
--   RawAdv, RawAdv/*       src/raw_adv.rs by its names; its structures and their reading back
--   Ble, Ble/*             `build_advertisement`, `parse_ble_address`, `run_supervised`
--   Ble/Reported           what `build_advertisement` is to say of a device, property by property
--   Ble/Listener, below    `try_start_discovery` and `run_bluez_advertisement_listener`: a signal that the
--                          `select!` takes is an element of `Signal`, with what the bus then answers
--   Utils, Utils/Mac       `parse_mac` and `format_mac`
--   Start, Start/*         `main` up to the socket, over an `Environment` of what the system answers
--   Start/Serves           when `main` serves clients, and with which context
--   Start/Service          what systemd is told, the watchdog's task, and how `main` ends
--   Mdns, Mdns/Announce    the service of `start_mdns`
--   Proxy, Proxy/Serving   the listener, the channel and a client's loop together
--   Tests/*                runs on concrete inputs and concrete libraries, among them a protobuf whose reads
--                          give back what was written
--
-- Bounds and fuel. Varints are on 64 bits, as in the source, and sums of `usize` wrap at 2 ^ 64; sizes
-- of messages are taken to be below 2 ^ 64, and nested sizes are cached on 32 bits. `encode_varint` has
-- ten rounds, enough for a `u64`. `drain` has one round more than the buffer has bytes, since each
-- message takes a byte at least, and `merge` one more than the bytes that remain. A read that runs out
-- would be `stuck`. The decimal digits of a number take twenty rounds at most, enough for a
-- `u64`, and the channel holds a hundred values or more, as `channel_capacity` says.
--
-- Not modelled: the code of the libraries (tokio's sockets, tasks and broadcast channel, protobuf's
-- streams, zbus, mdns_sd, sd_notify), whose operations are records with the laws that are documented; the
-- order in which a `select!` or the executor takes what is ready, which is any; the parsing of the command
-- line by clap; text of log messages beyond the peer's address that they evaluate; and the generated
-- messages and descriptors (src/api/api.rs, src/api/api_options.rs) that the program does not use, with
-- the build script that makes them (build.rs).
pub mod Prelude
pub mod Text
pub mod Utils
pub mod DBus
pub mod RawAdv
pub mod Api
pub mod Proto
pub mod Context
pub mod Net
pub mod Ble
pub mod Handlers
pub mod Server
pub mod Tests
pub mod Start
pub mod Mdns
pub mod Broadcast
pub mod System
pub mod Proxy
