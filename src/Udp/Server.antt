-- ===== src/Udp/Server.antt =====
-- `ReliableUdpServer` of src/network/reliable_udp.cpp. A method returns the new server, what it
-- returns in C++, and what it does to the outside in order. `now` is the system clock as the call
-- reads it. Sockets, threads, mutexes and the log are outside the model: each method runs whole.
pub mod Send
pub mod Receive
pub mod Manage
pub mod Sweep
pub mod Clients
pub mod Retransmit
pub mod RetransmitAll
pub mod Acks
pub mod Sending
mod Valid
mod Addresses
pub mod Invariant
mod Preserve
pub mod History
use zero_latency_yolo.Base.{
  ℕ, ◌+◌, ◌*◌, ◌%◌, ◌^◌, Bool, true, false, List, [], ◌∷◌, ◌++◌, Option, none, some, length, ltb,
  leb, ◌==◌, ◌&&◌, not, if◌then◌else◌, u32, u64,
}
use zero_latency_yolo.Base.Table.{lookup, insert, erase}
use zero_latency_yolo.Protocol.{
  ClientInfo, ErrorCode, server_full, invalid_argument, not_initialized, socket_error,
}
use zero_latency_yolo.Udp.{
  ReliableUdpConfig, Address, ClientConnection, AggregatedPacket, is_same_addr,
}
use zero_latency_yolo.Udp.Connection.{init_connection}

pub record Stats : Type 0 where
  pub packets_sent : ℕ
  pub packets_received : ℕ
  pub bytes_sent : ℕ
  pub bytes_received : ℕ
  pub packets_retransmitted : ℕ
  pub packets_dropped : ℕ

-- `socket_open` is `socket_fd_ >= 0`.
pub record ReliableUdpServer : Type 0 where
  pub config : ReliableUdpConfig
  pub socket_open : Bool
  pub running : Bool
  pub clients : List (ℕ × ClientConnection)
  pub next_client_id : ℕ
  pub aggregated_packets : List (ℕ × AggregatedPacket)
  pub next_aggregation_id : ℕ
  pub has_handler : Bool
  pub stats : Stats

-- What reaches the outside: a datagram handed to `sendto`, an event published on the bus, a call of
-- the packet handler.
pub data Effect : Type 0 where
  datagram : Address → List ℕ → Effect
  client_connected client_disconnected client_timeout : ℕ → Effect
  packet_received : ℕ → ℕ → ℕ → Effect
  packet_sent system_startup system_shutdown : Effect
  handled : List ℕ → Address → Effect

-- `Result<T>`, without the messages.
pub data Result {ℓ} (A : Type ℓ) : Type ℓ where
  success : A → Result A
  failure : ErrorCode → Result A

unfoldable pub count_sent : Stats → ℕ → Stats
count_sent s size = record s {
  packets_sent = u64 (s.packets_sent + 1);
  bytes_sent = u64 (s.bytes_sent + size);
}

-- The constructor.
unfoldable pub new_server : ReliableUdpConfig → ReliableUdpServer
new_server config = record {
  config = config;
  socket_open = false;
  running = false;
  clients = [];
  next_client_id = 1;
  aggregated_packets = [];
  next_aggregation_id = 1;
  has_handler = false;
  stats = record {
    packets_sent = 0;
    packets_received = 0;
    bytes_sent = 0;
    bytes_received = 0;
    packets_retransmitted = 0;
    packets_dropped = 0;
  };
}

-- What the system calls of `initialize` answer, in the order of the calls. The sizes of the socket's
-- buffers and the port are outside the model.
pub data BindAnswer : Type 0 where
  bound address_in_use bind_refused : BindAnswer

pub record SystemAnswers : Type 0 where
  pub socket_made : Bool
  pub flags_read : Bool
  pub flags_set : Bool
  pub reuse_set : Bool
  pub first_bind : BindAnswer
  pub socket_made_again : Bool
  pub bound_again : Bool

-- The socket after `initialize`, if it is open.
unfoldable pub opened : SystemAnswers → Bool
opened o =
    (o.socket_made && o.flags_read)
    && ((o.flags_set && o.reuse_set) && elim o.first_bind [
      | bound ↦ true
      | address_in_use ↦ o.socket_made_again && o.bound_again
      | bind_refused ↦ false
    ])

-- `initialize`.
unfoldable pub initialize :
    SystemAnswers → ReliableUdpServer → ReliableUdpServer × Result (Unit {0})
initialize o s =
    (record s { socket_open = opened o }, if opened o then success tt else failure socket_error)

-- `start`.
unfoldable pub start : ReliableUdpServer → ReliableUdpServer × Result (Unit {0}) × List Effect
start s =
    if not s.socket_open
    then (s, failure not_initialized, [])
    else if s.running
    then (s, failure invalid_argument, [])
    else (record s { running = true }, success tt, system_startup ∷ [])

-- `stop`.
unfoldable pub stop : ReliableUdpServer → ReliableUdpServer × Result (Unit {0}) × List Effect
stop s = if not s.running then (s, success tt, []) else (
  record s { running = false; socket_open = false; clients = []; aggregated_packets = [] },
  success tt,
  system_shutdown ∷ [],
)

-- `setPacketHandler`, with a handler that is not empty.
unfoldable pub set_packet_handler : ReliableUdpServer → ReliableUdpServer
set_packet_handler s = record s { has_handler = true }

-- `getClientCount`.
unfoldable pub get_client_count : ReliableUdpServer → ℕ
get_client_count s = length s.clients

-- `hasClient`.
unfoldable pub has_client : ReliableUdpServer → ℕ → Bool
has_client s id = elim (lookup id s.clients) [ none ↦ false | some c ↦ true ]

-- The loop that looks for the first client with an address.
unfoldable pub client_at : Address → List (ℕ × ClientConnection) → Option (ℕ × ClientConnection)
client_at a [] = none
client_at a ((id, c) ∷ clients) =
    if is_same_addr c.address a then some (id, c) else client_at a clients

-- `findClientByAddr`.
unfoldable pub find_client_by_addr : ReliableUdpServer → Address → Option ℕ
find_client_by_addr s a = elim (client_at a s.clients) [ none ↦ none | some (id, c) ↦ some id ]

-- The connection that `registerClient` fills in for a new client.
unfoldable pub new_connection : ℕ → Address → ClientInfo → ℕ → ClientConnection
new_connection id a info now = init_connection (record {
  client_id = id;
  address = a;
  last_active_time = now;
  last_frame_processed = 0;
  info = info;
  connected = true;
  next_send_sequence = 0;
  next_expected_sequence = 0;
  unacked_packets = [];
  out_of_order_packets = [];
  congestion_window = 0;
  slow_start_threshold = 0;
  last_rtt_ms = 0;
  smoothed_rtt_ms = 0;
  rtt_variation_ms = 0;
  retransmission_timeout_ms = 0;
})

unfoldable pub refreshed : ClientConnection → ClientInfo → ℕ → ClientConnection
refreshed c info now = record c { info = info; last_active_time = now; connected = true }

-- `registerClient`.
unfoldable pub register_client :
    ReliableUdpServer → Address → ClientInfo → ℕ → ReliableUdpServer × Result ℕ × List Effect
register_client s a info now =
    if leb s.config.max_clients (length s.clients)
    then (s, failure server_full, [])
    else elim (client_at a s.clients) [
      | some (id, c) ↦
          (record s { clients = insert id (refreshed c info now) s.clients }, success id, [])
      | none ↦ (
        record s {
          clients = insert s.next_client_id (new_connection s.next_client_id a info now) s.clients;
          next_client_id = u32 (s.next_client_id + 1);
        },
        success s.next_client_id,
        client_connected s.next_client_id ∷ [],
      )
    ]

-- `removeClient`.
unfoldable pub remove_client :
    ReliableUdpServer → ℕ → ReliableUdpServer × Result (Unit {0}) × List Effect
remove_client s id =
    if has_client s id
    then (record s { clients = erase id s.clients }, success tt, client_disconnected id ∷ [])
    else (s, failure invalid_argument, [])
