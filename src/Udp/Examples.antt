-- ===== src/Udp/Examples.antt =====
-- A server with a client, and the theorems of the reliable UDP layer on it.
use zero_latency_yolo.Base.{
  ltb, ℕ, ◌+◌, ◌*◌, ◌≡◌, refl, arith, true, false, leb, if◌then◌else◌, List, [], ◌∷◌, none, some,
  length, replicate, length-replicate,
}
use zero_latency_yolo.Base.Table.{lookup, Keys}
use zero_latency_yolo.Protocol.{ClientInfo, server_full, invalid_packet}
use zero_latency_yolo.Protocol.Deserialize.{create_from_buffer, failed}
use zero_latency_yolo.Protocol.Examples.{sample_abi}
use zero_latency_yolo.Udp.{
  ReliableUdpConfig, Address, PacketAckInfo, ClientConnection, is_same_addr,
}
use zero_latency_yolo.Udp.Connection.{update_rtt}
use zero_latency_yolo.Udp.Connection.Rtt.{update_rtt_exact}
use zero_latency_yolo.Udp.Server.{
  ReliableUdpServer, SystemAnswers, bound, Stats, datagram, packet_sent, success, failure,
  client_at, new_server, register_client,
}
use zero_latency_yolo.Udp.Server.Send.{send_packet, taken}
use zero_latency_yolo.Udp.Server.Receive.{ack_bytes, handle_received_packet}
use zero_latency_yolo.Udp.Server.Manage.{handle_retransmissions, manage, retried}
use zero_latency_yolo.Udp.Server.Clients.{register_client_again}
use zero_latency_yolo.Udp.Server.Retransmit.{passes, passes_give_up}
use zero_latency_yolo.Udp.Server.RetransmitAll.{lookup-handle_retransmissions, resent_all}
use zero_latency_yolo.Udp.Server.Acks.{
  lookup-handle_received_packet_ack, create_from_buffer-ack_bytes,
}
use zero_latency_yolo.Udp.Server.Sending.{lookup-send_packet, send_packet_unsent}
use zero_latency_yolo.Udp.Server.Invariant.{IsServer}
use zero_latency_yolo.Udp.Server.History.{
  Call, calls, initializes, starts, registers, sends, receives, manages, removes, stops,
  calls-IsServer,
}

-- The default configuration, for at most two clients.
abbrev pub sample_config : ReliableUdpConfig
sample_config = record {
  timeout_ms = 5000;
  max_retries = 5;
  max_clients = 2;
  use_packet_aggregation = true;
  aggregation_time_ms = 10;
  max_aggregation_size = 8192;
  congestion_control_enabled = true;
}

abbrev pub peer : Address
peer = record { host = 2130706433; port = 7788 }

abbrev sample_info : ClientInfo
sample_info = record {
  client_id = 0;
  protocol_version = 1;
  screen_width = 1920;
  screen_height = 1080;
  game_id = 1;
  padding = 0;
}

abbrev waiting : PacketAckInfo
waiting = record { sequence = 4; timestamp = 90000; retries = 4; content = 1 ∷ 2 ∷ [] }

abbrev pub sample_client : ClientConnection
sample_client = record {
  client_id = 1;
  address = peer;
  last_active_time = 89000;
  last_frame_processed = 0;
  info = sample_info;
  connected = true;
  next_send_sequence = 5;
  next_expected_sequence = 1;
  unacked_packets = (4, waiting) ∷ [];
  out_of_order_packets = [];
  congestion_window = 9;
  slow_start_threshold = 64;
  last_rtt_ms = 120;
  smoothed_rtt_ms = 100;
  rtt_variation_ms = 20;
  retransmission_timeout_ms = 200;
}

abbrev sample_stats : Stats
sample_stats = record {
  packets_sent = 0;
  packets_received = 0;
  bytes_sent = 0;
  bytes_received = 0;
  packets_retransmitted = 0;
  packets_dropped = 0;
}

abbrev pub sample_server : ReliableUdpServer
sample_server = record {
  config = sample_config;
  socket_open = true;
  running = true;
  clients = (1, sample_client) ∷ [];
  next_client_id = 2;
  aggregated_packets = [];
  next_aggregation_id = 1;
  has_handler = false;
  stats = sample_stats;
}

sample_Keys : Keys sample_server.clients
sample_Keys = (tt, tt)

waiting_Keys : Keys sample_client.unacked_packets
waiting_Keys = (tt, tt)

at_one : lookup 1 sample_server.clients ≡ some sample_client
unfolding lookup
at_one = refl

at_four : lookup 4 sample_client.unacked_packets ≡ some waiting
unfolding lookup
at_four = refl

at_peer : client_at peer sample_server.clients ≡ some (1, sample_client)
unfolding client_at is_same_addr
at_peer = refl

update_rtt_exact_example :
    let c' = update_rtt sample_client 180 in
    let sum = c'.smoothed_rtt_ms + 4 * c'.rtt_variation_ms in
    (c'.smoothed_rtt_ms ≡ 110)
    × (c'.rtt_variation_ms ≡ 35)
    × (c'.retransmission_timeout_ms
        ≡ (if ltb sum 200 then 200 else if ltb 10000 sum then 10000 else sum))
update_rtt_exact_example =
    update_rtt_exact sample_client 180 (omega arith) (omega arith) (omega arith)

registered : (register_client sample_server peer sample_info 90000).1 ≡ success 1
unfolding register_client client_at is_same_addr
registered = refl

register_client_again_example :
    let s' = (register_client sample_server peer sample_info 90000).0 in
    (register_client s' peer sample_info 90001).1
    ≡ (if leb s'.config.max_clients (length s'.clients) then failure server_full else success 1)
register_client_again_example =
    register_client_again sample_server peer sample_info sample_info 90000 90001 1 sample_Keys
      registered

lookup-handle_retransmissions_example :
    (c' : ClientConnection) × (lookup 1 (handle_retransmissions sample_server 90201).0.clients
      ≡ some c')
    × (lookup 4 c'.unacked_packets ≡ some (retried waiting 90201))
    × ((handle_retransmissions sample_server 90201).1
        ≡ resent_all sample_config 90201 sample_server.clients)
unfolding lookup retried
lookup-handle_retransmissions_example =
    lookup-handle_retransmissions sample_server 90201 1 4 sample_client at_one waiting_Keys

passes_give_up_example :
    lookup 4
      (passes sample_config (90201 ∷ 90402 ∷ []) sample_client sample_stats []).unacked_packets
    ≡ none
passes_give_up_example =
    passes_give_up sample_config 4 (90201 ∷ 90402 ∷ []) sample_client sample_stats [] waiting
      (omega arith) (omega arith) waiting_Keys at_four (omega arith, (omega arith, tt))
      (omega arith)

lookup-handle_received_packet_ack_example :
    (c' : ClientConnection) × (lookup 1
        (handle_received_packet sample_abi sample_server
          (ack_bytes sample_abi 4 90050)
          peer
          90100).0.clients
      ≡ some c')
    × (lookup 4 c'.unacked_packets ≡ none)
lookup-handle_received_packet_ack_example =
    lookup-handle_received_packet_ack sample_abi sample_server 4 90050 peer 90100 1 sample_client 4
      (omega arith) (omega arith) at_peer (omega arith) waiting_Keys

create_from_buffer-ack_bytes_example :
    (create_from_buffer sample_abi 1 90100 (ack_bytes sample_abi 4 90050)).0 ≡ failed invalid_packet
create_from_buffer-ack_bytes_example =
    create_from_buffer-ack_bytes sample_abi 1 90100 4 90050 (omega arith) (omega arith)

-- 1024 bytes, which are not aggregated.
large : List ℕ
large = replicate 1024 7

length-large : length large ≡ 1024
unfolding large
length-large = length-replicate {A = ℕ} 1024 7

lookup-send_packet_example :
    let (s', result, effects) =
      send_packet sample_server large peer true 90100 (taken (length large)) in
    (result ≡ success tt)
    × (effects ≡ datagram peer large ∷ packet_sent ∷ [])
    × (c' : ClientConnection) × (lookup 1 s'.clients ≡ some c')
    × (lookup 5 c'.unacked_packets
        ≡ some (record { sequence = 5; timestamp = 90100; retries = 0; content = large }))
lookup-send_packet_example =
    lookup-send_packet sample_server large peer 90100 1 sample_client 5 refl refl
      (omega (arith, length-large)) (omega (arith, length-large)) (ground (arith, length-large))
      at_peer (omega arith)

send_packet_unsent_example :
    let (s', status, effects) = send_packet sample_server (1 ∷ 2 ∷ []) peer true 90100 (taken 2) in
    (status ≡ success tt)
    × (effects ≡ [])
    × (s'.clients ≡ sample_server.clients)
    × ((manage s' 90200).1 ≡ (manage (record s' { aggregated_packets = [] }) 90200).1)
send_packet_unsent_example =
    send_packet_unsent sample_server (1 ∷ 2 ∷ []) peer 90100 90200 (taken 2) refl refl refl
      (omega arith) (omega arith)

abbrev sample_answers : SystemAnswers
sample_answers = record {
  socket_made = true;
  flags_read = true;
  flags_set = true;
  reuse_set = true;
  first_bind = bound;
  socket_made_again = true;
  bound_again = true;
}

abbrev sample_calls : List Call
sample_calls =
    initializes sample_answers
    ∷ starts
    ∷ registers peer sample_info 100
    ∷ sends (1 ∷ 2 ∷ []) peer true 200 (taken 2)
    ∷ receives (ack_bytes sample_abi 1 250) peer 300
    ∷ manages 400
    ∷ removes 1
    ∷ stops
    ∷ []

calls-IsServer_example : IsServer (calls sample_abi (new_server sample_config) sample_calls)
calls-IsServer_example = calls-IsServer sample_abi sample_config sample_calls (omega arith)
