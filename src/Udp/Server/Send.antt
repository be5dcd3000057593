-- ===== src/Udp/Server/Send.antt =====
-- `ReliableUdpServer::sendPacket` of src/network/reliable_udp.cpp.
use zero_latency_yolo.Base.{
  ℕ, ◌+◌, Bool, List, [], ◌∷◌, ◌++◌, Option, none, some, length, ltb, leb, ◌==◌, ◌&&◌, not,
  if◌then◌else◌, u32, sub64,
}
use zero_latency_yolo.Base.Table.{insert}
use zero_latency_yolo.Protocol.{invalid_argument, not_initialized, packet_too_large, network_error}
use zero_latency_yolo.Udp.{
  ReliableUdpConfig, Address, ClientConnection, AggregatedPacket, is_same_addr,
}
use zero_latency_yolo.Udp.Server.{
  ReliableUdpServer, Effect, datagram, packet_sent, Result, success, failure, count_sent, client_at,
}

-- `sockaddr_in{}`, and `PROTOCOL_MAX_PACKET_SIZE`.
abbrev pub no_address : Address
no_address = record { host = 0; port = 0 }

abbrev pub max_packet_size : ℕ
max_packet_size = 65536

-- Whether an aggregate takes the packet: its size and its age.
unfoldable pub takes : ReliableUdpConfig → AggregatedPacket → List ℕ → ℕ → Bool
takes config aggr content now =
    leb (aggr.total_size + length content) config.max_aggregation_size
    && leb (sub64 now aggr.creation_time) config.aggregation_time_ms

unfoldable pub with_packet : AggregatedPacket → List ℕ → AggregatedPacket
with_packet aggr content = record aggr {
  packets = aggr.packets ++ content ∷ [];
  total_size = u32 (aggr.total_size + length content);
}

-- The loop over the aggregates, for a packet to an address other than `sockaddr_in{}`.
unfoldable pub add_to_aggregate :
    ReliableUdpConfig
    → List ℕ
    → ℕ
    → List (ℕ × AggregatedPacket)
    → Option (List (ℕ × AggregatedPacket))
add_to_aggregate config content now [] = none
add_to_aggregate config content now ((id, aggr) ∷ more) =
    let rest = add_to_aggregate config content now more in
    if takes config aggr content now
    then some ((id, with_packet aggr content) ∷ more)
    else elim rest [ none ↦ none | some more' ↦ some ((id, aggr) ∷ more') ]

unfoldable pub new_aggregate : ℕ → ℕ → List ℕ → AggregatedPacket
new_aggregate id now content = record {
  aggregation_id = id;
  creation_time = now;
  packets = content ∷ [];
  total_size = u32 (length content);
}

-- The part for small packets under aggregation; `none` goes on to send directly.
unfoldable pub aggregate :
    ReliableUdpServer → List ℕ → Address → Bool → ℕ → Option ReliableUdpServer
aggregate s content a reliable now =
    let joined =
      if is_same_addr a no_address
      then none
      else add_to_aggregate s.config content now s.aggregated_packets in
    elim joined [
      | some aggregates ↦ some (record s {
        aggregated_packets = aggregates;
        stats = count_sent s.stats (length content);
      })
      | none ↦
          if reliable
          then some (record s {
            aggregated_packets =
                insert s.next_aggregation_id (new_aggregate s.next_aggregation_id now content)
                  s.aggregated_packets;
            next_aggregation_id = u32 (s.next_aggregation_id + 1);
            stats = count_sent s.stats (length content);
          })
          else none
    ]

-- The entry that keeps a packet until it is acknowledged, under the client's next number.
unfoldable pub track : ClientConnection → List ℕ → ℕ → ClientConnection
track c content now = record c {
  next_send_sequence = u32 (c.next_send_sequence + 1);
  unacked_packets =
      insert c.next_send_sequence
        (record {
          sequence = c.next_send_sequence;
          timestamp = now;
          retries = 0;
          content = content;
        })
        c.unacked_packets;
}

unfoldable pub track_client :
    List (ℕ × ClientConnection) → List ℕ → Address → ℕ → List (ℕ × ClientConnection)
track_client clients content a now = elim (client_at a clients) [
  | none ↦ clients
  | some (id, c) ↦ if ltb 0 id then insert id (track c content now) clients else clients
]

-- What `sendto` returned: an error, or the number of bytes that it took.
pub data SendResult : Type 0 where
  refused : SendResult
  taken : ℕ → SendResult

-- After `sendto`.
unfoldable pub sent_directly :
    ReliableUdpServer
    → List ℕ
    → Address
    → Bool
    → ℕ
    → SendResult
    → ReliableUdpServer × Result (Unit {0}) × List Effect
sent_directly s content a reliable now refused = (s, failure network_error, datagram a content ∷ [])
sent_directly s content a reliable now (taken count) =
    if not (count == length content) then (s, failure network_error, datagram a content ∷ []) else (
      record s {
        clients = if reliable then track_client s.clients content a now else s.clients;
        stats = count_sent s.stats (length content);
      },
      success tt,
      datagram a content ∷ packet_sent ∷ [],
    )

-- `sendPacket`.
unfoldable pub send_packet :
    ReliableUdpServer
    → List ℕ
    → Address
    → Bool
    → ℕ
    → SendResult
    → ReliableUdpServer × Result (Unit {0}) × List Effect
send_packet s content a reliable now result =
    if not s.socket_open
    then (s, failure not_initialized, [])
    else if not s.running
    then (s, failure not_initialized, [])
    else if length content == 0
    then (s, failure invalid_argument, [])
    else if ltb max_packet_size (length content)
    then (s, failure packet_too_large, [])
    else if s.config.use_packet_aggregation && ltb (length content) 1024
    then elim (aggregate s content a reliable now) [
      | some s' ↦ (s', success tt, [])
      | none ↦ sent_directly s content a reliable now result
    ]
    else sent_directly s content a reliable now result
