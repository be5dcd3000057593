-- ===== src/Udp.antt =====
-- The data of src/network/reliable_udp.h. Times are milliseconds of the system clock.
pub mod Double
pub mod Connection
pub mod Server
pub mod Order
pub mod Examples
use zero_latency_yolo.Base.{ℕ, Bool, List, ◌&&◌, ◌||◌, ◌==◌, ltb, leb, sub32}
use zero_latency_yolo.Protocol.{ClientInfo}

-- The members of `ReliableUdpConfig` that the server reads after `initialize`.
pub record ReliableUdpConfig : Type 0 where
  pub timeout_ms : ℕ
  pub max_retries : ℕ
  pub max_clients : ℕ
  pub use_packet_aggregation : Bool
  pub aggregation_time_ms : ℕ
  pub max_aggregation_size : ℕ
  pub congestion_control_enabled : Bool

-- The two members of `sockaddr_in` that identify a peer.
pub record Address : Type 0 where
  pub host : ℕ
  pub port : ℕ

pub record PacketAckInfo : Type 0 where
  pub sequence : ℕ
  pub timestamp : ℕ
  pub retries : ℕ
  pub content : List ℕ

pub record ClientConnection : Type 0 where
  pub client_id : ℕ
  pub address : Address
  pub last_active_time : ℕ
  pub last_frame_processed : ℕ
  pub info : ClientInfo
  pub connected : Bool
  pub next_send_sequence : ℕ
  pub next_expected_sequence : ℕ
  pub unacked_packets : List (ℕ × PacketAckInfo)
  pub out_of_order_packets : List ℕ
  pub congestion_window : ℕ
  pub slow_start_threshold : ℕ
  pub last_rtt_ms : ℕ
  pub smoothed_rtt_ms : ℕ
  pub rtt_variation_ms : ℕ
  pub retransmission_timeout_ms : ℕ

pub record AggregatedPacket : Type 0 where
  pub aggregation_id : ℕ
  pub creation_time : ℕ
  pub packets : List (List ℕ)
  pub total_size : ℕ

-- `isSameAddr`.
unfoldable pub is_same_addr : Address → Address → Bool
is_same_addr a b = a.host == b.host && a.port == b.port

-- `isSequenceNewer`, on 32-bit sequence numbers.
unfoldable pub is_sequence_newer : ℕ → ℕ → Bool
is_sequence_newer a b =
    (ltb b a && leb (sub32 a b) 0x7FFFFFFF) || (ltb a b && ltb 0x7FFFFFFF (sub32 b a))
