-- ===== src/Udp/Server/Receive.antt =====
-- `handleReceivedPacket`, `handleAck` and `sendAck` of src/network/reliable_udp.cpp.
use zero_latency_yolo.Base.{
  ℕ, ◌+◌, List, [], ◌∷◌, ◌++◌, none, some, length, ltb, ◌==◌, not, if◌then◌else◌, u64, sub64,
}
use zero_latency_yolo.Base.Table.{lookup, insert, erase}
use zero_latency_yolo.Protocol.{Abi, header_size}
use zero_latency_yolo.Protocol.Serialize.{header_bytes, checksum_of}
use zero_latency_yolo.Protocol.Deserialize.{PacketHeader, read_header, recomputed, is_valid_header}
use zero_latency_yolo.Udp.{ReliableUdpConfig, Address, ClientConnection}
use zero_latency_yolo.Udp.Connection.{update_rtt, increase_congestion_window}
use zero_latency_yolo.Udp.Server.{
  ReliableUdpServer, Effect, datagram, packet_received, handled, count_sent, client_at,
}

-- What an acknowledgement does to the client that it names.
unfoldable pub acknowledge : ReliableUdpConfig → ClientConnection → ℕ → ℕ → ClientConnection
acknowledge config c sequence now = elim (lookup sequence c.unacked_packets) [
  | none ↦ c
  | some packet ↦
      let measured = update_rtt c (sub64 now packet.timestamp) in
      let widened =
        if config.congestion_control_enabled
        then increase_congestion_window measured
        else measured in
      record widened { unacked_packets = erase sequence c.unacked_packets }
]

-- `handleAck`.
unfoldable pub handle_ack : ReliableUdpServer → ℕ → ℕ → ℕ → ReliableUdpServer
handle_ack s sequence id now = elim (lookup id s.clients) [
  | none ↦ s
  | some c ↦ record s { clients = insert id (acknowledge s.config c sequence now) s.clients }
]

-- The header that `sendAck` sends.
unfoldable pub ack_bytes : Abi → ℕ → ℕ → List ℕ
ack_bytes abi sequence now =
    header_bytes abi.ack 0 sequence now (checksum_of (header_bytes abi.ack 0 sequence now 0))

-- `sendAck`; what `sendto` returns is not looked at.
unfoldable pub send_ack :
    Abi → ReliableUdpServer → ℕ → Address → ℕ → ReliableUdpServer × List Effect
send_ack abi s sequence a now = (
  record s { stats = count_sent s.stats header_size },
  datagram a (ack_bytes abi sequence now) ∷ [],
)

-- The client with the sender's address, with its time of activity renewed.
unfoldable pub touch : ReliableUdpServer → Address → ℕ → ReliableUdpServer × ℕ
touch s a now = elim (client_at a s.clients) [
  | none ↦ (s, 0)
  | some (id, c) ↦
      (record s { clients = insert id (record c { last_active_time = now }) s.clients }, id)
]

-- A valid packet: acknowledgements are taken, all others are acknowledged and handed on.
unfoldable pub dispatch :
    Abi → ReliableUdpServer → PacketHeader → List ℕ → Address → ℕ → ReliableUdpServer × List Effect
dispatch abi s h bytes a now =
    let (s₁, id) = touch s a now in
    if h.type == abi.ack
    then (if ltb 0 id then handle_ack s₁ h.sequence id now else s₁, [])
    else let (s₂, acked) = send_ack abi s₁ h.sequence a now in
      let handed = if s.has_handler then handled bytes a ∷ [] else [] in
      let event = if ltb 0 id then packet_received id h.sequence h.type ∷ [] else [] in
      (s₂, acked ++ (handed ++ event))

-- `handleReceivedPacket`; the last alternative is a read past the end, which the first test excludes.
unfoldable pub handle_received_packet :
    Abi → ReliableUdpServer → List ℕ → Address → ℕ → ReliableUdpServer × List Effect
handle_received_packet abi s bytes a now =
    if ltb (length bytes) header_size then (s, []) else elim (read_header bytes) [
      | some (h, body) ↦
          if not (is_valid_header h)
          then (s, [])
          else if not (header_size + h.size == length bytes)
          then (s, [])
          else if not (recomputed bytes == h.checksum)
          then (s, [])
          else dispatch abi s h bytes a now
      | none ↦ (s, [])
    ]

-- One successful `recvfrom` of the receive thread.
unfoldable pub receive_datagram :
    Abi → ReliableUdpServer → List ℕ → Address → ℕ → ReliableUdpServer × List Effect
receive_datagram abi s bytes a now =
    handle_received_packet abi
      (record s {
        stats = record (s.stats) {
          packets_received = u64 (s.stats.packets_received + 1);
          bytes_received = u64 (s.stats.bytes_received + length bytes);
        };
      })
      bytes a now
