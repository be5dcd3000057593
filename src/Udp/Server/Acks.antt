-- ===== src/Udp/Server/Acks.antt =====
-- How the acknowledgements of src/network/reliable_udp.cpp are received.
use zero_latency_yolo.Base.{
  ℕ, ◌+◌, ◌<◌, ◌^◌, ◌≡◌, ◌≤◌, ◌≢◌, refl, ap, sym, ◌∙◌, List, [], none, some, arith, length, ◌==◌,
  ltb, if◌then◌else◌, append-nil, Option-cases, inl, inr, subst,
}
use zero_latency_yolo.Base.Table.{lookup, insert, Keys, lookup-insert, lookup-erase}
use zero_latency_yolo.Protocol.{
  Abi, header_size, magic_number, version_number, acknowledgement, invalid_packet, packet_type,
  new_packet, next_sequence,
}
use zero_latency_yolo.Protocol.Serialize.{header_bytes, checksum_of}
use zero_latency_yolo.Protocol.Deserialize.{
  PacketHeader, read_header, recomputed, is_valid_header, blank_body, create_from_buffer,
  create_typed, created_from, failed, deserialize, deserialize_with, deserialize_body, parse_fixed,
}
use zero_latency_yolo.Protocol.RoundTrip.{
  length-header_bytes, read_header_lem, recomputed_lem, checksum_of-lt,
}
use zero_latency_yolo.Udp.{ReliableUdpConfig, Address, ClientConnection}
use zero_latency_yolo.Udp.Server.{ReliableUdpServer, client_at}
use zero_latency_yolo.Udp.Server.Receive.{
  acknowledge, handle_ack, ack_bytes, touch, dispatch, handle_received_packet,
}

-- Bytes that pass every test of `handleReceivedPacket` are dispatched.
handle_received_packet_valid :
    (abi : Abi) (s : ReliableUdpServer) (bytes body : List ℕ) (h : PacketHeader) (a : Address)
    (now : ℕ)
    → read_header bytes ≡ some (h, body)
    → h.magic ≡ magic_number
    → h.version ≡ version_number
    → header_size + h.size ≡ length bytes
    → recomputed bytes ≡ h.checksum
    → handle_received_packet abi s bytes a now ≡ dispatch abi s h bytes a now
unfolding handle_received_packet is_valid_header
handle_received_packet_valid abi s bytes body h a now read em ev es ec = ground (arith, read)

dispatch_ack :
    (abi : Abi) (s : ReliableUdpServer) (h : PacketHeader) (bytes : List ℕ) (a : Address) (now : ℕ)
    → h.type ≡ abi.ack
    → let (s₁, id) = touch s a now in
      dispatch abi s h bytes a now ≡ (if ltb 0 id then handle_ack s₁ h.sequence id now else s₁, [])
unfolding dispatch
dispatch_ack abi s h bytes a now e = ground arith

-- The header that `sendAck` prints, with nothing behind it.
abbrev ack_header : Abi → ℕ → ℕ → PacketHeader
ack_header abi sequence sent = record {
  magic = magic_number;
  version = version_number;
  type = abi.ack;
  size = 0;
  sequence = sequence;
  timestamp = sent;
  checksum = checksum_of (header_bytes abi.ack 0 sequence sent 0);
}

read_header-ack_bytes :
    (abi : Abi) (sequence sent : ℕ)
    → sequence < 2 ^ 32
    → sent < 2 ^ 64
    → read_header (ack_bytes abi sequence sent) ≡ some (ack_header abi sequence sent, [])
unfolding ack_bytes
read_header-ack_bytes abi sequence sent hq ht =
    let sum = checksum_of (header_bytes abi.ack 0 sequence sent 0) in
    subst (λ bytes. read_header bytes ≡ some (ack_header abi sequence sent, []))
      (append-nil (header_bytes abi.ack 0 sequence sent sum))
      (read_header_lem abi.ack 0 sequence sent sum [] (omega (arith, abi.ack_byte)) (omega arith) hq
        ht (checksum_of-lt (header_bytes abi.ack 0 sequence sent 0)))

length-ack_bytes : (abi : Abi) (sequence sent : ℕ) → 22 ≡ length (ack_bytes abi sequence sent)
unfolding ack_bytes
length-ack_bytes abi sequence sent =
    let sum = checksum_of (header_bytes abi.ack 0 sequence sent 0) in
    subst (λ bytes. 22 ≡ length bytes) (append-nil (header_bytes abi.ack 0 sequence sent sum))
      (sym (length-header_bytes abi.ack 0 sequence sent sum []))

recomputed-ack_bytes :
    (abi : Abi) (sequence sent : ℕ)
    → recomputed (ack_bytes abi sequence sent) ≡ (ack_header abi sequence sent).checksum
unfolding ack_bytes
recomputed-ack_bytes abi sequence sent =
    let sum = checksum_of (header_bytes abi.ack 0 sequence sent 0) in
    subst (λ bytes. recomputed bytes ≡ sum) (append-nil (header_bytes abi.ack 0 sequence sent sum))
      (recomputed_lem abi.ack 0 sequence sent sum []
        ∙ ap checksum_of (append-nil (header_bytes abi.ack 0 sequence sent 0)))

-- What `sendAck` prints is accepted: it renews the peer's time of activity, is taken as an
-- acknowledgement for the client found by the peer's address, if any, and is not answered.
handle_received_packet-ack_bytes :
    (abi : Abi) (s : ReliableUdpServer) (sequence sent : ℕ) (a : Address) (now : ℕ)
    → sequence < 2 ^ 32
    → sent < 2 ^ 64
    → let (s₁, id) = touch s a now in
      handle_received_packet abi s (ack_bytes abi sequence sent) a now
      ≡ (if ltb 0 id then handle_ack s₁ sequence id now else s₁, [])
handle_received_packet-ack_bytes abi s sequence sent a now hq ht =
    handle_received_packet_valid abi s (ack_bytes abi sequence sent) []
      (ack_header abi sequence sent) a now (read_header-ack_bytes abi sequence sent hq ht) refl refl
      (length-ack_bytes abi sequence sent) (recomputed-ack_bytes abi sequence sent)
    ∙ dispatch_ack abi s (ack_header abi sequence sent) (ack_bytes abi sequence sent) a now refl

lookup-acknowledge :
    (config : ReliableUdpConfig) (c : ClientConnection) (sequence now k : ℕ)
    → Keys c.unacked_packets
    → lookup k (acknowledge config c sequence now).unacked_packets
      ≡ (if sequence == k then none else lookup k c.unacked_packets)
unfolding acknowledge
lookup-acknowledge config c sequence now k h =
    elim (Option-cases (lookup sequence c.unacked_packets)) [
      | inl gone ↦ ground (arith, gone)
      | inr (p, there) ↦ ground (arith, there, lookup-erase sequence k c.unacked_packets h)
    ]

-- What `touch` and `handleAck` together make of the client that the address finds.
handle_ack-touch :
    (s : ReliableUdpServer) (a : Address) (sequence now id : ℕ) (c : ClientConnection)
    → client_at a s.clients ≡ some (id, c)
    → id ≢ 0
    → let (s₁, found) = touch s a now in
      lookup id (if ltb 0 found then handle_ack s₁ sequence found now else s₁).clients
      ≡ some (acknowledge s.config (record c { last_active_time = now }) sequence now)
unfolding touch handle_ack
handle_ack-touch s a sequence now id c at n =
    let seen = record c { last_active_time = now } in
    ground (
      arith,
      at,
      lookup-insert id id seen s.clients,
      lookup-insert id id (acknowledge s.config seen sequence now) (insert id seen s.clients),
    )

-- Where a client with an id other than 0 is found by its address, and no two of its waiting packets
-- have the same number, receiving what `sendAck` prints for a 32-bit sequence number and a 64-bit
-- time takes the packet with that number from those that wait to be acknowledged, and no other.
pub lookup-handle_received_packet_ack :
    (abi : Abi) (s : ReliableUdpServer) (sequence sent : ℕ) (a : Address) (now id : ℕ)
    (c : ClientConnection) (k : ℕ)
    → sequence < 2 ^ 32
    → sent < 2 ^ 64
    → client_at a s.clients ≡ some (id, c)
    → id ≢ 0
    → Keys c.unacked_packets
    → (c' : ClientConnection) × (lookup id
          (handle_received_packet abi s (ack_bytes abi sequence sent) a now).0.clients
        ≡ some c')
      × (lookup k c'.unacked_packets ≡ (if sequence == k then none else lookup k c.unacked_packets))
lookup-handle_received_packet_ack abi s sequence sent a now id c k hq ht at n h = (
  _,
  ap (λ r. lookup id r.0.clients) (handle_received_packet-ack_bytes abi s sequence sent a now hq ht)
      ∙ handle_ack-touch s a sequence now id c at n,
  lookup-acknowledge s.config _ sequence now k h,
)

blank_ack : (abi : Abi) → blank_body abi abi.ack ≡ some (acknowledgement 0)
unfolding blank_body
blank_ack abi = ground (arith, abi.ack_new)

-- An `AckPacket` takes nothing but a body of 4 bytes.
refused_ack :
    (abi : Abi) (counter now : ℕ) (bytes body : List ℕ) (h : PacketHeader)
    → 22 ≤ length bytes
    → read_header bytes ≡ some (h, body)
    → h.magic ≡ magic_number
    → h.version ≡ version_number
    → h.type ≡ abi.ack
    → h.size ≡ 0
    → 22 ≡ length bytes
    → recomputed bytes ≡ h.checksum
    → blank_body abi h.type ≡ some (acknowledgement 0)
    → (create_from_buffer abi counter now bytes).0 ≡ failed invalid_packet
unfolding create_from_buffer create_typed created_from new_packet next_sequence deserialize
    deserialize_with deserialize_body parse_fixed packet_type is_valid_header
refused_ack abi counter now bytes body h long read em ev et es el ec eb = ground (arith, read, eb)

-- The packet factory refuses what `sendAck` prints for a 32-bit sequence number and a 64-bit time as
-- an invalid packet, although `handleReceivedPacket` takes it.
pub create_from_buffer-ack_bytes :
    (abi : Abi) (counter now sequence sent : ℕ)
    → sequence < 2 ^ 32
    → sent < 2 ^ 64
    → (create_from_buffer abi counter now (ack_bytes abi sequence sent)).0 ≡ failed invalid_packet
create_from_buffer-ack_bytes abi counter now sequence sent hq ht =
    refused_ack abi counter now (ack_bytes abi sequence sent) [] (ack_header abi sequence sent)
      (omega (arith, length-ack_bytes abi sequence sent))
      (read_header-ack_bytes abi sequence sent hq ht) refl refl refl refl
      (length-ack_bytes abi sequence sent) (recomputed-ack_bytes abi sequence sent) (blank_ack abi)
