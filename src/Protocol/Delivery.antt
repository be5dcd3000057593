-- ===== src/Protocol/Delivery.antt =====
-- What a receiver makes of the bytes that a sender printed.
use zero_latency_yolo.Base.{
  ℕ, ◌+◌, ◌^◌, ◌≤◌, ◌<◌, ◌≡◌, ◌≢◌, refl, ap, ◌∙◌, List, some, length, arith, u16,
}
use zero_latency_yolo.Protocol.{
  Abi, Body, Packet, ok, err, heartbeat, client_info, server_info, frame_data, detection_result,
  error_report, command, acknowledgement, packet_type, magic_number, version_number, invalid_packet,
  new_packet, next_sequence,
}
use zero_latency_yolo.Protocol.Serialize.{body_size, checksum_of, serialize}
use zero_latency_yolo.Protocol.Deserialize.{
  PacketHeader, read_header, is_valid_header, deserialize_with, deserialize, blank_body, created,
  created_from, create_typed, create_from_buffer,
}
use zero_latency_yolo.Protocol.Fits.{Fits, length-body_fields}
use zero_latency_yolo.Protocol.RoundTrip.{
  body_bytes, unchecked, serialize_lem, length-header_bytes, read_header_lem, packet_type-lt,
  checksum_of-lt, deserialize-serialize_body,
}
use zero_latency_yolo.Protocol.RoundTrip.Bodies.{deserialize_body-body_fields}

-- For a packet whose members hold values of their C++ types, whose body is shorter than 65536 bytes
-- and which, if it is a frame, has a width and a height: what `serialize` prints, any packet object
-- of the same class, whatever it held before, reads back as that packet, and reports success.
pub deserialize-serialize :
    (abi : Abi) (q p : Packet)
    → Fits abi p
    → packet_type abi q.body ≡ packet_type abi p.body
    → deserialize abi q (serialize abi p) ≡ (p, ok)
deserialize-serialize abi q p fits same =
    deserialize-serialize_body abi q p fits same
      (deserialize_body-body_fields abi q.body p.body fits.body fits.size same)

-- `serialize` prints the 22 bytes of the header and then the body.
pub length-serialize :
    (abi : Abi) (p : Packet) → length (serialize abi p) ≡ 22 + body_size abi p.body
length-serialize abi p = rw (serialize_lem abi p) (
    omega (
      arith,
      length-header_bytes (packet_type abi p.body) (u16 (length (body_bytes abi p))) p.sequence
          p.timestamp (checksum_of (unchecked abi p)) (body_bytes abi p),
      length-body_fields abi p.body,
    ))

-- The factory has a class for every type that a packet can carry.
blank_body_lem :
    (abi : Abi) (b : Body)
    → (c : Body) × (blank_body abi (packet_type abi b) ≡ some c)
      × (packet_type abi c ≡ packet_type abi b)
unfolding blank_body packet_type
blank_body_lem abi (heartbeat ping) = (_, refl, refl)
blank_body_lem abi (client_info i) = (_, refl, refl)
blank_body_lem abi (server_info i) = (_, refl, refl)
blank_body_lem abi (frame_data f) = (_, refl, refl)
blank_body_lem abi (detection_result s) = (_, refl, refl)
blank_body_lem abi (error_report code message) = (_, refl, refl)
blank_body_lem abi (command type content) = (_, refl, refl)
blank_body_lem abi (acknowledgement n) = (acknowledgement 0, ground (arith, abi.ack_new), refl)

-- The header of a printed packet, and the body behind it.
abbrev printed_header : Abi → Packet → PacketHeader
printed_header abi p = record {
  magic = magic_number;
  version = version_number;
  type = packet_type abi p.body;
  size = u16 (length (body_bytes abi p));
  sequence = p.sequence;
  timestamp = p.timestamp;
  checksum = checksum_of (unchecked abi p);
}

read_header-serialize :
    (abi : Abi) (p : Packet)
    → p.sequence < 2 ^ 32
    → p.timestamp < 2 ^ 64
    → read_header (serialize abi p) ≡ some (printed_header abi p, body_bytes abi p)
read_header-serialize abi p hs ht = rw (serialize_lem abi p) (
    read_header_lem (packet_type abi p.body) (u16 (length (body_bytes abi p))) p.sequence
      p.timestamp (checksum_of (unchecked abi p)) (body_bytes abi p) (packet_type-lt abi p.body)
      (omega arith) hs ht (checksum_of-lt (unchecked abi p)))

-- The switch of the factory, for bytes that pass the checks before it and parse as `p`.
create_from_buffer_parses :
    (abi : Abi) (counter now : ℕ) (bytes body : List ℕ) (h : PacketHeader) (blank : Body)
    (p : Packet)
    → 22 ≤ length bytes
    → read_header bytes ≡ some (h, body)
    → h.magic ≡ magic_number
    → h.version ≡ version_number
    → blank_body abi h.type ≡ some blank
    → ((q : Packet) → q.body ≡ blank → deserialize abi q bytes ≡ (p, ok))
    → (create_from_buffer abi counter now bytes).0 ≡ created p
unfolding create_from_buffer create_typed is_valid_header created_from new_packet next_sequence
create_from_buffer_parses abi counter now bytes body h blank p long read em ev eb parse =
    ground (arith, read, eb, parse (new_packet counter now 0 blank).0 (ground arith))

-- Under the same conditions as for `deserialize`, the packet factory makes the packet that was sent
-- out of its bytes, whatever its class.
pub create_from_buffer-serialize :
    (abi : Abi) (counter now : ℕ) (p : Packet)
    → Fits abi p
    → (create_from_buffer abi counter now (serialize abi p)).0 ≡ created p
create_from_buffer-serialize abi counter now p fits =
    let (blank, made, same) = blank_body_lem abi p.body in
    create_from_buffer_parses abi counter now (serialize abi p) (body_bytes abi p)
      (printed_header abi p) blank p (omega (arith, length-serialize abi p))
      (read_header-serialize abi p fits.sequence fits.timestamp) refl refl made
      (λ q e. deserialize-serialize abi q p fits (ap (packet_type abi) e ∙ same))

refused_length :
    (abi : Abi) (q : Packet) (bytes body : List ℕ) (h : PacketHeader)
    → 22 ≤ length bytes
    → read_header bytes ≡ some (h, body)
    → h.magic ≡ magic_number
    → h.version ≡ version_number
    → 22 + h.size ≢ length bytes
    → deserialize abi q bytes ≡ (q, err invalid_packet)
unfolding deserialize deserialize_with is_valid_header
refused_length abi q bytes body h long read em ev ne = ground (arith, read)

-- A body of 65536 bytes or more is printed under a length that has wrapped: every receiver refuses
-- the bytes as an invalid packet and keeps the packet object that it had.
pub deserialize-serialize_oversized :
    (abi : Abi) (q p : Packet)
    → p.sequence < 2 ^ 32
    → p.timestamp < 2 ^ 64
    → 2 ^ 16 ≤ body_size abi p.body
    → deserialize abi q (serialize abi p) ≡ (q, err invalid_packet)
deserialize-serialize_oversized abi q p hs ht large =
    refused_length abi q (serialize abi p) (body_bytes abi p) (printed_header abi p)
      (omega (arith, length-serialize abi p)) (read_header-serialize abi p hs ht) refl refl
      (omega (arith, length-serialize abi p, length-body_fields abi p.body))
