-- ===== src/Protocol/Serialize.antt =====
-- `serializeBody` of the packet classes and `Packet::serialize` in src/common/protocol.h.
use zero_latency_yolo.Base.{ℕ, ◌+◌, ◌-◌, ◌*◌, List, [], ◌∷◌, map, length, drop, if◌then◌else◌, u16}
use zero_latency_yolo.Wire.{le, resize, write_at, write_fields, joined}
use zero_latency_yolo.Crc.{calculate_crc16}
use zero_latency_yolo.Protocol.{
  Abi, Body, Packet, heartbeat, client_info, server_info, frame_data, detection_result,
  error_report, command, acknowledgement, packet_type, magic_number, version_number, header_size,
}
use zero_latency_yolo.Protocol.Structs.{client_info_bytes, server_info_bytes, detection_bytes}

-- What each `serializeBody` copies, in order.
unfoldable pub body_fields : Abi → Body → List (List ℕ)
body_fields abi (heartbeat ping) = le 4 ping ∷ []
body_fields abi (client_info info) = client_info_bytes info ∷ []
body_fields abi (server_info info) = server_info_bytes info ∷ []
body_fields abi (frame_data f) =
    le 4 f.frame_id
    ∷ le 8 f.timestamp
    ∷ le 2 f.width
    ∷ le 2 f.height
    ∷ le 1 (if f.keyframe then 1 else 0)
    ∷ f.pixels
    ∷ []
body_fields abi (detection_result s) =
    le 4 s.frame_id
    ∷ le 8 s.timestamp
    ∷ le 2 (u16 (length s.detections))
    ∷ map detection_bytes s.detections
body_fields abi (error_report code message) =
    le abi.error_code_size code ∷ le 2 (u16 (length message)) ∷ message ∷ []
body_fields abi (command type bytes) = le 1 type ∷ le 2 (u16 (length bytes)) ∷ bytes ∷ []
body_fields abi (acknowledgement sequence) = le 4 sequence ∷ []

-- By how much it grows the buffer first.
unfoldable pub body_size : Abi → Body → ℕ
body_size abi (heartbeat ping) = 4
body_size abi (client_info info) = 16
body_size abi (server_info info) = 20
body_size abi (frame_data f) = 17 + length f.pixels
body_size abi (detection_result s) = 14 + length s.detections * 40
body_size abi (error_report code message) = abi.error_code_size + 2 + length message
body_size abi (command type bytes) = 3 + length bytes
body_size abi (acknowledgement sequence) = 4

unfoldable pub serialize_body : Abi → Body → List ℕ → List ℕ
serialize_body abi body buffer =
    let offset = length buffer in
    write_fields (resize (offset + body_size abi body) buffer) offset (body_fields abi body)

-- The packed `PacketHeader`: 22 bytes, with `length` at 6 and `checksum` at 20.
unfoldable pub header_bytes : ℕ → ℕ → ℕ → ℕ → ℕ → List ℕ
header_bytes type size sequence timestamp checksum = joined (
    le 4 magic_number
    ∷ le 1 version_number
    ∷ le 1 type
    ∷ le 2 size
    ∷ le 4 sequence
    ∷ le 8 timestamp
    ∷ le 2 checksum
    ∷ [])

-- The checksum starts behind the first two bytes of the magic number.
unfoldable pub checksum_of : List ℕ → ℕ
checksum_of buffer = calculate_crc16 (drop 2 buffer)

unfoldable pub serialize : Abi → Packet → List ℕ
serialize abi p =
    let head = header_bytes (packet_type abi p.body) 0 p.sequence p.timestamp 0 in
    let whole = serialize_body abi p.body head in
    let sized = write_at 6 (le 2 (u16 (length whole - header_size))) whole in
    write_at 20 (le 2 (checksum_of sized)) sized
