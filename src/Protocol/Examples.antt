-- ===== src/Protocol/Examples.antt =====
-- Concrete packets, and the theorems on them.
use zero_latency_yolo.Base.{
  ℕ, ◌^◌, ◌≤◌, ◌≡◌, ◌≢◌, refl, ap, get_or, List, [], ◌∷◌, true, arith, set, replicate, length,
  length-replicate,
}
use zero_latency_yolo.Crc.{calculate_crc16}
use zero_latency_yolo.Protocol.{
  Abi, Packet, FrameData, ok, err, fault, heartbeat, frame_data, error_report, packet_type,
  invalid_packet,
}
use zero_latency_yolo.Protocol.Serialize.{
  serialize, body_fields, body_size, serialize_body, header_bytes, checksum_of,
}
use zero_latency_yolo.Protocol.Deserialize.{
  deserialize, deserialize_with, read_header, recomputed, is_valid_header, deserialize_body,
  parse_fixed,
}
use zero_latency_yolo.Protocol.Fits.{Fits}
use zero_latency_yolo.Protocol.Safety.{deserialize-ne-fault}
use zero_latency_yolo.Protocol.Delivery.{deserialize-serialize, deserialize-serialize_oversized}
use zero_latency_yolo.Protocol.Corruption.{deserialize-set}
use zero_latency_yolo.Wire.{le, from_le, write_at, write_fields, resize}
use zero_latency_yolo.Wire.Reader.{get_le, get_bytes}

abbrev pub sample_abi : Abi
sample_abi = record { ack = 8; ack_new = omega arith; ack_byte = omega arith; error_code_size = 4 }

abbrev sample_frame : FrameData
sample_frame = record {
  frame_id = 5;
  timestamp = 70000;
  width = 2;
  height = 1;
  pixels = 9 ∷ 8 ∷ 7 ∷ 6 ∷ 5 ∷ 4 ∷ [];
  keyframe = true;
}

abbrev sample_packet : Packet
sample_packet = record { sequence = 3; timestamp = 1234567890; body = frame_data sample_frame }

abbrev ping_packet : Packet
ping_packet = record { sequence = 1; timestamp = 2; body = heartbeat 30 }

sample_packet-Fits : Fits sample_abi sample_packet
unfolding body_size
sample_packet-Fits = omega arith

deserialize-ne-fault_example : (deserialize sample_abi ping_packet (1 ∷ 2 ∷ 3 ∷ [])).1 ≢ fault
deserialize-ne-fault_example = deserialize-ne-fault sample_abi ping_packet (1 ∷ 2 ∷ 3 ∷ [])

deserialize-serialize_example :
    deserialize sample_abi sample_packet (serialize sample_abi sample_packet) ≡ (sample_packet, ok)
deserialize-serialize_example =
    deserialize-serialize sample_abi sample_packet sample_packet sample_packet-Fits refl

-- 65530 characters, kept shut.
long_message : List ℕ
long_message = replicate 65530 7

length-long_message : length long_message ≡ 65530
unfolding long_message
length-long_message = length-replicate {A = ℕ} 65530 7

long_packet : Packet
long_packet = record { sequence = 1; timestamp = 2; body = error_report 1 long_message }

long_packet-size : 2 ^ 16 ≤ body_size sample_abi long_packet.body
unfolding body_size long_packet
long_packet-size = omega (arith, length-long_message)

deserialize-serialize_oversized_example :
    deserialize sample_abi ping_packet (serialize sample_abi long_packet)
    ≡ (ping_packet, err invalid_packet)
unfolding long_packet
deserialize-serialize_oversized_example =
    deserialize-serialize_oversized sample_abi ping_packet long_packet (omega arith) (omega arith)
      long_packet-size

-- The bytes of a heartbeat, with their checksum.
abbrev ping_bytes : List ℕ
ping_bytes =
    90 ∷ 76 ∷ 84 ∷ 89 ∷ 1 ∷ 0 ∷ 4 ∷ 0 ∷ 1 ∷ 0 ∷ 0 ∷ 0 ∷ 2 ∷ 0 ∷ 0 ∷ 0 ∷ 0 ∷ 0 ∷ 0 ∷ 0 ∷ 60 ∷ 234
    ∷ 30 ∷ 0 ∷ 0 ∷ 0 ∷ []

serialize-ping : serialize sample_abi ping_packet ≡ ping_bytes
unfolding serialize serialize_body header_bytes checksum_of calculate_crc16 write_at write_fields
    resize le body_fields body_size packet_type
serialize-ping = refl

ping_accepted : (deserialize sample_abi ping_packet ping_bytes).1 ≡ ok
unfolding deserialize deserialize_with read_header recomputed is_valid_header deserialize_body
    parse_fixed checksum_of calculate_crc16 write_at from_le get_le get_bytes packet_type
ping_accepted = refl

deserialize-set_example : (deserialize sample_abi ping_packet (set ping_bytes 22 31)).1 ≢ ok
deserialize-set_example =
    deserialize-set sample_abi ping_packet ping_packet ping_bytes 22 31 (omega arith) (omega arith)
      ping_accepted changed
  where
    changed : set ping_bytes 22 31 ≢ ping_bytes
    changed e = let last : ◌≡◌ {A = ℕ} 31 30 = ap (λ bs. get_or bs 22 0) e in absurd (omega arith)
