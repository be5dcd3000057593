-- ===== src/Protocol.antt =====
-- The data of src/common/types.h and src/common/protocol.h: constants, enums, structs and packets.
-- A `float` that the protocol only copies is its 32-bit pattern, and the padding of a struct that is
-- copied whole is a field of its own.
pub mod Structs
pub mod Serialize
pub mod Deserialize
pub mod Safety
pub mod Fits
pub mod RoundTrip
pub mod Examples
pub mod Delivery
pub mod Corruption
use zero_latency_yolo.Base.{ℕ, suc, ◌+◌, ◌%◌, ◌^◌, ◌<◌, Bool, List, [], u32, ◌==◌, if◌then◌else◌}

abbrev pub magic_number : ℕ
magic_number = 0x59544C5A

abbrev pub version_number : ℕ
version_number = 1

-- `sizeof(PacketHeader)`, a packed struct.
abbrev pub header_size : ℕ
header_size = 22

-- What the headers leave open: `PacketType::ACK` is used but has no enumerator in types.h, and
-- `ErrorCode` is declared in types.h (one byte) and in result.h (an `int`). An enumerator that the
-- switch of `createFromBuffer` can tell from the others is a byte above `CONFIG_UPDATE`.
pub record Abi : Type 0 where
  pub ack : ℕ
  pub ack_new : 7 < ack
  pub ack_byte : ack < 256
  pub error_code_size : ℕ

pub record BoundingBox : Type 0 where
  pub x : ℕ
  pub y : ℕ
  pub width : ℕ
  pub height : ℕ

-- `padding` stands before `timestamp`, which is aligned to 8 bytes.
pub record Detection : Type 0 where
  pub box : BoundingBox
  pub confidence : ℕ
  pub class_id : ℕ
  pub track_id : ℕ
  pub padding : ℕ
  pub timestamp : ℕ

pub record FrameData : Type 0 where
  pub frame_id : ℕ
  pub timestamp : ℕ
  pub width : ℕ
  pub height : ℕ
  pub pixels : List ℕ
  pub keyframe : Bool

pub record GameState : Type 0 where
  pub frame_id : ℕ
  pub timestamp : ℕ
  pub detections : List Detection

pub record ClientInfo : Type 0 where
  pub client_id : ℕ
  pub protocol_version : ℕ
  pub screen_width : ℕ
  pub screen_height : ℕ
  pub game_id : ℕ
  pub padding : ℕ

pub record ServerInfo : Type 0 where
  pub server_id : ℕ
  pub protocol_version : ℕ
  pub model_version : ℕ
  pub max_clients : ℕ
  pub padding : ℕ
  pub max_fps : ℕ
  pub status : ℕ
  pub tail_padding : ℕ

-- The codes that the protocol, the network layer and the inference engine return.
pub data ErrorCode : Type 0 where
  invalid_packet protocol_error packet_too_large invalid_argument not_initialized : ErrorCode
  network_error socket_error server_full : ErrorCode
  invalid_input inference_error system_error : ErrorCode

-- The subclasses of `Packet`, with their own members.
pub data Body : Type 0 where
  heartbeat : ℕ → Body
  client_info : ClientInfo → Body
  server_info : ServerInfo → Body
  frame_data : FrameData → Body
  detection_result : GameState → Body
  error_report : ℕ → List ℕ → Body
  command : ℕ → List ℕ → Body
  acknowledgement : ℕ → Body

-- `type_`, which each constructor sets and nothing changes.
unfoldable pub packet_type : Abi → Body → ℕ
packet_type abi (heartbeat ping) = 0
packet_type abi (client_info info) = 1
packet_type abi (server_info info) = 2
packet_type abi (frame_data frame) = 3
packet_type abi (detection_result state) = 4
packet_type abi (error_report code message) = 5
packet_type abi (command type bytes) = 6
packet_type abi (acknowledgement sequence) = abi.ack

pub record Packet : Type 0 where
  pub sequence : ℕ
  pub timestamp : ℕ
  pub body : Body

-- `SequenceGenerator::next`: the value given out and the counter after it.
unfoldable pub next_sequence : ℕ → ℕ × ℕ
next_sequence counter = (counter, u32 (counter + 1))

-- The constructor `Packet(type, sequence)`: a zero asks for a fresh number.
unfoldable pub new_packet : ℕ → ℕ → ℕ → Body → Packet × ℕ
unfolding next_sequence
new_packet counter now sequence body =
    let (fresh, counter') = next_sequence counter in
    if sequence == 0
    then (record { sequence = fresh; timestamp = now; body = body }, counter')
    else (record { sequence = sequence; timestamp = now; body = body }, counter)

-- How a call that parses bytes ends; `fault` is a read past the end of the buffer.
pub data Outcome : Type 0 where
  ok fault : Outcome
  err : ErrorCode → Outcome
