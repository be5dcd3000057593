-- ===== src/Protocol/Deserialize.antt =====
-- `deserializeBody` of the packet classes, `Packet::deserialize`, `validate` and
-- `PacketFactory::createFromBuffer` in src/common/protocol.h. A call changes the packet also where
-- it then fails, so each returns the packet beside its outcome.
use zero_latency_yolo.Base.{
  ℕ, ◌+◌, ◌-◌, ◌*◌, List, [], ◌∷◌, Bool, false, ◌&&◌, ◌||◌, Option, none, some, length, ltb, not,
  ◌==◌, if◌then◌else◌,
}
use zero_latency_yolo.Wire.{write_at}
use zero_latency_yolo.Wire.Reader.{Reader, ◌>>=◌, pure, get_bytes, get_le, get_many}
use zero_latency_yolo.Protocol.{
  Abi, ErrorCode, FrameData, GameState, ClientInfo, ServerInfo, Body, Packet, Outcome, ok, fault,
  err, heartbeat, client_info, server_info, frame_data, detection_result, error_report, command,
  acknowledgement, invalid_packet, protocol_error, packet_type, magic_number, version_number,
  header_size, new_packet,
}
use zero_latency_yolo.Protocol.Structs.{read_client_info, read_server_info, read_detection}
use zero_latency_yolo.Protocol.Serialize.{checksum_of}

-- Goes on with what was read; a read past the end leaves the packet's body as it was.
abbrev pub loaded {ℓ} :
    {A : Type ℓ} → Option (A × List ℕ) → Body → (A → List ℕ → Body × Outcome) → Body × Outcome
loaded none body next = (body, fault)
loaded (some (a, rest)) body next = next a rest

pub record FrameHead : Type 0 where
  pub frame_id : ℕ
  pub timestamp : ℕ
  pub width : ℕ
  pub height : ℕ
  pub keyframe : Bool

unfoldable pub read_frame_head : Reader FrameHead
read_frame_head = do
  frame_id ← get_le 4
  timestamp ← get_le 8
  width ← get_le 2
  height ← get_le 2
  keyframe ← get_le 1
  pure (record {
    frame_id = frame_id;
    timestamp = timestamp;
    width = width;
    height = height;
    keyframe = keyframe == 1;
  })

abbrev with_head : FrameData → FrameHead → FrameData
with_head f h = record f {
  frame_id = h.frame_id;
  timestamp = h.timestamp;
  width = h.width;
  height = h.height;
  keyframe = h.keyframe;
}

-- `deserializeBody` of `FrameDataPacket`; `resize(0)` with no copy is `clear()`.
unfoldable pub parse_frame : FrameData → List ℕ → ℕ → Body × Outcome
parse_frame f bytes size =
    if ltb size 17
    then (frame_data f, err invalid_packet)
    else loaded (read_frame_head bytes) (frame_data f) λ h rest.
      if h.width == 0 || h.height == 0
      then (frame_data (with_head f h), err invalid_packet)
      else loaded (get_bytes (size - 17) rest) (frame_data (with_head f h))
          λ pixels _. (frame_data (record (with_head f h) { pixels = pixels }), ok)

unfoldable pub read_state_head : Reader (ℕ × ℕ × ℕ)
read_state_head = do
  frame_id ← get_le 4
  timestamp ← get_le 8
  count ← get_le 2
  pure (frame_id, timestamp, count)

-- `deserializeBody` of `DetectionResultPacket`.
unfoldable pub parse_state : GameState → List ℕ → ℕ → Body × Outcome
parse_state s bytes size =
    if ltb size 14
    then (detection_result s, err invalid_packet)
    else loaded (read_state_head bytes) (detection_result s) λ head rest.
      let s' : GameState = record s { frame_id = head.0; timestamp = head.1 } in
      if ltb size (14 + head.2 * 40)
      then (detection_result s', err invalid_packet)
      else loaded (get_many head.2 read_detection rest) (detection_result s')
          λ detections _. (detection_result (record s' { detections = detections }), ok)

-- An enum of `width` bytes, a 16-bit length and that many bytes: the bodies of `ErrorPacket` and
-- `CommandPacket`, which `make` builds.
unfoldable pub parse_tagged : (ℕ → List ℕ → Body) → ℕ → ℕ → List ℕ → List ℕ → ℕ → Body × Outcome
parse_tagged make width tag content bytes size =
    if ltb size (width + 2)
    then (make tag content, err invalid_packet)
    else loaded (get_le width bytes) (make tag content) λ tag' rest.
      loaded (get_le 2 rest) (make tag' content) λ count rest'.
        if ltb size (width + 2 + count)
        then (make tag' content, err invalid_packet)
        else loaded (get_bytes count rest') (make tag' content)
            λ content' _. (make tag' content', ok)

-- A body of one fixed size.
unfoldable pub parse_fixed {ℓ} :
    {A : Type ℓ} → (A → Body) → ℕ → Reader A → Body → List ℕ → ℕ → Body × Outcome
parse_fixed make expected read body bytes size =
    if size == expected
    then loaded (read bytes) body (λ a _. (make a, ok))
    else (body, err invalid_packet)

unfoldable pub deserialize_body : Abi → Body → List ℕ → ℕ → Body × Outcome
deserialize_body abi (heartbeat ping) = parse_fixed heartbeat 4 (get_le 4) (heartbeat ping)
deserialize_body abi (client_info i) = parse_fixed client_info 16 read_client_info (client_info i)
deserialize_body abi (server_info i) = parse_fixed server_info 20 read_server_info (server_info i)
deserialize_body abi (frame_data f) = parse_frame f
deserialize_body abi (detection_result s) = parse_state s
deserialize_body abi (error_report code message) =
    parse_tagged error_report abi.error_code_size code message
deserialize_body abi (command type bytes) = parse_tagged command 1 type bytes
deserialize_body abi (acknowledgement n) =
    parse_fixed acknowledgement 4 (get_le 4) (acknowledgement n)

pub record PacketHeader : Type 0 where
  pub magic : ℕ
  pub version : ℕ
  pub type : ℕ
  pub size : ℕ
  pub sequence : ℕ
  pub timestamp : ℕ
  pub checksum : ℕ

unfoldable pub read_header : Reader PacketHeader
read_header = do
  magic ← get_le 4
  version ← get_le 1
  type ← get_le 1
  size ← get_le 2
  sequence ← get_le 4
  timestamp ← get_le 8
  checksum ← get_le 2
  pure (record {
    magic = magic;
    version = version;
    type = type;
    size = size;
    sequence = sequence;
    timestamp = timestamp;
    checksum = checksum;
  })

-- The checksum of a copy whose checksum field is zero.
unfoldable pub recomputed : List ℕ → ℕ
recomputed bytes = checksum_of (write_at 20 (0 ∷ 0 ∷ []) bytes)

-- `PacketHeader::isValid`.
unfoldable pub is_valid_header : PacketHeader → Bool
is_valid_header h = (h.magic == magic_number) && (h.version == version_number)

-- `Packet::deserialize` once the header has been read; `body` is what follows it.
unfoldable pub deserialize_with : Abi → Packet → PacketHeader → List ℕ → List ℕ → Packet × Outcome
deserialize_with abi p h body bytes =
    if not (is_valid_header h)
    then (p, err protocol_error)
    else if not (header_size + h.size == length bytes)
    then (p, err invalid_packet)
    else if not (h.type == packet_type abi p.body)
    then (p, err protocol_error)
    else if not (recomputed bytes == h.checksum)
    then (p, err protocol_error)
    else let (b, outcome) = deserialize_body abi p.body body h.size in
      (record { sequence = h.sequence; timestamp = h.timestamp; body = b }, outcome)

unfoldable pub deserialize : Abi → Packet → List ℕ → Packet × Outcome
deserialize abi p bytes =
    if ltb (length bytes) header_size then (p, err invalid_packet) else elim (read_header bytes) [
      | none ↦ (p, fault)
      | some (h, body) ↦ deserialize_with abi p h body bytes
    ]

-- The part that `FrameDataPacket` adds to `Packet::validate`.
unfoldable pub validate_body : Body → Outcome
validate_body (frame_data f) =
    if f.frame_id == 0
    then err invalid_packet
    else if f.width == 0 || f.height == 0
    then err invalid_packet
    else ok
validate_body _ = ok

unfoldable pub validate : Packet → Outcome
validate p =
    if p.sequence == 0
    then err invalid_packet
    else if p.timestamp == 0
    then err invalid_packet
    else validate_body p.body

-- The object that the switch of `createFromBuffer` makes for a type. C++ leaves the members without
-- a default unset; each is written before a call that succeeds returns, so zeros stand for them.
unfoldable pub blank_body : Abi → ℕ → Option Body
blank_body abi type =
    if type == 0
    then some (heartbeat 0)
    else if type == 1
    then some (client_info no_client)
    else if type == 2
    then some (server_info no_server)
    else if type == 3
    then some (frame_data no_frame)
    else if type == 4
    then some (detection_result no_state)
    else if type == 6
    then some (command 0 [])
    else if type == 5
    then some (error_report 0 [])
    else if type == abi.ack
    then some (acknowledgement 0)
    else none
  where
    no_client : ClientInfo
    no_client = record {
      client_id = 0;
      protocol_version = 0;
      screen_width = 0;
      screen_height = 0;
      game_id = 0;
      padding = 0;
    }

    no_server : ServerInfo
    no_server = record {
      server_id = 0;
      protocol_version = 0;
      model_version = 0;
      max_clients = 0;
      padding = 0;
      max_fps = 0;
      status = 0;
      tail_padding = 0;
    }

    no_frame : FrameData
    no_frame = record {
      frame_id = 0;
      timestamp = 0;
      width = 0;
      height = 0;
      pixels = [];
      keyframe = false;
    }

    no_state : GameState
    no_state = record { frame_id = 0; timestamp = 0; detections = [] }

-- What `createFromBuffer` returns.
pub data Created : Type 0 where
  created : Packet → Created
  failed : ErrorCode → Created
  faulted : Created

unfoldable pub created_from : Packet × Outcome → Created
created_from (p, ok) = created p
created_from (p, err code) = failed code
created_from (p, fault) = faulted

-- The switch and what follows it. The new object takes a sequence number from the generator, which
-- a successful `deserialize` then overwrites.
unfoldable pub create_typed : Abi → ℕ → ℕ → PacketHeader → List ℕ → Created × ℕ
create_typed abi counter now h bytes = elim (blank_body abi h.type) [
  | none ↦ (failed protocol_error, counter)
  | some body ↦
      let (p, counter') = new_packet counter now 0 body in
      (created_from (deserialize abi p bytes), counter')
]

-- `PacketFactory::createFromBuffer`, with the generator's counter before and after.
unfoldable pub create_from_buffer : Abi → ℕ → ℕ → List ℕ → Created × ℕ
create_from_buffer abi counter now bytes =
    if ltb (length bytes) header_size
    then (failed invalid_packet, counter)
    else elim (read_header bytes) [
      | none ↦ (faulted, counter)
      | some (h, body) ↦
          if not (is_valid_header h)
          then (failed protocol_error, counter)
          else create_typed abi counter now h bytes
    ]
