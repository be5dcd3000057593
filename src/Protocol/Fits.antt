-- ===== src/Protocol/Fits.antt =====
-- The values that the members of a packet can hold, by their C++ types, and the sizes of the
-- printed structs.
use zero_latency_yolo.Base.{
  ℕ, ◌+◌, ◌*◌, ◌%◌, ◌^◌, ◌<◌, ◌≡◌, refl, List, [], ◌∷◌, map, length, length-append, All, arith,
}
use zero_latency_yolo.Wire.{le, joined}
use zero_latency_yolo.Wire.Laws.{length-le}
use zero_latency_yolo.Protocol.{
  Abi, Detection, FrameData, GameState, ClientInfo, ServerInfo, Body, Packet, heartbeat,
  client_info, server_info, frame_data, detection_result, error_report, command, acknowledgement,
}
use zero_latency_yolo.Protocol.Structs.{client_info_bytes, server_info_bytes, detection_bytes}
use zero_latency_yolo.Protocol.Serialize.{body_fields, body_size}

pub record FitsClient (i : ClientInfo) : Type 0 where
  pub client_id : i.client_id < 2 ^ 32
  pub protocol_version : i.protocol_version < 2 ^ 32
  pub screen_width : i.screen_width < 2 ^ 16
  pub screen_height : i.screen_height < 2 ^ 16
  pub game_id : i.game_id < 2 ^ 8
  pub padding : i.padding < 2 ^ 24

pub record FitsServer (i : ServerInfo) : Type 0 where
  pub server_id : i.server_id < 2 ^ 32
  pub protocol_version : i.protocol_version < 2 ^ 32
  pub model_version : i.model_version < 2 ^ 32
  pub max_clients : i.max_clients < 2 ^ 8
  pub padding : i.padding < 2 ^ 8
  pub max_fps : i.max_fps < 2 ^ 16
  pub status : i.status < 2 ^ 8
  pub tail_padding : i.tail_padding < 2 ^ 24

pub record FitsDetection (d : Detection) : Type 0 where
  pub x : d.box.x < 2 ^ 32
  pub y : d.box.y < 2 ^ 32
  pub width : d.box.width < 2 ^ 32
  pub height : d.box.height < 2 ^ 32
  pub confidence : d.confidence < 2 ^ 32
  pub class_id : d.class_id < 2 ^ 32
  pub track_id : d.track_id < 2 ^ 32
  pub padding : d.padding < 2 ^ 32
  pub timestamp : d.timestamp < 2 ^ 64

-- A frame must have pixels to show: a zero width or height is refused on arrival.
pub record FitsFrame (f : FrameData) : Type 0 where
  pub frame_id : f.frame_id < 2 ^ 32
  pub timestamp : f.timestamp < 2 ^ 64
  pub width : f.width < 2 ^ 16
  pub height : f.height < 2 ^ 16
  pub wide : 0 < f.width
  pub high : 0 < f.height

pub record FitsState (s : GameState) : Type 0 where
  pub frame_id : s.frame_id < 2 ^ 32
  pub timestamp : s.timestamp < 2 ^ 64
  pub detections : All FitsDetection s.detections

abbrev pub FitsBody : Abi → Body → Type 0
FitsBody abi (heartbeat ping) = ping < 2 ^ 32
FitsBody abi (client_info i) = FitsClient i
FitsBody abi (server_info i) = FitsServer i
FitsBody abi (frame_data f) = FitsFrame f
FitsBody abi (detection_result s) = FitsState s
FitsBody abi (error_report code message) = code < 256 ^ abi.error_code_size
FitsBody abi (command type bytes) = type < 2 ^ 8
FitsBody abi (acknowledgement sequence) = sequence < 2 ^ 32

-- The 16-bit `length` of the header can hold the size of the body.
pub record Fits (abi : Abi) (p : Packet) : Type 0 where
  pub sequence : p.sequence < 2 ^ 32
  pub timestamp : p.timestamp < 2 ^ 64
  pub body : FitsBody abi p.body
  pub size : body_size abi p.body < 2 ^ 16

length-joined_cons :
    (f : List ℕ) (fs : List (List ℕ)) → length (joined (f ∷ fs)) ≡ length f + length (joined fs)
length-joined_cons f fs = length-append f (joined fs)

length-client_info_bytes : (i : ClientInfo) → length (client_info_bytes i) ≡ 16
unfolding client_info_bytes le
length-client_info_bytes i = refl

length-server_info_bytes : (i : ServerInfo) → length (server_info_bytes i) ≡ 20
unfolding server_info_bytes le
length-server_info_bytes i = refl

length-detection_bytes : (d : Detection) → length (detection_bytes d) ≡ 40
unfolding detection_bytes le
length-detection_bytes d = refl

length-detections :
    (ds : List Detection) → length (joined (map detection_bytes ds)) ≡ length ds * 40
length-detections [] = omega arith
length-detections (d ∷ ds) = omega (
  arith,
  length-append (detection_bytes d) (joined (map detection_bytes ds)),
  length-detection_bytes d,
  length-detections ds,
)

-- Every body fills exactly the room that its `serializeBody` makes.
pub length-body_fields :
    (abi : Abi) (b : Body) → length (joined (body_fields abi b)) ≡ body_size abi b
unfolding body_fields body_size
length-body_fields abi (heartbeat ping) = unfold le in refl
length-body_fields abi (client_info i) =
    omega (arith, length-append (client_info_bytes i) [], length-client_info_bytes i)
length-body_fields abi (server_info i) =
    omega (arith, length-append (server_info_bytes i) [], length-server_info_bytes i)
length-body_fields abi (frame_data f) = unfold le in omega (arith, length-append f.pixels [])
length-body_fields abi (detection_result s) =
    unfold le in omega (arith, length-detections s.detections)
length-body_fields abi (error_report code message) =
    unfold le in
    omega (
      arith,
      length-append (le abi.error_code_size code)
          (joined (le 2 (length message % 2 ^ 16) ∷ message ∷ [])),
      length-append message [],
      length-le abi.error_code_size code,
    )
length-body_fields abi (command type bytes) = unfold le in omega (arith, length-append bytes [])
length-body_fields abi (acknowledgement n) = unfold le in refl
