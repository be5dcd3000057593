-- ===== src/Protocol/Structs.antt =====
-- The structs of src/common/types.h that the protocol copies whole, byte for byte.
use zero_latency_yolo.Base.{ℕ, List, [], ◌∷◌}
use zero_latency_yolo.Wire.{le, joined}
use zero_latency_yolo.Wire.Reader.{Reader, ◌>>=◌, pure, get_le}
use zero_latency_yolo.Protocol.{BoundingBox, Detection, ClientInfo, ServerInfo}

unfoldable pub client_info_bytes : ClientInfo → List ℕ
client_info_bytes i = joined (
    le 4 i.client_id
    ∷ le 4 i.protocol_version
    ∷ le 2 i.screen_width
    ∷ le 2 i.screen_height
    ∷ le 1 i.game_id
    ∷ le 3 i.padding
    ∷ [])

unfoldable pub server_info_bytes : ServerInfo → List ℕ
server_info_bytes i = joined (
    le 4 i.server_id
    ∷ le 4 i.protocol_version
    ∷ le 4 i.model_version
    ∷ le 1 i.max_clients
    ∷ le 1 i.padding
    ∷ le 2 i.max_fps
    ∷ le 1 i.status
    ∷ le 3 i.tail_padding
    ∷ [])

unfoldable pub detection_bytes : Detection → List ℕ
detection_bytes d = joined (
    le 4 d.box.x
    ∷ le 4 d.box.y
    ∷ le 4 d.box.width
    ∷ le 4 d.box.height
    ∷ le 4 d.confidence
    ∷ le 4 d.class_id
    ∷ le 4 d.track_id
    ∷ le 4 d.padding
    ∷ le 8 d.timestamp
    ∷ [])

unfoldable pub read_client_info : Reader ClientInfo
read_client_info = do
  client_id ← get_le 4
  protocol_version ← get_le 4
  screen_width ← get_le 2
  screen_height ← get_le 2
  game_id ← get_le 1
  padding ← get_le 3
  pure (record {
    client_id = client_id;
    protocol_version = protocol_version;
    screen_width = screen_width;
    screen_height = screen_height;
    game_id = game_id;
    padding = padding;
  })

unfoldable pub read_server_info : Reader ServerInfo
read_server_info = do
  server_id ← get_le 4
  protocol_version ← get_le 4
  model_version ← get_le 4
  max_clients ← get_le 1
  padding ← get_le 1
  max_fps ← get_le 2
  status ← get_le 1
  tail_padding ← get_le 3
  pure (record {
    server_id = server_id;
    protocol_version = protocol_version;
    model_version = model_version;
    max_clients = max_clients;
    padding = padding;
    max_fps = max_fps;
    status = status;
    tail_padding = tail_padding;
  })

unfoldable pub read_box : Reader BoundingBox
read_box = do
  x ← get_le 4
  y ← get_le 4
  width ← get_le 4
  height ← get_le 4
  pure (record { x = x; y = y; width = width; height = height })

unfoldable pub read_detection : Reader Detection
read_detection = do
  box ← read_box
  confidence ← get_le 4
  class_id ← get_le 4
  track_id ← get_le 4
  padding ← get_le 4
  timestamp ← get_le 8
  pure (record {
    box = box;
    confidence = confidence;
    class_id = class_id;
    track_id = track_id;
    padding = padding;
    timestamp = timestamp;
  })
