-- ===== src/ServerConfig/Client.antt =====
-- `ClientConfig` of src/server/config.h as JSON.
use Prim.Native.String.{String}
use zero_latency_yolo.Base.{◌^◌, ◌<◌, ◌≡◌, refl, List, [], ◌∷◌, Option, some}
use zero_latency_yolo.Base.Maybe.{◌>>=◌}
use zero_latency_yolo.ServerConfig.Json.{Json, IsJson, read, assign_all, read-assign_all}
use zero_latency_yolo.ClientConfig.{ClientConfig}
use zero_latency_yolo.ServerConfig.Compression
use zero_latency_yolo.ServerConfig.Prediction

-- The members that `to_json` writes at once, and those that it assigns then.
abbrev pub members : (j : Json) → ClientConfig → List (String × j.Value)
members j c =
    ("server_ip", j.of_text c.server_ip)
    ∷ ("server_port", j.of_unsigned c.server_port)
    ∷ ("game_id", j.of_unsigned c.game_id)
    ∷ ("target_fps", j.of_unsigned c.target_fps)
    ∷ ("screen_width", j.of_unsigned c.screen_width)
    ∷ ("screen_height", j.of_unsigned c.screen_height)
    ∷ ("auto_connect", j.of_bool c.auto_connect)
    ∷ ("auto_start", j.of_bool c.auto_start)
    ∷ ("enable_aim_assist", j.of_bool c.enable_aim_assist)
    ∷ ("enable_esp", j.of_bool c.enable_esp)
    ∷ ("enable_recoil_control", j.of_bool c.enable_recoil_control)
    ∷ ("use_high_priority", j.of_bool c.use_high_priority)
    ∷ []

abbrev pub parts : (j : Json) → ClientConfig → List (String × j.Value)
parts j c =
    ("compression", Compression.to_json j c.compression)
    ∷ ("prediction", Prediction.to_json j c.prediction)
    ∷ []

-- `to_json`.
unfoldable pub to_json : (j : Json) → ClientConfig → j.Value
to_json j c = assign_all j (j.object (members j c)) (parts j c)

-- `from_json`.
unfoldable pub from_json : (j : Json) → ClientConfig → j.Value → Option ClientConfig
from_json j c v = do
  server_ip ← read j j.to_text v "server_ip" c.server_ip
  server_port ← read j (j.to_unsigned 16) v "server_port" c.server_port
  game_id ← read j (j.to_unsigned 8) v "game_id" c.game_id
  target_fps ← read j (j.to_unsigned 32) v "target_fps" c.target_fps
  screen_width ← read j (j.to_unsigned 16) v "screen_width" c.screen_width
  screen_height ← read j (j.to_unsigned 16) v "screen_height" c.screen_height
  auto_connect ← read j j.to_bool v "auto_connect" c.auto_connect
  auto_start ← read j j.to_bool v "auto_start" c.auto_start
  enable_aim_assist ← read j j.to_bool v "enable_aim_assist" c.enable_aim_assist
  enable_esp ← read j j.to_bool v "enable_esp" c.enable_esp
  enable_recoil_control ← read j j.to_bool v "enable_recoil_control" c.enable_recoil_control
  use_high_priority ← read j j.to_bool v "use_high_priority" c.use_high_priority
  compression ← read j (Compression.from_json j c.compression) v "compression" c.compression
  prediction ← read j (Prediction.from_json j c.prediction) v "prediction" c.prediction
  some (record {
    server_ip = server_ip;
    server_port = server_port;
    game_id = game_id;
    target_fps = target_fps;
    screen_width = screen_width;
    screen_height = screen_height;
    auto_connect = auto_connect;
    auto_start = auto_start;
    enable_aim_assist = enable_aim_assist;
    enable_esp = enable_esp;
    enable_recoil_control = enable_recoil_control;
    use_high_priority = use_high_priority;
    compression = compression;
    prediction = prediction;
  })

-- The numbers fit their types.
pub record Fits (c : ClientConfig) : Type 0 where
  pub server_port : c.server_port < 2 ^ 16
  pub game_id : c.game_id < 2 ^ 8
  pub target_fps : c.target_fps < 2 ^ 32
  pub screen_width : c.screen_width < 2 ^ 16
  pub screen_height : c.screen_height < 2 ^ 16
  pub compression : Compression.Fits c.compression
  pub prediction : Prediction.Fits c.prediction

-- What to_json writes is read back whole, whatever there was before.
pub from_json-to_json :
    (j : Json) (laws : IsJson j) (c old : ClientConfig)
    → Fits c
    → from_json j old (to_json j c) ≡ some c
unfolding from_json to_json
from_json-to_json j laws c old h =
    let ms = members j c in
    let ps = parts j c in
    rw
      (
        read-assign_all j j.to_text laws ms ps "server_ip" old.server_ip c.server_ip _ refl refl
            refl (laws.text c.server_ip),
        read-assign_all j (j.to_unsigned 16) laws ms ps "server_port" old.server_port c.server_port
            _ refl refl refl (laws.unsigned 16 c.server_port h.server_port),
        read-assign_all j (j.to_unsigned 8) laws ms ps "game_id" old.game_id c.game_id _ refl refl
            refl (laws.unsigned 8 c.game_id h.game_id),
        read-assign_all j (j.to_unsigned 32) laws ms ps "target_fps" old.target_fps c.target_fps _
            refl refl refl (laws.unsigned 32 c.target_fps h.target_fps),
        read-assign_all j (j.to_unsigned 16) laws ms ps "screen_width" old.screen_width
            c.screen_width _ refl refl refl (laws.unsigned 16 c.screen_width h.screen_width),
        read-assign_all j (j.to_unsigned 16) laws ms ps "screen_height" old.screen_height
            c.screen_height _ refl refl refl (laws.unsigned 16 c.screen_height h.screen_height),
        read-assign_all j j.to_bool laws ms ps "auto_connect" old.auto_connect c.auto_connect _ refl
            refl refl (laws.bool c.auto_connect),
        read-assign_all j j.to_bool laws ms ps "auto_start" old.auto_start c.auto_start _ refl refl
            refl (laws.bool c.auto_start),
        read-assign_all j j.to_bool laws ms ps "enable_aim_assist" old.enable_aim_assist
            c.enable_aim_assist _ refl refl refl (laws.bool c.enable_aim_assist),
        read-assign_all j j.to_bool laws ms ps "enable_esp" old.enable_esp c.enable_esp _ refl refl
            refl (laws.bool c.enable_esp),
        read-assign_all j j.to_bool laws ms ps "enable_recoil_control" old.enable_recoil_control
            c.enable_recoil_control _ refl refl refl (laws.bool c.enable_recoil_control),
        read-assign_all j j.to_bool laws ms ps "use_high_priority" old.use_high_priority
            c.use_high_priority _ refl refl refl (laws.bool c.use_high_priority),
        read-assign_all j (Compression.from_json j old.compression) laws ms ps "compression"
            old.compression c.compression _ refl refl refl
            (Compression.from_json-to_json j laws c.compression old.compression h.compression),
        read-assign_all j (Prediction.from_json j old.prediction) laws ms ps "prediction"
            old.prediction c.prediction _ refl refl refl
            (Prediction.from_json-to_json j laws c.prediction old.prediction h.prediction),
      )
      refl
