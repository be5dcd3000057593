-- ===== src/ServerConfig/Server.antt =====
-- `ServerConfig` of src/server/config.h as JSON.
use Prim.Native.String.{String}
use zero_latency_yolo.Base.{
  ℕ, ◌^◌, ◌<◌, ◌≡◌, refl, ltb, u8, if◌then◌else◌, Bool, true, List, [], ◌∷◌, Option, some,
}
use zero_latency_yolo.Base.Maybe.{◌>>=◌}
use zero_latency_yolo.ServerConfig.Json.{
  Json, IsJson, IsNumber, find_key, read, assign_all, read-assign_all,
}
use zero_latency_yolo.ClientConfig.{bytes}
use zero_latency_yolo.Game.Weapons.{GameConfig}
use zero_latency_yolo.ServerConfig.Network
use zero_latency_yolo.ServerConfig.Network.{NetworkConfig}
use zero_latency_yolo.ServerConfig.Logging
use zero_latency_yolo.ServerConfig.Logging.{LoggingConfig}
use zero_latency_yolo.ServerConfig.Detecting
use zero_latency_yolo.ServerConfig.Detecting.{DetectionConfig}
use zero_latency_yolo.ServerConfig.Analytics
use zero_latency_yolo.ServerConfig.Analytics.{AnalyticsConfig}
use zero_latency_yolo.ServerConfig.Adapters.{default_games, games_json, read_games}

pub record ServerConfig : Type 0 where
  pub model_path : List ℕ
  pub inference_engine : List ℕ
  pub max_clients : ℕ
  pub target_fps : ℕ
  pub confidence_threshold : ℕ
  pub nms_threshold : ℕ
  pub max_queue_size : ℕ
  pub use_cpu_affinity : Bool
  pub cpu_core_id : ℕ
  pub use_high_priority : Bool
  pub worker_threads : ℕ
  pub network : NetworkConfig
  pub logging : LoggingConfig
  pub detection : DetectionConfig
  pub game_adapters : List (String × GameConfig)
  pub analytics : AnalyticsConfig

-- The number of worker threads for a number of processors, which a `uint8_t` takes first.
unfoldable pub default_worker_threads : ℕ → ℕ
default_worker_threads processors =
    if ltb 16 (u8 processors) then 16 else if ltb (u8 processors) 1 then 1 else u8 processors

-- The default constructor, with thresholds of 0.5 and 0.45.
unfoldable pub default_server : ℕ → ServerConfig
default_server processors = record {
  model_path = bytes "models/yolo_nano_cs16.onnx";
  inference_engine = bytes "onnx";
  max_clients = 10;
  target_fps = 60;
  confidence_threshold = 1056964608;
  nms_threshold = 1055286886;
  max_queue_size = 8;
  use_cpu_affinity = true;
  cpu_core_id = 0;
  use_high_priority = true;
  worker_threads = default_worker_threads processors;
  network = Network.defaults;
  logging = Logging.defaults;
  detection = Detecting.defaults;
  game_adapters = default_games;
  analytics = Analytics.defaults;
}

-- The members that `to_json` writes at once, and those that it assigns then.
abbrev pub members : (j : Json) → ServerConfig → List (String × j.Value)
members j c =
    ("model_path", j.of_text c.model_path)
    ∷ ("inference_engine", j.of_text c.inference_engine)
    ∷ ("port", j.of_unsigned c.network.port)
    ∷ ("web_port", j.of_unsigned c.network.web_port)
    ∷ ("max_clients", j.of_unsigned c.max_clients)
    ∷ ("target_fps", j.of_unsigned c.target_fps)
    ∷ ("confidence_threshold", j.of_float c.confidence_threshold)
    ∷ ("nms_threshold", j.of_float c.nms_threshold)
    ∷ ("max_queue_size", j.of_unsigned c.max_queue_size)
    ∷ ("use_cpu_affinity", j.of_bool c.use_cpu_affinity)
    ∷ ("cpu_core_id", j.of_int c.cpu_core_id)
    ∷ ("use_high_priority", j.of_bool c.use_high_priority)
    ∷ ("worker_threads", j.of_unsigned c.worker_threads)
    ∷ []

abbrev pub parts : (j : Json) → ServerConfig → List (String × j.Value)
parts j c =
    ("network", Network.to_json j c.network)
    ∷ ("logging", Logging.to_json j c.logging)
    ∷ ("detection", Detecting.to_json j c.detection)
    ∷ ("game_adapters", games_json j c.game_adapters)
    ∷ ("analytics", Analytics.to_json j c.analytics)
    ∷ []

-- `to_json`.
unfoldable pub to_json : (j : Json) → ServerConfig → j.Value
to_json j c = assign_all j (j.object (members j c)) (parts j c)

-- `from_json`. The port is read twice, and the one under "network" counts.
unfoldable pub from_json : (j : Json) → ServerConfig → j.Value → Option ServerConfig
from_json j c v = do
  model_path ← read j j.to_text v "model_path" c.model_path
  inference_engine ← read j j.to_text v "inference_engine" c.inference_engine
  port ← read j (j.to_unsigned 16) v "port" c.network.port
  web_port ← read j (j.to_unsigned 16) v "web_port" c.network.web_port
  max_clients ← read j (j.to_unsigned 8) v "max_clients" c.max_clients
  target_fps ← read j (j.to_unsigned 32) v "target_fps" c.target_fps
  confidence_threshold ← read j j.to_float v "confidence_threshold" c.confidence_threshold
  nms_threshold ← read j j.to_float v "nms_threshold" c.nms_threshold
  max_queue_size ← read j (j.to_unsigned 64) v "max_queue_size" c.max_queue_size
  use_cpu_affinity ← read j j.to_bool v "use_cpu_affinity" c.use_cpu_affinity
  cpu_core_id ← read j j.to_int v "cpu_core_id" c.cpu_core_id
  use_high_priority ← read j j.to_bool v "use_high_priority" c.use_high_priority
  worker_threads ← read j (j.to_unsigned 8) v "worker_threads" c.worker_threads
  let ports = record (c.network) { port = port; web_port = web_port }
  network ← read j (Network.from_json j ports) v "network" ports
  logging ← read j (Logging.from_json j c.logging) v "logging" c.logging
  detection ← read j (Detecting.from_json j c.detection) v "detection" c.detection
  game_adapters ← read j (read_games j c.game_adapters) v "game_adapters" c.game_adapters
  analytics ← read j (Analytics.from_json j c.analytics) v "analytics" c.analytics
  some (record {
    model_path = model_path;
    inference_engine = inference_engine;
    max_clients = max_clients;
    target_fps = target_fps;
    confidence_threshold = confidence_threshold;
    nms_threshold = nms_threshold;
    max_queue_size = max_queue_size;
    use_cpu_affinity = use_cpu_affinity;
    cpu_core_id = cpu_core_id;
    use_high_priority = use_high_priority;
    worker_threads = worker_threads;
    network = network;
    logging = logging;
    detection = detection;
    game_adapters = game_adapters;
    analytics = analytics;
  })

-- The numbers fit their types, and no `float` is NaN.
pub record Fits (c : ServerConfig) : Type 0 where
  pub max_clients : c.max_clients < 2 ^ 8
  pub target_fps : c.target_fps < 2 ^ 32
  pub confidence_threshold : IsNumber c.confidence_threshold
  pub nms_threshold : IsNumber c.nms_threshold
  pub max_queue_size : c.max_queue_size < 2 ^ 64
  pub cpu_core_id : c.cpu_core_id < 2 ^ 32
  pub worker_threads : c.worker_threads < 2 ^ 8
  pub network : Network.Fits c.network
  pub logging : Logging.Fits c.logging
  pub detection : Detecting.Fits c.detection
  pub analytics : Analytics.Fits c.analytics

-- What to_json writes is read back whole, whatever there was before, with the same weight for each
-- class, and with those game adapters that the JSON of the game adapters gives.
pub from_json-to_json :
    (j : Json) (laws : IsJson j) (c old : ServerConfig) (games : List (String × GameConfig))
    → Fits c
    → read_games j old.game_adapters (games_json j c.game_adapters) ≡ some games
    → (weights : List (String × ℕ)) × (from_json j old (to_json j c)
        ≡ some (record c {
          detection = record (c.detection) { class_weights = weights };
          game_adapters = games;
        }))
      × ((key : String) → find_key key weights ≡ find_key key c.detection.class_weights)
unfolding from_json to_json
from_json-to_json j laws c old games h given =
    let ms = members j c in
    let ps = parts j c in
    let ports = record (old.network) { port = c.network.port; web_port = c.network.web_port } in
    let (weights, back, same) =
      Detecting.from_json-to_json j laws c.detection old.detection h.detection in
    (
      weights,
      (rw
          (
            read-assign_all j j.to_text laws ms ps "model_path" old.model_path c.model_path _ refl
                refl refl (laws.text c.model_path),
            read-assign_all j j.to_text laws ms ps "inference_engine" old.inference_engine
                c.inference_engine _ refl refl refl (laws.text c.inference_engine),
            read-assign_all j (j.to_unsigned 16) laws ms ps "port" old.network.port c.network.port _
                refl refl refl (laws.unsigned 16 c.network.port h.network.port),
            read-assign_all j (j.to_unsigned 16) laws ms ps "web_port" old.network.web_port
                c.network.web_port _ refl refl refl
                (laws.unsigned 16 c.network.web_port h.network.web_port),
            read-assign_all j (j.to_unsigned 8) laws ms ps "max_clients" old.max_clients
                c.max_clients _ refl refl refl (laws.unsigned 8 c.max_clients h.max_clients),
            read-assign_all j (j.to_unsigned 32) laws ms ps "target_fps" old.target_fps c.target_fps
                _ refl refl refl (laws.unsigned 32 c.target_fps h.target_fps),
            read-assign_all j j.to_float laws ms ps "confidence_threshold" old.confidence_threshold
                c.confidence_threshold _ refl refl refl
                (laws.float c.confidence_threshold h.confidence_threshold),
            read-assign_all j j.to_float laws ms ps "nms_threshold" old.nms_threshold
                c.nms_threshold _ refl refl refl (laws.float c.nms_threshold h.nms_threshold),
            read-assign_all j (j.to_unsigned 64) laws ms ps "max_queue_size" old.max_queue_size
                c.max_queue_size _ refl refl refl
                (laws.unsigned 64 c.max_queue_size h.max_queue_size),
            read-assign_all j j.to_bool laws ms ps "use_cpu_affinity" old.use_cpu_affinity
                c.use_cpu_affinity _ refl refl refl (laws.bool c.use_cpu_affinity),
            read-assign_all j j.to_int laws ms ps "cpu_core_id" old.cpu_core_id c.cpu_core_id _ refl
                refl refl (laws.int c.cpu_core_id h.cpu_core_id),
            read-assign_all j j.to_bool laws ms ps "use_high_priority" old.use_high_priority
                c.use_high_priority _ refl refl refl (laws.bool c.use_high_priority),
            read-assign_all j (j.to_unsigned 8) laws ms ps "worker_threads" old.worker_threads
                c.worker_threads _ refl refl refl
                (laws.unsigned 8 c.worker_threads h.worker_threads),
            read-assign_all j (Network.from_json j ports) laws ms ps "network" ports c.network _
                refl refl refl (Network.from_json-to_json j laws c.network ports h.network),
            read-assign_all j (Logging.from_json j old.logging) laws ms ps "logging" old.logging
                c.logging _ refl refl refl
                (Logging.from_json-to_json j laws c.logging old.logging h.logging),
            read-assign_all j (Detecting.from_json j old.detection) laws ms ps "detection"
                old.detection (record (c.detection) { class_weights = weights }) _ refl refl refl
                back,
            read-assign_all j (read_games j old.game_adapters) laws ms ps "game_adapters"
                old.game_adapters games _ refl refl refl given,
            read-assign_all j (Analytics.from_json j old.analytics) laws ms ps "analytics"
                old.analytics c.analytics _ refl refl refl
                (Analytics.from_json-to_json j laws c.analytics old.analytics h.analytics),
          )
          refl),
      same,
    )
