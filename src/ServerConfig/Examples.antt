-- ===== src/ServerConfig/Examples.antt =====
-- The theorems on the configurations of src/server/config.h as JSON, at concrete inputs.
mod Values
use Prim.Native.String.{String}
use text.Mathlib.Text.{◌==◌ as str_eq}
use text.Mathlib.TextEquality.{eq_iff}
use zero_latency_yolo.Base.{
  All, ℕ, ◌≡◌, refl, Bool, true, false, List, [], ◌∷◌, ◌++◌, Option, none, some, arith, ap, subst,
  if◌then◌else◌, Bool-cases, inl, inr,
}
use zero_latency_yolo.ClientConfig.{ClientConfig, default_config, bytes}
use zero_latency_yolo.Game.Weapons.{GameConfig}
use zero_latency_yolo.ServerConfig.Json.{
  Json, IsJson, IsNumber, find_key, has_key, distinct, assign_all,
}
use zero_latency_yolo.ServerConfig.Examples.Values.{flag, small, small-IsJson}
use zero_latency_yolo.ServerConfig.Client
use zero_latency_yolo.ServerConfig.Compression
use zero_latency_yolo.ServerConfig.Prediction
use zero_latency_yolo.ServerConfig.Network
use zero_latency_yolo.ServerConfig.Logging
use zero_latency_yolo.ServerConfig.Detecting
use zero_latency_yolo.ServerConfig.Analytics
use zero_latency_yolo.ServerConfig.Server
use zero_latency_yolo.ServerConfig.Server.{ServerConfig, default_server, default_worker_threads}
use zero_latency_yolo.ServerConfig.Adapters.{
  default_games, default_game, games_json, game_json, weapon_json, entries,
}
use zero_latency_yolo.ServerConfig.Games.{IsGame, AreGames, IsRestored}
use zero_latency_yolo.ServerConfig.Manager.{
  save_client, load_client, writable, unwritable, readable, ok, server_settings, export_config,
  import_config, load_client-save_client, import_config-export_config,
}

abbrev elsewhere : ClientConfig
elsewhere = record default_config { server_port = 9000; auto_start = true }

abbrev library : Json
library = small (Client.to_json (small (flag true)) elsewhere)

elsewhere-Fits : Client.Fits elsewhere
elsewhere-Fits = record {
  server_port = omega arith;
  game_id = omega arith;
  target_fps = omega arith;
  screen_width = omega arith;
  screen_height = omega arith;
  compression = record {
    quality = omega arith;
    keyframe_interval = omega arith;
    roi_padding = omega arith;
  };
  prediction = record {
    max_prediction_time = (omega arith, omega arith);
    position_uncertainty = (omega arith, omega arith);
    velocity_uncertainty = (omega arith, omega arith);
    acceleration_uncertainty = (omega arith, omega arith);
    min_confidence_threshold = (omega arith, omega arith);
  };
}

library-Printing : library.extract (bytes "{}" ++ 10 ∷ []) ≡ some (Client.to_json library elsewhere)
unfolding Client.to_json assign_all Compression.to_json Prediction.to_json
library-Printing = refl

load_client-save_client_example :
    (save_client library elsewhere writable ≡ (ok tt, some (bytes "{}" ++ 10 ∷ [])))
    × (load_client library (readable (bytes "{}" ++ 10 ∷ [])) unwritable ≡ (ok elsewhere, none))
load_client-save_client_example =
    load_client-save_client library (small-IsJson (Client.to_json (small (flag true)) elsewhere))
      elsewhere (bytes "{}") unwritable elsewhere-Fits refl library-Printing

abbrev another_game : GameConfig
another_game = record default_game {
  weapons = ("ak47", record { recoil_factor = 1075838976; priority = 1065353216 }) ∷ [];
}

abbrev arena : ServerConfig
arena = record (default_server 4) { game_adapters = ("cs2", another_game) ∷ [] }

abbrev arena_library : Json
arena_library = small (Server.to_json (small (flag true)) arena)

-- What holds of every entry holds of each that is found.
All-find_key {ℓ} :
    {V : Type ℓ} (P : V → Type 0) (table : List (String × V)) (wanted : String) (b : V)
    → All (λ e. P e.1) table
    → find_key wanted table ≡ some b
    → P b
All-find_key P [] wanted b h found = let no : ⊥ = ground (arith, found) in elim no [ ]
All-find_key P ((key, a) ∷ table) wanted b h found = elim (Bool-cases (str_eq key wanted)) [
  | inl hit ↦ subst P (ground (arith, hit, found)) h.0
  | inr miss ↦ All-find_key P table wanted b h.1 (ground (arith, miss, found))
]

arena-Fits : Server.Fits arena
unfolding default_server default_worker_threads
arena-Fits = record {
  max_clients = omega arith;
  target_fps = omega arith;
  confidence_threshold = (omega arith, omega arith);
  nms_threshold = (omega arith, omega arith);
  max_queue_size = omega arith;
  cpu_core_id = omega arith;
  worker_threads = omega arith;
  network = record {
    port = omega arith;
    web_port = omega arith;
    recv_buffer_size = omega arith;
    send_buffer_size = omega arith;
    timeout_ms = omega arith;
    heartbeat_interval_ms = omega arith;
    max_retries = omega arith;
  };
  logging = record { max_log_size_mb = omega arith; max_log_files = omega arith };
  detection = record {
    model_width = omega arith;
    model_height = omega arith;
    max_tracking_age_ms = omega arith;
    once = refl;
    numbers = λ key x found.
        All-find_key IsNumber (Detecting.defaults.class_weights) key x
          (
            (omega arith, omega arith),
            (
              (omega arith, omega arith),
              ((omega arith, omega arith), ((omega arith, omega arith), tt)),
            ),
          )
          found;
  };
  analytics = record { stats_interval_sec = omega arith };
}

another_game-IsGame : IsGame another_game
another_game-IsGame = record {
  aim_target_offset_y = (omega arith, omega arith);
  head_size_factor = (omega arith, omega arith);
  weapons = record {
    once = refl;
    numbers = λ name w found.
        All-find_key (λ x. IsNumber x.recoil_factor × IsNumber x.priority) another_game.weapons name
          w (((omega arith, omega arith), (omega arith, omega arith)), tt) found;
  };
}

arena-AreGames : AreGames (("cs2", another_game) ∷ [])
arena-AreGames = record {
  once = refl;
  each = λ name g found.
      All-find_key IsGame arena.game_adapters name g (another_game-IsGame, tt) found;
}

arena_library-Parsing : arena_library.parse (bytes "{}") ≡ some (Server.to_json arena_library arena)
unfolding Server.to_json assign_all Network.to_json Logging.to_json Detecting.to_json
    Analytics.to_json games_json game_json weapon_json entries
arena_library-Parsing = refl

import_config-export_config_example :
    (export_config arena_library (server_settings arena_library 4) arena ≡ ok (bytes "{}"))
    × (games : List (String × GameConfig)) × (weights : List (String × ℕ)) × (import_config
          arena_library
          (server_settings arena_library 4)
          (bytes "{}")
        ≡ ok (record arena {
          detection = record (arena.detection) { class_weights = weights };
          game_adapters = games;
        }))
    × ((key : String) → find_key key weights ≡ find_key key arena.detection.class_weights)
    × ((name : String)
        → IsRestored
            (find_key name (("cs2", another_game) ∷ []))
            (find_key name default_games)
            (find_key name games))
import_config-export_config_example =
    import_config-export_config arena_library
      (small-IsJson (Server.to_json (small (flag true)) arena)) 4 arena (bytes "{}") arena-Fits
      arena-AreGames refl arena_library-Parsing
