-- ===== src/ServerConfig/Manager.antt =====
-- `ConfigManager` of src/server/config.h: loading, saving, exporting and importing of a configuration.
-- The four methods on files are two pairs that differ in the type of the configuration only. What
-- the file system answers is an argument; the log is left out.
use Prim.Native.String.{String}
use zero_latency_yolo.Base.{
  ℕ, ◌≡◌, ap, ◌∙◌, Bool, true, false, List, [], ◌∷◌, ◌++◌, Option, none, some,
}
use zero_latency_yolo.ClientConfig.{ClientConfig, default_config}
use zero_latency_yolo.ServerConfig.Json.{Json, IsJson, find_key}
use zero_latency_yolo.ServerConfig.Server
use zero_latency_yolo.ServerConfig.Server.{ServerConfig, default_server}
use zero_latency_yolo.ServerConfig.Client
use zero_latency_yolo.Game.Weapons.{GameConfig}
use zero_latency_yolo.ServerConfig.Adapters.{default_games}
use zero_latency_yolo.ServerConfig.Games.{AreGames, IsRestored, read_games-games_json}

-- The codes of `ErrorCode` that the manager gives.
pub data ConfigError : Type 0 where
  file_access_denied config_error config_parse_error : ConfigError

pub data Loaded (A : Type 0) : Type 0 where
  ok : A → Loaded A
  error : ConfigError → Loaded A

-- What a file that is to be read turns out to be; `unsearchable` is an exception of the file system.
pub data Reading : Type 0 where
  missing unsearchable unreadable : Reading
  readable : List ℕ → Reading

-- What comes of opening a file to write it; `uncreatable` is an exception of the file system.
pub data Writing : Type 0 where
  uncreatable unwritable writable : Writing

-- A type of configuration: its default constructor, `to_json` and `from_json`.
pub record Settings (j : Json) (C : Type 0) : Type 0 where
  pub defaults : C
  pub to_json : C → j.Value
  pub from_json : C → j.Value → Option C

abbrev pub client_settings : (j : Json) → Settings j ClientConfig
client_settings j = record {
  defaults = default_config;
  to_json = Client.to_json j;
  from_json = Client.from_json j;
}

abbrev pub server_settings : (j : Json) → ℕ → Settings j ServerConfig
server_settings j processors = record {
  defaults = default_server processors;
  to_json = Server.to_json j;
  from_json = Server.from_json j;
}

-- What has been printed, and the result: an exception of the library stops the printing where it is.
unfoldable pub printed : List ℕ × Bool → Loaded Unit × Option (List ℕ)
printed (text, true) = (ok tt, some (text ++ 10 ∷ []))
printed (text, false) = (error config_error, some text)

unfoldable pub exported : List ℕ × Bool → Loaded (List ℕ)
exported (text, true) = ok text
exported (text, false) = error config_error

-- A configuration that was read, or an exception of the library.
unfoldable pub parsed : {C : Type 0} → Option C → Loaded C
parsed none = error config_parse_error
parsed (some c) = ok c

-- What saves a configuration of either type: the result, and what is written to the file if it is
-- opened.
unfoldable pub save_config :
    (j : Json) {C : Type 0} → Settings j C → C → Writing → Loaded Unit × Option (List ℕ)
save_config j s c uncreatable = (error config_error, none)
save_config j s c unwritable = (error file_access_denied, none)
save_config j s c writable = printed (j.dump (s.to_json c))

-- A value is read over the defaults.
unfoldable pub of_value : (j : Json) {C : Type 0} → Settings j C → Option j.Value → Option C
of_value j s none = none
of_value j s (some v) = s.from_json s.defaults v

-- What loads a configuration of either type: the result, and what is written to the file. A file
-- that is missing is written with the defaults, whether that succeeds or not.
unfoldable pub load_config :
    (j : Json) {C : Type 0} → Settings j C → Reading → Writing → Loaded C × Option (List ℕ)
load_config j s missing w = (ok s.defaults, (save_config j s s.defaults w).1)
load_config j s unsearchable w = (error config_error, none)
load_config j s unreadable w = (error file_access_denied, none)
load_config j s (readable text) w = (parsed (of_value j s (j.extract text)), none)

-- `saveClientConfig` and `loadClientConfig`.
unfoldable pub save_client : (j : Json) → ClientConfig → Writing → Loaded Unit × Option (List ℕ)
save_client j = save_config j (client_settings j)

unfoldable pub load_client : (j : Json) → Reading → Writing → Loaded ClientConfig × Option (List ℕ)
load_client j = load_config j (client_settings j)

-- `saveServerConfig` and `loadServerConfig`.
unfoldable pub save_server : (j : Json) → ℕ → ServerConfig → Writing → Loaded Unit × Option (List ℕ)
save_server j processors = save_config j (server_settings j processors)

unfoldable pub load_server :
    (j : Json) → ℕ → Reading → Writing → Loaded ServerConfig × Option (List ℕ)
load_server j processors = load_config j (server_settings j processors)

-- `exportConfigToJson`.
unfoldable pub export_config : (j : Json) {C : Type 0} → Settings j C → C → Loaded (List ℕ)
export_config j s c = exported (j.dump (s.to_json c))

-- `importConfigFromJson`.
unfoldable pub import_config : (j : Json) {C : Type 0} → Settings j C → List ℕ → Loaded C
import_config j s text = parsed (of_value j s (j.parse text))

-- A client configuration whose numbers fit their types, with no float that is NaN, comes back whole
-- from the file that saveClientConfig writes, if its JSON is printed to the end and read back as it
-- was printed.
pub load_client-save_client :
    (j : Json) (laws : IsJson j) (c : ClientConfig) (text : List ℕ) (w : Writing)
    → Client.Fits c
    → j.dump (Client.to_json j c) ≡ (text, true)
    → j.extract (text ++ 10 ∷ []) ≡ some (Client.to_json j c)
    → (save_client j c writable ≡ (ok tt, some (text ++ 10 ∷ [])))
      × (load_client j (readable (text ++ 10 ∷ [])) w ≡ (ok c, none))
unfolding save_client load_client save_config load_config printed parsed of_value
load_client-save_client j laws c text w h all_printed back = (
  ap printed all_printed,
  ap (λ found. (parsed found, none))
      (ap (of_value j (client_settings j)) back
        ∙ Client.from_json-to_json j laws c default_config h),
)

-- A server configuration whose numbers fit their types, with no float that is NaN and no name twice
-- among the classes with a weight, the games and the weapons of a game, comes back from the text
-- that exportConfigToJson prints, if the text is printed to the end and read back as it was
-- printed: the same weight for each class, each game with its weapons, and beside them each game of
-- a new configuration that has none of those names.
pub import_config-export_config :
    (j : Json) (laws : IsJson j) (processors : ℕ) (c : ServerConfig) (text : List ℕ)
    → Server.Fits c
    → AreGames c.game_adapters
    → j.dump (Server.to_json j c) ≡ (text, true)
    → j.parse text ≡ some (Server.to_json j c)
    → (export_config j (server_settings j processors) c ≡ ok text)
      × (games : List (String × GameConfig)) × (weights : List (String × ℕ)) × (import_config j
            (server_settings j processors)
            text
          ≡ ok (record c {
            detection = record (c.detection) { class_weights = weights };
            game_adapters = games;
          }))
      × ((key : String) → find_key key weights ≡ find_key key c.detection.class_weights)
      × ((name : String)
          → IsRestored
              (find_key name c.game_adapters)
              (find_key name default_games)
              (find_key name games))
unfolding export_config import_config exported parsed of_value default_server
import_config-export_config j laws processors c text h are all_printed back =
    let (games, given, restored) = read_games-games_json j laws c.game_adapters default_games are in
    let (weights, whole, same) =
      Server.from_json-to_json j laws c (default_server processors) games h given in
    (
      ap exported all_printed,
      games,
      weights,
      ap parsed (ap (of_value j (server_settings j processors)) back ∙ whole),
      same,
      restored,
    )
