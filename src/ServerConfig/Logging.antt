-- ===== src/ServerConfig/Logging.antt =====
-- `LoggingConfig` of src/server/config.h as JSON.
use Prim.Native.String.{String}
use zero_latency_yolo.Base.{ℕ, ◌^◌, ◌<◌, ◌≡◌, refl, Bool, true, List, [], ◌∷◌, Option, some}
use zero_latency_yolo.Base.Maybe.{◌>>=◌}
use zero_latency_yolo.ServerConfig.Json.{Json, IsJson, read, read-object}
use zero_latency_yolo.ClientConfig.{bytes}

pub record LoggingConfig : Type 0 where
  pub enable_logging : Bool
  pub log_level : List ℕ
  pub log_file : List ℕ
  pub max_log_size_mb : ℕ
  pub max_log_files : ℕ

-- The default constructor.
abbrev pub defaults : LoggingConfig
defaults = record {
  enable_logging = true;
  log_level = bytes "info";
  log_file = bytes "logs/server.log";
  max_log_size_mb = 10;
  max_log_files = 5;
}

-- The members that `to_json` writes.
abbrev pub members : (j : Json) → LoggingConfig → List (String × j.Value)
members j c =
    ("enable_logging", j.of_bool c.enable_logging)
    ∷ ("log_level", j.of_text c.log_level)
    ∷ ("log_file", j.of_text c.log_file)
    ∷ ("max_log_size_mb", j.of_unsigned c.max_log_size_mb)
    ∷ ("max_log_files", j.of_unsigned c.max_log_files)
    ∷ []

-- `to_json`.
unfoldable pub to_json : (j : Json) → LoggingConfig → j.Value
to_json j c = j.object (members j c)

-- `from_json`.
unfoldable pub from_json : (j : Json) → LoggingConfig → j.Value → Option LoggingConfig
from_json j c v = do
  enable_logging ← read j j.to_bool v "enable_logging" c.enable_logging
  log_level ← read j j.to_text v "log_level" c.log_level
  log_file ← read j j.to_text v "log_file" c.log_file
  max_log_size_mb ← read j (j.to_unsigned 32) v "max_log_size_mb" c.max_log_size_mb
  max_log_files ← read j (j.to_unsigned 32) v "max_log_files" c.max_log_files
  some (record {
    enable_logging = enable_logging;
    log_level = log_level;
    log_file = log_file;
    max_log_size_mb = max_log_size_mb;
    max_log_files = max_log_files;
  })

-- The numbers fit their types.
pub record Fits (c : LoggingConfig) : Type 0 where
  pub max_log_size_mb : c.max_log_size_mb < 2 ^ 32
  pub max_log_files : c.max_log_files < 2 ^ 32

-- What to_json writes is read back whole, whatever there was before.
pub from_json-to_json :
    (j : Json) (laws : IsJson j) (c old : LoggingConfig)
    → Fits c
    → from_json j old (to_json j c) ≡ some c
unfolding from_json to_json
from_json-to_json j laws c old h =
    rw
      (
        read-object j j.to_bool laws (members j c) "enable_logging" old.enable_logging
            c.enable_logging (j.of_bool c.enable_logging) refl refl (laws.bool c.enable_logging),
        read-object j j.to_text laws (members j c) "log_level" old.log_level c.log_level
            (j.of_text c.log_level) refl refl (laws.text c.log_level),
        read-object j j.to_text laws (members j c) "log_file" old.log_file c.log_file
            (j.of_text c.log_file) refl refl (laws.text c.log_file),
        read-object j (j.to_unsigned 32) laws (members j c) "max_log_size_mb" old.max_log_size_mb
            c.max_log_size_mb (j.of_unsigned c.max_log_size_mb) refl refl
            (laws.unsigned 32 c.max_log_size_mb h.max_log_size_mb),
        read-object j (j.to_unsigned 32) laws (members j c) "max_log_files" old.max_log_files
            c.max_log_files (j.of_unsigned c.max_log_files) refl refl
            (laws.unsigned 32 c.max_log_files h.max_log_files),
      )
      refl
