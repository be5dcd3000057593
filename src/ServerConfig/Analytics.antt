-- ===== src/ServerConfig/Analytics.antt =====
-- `AnalyticsConfig` of src/server/config.h as JSON.
use Prim.Native.String.{String}
use zero_latency_yolo.Base.{ℕ, ◌^◌, ◌<◌, ◌≡◌, refl, Bool, true, List, [], ◌∷◌, Option, some}
use zero_latency_yolo.Base.Maybe.{◌>>=◌}
use zero_latency_yolo.ServerConfig.Json.{Json, IsJson, read, read-object}
use zero_latency_yolo.ClientConfig.{bytes}

pub record AnalyticsConfig : Type 0 where
  pub enable_analytics : Bool
  pub stats_interval_sec : ℕ
  pub save_stats_to_file : Bool
  pub stats_file : List ℕ

-- The default constructor.
abbrev pub defaults : AnalyticsConfig
defaults = record {
  enable_analytics = true;
  stats_interval_sec = 60;
  save_stats_to_file = true;
  stats_file = bytes "logs/stats.json";
}

-- The members that `to_json` writes.
abbrev pub members : (j : Json) → AnalyticsConfig → List (String × j.Value)
members j c =
    ("enable_analytics", j.of_bool c.enable_analytics)
    ∷ ("stats_interval_sec", j.of_unsigned c.stats_interval_sec)
    ∷ ("save_stats_to_file", j.of_bool c.save_stats_to_file)
    ∷ ("stats_file", j.of_text c.stats_file)
    ∷ []

-- `to_json`.
unfoldable pub to_json : (j : Json) → AnalyticsConfig → j.Value
to_json j c = j.object (members j c)

-- `from_json`.
unfoldable pub from_json : (j : Json) → AnalyticsConfig → j.Value → Option AnalyticsConfig
from_json j c v = do
  enable_analytics ← read j j.to_bool v "enable_analytics" c.enable_analytics
  stats_interval_sec ← read j (j.to_unsigned 32) v "stats_interval_sec" c.stats_interval_sec
  save_stats_to_file ← read j j.to_bool v "save_stats_to_file" c.save_stats_to_file
  stats_file ← read j j.to_text v "stats_file" c.stats_file
  some (record {
    enable_analytics = enable_analytics;
    stats_interval_sec = stats_interval_sec;
    save_stats_to_file = save_stats_to_file;
    stats_file = stats_file;
  })

-- The numbers fit their types.
pub record Fits (c : AnalyticsConfig) : Type 0 where
  pub stats_interval_sec : c.stats_interval_sec < 2 ^ 32

-- What to_json writes is read back whole, whatever there was before.
pub from_json-to_json :
    (j : Json) (laws : IsJson j) (c old : AnalyticsConfig)
    → Fits c
    → from_json j old (to_json j c) ≡ some c
unfolding from_json to_json
from_json-to_json j laws c old h =
    rw
      (
        read-object j j.to_bool laws (members j c) "enable_analytics" old.enable_analytics
            c.enable_analytics (j.of_bool c.enable_analytics) refl refl
            (laws.bool c.enable_analytics),
        read-object j (j.to_unsigned 32) laws (members j c) "stats_interval_sec"
            old.stats_interval_sec c.stats_interval_sec (j.of_unsigned c.stats_interval_sec) refl
            refl (laws.unsigned 32 c.stats_interval_sec h.stats_interval_sec),
        read-object j j.to_bool laws (members j c) "save_stats_to_file" old.save_stats_to_file
            c.save_stats_to_file (j.of_bool c.save_stats_to_file) refl refl
            (laws.bool c.save_stats_to_file),
        read-object j j.to_text laws (members j c) "stats_file" old.stats_file c.stats_file
            (j.of_text c.stats_file) refl refl (laws.text c.stats_file),
      )
      refl
