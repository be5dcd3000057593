-- ===== src/ServerConfig/Detecting.antt =====
-- `DetectionConfig` of src/server/config.h as JSON.
use Prim.Native.String.{String}
use zero_latency_yolo.Base.{ℕ, ◌^◌, ◌<◌, ◌≡◌, refl, Bool, true, List, [], ◌∷◌, Option, some}
use zero_latency_yolo.Base.Maybe.{◌>>=◌}
use zero_latency_yolo.ServerConfig.Json.{
  Json, IsJson, IsNumber, read, read-object, find_key, distinct,
}

pub record DetectionConfig : Type 0 where
  pub model_width : ℕ
  pub model_height : ℕ
  pub enable_tracking : Bool
  pub max_tracking_age_ms : ℕ
  pub class_weights : List (String × ℕ)

-- The default constructor.
abbrev pub defaults : DetectionConfig
defaults = record {
  model_width = 416;
  model_height = 416;
  enable_tracking = true;
  max_tracking_age_ms = 500;
  class_weights =
      ("player_t", 1065353216)
      ∷ ("player_ct", 1065353216)
      ∷ ("head", 1067030938)
      ∷ ("weapon", 1061997773)
      ∷ [];
}

-- The members that `to_json` writes.
abbrev pub members : (j : Json) → DetectionConfig → List (String × j.Value)
members j c =
    ("model_width", j.of_unsigned c.model_width)
    ∷ ("model_height", j.of_unsigned c.model_height)
    ∷ ("enable_tracking", j.of_bool c.enable_tracking)
    ∷ ("max_tracking_age_ms", j.of_unsigned c.max_tracking_age_ms)
    ∷ ("class_weights", j.of_weights c.class_weights)
    ∷ []

-- `to_json`.
unfoldable pub to_json : (j : Json) → DetectionConfig → j.Value
to_json j c = j.object (members j c)

-- `from_json`.
unfoldable pub from_json : (j : Json) → DetectionConfig → j.Value → Option DetectionConfig
from_json j c v = do
  model_width ← read j (j.to_unsigned 16) v "model_width" c.model_width
  model_height ← read j (j.to_unsigned 16) v "model_height" c.model_height
  enable_tracking ← read j j.to_bool v "enable_tracking" c.enable_tracking
  max_tracking_age_ms ← read j (j.to_unsigned 32) v "max_tracking_age_ms" c.max_tracking_age_ms
  class_weights ← read j j.to_weights v "class_weights" c.class_weights
  some (record {
    model_width = model_width;
    model_height = model_height;
    enable_tracking = enable_tracking;
    max_tracking_age_ms = max_tracking_age_ms;
    class_weights = class_weights;
  })

-- The numbers fit their types, no `float` is NaN, and no class has two weights.
pub record Fits (c : DetectionConfig) : Type 0 where
  pub model_width : c.model_width < 2 ^ 16
  pub model_height : c.model_height < 2 ^ 16
  pub max_tracking_age_ms : c.max_tracking_age_ms < 2 ^ 32
  pub once : distinct c.class_weights ≡ true
  pub numbers : (key : String) (x : ℕ) → find_key key c.class_weights ≡ some x → IsNumber x

-- What to_json writes is read back whole, whatever there was before, with the same weight for each
-- class.
pub from_json-to_json :
    (j : Json) (laws : IsJson j) (c old : DetectionConfig)
    → Fits c
    → (weights : List (String × ℕ)) × (from_json j old (to_json j c)
        ≡ some (record c { class_weights = weights }))
      × ((key : String) → find_key key weights ≡ find_key key c.class_weights)
unfolding from_json to_json
from_json-to_json j laws c old h =
    let (weights, back, same) = laws.weights c.class_weights h.once h.numbers in
    (
      weights,
      (rw
          (
            read-object j (j.to_unsigned 16) laws (members j c) "model_width" old.model_width
                c.model_width (j.of_unsigned c.model_width) refl refl
                (laws.unsigned 16 c.model_width h.model_width),
            read-object j (j.to_unsigned 16) laws (members j c) "model_height" old.model_height
                c.model_height (j.of_unsigned c.model_height) refl refl
                (laws.unsigned 16 c.model_height h.model_height),
            read-object j j.to_bool laws (members j c) "enable_tracking" old.enable_tracking
                c.enable_tracking (j.of_bool c.enable_tracking) refl refl
                (laws.bool c.enable_tracking),
            read-object j (j.to_unsigned 32) laws (members j c) "max_tracking_age_ms"
                old.max_tracking_age_ms c.max_tracking_age_ms (j.of_unsigned c.max_tracking_age_ms)
                refl refl (laws.unsigned 32 c.max_tracking_age_ms h.max_tracking_age_ms),
            read-object j j.to_weights laws (members j c) "class_weights" old.class_weights weights
                (j.of_weights c.class_weights) refl refl back,
          )
          refl),
      same,
    )
