-- ===== src/ServerConfig/Prediction.antt =====
-- The member "prediction" of the settings of src/server/config.h as JSON.
use Prim.Native.String.{String}
use zero_latency_yolo.Base.{◌≡◌, refl, List, [], ◌∷◌, Option, some}
use zero_latency_yolo.Base.Maybe.{◌>>=◌}
use zero_latency_yolo.ServerConfig.Json.{Json, IsJson, IsNumber, read, read-object}
use zero_latency_yolo.Prediction.{PredictionParams}

-- The members that `to_json` writes.
abbrev pub members : (j : Json) → PredictionParams → List (String × j.Value)
members j c =
    ("max_prediction_time", j.of_float c.max_prediction_time)
    ∷ ("position_uncertainty", j.of_float c.position_uncertainty)
    ∷ ("velocity_uncertainty", j.of_float c.velocity_uncertainty)
    ∷ ("acceleration_uncertainty", j.of_float c.acceleration_uncertainty)
    ∷ ("min_confidence_threshold", j.of_float c.min_confidence_threshold)
    ∷ []

-- `to_json`.
unfoldable pub to_json : (j : Json) → PredictionParams → j.Value
to_json j c = j.object (members j c)

-- `from_json`.
unfoldable pub from_json : (j : Json) → PredictionParams → j.Value → Option PredictionParams
from_json j c v = do
  max_prediction_time ← read j j.to_float v "max_prediction_time" c.max_prediction_time
  position_uncertainty ← read j j.to_float v "position_uncertainty" c.position_uncertainty
  velocity_uncertainty ← read j j.to_float v "velocity_uncertainty" c.velocity_uncertainty
  acceleration_uncertainty ←
      read j j.to_float v "acceleration_uncertainty" c.acceleration_uncertainty
  min_confidence_threshold ←
      read j j.to_float v "min_confidence_threshold" c.min_confidence_threshold
  some (record {
    max_prediction_time = max_prediction_time;
    position_uncertainty = position_uncertainty;
    velocity_uncertainty = velocity_uncertainty;
    acceleration_uncertainty = acceleration_uncertainty;
    min_confidence_threshold = min_confidence_threshold;
  })

-- The numbers fit their types, and no `float` is NaN.
pub record Fits (c : PredictionParams) : Type 0 where
  pub max_prediction_time : IsNumber c.max_prediction_time
  pub position_uncertainty : IsNumber c.position_uncertainty
  pub velocity_uncertainty : IsNumber c.velocity_uncertainty
  pub acceleration_uncertainty : IsNumber c.acceleration_uncertainty
  pub min_confidence_threshold : IsNumber c.min_confidence_threshold

-- What to_json writes is read back whole, whatever there was before.
pub from_json-to_json :
    (j : Json) (laws : IsJson j) (c old : PredictionParams)
    → Fits c
    → from_json j old (to_json j c) ≡ some c
unfolding from_json to_json
from_json-to_json j laws c old h =
    rw
      (
        read-object j j.to_float laws (members j c) "max_prediction_time" old.max_prediction_time
            c.max_prediction_time (j.of_float c.max_prediction_time) refl refl
            (laws.float c.max_prediction_time h.max_prediction_time),
        read-object j j.to_float laws (members j c) "position_uncertainty" old.position_uncertainty
            c.position_uncertainty (j.of_float c.position_uncertainty) refl refl
            (laws.float c.position_uncertainty h.position_uncertainty),
        read-object j j.to_float laws (members j c) "velocity_uncertainty" old.velocity_uncertainty
            c.velocity_uncertainty (j.of_float c.velocity_uncertainty) refl refl
            (laws.float c.velocity_uncertainty h.velocity_uncertainty),
        read-object j j.to_float laws (members j c) "acceleration_uncertainty"
            old.acceleration_uncertainty c.acceleration_uncertainty
            (j.of_float c.acceleration_uncertainty) refl refl
            (laws.float c.acceleration_uncertainty h.acceleration_uncertainty),
        read-object j j.to_float laws (members j c) "min_confidence_threshold"
            old.min_confidence_threshold c.min_confidence_threshold
            (j.of_float c.min_confidence_threshold) refl refl
            (laws.float c.min_confidence_threshold h.min_confidence_threshold),
      )
      refl
