-- ===== src/Inference/Postprocess.antt =====
-- `postProcess` of src/inference/onnx_engine.cpp.
pub mod Laws
use zero_latency_yolo.Base.{
  ℕ, zero, suc, ◌+◌, ◌*◌, Bool, true, false, List, [], ◌∷◌, ◌++◌, Option, none, some, get_elem?,
  if◌then◌else◌, sub64,
}
use zero_latency_yolo.Base.Maybe.{◌>>=◌}
use zero_latency_yolo.Float.{Float}
use zero_latency_yolo.Protocol.{Detection, BoundingBox}
use zero_latency_yolo.Inference.{EngineConfig}
use zero_latency_yolo.Inference.Nms.{apply_nms}

-- An output of the model: its dimensions and its values.
pub record Tensor : Type 0 where
  pub shape : List ℕ
  pub values : List ℕ

-- The loop over the classes of box `i`, with the best confidence and class that it has come to;
-- `none` is a read past the end of the values, and a class of `none` is -1.
unfoldable pub best_class : Float → List ℕ → ℕ → ℕ → ℕ → ℕ → ℕ → Option ℕ → Option (ℕ × Option ℕ)
best_class fp values boxes i j zero max_conf max_class = some (max_conf, max_class)
best_class fp values boxes i j (suc classes) max_conf max_class = do
  conf ← get_elem? values ((j + 4) * boxes + i)
  best_class fp values boxes i (j + 1) classes (if fp.lt max_conf conf then conf else max_conf)
      (if fp.lt max_conf conf then some j else max_class)

-- The detection made of a box.
unfoldable pub detection_of : Float → ℕ → ℕ → ℕ → ℕ → ℕ → ℕ → ℕ → ℕ → ℕ → Detection
detection_of fp width height cx cy w h conf class_id now = record {
  box = record {
    x = fp.div cx (fp.of_int width);
    y = fp.div cy (fp.of_int height);
    width = fp.div w (fp.of_int width);
    height = fp.div h (fp.of_int height);
  };
  confidence = conf;
  class_id = class_id;
  track_id = 0;
  padding = 0;
  timestamp = now;
}

-- What the best class of a box adds to the detections.
unfoldable pub chosen : Float → EngineConfig → (ℕ → ℕ → Detection) → ℕ × Option ℕ → List Detection
chosen fp config make (conf, none) = []
chosen fp config make (conf, some class_id) =
    if fp.le config.confidence_threshold conf then make conf class_id ∷ [] else []

-- What box `i` adds to the detections. `clock i` is the system clock as it is read for the box.
unfoldable pub decode_box :
    Float → EngineConfig → List ℕ → ℕ → ℕ → ℕ → ℕ → (ℕ → ℕ) → ℕ → Option (List Detection)
decode_box fp config values boxes classes width height clock i = do
  cx ← get_elem? values (0 * boxes + i)
  cy ← get_elem? values (1 * boxes + i)
  w ← get_elem? values (2 * boxes + i)
  h ← get_elem? values (3 * boxes + i)
  best ← best_class fp values boxes i 0 classes 0 none
  some (
      chosen fp config
        (λ conf class_id. detection_of fp width height cx cy w h conf class_id (clock i)) best)

-- The loop over the boxes.
unfoldable pub decode_boxes : (ℕ → Option (List Detection)) → ℕ → ℕ → Option (List Detection)
decode_boxes decode i zero = some []
decode_boxes decode i (suc count) = do
  ds ← decode i
  rest ← decode_boxes decode (i + 1) count
  some (ds ++ rest)

-- The number of classes and of boxes, from the dimensions.
unfoldable pub dimensions : Tensor → Option (ℕ × ℕ)
dimensions t = do
  rows ← get_elem? t.shape 1
  boxes ← get_elem? t.shape 2
  some (sub64 rows 4, boxes)

-- `postProcess`, with `std::sort` as a parameter; `none` is a read past the end. The accessors of
-- the runtime are taken not to throw.
unfoldable pub post_process :
    Float
    → (List Detection → List Detection)
    → EngineConfig
    → Tensor
    → ℕ
    → ℕ
    → (ℕ → ℕ)
    → Option (List Detection)
post_process fp sort config t width height clock = do
  dims ← dimensions t
  ds ← decode_boxes (decode_box fp config t.values dims.1 dims.0 width height clock) 0 dims.1
  some (apply_nms fp sort ds config.nms_threshold)
