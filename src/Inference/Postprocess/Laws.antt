-- ===== src/Inference/Postprocess/Laws.antt =====
-- What `postProcess` of src/inference/onnx_engine.cpp returns.
use zero_latency_yolo.Base.{
  ℕ, zero, suc, ◌+◌, ◌*◌, ◌<◌, ◌≤◌, ◌≡◌, refl, true, List, Option, none, some, get_elem?, arith,
  All, All-append, length, length-append, if-cases,
}
use zero_latency_yolo.Base.Maybe.{Gives, Gives->>=, Gives-some, get_elem?-Gives}
use native.Mathlib.Nat.{mul-le-mul_right}
use zero_latency_yolo.Float.{Float}
use zero_latency_yolo.Protocol.{Detection}
use zero_latency_yolo.Inference.{EngineConfig}
use zero_latency_yolo.Inference.Nms.{apply_nms}
use zero_latency_yolo.Inference.Postprocess.{
  Tensor, best_class, detection_of, chosen, decode_box, decode_boxes, dimensions, post_process,
}

-- What each detection meets: a class of the model, a confidence that is not below the threshold, no
-- track id yet.
abbrev pub IsSound : Float → EngineConfig → ℕ → Detection → Type 0
IsSound fp config classes d =
    (d.class_id < classes)
    × (fp.le config.confidence_threshold d.confidence ≡ true)
    × (d.track_id ≡ 0)

-- A class that is found is one of the model's.
abbrev IsBelow : ℕ → Option ℕ → Type 0
IsBelow bound none = Unit {0}
IsBelow bound (some j) = j < bound

-- The values are those of a number of rows, each as long as the number of boxes.
get_elem?-row :
    (values : List ℕ) (rows boxes row i : ℕ)
    → rows * boxes ≤ length values
    → row < rows
    → i < boxes
    → Gives (λ _. Unit {0}) (get_elem? values (row * boxes + i))
get_elem?-row values rows boxes row i enough hr hi =
    let whole : (suc row) * boxes ≤ rows * boxes = mul-le-mul_right boxes hr in
    get_elem?-Gives values (row * boxes + i) (omega (arith, whole, enough, hi))

best_class-IsBelow :
    (fp : Float) (values : List ℕ) (boxes i j classes all max_conf : ℕ) (max_class : Option ℕ)
    → j + classes ≡ all
    → (all + 4) * boxes ≤ length values
    → i < boxes
    → IsBelow all max_class
    → Gives (λ best. IsBelow all best.1) (best_class fp values boxes i j classes max_conf max_class)
unfolding best_class
best_class-IsBelow fp values boxes i j zero all max_conf max_class e enough hi below = below
best_class-IsBelow fp values boxes i j (suc classes) all max_conf max_class e enough hi below =
    Gives->>= (λ _. Unit {0}) (λ best. IsBelow all best.1) (get_elem? values ((j + 4) * boxes + i))
      _ (get_elem?-row values (all + 4) boxes (j + 4) i enough (omega arith) hi)
      (λ conf _.
        best_class-IsBelow fp values boxes i (j + 1) classes all _ _ (omega arith) enough hi (
          if-cases (IsBelow all) (fp.lt max_conf conf) {x = some j} {y = max_class}
            (λ _. omega arith) (λ _. below)))

-- The sound detections of a box, one at most.
abbrev Decoded : Float → EngineConfig → ℕ → ℕ → List Detection → Type 0
Decoded fp config classes most ds = All (IsSound fp config classes) ds × (length ds ≤ most)

chosen-Decoded :
    (fp : Float) (config : EngineConfig) (classes width height cx cy w h now : ℕ)
    (best : ℕ × Option ℕ)
    → IsBelow classes best.1
    → Decoded fp config classes 1 (
        chosen fp config
          (λ conf class_id. detection_of fp width height cx cy w h conf class_id now)
          best)
unfolding chosen detection_of
chosen-Decoded fp config classes width height cx cy w h now (conf, none) below = (tt, omega arith)
chosen-Decoded fp config classes width height cx cy w h now (conf, some class_id) below =
    if-cases (Decoded fp config classes 1) (fp.le config.confidence_threshold conf)
      (λ sure. (((below, sure, refl), tt), omega arith)) (λ _. (tt, omega arith))

decode_box-Decoded :
    (fp : Float) (config : EngineConfig) (values : List ℕ) (boxes classes width height : ℕ)
    (clock : ℕ → ℕ) (i : ℕ)
    → (classes + 4) * boxes ≤ length values
    → i < boxes
    → Gives
        (Decoded fp config classes 1)
        (decode_box fp config values boxes classes width height clock i)
unfolding decode_box
decode_box-Decoded fp config values boxes classes width height clock i enough hi =
    let row =
      λ (r : ℕ) (hr : r < classes + 4). get_elem?-row values (classes + 4) boxes r i enough hr hi in
    let P = Decoded fp config classes 1 in
    Gives->>= (λ _. Unit {0}) P (get_elem? values (0 * boxes + i)) _ (row 0 (omega arith))
      λ cx _.
        Gives->>= (λ _. Unit {0}) P (get_elem? values (1 * boxes + i)) _ (row 1 (omega arith))
          λ cy _.
            Gives->>= (λ _. Unit {0}) P (get_elem? values (2 * boxes + i)) _ (row 2 (omega arith))
              λ w _.
                Gives->>= (λ _. Unit {0}) P (get_elem? values (3 * boxes + i)) _
                  (row 3 (omega arith))
                  λ h _.
                    Gives->>= (λ best. IsBelow classes best.1) P
                      (best_class fp values boxes i 0 classes 0 none) _
                      (best_class-IsBelow fp values boxes i 0 classes classes 0 none (omega arith)
                        enough hi tt)
                      (chosen-Decoded fp config classes width height cx cy w h (clock i))

decode_boxes-Decoded :
    (fp : Float) (config : EngineConfig) (classes : ℕ) (decode : ℕ → Option (List Detection))
    (i count : ℕ)
    → ((k : ℕ) → k < i + count → Gives (Decoded fp config classes 1) (decode k))
    → Gives (Decoded fp config classes count) (decode_boxes decode i count)
unfolding decode_boxes
decode_boxes-Decoded fp config classes decode i zero h = (tt, omega arith)
decode_boxes-Decoded fp config classes decode i (suc count) h =
    Gives->>= (Decoded fp config classes 1) (Decoded fp config classes (suc count)) (decode i) _
      (h i (omega arith))
      λ ds found.
        Gives->>= (Decoded fp config classes count) (Decoded fp config classes (suc count))
          (decode_boxes decode (i + 1) count) _
          (decode_boxes-Decoded fp config classes decode (i + 1) count (λ k hk. h k (omega arith)))
          (λ rest found'. (
            All-append (IsSound fp config classes) ds rest found.0 found'.0,
            omega (arith, length-append ds rest, found.1, found'.1),
          ))

-- Where the output has the dimensions of a number of classes, with 4 more rows, and of a number of
-- boxes, and no fewer values than these call for, postProcess returns what applyNMS makes of
-- detections of which there is at most one for each box, each with a class below the number of
-- classes, a confidence that is not below the threshold and the track id 0.
pub post_process_lem :
    (fp : Float) (sort : List Detection → List Detection) (config : EngineConfig) (t : Tensor)
    (width height : ℕ) (clock : ℕ → ℕ) (classes boxes : ℕ)
    → dimensions t ≡ some (classes, boxes)
    → (classes + 4) * boxes ≤ length t.values
    → (ds : List Detection) × (post_process fp sort config t width height clock
        ≡ some (apply_nms fp sort ds config.nms_threshold))
      × All (IsSound fp config classes) ds
      × (length ds ≤ boxes)
unfolding post_process
post_process_lem fp sort config t width height clock classes boxes shaped enough =
    let decode = decode_box fp config t.values boxes classes width height clock in
    let (ds, decoded, found) =
      Gives-some (Decoded fp config classes boxes) (decode_boxes decode 0 boxes) (
        decode_boxes-Decoded fp config classes decode 0 boxes (λ k hk.
          decode_box-Decoded fp config t.values boxes classes width height clock k enough
            (omega (arith, hk)))) in
    (ds, ground (arith, shaped, decoded), found.0, found.1)
