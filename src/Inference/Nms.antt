-- ===== src/Inference/Nms.antt =====
-- `applyNMS` and `calculateIoU` of src/inference/onnx_engine.cpp.
pub mod Laws
use zero_latency_yolo.Base.{
  ℕ, ◌^◌, Bool, true, false, List, [], ◌∷◌, not, ◌||◌, ◌&&◌, ltb, leb, ◌==◌, length, if◌then◌else◌,
}
use zero_latency_yolo.Float.{Float}
use zero_latency_yolo.Protocol.{BoundingBox, Detection}

-- `std::max` and `std::min` on `float`.
unfoldable pub float_max : Float → ℕ → ℕ → ℕ
float_max fp a b = if fp.lt a b then b else a

unfoldable pub float_min : Float → ℕ → ℕ → ℕ
float_min fp a b = if fp.lt b a then b else a

-- 2.0.
abbrev pub two : ℕ
two = 1073741824

-- The length that two intervals share, each given by its middle and its length.
unfoldable pub overlap : Float → ℕ → ℕ → ℕ → ℕ → ℕ
overlap fp middle1 length1 middle2 length2 =
    let min1 = fp.sub middle1 (fp.div length1 two) in
    let max1 = fp.add middle1 (fp.div length1 two) in
    let min2 = fp.sub middle2 (fp.div length2 two) in
    let max2 = fp.add middle2 (fp.div length2 two) in
    float_max fp 0 (fp.sub (float_min fp max1 max2) (float_max fp min1 min2))

-- `calculateIoU`.
unfoldable pub calculate_iou : Float → BoundingBox → BoundingBox → ℕ
calculate_iou fp box1 box2 =
    let x_overlap = overlap fp box1.x box1.width box2.x box2.width in
    let y_overlap = overlap fp box1.y box1.height box2.y box2.height in
    let intersection = fp.mul x_overlap y_overlap in
    let area1 = fp.mul box1.width box1.height in
    let area2 = fp.mul box2.width box2.height in
    let union_area = fp.sub (fp.add area1 area2) intersection in
    if fp.lt 0 union_area then fp.div intersection union_area else 0

-- `a < b` of two `int`, from their bit patterns.
unfoldable pub int_lt : ℕ → ℕ → Bool
int_lt a b =
    let negative_a = leb (2 ^ 31) a in
    let negative_b = leb (2 ^ 31) b in
    (negative_a && not negative_b) || (not (negative_b && not negative_a) && ltb a b)

-- The order of the sort: by class, then by falling confidence.
unfoldable pub comes_first : Float → Detection → Detection → Bool
comes_first fp a b =
    if not (a.class_id == b.class_id)
    then int_lt a.class_id b.class_id
    else fp.lt b.confidence a.confidence

-- The inner loop, over the detections after the one that is kept and their marks in `is_removed`.
unfoldable pub remove_overlapping : Float → ℕ → Detection → List Detection → List Bool → List Bool
remove_overlapping fp threshold kept [] marks = marks
remove_overlapping fp threshold kept (d ∷ ds) [] = []
remove_overlapping fp threshold kept (d ∷ ds) (removed ∷ marks) =
    let rest = remove_overlapping fp threshold kept ds marks in
    if removed || not (d.class_id == kept.class_id)
    then removed ∷ rest
    else if fp.lt threshold (calculate_iou fp kept.box d.box)
    then true ∷ rest
    else removed ∷ rest

-- The outer loop.
unfoldable pub suppress : Float → ℕ → List Detection → List Bool → List Detection
suppress fp threshold [] marks = []
suppress fp threshold (d ∷ ds) [] = []
suppress fp threshold (d ∷ ds) (removed ∷ marks) =
    let skipped = suppress fp threshold ds marks in
    let rest = suppress fp threshold ds (remove_overlapping fp threshold d ds marks) in
    if removed then skipped else d ∷ rest

-- `std::vector<bool> is_removed(detections.size(), false)`.
unfoldable pub unmarked : List Detection → List Bool
unmarked [] = []
unmarked (d ∷ ds) = false ∷ unmarked ds

-- `applyNMS`, with `std::sort` by the order above as a parameter.
unfoldable pub apply_nms :
    Float → (List Detection → List Detection) → List Detection → ℕ → List Detection
apply_nms fp sort ds threshold =
    if leb (length ds) 1 then ds else suppress fp threshold (sort ds) (unmarked (sort ds))
