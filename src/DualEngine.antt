-- ===== src/DualEngine.antt =====
-- `DualEngine` of src/client/dual_engine.cpp. What it asks of the prediction engine, the predictions
-- for the present, is an argument of `update_dual`.
pub mod Fuse
pub mod Similar
pub mod Matches
pub mod Pipeline
mod Examples
use zero_latency_yolo.Base.{
  ℕ, ◌+◌, ◌%◌, ◌^◌, Bool, false, List, [], ◌∷◌, ◌++◌, Option, none, some, get_elem?, length, ltb,
  leb, ◌==◌, ◌||◌, ◌&&◌, not, if◌then◌else◌, u32, u64, sub64,
}
use zero_latency_yolo.Float.{Float}
use zero_latency_yolo.Protocol.{BoundingBox, Detection, GameState}
use zero_latency_yolo.Udp.Server.Sweep.{member}
use zero_latency_yolo.Inference.Nms.{float_max, float_min, two}
use zero_latency_yolo.Tracker.{one, new_share}

pub record DualEngine : Type 0 where
  pub last_server_state : GameState
  pub current_state : GameState
  pub last_server_update_time : ℕ
  pub server_correction_weight : ℕ
  pub detection_count : ℕ
  pub prediction_count : ℕ

-- `std::abs` of a `float`.
unfoldable pub float_abs : ℕ → ℕ
float_abs x = x % 2 ^ 31

-- The difference of two lengths relative to the greater.
unfoldable pub relative_difference : Float → ℕ → ℕ → ℕ
relative_difference fp a b = fp.div (float_abs (fp.sub a b)) (float_max fp a b)

-- `calculateSimilarity`. The numbers are -10.0, -5.0, 0.6, 0.3 and 0.1.
unfoldable pub calculate_similarity : Float → Detection → Detection → ℕ
calculate_similarity fp d e =
    let dx = fp.sub d.box.x e.box.x in
    let dy = fp.sub d.box.y e.box.y in
    let center_dist = fp.sqrt (fp.add (fp.mul dx dx) (fp.mul dy dy)) in
    let dw = relative_difference fp d.box.width e.box.width in
    let dh = relative_difference fp d.box.height e.box.height in
    let size_diff = fp.div (fp.add dw dh) two in
    let center_weight = fp.exp (fp.mul 3240099840 center_dist) in
    let size_weight = fp.exp (fp.mul 3231711232 size_diff) in
    let conf_weight = fp.mul d.confidence e.confidence in
    if not (d.class_id == e.class_id)
    then 0
    else fp.add (fp.add (fp.mul center_weight 1058642330) (fp.mul size_weight new_share))
        (fp.mul conf_weight 1036831949)

-- The similar pairs of one server detection with the local predictions, from index `j` on, and of all.
unfoldable pub similar_to : Float → ℕ → Detection → ℕ → List Detection → List (ℕ × ℕ × ℕ)
similar_to fp i d j [] = []
similar_to fp i d j (e ∷ es) =
    let rest = similar_to fp i d (j + 1) es in
    let similarity = calculate_similarity fp d e in
    if fp.lt new_share similarity then (similarity, i, j) ∷ rest else rest

unfoldable pub similarities : Float → ℕ → List Detection → List Detection → List (ℕ × ℕ × ℕ)
similarities fp i [] es = []
similarities fp i (d ∷ ds) es = similar_to fp i d 0 es ++ similarities fp (i + 1) ds es

-- The greedy choice, with the indices that are used.
unfoldable pub choose : List (ℕ × ℕ × ℕ) → List ℕ → List ℕ → List (ℕ × ℕ)
choose [] used_server used_local = []
choose ((similarity, i, j) ∷ more) used_server used_local =
    let skipped = choose more used_server used_local in
    let taken = (i, j) ∷ choose more (i ∷ used_server) (j ∷ used_local) in
    if member i used_server || member j used_local then skipped else taken

-- `findBestMatches`, with `std::sort` by falling similarity as a parameter.
unfoldable pub find_best_matches :
    Float → (List (ℕ × ℕ × ℕ) → List (ℕ × ℕ × ℕ)) → List Detection → List Detection → List (ℕ × ℕ)
find_best_matches fp sort server_detections local_predictions =
    if length server_detections == 0 || length local_predictions == 0
    then []
    else choose (sort (similarities fp 0 server_detections local_predictions)) [] []

-- A linear step from one value to another.
unfoldable pub between : Float → ℕ → ℕ → ℕ → ℕ
between fp weight a b = fp.add (fp.mul a (fp.sub one weight)) (fp.mul b weight)

-- `smoothTransition`.
unfoldable pub smooth_transition : Float → Detection → Detection → ℕ → Detection
smooth_transition fp current target asked =
    let weight = float_max fp 0 (float_min fp one asked) in
    record current {
      box = record {
        x = between fp weight current.box.x target.box.x;
        y = between fp weight current.box.y target.box.y;
        width = between fp weight current.box.width target.box.width;
        height = between fp weight current.box.height target.box.height;
      };
      confidence = float_max fp current.confidence target.confidence;
      class_id = target.class_id;
      track_id = target.track_id;
    }

-- The prediction that is matched with a server detection.
unfoldable pub match_of : ℕ → List (ℕ × ℕ) → Option ℕ
match_of i [] = none
match_of i ((s, l) ∷ matches) = if s == i then some l else match_of i matches
