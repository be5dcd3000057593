-- ===== src/Inference/Preprocess.antt =====
-- `preProcess` and `preProcessZeroCopy` of src/inference/onnx_engine.cpp, whose bodies are the same.
use Prim.Native.Nat.{min}
use zero_latency_yolo.Base.{
  ℕ, zero, suc, ◌+◌, ◌-◌, ◌*◌, ◌^◌, List, [], ◌∷◌, ◌++◌, none, some, get_elem?, length, not, ◌||◌,
  leb, ◌==◌, if◌then◌else◌,
}
use zero_latency_yolo.Float.{Float}
use zero_latency_yolo.Inference.{EngineConfig}

-- 255.0.
abbrev pub white : ℕ
white = 1132396544

-- `std::min(static_cast<int>(i * scale), size - 1)`, for a size that is not 0.
unfoldable pub source_position : Float → ℕ → ℕ → ℕ → ℕ
source_position fp scale size i = min (fp.to_int (fp.mul (fp.of_int i) scale)) (size - 1)

-- The value at a place of the tensor. The index into an image without pixels is negative, and then
-- the 0 of the buffer stays.
unfoldable pub tensor_value : Float → EngineConfig → List ℕ → ℕ → ℕ → ℕ → ℕ → ℕ → ℕ
tensor_value fp config image width height c h w =
    let scale_w = fp.div (fp.of_int width) (fp.of_int config.model_width) in
    let scale_h = fp.div (fp.of_int height) (fp.of_int config.model_height) in
    let src_h = source_position fp scale_h height h in
    let src_w = source_position fp scale_w width w in
    if width == 0 || height == 0
    then 0
    else elim (get_elem? image ((src_h * width + src_w) * 3 + (2 - c))) [
      | none ↦ 0
      | some byte ↦ fp.div (fp.of_int byte) white
    ]

-- A loop that appends what its body gives for `start`, `start + 1`, ...
unfoldable pub collect : (ℕ → List ℕ) → ℕ → ℕ → List ℕ
collect body start zero = []
collect body start (suc count) = body start ++ collect body (start + 1) count

-- The three loops, which fill the tensor in the order of its places.
unfoldable pub tensor : Float → EngineConfig → List ℕ → ℕ → ℕ → List ℕ
tensor fp config image width height =
    collect
      (λ c.
        collect
          (λ h.
            collect (λ w. tensor_value fp config image width height c h w ∷ []) 0
              config.model_width)
          0 config.model_height)
      0 3

-- What comes of the image: C++ leaves `width * height * 3` undefined from 2^31 on.
pub data Prepared : Type 0 where
  prepared : List ℕ → Prepared
  invalid_size undefined_size : Prepared

-- `preProcess`.
unfoldable pub pre_process : Float → EngineConfig → List ℕ → ℕ → ℕ → Prepared
pre_process fp config image width height =
    if leb (2 ^ 31) (width * height * 3)
    then undefined_size
    else if not (length image == width * height * 3)
    then invalid_size
    else prepared (tensor fp config image width height)
