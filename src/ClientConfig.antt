-- ===== src/ClientConfig.antt =====
-- `ClientConfig` of src/server/config.h, and the file of settings of src/client/config.cpp as text. A
-- text is a list of bytes.
pub mod Save
pub mod Load
pub mod Lines
pub mod RoundTrip
mod Examples
use Prim.Native.String.{String}
use Prim.Native.String as String
use Prim.Native.Char.{code}
use zero_latency_yolo.Base.{
  ℕ, ◌+◌, ◌/◌, ◌%◌, ◌^◌, Bool, true, false, List, [], ◌∷◌, ◌++◌, Option, none, some, ◌&&◌, ◌||◌,
  ◌==◌, ltb, if◌then◌else◌,
}
use zero_latency_yolo.Prediction.{PredictionParams}

pub record CompressionSettings : Type 0 where
  pub quality : ℕ
  pub keyframe_interval : ℕ
  pub use_difference_encoding : Bool
  pub use_roi_encoding : Bool
  pub roi_padding : ℕ

pub record ClientConfig : Type 0 where
  pub server_ip : List ℕ
  pub server_port : ℕ
  pub game_id : ℕ
  pub target_fps : ℕ
  pub screen_width : ℕ
  pub screen_height : ℕ
  pub auto_connect : Bool
  pub auto_start : Bool
  pub enable_aim_assist : Bool
  pub enable_esp : Bool
  pub enable_recoil_control : Bool
  pub use_high_priority : Bool
  pub compression : CompressionSettings
  pub prediction : PredictionParams

-- How a stream prints a `float`, and `std::stof`, with `none` for its exceptions.
pub record FloatText : Type 0 where
  pub print : ℕ → List ℕ
  pub stof : List ℕ → Option ℕ

-- The bytes of a code point of one to three bytes in UTF-8.
abbrev pub utf8 : ℕ → List ℕ
utf8 c =
    if ltb c 0x80
    then c ∷ []
    else if ltb c 0x800
    then (0xC0 + c / 64) ∷ ((0x80 + c % 64) ∷ [])
    else (0xE0 + c / 4096) ∷ ((0x80 + c / 64 % 64) ∷ ((0x80 + c % 64) ∷ []))

-- The bytes of a literal.
abbrev pub bytes : String → List ℕ
bytes String.[] = []
bytes (String.◌∷◌ c s) = utf8 (code c) ++ bytes s

-- `operator==` of texts.
abbrev pub text_eq : List ℕ → List ℕ → Bool
text_eq [] [] = true
text_eq [] (c ∷ s) = false
text_eq (b ∷ r) [] = false
text_eq (b ∷ r) (c ∷ s) = b == c && text_eq r s

-- The default constructor.
abbrev pub default_config : ClientConfig
default_config = record {
  server_ip = bytes "127.0.0.1";
  server_port = 7788;
  game_id = 1;
  target_fps = 60;
  screen_width = 800;
  screen_height = 600;
  auto_connect = true;
  auto_start = false;
  enable_aim_assist = true;
  enable_esp = true;
  enable_recoil_control = true;
  use_high_priority = true;
  compression = record {
    quality = 75;
    keyframe_interval = 30;
    use_difference_encoding = true;
    use_roi_encoding = true;
    roi_padding = 20;
  };
  prediction = record {
    max_prediction_time = 1128792064;
    position_uncertainty = 1036831949;
    velocity_uncertainty = 1045220557;
    acceleration_uncertainty = 1050253722;
    min_confidence_threshold = 1056964608;
  };
}
