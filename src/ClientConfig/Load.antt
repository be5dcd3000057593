-- ===== src/ClientConfig/Load.antt =====
-- `loadClientConfig` of src/client/config.cpp.
use zero_latency_yolo.Base.{
  ℕ, Bool, true, false, List, [], ◌∷◌, ◌++◌, Option, none, some, ◌&&◌, ◌||◌, ◌==◌, length,
  if◌then◌else◌,
}
use zero_latency_yolo.Base.Maybe.{◌>>=◌}
use zero_latency_yolo.Base.Decimal.{stoi, to_unsigned}
use zero_latency_yolo.ClientConfig.{ClientConfig, FloatText, bytes, text_eq, default_config}
use zero_latency_yolo.ClientConfig.Save.{save_client_config}

-- The calls of `getline`: the lines less their ends, after the part of a line that is read.
unfoldable pub lines_after : List ℕ → List ℕ → List (List ℕ)
lines_after read [] = if length read == 0 then [] else read ∷ []
lines_after read (c ∷ s) =
    let ended = read ∷ lines_after [] s in
    let longer = lines_after (read ++ (c ∷ [])) s in if c == 10 then ended else longer

-- The text before the first `=` and the text after it.
unfoldable pub split_at_equals : List ℕ → Option (List ℕ × List ℕ)
split_at_equals [] = none
split_at_equals (c ∷ s) =
    let rest = split_at_equals s in
    if c == 61 then some ([], s) else rest >>= λ r. some (c ∷ r.0, r.1)

abbrev pub is_blank : ℕ → Bool
is_blank c = c == 32 || c == 9

-- The two calls of `erase`, before the first and after the last byte that is not blank.
unfoldable pub trim_left : List ℕ → List ℕ
trim_left [] = []
trim_left (c ∷ s) = let rest = trim_left s in if is_blank c then rest else c ∷ s

unfoldable pub trim_right : List ℕ → List ℕ
trim_right [] = []
trim_right (c ∷ s) =
    let rest = trim_right s in if is_blank c && length rest == 0 then [] else c ∷ rest

unfoldable pub trim : List ℕ → List ℕ
trim s = trim_right (trim_left s)

unfoldable pub read_bool : List ℕ → Bool
read_bool value = text_eq value (bytes "true") || text_eq value (bytes "1")

-- `static_cast<uintN_t>(std::stoi(value))`.
unfoldable pub read_unsigned : ℕ → List ℕ → Option ℕ
read_unsigned width value = stoi value >>= λ i. some (to_unsigned width i)

-- The chain of tests on the key, in three parts; an unknown key changes nothing, and `none` is an
-- exception.
unfoldable pub set_prediction : FloatText → ClientConfig → List ℕ → List ℕ → Option ClientConfig
set_prediction ft c key value =
    if text_eq key (bytes "max_prediction_time")
    then (ft.stof value >>= (λ x.
        some (record c { prediction = record (c.prediction) { max_prediction_time = x } })))
    else if text_eq key (bytes "position_uncertainty")
    then (ft.stof value >>= (λ x.
        some (record c { prediction = record (c.prediction) { position_uncertainty = x } })))
    else if text_eq key (bytes "velocity_uncertainty")
    then (ft.stof value >>= (λ x.
        some (record c { prediction = record (c.prediction) { velocity_uncertainty = x } })))
    else if text_eq key (bytes "acceleration_uncertainty")
    then (ft.stof value >>= (λ x.
        some (record c { prediction = record (c.prediction) { acceleration_uncertainty = x } })))
    else if text_eq key (bytes "min_confidence_threshold")
    then (ft.stof value >>= (λ x.
        some (record c { prediction = record (c.prediction) { min_confidence_threshold = x } })))
    else some c

unfoldable pub set_compression : FloatText → ClientConfig → List ℕ → List ℕ → Option ClientConfig
set_compression ft c key value =
    if text_eq key (bytes "compression_quality")
    then (read_unsigned 8 value
        >>= (λ n. some (record c { compression = record (c.compression) { quality = n } })))
    else if text_eq key (bytes "keyframe_interval")
    then (read_unsigned 8 value >>= (λ n.
        some (record c { compression = record (c.compression) { keyframe_interval = n } })))
    else if text_eq key (bytes "use_difference_encoding")
    then some (record c {
      compression = record (c.compression) { use_difference_encoding = read_bool value };
    })
    else if text_eq key (bytes "use_roi_encoding")
    then some
        (record c { compression = record (c.compression) { use_roi_encoding = read_bool value } })
    else if text_eq key (bytes "roi_padding")
    then (read_unsigned 8 value
        >>= (λ n. some (record c { compression = record (c.compression) { roi_padding = n } })))
    else set_prediction ft c key value

unfoldable pub set_option : FloatText → ClientConfig → List ℕ → List ℕ → Option ClientConfig
set_option ft c key value =
    if text_eq key (bytes "server_ip")
    then some (record c { server_ip = value })
    else if text_eq key (bytes "server_port")
    then (read_unsigned 16 value >>= (λ n. some (record c { server_port = n })))
    else if text_eq key (bytes "game_id")
    then (read_unsigned 8 value >>= (λ n. some (record c { game_id = n })))
    else if text_eq key (bytes "target_fps")
    then (read_unsigned 32 value >>= (λ n. some (record c { target_fps = n })))
    else if text_eq key (bytes "screen_width")
    then (read_unsigned 16 value >>= (λ n. some (record c { screen_width = n })))
    else if text_eq key (bytes "screen_height")
    then (read_unsigned 16 value >>= (λ n. some (record c { screen_height = n })))
    else if text_eq key (bytes "auto_connect")
    then some (record c { auto_connect = read_bool value })
    else if text_eq key (bytes "auto_start")
    then some (record c { auto_start = read_bool value })
    else if text_eq key (bytes "enable_aim_assist")
    then some (record c { enable_aim_assist = read_bool value })
    else if text_eq key (bytes "enable_esp")
    then some (record c { enable_esp = read_bool value })
    else if text_eq key (bytes "enable_recoil_control")
    then some (record c { enable_recoil_control = read_bool value })
    else if text_eq key (bytes "use_high_priority")
    then some (record c { use_high_priority = read_bool value })
    else set_compression ft c key value

-- What one line does.
unfoldable pub read_assignment :
    FloatText → ClientConfig → Option (List ℕ × List ℕ) → Option ClientConfig
read_assignment ft c none = some c
read_assignment ft c (some (key, value)) = set_option ft c (trim key) (trim value)

unfoldable pub read_line : FloatText → ClientConfig → List ℕ → Option ClientConfig
read_line ft c [] = some c
read_line ft c (b ∷ s) = if b == 35 then some c else read_assignment ft c (split_at_equals (b ∷ s))

-- The loop over the lines, with what the call returns; what is set before an exception stays.
unfoldable pub read_lines : FloatText → ClientConfig → List (List ℕ) → ClientConfig × Bool
read_lines ft c [] = (c, true)
read_lines ft c (l ∷ ls) = elim (read_line ft c l) [
  | none ↦ (c, false)
  | some c' ↦ read_lines ft c' ls
]

-- What is at the path: nothing, a file that cannot be opened, or one with a text.
pub data FileAnswer : Type 0 where
  missing unreadable : FileAnswer
  contents : List ℕ → FileAnswer

-- `loadClientConfig`, with the text that it writes where the file is missing, if that can be opened.
unfoldable pub load_client_config :
    FloatText → FileAnswer → ClientConfig → (ClientConfig × Bool) × Option (List ℕ)
load_client_config ft missing c =
    ((default_config, false), some (save_client_config ft default_config))
load_client_config ft unreadable c = ((c, false), none)
load_client_config ft (contents text) c = (read_lines ft c (lines_after [] text), none)
