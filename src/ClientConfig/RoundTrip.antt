-- ===== src/ClientConfig/RoundTrip.antt =====
-- What `saveClientConfig` of src/client/config.cpp writes, read by `loadClientConfig`.
use zero_latency_yolo.Base.{
  ℕ, ◌-◌, ◌^◌, ◌<◌, ◌≤◌, ◌≡◌, refl, ap, Bool, true, false, List, [], ◌∷◌, none, some, arith, All,
  ltb,
}
use native.Mathlib.Nat.{mod-eq_of_lt}
use zero_latency_yolo.Base.Decimal.{print, print-IsNumeral, IsDigits, stoi-print, to_unsigned}
use zero_latency_yolo.ClientConfig.{ClientConfig, FloatText, bytes}
use zero_latency_yolo.ClientConfig.Save.{print_bool, saved, save_client_config}
use zero_latency_yolo.ClientConfig.Load.{
  read_bool, read_unsigned, set_option, set_compression, set_prediction, contents,
  load_client_config,
}
use zero_latency_yolo.ClientConfig.Lines.{
  IsValue, IsLine, NoNewline, trim-solid, All-IsLine, apply, apply_all, load-file_bytes,
  load-file_bytes_throws,
}

NoNewline-digits : (s : List ℕ) → IsDigits s → NoNewline s
NoNewline-digits [] h = tt
NoNewline-digits (c ∷ s) h = (omega (arith, h.0), NoNewline-digits s h.2)

solid_digits : (s : List ℕ) → IsDigits s → All (λ c. 35 < c) s
solid_digits [] h = tt
solid_digits (c ∷ s) h = (omega (arith, h.0), solid_digits s h.2)

pub IsValue-print : (n : ℕ) → IsValue (print n)
IsValue-print n =
    let numeral = (print-IsNumeral n).1 in
    (NoNewline-digits (print n) numeral, trim-solid (print n) (solid_digits (print n) numeral))

IsValue-print_bool : (b : Bool) → IsValue (print_bool b)
unfolding print_bool
IsValue-print_bool true = (omega arith, trim-solid (bytes "true") (omega arith))
IsValue-print_bool false = (omega arith, trim-solid (bytes "false") (omega arith))

read_bool-print_bool : (b : Bool) → read_bool (print_bool b) ≡ b
unfolding read_bool print_bool
read_bool-print_bool true = refl
read_bool-print_bool false = refl

read_unsigned-print :
    (width n : ℕ) → n < 2 ^ width → n < 2 ^ 31 → read_unsigned width (print n) ≡ some n
unfolding read_unsigned to_unsigned
read_unsigned-print width n fits small =
    let within : ltb (2 ^ 31 - 1) n ≡ false = ground arith in
    rw (stoi-print n, within) (ap some (mod-eq_of_lt fits))

-- A `float` that is printed on one line and read back as it was.
abbrev pub IsPrinted : FloatText → ℕ → Type 0
IsPrinted ft x = IsValue (ft.print x) × (ft.stof (ft.print x) ≡ some x)

-- The members fit their types, the address stands on one line with no blanks at its ends, and each
-- `float` is read back as it was printed.
pub record IsPrintable (ft : FloatText) (c : ClientConfig) : Type 0 where
  pub server_ip : IsValue c.server_ip
  pub server_port : c.server_port < 2 ^ 16
  pub game_id : c.game_id < 2 ^ 8
  pub target_fps : c.target_fps < 2 ^ 32
  pub screen_width : c.screen_width < 2 ^ 16
  pub screen_height : c.screen_height < 2 ^ 16
  pub quality : c.compression.quality < 2 ^ 8
  pub keyframe_interval : c.compression.keyframe_interval < 2 ^ 8
  pub roi_padding : c.compression.roi_padding < 2 ^ 8
  pub max_prediction_time : IsPrinted ft c.prediction.max_prediction_time
  pub position_uncertainty : IsPrinted ft c.prediction.position_uncertainty
  pub velocity_uncertainty : IsPrinted ft c.prediction.velocity_uncertainty
  pub acceleration_uncertainty : IsPrinted ft c.prediction.acceleration_uncertainty
  pub min_confidence_threshold : IsPrinted ft c.prediction.min_confidence_threshold

saved-IsLine : (ft : FloatText) (c : ClientConfig) → IsPrintable ft c → All IsLine (saved ft c)
unfolding saved
saved-IsLine ft c h = All-IsLine (saved ft c) refl (
    search (
      IsValue-print, IsValue-print_bool, h.server_ip, h.max_prediction_time.0,
      h.position_uncertainty.0, h.velocity_uncertainty.0, h.acceleration_uncertainty.0,
      h.min_confidence_threshold.0,
    ))

apply_all-saved :
    (ft : FloatText) (c old : ClientConfig)
    → IsPrintable ft c
    → c.target_fps < 2 ^ 31
    → apply_all ft old (saved ft c) ≡ some c
unfolding saved apply_all apply set_option set_compression set_prediction
apply_all-saved ft c old h small =
    rw
      (
        read_unsigned-print 16 c.server_port h.server_port (omega arith),
        read_unsigned-print 8 c.game_id h.game_id (omega arith),
        read_unsigned-print 16 c.screen_width h.screen_width (omega arith),
        read_unsigned-print 16 c.screen_height h.screen_height (omega arith),
        read_unsigned-print 32 c.target_fps h.target_fps small,
        read_unsigned-print 8 c.compression.quality h.quality (omega arith),
        read_unsigned-print 8 c.compression.keyframe_interval h.keyframe_interval (omega arith),
        read_unsigned-print 8 c.compression.roi_padding h.roi_padding (omega arith),
        h.max_prediction_time.1,
        h.position_uncertainty.1,
        h.velocity_uncertainty.1,
        h.acceleration_uncertainty.1,
        h.min_confidence_threshold.1,
      )
      (rw
        (
          read_bool-print_bool c.use_high_priority,
          read_bool-print_bool c.enable_aim_assist,
          read_bool-print_bool c.enable_esp,
          read_bool-print_bool c.enable_recoil_control,
          read_bool-print_bool c.auto_connect,
          read_bool-print_bool c.auto_start,
          read_bool-print_bool c.compression.use_difference_encoding,
          read_bool-print_bool c.compression.use_roi_encoding,
        )
        refl)

-- A client's settings that can be printed, with a frame rate below 2 ^ 31, come back whole from the
-- file that saveClientConfig writes: loadClientConfig returns true and overwrites every setting,
-- whatever they were.
pub load_client_config-save :
    (ft : FloatText) (c old : ClientConfig)
    → IsPrintable ft c
    → c.target_fps < 2 ^ 31
    → load_client_config ft (contents (save_client_config ft c)) old ≡ ((c, true), none)
unfolding save_client_config
load_client_config-save ft c old h small =
    load-file_bytes ft old c (saved ft c) (saved-IsLine ft c h) (apply_all-saved ft c old h small)

read_unsigned-print_large : (width n : ℕ) → 2 ^ 31 ≤ n → read_unsigned width (print n) ≡ none
unfolding read_unsigned
read_unsigned-print_large width n large =
    let beyond : ltb (2 ^ 31 - 1) n ≡ true = ground arith in rw (stoi-print n, beyond) refl

apply_all-saved_large :
    (ft : FloatText) (c old : ClientConfig)
    → IsPrintable ft c
    → 2 ^ 31 ≤ c.target_fps
    → apply_all ft old (saved ft c) ≡ none
unfolding saved apply_all apply set_option set_compression set_prediction
apply_all-saved_large ft c old h large =
    rw
      (
        read_unsigned-print 16 c.server_port h.server_port (omega arith),
        read_unsigned-print 8 c.game_id h.game_id (omega arith),
        read_unsigned-print 16 c.screen_width h.screen_width (omega arith),
        read_unsigned-print 16 c.screen_height h.screen_height (omega arith),
        read_unsigned-print_large 32 c.target_fps large,
      )
      refl

-- With a frame rate of 2 ^ 31 or more, which its type allows, loadClientConfig returns false on the
-- file that saveClientConfig writes.
pub load_client_config-save_large :
    (ft : FloatText) (c old : ClientConfig)
    → IsPrintable ft c
    → 2 ^ 31 ≤ c.target_fps
    → (load_client_config ft (contents (save_client_config ft c)) old).0.1 ≡ false
unfolding save_client_config
load_client_config-save_large ft c old h large =
    load-file_bytes_throws ft old (saved ft c) (saved-IsLine ft c h)
      (apply_all-saved_large ft c old h large)
