-- ===== src/ClientConfig/Examples.antt =====
-- The theorems on the client's settings at concrete inputs.
use zero_latency_yolo.Base.{ℕ, ◌^◌, ◌<◌, ◌≡◌, refl, ap, true, some, none, false, arith}
use zero_latency_yolo.Base.Decimal.{print, scan, scan-print}
use zero_latency_yolo.ClientConfig.{ClientConfig, FloatText, default_config, bytes}
use zero_latency_yolo.ClientConfig.Save.{save_client_config}
use zero_latency_yolo.ClientConfig.Load.{
  load_client_config, contents, trim, trim_left, trim_right, read_lines, read_line, lines_after,
  read_assignment, split_at_equals, set_option, set_compression, set_prediction, read_bool,
}
use zero_latency_yolo.ClientConfig.RoundTrip.{
  IsPrintable, IsPrinted, IsValue-print, load_client_config-save, load_client_config-save_large,
}

-- Values that are printed as numbers.
abbrev whole_numbers : FloatText
whole_numbers = record { print = print; stof = λ s. some (scan s 0) }

all-IsPrinted : (x : ℕ) → IsPrinted whole_numbers x
all-IsPrinted x = (IsValue-print x, ap some (scan-print x))

at_fps-IsPrintable :
    (fps : ℕ)
    → fps < 2 ^ 32
    → IsPrintable whole_numbers (record default_config { target_fps = fps })
at_fps-IsPrintable fps small = record {
  server_ip = (omega arith, unfold trim trim_left trim_right in refl);
  server_port = omega arith;
  game_id = omega arith;
  target_fps = small;
  screen_width = omega arith;
  screen_height = omega arith;
  quality = omega arith;
  keyframe_interval = omega arith;
  roi_padding = omega arith;
  max_prediction_time = all-IsPrinted 1128792064;
  position_uncertainty = all-IsPrinted 1036831949;
  velocity_uncertainty = all-IsPrinted 1045220557;
  acceleration_uncertainty = all-IsPrinted 1050253722;
  min_confidence_threshold = all-IsPrinted 1056964608;
}

abbrev other : ClientConfig
other = record default_config { server_ip = bytes "10.0.0.7"; auto_start = true; target_fps = 144 }

load_client_config-save_example :
    load_client_config whole_numbers
      (contents (save_client_config whole_numbers default_config))
      other
    ≡ ((default_config, true), none)
load_client_config-save_example =
    load_client_config-save whole_numbers default_config other (at_fps-IsPrintable 60 (omega arith))
      (omega arith)

-- A line with blanks, a comment, a line without a value, and an unknown key.
test_load :
    load_client_config whole_numbers
      (contents (bytes "  server_ip = a b\t\n# auto_start=1\nesp\nspeed=9\nauto_start=1"))
      default_config
    ≡ ((record default_config { server_ip = bytes "a b"; auto_start = true }, true), none)
unfolding load_client_config read_lines read_line lines_after read_assignment split_at_equals trim
    trim_left trim_right set_option set_compression set_prediction read_bool
test_load = refl

abbrev fast : ClientConfig
fast = record default_config { target_fps = 3000000000 }

load_client_config-save_large_example :
    (load_client_config whole_numbers (contents (save_client_config whole_numbers fast)) other).0.1
    ≡ false
load_client_config-save_large_example =
    load_client_config-save_large whole_numbers fast other
      (at_fps-IsPrintable 3000000000 (omega arith)) (omega arith)
