-- ===== src/ClientConfig/Save.antt =====
-- The text that `saveClientConfig` of src/client/config.cpp writes.
use zero_latency_yolo.Base.{ℕ, Bool, List, [], ◌∷◌, ◌++◌, if◌then◌else◌}
use zero_latency_yolo.Base.Decimal.{print}
use zero_latency_yolo.ClientConfig.{ClientConfig, FloatText, bytes}

-- A line of the file.
pub data Line : Type 0 where
  comment : List ℕ → Line
  empty : Line
  setting : List ℕ → List ℕ → Line

-- `b ? "true" : "false"`.
unfoldable pub print_bool : Bool → List ℕ
print_bool b = if b then bytes "true" else bytes "false"

-- The lines in the order in which they are written.
unfoldable pub saved : FloatText → ClientConfig → List Line
saved ft c =
    comment (bytes "# 零延迟YOLO FPS云辅助系统客户端配置文件")
    ∷ empty
    ∷ comment (bytes "# 服务器设置")
    ∷ setting (bytes "server_ip") c.server_ip
    ∷ setting (bytes "server_port") (print c.server_port)
    ∷ empty
    ∷ comment (bytes "# 游戏设置")
    ∷ setting (bytes "game_id") (print c.game_id)
    ∷ setting (bytes "screen_width") (print c.screen_width)
    ∷ setting (bytes "screen_height") (print c.screen_height)
    ∷ empty
    ∷ comment (bytes "# 性能设置")
    ∷ setting (bytes "target_fps") (print c.target_fps)
    ∷ setting (bytes "use_high_priority") (print_bool c.use_high_priority)
    ∷ empty
    ∷ comment (bytes "# 功能设置")
    ∷ setting (bytes "enable_aim_assist") (print_bool c.enable_aim_assist)
    ∷ setting (bytes "enable_esp") (print_bool c.enable_esp)
    ∷ setting (bytes "enable_recoil_control") (print_bool c.enable_recoil_control)
    ∷ empty
    ∷ comment (bytes "# 启动设置")
    ∷ setting (bytes "auto_connect") (print_bool c.auto_connect)
    ∷ setting (bytes "auto_start") (print_bool c.auto_start)
    ∷ empty
    ∷ comment (bytes "# 压缩设置")
    ∷ setting (bytes "compression_quality") (print c.compression.quality)
    ∷ setting (bytes "keyframe_interval") (print c.compression.keyframe_interval)
    ∷ setting (bytes "use_difference_encoding") (print_bool c.compression.use_difference_encoding)
    ∷ setting (bytes "use_roi_encoding") (print_bool c.compression.use_roi_encoding)
    ∷ setting (bytes "roi_padding") (print c.compression.roi_padding)
    ∷ empty
    ∷ comment (bytes "# 预测设置")
    ∷ setting (bytes "max_prediction_time") (ft.print c.prediction.max_prediction_time)
    ∷ setting (bytes "position_uncertainty") (ft.print c.prediction.position_uncertainty)
    ∷ setting (bytes "velocity_uncertainty") (ft.print c.prediction.velocity_uncertainty)
    ∷ setting (bytes "acceleration_uncertainty") (ft.print c.prediction.acceleration_uncertainty)
    ∷ setting (bytes "min_confidence_threshold") (ft.print c.prediction.min_confidence_threshold)
    ∷ []

-- The bytes of a line, less its end.
unfoldable pub line_bytes : Line → List ℕ
line_bytes (comment text) = text
line_bytes empty = []
line_bytes (setting key value) = key ++ 61 ∷ value

unfoldable pub file_bytes : List Line → List ℕ
file_bytes [] = []
file_bytes (l ∷ ls) = line_bytes l ++ 10 ∷ file_bytes ls

-- What `saveClientConfig` writes to a file that it can open.
unfoldable pub save_client_config : FloatText → ClientConfig → List ℕ
save_client_config ft c = file_bytes (saved ft c)
