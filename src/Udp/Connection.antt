-- ===== src/Udp/Connection.antt =====
-- The methods of `ClientConnection` in src/network/reliable_udp.h.
pub mod Rtt
pub mod Window
use zero_latency_yolo.Base.{
  ℕ, ◌+◌, ◌-◌, ◌*◌, ◌/◌, ◌%◌, ◌^◌, Bool, true, false, [], ltb, ◌==◌, if◌then◌else◌, u32, u64, sub64,
}
use zero_latency_yolo.Udp.{ClientConnection}
use zero_latency_yolo.Udp.Double.{blend}

-- `initConnection`.
unfoldable pub init_connection : ClientConnection → ClientConnection
init_connection c = record c {
  next_send_sequence = 1;
  next_expected_sequence = 1;
  unacked_packets = [];
  congestion_window = 1;
  slow_start_threshold = 64;
  last_rtt_ms = 0;
  smoothed_rtt_ms = 500;
  rtt_variation_ms = 250;
  retransmission_timeout_ms = 1000;
}

-- `std::abs` of a difference of two `int64_t`, from its bit pattern.
unfoldable pub abs64 : ℕ → ℕ
abs64 pattern = if ltb pattern (2 ^ 63) then pattern else 2 ^ 64 - pattern

-- `std::min(std::max(timeout, 200), 10000)`.
unfoldable pub clamp_timeout : ℕ → ℕ
clamp_timeout timeout =
    let raised = if ltb timeout 200 then 200 else timeout in
    if ltb 10000 raised then 10000 else raised

-- The new smoothed RTT and RTT variation.
unfoldable pub smooth : ClientConnection → ℕ → ℕ × ℕ
smooth c measured = if c.smoothed_rtt_ms == 0 then (measured, measured / 2) else (
  blend 3 c.smoothed_rtt_ms measured,
  blend 2 c.rtt_variation_ms (abs64 (sub64 measured c.smoothed_rtt_ms)),
)

-- `updateRtt`.
unfoldable pub update_rtt : ClientConnection → ℕ → ClientConnection
update_rtt c measured =
    let (smoothed, variation) = smooth c measured in
    record c {
      last_rtt_ms = measured;
      smoothed_rtt_ms = smoothed;
      rtt_variation_ms = variation;
      retransmission_timeout_ms = clamp_timeout (u64 (smoothed + 4 * variation));
    }

-- `increaseCongestionWindow`. `congestion_window += 1.0 / congestion_window` stores a sum of type
-- `double` into a `uint32_t`: the fraction is cut off, so the sum differs from the window only where
-- that is 1. (A window of 0, where C++ leaves the conversion undefined, does not arise.)
unfoldable pub increase_congestion_window : ClientConnection → ClientConnection
increase_congestion_window c =
    if ltb c.congestion_window c.slow_start_threshold
    then record c { congestion_window = u32 (c.congestion_window + 1) }
    else record c {
      congestion_window = if c.congestion_window == 1 then 2 else c.congestion_window;
    }

unfoldable pub halved : ℕ → ℕ
halved window = if ltb (window / 2) 2 then 2 else window / 2

-- `handlePacketLoss`.
unfoldable pub handle_packet_loss : ClientConnection → Bool → ClientConnection
handle_packet_loss c true = record c {
  slow_start_threshold = halved c.congestion_window;
  congestion_window = 1;
}
handle_packet_loss c false = record c {
  slow_start_threshold = halved c.congestion_window;
  congestion_window = u32 (halved c.congestion_window + 3);
}
