-- ===== src/Udp/Connection/Rtt.antt =====
-- The retransmission timeout that `updateRtt` of src/network/reliable_udp.h derives.
use zero_latency_yolo.Base.{
  ℕ, ◌+◌, ◌-◌, ◌*◌, ◌/◌, ◌^◌, ◌≤◌, ◌<◌, ◌≡◌, arith, sub64, ltb, ◌==◌, if◌then◌else◌,
}
use zero_latency_yolo.Udp.{ClientConnection}
use zero_latency_yolo.Udp.Double.{blend_two, blend_three}
use zero_latency_yolo.Udp.Connection.{abs64, clamp_timeout, smooth, update_rtt}

-- The distance of two times.
abbrev pub distance : ℕ → ℕ → ℕ
distance a b = (a - b) + (b - a)

pub clamp_timeout_bounds : (t : ℕ) → (200 ≤ clamp_timeout t) × (clamp_timeout t ≤ 10000)
unfolding clamp_timeout
clamp_timeout_bounds t = ground arith

abs64-sub64 : (a b : ℕ) → a < 2 ^ 49 → b < 2 ^ 49 → abs64 (sub64 a b) ≡ distance a b
unfolding abs64
abs64-sub64 a b ha hb = ground arith

-- For RTTs and a variation below 2 ^ 49 milliseconds: where the smoothed RTT is 0, the new one is the
-- sample and the variation half of it, and otherwise they are those of RFC 6298 in integers: 7/8 of
-- the smoothed RTT and 1/8 of the sample, 3/4 of the variation and 1/4 of the distance of the two. Each
-- is cut to an integer. The timeout is the new smoothed RTT and four times the new variation, but no
-- less than 200 and no more than 10000 milliseconds.
pub update_rtt_exact :
    (c : ClientConnection) (measured : ℕ)
    → c.smoothed_rtt_ms < 2 ^ 49
    → c.rtt_variation_ms < 2 ^ 49
    → measured < 2 ^ 49
    → let c' = update_rtt c measured in
      let sum = c'.smoothed_rtt_ms + 4 * c'.rtt_variation_ms in
      (c'.smoothed_rtt_ms
        ≡ (if c.smoothed_rtt_ms == 0 then measured else (7 * c.smoothed_rtt_ms + measured) / 8))
      × (c'.rtt_variation_ms ≡ (
          if c.smoothed_rtt_ms == 0
          then measured / 2
          else (3 * c.rtt_variation_ms + distance measured c.smoothed_rtt_ms) / 4))
      × (c'.retransmission_timeout_ms
          ≡ (if ltb sum 200 then 200 else if ltb 10000 sum then 10000 else sum))
unfolding update_rtt smooth clamp_timeout
update_rtt_exact c measured hs hv hm = ground (
  arith,
  abs64-sub64 measured c.smoothed_rtt_ms hm hs,
  blend_three c.smoothed_rtt_ms measured hs hm,
  blend_two c.rtt_variation_ms (distance measured c.smoothed_rtt_ms) hv (omega arith),
)
