-- ===== src/Udp/Order.antt =====
-- `isSequenceNewer` of src/network/reliable_udp.cpp as an order of sequence numbers that wrap.
use zero_latency_yolo.Base.{ℕ, ◌+◌, ◌<◌, ◌^◌, ◌≡◌, ◌≢◌, true, false, not, arith, u32}
use zero_latency_yolo.Udp.{is_sequence_newer}

-- A 32-bit number that is 1 or more and fewer than 2 ^ 31 steps ahead is newer, and not the other way round, also where
-- the count has wrapped around in between.
pub is_sequence_newer_ahead :
    (a steps : ℕ)
    → a < 2 ^ 32
    → 0 < steps
    → steps < 2 ^ 31
    → (is_sequence_newer (u32 (a + steps)) a ≡ true)
      × (is_sequence_newer a (u32 (a + steps)) ≡ false)
unfolding is_sequence_newer
is_sequence_newer_ahead a steps ha hd hs = ground arith

-- Of two different 32-bit sequence numbers exactly one is the newer one.
pub is_sequence_newer_total :
    (a b : ℕ)
    → a < 2 ^ 32
    → b < 2 ^ 32
    → a ≢ b
    → is_sequence_newer a b ≡ not (is_sequence_newer b a)
unfolding is_sequence_newer
is_sequence_newer_total a b ha hb n = ground arith
