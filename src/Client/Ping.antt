-- ===== src/Client/Ping.antt =====
-- The smoothed ping of `updatePing` of src/client/network.cpp.
use zero_latency_yolo.Base.{ℕ, ◌^◌, ◌≤◌, ◌<◌, ◌≡◌, refl, ◌⊎◌, inl, inr, List, [], ◌∷◌, All, arith}
use zero_latency_yolo.Client.{smoothed_ping}

-- The pings after some round trips, one after the other.
unfoldable pub ping_after : ℕ → List ℕ → ℕ
ping_after ping [] = ping
ping_after ping (rtt ∷ rtts) = ping_after (smoothed_ping ping rtt) rtts

abbrev pub IsBetween : ℕ → ℕ → ℕ → Type 0
IsBetween lo hi n = (lo ≤ n) × (n ≤ hi)

smoothed_ping-IsBetween :
    (lo hi ping rtt : ℕ)
    → hi < 2 ^ 16
    → (ping ≡ 0) ⊎ IsBetween lo hi ping
    → IsBetween lo hi rtt
    → IsBetween lo hi (smoothed_ping ping rtt)
unfolding smoothed_ping
smoothed_ping-IsBetween lo hi ping rtt small h r = ground (arith, small, h, r)

ping_after-IsBetween :
    (lo hi ping : ℕ) (rtts : List ℕ)
    → hi < 2 ^ 16
    → IsBetween lo hi ping
    → All (IsBetween lo hi) rtts
    → IsBetween lo hi (ping_after ping rtts)
unfolding ping_after
ping_after-IsBetween lo hi ping [] small h r = h
ping_after-IsBetween lo hi ping (rtt ∷ rtts) small h r =
    ping_after-IsBetween lo hi (smoothed_ping ping rtt) rtts small
      (smoothed_ping-IsBetween lo hi ping rtt small (inr h) r.0) r.1

-- From a ping of 0, after one round trip or more, the smoothed ping lies between bounds that the round
-- trips keep, where the upper one is below 2^16: no step of the average wraps.
pub ping_after_bounds :
    (lo hi rtt : ℕ) (rtts : List ℕ)
    → hi < 2 ^ 16
    → IsBetween lo hi rtt
    → All (IsBetween lo hi) rtts
    → IsBetween lo hi (ping_after 0 (rtt ∷ rtts))
unfolding ping_after
ping_after_bounds lo hi rtt rtts small first rest =
    ping_after-IsBetween lo hi (smoothed_ping 0 rtt) rtts small
      (smoothed_ping-IsBetween lo hi 0 rtt small (inl refl) first) rest
