-- ===== src/Udp/Connection/Window.antt =====
-- The congestion window of src/network/reliable_udp.h.
use zero_latency_yolo.Base.{ℕ, zero, suc, ◌+◌, ◌^◌, ◌≤◌, ◌<◌, ◌≡◌, arith, true}
use Prim.Native.Nat.{min}
use zero_latency_yolo.Udp.{ClientConnection}
use zero_latency_yolo.Udp.Connection.{increase_congestion_window, handle_packet_loss, halved}

-- The window after `n` acknowledgements.
unfoldable pub acknowledged : ℕ → ClientConnection → ClientConnection
acknowledged zero c = c
acknowledged (suc n) c = acknowledged n (increase_congestion_window c)

acknowledged_below :
    (n : ℕ) (c : ClientConnection)
    → 2 ≤ c.slow_start_threshold
    → c.slow_start_threshold < 2 ^ 32
    → c.congestion_window ≤ c.slow_start_threshold
    → (acknowledged n c).congestion_window ≡ min (c.congestion_window + n) c.slow_start_threshold
unfolding acknowledged increase_congestion_window
acknowledged_below zero c hs hb hw = omega arith
acknowledged_below (suc n) c hs hb hw =
    ground (arith, acknowledged_below n (increase_congestion_window c))

-- For a 32-bit window: after a timeout it starts again at 1 and every acknowledgement adds 1, until it has come
-- to half of what it was (at least 2); it then stays there, whatever the number of further
-- acknowledgements: the growth by 1 for each window, which the comment in the code describes, does
-- not take place.
pub acknowledged-handle_packet_loss :
    (n : ℕ) (c : ClientConnection)
    → c.congestion_window < 2 ^ 32
    → (acknowledged n (handle_packet_loss c true)).congestion_window
      ≡ min (n + 1) (halved c.congestion_window)
unfolding handle_packet_loss halved
acknowledged-handle_packet_loss n c h =
    ground (arith, acknowledged_below n (handle_packet_loss c true))
