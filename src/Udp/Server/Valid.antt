-- ===== src/Udp/Server/Valid.antt =====
-- What holds of every connection that the server of src/network/reliable_udp.cpp keeps.
use zero_latency_yolo.Base.{
  ℕ, ◌≤◌, ◌<◌, ◌^◌, Bool, true, List, [], ◌∷◌, arith, ◌==◌, ltb, leb, some-cases, All, if-cases,
  sub64,
}
use zero_latency_yolo.Base.Table.{lookup, Keys, Keys-insert, Keys-erase, All-insert, All-erase}
use zero_latency_yolo.Protocol.{ClientInfo}
use zero_latency_yolo.Udp.{ReliableUdpConfig, Address, ClientConnection, PacketAckInfo}
use zero_latency_yolo.Udp.Connection.{
  init_connection, update_rtt, increase_congestion_window, handle_packet_loss, halved,
}
use zero_latency_yolo.Udp.Connection.Rtt.{clamp_timeout_bounds}
use zero_latency_yolo.Udp.Server.{new_connection, refreshed, Stats, Effect}
use zero_latency_yolo.Udp.Server.Send.{track}
use zero_latency_yolo.Udp.Server.Receive.{acknowledge}
use zero_latency_yolo.Udp.Server.Manage.{
  Pass, lose, retried, retransmit_packet, retransmit_packets, retransmit_client,
}
use zero_latency_yolo.Udp.Server.Sweep.{Keys-erase_all, All-erase_all}
use zero_latency_yolo.Udp.Server.Retransmit.{Keys-retransmit_packets}

-- The numbers that rule when and how much is sent.
pub record IsPaced (window threshold timeout : ℕ) : Type 0 where
  pub window_low : 1 ≤ window
  pub window_word : window < 2 ^ 32
  pub threshold_low : 2 ≤ threshold
  pub threshold_word : threshold < 2 ^ 32
  pub timeout_low : 200 ≤ timeout
  pub timeout_high : timeout ≤ 10000

-- No packet has been tried more often than the configuration allows.
abbrev pub Retries : ReliableUdpConfig → List (ℕ × PacketAckInfo) → Type 0
Retries config = All (λ e. e.1.retries ≤ config.max_retries)

pub record IsConnection (config : ReliableUdpConfig) (c : ClientConnection) : Type 0 where
  pub paced : IsPaced c.congestion_window c.slow_start_threshold c.retransmission_timeout_ms
  pub keys : Keys c.unacked_packets
  pub retries : Retries config c.unacked_packets

pub IsConnection-new_connection :
    (config : ReliableUdpConfig) (id : ℕ) (a : Address) (info : ClientInfo) (now : ℕ)
    → IsConnection config (new_connection id a info now)
unfolding new_connection init_connection
IsConnection-new_connection config id a info now = record {
  paced = record {
    window_low = omega arith;
    window_word = omega arith;
    threshold_low = omega arith;
    threshold_word = omega arith;
    timeout_low = omega arith;
    timeout_high = omega arith;
  };
  keys = tt;
  retries = tt;
}

pub IsConnection-refreshed :
    (config : ReliableUdpConfig) (c : ClientConnection) (info : ClientInfo) (now : ℕ)
    → IsConnection config c
    → IsConnection config (refreshed c info now)
unfolding refreshed
IsConnection-refreshed config c info now h = record {
  paced = h.paced;
  keys = h.keys;
  retries = h.retries;
}

abbrev Paced : ClientConnection → Type 0
Paced c = IsPaced c.congestion_window c.slow_start_threshold c.retransmission_timeout_ms

update_rtt-Paced : (c : ClientConnection) (measured : ℕ) → Paced c → Paced (update_rtt c measured)
unfolding update_rtt
update_rtt-Paced c measured h =
    let (low, high) = clamp_timeout_bounds _ in
    record {
      window_low = h.window_low;
      window_word = h.window_word;
      threshold_low = h.threshold_low;
      threshold_word = h.threshold_word;
      timeout_low = low;
      timeout_high = high;
    }

increase_congestion_window-Paced :
    (c : ClientConnection) → Paced c → Paced (increase_congestion_window c)
unfolding increase_congestion_window
increase_congestion_window-Paced c h = record {
  window_low = ground (arith, h.window_low, h.window_word, h.threshold_word);
  window_word = ground (arith, h.window_word, h.threshold_word);
  threshold_low = ground (arith, h.threshold_low);
  threshold_word = ground (arith, h.threshold_word);
  timeout_low = ground (arith, h.timeout_low);
  timeout_high = ground (arith, h.timeout_high);
}

lose-Paced :
    (config : ReliableUdpConfig) (first : Bool) (c : ClientConnection)
    → Paced c
    → Paced (lose config first c)
unfolding lose handle_packet_loss halved
lose-Paced config first c h = record {
  window_low = ground (arith, h.window_low);
  window_word = ground (arith, h.window_word);
  threshold_low = ground (arith, h.threshold_low);
  threshold_word = ground (arith, h.threshold_word, h.window_word);
  timeout_low = ground (arith, h.timeout_low);
  timeout_high = ground (arith, h.timeout_high);
}

-- An acknowledgement.
pub acknowledge-IsConnection :
    (config : ReliableUdpConfig) (c : ClientConnection) (sequence now : ℕ)
    → IsConnection config c
    → IsConnection config (acknowledge config c sequence now)
unfolding acknowledge
acknowledge-IsConnection config c sequence now h =
    some-cases (IsConnection config) (lookup sequence c.unacked_packets) (λ _. h)
      (λ p _.
        let measured = update_rtt-Paced c (sub64 now p.timestamp) h.paced in
        record {
          paced =
              if-cases Paced config.congestion_control_enabled
                (λ _. increase_congestion_window-Paced _ measured) (λ _. measured);
          keys = Keys-erase sequence c.unacked_packets h.keys;
          retries = All-erase _ sequence c.unacked_packets h.retries;
        })

-- A packet that starts to wait for its acknowledgement.
pub track-IsConnection :
    (config : ReliableUdpConfig) (c : ClientConnection) (content : List ℕ) (now : ℕ)
    → IsConnection config c
    → IsConnection config (track c content now)
unfolding track
track-IsConnection config c content now h = record {
  paced = h.paced;
  keys = Keys-insert c.next_send_sequence _ c.unacked_packets h.keys;
  retries = All-insert _ c.next_send_sequence _ c.unacked_packets (omega arith) h.retries;
}

-- A pass of retransmissions.
retransmit_packet-Paced :
    (config : ReliableUdpConfig) (now seq : ℕ) (p : PacketAckInfo) (pass : Pass)
    → Paced pass.client
    → Paced (retransmit_packet config now seq p pass).1.client
unfolding retransmit_packet
retransmit_packet-Paced config now seq p pass h =
    let P = λ (r : PacketAckInfo × Pass). Paced r.1.client in
    if-cases P (ltb pass.client.retransmission_timeout_ms (sub64 now p.timestamp))
      (λ _.
        if-cases P (leb config.max_retries p.retries) (λ _. lose-Paced config true pass.client h)
          (λ _. lose-Paced config ((retried p now).retries == 1) pass.client h))
      (λ _. h)

retransmit_packet-retries-le :
    (config : ReliableUdpConfig) (now seq : ℕ) (p : PacketAckInfo) (pass : Pass)
    → config.max_retries < 256
    → p.retries ≤ config.max_retries
    → (retransmit_packet config now seq p pass).0.retries ≤ config.max_retries
unfolding retransmit_packet retried
retransmit_packet-retries-le config now seq p pass hm hr = ground arith

retransmit_packets_kept :
    (config : ReliableUdpConfig) (now : ℕ) (m : List (ℕ × PacketAckInfo)) (pass : Pass)
    → config.max_retries < 256
    → Retries config m
    → Paced pass.client
    → Retries config (retransmit_packets config now m pass).0
      × Paced (retransmit_packets config now m pass).1.client
unfolding retransmit_packets
retransmit_packets_kept config now [] pass hm hr h = (tt, h)
retransmit_packets_kept config now ((j, p) ∷ m) pass hm hr h =
    let pass' = (retransmit_packet config now j p pass).1 in
    let (retries, paced) =
      retransmit_packets_kept config now m pass' hm hr.1
        (retransmit_packet-Paced config now j p pass h) in
    ((retransmit_packet-retries-le config now j p pass hm hr.0, retries), paced)

pub retransmit_client-IsConnection :
    (config : ReliableUdpConfig) (now : ℕ) (c : ClientConnection) (stats : Stats)
    (effects : List Effect)
    → config.max_retries < 256
    → IsConnection config c
    → IsConnection config (retransmit_client config now c stats effects).0
unfolding retransmit_client
retransmit_client-IsConnection config now c stats effects hm h =
    let pass : Pass = record { client = c; expired = []; stats = stats; effects = effects } in
    let (retries, paced) =
      retransmit_packets_kept config now c.unacked_packets pass hm h.retries h.paced in
    record {
      paced = paced;
      keys = Keys-erase_all _ _ (Keys-retransmit_packets config now c.unacked_packets pass h.keys);
      retries = All-erase_all _ _ _ retries;
    }
