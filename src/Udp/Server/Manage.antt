-- ===== src/Udp/Server/Manage.antt =====
-- The management thread of src/network/reliable_udp.cpp: timeouts, retransmissions, aggregates.
use zero_latency_yolo.Base.{
  ℕ, ◌+◌, Bool, true, List, [], ◌∷◌, ◌++◌, map, length, ltb, leb, ◌==◌, ◌&&◌, if◌then◌else◌, u8,
  u64, sub64,
}
use zero_latency_yolo.Base.Table.{erase}
use zero_latency_yolo.Udp.{ReliableUdpConfig, ClientConnection, PacketAckInfo, AggregatedPacket}
use zero_latency_yolo.Udp.Connection.{handle_packet_loss}
use zero_latency_yolo.Udp.Server.{
  ReliableUdpServer, Stats, Effect, datagram, client_timeout, count_sent,
}

-- The first loop of a sweep: the keys of the entries that a test picks.
unfoldable pub keys_where {ℓ} : {V : Type ℓ} → (V → Bool) → List (ℕ × V) → List ℕ
keys_where test [] = []
keys_where test ((k, v) ∷ m) = if test v then k ∷ keys_where test m else keys_where test m

-- The second: `for (id : picked) m.erase(id);`.
unfoldable pub erase_all {ℓ} : {V : Type ℓ} → List ℕ → List (ℕ × V) → List (ℕ × V)
erase_all [] m = m
erase_all (k ∷ ks) m = erase_all ks (erase k m)

unfoldable pub is_idle : ReliableUdpConfig → ℕ → ClientConnection → Bool
is_idle config now c = ltb config.timeout_ms (sub64 now c.last_active_time)

-- `checkClientTimeouts`.
unfoldable pub check_client_timeouts : ReliableUdpServer → ℕ → ReliableUdpServer × List Effect
check_client_timeouts s now =
    let idle = keys_where (is_idle s.config now) s.clients in
    (record s { clients = erase_all idle s.clients }, map client_timeout idle)

-- What one pass over a client's packets has done so far.
pub record Pass : Type 0 where
  pub client : ClientConnection
  pub expired : List ℕ
  pub stats : Stats
  pub effects : List Effect

unfoldable pub lose : ReliableUdpConfig → Bool → ClientConnection → ClientConnection
lose config first c =
    if config.congestion_control_enabled && first then handle_packet_loss c true else c

unfoldable pub retried : PacketAckInfo → ℕ → PacketAckInfo
retried p now = record p { retries = u8 (p.retries + 1); timestamp = now }

-- One round of the loop over `unacked_packets`: what becomes of the packet, and of the rest.
unfoldable pub retransmit_packet :
    ReliableUdpConfig → ℕ → ℕ → PacketAckInfo → Pass → PacketAckInfo × Pass
retransmit_packet config now seq p pass =
    if ltb pass.client.retransmission_timeout_ms (sub64 now p.timestamp)
    then if leb config.max_retries p.retries
      then (
        p,
        record pass {
          client = lose config true pass.client;
          expired = pass.expired ++ seq ∷ [];
          stats = record (pass.stats) { packets_dropped = u64 (pass.stats.packets_dropped + 1) };
        },
      )
      else (
        retried p now,
        record pass {
          client = lose config ((retried p now).retries == 1) pass.client;
          stats = record (count_sent pass.stats (length p.content)) {
            packets_retransmitted = u64 (pass.stats.packets_retransmitted + 1);
          };
          effects = pass.effects ++ datagram pass.client.address p.content ∷ [];
        },
      )
    else (p, pass)

unfoldable pub retransmit_packets :
    ReliableUdpConfig → ℕ → List (ℕ × PacketAckInfo) → Pass → List (ℕ × PacketAckInfo) × Pass
retransmit_packets config now [] pass = ([], pass)
retransmit_packets config now ((seq, p) ∷ packets) pass =
    let (p', pass') = retransmit_packet config now seq p pass in
    let (packets', done) = retransmit_packets config now packets pass' in
    ((seq, p') ∷ packets', done)

-- One client: the loop over its packets, then the removal of those that expired.
unfoldable pub retransmit_client :
    ReliableUdpConfig
    → ℕ
    → ClientConnection
    → Stats
    → List Effect
    → ClientConnection × Stats × List Effect
retransmit_client config now c stats effects =
    let (packets, pass) =
      retransmit_packets config now c.unacked_packets
        (record { client = c; expired = []; stats = stats; effects = effects }) in
    (
      record (pass.client) { unacked_packets = erase_all pass.expired packets },
      pass.stats,
      pass.effects,
    )

unfoldable pub retransmit_clients :
    ReliableUdpConfig
    → ℕ
    → List (ℕ × ClientConnection)
    → Stats
    → List Effect
    → List (ℕ × ClientConnection) × Stats × List Effect
retransmit_clients config now [] stats effects = ([], stats, effects)
retransmit_clients config now ((id, c) ∷ clients) stats effects =
    let (c', stats', effects') = retransmit_client config now c stats effects in
    let (clients', stats'', effects'') = retransmit_clients config now clients stats' effects' in
    ((id, c') ∷ clients', stats'', effects'')

-- `handleRetransmissions`.
unfoldable pub handle_retransmissions : ReliableUdpServer → ℕ → ReliableUdpServer × List Effect
handle_retransmissions s now =
    let (clients, stats, effects) = retransmit_clients s.config now s.clients s.stats [] in
    (record s { clients = clients; stats = stats }, effects)

unfoldable pub is_due : ReliableUdpConfig → ℕ → AggregatedPacket → Bool
is_due config now aggr = ltb config.aggregation_time_ms (sub64 now aggr.creation_time)

-- `handleAggregatedPackets`, which removes the aggregates that are due.
unfoldable pub handle_aggregated_packets : ReliableUdpServer → ℕ → ReliableUdpServer × List Effect
handle_aggregated_packets s now =
    let due = keys_where (is_due s.config now) s.aggregated_packets in
    (record s { aggregated_packets = erase_all due s.aggregated_packets }, [])

-- One round of `managementThreadFunc`.
unfoldable pub manage : ReliableUdpServer → ℕ → ReliableUdpServer × List Effect
manage s now =
    let (s₁, e₁) = check_client_timeouts s now in
    let (s₂, e₂) = handle_retransmissions s₁ now in
    let (s₃, e₃) = handle_aggregated_packets s₂ now in (s₃, e₁ ++ (e₂ ++ e₃))
