-- ===== src/Udp/Server/RetransmitAll.antt =====
-- `handleRetransmissions` of src/network/reliable_udp.cpp over all clients.
use zero_latency_yolo.Base.{
  ℕ, ◌≡◌, ◌∙◌, sym, subst, List, [], ◌∷◌, ◌++◌, some, arith, ltb, sub64, ◌==◌, if◌then◌else◌,
  Bool-cases, inl, inr, append-nil, append_assoc,
}
use zero_latency_yolo.Base.Table.{lookup, Keys}
use zero_latency_yolo.Udp.{Address, PacketAckInfo, ReliableUdpConfig, ClientConnection}
use zero_latency_yolo.Udp.Connection.{handle_packet_loss}
use zero_latency_yolo.Udp.Server.{ReliableUdpServer, Stats, Effect, datagram}
use zero_latency_yolo.Udp.Server.Manage.{
  Pass, lose, retransmit_packet, retransmit_packets, retransmit_client, retransmit_clients,
  handle_retransmissions,
}
use zero_latency_yolo.Udp.Server.Retransmit.{packet_after, lookup-retransmit_client}

-- Each client is treated by itself, with the statistics and the datagrams so far.
lookup-retransmit_clients :
    (config : ReliableUdpConfig) (now id : ℕ) (m : List (ℕ × ClientConnection)) (stats : Stats)
    (effects : List Effect) (c : ClientConnection)
    → lookup id m ≡ some c
    → (stats' : Stats) × (effects' : List Effect) × (lookup id
          (retransmit_clients config now m stats effects).0
        ≡ some (retransmit_client config now c stats' effects').0)
unfolding retransmit_clients lookup
lookup-retransmit_clients config now id [] stats effects c e = cc
lookup-retransmit_clients config now id ((j, d) ∷ m) stats effects c e =
    let (d', stats', effects') = retransmit_client config now d stats effects in
    elim (Bool-cases (j == id)) [
      | inl hit ↦
          let same : d ≡ c = ground (arith, hit) in
          (
            stats,
            effects,
            subst
                (λ x.
                  (if j == id
                    then some d'
                    else lookup id (retransmit_clients config now m stats' effects').0)
                  ≡ some (retransmit_client config now x stats effects).0)
                same (ground (arith, hit)),
          )
      | inr miss ↦
          let (stats'', effects'', rest) =
            lookup-retransmit_clients config now id m stats' effects' c (ground (arith, miss)) in
          (stats'', effects'', ground (arith, miss, rest))
    ]

-- The datagrams of a pass over the packets of a client: one with the bytes of each that is overdue and
-- has been tried less than `max_retries` times.
abbrev pub resent : ℕ → ReliableUdpConfig → ℕ → Address → List (ℕ × PacketAckInfo) → List Effect
resent rto config now address [] = []
resent rto config now address ((seq, p) ∷ packets) =
    let rest = resent rto config now address packets in
    if ltb rto (sub64 now p.timestamp)
    then if ltb p.retries config.max_retries then datagram address p.content ∷ rest else rest
    else rest

abbrev pub resent_all : ReliableUdpConfig → ℕ → List (ℕ × ClientConnection) → List Effect
resent_all config now [] = []
resent_all config now ((id, c) ∷ clients) =
    resent c.retransmission_timeout_ms config now c.address c.unacked_packets
    ++ resent_all config now clients

-- One round: what is sent, and that the timeout and the address of the client stay.
effects-retransmit_packet :
    (config : ReliableUdpConfig) (now seq : ℕ) (p : PacketAckInfo) (pass : Pass)
    → let pass' = (retransmit_packet config now seq p pass).1 in
      (pass'.effects
        ≡ pass.effects
          ++ resent pass.client.retransmission_timeout_ms config now pass.client.address
              ((seq, p) ∷ []))
      × (pass'.client.retransmission_timeout_ms ≡ pass.client.retransmission_timeout_ms)
      × (pass'.client.address ≡ pass.client.address)
unfolding retransmit_packet lose handle_packet_loss
effects-retransmit_packet config now seq p pass = ground (arith, append-nil pass.effects)

resent-append :
    (rto : ℕ) (config : ReliableUdpConfig) (now : ℕ) (address : Address) (seq : ℕ)
    (p : PacketAckInfo) (packets : List (ℕ × PacketAckInfo))
    → resent rto config now address ((seq, p) ∷ packets)
      ≡ resent rto config now address ((seq, p) ∷ []) ++ resent rto config now address packets
resent-append rto config now address seq p packets = ground arith

effects-retransmit_packets :
    (config : ReliableUdpConfig) (now : ℕ) (packets : List (ℕ × PacketAckInfo)) (pass : Pass)
    → (retransmit_packets config now packets pass).1.effects
      ≡ pass.effects
        ++ resent pass.client.retransmission_timeout_ms config now pass.client.address packets
unfolding retransmit_packets
effects-retransmit_packets config now [] pass = sym (append-nil pass.effects)
effects-retransmit_packets config now ((seq, p) ∷ packets) pass =
    let pass' = (retransmit_packet config now seq p pass).1 in
    let rto = pass.client.retransmission_timeout_ms in
    let a = pass.client.address in
    let (sent, same_timeout, same_address) = effects-retransmit_packet config now seq p pass in
    effects-retransmit_packets config now packets pass'
    ∙ rw (sent, same_timeout, same_address, resent-append rto config now a seq p packets)
        (append_assoc pass.effects (resent rto config now a ((seq, p) ∷ []))
          (resent rto config now a packets))

effects-retransmit_clients :
    (config : ReliableUdpConfig) (now : ℕ) (m : List (ℕ × ClientConnection)) (stats : Stats)
    (effects : List Effect)
    → (retransmit_clients config now m stats effects).2 ≡ effects ++ resent_all config now m
unfolding retransmit_clients retransmit_client
effects-retransmit_clients config now [] stats effects = sym (append-nil effects)
effects-retransmit_clients config now ((id, c) ∷ m) stats effects =
    let pass : Pass = record { client = c; expired = []; stats = stats; effects = effects } in
    let done = (retransmit_packets config now c.unacked_packets pass).1 in
    effects-retransmit_clients config now m done.stats done.effects
    ∙ rw (effects-retransmit_packets config now c.unacked_packets pass) (
        append_assoc effects
          (resent c.retransmission_timeout_ms config now c.address c.unacked_packets)
          (resent_all config now m))

-- Where no two waiting packets of a client have the same number, `handleRetransmissions` keeps the
-- client, and what it makes of each of these packets depends on the packet's own age and number of
-- tries, and on the client's timeout, alone: a packet that has not waited longer than the timeout
-- stays as it is; one that has is given up when it has been tried `max_retries` times or more, and
-- otherwise counts one more retry and waits again from now. For each packet of each client that is
-- retried, and for no other, a datagram with its bytes goes to the client's address.
pub lookup-handle_retransmissions :
    (s : ReliableUdpServer) (now id seq : ℕ) (c : ClientConnection)
    → lookup id s.clients ≡ some c
    → Keys c.unacked_packets
    → (c' : ClientConnection) × (lookup id (handle_retransmissions s now).0.clients ≡ some c')
      × (lookup seq c'.unacked_packets
          ≡ packet_after c.retransmission_timeout_ms s.config now (lookup seq c.unacked_packets))
      × ((handle_retransmissions s now).1 ≡ resent_all s.config now s.clients)
unfolding handle_retransmissions
lookup-handle_retransmissions s now id seq c there h =
    let (stats, effects, found) =
      lookup-retransmit_clients s.config now id s.clients s.stats [] c there in
    (
      _,
      found,
      lookup-retransmit_client s.config now seq c stats effects h,
      effects-retransmit_clients s.config now s.clients s.stats [],
    )
