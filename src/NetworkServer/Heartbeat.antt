-- ===== src/NetworkServer/Heartbeat.antt =====
-- A heartbeat on its way through `handlePacket` of src/network/network_server.cpp and back.
use zero_latency_yolo.Base.{
  ℕ, ◌+◌, ◌^◌, ◌<◌, ◌≤◌, ◌≡◌, refl, ◌∙◌, ap, subst, true, false, List, [], ◌∷◌, some, arith, length,
  u32, u64, Option-cases, inl, inr,
}
use zero_latency_yolo.Protocol.{Abi, Packet, Body, heartbeat, new_packet, next_sequence}
use zero_latency_yolo.Protocol.Serialize.{serialize, body_size}
use zero_latency_yolo.Protocol.Deserialize.{
  PacketHeader, created, create_from_buffer, create_typed, blank_body, read_header,
}
use zero_latency_yolo.Protocol.Delivery.{length-serialize}
use zero_latency_yolo.Protocol.Fits.{Fits, FitsBody}
use zero_latency_yolo.Protocol.Delivery.{create_from_buffer-serialize}
use zero_latency_yolo.Udp.{Address, ClientConnection}
use zero_latency_yolo.Udp.Server.{
  ReliableUdpServer, success, datagram, packet_sent, client_at, find_client_by_addr,
}
use zero_latency_yolo.Udp.Server.Send.{SendResult, taken}
use zero_latency_yolo.Udp.Server.Send as Send
use zero_latency_yolo.Udp.Server.Sending.{send_packet_direct, sent_directly_whole}
use zero_latency_yolo.NetworkServer.{
  NetworkServer, done, after_send, send_packet, handle_heartbeat, handle_body, handle_packet,
}

-- The packet that answers a heartbeat, under the counter that is left once the heartbeat is read.
abbrev pub reply : Abi → NetworkServer → List ℕ → ℕ → ℕ → Packet
reply abi s content ping now =
    (new_packet (create_from_buffer abi s.counter now content).1 now 0 (heartbeat ping)).0

create_typed-counter :
    (abi : Abi) (counter now : ℕ) (h : PacketHeader) (content : List ℕ)
    → counter < 2 ^ 32
    → (create_typed abi counter now h content).1 < 2 ^ 32
unfolding create_typed new_packet next_sequence
create_typed-counter abi counter now h content small = elim (Option-cases (blank_body abi h.type)) [
  | inl unknown ↦ ground (arith, small, unknown)
  | inr (body, known) ↦ ground (arith, small, known)
]

create_from_buffer-counter :
    (abi : Abi) (counter now : ℕ) (content : List ℕ)
    → counter < 2 ^ 32
    → (create_from_buffer abi counter now content).1 < 2 ^ 32
unfolding create_from_buffer
create_from_buffer-counter abi counter now content small =
    elim (Option-cases (read_header content)) [
      | inl unread ↦ ground (arith, small, unread)
      | inr (head, read) ↦
          ground (arith, small, read, create_typed-counter abi counter now head.0 content small)
    ]

-- What a running server with an open socket sends goes out at once, where packets are not aggregated.
network_sends :
    (s : ReliableUdpServer) (content : List ℕ) (a : Address) (now : ℕ)
    → s.socket_open ≡ true
    → s.running ≡ true
    → s.config.use_packet_aggregation ≡ false
    → 0 < length content
    → length content ≤ 65536
    → (s' : ReliableUdpServer) × (Send.send_packet s content a true now (taken (length content))
        ≡ (s', success tt, datagram a content ∷ packet_sent ∷ []))
network_sends s content a now opened running single some_bytes small = (
  _,
  send_packet_direct s content a true now (taken (length content)) opened running some_bytes small
        (ground (arith, single))
      ∙ sent_directly_whole s content a now,
)

pub send_packet_whole :
    (abi : Abi) (s : NetworkServer) (p : Packet) (a : Address) (now : ℕ)
    → s.network.socket_open ≡ true
    → s.network.running ≡ true
    → s.network.config.use_packet_aggregation ≡ false
    → length (serialize abi p) ≤ 65536
    → (s' : NetworkServer) × (send_packet abi s p a now (taken (length (serialize abi p)))
        ≡ done s' (success tt) (datagram a (serialize abi p) ∷ packet_sent ∷ []) [])
unfolding send_packet after_send
send_packet_whole abi s p a now opened running single small =
    let (network, sent) =
      network_sends s.network (serialize abi p) a now opened running single
        (omega (arith, length-serialize abi p)) small in
    (_, ap (after_send s (length (serialize abi p))) sent)

pub handle_packet-created :
    (abi : Abi) (s : NetworkServer) (content : List ℕ) (p : Packet) (a : Address) (now : ℕ)
    (answer : SendResult)
    → 22 ≤ length content
    → (create_from_buffer abi s.counter now content).0 ≡ created p
    → handle_packet abi s content a now answer
      ≡ handle_body abi
          (record s {
            counter = (create_from_buffer abi s.counter now content).1;
            packets_received = u64 (s.packets_received + 1);
            bytes_received = u64 (s.bytes_received + length content);
          })
          p.body
          a
          now
          answer
unfolding handle_packet
handle_packet-created abi s content p a now answer long made = ground (arith, long, made)

handle_body-heartbeat :
    (abi : Abi) (s : NetworkServer) (body : Body) (ping : ℕ) (a : Address) (now id : ℕ)
    (c : ClientConnection) (answer : SendResult)
    → body ≡ heartbeat ping
    → client_at a s.network.clients ≡ some (id, c)
    → handle_body abi s body a now answer
      ≡ send_packet abi
          (record s { counter = u32 (s.counter + 1) })
          (record { sequence = s.counter; timestamp = now; body = heartbeat ping })
          a
          now
          answer
unfolding handle_body handle_heartbeat find_client_by_addr new_packet next_sequence
handle_body-heartbeat abi s body ping a now id c answer same at = ground (arith, same, at)

body_size-heartbeat : (abi : Abi) (ping : ℕ) → body_size abi (heartbeat ping) ≡ 4
unfolding body_size
body_size-heartbeat abi ping = refl

-- The heartbeat of a known client, of any fields that fit their types, is answered: the running
-- server with an open socket, which does not aggregate, reports success and sends the client one
-- datagram, of which the packet factory of the client makes a heartbeat with the same ping and the
-- time of the answer, where the socket takes the datagram whole.
pub handle_packet-heartbeat :
    (abi : Abi) (s : NetworkServer) (p : Packet) (ping : ℕ) (a : Address) (now id : ℕ)
    (c : ClientConnection) (counter arrival : ℕ)
    → Fits abi p
    → p.body ≡ heartbeat ping
    → s.network.socket_open ≡ true
    → s.network.running ≡ true
    → s.network.config.use_packet_aggregation ≡ false
    → client_at a s.network.clients ≡ some (id, c)
    → s.counter < 2 ^ 32
    → now < 2 ^ 64
    → let r = reply abi s (serialize abi p) ping now in
      (s' : NetworkServer) × (handle_packet abi s
          (serialize abi p)
          a
          now
          (taken (length (serialize abi r)))
        ≡ done s' (success tt) (datagram a (serialize abi r) ∷ packet_sent ∷ []) [])
      × ((create_from_buffer abi counter arrival (serialize abi r)).0 ≡ created r)
      × (r.body ≡ heartbeat ping)
      × (r.timestamp ≡ now)
unfolding new_packet next_sequence
handle_packet-heartbeat abi s p ping a now id c counter arrival fits same opened running single at
      small clock =
    let r = reply abi s (serialize abi p) ping now in
    let answer = taken (length (serialize abi r)) in
    let made = create_from_buffer-serialize abi s.counter now p fits in
    let length_r : length (serialize abi r) ≡ 26 =
      omega (arith, length-serialize abi r, body_size-heartbeat abi ping) in
    let received : NetworkServer = record s {
      counter = (create_from_buffer abi s.counter now (serialize abi p)).1;
      packets_received = u64 (s.packets_received + 1);
      bytes_received = u64 (s.bytes_received + length (serialize abi p));
    } in
    let (s', sent) =
      send_packet_whole abi (record received { counter = u32 (received.counter + 1) }) r a now
        opened running single (omega (arith, length_r)) in
    (
      s',
      handle_packet-created abi s (serialize abi p) p a now answer
            (omega (arith, length-serialize abi p)) made
          ∙ handle_body-heartbeat abi received p.body ping a now id c answer same at
          ∙ sent,
      create_from_buffer-serialize abi counter arrival r (record {
        sequence = create_from_buffer-counter abi s.counter now (serialize abi p) small;
        timestamp = clock;
        body = subst (FitsBody abi) same fits.body;
        size = omega (arith, body_size-heartbeat abi ping);
      }),
      refl,
      refl,
    )
