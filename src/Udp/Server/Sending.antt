-- ===== src/Udp/Server/Sending.antt =====
-- What `sendPacket` of src/network/reliable_udp.cpp promises, and where it does not keep it.
use zero_latency_yolo.Base.{
  ℕ, ◌-◌, ◌≤◌, ◌<◌, ◌^◌, ◌≡◌, ◌≢◌, refl, ◌∙◌, Bool, true, false, List, [], ◌∷◌, none, some, arith,
  length, ◌==◌, ◌&&◌, ltb, if◌then◌else◌, some-cases,
}
use zero_latency_yolo.Base.Table.{lookup, Keys, lookup-insert}
use zero_latency_yolo.Udp.{Address, ClientConnection, is_same_addr}
use zero_latency_yolo.Udp.Server.{
  ReliableUdpServer, datagram, packet_sent, success, client_at, count_sent,
}
use zero_latency_yolo.Udp.Server.Send.{
  SendResult, taken, aggregate, track, track_client, sent_directly, send_packet, no_address,
  add_to_aggregate,
}
use zero_latency_yolo.Udp.Server.Manage.{
  manage, check_client_timeouts, handle_retransmissions, handle_aggregated_packets, is_idle,
}
use zero_latency_yolo.Udp.Server.Sweep.{lookup-check_client_timeouts}

-- The two ways of `sendPacket` once its arguments are checked.
pub send_packet_direct :
    (s : ReliableUdpServer) (content : List ℕ) (a : Address) (reliable : Bool) (now : ℕ)
    (result : SendResult)
    → s.socket_open ≡ true
    → s.running ≡ true
    → 0 < length content
    → length content ≤ 65536
    → (s.config.use_packet_aggregation && ltb (length content) 1024) ≡ false
    → send_packet s content a reliable now result ≡ sent_directly s content a reliable now result
unfolding send_packet
send_packet_direct s content a reliable now result ho hr hn hm ha = ground (arith, ho, hr, ha)

lookup-track_client :
    (m : List (ℕ × ClientConnection)) (content : List ℕ) (a : Address) (now id : ℕ)
    (c : ClientConnection)
    → client_at a m ≡ some (id, c)
    → id ≢ 0
    → lookup id (track_client m content a now) ≡ some (track c content now)
unfolding track_client
lookup-track_client m content a now id c at n =
    ground (arith, at, lookup-insert id id (track c content now) m)

lookup-track :
    (c : ClientConnection) (content : List ℕ) (now k : ℕ)
    → lookup k (track c content now).unacked_packets ≡ (
        if c.next_send_sequence == k
        then some (record {
          sequence = c.next_send_sequence;
          timestamp = now;
          retries = 0;
          content = content;
        })
        else lookup k c.unacked_packets)
unfolding track
lookup-track c content now k = lookup-insert c.next_send_sequence k _ c.unacked_packets

pub sent_directly_whole :
    (s : ReliableUdpServer) (content : List ℕ) (a : Address) (now : ℕ)
    → sent_directly s content a true now (taken (length content)) ≡ (
      record s {
        clients = track_client s.clients content a now;
        stats = count_sent s.stats (length content);
      },
      success tt,
      datagram a content ∷ packet_sent ∷ [],
    )
unfolding sent_directly
sent_directly_whole s content a now = ground arith

-- A reliable packet of 1 to 65536 bytes that a running server with an open socket does not aggregate,
-- and that the socket takes whole, to a client that the server finds by its address under an id other
-- than 0: `sendPacket` reports success; one datagram with the packet goes out, and the client keeps the
-- packet, not tried again yet, among those that wait for an acknowledgement, under the client's next
-- number; what waits under other numbers is unchanged.
pub lookup-send_packet :
    (s : ReliableUdpServer) (content : List ℕ) (a : Address) (now id : ℕ) (c : ClientConnection)
    (k : ℕ)
    → s.socket_open ≡ true
    → s.running ≡ true
    → 0 < length content
    → length content ≤ 65536
    → (s.config.use_packet_aggregation && ltb (length content) 1024) ≡ false
    → client_at a s.clients ≡ some (id, c)
    → id ≢ 0
    → let (s', result, effects) = send_packet s content a true now (taken (length content)) in
      (result ≡ success tt)
      × (effects ≡ datagram a content ∷ packet_sent ∷ [])
      × (c' : ClientConnection) × (lookup id s'.clients ≡ some c')
      × (lookup k c'.unacked_packets ≡ (
          if c.next_send_sequence == k
          then some (record {
            sequence = c.next_send_sequence;
            timestamp = now;
            retries = 0;
            content = content;
          })
          else lookup k c.unacked_packets))
lookup-send_packet s content a now id c k ho hr hn hm ha at n =
    rw
      (
        send_packet_direct s content a true now (taken (length content)) ho hr hn hm ha,
        sent_directly_whole s content a now,
      )
      (
        refl,
        refl,
        track c content now,
        lookup-track_client s.clients content a now id c at n,
        lookup-track c content now k,
      )

-- An aggregate always takes a reliable packet.
aggregate_reliable :
    (s : ReliableUdpServer) (content : List ℕ) (a : Address) (now : ℕ)
    → (s' : ReliableUdpServer) × (aggregate s content a true now ≡ some s')
      × (s'.clients ≡ s.clients)
unfolding aggregate
aggregate_reliable s content a now =
    let joined =
      if is_same_addr a no_address
      then none
      else add_to_aggregate s.config content now s.aggregated_packets in
    some-cases (λ o. (s' : ReliableUdpServer) × (o ≡ some s') × (s'.clients ≡ s.clients)) joined
      (λ _. (_, refl, refl)) (λ _ _. (_, refl, refl))

send_packet_kept :
    (s s' : ReliableUdpServer) (content : List ℕ) (a : Address) (now : ℕ) (result : SendResult)
    → s.socket_open ≡ true
    → s.running ≡ true
    → s.config.use_packet_aggregation ≡ true
    → 0 < length content
    → length content < 1024
    → aggregate s content a true now ≡ some s'
    → send_packet s content a true now result ≡ (s', success tt, [])
unfolding send_packet
send_packet_kept s s' content a now result ho hr hg hn hs kept = ground (arith, ho, hr, hg, kept)

-- With aggregation, a reliable packet of 1 to 1023 bytes to a running server with an open socket is
-- reported as sent, and no datagram goes out; the clients are unchanged, so that no retransmission
-- covers it; and what a later round of the management thread sends is what it would send if there
-- were no aggregates.
pub send_packet_unsent :
    (s : ReliableUdpServer) (content : List ℕ) (a : Address) (now later : ℕ) (result : SendResult)
    → s.socket_open ≡ true
    → s.running ≡ true
    → s.config.use_packet_aggregation ≡ true
    → 0 < length content
    → length content < 1024
    → let (s', status, effects) = send_packet s content a true now result in
      (status ≡ success tt)
      × (effects ≡ [])
      × (s'.clients ≡ s.clients)
      × ((manage s' later).1 ≡ (manage (record s' { aggregated_packets = [] }) later).1)
unfolding manage check_client_timeouts handle_retransmissions handle_aggregated_packets
send_packet_unsent s content a now later result ho hr hg hn hs =
    let (s', kept, clients) = aggregate_reliable s content a now in
    rw (send_packet_kept s s' content a now result ho hr hg hn hs kept) (refl, refl, clients, refl)

-- A clock that is set back makes the check for timeouts remove a client that was active after the
-- time that the clock now shows, where no two clients have the same id: the difference of the two
-- times wraps around to more than the timeout (unless it is within the timeout of 2 ^ 64).
pub check_client_timeouts_clock_back :
    (s : ReliableUdpServer) (now id : ℕ) (c : ClientConnection)
    → Keys s.clients
    → lookup id s.clients ≡ some c
    → now < c.last_active_time
    → c.last_active_time < 2 ^ 64
    → c.last_active_time - now < 2 ^ 64 - s.config.timeout_ms
    → lookup id (check_client_timeouts s now).0.clients ≡ none
unfolding is_idle
check_client_timeouts_clock_back s now id c h there back word small =
    lookup-check_client_timeouts s now id h ∙ ground (arith, there)
