-- ===== src/Udp/Server/Preserve.antt =====
-- The invariant under the calls of src/network/reliable_udp.cpp that send, receive and manage.
use zero_latency_yolo.Base.{
  ℕ, ◌+◌, ◌<◌, ◌≡◌, refl, subst₂, sym, Bool, not, List, Option, none, some, arith, length, ◌==◌,
  ltb, if◌then◌else◌, some-cases, subst, if-cases, ◌&&◌,
}
use zero_latency_yolo.Base.Table.{lookup, insert, lookup-All}
use zero_latency_yolo.Protocol.{Abi, header_size}
use zero_latency_yolo.Protocol.Deserialize.{PacketHeader, read_header, recomputed, is_valid_header}
use zero_latency_yolo.Udp.{ReliableUdpConfig, Address, ClientConnection, is_same_addr}
use zero_latency_yolo.Udp.Connection.{update_rtt, increase_congestion_window}
use zero_latency_yolo.Udp.Server.{
  ReliableUdpServer, Effect, Result, client_at, remove_client, has_client,
}
use zero_latency_yolo.Udp.Server.Send.{
  SendResult, refused, taken, track, track_client, aggregate, sent_directly, send_packet,
  max_packet_size, no_address, add_to_aggregate,
}
use zero_latency_yolo.Udp.Server.Receive.{
  acknowledge, handle_ack, touch, dispatch, handle_received_packet, receive_datagram, send_ack,
}
use zero_latency_yolo.Udp.Server.Valid.{IsConnection, acknowledge-IsConnection, track-IsConnection}
use zero_latency_yolo.Udp.Server.Invariant.{
  AreClients, IsServer, erase-AreClients, renew-AreClients, found-IsConnection,
}

-- A client that is found by its address and renewed where it stands.
at-AreClients :
    (config : ReliableUdpConfig) (a : Address) (m : List (ℕ × ClientConnection))
    (e : ℕ × ClientConnection) (c : ClientConnection)
    → client_at a m ≡ some e
    → e.1.address ≡ c.address
    → (IsConnection config e.1 → IsConnection config c)
    → AreClients config m
    → AreClients config (insert e.0 c m)
at-AreClients config a m e c at same keep h =
    let (there, valid) = found-IsConnection config a m e h at in
    renew-AreClients config e.0 c e.1 m there same (keep valid) h

pub remove_client-IsServer :
    (s : ReliableUdpServer) (id : ℕ) → IsServer s → IsServer (remove_client s id).0
unfolding remove_client
remove_client-IsServer s id h =
    if-cases (λ (r : ReliableUdpServer × Result (Unit {0}) × List Effect). IsServer r.0)
      (has_client s id)
      (λ _. record { byte = h.byte; clients = erase-AreClients s.config id s.clients h.clients })
      (λ _. h)

track_client-AreClients :
    (config : ReliableUdpConfig) (m : List (ℕ × ClientConnection)) (content : List ℕ) (a : Address)
    (now : ℕ)
    → AreClients config m
    → AreClients config (track_client m content a now)
unfolding track_client track
track_client-AreClients config m content a now h =
    some-cases (AreClients config) (client_at a m) (λ _. h)
      (λ e at.
        if-cases (AreClients config) (ltb 0 e.0)
          (λ _. at-AreClients config a m e _ at refl (track-IsConnection config e.1 content now) h)
          (λ _. h))

sent_directly-IsServer :
    (s : ReliableUdpServer) (content : List ℕ) (a : Address) (reliable : Bool) (now : ℕ)
    (result : SendResult)
    → IsServer s
    → IsServer (sent_directly s content a reliable now result).0
unfolding sent_directly
sent_directly-IsServer s content a reliable now refused h = h
sent_directly-IsServer s content a reliable now (taken count) h =
    if-cases (λ (r : ReliableUdpServer × Result (Unit {0}) × List Effect). IsServer r.0)
      (not (count == length content)) (λ _. h)
      (λ _. record {
        byte = h.byte;
        clients =
            if-cases (AreClients s.config) reliable
              (λ _. track_client-AreClients s.config s.clients content a now h.clients)
              (λ _. h.clients);
      })

-- The branch that keeps a packet for an aggregate does not touch the clients.
unfoldable MaybeServer : Option ReliableUdpServer → Type 0
MaybeServer none = Unit
MaybeServer (some s) = IsServer s

some-MaybeServer :
    (s s' : ReliableUdpServer)
    → s'.config ≡ s.config
    → s'.clients ≡ s.clients
    → IsServer s
    → MaybeServer (some s')
unfolding MaybeServer
some-MaybeServer s s' config clients h = record {
  byte = subst (λ c. c.max_retries < 256) (sym config) h.byte;
  clients = subst₂ AreClients (sym config) (sym clients) h.clients;
}

none-MaybeServer : MaybeServer none
unfolding MaybeServer
none-MaybeServer = tt

MaybeServer-IsServer : (s : ReliableUdpServer) → MaybeServer (some s) → IsServer s
unfolding MaybeServer
MaybeServer-IsServer s h = h

aggregate-MaybeServer :
    (s : ReliableUdpServer) (content : List ℕ) (a : Address) (reliable : Bool) (now : ℕ)
    → IsServer s
    → MaybeServer (aggregate s content a reliable now)
unfolding aggregate
aggregate-MaybeServer s content a reliable now h =
    let joined =
      if is_same_addr a no_address
      then none
      else add_to_aggregate s.config content now s.aggregated_packets in
    some-cases MaybeServer joined
      (λ _.
        if-cases MaybeServer reliable (λ _. some-MaybeServer s _ refl refl h)
          (λ _. none-MaybeServer))
      (λ _ _. some-MaybeServer s _ refl refl h)

pub send_packet-IsServer :
    (s : ReliableUdpServer) (content : List ℕ) (a : Address) (reliable : Bool) (now : ℕ)
    (result : SendResult)
    → IsServer s
    → IsServer (send_packet s content a reliable now result).0
unfolding send_packet
send_packet-IsServer s content a reliable now result h =
    let P = λ (r : ReliableUdpServer × Result (Unit {0}) × List Effect). IsServer r.0 in
    let direct = sent_directly-IsServer s content a reliable now result h in
    if-cases P (not s.socket_open) (λ _. h)
      (λ _.
        if-cases P (not s.running) (λ _. h)
          (λ _.
            if-cases P (length content == 0) (λ _. h)
              (λ _.
                if-cases P (ltb max_packet_size (length content)) (λ _. h)
                  (λ _.
                    if-cases P (s.config.use_packet_aggregation && ltb (length content) 1024)
                      (λ _.
                        some-cases P (aggregate s content a reliable now) (λ _. direct)
                          (λ s' e. MaybeServer-IsServer s' (
                            subst MaybeServer e
                              (aggregate-MaybeServer s content a reliable now h))))
                      (λ _. direct)))))

touch-IsServer :
    (s : ReliableUdpServer) (a : Address) (now : ℕ) → IsServer s → IsServer (touch s a now).0
unfolding touch
touch-IsServer s a now h =
    some-cases (λ (r : ReliableUdpServer × ℕ). IsServer r.0) (client_at a s.clients) (λ _. h)
      (λ e at. record {
        byte = h.byte;
        clients =
            at-AreClients s.config a s.clients e (record (e.1) { last_active_time = now }) at refl
              (λ v. record { paced = v.paced; keys = v.keys; retries = v.retries }) h.clients;
      })

address-acknowledge :
    (config : ReliableUdpConfig) (c : ClientConnection) (sequence now : ℕ)
    → c.address ≡ (acknowledge config c sequence now).address
unfolding acknowledge update_rtt increase_congestion_window
address-acknowledge config c sequence now = ground arith

handle_ack-IsServer :
    (s : ReliableUdpServer) (sequence id now : ℕ)
    → IsServer s
    → IsServer (handle_ack s sequence id now)
unfolding handle_ack
handle_ack-IsServer s sequence id now h =
    some-cases IsServer (lookup id s.clients) (λ _. h)
      (λ c there. record {
        byte = h.byte;
        clients =
            renew-AreClients s.config id _ c s.clients there
              (address-acknowledge s.config c sequence now)
              (acknowledge-IsConnection s.config c sequence now
                (lookup-All _ id c s.clients h.clients.valid there))
              h.clients;
      })

dispatch-IsServer :
    (abi : Abi) (s : ReliableUdpServer) (p : PacketHeader) (bytes : List ℕ) (a : Address) (now : ℕ)
    → IsServer s
    → IsServer (dispatch abi s p bytes a now).0
unfolding dispatch send_ack
dispatch-IsServer abi s p bytes a now h =
    let touched = touch-IsServer s a now h in
    let (s₁, id) = touch s a now in
    if-cases (λ (r : ReliableUdpServer × List Effect). IsServer r.0) (p.type == abi.ack)
      (λ _.
        if-cases IsServer (ltb 0 id) (λ _. handle_ack-IsServer s₁ p.sequence id now touched)
          (λ _. touched))
      (λ _. record { byte = touched.byte; clients = touched.clients })

handle_received_packet-IsServer :
    (abi : Abi) (s : ReliableUdpServer) (bytes : List ℕ) (a : Address) (now : ℕ)
    → IsServer s
    → IsServer (handle_received_packet abi s bytes a now).0
unfolding handle_received_packet
handle_received_packet-IsServer abi s bytes a now h =
    let P = λ (r : ReliableUdpServer × List Effect). IsServer r.0 in
    if-cases P (ltb (length bytes) header_size) (λ _. h)
      (λ _.
        some-cases P (read_header bytes) (λ _. h)
          (λ e _.
            if-cases P (not (is_valid_header e.0)) (λ _. h)
              (λ _.
                if-cases P (not (header_size + e.0.size == length bytes)) (λ _. h)
                  (λ _.
                    if-cases P (not (recomputed bytes == e.0.checksum)) (λ _. h)
                      (λ _. dispatch-IsServer abi s e.0 bytes a now h)))))

pub receive_datagram-IsServer :
    (abi : Abi) (s : ReliableUdpServer) (bytes : List ℕ) (a : Address) (now : ℕ)
    → IsServer s
    → IsServer (receive_datagram abi s bytes a now).0
unfolding receive_datagram
receive_datagram-IsServer abi s bytes a now h =
    handle_received_packet-IsServer abi _ bytes a now
      (record { byte = h.byte; clients = h.clients })
