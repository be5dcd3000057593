-- ===== src/Udp/Server/History.antt =====
-- Histories of calls of the server of src/network/reliable_udp.cpp.
use zero_latency_yolo.Base.{
  ℕ, ◌<◌, ◌≡◌, refl, sym, Bool, false, not, List, [], ◌∷◌, arith, length, subst, All, if-cases,
}
use zero_latency_yolo.Base.Table.{Keys, Absent}
use zero_latency_yolo.Protocol.{Abi, ClientInfo}
use zero_latency_yolo.Udp.{ReliableUdpConfig, Address, ClientConnection, is_same_addr}
use zero_latency_yolo.Udp.Server.{
  ReliableUdpServer, SystemAnswers, initialize, Stats, Effect, Result, new_server, start, stop,
  set_packet_handler, register_client, remove_client,
}
use zero_latency_yolo.Udp.Server.Send.{SendResult, send_packet}
use zero_latency_yolo.Udp.Server.Receive.{receive_datagram}
use zero_latency_yolo.Udp.Server.Manage.{
  check_client_timeouts, retransmit_client, retransmit_clients, handle_retransmissions,
  handle_aggregated_packets, manage,
}
use zero_latency_yolo.Udp.Server.Valid.{IsConnection, retransmit_client-IsConnection}
use zero_latency_yolo.Udp.Server.Addresses.{Elsewhere, Distinct}
use zero_latency_yolo.Udp.Server.Invariant.{
  IsServer, erase_all-AreClients, register_client-IsServer,
}
use zero_latency_yolo.Udp.Server.Preserve.{
  remove_client-IsServer, send_packet-IsServer, receive_datagram-IsServer,
}
use zero_latency_yolo.Udp.Server.Retransmit.{address-retransmit_client}

-- What a pass over all clients keeps of each.
Absent-retransmit_clients :
    (config : ReliableUdpConfig) (now k : ℕ) (m : List (ℕ × ClientConnection)) (stats : Stats)
    (effects : List Effect)
    → Absent k m
    → Absent k (retransmit_clients config now m stats effects).0
unfolding retransmit_clients
Absent-retransmit_clients config now k [] stats effects h = tt
Absent-retransmit_clients config now k ((j, c) ∷ m) stats effects h =
    (h.0, Absent-retransmit_clients config now k m _ _ h.1)

Elsewhere-retransmit_clients :
    (config : ReliableUdpConfig) (now : ℕ) (a : Address) (m : List (ℕ × ClientConnection))
    (stats : Stats) (effects : List Effect)
    → Elsewhere a m
    → Elsewhere a (retransmit_clients config now m stats effects).0
unfolding retransmit_clients
Elsewhere-retransmit_clients config now a [] stats effects h = tt
Elsewhere-retransmit_clients config now a ((j, c) ∷ m) stats effects h = (
  subst (λ b. is_same_addr b a ≡ false) (sym (address-retransmit_client config now c stats effects))
      h.0,
  Elsewhere-retransmit_clients config now a m _ _ h.1,
)

Keys-retransmit_clients :
    (config : ReliableUdpConfig) (now : ℕ) (m : List (ℕ × ClientConnection)) (stats : Stats)
    (effects : List Effect)
    → Keys m
    → Keys (retransmit_clients config now m stats effects).0
unfolding retransmit_clients
Keys-retransmit_clients config now [] stats effects h = tt
Keys-retransmit_clients config now ((j, c) ∷ m) stats effects h =
    (Absent-retransmit_clients config now j m _ _ h.0, Keys-retransmit_clients config now m _ _ h.1)

Distinct-retransmit_clients :
    (config : ReliableUdpConfig) (now : ℕ) (m : List (ℕ × ClientConnection)) (stats : Stats)
    (effects : List Effect)
    → Distinct m
    → Distinct (retransmit_clients config now m stats effects).0
unfolding retransmit_clients
Distinct-retransmit_clients config now [] stats effects h = tt
Distinct-retransmit_clients config now ((j, c) ∷ m) stats effects h =
    let (c', stats', effects') = retransmit_client config now c stats effects in
    (
      subst (λ a. Elsewhere a (retransmit_clients config now m stats' effects').0)
          (sym (address-retransmit_client config now c stats effects))
          (Elsewhere-retransmit_clients config now c.address m stats' effects' h.0),
      Distinct-retransmit_clients config now m stats' effects' h.1,
    )

length-retransmit_clients :
    (config : ReliableUdpConfig) (now : ℕ) (m : List (ℕ × ClientConnection)) (stats : Stats)
    (effects : List Effect)
    → length (retransmit_clients config now m stats effects).0 ≡ length m
unfolding retransmit_clients
length-retransmit_clients config now [] stats effects = refl
length-retransmit_clients config now ((j, c) ∷ m) stats effects =
    let (c', stats', effects') = retransmit_client config now c stats effects in
    omega (arith, length-retransmit_clients config now m stats' effects')

valid-retransmit_clients :
    (config : ReliableUdpConfig) (now : ℕ) (m : List (ℕ × ClientConnection)) (stats : Stats)
    (effects : List Effect)
    → config.max_retries < 256
    → All (λ e. IsConnection config e.1) m
    → All (λ e. IsConnection config e.1) (retransmit_clients config now m stats effects).0
unfolding retransmit_clients
valid-retransmit_clients config now [] stats effects hm h = tt
valid-retransmit_clients config now ((j, c) ∷ m) stats effects hm h = (
  retransmit_client-IsConnection config now c stats effects hm h.0,
  valid-retransmit_clients config now m _ _ hm h.1,
)

handle_retransmissions-IsServer :
    (s : ReliableUdpServer) (now : ℕ) → IsServer s → IsServer (handle_retransmissions s now).0
unfolding handle_retransmissions
handle_retransmissions-IsServer s now h = record {
  byte = h.byte;
  clients = record {
    keys = Keys-retransmit_clients s.config now s.clients s.stats [] h.clients.keys;
    distinct = Distinct-retransmit_clients s.config now s.clients s.stats [] h.clients.distinct;
    count =
        omega (arith, length-retransmit_clients s.config now s.clients s.stats [], h.clients.count);
    valid = valid-retransmit_clients s.config now s.clients s.stats [] h.byte h.clients.valid;
  };
}

manage-IsServer : (s : ReliableUdpServer) (now : ℕ) → IsServer s → IsServer (manage s now).0
unfolding manage check_client_timeouts handle_aggregated_packets
manage-IsServer s now h =
    let checked : IsServer (check_client_timeouts s now).0 = record {
      byte = h.byte;
      clients = erase_all-AreClients s.config _ s.clients h.clients;
    } in
    let sent = handle_retransmissions-IsServer _ now checked in
    record { byte = sent.byte; clients = sent.clients }

-- The calls that a program makes of the server, its threads' included.
pub data Call : Type 0 where
  initializes : SystemAnswers → Call
  starts stops sets_handler : Call
  registers : Address → ClientInfo → ℕ → Call
  removes : ℕ → Call
  sends : List ℕ → Address → Bool → ℕ → SendResult → Call
  receives : List ℕ → Address → ℕ → Call
  manages : ℕ → Call

unfoldable pub call : Abi → ReliableUdpServer → Call → ReliableUdpServer
call abi s (initializes o) = (initialize o s).0
call abi s starts = (start s).0
call abi s stops = (stop s).0
call abi s sets_handler = set_packet_handler s
call abi s (registers a info now) = (register_client s a info now).0
call abi s (removes id) = (remove_client s id).0
call abi s (sends content a reliable now result) = (send_packet s content a reliable now result).0
call abi s (receives bytes a now) = (receive_datagram abi s bytes a now).0
call abi s (manages now) = (manage s now).0

unfoldable pub calls : Abi → ReliableUdpServer → List Call → ReliableUdpServer
calls abi s [] = s
calls abi s (c ∷ cs) = calls abi (call abi s c) cs

call-IsServer :
    (abi : Abi) (s : ReliableUdpServer) (c : Call) → IsServer s → IsServer (call abi s c)
unfolding call initialize start stop set_packet_handler
call-IsServer abi s (initializes o) h = record { byte = h.byte; clients = h.clients }
call-IsServer abi s starts h =
    let P = λ (r : ReliableUdpServer × Result (Unit {0}) × List Effect). IsServer r.0 in
    if-cases P (not s.socket_open) (λ _. h)
      (λ _. if-cases P s.running (λ _. h) (λ _. record { byte = h.byte; clients = h.clients }))
call-IsServer abi s stops h =
    if-cases (λ (r : ReliableUdpServer × Result (Unit {0}) × List Effect). IsServer r.0)
      (not s.running) (λ _. h)
      (λ _. record {
        byte = h.byte;
        clients = record { keys = tt; distinct = tt; count = omega arith; valid = tt };
      })
call-IsServer abi s sets_handler h = record { byte = h.byte; clients = h.clients }
call-IsServer abi s (registers a info now) h = register_client-IsServer s a info now h
call-IsServer abi s (removes id) h = remove_client-IsServer s id h
call-IsServer abi s (sends content a reliable now result) h =
    send_packet-IsServer s content a reliable now result h
call-IsServer abi s (receives bytes a now) h = receive_datagram-IsServer abi s bytes a now h
call-IsServer abi s (manages now) h = manage-IsServer s now h

calls_kept :
    (abi : Abi) (s : ReliableUdpServer) (cs : List Call) → IsServer s → IsServer (calls abi s cs)
unfolding calls
calls_kept abi s [] h = h
calls_kept abi s (c ∷ cs) h = calls_kept abi (call abi s c) cs (call-IsServer abi s c h)

-- With `max_retries` below 256, whatever calls are made of a new server, in whatever order and at whatever times: its clients have
-- different ids and different addresses and are no more than `max_clients`; no waiting packet has
-- been tried more than `max_retries` times; and each client's congestion window is at least 1, its
-- slow start threshold at least 2 and its timeout between 200 and 10000 milliseconds.
pub calls-IsServer :
    (abi : Abi) (config : ReliableUdpConfig) (cs : List Call)
    → config.max_retries < 256
    → IsServer (calls abi (new_server config) cs)
unfolding new_server
calls-IsServer abi config cs hm = calls_kept abi (new_server config) cs (record {
  byte = hm;
  clients = record { keys = tt; distinct = tt; count = omega arith; valid = tt };
})
