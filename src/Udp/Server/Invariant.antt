-- ===== src/Udp/Server/Invariant.antt =====
-- The invariant of the server of src/network/reliable_udp.cpp, and that every operation keeps it.
use zero_latency_yolo.Base.{
  ℕ, ◌≤◌, ◌<◌, ◌≡◌, refl, List, [], ◌∷◌, none, some, arith, length, leb, some-cases, All, if-cases,
}
use zero_latency_yolo.Base.Table.{
  lookup, insert, erase, Keys, Keys-insert, Keys-erase, All-insert, All-erase, lookup-All,
  length-insert-le, length-insert_old, length-erase-le,
}
use zero_latency_yolo.Protocol.{ClientInfo}
use zero_latency_yolo.Udp.{ReliableUdpConfig, Address, ClientConnection}
use zero_latency_yolo.Udp.Server.{
  ReliableUdpServer, Effect, Result, client_at, register_client, refreshed,
}
use zero_latency_yolo.Udp.Server.Manage.{erase_all}
use zero_latency_yolo.Udp.Server.Clients.{client_at_lem, address-new_connection}
use zero_latency_yolo.Udp.Server.Valid.{
  IsConnection, IsConnection-new_connection, IsConnection-refreshed,
}
use zero_latency_yolo.Udp.Server.Addresses.{
  Distinct, Distinct-erase, Distinct-insert_new, Distinct-insert_known,
}

-- The clients: each id once, each address once, no more than allowed, and every connection valid.
pub record AreClients (config : ReliableUdpConfig) (m : List (ℕ × ClientConnection)) : Type 0 where
  pub keys : Keys m
  pub distinct : Distinct m
  pub count : length m ≤ config.max_clients
  pub valid : All (λ e. IsConnection config e.1) m

-- `max_retries` is a `uint8_t`.
pub record IsServer (s : ReliableUdpServer) : Type 0 where
  pub byte : s.config.max_retries < 256
  pub clients : AreClients s.config s.clients

pub erase-AreClients :
    (config : ReliableUdpConfig) (k : ℕ) (m : List (ℕ × ClientConnection))
    → AreClients config m
    → AreClients config (erase k m)
erase-AreClients config k m h = record {
  keys = Keys-erase k m h.keys;
  distinct = Distinct-erase k m h.distinct;
  count = omega (arith, length-erase-le k m, h.count);
  valid = All-erase _ k m h.valid;
}

pub erase_all-AreClients :
    (config : ReliableUdpConfig) (ks : List ℕ) (m : List (ℕ × ClientConnection))
    → AreClients config m
    → AreClients config (erase_all ks m)
unfolding erase_all
erase_all-AreClients config [] m h = h
erase_all-AreClients config (k ∷ ks) m h =
    erase_all-AreClients config ks (erase k m) (erase-AreClients config k m h)

-- A client that is already there, renewed.
pub renew-AreClients :
    (config : ReliableUdpConfig) (k : ℕ) (c d : ClientConnection) (m : List (ℕ × ClientConnection))
    → lookup k m ≡ some d
    → d.address ≡ c.address
    → IsConnection config c
    → AreClients config m
    → AreClients config (insert k c m)
renew-AreClients config k c d m there same valid h = record {
  keys = Keys-insert k c m h.keys;
  distinct = Distinct-insert_known k c d m there same h.distinct;
  count = omega (arith, length-insert_old k c d m there, h.count);
  valid = All-insert _ k c m valid h.valid;
}

add-AreClients :
    (config : ReliableUdpConfig) (k : ℕ) (c : ClientConnection) (m : List (ℕ × ClientConnection))
    → length m < config.max_clients
    → client_at c.address m ≡ none
    → IsConnection config c
    → AreClients config m
    → AreClients config (insert k c m)
add-AreClients config k c m room fresh valid h = record {
  keys = Keys-insert k c m h.keys;
  distinct = Distinct-insert_new k c m fresh h.distinct;
  count = omega (arith, length-insert-le k c m, room);
  valid = All-insert _ k c m valid h.valid;
}

-- A client that a search by address has found.
pub found-IsConnection :
    (config : ReliableUdpConfig) (a : Address) (m : List (ℕ × ClientConnection))
    (e : ℕ × ClientConnection)
    → AreClients config m
    → client_at a m ≡ some e
    → (lookup e.0 m ≡ some e.1) × IsConnection config e.1
found-IsConnection config a m e h at =
    let (there, same) = client_at_lem a m e.0 e.1 h.keys at in
    (there, lookup-All _ e.0 e.1 m h.valid there)

pub register_client-IsServer :
    (s : ReliableUdpServer) (a : Address) (info : ClientInfo) (now : ℕ)
    → IsServer s
    → IsServer (register_client s a info now).0
unfolding register_client refreshed
register_client-IsServer s a info now h =
    let P = λ (r : ReliableUdpServer × Result ℕ × List Effect). IsServer r.0 in
    if-cases P (leb s.config.max_clients (length s.clients)) (λ _. h)
      (λ room.
        some-cases P (client_at a s.clients)
          (λ fresh. record {
            byte = h.byte;
            clients =
                add-AreClients s.config s.next_client_id _ s.clients (ground (arith, room))
                  (rw (address-new_connection s.next_client_id a info now) fresh)
                  (IsConnection-new_connection s.config s.next_client_id a info now) h.clients;
          })
          (λ e at.
            let (there, valid) = found-IsConnection s.config a s.clients e h.clients at in
            record {
              byte = h.byte;
              clients =
                  renew-AreClients s.config e.0 (refreshed e.1 info now) e.1 s.clients there refl
                    (IsConnection-refreshed s.config e.1 info now valid) h.clients;
            }))
