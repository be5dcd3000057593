-- ===== src/Udp/Server/Clients.antt =====
-- `registerClient`, `removeClient` and `findClientByAddr` of src/network/reliable_udp.cpp.
use zero_latency_yolo.Base.{
  ℕ, ◌≡◌, ◌≢◌, refl, subst, true, List, [], ◌∷◌, none, some, arith, length, ◌==◌, leb,
  if◌then◌else◌, Bool-cases, inl, inr, Option-cases,
}
use zero_latency_yolo.Base.Table.{lookup, insert, Keys, lookup-insert, lookup-erase, lookup-Absent}
use zero_latency_yolo.Protocol.{ClientInfo, server_full}
use zero_latency_yolo.Udp.{Address, ClientConnection, is_same_addr}
use zero_latency_yolo.Udp.Connection.{init_connection}
use zero_latency_yolo.Udp.Server.{
  ReliableUdpServer, success, failure, client_at, find_client_by_addr, register_client,
  remove_client, new_connection, refreshed, has_client,
}

is_same_addr_refl : (a : Address) → is_same_addr a a ≡ true
unfolding is_same_addr
is_same_addr_refl a = ground arith

pub address-new_connection :
    (id : ℕ) (a : Address) (info : ClientInfo) (now : ℕ)
    → (new_connection id a info now).address ≡ a
unfolding new_connection init_connection
address-new_connection id a info now = refl

is_same_addr-new_connection :
    (id : ℕ) (a : Address) (info : ClientInfo) (now : ℕ)
    → is_same_addr (new_connection id a info now).address a ≡ true
is_same_addr-new_connection id a info now =
    rw (address-new_connection id a info now) (is_same_addr_refl a)

is_same_addr-refreshed :
    (a : Address) (c : ClientConnection) (info : ClientInfo) (now : ℕ)
    → is_same_addr c.address a ≡ true
    → is_same_addr (refreshed c info now).address a ≡ true
unfolding refreshed
is_same_addr-refreshed a c info now e = e

-- A client that the search by address finds stands in the table under its id.
pub client_at_lem :
    (a : Address) (m : List (ℕ × ClientConnection)) (id : ℕ) (c : ClientConnection)
    → Keys m
    → client_at a m ≡ some (id, c)
    → (lookup id m ≡ some c) × (is_same_addr c.address a ≡ true)
unfolding client_at lookup
client_at_lem a [] id c h e = cc
client_at_lem a ((j, d) ∷ m) id c h e = elim (Bool-cases (is_same_addr d.address a)) [
  | inl hit ↦
      let same : ◌≡◌ {A = ℕ × ClientConnection} (j, d) (id, c) = ground (arith, hit) in
      subst (λ e. (lookup e.0 ((j, d) ∷ m) ≡ some e.1) × (is_same_addr e.1.address a ≡ true)) same
        (ground arith, hit)
  | inr miss ↦
      let (found, same) = client_at_lem a m id c h.1 (ground (arith, miss)) in
      (ground (arith, found, lookup-Absent j m h.0), same)
]

-- A new entry is found by its address when no other had it.
client_at-insert_new :
    (a : Address) (m : List (ℕ × ClientConnection)) (id : ℕ) (c : ClientConnection)
    → client_at a m ≡ none
    → is_same_addr c.address a ≡ true
    → client_at a (insert id c m) ≡ some (id, c)
unfolding client_at insert
client_at-insert_new a [] id c e same = rw same refl
client_at-insert_new a ((j, d) ∷ m) id c e same = elim (Bool-cases (is_same_addr d.address a)) [
  | inl hit ↦ ground (arith, hit)
  | inr miss ↦
      let rest = client_at-insert_new a m id c (ground (arith, miss)) same in
      ground (arith, rest, miss, same)
]

-- A renewed entry is found by its address.
client_at-insert_known :
    (a : Address) (m : List (ℕ × ClientConnection)) (id : ℕ) (c d : ClientConnection)
    → Keys m
    → client_at a m ≡ some (id, d)
    → is_same_addr c.address a ≡ true
    → client_at a (insert id c m) ≡ some (id, c)
unfolding client_at insert
client_at-insert_known a [] id c d h e same = cc
client_at-insert_known a ((j, b) ∷ m) id c d h e same =
    elim (Bool-cases (is_same_addr b.address a)) [
      | inl hit ↦ ground (arith, hit, same)
      | inr miss ↦
          let later : client_at a m ≡ some (id, d) = ground (arith, miss) in
          let rest = client_at-insert_known a m id c d h.1 later same in
          ground
            (arith, rest, miss, same, (client_at_lem a m id d h.1 later).0, lookup-Absent j m h.0)
    ]

-- A registration that succeeds leaves the client to be found by its address under the id that it
-- returned, where no two clients have the same id.
pub find_client_by_addr-register_client :
    (s : ReliableUdpServer) (a : Address) (info : ClientInfo) (now id : ℕ)
    → Keys s.clients
    → (register_client s a info now).1 ≡ success id
    → find_client_by_addr (register_client s a info now).0 a ≡ some id
unfolding register_client find_client_by_addr
find_client_by_addr-register_client s a info now id h e =
    elim (Bool-cases (leb s.config.max_clients (length s.clients))) [
      | inl full ↦ ground (arith, full)
      | inr room ↦ elim (Option-cases (client_at a s.clients)) [
        | inl fresh ↦
            let made = new_connection s.next_client_id a info now in
            let found =
              client_at-insert_new a s.clients s.next_client_id made fresh
                (is_same_addr-new_connection s.next_client_id a info now) in
            ground (arith, room, fresh, found)
        | inr ((k, c), known) ↦
            let found =
              client_at-insert_known a s.clients k (refreshed c info now) c h known
                (is_same_addr-refreshed a c info now (client_at_lem a s.clients k c h known).1) in
            ground (arith, room, known, found)
      ]
    ]

-- Where a client is known by its address, a further registration from there either finds the server
-- full, or succeeds with the id that the client has.
known_again :
    (s : ReliableUdpServer) (a : Address) (info : ClientInfo) (now id : ℕ)
    → find_client_by_addr s a ≡ some id
    → (register_client s a info now).1
      ≡ (if leb s.config.max_clients (length s.clients) then failure server_full else success id)
unfolding register_client find_client_by_addr
known_again s a info now id e = elim (Option-cases (client_at a s.clients)) [
  | inl fresh ↦ ground (arith, fresh)
  | inr ((k, c), known) ↦ ground (arith, known)
]

-- Where no two clients have the same id, a peer that has registered and registers again gets the id
-- it has, unless the server is full: then even a known peer is refused.
pub register_client_again :
    (s : ReliableUdpServer) (a : Address) (info again : ClientInfo) (now later id : ℕ)
    → Keys s.clients
    → (register_client s a info now).1 ≡ success id
    → let s' = (register_client s a info now).0 in
      (register_client s' a again later).1
      ≡ (if leb s'.config.max_clients (length s'.clients) then failure server_full else success id)
register_client_again s a info again now later id h e =
    known_again (register_client s a info now).0 a again later id
      (find_client_by_addr-register_client s a info now id h e)

-- A registration touches no client but the one whose id it returns, and none if it fails.
pub lookup-register_client :
    (s : ReliableUdpServer) (a : Address) (info : ClientInfo) (now other : ℕ)
    → (register_client s a info now).1 ≢ success other
    → lookup other (register_client s a info now).0.clients ≡ lookup other s.clients
unfolding register_client
lookup-register_client s a info now other n =
    elim (Bool-cases (leb s.config.max_clients (length s.clients))) [
      | inl full ↦ ground (arith, full)
      | inr room ↦ elim (Option-cases (client_at a s.clients)) [
        | inl fresh ↦
            let made = new_connection s.next_client_id a info now in
            ground (arith, room, fresh, lookup-insert s.next_client_id other made s.clients)
        | inr ((k, c), known) ↦
            ground (arith, room, known, lookup-insert k other (refreshed c info now) s.clients)
      ]
    ]

-- Where no two clients have the same id, `removeClient` leaves no client with the given id, whether or
-- not there was one, and leaves every other client as it is.
pub lookup-remove_client :
    (s : ReliableUdpServer) (id other : ℕ)
    → Keys s.clients
    → lookup other (remove_client s id).0.clients
      ≡ (if id == other then none else lookup other s.clients)
unfolding remove_client has_client
lookup-remove_client s id other h = elim (Option-cases (lookup id s.clients)) [
  | inl gone ↦ ground (arith, gone)
  | inr (c, there) ↦ ground (arith, there, lookup-erase id other s.clients h)
]
