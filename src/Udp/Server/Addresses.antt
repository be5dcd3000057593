-- ===== src/Udp/Server/Addresses.antt =====
-- No two clients of the server of src/network/reliable_udp.cpp have the same address.
use zero_latency_yolo.Base.{
  ℕ, ◌≡◌, ap, sym, ◌∙◌, false, List, [], ◌∷◌, none, some, arith, ◌==◌, if◌then◌else◌, Bool-cases,
  inl, inr, subst, All, if-cases,
}
use zero_latency_yolo.Base.Table.{lookup, insert, erase, All-insert, All-erase, lookup-All}
use zero_latency_yolo.Udp.{Address, ClientConnection, is_same_addr}
use zero_latency_yolo.Udp.Server.{client_at}
use zero_latency_yolo.Udp.Server.Manage.{erase_all}

abbrev pub Elsewhere : Address → List (ℕ × ClientConnection) → Type 0
Elsewhere a = All (λ e. is_same_addr e.1.address a ≡ false)

abbrev pub Distinct : List (ℕ × ClientConnection) → Type 0
Distinct [] = Unit
Distinct ((k, c) ∷ m) = Elsewhere c.address m × Distinct m

is_same_addr_sym : (a b : Address) → is_same_addr a b ≡ is_same_addr b a
unfolding is_same_addr
is_same_addr_sym a b = ground arith

client_at-Elsewhere :
    (a : Address) (m : List (ℕ × ClientConnection)) → client_at a m ≡ none → Elsewhere a m
unfolding client_at
client_at-Elsewhere a [] e = tt
client_at-Elsewhere a ((j, d) ∷ m) e = elim (Bool-cases (is_same_addr d.address a)) [
  | inl hit ↦ ground (arith, hit)
  | inr miss ↦ (miss, client_at-Elsewhere a m (ground (arith, miss)))
]

pub Distinct-erase : (k : ℕ) (m : List (ℕ × ClientConnection)) → Distinct m → Distinct (erase k m)
unfolding erase
Distinct-erase k [] h = tt
Distinct-erase k ((j, d) ∷ m) h =
    if-cases Distinct (j == k) (λ _. h.1) (λ _. (All-erase _ k m h.0, Distinct-erase k m h.1))

pub Distinct-erase_all :
    (ks : List ℕ) (m : List (ℕ × ClientConnection)) → Distinct m → Distinct (erase_all ks m)
unfolding erase_all
Distinct-erase_all [] m h = h
Distinct-erase_all (k ∷ ks) m h = Distinct-erase_all ks (erase k m) (Distinct-erase k m h)

insert-Elsewhere :
    (k : ℕ) (c : ClientConnection) (m : List (ℕ × ClientConnection))
    → Elsewhere c.address m
    → Distinct m
    → Distinct (insert k c m)
unfolding insert
insert-Elsewhere k c [] e h = (tt, tt)
insert-Elsewhere k c ((j, d) ∷ m) e h =
    if-cases Distinct (j == k) (λ _. (e.1, h.1))
      (λ _. (
        All-insert _ k c m (is_same_addr_sym c.address d.address ∙ e.0) h.0,
        insert-Elsewhere k c m e.1 h.1,
      ))

-- A client with an address that no other client has.
pub Distinct-insert_new :
    (k : ℕ) (c : ClientConnection) (m : List (ℕ × ClientConnection))
    → client_at c.address m ≡ none
    → Distinct m
    → Distinct (insert k c m)
Distinct-insert_new k c m e h = insert-Elsewhere k c m (client_at-Elsewhere c.address m e) h

-- A client that keeps its address.
pub Distinct-insert_known :
    (k : ℕ) (c d : ClientConnection) (m : List (ℕ × ClientConnection))
    → lookup k m ≡ some d
    → d.address ≡ c.address
    → Distinct m
    → Distinct (insert k c m)
unfolding insert lookup
Distinct-insert_known k c d [] e same h = cc
Distinct-insert_known k c d ((j, b) ∷ m) e same h = elim (Bool-cases (j == k)) [
  | inl hit ↦
      let found : b ≡ d = ground (arith, hit) in
      let there : Elsewhere c.address m =
        subst (λ a. Elsewhere a m) (ap (λ x. x.address) found ∙ same) h.0 in
      subst (λ t. Distinct (if t then (k, c) ∷ m else (j, b) ∷ insert k c m)) (sym hit) (there, h.1)
  | inr miss ↦
      let later : lookup k m ≡ some d = ground (arith, miss) in
      let apart =
        subst (λ a. is_same_addr a b.address ≡ false) same
          (lookup-All (λ e. is_same_addr e.1.address b.address ≡ false) k d m h.0 later) in
      subst (λ t. Distinct (if t then (k, c) ∷ m else (j, b) ∷ insert k c m)) (sym miss)
        (All-insert _ k c m apart h.0, Distinct-insert_known k c d m later same h.1)
]
