-- ===== src/Udp/Server/Sweep.antt =====
-- The sweeps of the management thread of src/network/reliable_udp.cpp: clients that timed out,
-- aggregates that are due.
use zero_latency_yolo.Base.{
  ℕ, ◌≡◌, refl, ◌∙◌, Bool, false, List, [], ◌∷◌, ◌++◌, Option, none, some, arith, ◌==◌, ◌||◌,
  if◌then◌else◌, All,
}
use zero_latency_yolo.Base.Table.{
  lookup, erase, Keys, Absent, lookup-erase, Keys-erase, All-erase, lookup-Absent,
}
use zero_latency_yolo.Udp.Server.{ReliableUdpServer}
use zero_latency_yolo.Udp.Server.Manage.{keys_where, erase_all, is_idle, check_client_timeouts}

abbrev pub member : ℕ → List ℕ → Bool
member k [] = false
member k (j ∷ ks) = (j == k) || member k ks

pub member-append : (k : ℕ) (ks js : List ℕ) → member k (ks ++ js) ≡ (member k ks || member k js)
member-append k [] js = refl
member-append k (i ∷ ks) js = ground (arith, member-append k ks js)

module _ {ℓ} {V : Type ℓ} where
  pub Keys-erase_all : (ks : List ℕ) (m : List (ℕ × V)) → Keys m → Keys (erase_all ks m)
  unfolding erase_all
  Keys-erase_all [] m h = h
  Keys-erase_all (k ∷ ks) m h = Keys-erase_all ks (erase k m) (Keys-erase k m h)

  pub All-erase_all {κ} :
      (P : ℕ × V → Type κ) (ks : List ℕ) (m : List (ℕ × V)) → All P m → All P (erase_all ks m)
  unfolding erase_all
  All-erase_all P [] m h = h
  All-erase_all P (k ∷ ks) m h = All-erase_all P ks (erase k m) (All-erase P k m h)

  pub lookup-erase_all :
      (k : ℕ) (ks : List ℕ) (m : List (ℕ × V))
      → Keys m
      → lookup k (erase_all ks m) ≡ (if member k ks then none else lookup k m)
  unfolding erase_all
  lookup-erase_all k [] m h = refl
  lookup-erase_all k (j ∷ ks) m h =
      ground (arith, lookup-erase_all k ks (erase j m) (Keys-erase j m h), lookup-erase j k m h)

  -- What a sweep leaves of an entry.
  abbrev pub kept : (V → Bool) → Option V → Option V
  kept test none = none
  kept test (some v) = if test v then none else some v

  member-keys_where-Absent :
      (test : V → Bool) (k : ℕ) (m : List (ℕ × V))
      → Absent k m
      → member k (keys_where test m) ≡ false
  unfolding keys_where
  member-keys_where-Absent test k [] h = refl
  member-keys_where-Absent test k ((j, v) ∷ m) h =
      ground (arith, member-keys_where-Absent test k m h.1)

  swept :
      (test : V → Bool) (k : ℕ) (m : List (ℕ × V))
      → Keys m
      → (if member k (keys_where test m) then none else lookup k m) ≡ kept test (lookup k m)
  unfolding keys_where lookup
  swept test k [] h = refl
  swept test k ((j, v) ∷ m) h =
      ground
        (arith, swept test k m h.1, member-keys_where-Absent test j m h.0, lookup-Absent j m h.0)

  pub lookup-sweep :
      (test : V → Bool) (k : ℕ) (m : List (ℕ × V))
      → Keys m
      → lookup k (erase_all (keys_where test m) m) ≡ kept test (lookup k m)
  lookup-sweep test k m h = lookup-erase_all k (keys_where test m) m h ∙ swept test k m h

-- The check for timeouts removes exactly the clients that are idle, and keeps every other client as
-- it is, where no two clients have the same id.
pub lookup-check_client_timeouts :
    (s : ReliableUdpServer) (now id : ℕ)
    → Keys s.clients
    → lookup id (check_client_timeouts s now).0.clients
      ≡ kept (is_idle s.config now) (lookup id s.clients)
unfolding check_client_timeouts
lookup-check_client_timeouts s now id h = lookup-sweep (is_idle s.config now) id s.clients h
