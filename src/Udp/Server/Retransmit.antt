-- ===== src/Udp/Server/Retransmit.antt =====
-- `handleRetransmissions` of src/network/reliable_udp.cpp: what becomes of an unacknowledged packet.
use zero_latency_yolo.Base.{
  ℕ, ◌+◌, ◌%◌, ◌≤◌, ◌<◌, ◌≡◌, refl, ap, subst, sym, ◌∙◌, Bool, true, false, List, [], ◌∷◌, ◌++◌,
  Option, none, some, arith, length, ◌==◌, ◌||◌, ltb, leb, if◌then◌else◌, sub64, Bool-cases, inl,
  inr,
}
use zero_latency_yolo.Base.Table.{lookup, Keys, Absent, lookup-Absent}
use zero_latency_yolo.Udp.{ReliableUdpConfig, ClientConnection, PacketAckInfo}
use zero_latency_yolo.Udp.Connection.{handle_packet_loss}
use zero_latency_yolo.Udp.Server.{Stats, Effect}
use zero_latency_yolo.Udp.Server.Manage.{
  Pass, lose, retried, retransmit_packet, retransmit_packets, retransmit_client,
}
use zero_latency_yolo.Udp.Server.Sweep.{member, member-append, lookup-erase_all, Keys-erase_all}

-- A loss does not change the timeout.
timeout-lose :
    (config : ReliableUdpConfig) (first : Bool) (c : ClientConnection)
    → (lose config first c).retransmission_timeout_ms ≡ c.retransmission_timeout_ms
unfolding lose handle_packet_loss
timeout-lose config first c = ground arith

-- What a pass with the timeout `rto` makes of a packet, and whether it drops it.
abbrev pub sent_again : ℕ → ReliableUdpConfig → ℕ → PacketAckInfo → PacketAckInfo
sent_again rto config now p =
    if ltb rto (sub64 now p.timestamp)
    then if leb config.max_retries p.retries then p else retried p now
    else p

abbrev pub dropped : ℕ → ReliableUdpConfig → ℕ → PacketAckInfo → Bool
dropped rto config now p =
    if ltb rto (sub64 now p.timestamp) then leb config.max_retries p.retries else false

retransmit_packet_lem :
    (config : ReliableUdpConfig) (now seq : ℕ) (p : PacketAckInfo) (pass : Pass)
    → let rto = pass.client.retransmission_timeout_ms in
      let (p', pass') = retransmit_packet config now seq p pass in
      (p' ≡ sent_again rto config now p)
      × (pass'.expired
          ≡ (if dropped rto config now p then pass.expired ++ seq ∷ [] else pass.expired))
      × (pass'.client.retransmission_timeout_ms ≡ rto)
unfolding retransmit_packet
retransmit_packet_lem config now seq p pass = ground (
  arith,
  timeout-lose config true pass.client,
  timeout-lose config ((retried p now).retries == 1) pass.client,
)

Absent-retransmit_packets :
    (config : ReliableUdpConfig) (now k : ℕ) (m : List (ℕ × PacketAckInfo)) (pass : Pass)
    → Absent k m
    → Absent k (retransmit_packets config now m pass).0
unfolding retransmit_packets
Absent-retransmit_packets config now k [] pass h = tt
Absent-retransmit_packets config now k ((j, p) ∷ m) pass h =
    (h.0, Absent-retransmit_packets config now k m (retransmit_packet config now j p pass).1 h.1)

pub Keys-retransmit_packets :
    (config : ReliableUdpConfig) (now : ℕ) (m : List (ℕ × PacketAckInfo)) (pass : Pass)
    → Keys m
    → Keys (retransmit_packets config now m pass).0
unfolding retransmit_packets
Keys-retransmit_packets config now [] pass h = tt
Keys-retransmit_packets config now ((j, p) ∷ m) pass h =
    let pass' = (retransmit_packet config now j p pass).1 in
    (
      Absent-retransmit_packets config now j m pass' h.0,
      Keys-retransmit_packets config now m pass' h.1,
    )

-- The entry of a packet after the loop, and whether it is dropped.
abbrev entry_after : ℕ → ReliableUdpConfig → ℕ → Option PacketAckInfo → Option PacketAckInfo
entry_after rto config now none = none
entry_after rto config now (some p) = some (sent_again rto config now p)

abbrev entry_dropped : ℕ → ReliableUdpConfig → ℕ → Option PacketAckInfo → Bool
entry_dropped rto config now none = false
entry_dropped rto config now (some p) = dropped rto config now p

retransmit_packets_lem :
    (config : ReliableUdpConfig) (now seq : ℕ) (m : List (ℕ × PacketAckInfo)) (pass : Pass)
    → Keys m
    → let rto = pass.client.retransmission_timeout_ms in
      let (m', done) = retransmit_packets config now m pass in
      (lookup seq m' ≡ entry_after rto config now (lookup seq m))
      × (member seq done.expired
          ≡ (member seq pass.expired || entry_dropped rto config now (lookup seq m)))
unfolding retransmit_packets lookup
retransmit_packets_lem config now seq [] pass h = ground arith
retransmit_packets_lem config now seq ((j, p) ∷ m) pass h =
    let pass' = (retransmit_packet config now j p pass).1 in
    ground (
      arith,
      retransmit_packet_lem config now j p pass,
      retransmit_packets_lem config now seq m pass' h.1,
      member-append seq pass.expired (j ∷ []),
      lookup-Absent j m h.0,
    )

timeout-retransmit_packets :
    (config : ReliableUdpConfig) (now : ℕ) (m : List (ℕ × PacketAckInfo)) (pass : Pass)
    → (retransmit_packets config now m pass).1.client.retransmission_timeout_ms
      ≡ pass.client.retransmission_timeout_ms
unfolding retransmit_packets
timeout-retransmit_packets config now [] pass = refl
timeout-retransmit_packets config now ((j, p) ∷ m) pass =
    timeout-retransmit_packets config now m (retransmit_packet config now j p pass).1
    ∙ (retransmit_packet_lem config now j p pass).2

-- What a pass makes of a packet: one that is not overdue stays; an overdue one counts one more retry,
-- in eight bits, and waits again from now, or is given up when it has been tried often enough.
abbrev pub packet_after : ℕ → ReliableUdpConfig → ℕ → Option PacketAckInfo → Option PacketAckInfo
packet_after rto config now none = none
packet_after rto config now (some p) =
    if ltb rto (sub64 now p.timestamp)
    then if leb config.max_retries p.retries
      then none
      else some (record p { retries = (p.retries + 1) % 256; timestamp = now })
    else some p

-- Where no two waiting packets of a client have the same number, a pass over the client treats each
-- by itself: one that has not waited longer than the client's timeout stays as it is, one that has is
-- given up when it has been tried `max_retries` times, and otherwise counts one more retry and waits
-- again from now.
pub lookup-retransmit_client :
    (config : ReliableUdpConfig) (now seq : ℕ) (c : ClientConnection) (stats : Stats)
    (effects : List Effect)
    → Keys c.unacked_packets
    → lookup seq (retransmit_client config now c stats effects).0.unacked_packets
      ≡ packet_after c.retransmission_timeout_ms config now (lookup seq c.unacked_packets)
unfolding retransmit_client retried
lookup-retransmit_client config now seq c stats effects h =
    let pass : Pass = record { client = c; expired = []; stats = stats; effects = effects } in
    let (m', done) = retransmit_packets config now c.unacked_packets pass in
    ground (
      arith,
      retransmit_packets_lem config now seq c.unacked_packets pass h,
      lookup-erase_all seq done.expired m' (Keys-retransmit_packets config now _ pass h),
    )

pub Keys-retransmit_client :
    (config : ReliableUdpConfig) (now : ℕ) (c : ClientConnection) (stats : Stats)
    (effects : List Effect)
    → Keys c.unacked_packets
    → Keys (retransmit_client config now c stats effects).0.unacked_packets
unfolding retransmit_client
Keys-retransmit_client config now c stats effects h =
    let pass : Pass = record { client = c; expired = []; stats = stats; effects = effects } in
    Keys-erase_all _ _ (Keys-retransmit_packets config now c.unacked_packets pass h)

timeout-retransmit_client :
    (config : ReliableUdpConfig) (now : ℕ) (c : ClientConnection) (stats : Stats)
    (effects : List Effect)
    → (retransmit_client config now c stats effects).0.retransmission_timeout_ms
      ≡ c.retransmission_timeout_ms
unfolding retransmit_client
timeout-retransmit_client config now c stats effects =
    timeout-retransmit_packets config now c.unacked_packets
      (record { client = c; expired = []; stats = stats; effects = effects })

-- Passes at the given times.
abbrev pub passes :
    ReliableUdpConfig → List ℕ → ClientConnection → Stats → List Effect → ClientConnection
passes config [] c stats effects = c
passes config (now ∷ times) c stats effects =
    let (c', stats', effects') = retransmit_client config now c stats effects in
    passes config times c' stats' effects'

-- Each time is more than the timeout after the one before it.
abbrev pub Spaced : ℕ → ℕ → List ℕ → Type 0
Spaced rto last [] = Unit
Spaced rto last (now ∷ times) = (rto < sub64 now last) × Spaced rto now times

passes_absent :
    (config : ReliableUdpConfig) (seq : ℕ) (times : List ℕ) (c : ClientConnection) (stats : Stats)
    (effects : List Effect)
    → Keys c.unacked_packets
    → lookup seq c.unacked_packets ≡ none
    → lookup seq (passes config times c stats effects).unacked_packets ≡ none
passes_absent config seq [] c stats effects h e = e
passes_absent config seq (now ∷ times) c stats effects h e =
    passes_absent config seq times _ _ _ (Keys-retransmit_client config now c stats effects h) (
      lookup-retransmit_client config now seq c stats effects h
      ∙ ap (packet_after c.retransmission_timeout_ms config now) e)

-- A packet that is never acknowledged is given up: where no two waiting packets of the client have
-- the same number, and this one has not been tried more than `max_retries` times (a number below
-- 256), it is gone after as many passes as it has retries left, and one more, if each pass comes more
-- than the timeout after the one before it, and the first after the packet was sent.
pub passes_give_up :
    (config : ReliableUdpConfig) (seq : ℕ) (times : List ℕ) (c : ClientConnection) (stats : Stats)
    (effects : List Effect) (p : PacketAckInfo)
    → config.max_retries < 256
    → p.retries ≤ config.max_retries
    → Keys c.unacked_packets
    → lookup seq c.unacked_packets ≡ some p
    → Spaced c.retransmission_timeout_ms p.timestamp times
    → config.max_retries < p.retries + length times
    → lookup seq (passes config times c stats effects).unacked_packets ≡ none
unfolding retried
passes_give_up config seq [] c stats effects p hm hr h e spaced enough = ground arith
passes_give_up config seq (now ∷ times) c stats effects p hm hr h e spaced enough =
    elim (Bool-cases (leb config.max_retries p.retries)) [
      | inl last ↦
          passes_absent config seq times _ _ _ (Keys-retransmit_client config now c stats effects h)
            (lookup-retransmit_client config now seq c stats effects h
              ∙ ground (arith, spaced.0, e, last))
      | inr more ↦
          passes_give_up config seq times _ _ _ (retried p now) hm (ground (arith, more))
            (Keys-retransmit_client config now c stats effects h)
            (lookup-retransmit_client config now seq c stats effects h
              ∙ ground (arith, spaced.0, e, more))
            (subst (λ rto. Spaced rto now times)
              (sym (timeout-retransmit_client config now c stats effects)) spaced.1)
            (ground (arith, more, enough))
    ]

-- A pass leaves a client its address.
address-retransmit_packets :
    (config : ReliableUdpConfig) (now : ℕ) (m : List (ℕ × PacketAckInfo)) (pass : Pass)
    → (retransmit_packets config now m pass).1.client.address ≡ pass.client.address
unfolding retransmit_packets retransmit_packet lose handle_packet_loss
address-retransmit_packets config now [] pass = refl
address-retransmit_packets config now ((j, p) ∷ m) pass =
    address-retransmit_packets config now m (retransmit_packet config now j p pass).1 ∙ ground arith

pub address-retransmit_client :
    (config : ReliableUdpConfig) (now : ℕ) (c : ClientConnection) (stats : Stats)
    (effects : List Effect)
    → (retransmit_client config now c stats effects).0.address ≡ c.address
unfolding retransmit_client
address-retransmit_client config now c stats effects =
    address-retransmit_packets config now c.unacked_packets
      (record { client = c; expired = []; stats = stats; effects = effects })
