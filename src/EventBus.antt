-- ===== src/EventBus.antt =====
-- `EventBus` of src/common/event_bus.h. Of the types of events, which are strings, only equality
-- matters, and a number stands for each. A handler that throws is logged, and the next is called.
pub mod Order
mod Examples
use zero_latency_yolo.Base.{ℕ, List, [], ◌∷◌, ◌++◌, Option, none, some}
use zero_latency_yolo.Base.Table.{lookup, insert}

module _ {ℓ} {H : Type ℓ} where
  -- The handlers under a type, none where it has no entry.
  unfoldable pub handlers_of : List (ℕ × List H) → ℕ → List H
  handlers_of bus type = elim (lookup type bus) [ none ↦ [] | some handlers ↦ handlers ]

  -- `subscribe`.
  unfoldable pub subscribe : List (ℕ × List H) → ℕ → H → List (ℕ × List H)
  subscribe bus type handler = insert type (handlers_of bus type ++ handler ∷ []) bus

  -- `unsubscribe`, which finds the entry and leaves it.
  unfoldable pub unsubscribe : List (ℕ × List H) → ℕ → H → List (ℕ × List H)
  unsubscribe bus type handler = bus

  -- `publish`: the handlers that are called, in their order.
  unfoldable pub publish : List (ℕ × List H) → ℕ → List H
  publish bus type = handlers_of bus type

-- The calls that change a bus.
pub data BusCall {ℓ} (H : Type ℓ) : Type ℓ where
  subscribes unsubscribes : ℕ → H → BusCall H

unfoldable pub after {ℓ} : {H : Type ℓ} → List (ℕ × List H) → List (BusCall H) → List (ℕ × List H)
after bus [] = bus
after bus (subscribes type handler ∷ more) = after (subscribe bus type handler) more
after bus (unsubscribes type handler ∷ more) = after (unsubscribe bus type handler) more
