-- ===== src/EventBus/Order.antt =====
-- Whom `publish` of src/common/event_bus.h calls.
use zero_latency_yolo.Base.{
  ℕ, ◌≡◌, sym, ◌∙◌, List, [], ◌∷◌, ◌++◌, append_assoc, append-nil, arith, ◌==◌, if◌then◌else◌,
  Bool-cases, inl, inr,
}
use zero_latency_yolo.Base.Table.{lookup-insert}
use zero_latency_yolo.EventBus.{
  handlers_of, subscribe, unsubscribe, publish, BusCall, subscribes, unsubscribes, after,
}

module _ {ℓ} {H : Type ℓ} where
  -- The handlers that were subscribed to a type, in their order.
  abbrev pub subscribed : ℕ → List (BusCall H) → List H
  subscribed type [] = []
  subscribed type (subscribes other handler ∷ more) =
      if other == type then handler ∷ subscribed type more else subscribed type more
  subscribed type (unsubscribes other handler ∷ more) = subscribed type more

  handlers_of-subscribe :
      (bus : List (ℕ × List H)) (other type : ℕ) (handler : H)
      → handlers_of (subscribe bus other handler) type
        ≡ (if other == type then handlers_of bus type ++ handler ∷ [] else handlers_of bus type)
  unfolding handlers_of subscribe
  handlers_of-subscribe bus other type handler =
      ground (arith, lookup-insert other type (handlers_of bus other ++ handler ∷ []) bus)

  -- After any calls of subscribe and unsubscribe, publish calls for a type the handlers that it called
  -- before and then those subscribed to the type since, in their order, also those that were
  -- unsubscribed.
  pub publish-after :
      (calls : List (BusCall H)) (bus : List (ℕ × List H)) (type : ℕ)
      → publish (after bus calls) type ≡ publish bus type ++ subscribed type calls
  unfolding publish after unsubscribe
  publish-after [] bus type = sym (append-nil (handlers_of bus type))
  publish-after (subscribes other handler ∷ more) bus type =
      publish-after more (subscribe bus other handler) type ∙ elim (Bool-cases (other == type)) [
        | inl same ↦ ground (
          arith,
          same,
          handlers_of-subscribe bus other type handler,
          append_assoc (handlers_of bus type) (handler ∷ []) (subscribed type more),
        )
        | inr differs ↦ ground (arith, differs, handlers_of-subscribe bus other type handler)
      ]
  publish-after (unsubscribes other handler ∷ more) bus type = publish-after more bus type
