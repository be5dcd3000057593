-- ===== src/EventBus/Examples.antt =====
-- The theorem on the event bus at a concrete input.
use zero_latency_yolo.Base.{ℕ, ◌≡◌, List, [], ◌∷◌, ◌++◌}
use zero_latency_yolo.EventBus.{publish, BusCall, subscribes, unsubscribes, after}
use zero_latency_yolo.EventBus.Order.{subscribed, publish-after}

abbrev bus_calls : List (BusCall ℕ)
bus_calls = subscribes 1 10 ∷ subscribes 2 20 ∷ unsubscribes 1 10 ∷ subscribes 1 11 ∷ []

publish-after_example :
    publish (after ((1, 9 ∷ []) ∷ []) bus_calls) 1
    ≡ publish ((1, 9 ∷ []) ∷ []) 1 ++ subscribed 1 bus_calls
publish-after_example = publish-after bus_calls ((1, 9 ∷ []) ∷ []) 1
