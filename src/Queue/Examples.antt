-- ===== src/Queue/Examples.antt =====
-- The theorems of the queue on a queue of numbers.
use zero_latency_yolo.Base.{ℕ, ◌≡◌, ◌≤◌, refl, arith, false, List, [], ◌∷◌, some, length}
use zero_latency_yolo.Queue.{
  ConcurrentQueue, push, pop_front, push_force, taken_from, try_pop, trim, set_capacity,
}
use zero_latency_yolo.Queue.Fifo.{
  Call, pushes, forces, pops, sets_capacity, Step, call, calls, calls-Conserves,
}
use zero_latency_yolo.Queue.Bounds.{calls-Bounded, calls_total}

abbrev two_items : ConcurrentQueue ℕ
two_items = record { items = 7 ∷ 8 ∷ []; capacity = 3; is_shutdown = false }

abbrev sample_calls : List (Call ℕ)
sample_calls = pushes 9 ∷ pushes 1 ∷ forces 2 ∷ pops ∷ sets_capacity 1 ∷ []

abbrev sample_step : Step ℕ
sample_step = record {
  queue = record { items = 2 ∷ []; capacity = 1; is_shutdown = false };
  entered = 9 ∷ 2 ∷ [];
  left = 7 ∷ 8 ∷ 9 ∷ [];
}

sample_run : calls sample_calls two_items ≡ some sample_step
unfolding calls call push push_force pop_front try_pop taken_from set_capacity trim
sample_run = refl

calls-Conserves_example : ◌≡◌ {A = List ℕ} (7 ∷ 8 ∷ 9 ∷ 2 ∷ []) (7 ∷ 8 ∷ 9 ∷ 2 ∷ [])
calls-Conserves_example = calls-Conserves sample_calls two_items sample_step sample_run

calls-Bounded_example : length sample_step.queue.items ≤ 1
calls-Bounded_example = calls-Bounded sample_calls two_items sample_step (omega arith) sample_run

calls_total_example : (s : Step ℕ) × (calls sample_calls two_items ≡ some s)
calls_total_example =
    calls_total sample_calls two_items (omega arith) (tt, (tt, (tt, (tt, (omega arith, tt)))))
