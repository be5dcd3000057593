-- ===== src/Queue.antt =====
-- `ConcurrentQueue` of src/common/concurrent_queue.h. Each operation holds the mutex from its first
-- test to its last change, and is one step here; what the condition variable does is `pop`'s answer
-- `blocked`, a call that still waits.
pub mod Fifo
pub mod Bounds
mod Examples
use zero_latency_yolo.Base.{
  ℕ, Bool, true, false, List, [], ◌∷◌, ◌++◌, Option, none, some, length, ltb, leb, ◌||◌, not,
  if◌then◌else◌,
}

-- `queue_`, its front first, `capacity_` and `shutdown_`.
pub record ConcurrentQueue {ℓ} (A : Type ℓ) : Type ℓ where
  pub items : List A
  pub capacity : ℕ
  pub is_shutdown : Bool

-- What a call that waits comes to: it goes on waiting, or it returns, with an item or without.
pub data Wait {ℓ} (A : Type ℓ) : Type ℓ where
  blocked : Wait A
  returned : Option A → Wait A

module _ {ℓ} {A : Type ℓ} where
  unfoldable pub new_queue : ℕ → ConcurrentQueue A
  new_queue capacity = record { items = []; capacity = capacity; is_shutdown = false }

  unfoldable pub size : ConcurrentQueue A → ℕ
  size q = length q.items

  -- `clear`.
  unfoldable pub clear : ConcurrentQueue A → ConcurrentQueue A
  clear q = record q { items = [] }

  -- `push`.
  unfoldable pub push : A → ConcurrentQueue A → ConcurrentQueue A × Bool
  push item q =
      if leb q.capacity (length q.items) || q.is_shutdown
      then (q, false)
      else (record q { items = q.items ++ item ∷ [] }, true)

  -- `queue_.pop()`, which an empty `std::queue` does not allow.
  unfoldable pub pop_front : List A → Option (List A)
  pop_front [] = none
  pop_front (x ∷ xs) = some xs

  -- `push_force`; `none` is the undefined behaviour of popping an empty queue.
  unfoldable pub push_force : A → ConcurrentQueue A → Option (ConcurrentQueue A × Bool)
  push_force item q =
      if q.is_shutdown
      then some (q, false)
      else elim (if leb q.capacity (length q.items) then pop_front q.items else some q.items) [
        | none ↦ none
        | some kept ↦ some (record q { items = kept ++ item ∷ [] }, true)
      ]

  -- `try_pop`, and what `try_pop_for` and `try_pop_until` do when their wait is over.
  unfoldable pub taken_from : List A → Bool → ℕ → ConcurrentQueue A × Option A
  taken_from [] down capacity =
      (record { items = []; capacity = capacity; is_shutdown = down }, none)
  taken_from (x ∷ xs) down capacity =
      (record { items = xs; capacity = capacity; is_shutdown = down }, some x)

  unfoldable pub try_pop : ConcurrentQueue A → ConcurrentQueue A × Option A
  try_pop q = taken_from q.items q.is_shutdown q.capacity

  -- `pop`: the predicate of the wait, and then the same.
  unfoldable pub pop : ConcurrentQueue A → ConcurrentQueue A × Wait A
  pop q =
      if ltb 0 (length q.items) || q.is_shutdown
      then ((try_pop q).0, returned (try_pop q).1)
      else (q, blocked)

  -- `get_all`.
  unfoldable pub get_all : ConcurrentQueue A → ConcurrentQueue A × List A
  get_all q = (record q { items = [] }, q.items)

  -- `peek`.
  unfoldable pub peek : ConcurrentQueue A → Option A
  peek q = (try_pop q).1

  -- The loop of `set_capacity`.
  unfoldable pub trim : ℕ → List A → List A
  trim capacity [] = []
  trim capacity (x ∷ xs) =
      let rest = trim capacity xs in if ltb capacity (length (x ∷ xs)) then rest else x ∷ xs

  -- `set_capacity`.
  unfoldable pub set_capacity : ℕ → ConcurrentQueue A → ConcurrentQueue A
  set_capacity capacity q = record q { items = trim capacity q.items; capacity = capacity }

  -- `shutdown` and `resume`.
  unfoldable pub shutdown : ConcurrentQueue A → ConcurrentQueue A
  shutdown q = record q { is_shutdown = true }

  unfoldable pub resume : ConcurrentQueue A → ConcurrentQueue A
  resume q = record q { is_shutdown = false }
