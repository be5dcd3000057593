-- ===== src/Queue/Bounds.antt =====
-- The capacity of the `ConcurrentQueue` of src/common/concurrent_queue.h, and its waits.
use zero_latency_yolo.Base.{
  ℕ, ◌+◌, ◌-◌, ◌≤◌, ◌<◌, ◌≡◌, refl, ap, Bool, true, false, List, [], ◌∷◌, ◌++◌, Option, none, some,
  length, leb, if◌then◌else◌, arith, drop, length-append, inl, inr, Bool-cases, some-cases, subst,
  length-drop, All, take, ◌&&◌,
}
use zero_latency_yolo.Queue.{
  ConcurrentQueue, returned, blocked, clear, push, pop_front, push_force, taken_from, try_pop, pop,
  get_all, set_capacity, shutdown, resume,
}
use zero_latency_yolo.Queue.Fifo.{
  Call, pushes, forces, pops, gets_all, clears, shuts, resumes, sets_capacity, Step, call, calls,
  trim_lem,
}

module _ {ℓ} {A : Type ℓ} where
  -- The queue never holds more than its capacity.
  abbrev pub Bounded : ConcurrentQueue A → Type 0
  Bounded q = length q.items ≤ q.capacity

  push-Bounded : (item : A) (q : ConcurrentQueue A) → Bounded q → Bounded (push item q).0
  unfolding push
  push-Bounded item q h = ground (arith, length-append q.items (item ∷ []))

  push_force-Bounded :
      (item : A) (items : List A) (capacity : ℕ) (down : Bool) (q' : ConcurrentQueue A) (ok : Bool)
      → length items ≤ capacity
      → push_force item (record { items = items; capacity = capacity; is_shutdown = down })
        ≡ some (q', ok)
      → Bounded q'
  unfolding push_force pop_front
  push_force-Bounded item items capacity true q' ok h e = ground arith
  push_force-Bounded item [] capacity false q' ok h e = ground arith
  push_force-Bounded item (x ∷ xs) capacity false q' ok h e =
      ground (arith, length-append xs (item ∷ []), length-append (x ∷ xs) (item ∷ []))

  taken_from-Bounded :
      (items : List A) (down : Bool) (capacity : ℕ)
      → length items ≤ capacity
      → Bounded (taken_from items down capacity).0
  unfolding taken_from
  taken_from-Bounded [] down capacity h = h
  taken_from-Bounded (x ∷ xs) down capacity h = omega arith

  -- An item that is pushed by force into a queue that is not shut down, and whose capacity is not 0
  -- and is kept to, is always taken; it costs at most the oldest item, and that only if the queue is
  -- full.
  pub push_force_lem :
      (item : A) (items : List A) (capacity : ℕ)
      → 0 < capacity
      → length items ≤ capacity
      → push_force item (record { items = items; capacity = capacity; is_shutdown = false })
        ≡ some (
          record {
            items = drop (length items + 1 - capacity) items ++ item ∷ [];
            capacity = capacity;
            is_shutdown = false;
          },
          true,
        )
  unfolding push_force pop_front
  push_force_lem item [] capacity h b =
      let none_more : 0 + 1 - capacity ≡ 0 = omega arith in
      ground (arith, ap (λ k. drop {A = A} k []) none_more)
  push_force_lem item (x ∷ xs) capacity h b = elim (Bool-cases (leb capacity (length (x ∷ xs)))) [
    | inl full ↦
        let one : length (x ∷ xs) + 1 - capacity ≡ 1 = ground arith in
        ground (arith, full, ap (λ k. drop k (x ∷ xs)) one)
    | inr room ↦
        let none_more : length (x ∷ xs) + 1 - capacity ≡ 0 = ground arith in
        ground (arith, room, ap (λ k. drop k (x ∷ xs)) none_more)
  ]

  unfoldable MaybeBounded : Option (Step A) → Type 0
  MaybeBounded none = Unit
  MaybeBounded (some s) = Bounded s.queue

  some-MaybeBounded : (s : Step A) → Bounded s.queue → MaybeBounded (some s)
  unfolding MaybeBounded
  some-MaybeBounded s h = h

  MaybeBounded-some : (s : Step A) → MaybeBounded (some s) → Bounded s.queue
  unfolding MaybeBounded
  MaybeBounded-some s h = h

  none-MaybeBounded : (q : ConcurrentQueue A) → MaybeBounded none
  unfolding MaybeBounded
  none-MaybeBounded q = tt

  call-MaybeBounded : (c : Call A) (q : ConcurrentQueue A) → Bounded q → MaybeBounded (call c q)
  unfolding call try_pop get_all clear shutdown resume set_capacity
  call-MaybeBounded (pushes item) q h = some-MaybeBounded _ (push-Bounded item q h)
  call-MaybeBounded (forces item) q h =
      some-cases MaybeBounded (push_force item q) (λ _. none-MaybeBounded q)
        (λ r e.
          some-MaybeBounded _
            (push_force-Bounded item q.items q.capacity q.is_shutdown r.0 r.1 h e))
  call-MaybeBounded pops q h =
      some-MaybeBounded _ (taken_from-Bounded q.items q.is_shutdown q.capacity h)
  call-MaybeBounded gets_all q h = some-MaybeBounded _ (omega arith)
  call-MaybeBounded clears q h = some-MaybeBounded _ (omega arith)
  call-MaybeBounded shuts q h = some-MaybeBounded _ h
  call-MaybeBounded resumes q h = some-MaybeBounded _ h
  call-MaybeBounded (sets_capacity n) q h =
      some-MaybeBounded _
        (rw (trim_lem n q.items, length-drop (length q.items - n) q.items) (omega arith))

  calls-MaybeBounded :
      (cs : List (Call A)) (q : ConcurrentQueue A) → Bounded q → MaybeBounded (calls cs q)
  unfolding calls
  calls-MaybeBounded [] q h = some-MaybeBounded _ h
  calls-MaybeBounded (c ∷ cs) q h =
      some-cases MaybeBounded (call c q) (λ _. none-MaybeBounded q)
        (λ first e.
          some-cases MaybeBounded (calls cs first.queue) (λ _. none-MaybeBounded q)
            (λ more d.
              let one = MaybeBounded-some first (subst MaybeBounded e (call-MaybeBounded c q h)) in
              some-MaybeBounded _ (
                MaybeBounded-some more
                  (subst MaybeBounded d (calls-MaybeBounded cs first.queue one)))))

  -- A queue that holds no more than its capacity still does after any calls, changes of the capacity
  -- included.
  pub calls-Bounded :
      (cs : List (Call A)) (q : ConcurrentQueue A) (s : Step A)
      → Bounded q
      → calls cs q ≡ some s
      → Bounded s.queue
  calls-Bounded cs q s h e = MaybeBounded-some s (subst MaybeBounded e (calls-MaybeBounded cs q h))

  -- `pop` waits exactly when the queue is empty and not shut down; otherwise it does what `try_pop`
  -- does, so that after `shutdown` the items that are left can still be taken, one by one.
  pub pop_lem :
      (items : List A) (capacity : ℕ) (down : Bool)
      → let q : ConcurrentQueue A = record {
        items = items;
        capacity = capacity;
        is_shutdown = down;
      } in
        pop q ≡ elim (try_pop q).1 [
          | none ↦ if down then (q, returned none) else (q, blocked)
          | some item ↦ ((try_pop q).0, returned (some item))
        ]
  unfolding pop try_pop taken_from
  pop_lem [] capacity true = refl
  pop_lem [] capacity false = refl
  pop_lem (x ∷ xs) capacity down = ground arith

  -- Calls that leave the queue room for an item.
  abbrev pub LeavesRoom : Call A → Type 0
  LeavesRoom (sets_capacity n) = 0 < n
  LeavesRoom c = Unit

  push-capacity : (item : A) (q : ConcurrentQueue A) → 0 < q.capacity → 0 < (push item q).0.capacity
  unfolding push
  push-capacity item q h = ground arith

  forced :
      (item : A) (items : List A) (capacity : ℕ) (down : Bool)
      → 0 < capacity
      → (r : ConcurrentQueue A × Bool) × (push_force item
            (record { items = items; capacity = capacity; is_shutdown = down })
          ≡ some r)
        × (0 < r.0.capacity)
  unfolding push_force pop_front
  forced item items capacity true h = (_, refl, h)
  forced item [] capacity false h =
      let room : leb capacity 0 ≡ false = ground arith in
      (
        (record { items = item ∷ []; capacity = capacity; is_shutdown = false }, true),
        ground (arith, room),
        h,
      )
  forced item (x ∷ xs) capacity false h = elim (Bool-cases (leb capacity (length (x ∷ xs)))) [
    | inl full ↦ (
      (record { items = xs ++ item ∷ []; capacity = capacity; is_shutdown = false }, true),
      ground (arith, full),
      h,
    )
    | inr room ↦ (
      (record { items = (x ∷ xs) ++ item ∷ []; capacity = capacity; is_shutdown = false }, true),
      ground (arith, room),
      h,
    )
  ]

  taken_from-capacity :
      (items : List A) (down : Bool) (capacity : ℕ)
      → (taken_from items down capacity).0.capacity ≡ capacity
  unfolding taken_from
  taken_from-capacity [] down capacity = refl
  taken_from-capacity (x ∷ xs) down capacity = refl

  call_total :
      (c : Call A) (q : ConcurrentQueue A)
      → 0 < q.capacity
      → LeavesRoom c
      → (s : Step A) × (call c q ≡ some s) × (0 < s.queue.capacity)
  unfolding call try_pop get_all clear shutdown resume set_capacity
  call_total (pushes item) q h r = (_, refl, push-capacity item q h)
  call_total (forces item) q h r =
      let (made, e, room) = forced item q.items q.capacity q.is_shutdown h in
      (
        _,
        ap
            (λ o. elim o [
              | none ↦ none
              | some m ↦ some (record {
                queue = m.0;
                entered = if m.1 then item ∷ [] else [];
                left = if m.1 && leb q.capacity (length q.items) then take 1 q.items else [];
              })
            ])
            e,
        room,
      )
  call_total pops q h r = (_, refl, rw (taken_from-capacity q.items q.is_shutdown q.capacity) h)
  call_total gets_all q h r = (_, refl, h)
  call_total clears q h r = (_, refl, h)
  call_total shuts q h r = (_, refl, h)
  call_total resumes q h r = (_, refl, h)
  call_total (sets_capacity n) q h r = (_, refl, r)

  calls_step :
      (c : Call A) (cs : List (Call A)) (q : ConcurrentQueue A) (first more : Step A)
      → call c q ≡ some first
      → calls cs first.queue ≡ some more
      → calls (c ∷ cs) q
        ≡ some (record {
          queue = more.queue;
          entered = first.entered ++ more.entered;
          left = first.left ++ more.left;
        })
  unfolding calls
  calls_step c cs q first more e d = ground (arith, e, d)

  -- No calls come to the undefined behaviour of popping an empty `std::queue`, as long as the
  -- capacity is never 0: not at the start, and not set to 0.
  pub calls_total :
      (cs : List (Call A)) (q : ConcurrentQueue A)
      → 0 < q.capacity
      → All LeavesRoom cs
      → (s : Step A) × (calls cs q ≡ some s)
  unfolding calls
  calls_total [] q h r = (_, refl)
  calls_total (c ∷ cs) q h r =
      let (first, e, room) = call_total c q h r.0 in
      let (more, d) = calls_total cs first.queue room r.1 in
      (
        record {
          queue = more.queue;
          entered = first.entered ++ more.entered;
          left = first.left ++ more.left;
        },
        calls_step c cs q first more e d,
      )
