-- ===== src/Queue/Fifo.antt =====
-- `ConcurrentQueue` of src/common/concurrent_queue.h as a bounded first-in first-out queue.
use zero_latency_yolo.Base.{
  ℕ, ◌-◌, ◌≡◌, refl, ap, sym, ◌∙◌, Bool, true, false, List, [], ◌∷◌, ◌++◌, Option, none, some,
  length, ltb, leb, ◌&&◌, if◌then◌else◌, arith, take, drop, append_assoc, append-nil, some-cases,
  if-cases, suc, subst, take-append-drop,
}
use zero_latency_yolo.Queue.{
  ConcurrentQueue, clear, push, pop_front, push_force, taken_from, try_pop, get_all, trim,
  set_capacity, shutdown, resume,
}

pub data Call {ℓ} (A : Type ℓ) : Type ℓ where
  pushes forces : A → Call A
  pops gets_all clears shuts resumes : Call A
  sets_capacity : ℕ → Call A

-- What a call leaves behind, what it put into the queue, and what it took out, oldest first.
pub record Step {ℓ} (A : Type ℓ) : Type ℓ where
  pub queue : ConcurrentQueue A
  pub entered : List A
  pub left : List A

module _ {ℓ} {A : Type ℓ} where
  abbrev entering : A → Bool → List A
  entering item ok = if ok then item ∷ [] else []

  abbrev leaving : Option A → List A
  leaving none = []
  leaving (some x) = x ∷ []

  unfoldable pub call : Call A → ConcurrentQueue A → Option (Step A)
  call (pushes item) q =
      let (q', ok) = push item q in
      some (record { queue = q'; entered = entering item ok; left = [] })
  call (forces item) q = elim (push_force item q) [
    | none ↦ none
    | some (q', ok) ↦ some (record {
      queue = q';
      entered = entering item ok;
      left = if ok && leb q.capacity (length q.items) then take 1 q.items else [];
    })
  ]
  call pops q =
      let (q', item) = try_pop q in some (record { queue = q'; entered = []; left = leaving item })
  call gets_all q =
      let (q', items) = get_all q in some (record { queue = q'; entered = []; left = items })
  call clears q = some (record { queue = clear q; entered = []; left = q.items })
  call shuts q = some (record { queue = shutdown q; entered = []; left = [] })
  call resumes q = some (record { queue = resume q; entered = []; left = [] })
  call (sets_capacity n) q =
      some (record {
        queue = set_capacity n q;
        entered = [];
        left = take (length q.items - n) q.items;
      })

  unfoldable pub calls : List (Call A) → ConcurrentQueue A → Option (Step A)
  calls [] q = some (record { queue = q; entered = []; left = [] })
  calls (c ∷ cs) q = elim (call c q) [
    | none ↦ none
    | some first ↦ elim (calls cs first.queue) [
      | none ↦ none
      | some more ↦ some (record {
        queue = more.queue;
        entered = first.entered ++ more.entered;
        left = first.left ++ more.left;
      })
    ]
  ]

  pub trim_lem : (n : ℕ) (xs : List A) → trim n xs ≡ drop (length xs - n) xs
  unfolding trim
  trim_lem n [] = ground arith
  trim_lem n (x ∷ xs) =
      if-cases (λ ys. ys ≡ drop (length (x ∷ xs) - n) (x ∷ xs)) (ltb n (length (x ∷ xs)))
        (λ deep.
          let more : length (x ∷ xs) - n ≡ suc (length xs - n) = ground arith in
          rw more (trim_lem n xs))
        (λ short. let none_more : length (x ∷ xs) - n ≡ 0 = ground arith in rw none_more refl)

  -- Nothing is lost, made up or reordered: what was there and what entered is what left and what is
  -- there.
  abbrev Conserves : ConcurrentQueue A → Step A → Type ℓ
  Conserves q s = q.items ++ s.entered ≡ s.left ++ s.queue.items

  unfoldable Conserved : ConcurrentQueue A → Option (Step A) → Type ℓ
  Conserved q none = Unit
  Conserved q (some s) = Conserves q s

  some-Conserved : (q : ConcurrentQueue A) (s : Step A) → Conserves q s → Conserved q (some s)
  unfolding Conserved
  some-Conserved q s h = h

  none-Conserved : (q : ConcurrentQueue A) → Conserved q none
  unfolding Conserved
  none-Conserved q = tt

  conserves_pushed :
      (item : A) (q : ConcurrentQueue A)
      → q.items ++ entering item (push item q).1 ≡ (push item q).0.items
  unfolding push
  conserves_pushed item q = ground (arith, append-nil q.items)

  conserves_forced :
      (item : A) (items : List A) (capacity : ℕ) (down : Bool) (q' : ConcurrentQueue A) (ok : Bool)
      → push_force item (record { items = items; capacity = capacity; is_shutdown = down })
        ≡ some (q', ok)
      → items ++ entering item ok
        ≡ (if ok && leb capacity (length items) then take 1 items else []) ++ q'.items
  unfolding push_force pop_front
  conserves_forced item items capacity true q' ok e = ground (arith, append-nil items)
  conserves_forced item [] capacity false q' ok e = ground arith
  conserves_forced item (x ∷ xs) capacity false q' ok e = ground arith

  conserves_popped :
      (items : List A) (down : Bool) (capacity : ℕ)
      → let (q', item) = taken_from items down capacity in items ++ [] ≡ leaving item ++ q'.items
  unfolding taken_from
  conserves_popped [] down capacity = refl
  conserves_popped (x ∷ xs) down capacity = append-nil (x ∷ xs)

  call-Conserved : (c : Call A) (q : ConcurrentQueue A) → Conserved q (call c q)
  unfolding call try_pop get_all clear shutdown resume set_capacity
  call-Conserved (pushes item) q =
      some-Conserved q
        (record { queue = (push item q).0; entered = entering item (push item q).1; left = [] })
        (conserves_pushed item q)
  call-Conserved (forces item) q =
      some-cases (Conserved q) (push_force item q) (λ _. none-Conserved q)
        (λ r e.
          some-Conserved q _ (conserves_forced item q.items q.capacity q.is_shutdown r.0 r.1 e))
  call-Conserved pops q = some-Conserved q _ (conserves_popped q.items q.is_shutdown q.capacity)
  call-Conserved gets_all q = some-Conserved q _ refl
  call-Conserved clears q = some-Conserved q _ refl
  call-Conserved shuts q = some-Conserved q _ (append-nil q.items)
  call-Conserved resumes q = some-Conserved q _ (append-nil q.items)
  call-Conserved (sets_capacity n) q =
      some-Conserved q _ (
        rw (trim_lem n q.items, take-append-drop (length q.items - n) q.items) (append-nil q.items))

  -- The steps of two calls, one after the other.
  conserves_both :
      (a b c d e f g : List A) → a ++ b ≡ c ++ d → d ++ e ≡ f ++ g → a ++ (b ++ e) ≡ (c ++ f) ++ g
  conserves_both a b c d e f g p r =
      sym (append_assoc a b e)
      ∙ ap (λ x. x ++ e) p
      ∙ append_assoc c d e
      ∙ ap (λ x. c ++ x) r
      ∙ sym (append_assoc c f g)

  some-Conserves : (q : ConcurrentQueue A) (s : Step A) → Conserved q (some s) → Conserves q s
  unfolding Conserved
  some-Conserves q s h = h

  calls-Conserved : (cs : List (Call A)) (q : ConcurrentQueue A) → Conserved q (calls cs q)
  unfolding calls
  calls-Conserved [] q = some-Conserved q _ (append-nil q.items)
  calls-Conserved (c ∷ cs) q =
      some-cases (Conserved q) (call c q) (λ _. none-Conserved q)
        (λ first e.
          some-cases (Conserved q) (calls cs first.queue) (λ _. none-Conserved q)
            (λ more d.
              let one = some-Conserves q first (subst (Conserved q) e (call-Conserved c q)) in
              let rest =
                some-Conserves first.queue more
                  (subst (Conserved first.queue) d (calls-Conserved cs first.queue)) in
              some-Conserved q _ (
                conserves_both q.items first.entered first.left first.queue.items more.entered
                  more.left more.queue.items one rest)))

  -- Whatever calls are made, in whatever order, as long as none pops an empty `std::queue`: the
  -- items that were in the queue, then those that entered it, in order, are those that left it, in
  -- order, and then those that are in it now.
  pub calls-Conserves :
      (cs : List (Call A)) (q : ConcurrentQueue A) (s : Step A)
      → calls cs q ≡ some s
      → q.items ++ s.entered ≡ s.left ++ s.queue.items
  calls-Conserves cs q s e = some-Conserves q s (subst (Conserved q) e (calls-Conserved cs q))
