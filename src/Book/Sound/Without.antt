-- ===== src/Book/Sound/Without.antt =====
-- The book without one of its orders is sound.
use bunting.Prelude.{ℕ, false, none, some, Option, ◌≡◌, sym, ◌∙◌, arith, Bool-cases, inl, inr, ◌≢◌}
use bunting.Prelude.Int.{◌-ℤ◌}
use bunting.Prelude.Ord.{nat_ord, int_ord}
use bunting.Prelude.Map.{
  Map, get, is_empty, get-remove, get-is_empty, IsSorted, insert-IsSorted, remove-IsSorted,
}
use bunting.Prelude.Map
use bunting.Market.{PriceTicks, Side}
use bunting.Book.{BookOrder, Level, Book, side}
use bunting.Book.Sound.{here, here_eq, here_self, LevelOk, OrderOk, IsSound}
use bunting.Book.Sound.Places.{
  Differs, put_level-Differs, drop_level-Differs, set_side-IsSorted, set_side-fields, side-orders,
  amount-remove_away,
}
use bunting.Book.Sound.Remove.{
  rest_of, place, without, get-removed, level_of, visible_part, total_part,
}

place-Differs : (b : Book) (o : BookOrder) (l : Option Level) → Differs b (place o l b) o l
unfolding place
place-Differs b o none = drop_level-Differs b o
place-Differs b o (some l) = put_level-Differs b o l

place-IsSorted :
    (b : Book) (o : BookOrder) (l : Option Level)
    → ((s : Side) → IsSorted (side b s))
    → (s : Side) → IsSorted (side (place o l b) s)
unfolding place
place-IsSorted b o none h = set_side-IsSorted b o.side _ h (remove-IsSorted o.price _ (h o.side))
place-IsSorted b o (some l) h =
    set_side-IsSorted b o.side _ h (insert-IsSorted o.price l _ (h o.side))

place-fields :
    (b : Book) (o : BookOrder) (l : Option Level)
    → ((place o l b).orders ≡ b.orders) × ((place o l b).next_priority ≡ b.next_priority)
unfolding place
place-fields b o none = set_side-fields b o.side _
place-fields b o (some l) = set_side-fields b o.side _

module _ (b : Book) (id : ℕ) (o : BookOrder) (l : Level) where
  pub without-Differs : Differs b (without id o l b) o (rest_of o l)
  unfolding without
  without-Differs s price =
      rw (← side-orders b (Map.remove id b.orders) s)
        (place-Differs (record b { orders = Map.remove id b.orders }) o (rest_of o l) s price)

  pub without-fields :
      ((without id o l b).orders ≡ Map.remove id b.orders)
      × ((without id o l b).next_priority ≡ b.next_priority)
  unfolding without
  without-fields = place-fields (record b { orders = Map.remove id b.orders }) o (rest_of o l)

rest_of-some :
    (o : BookOrder) (level l : Level)
    → rest_of o level ≡ some l
    → (is_empty (Map.remove o.priority level.queue) ≡ false)
      × (l.queue ≡ Map.remove o.priority level.queue)
      × (l.visible ≡ level.visible -ℤ o.visible)
      × (l.total ≡ level.total -ℤ o.remaining)
unfolding rest_of
rest_of-some o level l h = ground arith

module _ (b : Book) (v : IsSound b) (id : ℕ) (o : BookOrder) (e : get id b.orders ≡ some o) where
  level : Level
  level = level_of b v id o e

  after : Book
  after = without id o (level_of b v id o e) b

  level_ok : LevelOk b.orders o.side o.price (level_of b v id o e)
  level_ok = v.levels o.side o.price (level_of b v id o e) (v.listed id o e).at_level

  -- An entry of the level that is left is an entry of another order.
  queued_left :
      (priority j : ℕ)
      → get priority (Map.remove o.priority level.queue) ≡ some j
      → (p : BookOrder) × (get j (Map.remove id b.orders) ≡ some p)
        × (p.side ≡ o.side)
        × (p.price ≡ o.price)
        × (p.priority ≡ priority)
  unfolding level
  queued_left priority j h =
      let found : get priority level.queue ≡ some j =
        ground (arith, get-remove o.priority priority level.queue) in
      let apart : priority ≢ o.priority =
        λ q. ground (arith, get-remove o.priority priority level.queue) in
      let (p, at, s, c, t) = level_ok.queued priority j found in
      let other : j ≢ id = λ q. apart (ground arith) in
      (p, ground (arith, get-remove id j b.orders), s, c, t)

  rest-LevelOk :
      (l : Level) → rest_of o level ≡ some l → LevelOk (Map.remove id b.orders) o.side o.price l
  unfolding level
  rest-LevelOk l h =
      let (occupied, queue, visible, total) = rest_of-some o level l h in
      record {
        queue_sorted = rw queue (remove-IsSorted o.priority level.queue level_ok.queue_sorted);
        occupied = rw queue occupied;
        queued = rw queue queued_left;
        visible_sum = visible ∙ (visible_part b v id o e).0;
        total_sum = total ∙ (total_part b v id o e).0;
        visible_fits = rw visible (visible_part b v id o e).2;
        total_fits = rw total (total_part b v id o e).2;
      }

  away-LevelOk :
      (s : Side) (price : PriceTicks) (l : Level)
      → here s price o ≡ false
      → LevelOk b.orders s price l
      → LevelOk (Map.remove id b.orders) s price l
  away-LevelOk s price l a k = record {
    queue_sorted = k.queue_sorted;
    occupied = k.occupied;
    queued = λ priority j h.
        let (p, at, t, c, q) = k.queued priority j h in
        let other : j ≢ id = λ x. ground (arith, here_self o) in
        (p, ground (arith, get-remove id j b.orders), t, c, q);
    visible_sum =
        k.visible_sum
        ∙ sym (amount-remove_away s price (λ o. o.visible) id o b.orders v.orders_sorted e a);
    total_sum =
        k.total_sum
        ∙ sym (amount-remove_away s price (λ o. o.remaining) id o b.orders v.orders_sorted e a);
    visible_fits = k.visible_fits;
    total_fits = k.total_fits;
  }

  at_place :
      (s : Side) (price : PriceTicks) (l : Level)
      → get price (side after s) ≡ some l
      → LevelOk (Map.remove id b.orders) s price l
  unfolding after level
  at_place s price l h = elim (Bool-cases (here s price o)) [
    | inl t ↦
        let left : rest_of o level ≡ some l =
          ground (arith, without-Differs b id o level s price) in
        let (same, cost) = here_eq s price o t in rw (same, cost) (rest-LevelOk l left)
    | inr f ↦
        let kept : get price (side b s) ≡ some l =
          ground (arith, without-Differs b id o level s price) in
        away-LevelOk s price l f (v.levels s price l kept)
  ]

  -- The level of an order that stays.
  level_left :
      (j : ℕ) (p : BookOrder)
      → j ≢ id
      → get j b.orders ≡ some p
      → (l : Level) × (get p.price (side after p.side) ≡ some l) × (get p.priority l.queue ≡ some j)
  unfolding after level rest_of
  level_left j p n h = elim (Bool-cases (here p.side p.price o)) [
    | inl t ↦
        let k : OrderOk b j p = v.listed j p h in
        let (same, cost) = here_eq p.side p.price o t in
        let shared : k.level ≡ level = ground (arith, k.at_level, (v.listed id o e).at_level) in
        let found : get p.priority level.queue ≡ some j = rw (← shared) k.in_queue in
        let apart : p.priority ≢ o.priority = λ q. n (ground (arith, (v.listed id o e).in_queue)) in
        let kept : get p.priority (Map.remove o.priority level.queue) ≡ some j =
          ground (arith, get-remove o.priority p.priority level.queue) in
        let occupied = get-is_empty p.priority _ kept in
        (
          record {
            queue = Map.remove o.priority level.queue;
            visible = level.visible -ℤ o.visible;
            total = level.total -ℤ o.remaining;
          },
          ground (arith, occupied, without-Differs b id o level p.side p.price),
          kept,
        )
    | inr f ↦
        let k : OrderOk b j p = v.listed j p h in
        (
          k.level,
          ground (arith, k.at_level, without-Differs b id o level p.side p.price),
          k.in_queue,
        )
  ]

  after-OrderOk : (j : ℕ) (p : BookOrder) → j ≢ id → get j b.orders ≡ some p → OrderOk after j p
  unfolding after
  after-OrderOk j p n h =
      let k : OrderOk b j p = v.listed j p h in
      let (l, at, entry) = level_left j p n h in
      record {
        same_id = k.same_id;
        shown = k.shown;
        within = k.within;
        priced = k.priced;
        peaked = k.peaked;
        past = rw (without-fields b id o (level_of b v id o e)).1 k.past;
        level = l;
        at_level = at;
        in_queue = entry;
      }

  after-IsSorted : (s : Side) → IsSorted (side after s)
  unfolding after without level
  after-IsSorted =
      place-IsSorted (record b { orders = Map.remove id b.orders }) o (rest_of o level)
        (λ s. rw side-orders (v.sides_sorted s))

  pub without-IsSound : IsSound (without id o (level_of b v id o e) b)
  unfolding after
  without-IsSound = record {
    sides_sorted = after-IsSorted;
    orders_sorted =
        rw (without-fields b id o (level_of b v id o e)).0
          (remove-IsSorted id b.orders v.orders_sorted);
    levels =
        λ s price l h. rw (without-fields b id o (level_of b v id o e)).0 (at_place s price l h);
    listed = λ j p h.
        let found : get j (Map.remove id b.orders) ≡ some p =
          rw (without-fields b id o (level_of b v id o e)).0 at h in
        let (n, there) = get-removed id j b.orders p found in after-OrderOk j p n there;
  }
