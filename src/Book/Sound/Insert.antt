-- ===== src/Book/Sound/Insert.antt =====
-- Putting an order on a sound book leaves a sound book.
use bunting.Prelude.{
  ℕ, ◌<◌, true, false, none, some, ◌≡◌, refl, sym, ◌∙◌, arith, Bool-cases, Option-cases, inl, inr,
  ◌≢◌, ◌==◌, ==_iff, unwrap_or,
}
use bunting.Prelude.Int.{pos, ◌+ℤ◌, +ℤ_comm, ◌<ℤ◌, fits, i64, checked_add, checked}
use bunting.Prelude.Ord.{nat_ord, int_ord}
use bunting.Prelude.Map.{
  Map, get, contains_key, is_empty, get-insert, get-insert_self, get-insert_ne, get-is_empty,
  IsSorted, insert-IsSorted,
}
use bunting.Prelude.Map
use bunting.Prelude.Map.Sums.{sum_of_zero}
use bunting.Market.{PriceTicks, QuantityLots, Side}
use bunting.Book.{
  BookOrder, Level, Book, done, side, put_level, or_default, is_invalid, add_to_level, insert,
}
use bunting.Book.Sound.{resting, amount, here, here_eq, here_self, LevelOk, OrderOk, IsSound}
use bunting.Book.Sound.Places.{
  Differs, put_level-Differs, set_side-IsSorted, set_side-fields, side-orders, amount-insert-here,
  amount-insert_away,
}

-- An order that may join the book: valid, and no order of its place has its priority.
pub record Joins (b : Book) (o : BookOrder) : Type 0 where
  pub valid : is_invalid o ≡ false
  pub absent : get o.order_id b.orders ≡ none
  pub peaked : pos 0 <ℤ unwrap_or o.display (pos 1)
  pub past : o.priority < b.next_priority
  pub no_twin :
      (j : ℕ) (p : BookOrder)
      → get j b.orders ≡ some p
      → here p.side p.price o ≡ true
      → p.priority ≢ o.priority

unfoldable pub added : BookOrder → Level → Level
added o l = record {
  queue = Map.insert o.priority o.order_id l.queue;
  visible = l.visible +ℤ o.visible;
  total = l.total +ℤ o.remaining;
}

-- The level that an order joins.
abbrev pub level_for : Book → BookOrder → Level
level_for b o = or_default (get o.price (side b o.side))

unfoldable pub with_order : BookOrder → Book → Book
unfolding added
with_order o b = record (put_level b o.side o.price (added o (level_for b o))) {
  orders = Map.insert o.order_id o b.orders;
}

-- A level that has not been read yet counts as empty.
record Before (m : Map ℕ BookOrder) (s : Side) (price : PriceTicks) (level : Level) : Type 0 where
  queue_sorted : IsSorted level.queue
  queued :
      (priority id : ℕ)
      → get priority level.queue ≡ some id
      → (o : BookOrder) × (get id m ≡ some o)
        × (o.side ≡ s)
        × (o.price ≡ price)
        × (o.priority ≡ priority)
  visible_sum : level.visible ≡ amount s price (λ o. o.visible) m
  total_sum : level.total ≡ amount s price (λ o. o.remaining) m

LevelOk-Before :
    {m : Map ℕ BookOrder} {s : Side} {price : PriceTicks} {l : Level}
    → LevelOk m s price l
    → Before m s price l
LevelOk-Before k = record {
  queue_sorted = k.queue_sorted;
  queued = k.queued;
  visible_sum = k.visible_sum;
  total_sum = k.total_sum;
}

module _ (b : Book) (v : IsSound b) (s : Side) (price : PriceTicks) where
  -- Where no level stands, no order rests.
  pub amount_nowhere :
      (f : BookOrder → QuantityLots)
      → get price (side b s) ≡ none
      → amount s price f b.orders ≡ pos 0
  unfolding amount
  amount_nowhere f h = sum_of_zero (resting s price f) b.orders v.orders_sorted λ j p e.
      elim (Bool-cases (here s price p)) [
        | inl t ↦
            let (same, cost) = here_eq s price p t in
            let k : OrderOk b j p = v.listed j p e in absurd (ground (arith, k.at_level))
        | inr f ↦ rw f
      ]

  before : Before b.orders s price (or_default (get price (side b s)))
  unfolding get
  before = elim (Option-cases (get price (side b s))) [
    | inl h ↦ rw h (record {
      queue_sorted = tt;
      queued = λ priority id e. cc;
      visible_sum = sym (amount_nowhere (λ o. o.visible) h);
      total_sum = sym (amount_nowhere (λ o. o.remaining) h);
    })
    | inr (l, h) ↦ rw h (LevelOk-Before (v.levels s price l h))
  ]

  pub level_sums :
      ((or_default (get price (side b s))).visible ≡ amount s price (λ o. o.visible) b.orders)
      × ((or_default (get price (side b s))).total ≡ amount s price (λ o. o.remaining) b.orders)
  level_sums = (before.visible_sum, before.total_sum)

module _ (b : Book) (o : BookOrder) where
  -- A successful `insert` has put the order on its level, whose totals stay representable.
  pub insert-eq-done :
      {b' : Book}
      → insert o b ≡ done tt b'
      → (b' ≡ with_order o b)
        × (fits i64 ((level_for b o).visible +ℤ o.visible) ≡ true)
        × (fits i64 ((level_for b o).total +ℤ o.remaining) ≡ true)
  unfolding insert add_to_level with_order added checked_add checked
  insert-eq-done h = ground arith

  -- It succeeds for a valid new order, unless a total of the level overflows.
  pub insert_lem :
      is_invalid o ≡ false
      → get o.order_id b.orders ≡ none
      → get o.priority (level_for b o).queue ≡ none
      → fits i64 ((level_for b o).visible +ℤ o.visible) ≡ true
      → fits i64 ((level_for b o).total +ℤ o.remaining) ≡ true
      → insert o b ≡ done tt (with_order o b)
  unfolding insert add_to_level with_order added checked_add checked
  insert_lem i a q f g = ground arith

  pub with_order-Differs : Differs b (with_order o b) o (some (added o (level_for b o)))
  unfolding with_order
  with_order-Differs s price =
      let shown : Book = put_level b o.side o.price (added o (level_for b o)) in
      rw (side-orders shown (Map.insert o.order_id o b.orders) s)
        (put_level-Differs b o (added o (level_for b o)) s price)

  pub with_order-fields :
      ((with_order o b).orders ≡ Map.insert o.order_id o b.orders)
      × ((with_order o b).next_priority ≡ b.next_priority)
  unfolding with_order
  with_order-fields = (refl, (set_side-fields b o.side _).1)

module _ (b : Book) (v : IsSound b) (o : BookOrder) (j : Joins b o) where
  base : Before b.orders o.side o.price (level_for b o)
  base = before b v o.side o.price

  -- The priority is new to the level.
  pub priority_free : get o.priority (level_for b o).queue ≡ none
  priority_free = elim (Option-cases (get o.priority (level_for b o).queue)) [
    | inl h ↦ h
    | inr (id, h) ↦
        let (p, at, s, c, q) = base.queued o.priority id h in
        absurd (j.no_twin id p at (rw (s, c) (here_self o)) q)
  ]

module _ (b : Book) (v : IsSound b) (o : BookOrder) (j : Joins b o)
    (visible_fits : fits i64 ((level_for b o).visible +ℤ o.visible) ≡ true)
    (total_fits : fits i64 ((level_for b o).total +ℤ o.remaining) ≡ true) where
  joined_queued :
      (priority id : ℕ)
      → get priority (Map.insert o.priority o.order_id (level_for b o).queue) ≡ some id
      → (p : BookOrder) × (get id (Map.insert o.order_id o b.orders) ≡ some p)
        × (p.side ≡ o.side)
        × (p.price ≡ o.price)
        × (p.priority ≡ priority)
  joined_queued priority id h = elim (Bool-cases (priority == o.priority)) [
    | inl t ↦
        let id_eq : id ≡ o.order_id =
          ground (arith, get-insert o.priority priority o.order_id (level_for b o).queue) in
        (o, rw id_eq (get-insert_self o.order_id o b.orders), refl, refl, ground arith)
    | inr f ↦
        let found : get priority (level_for b o).queue ≡ some id =
          ground (arith, get-insert o.priority priority o.order_id (level_for b o).queue) in
        let (p, at, s, c, q) = (base b v o j).queued priority id found in
        let other : id ≢ o.order_id = λ x. ground (arith, j.absent) in
        (p, get-insert_ne o.order_id id o b.orders other ∙ at, s, c, q)
  ]

  joined-LevelOk :
      LevelOk (Map.insert o.order_id o b.orders) o.side o.price (added o (level_for b o))
  unfolding added
  joined-LevelOk = record {
    queue_sorted = insert-IsSorted o.priority o.order_id _ (base b v o j).queue_sorted;
    occupied =
        get-is_empty o.priority _ (get-insert_self o.priority o.order_id (level_for b o).queue);
    queued = joined_queued;
    visible_sum =
        rw
          (
            amount-insert-here o.side o.price (λ o. o.visible) o.order_id o b.orders j.absent
                (here_self o),
            (base b v o j).visible_sum,
          )
          (+ℤ_comm _ o.visible);
    total_sum =
        rw
          (
            amount-insert-here o.side o.price (λ o. o.remaining) o.order_id o b.orders j.absent
                (here_self o),
            (base b v o j).total_sum,
          )
          (+ℤ_comm _ o.remaining);
    visible_fits = visible_fits;
    total_fits = total_fits;
  }

  away-LevelOk :
      (s : Side) (price : PriceTicks) (l : Level)
      → here s price o ≡ false
      → LevelOk b.orders s price l
      → LevelOk (Map.insert o.order_id o b.orders) s price l
  away-LevelOk s price l a k = record {
    queue_sorted = k.queue_sorted;
    occupied = k.occupied;
    queued = λ priority id h.
        let (p, at, t, c, q) = k.queued priority id h in
        let other : id ≢ o.order_id = λ x. ground (arith, j.absent) in
        (p, get-insert_ne o.order_id id o b.orders other ∙ at, t, c, q);
    visible_sum =
        k.visible_sum
        ∙ sym (amount-insert_away s price (λ o. o.visible) o.order_id o b.orders j.absent a);
    total_sum =
        k.total_sum
        ∙ sym (amount-insert_away s price (λ o. o.remaining) o.order_id o b.orders j.absent a);
    visible_fits = k.visible_fits;
    total_fits = k.total_fits;
  }

  joined-levels :
      (s : Side) (price : PriceTicks) (l : Level)
      → get price (side (with_order o b) s) ≡ some l
      → LevelOk (Map.insert o.order_id o b.orders) s price l
  joined-levels s price l h = elim (Bool-cases (here s price o)) [
    | inl t ↦
        let this : added o (level_for b o) ≡ l = ground (arith, with_order-Differs b o s price) in
        let (same, cost) = here_eq s price o t in rw (same, cost, ← this) joined-LevelOk
    | inr f ↦
        let kept : get price (side b s) ≡ some l = ground (arith, with_order-Differs b o s price) in
        away-LevelOk s price l f (v.levels s price l kept)
  ]

  joined-OrderOk : OrderOk (with_order o b) o.order_id o
  unfolding added
  joined-OrderOk = record {
    same_id = refl;
    shown = ground (arith, j.valid);
    within = ground (arith, j.valid);
    priced = ground (arith, j.valid);
    peaked = j.peaked;
    past = rw (with_order-fields b o).1 j.past;
    level = added o (level_for b o);
    at_level = ground (arith, with_order-Differs b o o.side o.price, here_self o);
    in_queue = get-insert_self o.priority o.order_id (level_for b o).queue;
  }

  kept_level :
      (id : ℕ) (p : BookOrder)
      → get id b.orders ≡ some p
      → (l : Level) × (get p.price (side (with_order o b) p.side) ≡ some l)
        × (get p.priority l.queue ≡ some id)
  unfolding added
  kept_level id p h = elim (Bool-cases (here p.side p.price o)) [
    | inl t ↦
        let k : OrderOk b id p = v.listed id p h in
        let (same, cost) = here_eq p.side p.price o t in
        let shared : get o.price (side b o.side) ≡ some k.level = rw (← same, ← cost) k.at_level in
        let found : get p.priority (level_for b o).queue ≡ some id = rw shared k.in_queue in
        (
          added o (level_for b o),
          ground (arith, with_order-Differs b o p.side p.price),
          get-insert_ne o.priority p.priority o.order_id (level_for b o).queue (j.no_twin id p h t)
              ∙ found,
        )
    | inr f ↦
        let k : OrderOk b id p = v.listed id p h in
        (k.level, ground (arith, k.at_level, with_order-Differs b o p.side p.price), k.in_queue)
  ]

  kept-OrderOk : (id : ℕ) (p : BookOrder) → get id b.orders ≡ some p → OrderOk (with_order o b) id p
  kept-OrderOk id p h =
      let k : OrderOk b id p = v.listed id p h in
      let (l, at, entry) = kept_level id p h in
      record {
        same_id = k.same_id;
        shown = k.shown;
        within = k.within;
        priced = k.priced;
        peaked = k.peaked;
        past = rw (with_order-fields b o).1 k.past;
        level = l;
        at_level = at;
        in_queue = entry;
      }

  joined-IsSorted : (s : Side) → IsSorted (side (with_order o b) s)
  unfolding with_order
  joined-IsSorted s =
      let shown : Book = put_level b o.side o.price (added o (level_for b o)) in
      rw (side-orders shown (Map.insert o.order_id o b.orders) s) (
        set_side-IsSorted b o.side _ v.sides_sorted
          (insert-IsSorted o.price (added o (level_for b o)) _ (v.sides_sorted o.side)) s)

  joined-listed :
      (id : ℕ) (p : BookOrder)
      → get id (Map.insert o.order_id o b.orders) ≡ some p
      → OrderOk (with_order o b) id p
  joined-listed id p h = elim (Bool-cases (id == o.order_id)) [
    | inl t ↦
        let id_eq : id ≡ o.order_id = (==_iff id o.order_id).0 t in
        let this : p ≡ o = ground (arith, get-insert o.order_id id o b.orders) in
        rw (id_eq, this) joined-OrderOk
    | inr f ↦ kept-OrderOk id p (ground (arith, get-insert o.order_id id o b.orders))
  ]

  pub with_order-IsSound : IsSound (with_order o b)
  with_order-IsSound = record {
    sides_sorted = joined-IsSorted;
    orders_sorted =
        rw (with_order-fields b o).0 (insert-IsSorted o.order_id o b.orders v.orders_sorted);
    levels = λ s price l h. rw (with_order-fields b o).0 (joined-levels s price l h);
    listed = λ id p h. joined-listed id p (rw (with_order-fields b o).0 at h);
  }
