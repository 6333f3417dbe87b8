-- ===== src/Book/Resting.antt =====
-- `rest` and `cancel` on a sound book.
pub mod Undo
pub mod Refused
use bunting.Prelude.{
  ℕ, ◌+◌, ◌<◌, ◌^◌, Bool, true, false, ◌||◌, none, some, Option, ◌≡◌, refl, sym, arith, ltb,
  Bool-cases, Option-cases, inl, inr, ◌⊎◌, unwrap_or,
}
use bunting.Prelude.Int.{pos, ◌<ℤ◌, leb_ℤ}
use bunting.Prelude.Ord.{nat_ord, int_ord}
use bunting.Prelude.Map.{Map, get, remove_absent}
use bunting.Prelude.Map
use bunting.Market.{PriceTicks, QuantityLots, Side}
use bunting.Book.{
  BookOrder, duplicate_order, invalid_order, overflow, Level, Book, done, fail, contains,
  take_priority, insert, remove, is_invalid,
}
use bunting.Book.Orders.{rest, cancel, bad_display}
use bunting.Book.Sound.{IsSound}
use bunting.Book.Sound.Remove.{without, level_of, remove_lem}
use bunting.Book.Sound.Without.{without-IsSound, without-fields}
use bunting.Book.Sound.Insert.{Joins, with_order-fields, insert-eq-done, with_order-IsSound}
use bunting.Book.Sound.Reinsert.{bump, bump-IsSound}

pub take_priority-cases :
    (b : Book)
    → ((take_priority b ≡ done b.next_priority (bump b)) × (b.next_priority + 1 < 2 ^ 64))
      ⊎ (take_priority b ≡ fail overflow b)
unfolding take_priority
take_priority-cases b = elim (Bool-cases (ltb (b.next_priority + 1) (2 ^ 64))) [
  | inl t ↦ inl (rw t refl, ground arith)
  | inr f ↦ inr (rw f refl)
]

module _ (id : ℕ) (s : Side) (price : PriceTicks) (quantity : QuantityLots)
    (display : Option QuantityLots) where
  abbrev pub newcomer : ℕ → BookOrder
  newcomer n = record {
    order_id = id;
    side = s;
    price = price;
    remaining = quantity;
    visible = unwrap_or display quantity;
    display = display;
    priority = n;
  }

  -- What `rest` refuses before it touches the book.
  abbrev pub is_refused : Bool
  is_refused = leb_ℤ quantity (pos 0) || leb_ℤ price (pos 0) || bad_display display quantity

  rest-eq-done :
      (b b' : Book)
      → rest id s price quantity display b ≡ done tt b'
      → (is_refused ≡ false)
        × (contains b id ≡ false)
        × (insert (newcomer b.next_priority) (bump b) ≡ done tt b')
  unfolding rest
  rest-eq-done b b' h = ground (arith, take_priority-cases b)

  newcomer_valid :
      (n : ℕ)
      → is_refused ≡ false
      → (is_invalid (newcomer n) ≡ false) × (pos 0 <ℤ unwrap_or display (pos 1))
  newcomer_valid n h = go display h
    where
      go :
          (d : Option QuantityLots)
          → (leb_ℤ quantity (pos 0) || leb_ℤ price (pos 0) || bad_display d quantity) ≡ false
          → (is_invalid (record {
            order_id = id;
            side = s;
            price = price;
            remaining = quantity;
            visible = unwrap_or d quantity;
            display = d;
            priority = n;
          })
              ≡ false)
            × (pos 0 <ℤ unwrap_or d (pos 1))
      go none h = ground arith
      go (some peak) h = ground arith

  pub newcomer-Joins :
      (b : Book)
      → IsSound b
      → is_refused ≡ false
      → contains b id ≡ false
      → Joins (bump b) (newcomer b.next_priority)
  newcomer-Joins b v h c = record {
    valid = (newcomer_valid b.next_priority h).0;
    absent = ground arith;
    peaked = (newcomer_valid b.next_priority h).1;
    past = omega arith;
    no_twin = λ j p g t x. absurd (omega (arith, (v.listed j p g).past));
  }

  -- When `rest` succeeds on a sound book, the book stays sound, the order is added with the next
  -- priority and nothing else in the orders changes, the counter moves by one, and the order was
  -- neither on the book before nor one of those that are refused as invalid.
  pub rest-IsSound :
      (b b' : Book)
      → IsSound b
      → rest id s price quantity display b ≡ done tt b'
      → IsSound b'
        × (b'.orders ≡ Map.insert id (newcomer b.next_priority) b.orders)
        × (b'.next_priority ≡ b.next_priority + 1)
        × (get id b.orders ≡ none)
        × (is_refused ≡ false)
  rest-IsSound b b' v h =
      let (fine, fresh, inserted) = rest-eq-done b b' h in
      let new = newcomer b.next_priority in
      let j = newcomer-Joins b v fine fresh in
      let (same, shown_fits, total_fits) = insert-eq-done (bump b) new inserted in
      (
        rw same (with_order-IsSound (bump b) (bump-IsSound b v) new j shown_fits total_fits),
        rw (same, (with_order-fields (bump b) new).0) refl,
        rw (same, (with_order-fields (bump b) new).1) refl,
        j.absent,
        fine,
      )

  -- A refused or duplicate order leaves the book as it was.
  pub rest_refused :
      (b : Book)
      → ((is_refused ≡ true) → rest id s price quantity display b ≡ fail invalid_order b)
        × ((is_refused ≡ false)
            → contains b id ≡ true
            → rest id s price quantity display b ≡ fail duplicate_order b)
  unfolding rest
  rest_refused b = (λ h. ground arith, λ h c. ground arith)

cancel_miss : (b : Book) (id : ℕ) → get id b.orders ≡ none → cancel id b ≡ (none, b)
unfolding cancel
cancel_miss b id h = ground arith

cancel_hit :
    (b b' : Book) (id : ℕ) (o : BookOrder)
    → get id b.orders ≡ some o
    → remove id b ≡ done tt b'
    → cancel id b ≡ (some o, b')
unfolding cancel
cancel_hit b b' id o h r = ground arith

-- On a sound book `cancel` returns the resting order of that identifier, or nothing if there is
-- none, removes it from the orders, leaves the counter, and leaves a sound book.
pub cancel_lem :
    (b : Book) (id : ℕ)
    → IsSound b
    → IsSound (cancel id b).1
      × ((cancel id b).0 ≡ get id b.orders)
      × ((cancel id b).1.orders ≡ Map.remove id b.orders)
      × ((cancel id b).1.next_priority ≡ b.next_priority)
cancel_lem b id v = elim (Option-cases (get id b.orders)) [
  | inl absent ↦
      rw (cancel_miss b id absent, absent) (v, refl, sym (remove_absent id b.orders absent), refl)
  | inr (o, e) ↦
      let level : Level = level_of b v id o e in
      rw (cancel_hit b (without id o level b) id o e (remove_lem b v id o e), e)
        (
          without-IsSound b v id o e,
          refl,
          (without-fields b id o level).0,
          (without-fields b id o level).1,
        )
]
