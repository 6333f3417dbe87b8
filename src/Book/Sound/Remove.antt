-- ===== src/Book/Sound/Remove.antt =====
-- Taking an order off a sound book succeeds, and leaves a sound book.
use bunting.Prelude.{ℕ, true, none, some, Option, ◌≡◌, refl, ◌∙◌, arith, if◌then◌else◌, ◌≢◌}
use bunting.Prelude.Int.{ℤ, pos, ◌+ℤ◌, ◌-ℤ◌, ◌≤ℤ◌, int_laws, fits, i64, checked_sub, checked}
use bunting.Prelude.Ord.{nat_ord, int_ord}
use bunting.Prelude.Map.{Map, get, is_empty, get-remove, IsSorted, insert-IsSorted, remove-IsSorted}
use bunting.Prelude.Map
use bunting.Prelude.Map.Sums.{sum_of_nonneg}
use bunting.Market.{PriceTicks, QuantityLots, Side}
use bunting.Book.{
  BookOrder, Level, Book, done, side, set_side, put_level, take_from_level, remove_found, remove,
}
use bunting.Book.Sound.{resting, amount, here_self, LevelOk, IsSound}
use bunting.Book.Sound.Places.{amount-remove-here}

-- The rest of the queue after one entry has been taken out.
unfoldable pub rest_of : BookOrder → Level → Option Level
rest_of o l =
    let queue = Map.remove o.priority l.queue in
    if is_empty queue
    then none
    else some
        (record { queue = queue; visible = l.visible -ℤ o.visible; total = l.total -ℤ o.remaining })

-- The order's level replaced by what is left of it, or dropped.
unfoldable pub place : BookOrder → Option Level → Book → Book
place o none b = set_side b o.side (Map.remove o.price (side b o.side))
place o (some l) b = put_level b o.side o.price l

-- The book without an order: what `remove` does when nothing fails.
unfoldable pub without : ℕ → BookOrder → Level → Book → Book
unfolding place rest_of
without id o l b = place o (rest_of o l) (record b { orders = Map.remove id b.orders })

-- What a part of a representable total leaves is representable.
pub fits_sub :
    (a p r : ℤ)
    → a ≡ p +ℤ r
    → pos 0 ≤ℤ p
    → pos 0 ≤ℤ r
    → fits i64 a ≡ true
    → (a -ℤ p ≡ r) × (checked_sub i64 a p ≡ some (a -ℤ p)) × (fits i64 (a -ℤ p) ≡ true)
unfolding checked_sub checked
fits_sub a p r e hp hr f =
    let same : a -ℤ p ≡ r = rw e (omega int_laws) in
    let fit : fits i64 r ≡ true = small a r f (rw e (omega int_laws)) hr in
    (same, rw (same, fit) refl, rw same fit)
  where
    small : (a r : ℤ) → fits i64 a ≡ true → r ≤ℤ a → pos 0 ≤ℤ r → fits i64 r ≡ true
    small a r f h k = ground arith

-- The totals of the orders at one place are not negative.
pub amount_nonneg :
    (b : Book) (s : Side) (price : PriceTicks) (f : BookOrder → QuantityLots) (m : Map ℕ BookOrder)
    → IsSorted m
    → ((id : ℕ) (o : BookOrder) → get id m ≡ some o → pos 0 ≤ℤ f o)
    → pos 0 ≤ℤ amount s price f m
unfolding amount
amount_nonneg b s price f m h k =
    sum_of_nonneg (resting s price f) m h (λ id o e. ground (arith, k id o e))

module _ (b : Book) (v : IsSound b) where
  pub shown_nonneg : (id : ℕ) (o : BookOrder) → get id b.orders ≡ some o → pos 0 ≤ℤ o.visible
  shown_nonneg id o e = omega (arith, (v.listed id o e).shown)

  pub remaining_nonneg : (id : ℕ) (o : BookOrder) → get id b.orders ≡ some o → pos 0 ≤ℤ o.remaining
  remaining_nonneg id o e = omega (arith, (v.listed id o e).shown, (v.listed id o e).within)

-- An order found in a map without `id` is another order of the map.
pub get-removed :
    (id j : ℕ) (m : Map ℕ BookOrder) (p : BookOrder)
    → get j (Map.remove id m) ≡ some p
    → (j ≢ id) × (get j m ≡ some p)
get-removed id j m p h = (λ e. ground (arith, get-remove id j m), ground (arith, get-remove id j m))

module _ (b : Book) (v : IsSound b) (id : ℕ) (o : BookOrder) (e : get id b.orders ≡ some o) where
  abbrev pub level_of : Level
  level_of = (v.listed id o e).level

  level_ok : LevelOk b.orders o.side o.price level_of
  level_ok = v.levels o.side o.price level_of (v.listed id o e).at_level

  split :
      (f : BookOrder → QuantityLots)
      → amount o.side o.price f b.orders ≡ f o +ℤ amount o.side o.price f (Map.remove id b.orders)
  split f = amount-remove-here o.side o.price f id o b.orders v.orders_sorted e (here_self o)

  left_nonneg :
      (f : BookOrder → QuantityLots)
      → ((id : ℕ) (o : BookOrder) → get id b.orders ≡ some o → pos 0 ≤ℤ f o)
      → pos 0 ≤ℤ amount o.side o.price f (Map.remove id b.orders)
  left_nonneg f h =
      amount_nonneg b o.side o.price f (Map.remove id b.orders)
        (remove-IsSorted id b.orders v.orders_sorted)
        (λ j p g. h j p (get-removed id j b.orders p g).1)

  pub visible_part :
      (level_of.visible -ℤ o.visible
        ≡ amount o.side o.price (λ o. o.visible) (Map.remove id b.orders))
      × (checked_sub i64 level_of.visible o.visible ≡ some (level_of.visible -ℤ o.visible))
      × (fits i64 (level_of.visible -ℤ o.visible) ≡ true)
  visible_part =
      fits_sub level_of.visible o.visible _ (level_ok.visible_sum ∙ split (λ o. o.visible))
        (shown_nonneg b v id o e) (left_nonneg (λ o. o.visible) (shown_nonneg b v))
        level_ok.visible_fits

  pub total_part :
      (level_of.total -ℤ o.remaining
        ≡ amount o.side o.price (λ o. o.remaining) (Map.remove id b.orders))
      × (checked_sub i64 level_of.total o.remaining ≡ some (level_of.total -ℤ o.remaining))
      × (fits i64 (level_of.total -ℤ o.remaining) ≡ true)
  total_part =
      fits_sub level_of.total o.remaining _ (level_ok.total_sum ∙ split (λ o. o.remaining))
        (remaining_nonneg b v id o e) (left_nonneg (λ o. o.remaining) (remaining_nonneg b v))
        level_ok.total_fits

  -- On a sound book `remove` does not fail.
  pub remove_lem : remove id b ≡ done tt (without id o level_of b)
  unfolding remove remove_found take_from_level without rest_of
  remove_lem = ground (arith, visible_part, total_part, (v.listed id o e).at_level)
