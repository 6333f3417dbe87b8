-- ===== src/Book/Sound/Reinsert.antt =====
-- Putting an order back whose level had room for more of it cannot fail.
use bunting.Prelude.{◌+◌, true, false, none, some, Option, ◌≡◌, refl, arith, unwrap_or}
use bunting.Prelude.Int.{ℤ, pos, ◌+ℤ◌, ◌≤ℤ◌, ◌<ℤ◌, min_ℤ, int_laws, fits, i64}
use bunting.Prelude.Ord.{nat_ord, int_ord}
use bunting.Prelude.Map.Sums.{sum_of_mono}
use bunting.Market.{PriceTicks, QuantityLots, Side, buy, sell}
use bunting.Book.{BookOrder, Book, done, side, insert, is_invalid}
use bunting.Book.Sound.{resting, amount, OrderOk, IsSound}
use bunting.Book.Sound.Remove.{amount_nonneg, shown_nonneg, remaining_nonneg}
use bunting.Book.Sound.Insert.{
  Joins, level_for, with_order, insert_lem, priority_free, with_order-IsSound, level_sums,
}

-- Only the priority counter has moved.
abbrev pub bump : Book → Book
bump b = record b { next_priority = b.next_priority + 1 }

side-bump : (b : Book) (s : Side) → side (bump b) s ≡ side b s
side-bump b buy = refl
side-bump b sell = refl

pub bump-IsSound : (b : Book) → IsSound b → IsSound (bump b)
bump-IsSound b v = record {
  sides_sorted = λ s. rw (side-bump b s) (v.sides_sorted s);
  orders_sorted = v.orders_sorted;
  levels = λ s price l h. v.levels s price l (rw (side-bump b s) at h);
  listed = λ id o h.
      let k : OrderOk b id o = v.listed id o h in
      record {
        same_id = k.same_id;
        shown = k.shown;
        within = k.within;
        priced = k.priced;
        peaked = k.peaked;
        past = omega (arith, k.past);
        level = k.level;
        at_level = rw (side-bump b o.side) k.at_level;
        in_queue = k.in_queue;
      };
}

pub fits_between : (a c : ℤ) → pos 0 ≤ℤ a → a ≤ℤ c → fits i64 c ≡ true → fits i64 a ≡ true
fits_between a c h k f = ground arith

pub valid_of :
    (o : BookOrder)
    → pos 0 <ℤ o.remaining
    → pos 0 <ℤ o.visible
    → o.visible ≤ℤ o.remaining
    → pos 0 <ℤ o.price
    → is_invalid o ≡ false
valid_of o r w h p = ground arith

-- A refreshed slice shows something, and no more than remains.
pub peak_bounds :
    (display : Option QuantityLots) (r : QuantityLots)
    → pos 0 <ℤ r
    → pos 0 <ℤ unwrap_or display (pos 1)
    → (pos 0 <ℤ min_ℤ (unwrap_or display r) r) × (min_ℤ (unwrap_or display r) r ≤ℤ r)
unfolding min_ℤ
peak_bounds none r h k = ground arith
peak_bounds (some peak) r h k = ground arith

-- What is displayed at a place is at most what rests there.
amount_le :
    (b : Book) (v : IsSound b) (s : Side) (price : PriceTicks)
    → amount s price (λ o. o.visible) b.orders ≤ℤ amount s price (λ o. o.remaining) b.orders
unfolding amount
amount_le b v s price =
    sum_of_mono (resting s price (λ o. o.visible)) (resting s price (λ o. o.remaining)) b.orders
      v.orders_sorted (λ id o e. ground (arith, (v.listed id o e).within))

module _ (b : Book) (v : IsSound b) (o : BookOrder) (j : Joins b o) (room : ℤ)
    (fitting : fits i64 room ≡ true)
    (below : amount o.side o.price (λ p. p.remaining) b.orders +ℤ o.remaining ≤ℤ room) where
  valid_sizes : (pos 0 <ℤ o.visible) × (o.visible ≤ℤ o.remaining)
  valid_sizes = ground (arith, j.valid)

  total_room : fits i64 ((level_for b o).total +ℤ o.remaining) ≡ true
  total_room =
      let rest =
        amount_nonneg b o.side o.price (λ p. p.remaining) b.orders v.orders_sorted
          (remaining_nonneg b v) in
      rw (level_sums b v o.side o.price).1
        (fits_between _ room (omega (int_laws, rest, valid_sizes)) below fitting)

  visible_room : fits i64 ((level_for b o).visible +ℤ o.visible) ≡ true
  visible_room =
      let rest =
        amount_nonneg b o.side o.price (λ p. p.visible) b.orders v.orders_sorted
          (shown_nonneg b v) in
      rw (level_sums b v o.side o.price).0 (
        fits_between (amount o.side o.price (λ p. p.visible) b.orders +ℤ o.visible) room
          (omega (int_laws, rest, valid_sizes))
          (omega (int_laws, amount_le b v o.side o.price, valid_sizes, below)) fitting)

  pub insert_ok : (insert o b ≡ done tt (with_order o b)) × IsSound (with_order o b)
  insert_ok = (
    insert_lem b o j.valid j.absent (priority_free b v o j) visible_room total_room,
    with_order-IsSound b v o j visible_room total_room,
  )
