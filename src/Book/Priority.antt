-- ===== src/Book/Priority.antt =====
-- Price-time priority, stated over the orders alone, and the fronts of a sound book.
use bunting.Prelude.{
  ℕ, ◌≤◌, Bool, true, false, none, some, Option, ◌≡◌, ◌∙◌, arith, ltb, Option-cases, inl, inr,
}
use bunting.Prelude.Int.{ltb_ℤ}
use bunting.Prelude.Ord.{nat_ord, int_ord}
use bunting.Prelude.Map.{Map, get, IsSorted}
use bunting.Prelude.Map
use bunting.Prelude.Map.Ends.{
  get-first, first-least, get-last, last-greatest, get-first_none, get-last-none, first-some,
}
use bunting.Market.{PriceTicks, Side, buy, sell, opposite}
use bunting.Book.{BookOrder, Level, Book, side, best, crosses}
use bunting.Book.Orders.{front, beyond}
use bunting.Book.Sound.{LevelOk, OrderOk, IsSound}

-- Whether the first price of a side trades before the second.
abbrev pub better : Side → PriceTicks → PriceTicks → Bool
better buy p q = ltb_ℤ q p
better sell p q = ltb_ℤ p q

-- No order of the side has a better price, and none of this price came earlier.
pub record FirstInLine (m : Map ℕ BookOrder) (s : Side) (id : ℕ) (o : BookOrder) : Type 0 where
  pub found : get id m ≡ some o
  pub on_side : o.side ≡ s
  pub first_price :
      (j : ℕ) (p : BookOrder) → get j m ≡ some p → p.side ≡ s → better s p.price o.price ≡ false
  pub first_time :
      (j : ℕ) (p : BookOrder)
      → get j m ≡ some p
      → p.side ≡ s
      → p.price ≡ o.price
      → o.priority ≤ p.priority

-- The best price of a side has a level, and no level of the side is better.
pub best-eq-some :
    (b : Book) (s : Side) {price : PriceTicks}
    → IsSorted (side b s)
    → best b s ≡ some price
    → (level : Level) × (get price (side b s) ≡ some level)
      × ((q : PriceTicks) (l : Level) → get q (side b s) ≡ some l → better s q price ≡ false)
unfolding best
best-eq-some b buy {price} h e = elim (Option-cases (Map.last b.bids)) [
  | inl n ↦ absurd (ground arith)
  | inr ((p, level), f) ↦
      let same : p ≡ price = ground arith in
      rw (← same) (level, get-last b.bids h f, λ q l g. last-greatest b.bids q h f g)
]
best-eq-some b sell {price} h e = elim (Option-cases (Map.first b.asks)) [
  | inl n ↦ absurd (ground arith)
  | inr ((p, level), f) ↦
      let same : p ≡ price = ground arith in
      rw (← same) (level, get-first b.asks f, λ q l g. first-least b.asks q h f g)
]

pub best-eq-none :
    (b : Book) (s : Side) (q : PriceTicks) → best b s ≡ none → get q (side b s) ≡ none
unfolding best
best-eq-none b buy q e = get-last-none b.bids q (ground arith)
best-eq-none b sell q e = get-first_none b.asks q (ground arith)

-- The front order of the best level of a sound book is first in line.
module _ (b : Book) (v : IsSound b) (s : Side) where
  module _ (price : PriceTicks) (level : Level) (at : get price (side b s) ≡ some level) where
    -- A listed order of the level's place is in its queue.
    pub in_queue :
        (j : ℕ) (p : BookOrder)
        → get j b.orders ≡ some p
        → p.side ≡ s
        → p.price ≡ price
        → get p.priority level.queue ≡ some j
    in_queue j p g t c =
        let k : OrderOk b j p = v.listed j p g in
        let there : get price (side b s) ≡ some k.level = rw (← t, ← c) k.at_level in
        let shared : k.level ≡ level = ground arith in rw (← shared) k.in_queue

    leads :
        (priority id : ℕ) (o : BookOrder)
        → Map.first level.queue ≡ some (priority, id)
        → IsSorted level.queue
        → ((q : PriceTicks) (l : Level) → get q (side b s) ≡ some l → better s q price ≡ false)
        → get id b.orders ≡ some o
        → o.side ≡ s
        → o.price ≡ price
        → o.priority ≡ priority
        → FirstInLine b.orders s id o
    leads priority id o f h best_of found on cost time = record {
      found = found;
      on_side = on;
      first_price = λ j p g t.
          let k : OrderOk b j p = v.listed j p g in
          let there : get p.price (side b s) ≡ some k.level = rw (← t) k.at_level in
          rw cost (best_of p.price k.level there);
      first_time = λ j p g t c.
          let entry : get p.priority level.queue ≡ some j = in_queue j p g t (c ∙ cost) in
          let late : ltb p.priority priority ≡ false =
            first-least level.queue p.priority h f entry in
          rw time (ground arith);
    }

  pub front-FirstInLine :
      {price : PriceTicks}
      → best b s ≡ some price
      → (id : ℕ) × (o : BookOrder) × (front s price b ≡ some id)
        × FirstInLine b.orders s id o
        × (o.price ≡ price)
  unfolding front
  front-FirstInLine {price} e =
      let (level, at, best_of) = best-eq-some b s (v.sides_sorted s) e in
      let k : LevelOk b.orders s price level = v.levels s price level at in
      let ((priority, id), f) = first-some level.queue k.occupied in
      let (o, found, on, cost, time) = k.queued priority id (get-first level.queue f) in
      (
        id,
        o,
        ground (arith, at, f),
        leads price level at priority id o f k.queue_sorted best_of found on cost time,
        cost,
      )

-- A price beyond the limit leaves no better one within it.
pub beyond_mono :
    (taker : Side) (limit : Option PriceTicks) (p q : PriceTicks)
    → beyond taker limit p ≡ true
    → better (opposite taker) q p ≡ false
    → beyond taker limit q ≡ true
unfolding crosses opposite
beyond_mono taker none p q h k = h
beyond_mono buy (some limit) p q h k = ground arith
beyond_mono sell (some limit) p q h k = ground arith
