-- ===== src/Book/Execute/Refine.antt =====
-- The loop of `execute` (packages/bunting-engine/src/book.rs) against its specification.
use mathlib.Core.List.{append_assoc, append-nil}
use bunting.Prelude.{
  ℕ, zero, suc, ◌+◌, ◌<◌, ◌≤◌, ◌^◌, true, false, none, some, Option, List, [], ◌∷◌, ◌++◌, ◌≡◌, refl,
  ap, ◌∙◌, arith, Bool-cases, Option-cases, inl, inr, ◌⊎◌,
}
use bunting.Prelude.Int.{pos, pos_part, ◌-ℤ◌, ◌≤ℤ◌, ◌<ℤ◌, leb_ℤ, int_laws, fits, i64}
use bunting.Prelude.Ord.{nat_ord, int_ord}
use bunting.Prelude.Map.{Map, get}
use bunting.Market.{PriceTicks, QuantityLots, Side, opposite}
use bunting.Book.{BookOrder, Match, Book, Outcome, done, side, best}
use bunting.Book.Orders.{match_front, beyond, next_price, execute_loop, execute}
use bunting.Book.Sound.{IsSound, OrderOk}
use bunting.Book.Priority.{best-eq-some, best-eq-none, beyond_mono}
use bunting.Book.Execute.{Filled, Exhausted, Trades, counter_after}
use bunting.Book.Execute.Fill.{match_front_lem}

falling :
    (q q₁ f : QuantityLots) → q₁ ≡ q -ℤ f → pos 0 <ℤ f → pos 0 ≤ℤ q₁ → pos_part q₁ < pos_part q
unfolding ◌-ℤ◌
falling q q₁ f e h k = ground arith

counter_step :
    (b : Book) {s : Side} {q q' : QuantityLots} {k : Match} {m' : Map ℕ BookOrder} {n' : ℕ}
    → Filled b.orders b.next_priority s q k m' n' q'
    → n' ≤ b.next_priority + 1
unfolding counter_after
counter_step b f = ground arith

module _ (taker : Side) (limit : Option PriceTicks) where
  -- With nothing within the limit at the best price, nothing is within the limit.
  Exhausted-beyond :
      (b : Book) (v : IsSound b) (q : QuantityLots) {price : PriceTicks}
      → best b (opposite taker) ≡ some price
      → beyond taker limit price ≡ true
      → Exhausted taker limit b.orders q
  Exhausted-beyond b v q {price} e h = inr λ id o g t.
      let (level, at, best_of) =
        best-eq-some b (opposite taker) (v.sides_sorted (opposite taker)) e in
      let k : OrderOk b id o = v.listed id o g in
      let there : get o.price (side b (opposite taker)) ≡ some k.level = rw (← t) k.at_level in
      beyond_mono taker limit price o.price h (best_of o.price k.level there)

  Exhausted-empty :
      (b : Book) (v : IsSound b) (q : QuantityLots)
      → best b (opposite taker) ≡ none
      → Exhausted taker limit b.orders q
  Exhausted-empty b v q e = inr λ id o g t.
      let k : OrderOk b id o = v.listed id o g in
      let there : get o.price (side b (opposite taker)) ≡ some k.level = rw (← t) k.at_level in
      absurd (let miss = best-eq-none b (opposite taker) o.price e in ground arith)

  -- The loop stops only when no more can trade.
  next_price_cases :
      (b : Book) (v : IsSound b) (q : QuantityLots)
      → ((next_price taker limit q b ≡ none) × Exhausted taker limit b.orders q)
        ⊎ ((price : PriceTicks) × (next_price taker limit q b ≡ some price)
            × (best b (opposite taker) ≡ some price)
            × (beyond taker limit price ≡ false)
            × (pos 0 <ℤ q))
  unfolding next_price
  next_price_cases b v q = elim (Bool-cases (leb_ℤ q (pos 0))) [
    | inl spent ↦ inl (rw spent refl, inl (ground arith))
    | inr more ↦ elim (Option-cases (best b (opposite taker))) [
      | inl empty ↦ inl (ground arith, Exhausted-empty b v q empty)
      | inr (price, e) ↦ elim (Bool-cases (beyond taker limit price)) [
        | inl far ↦ inl (ground arith, Exhausted-beyond b v q e far)
        | inr near ↦ inr (price, ground arith, e, near, ground arith)
      ]
    ]
  ]

  loop_stop :
      (fuel : ℕ) (b : Book) (q : QuantityLots) (acc : List Match)
      → next_price taker limit q b ≡ none
      → execute_loop (suc fuel) taker limit q acc b ≡ done (acc ++ [], q) b
  unfolding execute_loop
  loop_stop fuel b q acc e = ground (arith, append-nil acc)

  loop_step :
      (fuel : ℕ) (b b₁ : Book) (q q₁ : QuantityLots) (acc ks : List Match) (k : Match)
      (price : PriceTicks) (r : Outcome (List Match × QuantityLots))
      → next_price taker limit q b ≡ some price
      → match_front (opposite taker) price q b ≡ done (k, q₁) b₁
      → execute_loop fuel taker limit q₁ (acc ++ k ∷ []) b₁ ≡ r
      → execute_loop (suc fuel) taker limit q acc b ≡ r
  unfolding execute_loop
  loop_step fuel b b₁ q q₁ acc ks k price r e f h = ground arith

  execute_loop_lem :
      (fuel : ℕ) (b : Book) (v : IsSound b) (q : QuantityLots) (acc : List Match)
      → pos 0 ≤ℤ q
      → fits i64 q ≡ true
      → pos_part q < fuel
      → b.next_priority + pos_part q < 2 ^ 64
      → (ks : List Match) × (q' : QuantityLots) × (b' : Book) × (execute_loop fuel taker limit q acc
            b
          ≡ done (acc ++ ks, q') b')
        × IsSound b'
        × Trades taker limit ks b.orders b.next_priority q b'.orders b'.next_priority q'
  execute_loop_lem zero b v q acc h f enough space = absurd (omega arith)
  execute_loop_lem (suc fuel) b v q acc h f enough space = elim (next_price_cases b v q) [
    | inl (stop, spent) ↦ ([], q, b, loop_stop fuel b q acc stop, v, (refl, refl, refl, spent))
    | inr (price, next, e, near, some_left) ↦
        let (k, q₁, b₁, ran, v₁, filled, cost, some_filled, left, not_over, fit) =
          match_front_lem b v (opposite taker) price q some_left f (omega arith) e in
        let falls : pos_part q₁ < pos_part q = falling q q₁ k.quantity left some_filled not_over in
        let (ks, q', b', rest, v', trades) =
          execute_loop_lem fuel b₁ v₁ q₁ (acc ++ k ∷ []) not_over fit (omega (int_laws, falls))
            (omega (int_laws, falls, counter_step b filled)) in
        (
          k ∷ ks,
          q',
          b',
          loop_step fuel b b₁ q q₁ acc ks k price _ next ran
              (rest ∙ ap (λ l. done (l, q') b') (append_assoc acc (k ∷ []) ks)),
          v',
          (b₁.orders, b₁.next_priority, q₁, filled, rw cost near, trades),
        )
  ]

-- On a sound book, for a positive quantity that fits an i64 and a priority counter that stays below
-- 2^64 when the quantity is added to it, `execute` returns matches, a remainder and a sound book.
-- The matches lead from the first orders to the last by fills, each at the price of the maker, who
-- is first in line on the other side by price and then by priority and whose price is within the
-- limit, for the lesser of what is left and what the maker shows; a maker whose shown slice is used
-- up gets the next priority. They end where nothing is left or no order is within the limit.
pub execute_price_time :
    (b : Book) (taker : Side) (limit : Option PriceTicks) (q : QuantityLots)
    → IsSound b
    → pos 0 <ℤ q
    → fits i64 q ≡ true
    → b.next_priority + pos_part q < 2 ^ 64
    → (ks : List Match) × (left : QuantityLots) × (b' : Book) × (execute taker limit q b
        ≡ done (ks, left) b')
      × IsSound b'
      × Trades taker limit ks b.orders b.next_priority q b'.orders b'.next_priority left
unfolding execute
execute_price_time b taker limit q v h f space =
    let (ks, left, b', ran, v', trades) =
      execute_loop_lem taker limit (suc (pos_part q)) b v q [] (omega arith) f (omega arith)
        space in
    (ks, left, b', ground (arith, ran), v', trades)
