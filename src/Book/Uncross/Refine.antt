-- ===== src/Book/Uncross/Refine.antt =====
-- The loop of `uncross` (packages/bunting-engine/src/book.rs) against its specification.
use mathlib.Core.List.{append_assoc, append-nil}
use bunting.Prelude.{
  ℕ, zero, suc, ◌+◌, ◌*◌, ◌<◌, ◌≤◌, ◌^◌, false, ◌||◌, none, some, List, [], ◌∷◌, ◌++◌, ◌≡◌, refl,
  sym, ap, subst, ◌∙◌, arith, Bool-cases, Option-cases, inl, inr, ◌≢◌, ◌⊎◌, length,
}
use bunting.Prelude.Int.{◌-ℤ◌, ◌≤ℤ◌, ltb_ℤ, min_ℤ}
use bunting.Prelude.Ord.{nat_ord, int_ord}
use bunting.Prelude.Map.{get}
use bunting.Market.{PriceTicks, QuantityLots, Side, buy, sell}
use bunting.Book.{BookOrder, Cross, Level, Book, Outcome, done, side, best}
use bunting.Book.Orders.{
  fill_resting, front, front_order, crossing, cross_fronts, uncross_loop, uncross,
}
use bunting.Book.Sound.{IsSound, OrderOk}
use bunting.Book.Priority.{FirstInLine, front-FirstInLine}
use bunting.Book.Execute.Fill.{min_bounds}
use bunting.Book.Priority.{best-eq-some, best-eq-none, better}
use bunting.Book.Uncross.{get-after_cross, fill_resting_lem, shorter, Crossed, Crosses, Settled}

cross_fronts_run :
    (b b₁ b' : Book) (bid ask : PriceTicks) (o p : BookOrder) (l r : QuantityLots)
    → front_order buy bid b ≡ some o
    → front_order sell ask b ≡ some p
    → fill_resting o (min_ℤ o.remaining p.remaining) b ≡ done l b₁
    → fill_resting p (min_ℤ o.remaining p.remaining) b₁ ≡ done r b'
    → cross_fronts bid ask b
      ≡ done
          (record {
            buy_id = o.order_id;
            sell_id = p.order_id;
            quantity = min_ℤ o.remaining p.remaining;
            buy_remaining = l;
            sell_remaining = r;
            buy_priority = o.priority;
            sell_priority = p.priority;
          })
          b'
unfolding cross_fronts
cross_fronts_run b b₁ b' bid ask o p l r f g h k = ground arith

front_order_run :
    (b : Book) (s : Side) (price : PriceTicks) (id : ℕ) (o : BookOrder)
    → front s price b ≡ some id
    → get id b.orders ≡ some o
    → front_order s price b ≡ some o
unfolding front_order
front_order_run b s price id o f g = ground arith

module _ (b : Book) (v : IsSound b) (space : b.next_priority + 2 < 2 ^ 64) where
  cross_fronts_lem :
      (bid ask : PriceTicks)
      → best b buy ≡ some bid
      → best b sell ≡ some ask
      → (price : PriceTicks) → price ≤ℤ bid
      → ask ≤ℤ price
      → (c : Cross) × (b' : Book) × (cross_fronts bid ask b ≡ done c b')
        × IsSound b'
        × Crossed price b.orders b.next_priority c b'.orders
        × (length b'.orders < length b.orders)
        × (b'.next_priority ≤ b.next_priority + 2)
  cross_fronts_lem bid ask e f price h k =
      let (i, o, front_bid, lead_bid, bid_price) = front-FirstInLine b v buy e in
      let (j, p, front_ask, lead_ask, ask_price) = front-FirstInLine b v sell f in
      let ok_bid : OrderOk b i o = v.listed i o lead_bid.found in
      let ok_ask : OrderOk b j p = v.listed j p lead_ask.found in
      let q : QuantityLots = min_ℤ o.remaining p.remaining in
      let (some_filled, in_bid, in_ask) =
        min_bounds o.remaining p.remaining (omega (arith, ok_bid.shown, ok_bid.within))
          (omega (arith, ok_ask.shown, ok_ask.within)) in
      let (b₁, ran₁, v₁, orders₁, counter₁) =
        fill_resting_lem b v i o lead_bid.found q some_filled in_bid (omega arith) in
      let apart : j ≢ i =
        λ x. ground (arith, lead_bid.found, lead_ask.found, lead_bid.on_side, lead_ask.on_side) in
      let still : get j b₁.orders ≡ some p =
        rw (orders₁, get-after_cross i o q b.orders b.next_priority j apart) lead_ask.found in
      let (b', ran', v', orders', counter') =
        fill_resting_lem b₁ v₁ j p still q some_filled in_ask (omega arith) in
      (
        record {
          buy_id = o.order_id;
          sell_id = p.order_id;
          quantity = q;
          buy_remaining = o.remaining -ℤ q;
          sell_remaining = p.remaining -ℤ q;
          buy_priority = o.priority;
          sell_priority = p.priority;
        },
        b',
        cross_fronts_run b b₁ b' bid ask o p (o.remaining -ℤ q) (p.remaining -ℤ q)
            (front_order_run b buy bid i o front_bid lead_bid.found)
            (front_order_run b sell ask j p front_ask lead_ask.found) ran₁ ran',
        v',
        record {
          buyer = o;
          seller = p;
          first_buyer = subst (λ x. FirstInLine b.orders buy x o) (sym ok_bid.same_id) lead_bid;
          first_seller = subst (λ x. FirstInLine b.orders sell x p) (sym ok_ask.same_id) lead_ask;
          buyer_pays = rw bid_price h;
          seller_takes = rw ask_price k;
          traded = refl;
          bought = refl;
          sold = refl;
          buyer_priority = refl;
          seller_priority = refl;
          counter = b₁.next_priority;
          orders = cc (orders', orders₁, ok_bid.same_id, ok_ask.same_id);
        },
        shorter i j o p b.orders b₁.orders b'.orders b.next_priority b₁.next_priority
            v.orders_sorted v₁.orders_sorted lead_bid.found still orders₁ orders',
        omega arith,
      )

crossing-cases :
    (price : PriceTicks) (b : Book)
    → (crossing price b ≡ none)
      ⊎ ((bid ask : PriceTicks) × (crossing price b ≡ some (bid, ask))
          × (best b buy ≡ some bid)
          × (best b sell ≡ some ask)
          × (price ≤ℤ bid)
          × (ask ≤ℤ price))
unfolding crossing
crossing-cases price b = elim (Option-cases (best b buy)) [
  | inl n ↦ inl (ground arith)
  | inr (bid, e) ↦ elim (Option-cases (best b sell)) [
    | inl n ↦ inl (ground arith)
    | inr (ask, f) ↦ elim (Bool-cases (ltb_ℤ bid price || ltb_ℤ price ask)) [
      | inl apart ↦ inl (ground arith)
      | inr meet ↦ inr (bid, ask, ground arith, e, f, ground arith, ground arith)
    ]
  ]
]

-- With nothing crossing at the best prices, nothing crosses.
module _ (b : Book) (v : IsSound b) (price : PriceTicks) where
  level_of_order :
      (i : ℕ) (o : BookOrder) (s : Side)
      → get i b.orders ≡ some o
      → o.side ≡ s
      → (l : Level) × (get o.price (side b s) ≡ some l)
  level_of_order i o s e t =
      let k : OrderOk b i o = v.listed i o e in (k.level, rw (← t) k.at_level)

  best_exists :
      (i : ℕ) (o : BookOrder) (s : Side)
      → get i b.orders ≡ some o
      → o.side ≡ s
      → (p : PriceTicks) × (best b s ≡ some p) × (better s o.price p ≡ false)
  best_exists i o s e t = elim (Option-cases (best b s)) [
    | inl n ↦
        let (l, at) = level_of_order i o s e t in
        absurd (let miss = best-eq-none b s o.price n in ground arith)
    | inr (p, f) ↦
        let (l, at) = level_of_order i o s e t in
        let (level, there, best_of) = best-eq-some b s (v.sides_sorted s) f in
        (p, f, best_of o.price l at)
  ]

  crossing-Settled : crossing price b ≡ none → Settled price b.orders
  unfolding crossing
  crossing-Settled h i j o p e f s t x y =
      let (bid, best_bid, no_higher) = best_exists i o buy e s in
      let (ask, best_ask, no_lower) = best_exists j p sell f t in ground arith

uncross_step :
    (fuel : ℕ) (price bid ask : PriceTicks) (b b₁ : Book) (acc : List Cross) (c : Cross)
    (r : Outcome (List Cross))
    → crossing price b ≡ some (bid, ask)
    → cross_fronts bid ask b ≡ done c b₁
    → uncross_loop fuel price (acc ++ c ∷ []) b₁ ≡ r
    → uncross_loop (suc fuel) price acc b ≡ r
unfolding uncross_loop
uncross_step fuel price bid ask b b₁ acc c r e f h = ground arith

uncross_stop :
    (fuel : ℕ) (price : PriceTicks) (b : Book) (acc : List Cross)
    → crossing price b ≡ none
    → uncross_loop (suc fuel) price acc b ≡ done (acc ++ []) b
unfolding uncross_loop
uncross_stop fuel price b acc e = ground (arith, append-nil acc)

uncross_loop_lem :
    (fuel : ℕ) (price : PriceTicks) (b : Book) (acc : List Cross)
    → IsSound b
    → length b.orders < fuel
    → b.next_priority + 2 * fuel < 2 ^ 64
    → (cs : List Cross) × (b' : Book) × (uncross_loop fuel price acc b ≡ done (acc ++ cs) b')
      × IsSound b'
      × Crosses price cs b.orders b'.orders
uncross_loop_lem zero price b acc v enough space = absurd (omega arith)
uncross_loop_lem (suc fuel) price b acc v enough space = elim (crossing-cases price b) [
  | inl stop ↦
      ([], b, uncross_stop fuel price b acc stop, v, (refl, crossing-Settled b v price stop))
  | inr (bid, ask, next, e, f, h, k) ↦
      let (c, b₁, ran, v₁, crossed, less_orders, counter) =
        cross_fronts_lem b v (omega arith) bid ask e f price h k in
      let (cs, b', rest_ran, v', crosses) =
        uncross_loop_lem fuel price b₁ (acc ++ c ∷ []) v₁ (omega arith) (omega arith) in
      (
        c ∷ cs,
        b',
        uncross_step fuel price bid ask b b₁ acc c _ next ran
            (rest_ran ∙ ap (λ l. done l b') (append_assoc acc (c ∷ []) cs)),
        v',
        (b₁.orders, b.next_priority, crossed, crosses),
      )
]

-- On a sound book whose priority counter has room for twice the number of orders and two more below
-- 2^64, `uncross` returns crosses and a sound book. The crosses lead from the first orders to the
-- last: each trades the first buyer and the first seller in line, both of whom accept the price, for
-- all that the smaller of them has left, hidden quantity included. They end where no buyer and
-- seller are left who both accept the price.
pub uncross_settles :
    (price : PriceTicks) (b : Book)
    → IsSound b
    → b.next_priority + 2 * length b.orders + 2 < 2 ^ 64
    → (cs : List Cross) × (b' : Book) × (uncross price b ≡ done cs b')
      × IsSound b'
      × Crosses price cs b.orders b'.orders
unfolding uncross
uncross_settles price b v space =
    uncross_loop_lem (suc (length b.orders)) price b [] v (omega arith) (omega arith)
