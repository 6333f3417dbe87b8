-- ===== src/Book/Orders.antt =====
-- The operations of the book on orders: `rest`, `cancel`, `execute`, `uncross`, and the views of it.
use bunting.Prelude.{
  ℕ, zero, suc, Bool, true, false, ◌||◌, Option, none, some, List, [], ◌∷◌, ◌++◌, if◌then◌else◌,
  length, unwrap_or,
}
use bunting.Prelude.Int.{pos, pos_part, ltb_ℤ, leb_ℤ, eqb_ℤ, min_ℤ, i64, checked_sub}
use bunting.Prelude.Ord.{nat_ord, int_ord}
use bunting.Prelude.Map.{Map, values}
use bunting.Prelude.Map
use bunting.Market.{PriceTicks, QuantityLots, Side, buy, sell, opposite}
use bunting.Book.{
  BookOrder, Match, Cross, duplicate_order, invalid_order, overflow, Book, done, fail, diverge, M,
  ◌>>=◌, ◌>>◌, lift, fail_if, crosses, side, contains, order, best, take_priority, insert, remove,
}

abbrev pub bad_display : Option QuantityLots → QuantityLots → Bool
bad_display none quantity = false
bad_display (some peak) quantity = leb_ℤ peak (pos 0) || ltb_ℤ quantity peak

unfoldable pub rest : ℕ → Side → PriceTicks → QuantityLots → Option QuantityLots → M (Unit {0})
rest order_id s price quantity display b =
    (do
      fail_if (leb_ℤ quantity (pos 0) || leb_ℤ price (pos 0) || bad_display display quantity)
          invalid_order
      fail_if (contains b order_id) duplicate_order
      priority ← take_priority
      insert (record {
        order_id = order_id;
        side = s;
        price = price;
        remaining = quantity;
        visible = unwrap_or display quantity;
        display = display;
        priority = priority;
      }))
      b

-- The removed order, if there was one.
unfoldable pub cancel : ℕ → Book → Option BookOrder × Book
cancel order_id b = elim (order b order_id) [
  | none ↦ (none, b)
  | some o ↦ elim (remove order_id b) [
    | done _ b' ↦ (some o, b')
    | fail _ b' ↦ (none, b')
    | diverge ↦ (none, b)
  ]
]

-- The order identifier at the front of a level.
unfoldable pub front : Side → PriceTicks → Book → Option ℕ
front s price b = elim (Map.get price (side b s)) [
  | none ↦ none
  | some level ↦ elim (Map.first level.queue) [ none ↦ none | some (_, id) ↦ some id ]
]

-- The order at the front of a level: `head` of `uncross`.
unfoldable pub front_order : Side → PriceTicks → Book → Option BookOrder
front_order s price b = elim (front s price b) [ none ↦ none | some id ↦ order b id ]

-- Putting the maker back after a fill of its displayed slice.
unfoldable pub reinsert : BookOrder → M (Unit {0})
reinsert maker =
    if ltb_ℤ (pos 0) maker.remaining
    then if eqb_ℤ maker.visible (pos 0)
      then (do
        priority ← take_priority
        insert (record maker {
          visible = min_ℤ (unwrap_or maker.display maker.remaining) maker.remaining;
          priority = priority;
        }))
      else insert maker
    else done tt

-- One round of the loop of `execute`: the best level's front order trades.
unfoldable pub match_front : Side → PriceTicks → QuantityLots → M (Match × QuantityLots)
match_front maker_side price remaining b =
    (do
      maker_id ← lift (front maker_side price b) invalid_order
      maker ← lift (order b maker_id) invalid_order
      let fill = min_ℤ remaining maker.visible
      fail_if (leb_ℤ fill (pos 0)) invalid_order
      left ← lift (checked_sub i64 remaining fill) overflow
      maker_remaining ← lift (checked_sub i64 maker.remaining fill) overflow
      visible ← lift (checked_sub i64 maker.visible fill) overflow
      remove maker_id
      reinsert (record maker { remaining = maker_remaining; visible = visible })
      done (
        record {
          maker = maker_id;
          price = price;
          quantity = fill;
          maker_remaining = maker_remaining;
        },
        left,
      ))
      b

abbrev pub beyond : Side → Option PriceTicks → PriceTicks → Bool
beyond taker none price = false
beyond taker (some limit) price = elim (crosses taker limit price) [ true ↦ false | false ↦ true ]

-- What the loop does next: it stops, or trades at a price.
unfoldable pub next_price : Side → Option PriceTicks → QuantityLots → Book → Option PriceTicks
next_price taker limit remaining b =
    if leb_ℤ remaining (pos 0) then none else elim (best b (opposite taker)) [
      | none ↦ none
      | some price ↦ if beyond taker limit price then none else some price
    ]

unfoldable pub execute_loop :
    ℕ → Side → Option PriceTicks → QuantityLots → List Match → M (List Match × QuantityLots)
execute_loop zero taker limit remaining matches b = diverge
execute_loop (suc fuel) taker limit remaining matches b =
    elim (next_price taker limit remaining b) [
      | none ↦ done (matches, remaining) b
      | some price ↦ elim (match_front (opposite taker) price remaining b) [
        | done (m, left) b' ↦ execute_loop fuel taker limit left (matches ++ m ∷ []) b'
        | fail e b' ↦ fail e b'
        | diverge ↦ diverge
      ]
    ]

-- Each round fills at least one lot, so the quantity bounds the rounds.
unfoldable pub execute : Side → Option PriceTicks → QuantityLots → M (List Match × QuantityLots)
execute taker limit quantity b =
    if leb_ℤ quantity (pos 0)
    then fail invalid_order b
    else execute_loop (suc (pos_part quantity)) taker limit quantity [] b

abbrev pub refill : BookOrder → QuantityLots → M BookOrder
refill o quantity =
    if leb_ℤ o.visible quantity
    then (do
      priority ← take_priority
      done (record o {
        visible = min_ℤ (unwrap_or o.display o.remaining) o.remaining;
        priority = priority;
      }))
    else (do
      visible ← lift (checked_sub i64 o.visible quantity) overflow
      done (record o { visible = visible }))

-- `.filter(|remaining| remaining.get() >= 0)`.
abbrev pub non_negative : Option QuantityLots → Option QuantityLots
non_negative none = none
non_negative (some q) = if ltb_ℤ q (pos 0) then none else some q

-- What is left of the order goes back on the book.
unfoldable pub put_back : BookOrder → QuantityLots → QuantityLots → M (Unit {0})
put_back o quantity left =
    if ltb_ℤ (pos 0) left
    then (do o' ← refill (record o { remaining = left }) quantity; insert o')
    else done tt

unfoldable pub fill_resting : BookOrder → QuantityLots → M QuantityLots
fill_resting o quantity = do
  remove o.order_id
  left ← lift (non_negative (checked_sub i64 o.remaining quantity)) overflow
  put_back o quantity left
  done left

-- The two best prices, while both can trade at the auction price.
unfoldable pub crossing : PriceTicks → Book → Option (PriceTicks × PriceTicks)
crossing price b = elim (best b buy) [
  | none ↦ none
  | some bid ↦ elim (best b sell) [
    | none ↦ none
    | some ask ↦ if ltb_ℤ bid price || ltb_ℤ price ask then none else some (bid, ask)
  ]
]

unfoldable pub cross_fronts : PriceTicks → PriceTicks → M Cross
cross_fronts bid ask b =
    (do
      bid_head ← lift (front_order buy bid b) invalid_order
      ask_head ← lift (front_order sell ask b) invalid_order
      let quantity = min_ℤ bid_head.remaining ask_head.remaining
      buy_remaining ← fill_resting bid_head quantity
      sell_remaining ← fill_resting ask_head quantity
      done (record {
        buy_id = bid_head.order_id;
        sell_id = ask_head.order_id;
        quantity = quantity;
        buy_remaining = buy_remaining;
        sell_remaining = sell_remaining;
        buy_priority = bid_head.priority;
        sell_priority = ask_head.priority;
      }))
      b

unfoldable pub uncross_loop : ℕ → PriceTicks → List Cross → M (List Cross)
uncross_loop zero price crosses b = diverge
uncross_loop (suc fuel) price crosses b = elim (crossing price b) [
  | none ↦ done crosses b
  | some (bid, ask) ↦ elim (cross_fronts bid ask b) [
    | done c b' ↦ uncross_loop fuel price (crosses ++ c ∷ []) b'
    | fail e b' ↦ fail e b'
    | diverge ↦ diverge
  ]
]

-- Each round uses up an order, so the number of orders bounds the rounds.
unfoldable pub uncross : PriceTicks → M (List Cross)
uncross price b = uncross_loop (suc (length b.orders)) price [] b
