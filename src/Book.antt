-- ===== src/Book.antt =====
-- packages/bunting-engine/src/book.rs: the price-time order book of one listing. An operation takes
-- the book and returns it with its result, also where it fails: what a failing call has changed by
-- then stays changed, as behind Rust's `&mut self`.
pub mod Orders
pub mod Sound
pub mod Priority
pub mod Execute
pub mod Resting
pub mod Uncross
pub mod Auction
pub mod Views
pub mod Record
use bunting.Prelude.{
  ℕ, suc, ◌+◌, ◌<◌, ◌^◌, Bool, true, false, ◌||◌, Option, none, some, List, [], ◌∷◌, ◌≡◌, length,
  if◌then◌else◌, ltb, map, ◌⊎◌, inl, inr,
}
use bunting.Prelude.Int.{ℤ, pos, ltb_ℤ, leb_ℤ, i64, checked_add, checked_sub}
use bunting.Prelude.Ord.{nat_ord, int_ord}
use bunting.Prelude.Map.{Map, contains_key, is_empty}
use bunting.Prelude.Map
use bunting.Market.{PriceTicks, QuantityLots, Side, buy, sell, opposite}

pub record BookOrder : Type 0 where
  pub order_id : ℕ
  pub side : Side
  pub price : PriceTicks
  pub remaining : QuantityLots
  pub visible : QuantityLots
  pub display : Option QuantityLots
  pub priority : ℕ

pub record Match : Type 0 where
  pub maker : ℕ
  pub price : PriceTicks
  pub quantity : QuantityLots
  pub maker_remaining : QuantityLots

pub record Cross : Type 0 where
  pub buy_id : ℕ
  pub sell_id : ℕ
  pub quantity : QuantityLots
  pub buy_remaining : QuantityLots
  pub sell_remaining : QuantityLots
  pub buy_priority : ℕ
  pub sell_priority : ℕ

pub data BookError : Type 0 where
  duplicate_order invalid_order overflow : BookError

-- The orders of one price by time priority, with their totals.
pub record Level : Type 0 where
  pub queue : Map ℕ ℕ
  pub visible : QuantityLots
  pub total : QuantityLots

pub record Book : Type 0 where
  pub bids : Map PriceTicks Level
  pub asks : Map PriceTicks Level
  pub orders : Map ℕ BookOrder
  pub next_priority : ℕ

abbrev pub empty_level : Level
empty_level = record { queue = []; visible = pos 0; total = pos 0 }

abbrev pub new : Book
new = record { bids = []; asks = []; orders = []; next_priority = 0 }

-- The result of an operation and the book behind it. `diverge` is a loop's bound running out, which
-- the loops below are proved never to do.
pub data Outcome (A : Type 0) : Type 0 where
  done : A → Book → Outcome A
  fail : BookError → Book → Outcome A
  diverge : Outcome A

abbrev pub M : Type 0 → Type 0
M A = Book → Outcome A

infixl 5 ◌>>=◌ ◌>>◌
abbrev pub ◌>>=◌ : {A B : Type 0} → M A → (A → M B) → M B
◌>>=◌ m f b = elim (m b) [ done a b' ↦ f a b' | fail e b' ↦ fail e b' | diverge ↦ diverge ]

abbrev pub ◌>>◌ : {B : Type 0} → M (Unit {0}) → M B → M B
m >> k = m >>= λ _. k

-- `ok_or(e)?`.
abbrev pub lift : {A : Type 0} → Option A → BookError → M A
lift none e b = fail e b
lift (some a) e b = done a b

abbrev pub fail_if : Bool → BookError → M (Unit {0})
fail_if true e b = fail e b
fail_if false e b = done tt b

unfoldable pub crosses : Side → PriceTicks → PriceTicks → Bool
crosses buy limit resting = leb_ℤ resting limit
crosses sell limit resting = leb_ℤ limit resting

abbrev pub side : Book → Side → Map PriceTicks Level
side b buy = b.bids
side b sell = b.asks

-- Writing through `side_mut`.
abbrev pub set_side : Book → Side → Map PriceTicks Level → Book
set_side b buy m = record b { bids = m }
set_side b sell m = record b { asks = m }

abbrev pub len : Book → ℕ
len b = length b.orders

abbrev pub contains : Book → ℕ → Bool
contains b order_id = contains_key order_id b.orders

abbrev pub order : Book → ℕ → Option BookOrder
order b order_id = Map.get order_id b.orders

abbrev pub key_of : Option (PriceTicks × Level) → Option PriceTicks
key_of none = none
key_of (some (price, level)) = some price

unfoldable pub best : Book → Side → Option PriceTicks
best b buy = key_of (Map.last b.bids)
best b sell = key_of (Map.first b.asks)

unfoldable pub would_cross : Book → Side → PriceTicks → Bool
unfolding crosses best
would_cross b taker limit = elim (best b (opposite taker)) [
  | none ↦ false
  | some price ↦ crosses taker limit price
]

unfoldable pub take_priority : M ℕ
take_priority b =
    if ltb (b.next_priority + 1) (2 ^ 64)
    then done b.next_priority (record b { next_priority = b.next_priority + 1 })
    else fail overflow b

-- The level's state after its queue has changed, and after each of its totals has.
abbrev pub put_level : Book → Side → PriceTicks → Level → Book
put_level b s price level = set_side b s (Map.insert price level (side b s))

abbrev pub or_default : Option Level → Level
or_default none = empty_level
or_default (some level) = level

abbrev pub is_invalid : BookOrder → Bool
is_invalid o =
    leb_ℤ o.remaining (pos 0)
    || leb_ℤ o.visible (pos 0)
    || ltb_ℤ o.remaining o.visible
    || leb_ℤ o.price (pos 0)

-- The level part of `insert`, from `queue.insert` on.
unfoldable pub add_to_level : BookOrder → Level → M (Unit {0})
add_to_level o level b =
    let queued : Level = record level { queue = Map.insert o.priority o.order_id level.queue } in
    if contains_key o.priority level.queue
    then fail duplicate_order (put_level b o.side o.price queued)
    else elim (checked_add i64 level.visible o.visible) [
      | none ↦ fail overflow (put_level b o.side o.price queued)
      | some visible ↦ elim (checked_add i64 level.total o.remaining) [
        | none ↦ fail overflow (put_level b o.side o.price (record queued { visible = visible }))
        | some total ↦
            let shown =
              put_level b o.side o.price (record queued { visible = visible; total = total }) in
            done tt (record shown { orders = Map.insert o.order_id o b.orders })
      ]
    ]

unfoldable pub insert : BookOrder → M (Unit {0})
insert o b =
    if is_invalid o
    then fail invalid_order b
    else if contains b o.order_id
    then fail duplicate_order b
    else add_to_level o (or_default (Map.get o.price (side b o.side))) b

-- The level part of `remove`, on the book without the order.
unfoldable pub take_from_level : BookOrder → Level → M (Unit {0})
take_from_level o level b =
    let queue = Map.remove o.priority level.queue in
    let queued : Level = record level { queue = queue } in
    elim (checked_sub i64 level.visible o.visible) [
      | none ↦ fail overflow (put_level b o.side o.price queued)
      | some visible ↦ elim (checked_sub i64 level.total o.remaining) [
        | none ↦ fail overflow (put_level b o.side o.price (record queued { visible = visible }))
        | some total ↦
            if is_empty queue
            then done tt (set_side b o.side (Map.remove o.price (side b o.side)))
            else done tt
                (put_level b o.side o.price (record queued { visible = visible; total = total }))
      ]
    ]

unfoldable pub remove_found : ℕ → Option BookOrder → M (Unit {0})
remove_found order_id none b = fail invalid_order b
remove_found order_id (some o) b =
    let without = record b { orders = Map.remove order_id b.orders } in
    elim (Map.get o.price (side b o.side)) [
      | none ↦ fail invalid_order without
      | some level ↦ take_from_level o level without
    ]

unfoldable pub remove : ℕ → M (Unit {0})
remove order_id b = remove_found order_id (order b order_id) b
