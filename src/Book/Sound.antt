-- ===== src/Book/Sound.antt =====
-- The consistency of a book: what `orders` holds determines the levels and their totals.
pub mod Places
pub mod Remove
pub mod Without
pub mod Insert
pub mod Reinsert
use bunting.Prelude.{
  ℕ, ◌+◌, ◌<◌, ◌^◌, Bool, true, false, ◌&&◌, ◌||◌, Option, none, some, List, [], ◌∷◌, ◌≡◌, refl,
  arith, if◌then◌else◌, Bool-cases, unwrap_or,
}
use bunting.Prelude.Int.{ℤ, pos, ◌<ℤ◌, ◌≤ℤ◌, ◌+ℤ◌, eqb_ℤ, eqb_ℤ_iff, fits, i64}
use bunting.Prelude.Ord.{nat_ord, int_ord}
use bunting.Prelude.Map.{Map, is_empty, get, IsSorted}
use bunting.Prelude.Map.Sums.{sum_of}
use bunting.Market.{PriceTicks, QuantityLots, Side, buy, sell, same_side}
use bunting.Book.{BookOrder, Level, Book, side, order}

-- The part of an order that counts at one price of one side.
abbrev pub resting : Side → PriceTicks → (BookOrder → QuantityLots) → ℕ → BookOrder → QuantityLots
resting s price f id o = if same_side s o.side && eqb_ℤ price o.price then f o else pos 0

-- What rests at one price of one side, by the orders alone.
unfoldable pub amount :
    Side → PriceTicks → (BookOrder → QuantityLots) → Map ℕ BookOrder → QuantityLots
amount s price f m = sum_of (resting s price f) m

pub record LevelOk (m : Map ℕ BookOrder) (s : Side) (price : PriceTicks) (level : Level)
    : Type 0 where
  pub queue_sorted : IsSorted level.queue
  pub occupied : is_empty level.queue ≡ false
  pub queued :
      (priority id : ℕ)
      → get priority level.queue ≡ some id
      → (o : BookOrder) × (get id m ≡ some o)
        × (o.side ≡ s)
        × (o.price ≡ price)
        × (o.priority ≡ priority)
  pub visible_sum : level.visible ≡ amount s price (λ o. o.visible) m
  pub total_sum : level.total ≡ amount s price (λ o. o.remaining) m
  pub visible_fits : fits i64 level.visible ≡ true
  pub total_fits : fits i64 level.total ≡ true

pub record OrderOk (b : Book) (id : ℕ) (o : BookOrder) : Type 0 where
  pub same_id : o.order_id ≡ id
  pub shown : pos 0 <ℤ o.visible
  pub within : o.visible ≤ℤ o.remaining
  pub priced : pos 0 <ℤ o.price
  pub peaked : pos 0 <ℤ unwrap_or o.display (pos 1)
  pub past : o.priority < b.next_priority
  pub level : Level
  pub at_level : get o.price (side b o.side) ≡ some level
  pub in_queue : get o.priority level.queue ≡ some id

pub record IsSound (b : Book) : Type 0 where
  pub sides_sorted : (s : Side) → IsSorted (side b s)
  pub orders_sorted : IsSorted b.orders
  pub levels :
      (s : Side) (price : PriceTicks) (level : Level)
      → get price (side b s) ≡ some level
      → LevelOk b.orders s price level
  pub listed : (id : ℕ) (o : BookOrder) → get id b.orders ≡ some o → OrderOk b id o

pub same_side_iff : (s t : Side) → same_side s t ≡ true → s ≡ t
same_side_iff buy buy h = refl
same_side_iff sell sell h = refl
same_side_iff buy sell h = cc
same_side_iff sell buy h = cc

pub same_side_self : (s : Side) → same_side s s ≡ true
same_side_self buy = refl
same_side_self sell = refl

-- A place in the book is a side and a price, and two places are equal or not.
abbrev pub here : Side → PriceTicks → BookOrder → Bool
here s price o = same_side s o.side && eqb_ℤ price o.price

pub here_eq :
    (s : Side) (price : PriceTicks) (o : BookOrder)
    → here s price o ≡ true
    → (s ≡ o.side) × (price ≡ o.price)
here_eq s price o h =
    (same_side_iff s o.side (ground arith), (eqb_ℤ_iff price o.price).0 (ground arith))

pub here_self : (o : BookOrder) → here o.side o.price o ≡ true
here_self o = ground (arith, same_side_self o.side)
