-- ===== src/Book/Execute.antt =====
-- What `execute` promises, over the orders and the priority counter alone: a sequence of fills in
-- price-time priority, each at the maker's price, until nothing more can trade.
pub mod Fill
pub mod Refine
use bunting.Prelude.{
  ℕ, ◌+◌, Bool, true, false, none, some, Option, List, [], ◌∷◌, ◌≡◌, if◌then◌else◌, ◌⊎◌, unwrap_or,
}
use bunting.Prelude.Int.{ℤ, pos, ◌-ℤ◌, ◌≤ℤ◌, ltb_ℤ, eqb_ℤ, min_ℤ}
use bunting.Prelude.Ord.{nat_ord}
use bunting.Prelude.Map.{Map, get}
use bunting.Prelude.Map
use bunting.Market.{PriceTicks, QuantityLots, Side, opposite}
use bunting.Book.{BookOrder, Match}
use bunting.Book.Orders.{beyond}
use bunting.Book.Priority.{FirstInLine}

-- The maker after a fill of `q`: a used-up displayed slice is refreshed at the back of its level.
unfoldable pub refreshed : BookOrder → QuantityLots → ℕ → BookOrder
refreshed o q n =
    let left = o.remaining -ℤ q in
    let shown = o.visible -ℤ q in
    if eqb_ℤ shown (pos 0)
    then record o {
      remaining = left;
      visible = min_ℤ (unwrap_or o.display left) left;
      priority = n;
    }
    else record o { remaining = left; visible = shown }

-- The orders after the fill: the maker goes if nothing of it remains.
unfoldable pub orders_after : ℕ → BookOrder → QuantityLots → Map ℕ BookOrder → ℕ → Map ℕ BookOrder
unfolding refreshed
orders_after id o q m n =
    if ltb_ℤ (pos 0) (o.remaining -ℤ q)
    then Map.insert id (refreshed o q n) (Map.remove id m)
    else Map.remove id m

-- The counter moves for a refreshed slice only.
unfoldable pub counter_after : BookOrder → QuantityLots → ℕ → ℕ
counter_after o q n =
    if ltb_ℤ (pos 0) (o.remaining -ℤ q)
    then if eqb_ℤ (o.visible -ℤ q) (pos 0) then n + 1 else n
    else n

-- One fill of an aggressor with `q` lots left.
pub record Filled (m : Map ℕ BookOrder) (n : ℕ) (s : Side) (q : QuantityLots) (k : Match)
    (m' : Map ℕ BookOrder) (n' : ℕ) (q' : QuantityLots) : Type 0 where
  pub maker : BookOrder
  pub first : FirstInLine m s k.maker maker
  pub maker_price : k.price ≡ maker.price
  pub fill : k.quantity ≡ min_ℤ q maker.visible
  pub unfilled : k.maker_remaining ≡ maker.remaining -ℤ k.quantity
  pub left : q' ≡ q -ℤ k.quantity
  pub orders : m' ≡ orders_after k.maker maker k.quantity m n
  pub counter : n' ≡ counter_after maker k.quantity n

-- Nothing is left to fill, or no order of the other side is within the limit.
abbrev pub Exhausted : Side → Option PriceTicks → Map ℕ BookOrder → QuantityLots → Type 0
Exhausted taker limit m q =
    (q ≤ℤ pos 0)
    ⊎ ((id : ℕ) (o : BookOrder)
        → get id m ≡ some o
        → o.side ≡ opposite taker
        → beyond taker limit o.price ≡ true)

-- The fills, in order, lead from the first orders, counter and quantity to the last.
abbrev pub Trades :
    Side
    → Option PriceTicks
    → List Match
    → Map ℕ BookOrder
    → ℕ
    → QuantityLots
    → Map ℕ BookOrder
    → ℕ
    → QuantityLots
    → Type 0
Trades taker limit [] m n q m' n' q' = (m' ≡ m) × (n' ≡ n) × (q' ≡ q) × Exhausted taker limit m q
Trades taker limit (k ∷ ks) m n q m' n' q' =
    (m₁ : Map ℕ BookOrder) × (n₁ : ℕ) × (q₁ : QuantityLots) × Filled m n (opposite taker) q k m₁ n₁
      q₁
    × (beyond taker limit k.price ≡ false)
    × Trades taker limit ks m₁ n₁ q₁ m' n' q'
