-- ===== src/Book/Views.antt =====
-- The read-only views of packages/bunting-engine/src/book.rs: executable quantity, depth and the
-- orders in matching priority.
use bunting.Prelude.{ℕ, Option, none, some, List, [], ◌∷◌, ◌++◌, if◌then◌else◌, map}
use bunting.Prelude.Int.{ℤ, pos, i64, checked_add}
use bunting.Prelude.Ord.{nat_ord}
use bunting.Prelude.Map.{Map, get}
use bunting.Market.{PriceTicks, QuantityLots, Side, buy, sell}
use bunting.Book.{BookOrder, Level, Book}
use bunting.Book.Orders.{beyond}

abbrev pub backwards {ℓ} : {A : Type ℓ} → List A → List A
backwards [] = []
backwards (a ∷ rest) = backwards rest ++ a ∷ []

-- The levels of a side, best first.
abbrev pub best_first : Book → Side → Map PriceTicks Level
best_first b buy = backwards b.bids
best_first b sell = b.asks

abbrev pub against : Book → Side → Map PriceTicks Level
against b buy = b.asks
against b sell = backwards b.bids

abbrev pub i64_max : ℤ
i64_max = pos 9223372036854775807

-- `total.checked_add(q).unwrap_or(MAX)`.
abbrev pub saturated : Option ℤ → ℤ
saturated none = i64_max
saturated (some total) = total

unfoldable pub add_levels :
    Side → Option PriceTicks → Map PriceTicks Level → QuantityLots → QuantityLots
add_levels taker limit [] total = total
add_levels taker limit ((price, level) ∷ rest) total =
    let next = add_levels taker limit rest (saturated (checked_add i64 total level.total)) in
    if beyond taker limit price then total else next

unfoldable pub executable : Book → Side → Option PriceTicks → QuantityLots
unfolding add_levels
executable b taker limit = add_levels taker limit (against b taker) (pos 0)

unfoldable pub depth : Book → Side → List (PriceTicks × QuantityLots)
depth b side = map (λ e. (e.0, (e.1).visible)) (best_first b side)

-- The orders of a queue that the book still has, and of all queues in turn.
unfoldable pub queued_orders : Map ℕ BookOrder → Map ℕ ℕ → List BookOrder
queued_orders orders [] = []
queued_orders orders ((priority, id) ∷ queue) =
    let rest = queued_orders orders queue in
    elim (get id orders) [ none ↦ rest | some o ↦ o ∷ rest ]

unfoldable pub level_orders : Map ℕ BookOrder → Map PriceTicks Level → List BookOrder
unfolding queued_orders
level_orders orders [] = []
level_orders orders ((price, level) ∷ rest) =
    queued_orders orders level.queue ++ level_orders orders rest

unfoldable pub orders : Book → Side → List BookOrder
unfolding level_orders
orders b side = level_orders b.orders (best_first b side)
