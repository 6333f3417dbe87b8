-- ===== src/Engine/Clock.antt =====
-- What the run clock brings (packages/bunting-engine/src/lib.rs): expiries, session boundaries, call
-- auctions and the end of the day.
use bunting.Prelude.{
  ℕ, suc, zero, Bool, true, false, ◌&&◌, ◌||◌, not, Option, none, some, List, [], ◌∷◌,
  if◌then◌else◌, ltb, ◌==◌, ok, err, length, unwrap_or,
}
use bunting.Prelude.Int.{pos, ltb_ℤ}
use bunting.Prelude.Ord.{nat_ord, pair_ord}
use bunting.Prelude.Map.{Map, get, first}
use bunting.Market.{PriceTicks, QuantityLots, MoneyMinor}
use bunting.Book.{Cross}
use bunting.Book.Orders.{uncross}
use bunting.Book.Auction.{auction_price}
use bunting.Ledger.{mark_of}
use bunting.Calendar.{SessionPhase, closed, continuous, pre_open, closing_call}
use bunting.Engine.{
  Simulation, E, ◌>>=◌, ◌>>◌, ask, done, need, emit, touch, with_book, unknown_listing,
  ownership_invariant, diverged, u32_limit, ListingKey, OwnedOrder, is_active, expired,
  auction_uncrossed,
}
use bunting.Engine.Orders.{settle_fill, cancel}

abbrev pub is_closed : SessionPhase → Bool
is_closed closed = true
is_closed pre_open = false
is_closed continuous = false
is_closed closing_call = false

-- The phases that a call auction opens or ends.
abbrev pub after_auction : SessionPhase → Bool
after_auction closed = true
after_auction continuous = true
after_auction pre_open = false
after_auction closing_call = false

-- The order that rested first is the maker.
abbrev pub maker_of : Cross → ℕ × ℕ
maker_of c =
    if ltb c.buy_priority c.sell_priority then (c.buy_id, c.sell_id) else (c.sell_id, c.buy_id)

-- The greater value first, then the lesser identity.
abbrev pub ranks_before : ℕ × MoneyMinor → ℕ × MoneyMinor → Bool
ranks_before (i, x) (j, y) = ltb_ℤ y x || (not (ltb_ℤ x y) && ltb i j)

abbrev pub same_rank : ℕ × MoneyMinor → ℕ × MoneyMinor → Bool
same_rank (i, x) (j, y) = i == j

-- The values with their ranks from `n` on; a rank that is no u32 is an error.
unfoldable pub ranked : ℕ → List (ℕ × MoneyMinor) → Option (List (ℕ × MoneyMinor × ℕ))
ranked n [] = some []
ranked n ((i, x) ∷ rest) =
    let more = ranked (suc n) rest in
    if ltb n u32_limit
    then (elim more [ none ↦ none | some scores ↦ some ((i, x, n) ∷ scores) ])
    else none

unfoldable pub keys_of_venue : ℕ → List ListingKey → List ListingKey
keys_of_venue venue [] = []
keys_of_venue venue (key ∷ rest) =
    let more = keys_of_venue venue rest in if key.0 == venue then key ∷ more else more

unfoldable pub day_orders : ℕ → Map ℕ OwnedOrder → List ℕ
day_orders venue [] = []
day_orders venue ((id, owned) ∷ rest) =
    let more = day_orders venue rest in
    if owned.day && is_active owned.state && (owned.listing_key.0 == venue)
    then owned.order_id ∷ more
    else more

abbrev pub first_price : Option PriceTicks → Option PriceTicks → Option PriceTicks
first_price none p = p
first_price (some price) p = some price

module _ {sim : Simulation} where
  -- The loop of `expire_due`. An entry whose order is not live makes `cancel` fail, so that each
  -- round takes an entry or is the last but one.
  unfoldable pub expire_loop : ℕ → ℕ → E sim (Unit {0})
  unfolding cancel
  expire_loop zero now w = err diverged
  expire_loop (suc fuel) now w = elim (first w.run.expiries) [
    | none ↦ ok (tt, w)
    | some ((at, order_id), _) ↦
        if ltb now at then ok (tt, w) else (elim (get order_id w.run.ownership) [
          | none ↦ err ownership_invariant
          | some owned ↦ elim (touch owned.listing_key w) [
            | err e ↦ err e
            | ok x ↦ elim (cancel order_id expired x.1) [
              | err e ↦ err e
              | ok y ↦ expire_loop fuel now y.1
            ]
          ]
        ])
  ]

  unfoldable pub expire_due : ℕ → E sim (Unit {0})
  unfolding expire_loop
  expire_due now w = expire_loop (suc (suc (length w.run.expiries))) now w

  unfoldable pub settle_crosses : ListingKey → PriceTicks → List Cross → E sim (Unit {0})
  unfolding settle_fill
  settle_crosses key price [] = done tt
  settle_crosses key price (c ∷ crosses) = do
    settle_fill key (maker_of c).0 (maker_of c).1 price c.quantity true
    settle_crosses key price crosses

  -- The cross at the auction's price, if it has one.
  unfoldable pub cross_at : ListingKey → Option (PriceTicks × QuantityLots) → E sim (Unit {0})
  unfolding settle_crosses
  cross_at key none = done tt
  cross_at key (some (price, quantity)) = do
    crosses ← with_book key (uncross price)
    settle_crosses key price crosses
    emit (auction_uncrossed key price quantity)

  unfoldable pub auction : ListingKey → E sim (Unit {0})
  unfolding cross_at
  auction key = do
    run ← ask
    listing ← need (get key run.listings) unknown_listing
    cross_at key (auction_price listing.book (unwrap_or (mark_of run.ledger key.1) (pos 1)))

  unfoldable pub auction_all : List ListingKey → E sim (Unit {0})
  unfolding auction
  auction_all [] = done tt
  auction_all (key ∷ rest) = do touch key; auction key; auction_all rest

  unfoldable pub expire_each : List ℕ → E sim (Unit {0})
  unfolding cancel
  expire_each [] = done tt
  expire_each (order_id ∷ rest) = do cancel order_id expired; expire_each rest
