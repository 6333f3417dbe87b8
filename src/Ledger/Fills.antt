-- ===== src/Ledger/Fills.antt =====
-- packages/ledger/src/lib.rs: settlement of fills with average-cost realization.
pub mod Basis
pub mod Flat
use bunting.Prelude.{
  unwrap_or, ℕ, ◌+◌, Bool, true, false, ◌||◌, ◌&&◌, not, Option, none, some, List, [], ◌∷◌, ◌≡◌,
  if◌then◌else◌, ltb, leb, ◌==◌, Result, ok, err, ◌>>=◌, ◌>>◌, reject_if, min,
}
use bunting.Prelude.Int.{
  ℤ, pos, neg, tdiv, magnitude, leb_ℤ, ltb_ℤ, i128, i64, checked, checked_add, checked_sub,
  checked_mul, ◌*ℤ◌,
}
use bunting.Prelude.Ord.{nat_ord, pair_ord}
use bunting.Prelude.Map.{Map, get}
use bunting.Prelude.Map
use bunting.Market.{PriceTicks, QuantityLots, MoneyMinor, Side, buy, sell}
use bunting.Ledger.{
  LedgerError, invalid_posting, invalid_release, insufficient_cash, insufficient_inventory, Ledger,
  CashBalance, Position, Reservation, InstrumentTerms, FillParty, Fill, available_cash,
  available_lots, overflow, negate, notional, per_lot_total, terms_of, cash_of, position_of,
}
use bunting.Ledger.Orders.{insufficient}

-- The lots of `old_qty` that `change` closes.
unfoldable pub closed_lots : ℤ → ℤ → ℕ
closed_lots old_qty change =
    if (ltb_ℤ (pos 0) old_qty && ltb_ℤ change (pos 0))
      || (ltb_ℤ old_qty (pos 0) && ltb_ℤ (pos 0) change)
    then (if leb (magnitude old_qty) (magnitude change)
        then magnitude old_qty
        else magnitude change)
    else 0

unfoldable pub closed_change : ℤ → ℕ → ℤ
closed_change old_qty closed = if ltb_ℤ (pos 0) old_qty then neg (pos closed) else pos closed

-- The share of the basis that goes with the closed lots.
unfoldable pub removed_share : ℤ → ℤ → ℕ → Result LedgerError MoneyMinor
removed_share old_basis old_qty closed = if closed == 0 then ok (pos 0) else (do
  product ← overflow (checked_mul i128 old_basis (pos closed))
  ok (tdiv product (magnitude old_qty)))

-- The profit of the closed lots, which trade at `unit` a lot.
unfoldable pub realized_gain : ℤ → ℤ → MoneyMinor → Result LedgerError MoneyMinor
realized_gain closed_delta unit removed_basis = do
  closed_value ← overflow (checked_mul i128 closed_delta unit)
  flow ← overflow (checked i128 (neg closed_value))
  overflow (checked_sub i128 flow removed_basis)

-- The basis of the lots kept and of those opened at `unit` a lot.
unfoldable pub next_basis : MoneyMinor → MoneyMinor → ℤ → ℤ → ℤ → Result LedgerError MoneyMinor
next_basis old_basis removed_basis change closed_delta unit = do
  opened_delta ← overflow (checked_sub i128 change closed_delta)
  opened_basis ← overflow (checked_mul i128 opened_delta unit)
  kept_basis ← overflow (checked_sub i128 old_basis removed_basis)
  overflow (checked_add i128 kept_basis opened_basis)

unfoldable pub apply_fill : Position → QuantityLots → PriceTicks → ℤ → Result LedgerError Position
unfolding closed_lots closed_change removed_share realized_gain next_basis
apply_fill position delta price multiplier = do
  next_qty ← overflow (checked_add i64 position.quantity delta)
  let closed = closed_lots position.quantity delta
  let closed_delta = closed_change position.quantity closed
  unit ← overflow (checked_mul i128 price multiplier)
  removed_basis ← removed_share position.cost_basis position.quantity closed
  realized ← realized_gain closed_delta unit removed_basis
  new_basis ← next_basis position.cost_basis removed_basis delta closed_delta unit
  realized_pnl ← overflow (checked_add i128 position.realized_pnl realized)
  ok (record position { quantity = next_qty; cost_basis = new_basis; realized_pnl = realized_pnl })

-- Releases the filled part of an order's reservation.
unfoldable pub release_held :
    Side
    → QuantityLots
    → Option Reservation
    → Position
    → CashBalance
    → Result LedgerError (Position × CashBalance)
unfolding per_lot_total
release_held side quantity none position balance = ok (position, balance)
release_held buy quantity (some order) position balance = do
  open_buy ← overflow (checked_sub i64 position.open_buy quantity)
  amount ← per_lot_total order.cash_per_lot quantity
  reserved ← overflow (checked_sub i128 balance.reserved amount)
  reject_if
      (ltb_ℤ open_buy (pos 0)
        || ltb_ℤ position.open_sell (pos 0)
        || ltb_ℤ position.reserved (pos 0)
        || ltb_ℤ reserved (pos 0))
      invalid_release
  ok (record position { open_buy = open_buy }, record balance { reserved = reserved })
release_held sell quantity (some order) position balance = do
  open_sell ← overflow (checked_sub i64 position.open_sell quantity)
  reserved ← overflow (
      if order.inventory
      then checked_sub i64 position.reserved quantity
      else some position.reserved)
  reject_if
      (ltb_ℤ position.open_buy (pos 0)
        || ltb_ℤ open_sell (pos 0)
        || ltb_ℤ reserved (pos 0)
        || ltb_ℤ balance.reserved (pos 0))
      invalid_release
  ok (record position { open_sell = open_sell; reserved = reserved }, balance)

-- The cash flow and the signed lots of one side of a fill.
unfoldable pub flow_of :
    Side → MoneyMinor → QuantityLots → Result LedgerError (MoneyMinor × QuantityLots)
unfolding negate
flow_of buy value quantity = do flow ← negate value; ok (flow, quantity)
flow_of sell value quantity = do
  delta ← overflow (checked_sub i64 (pos 0) quantity)
  ok (value, delta)

-- One party's balance and position after its side of the fill.
unfoldable pub settle_party :
    InstrumentTerms
    → Fill
    → MoneyMinor
    → Side
    → FillParty
    → Position
    → CashBalance
    → Result LedgerError (Position × CashBalance)
unfolding release_held flow_of apply_fill insufficient
settle_party terms fill value side party position balance = do
  released ← release_held side fill.quantity party.held position balance
  moved ← flow_of side value fill.quantity
  gross ← overflow (checked_add i128 released.1.balance moved.0)
  net ← overflow (checked_sub i128 gross party.fee)
  fees ← overflow (checked_add i128 released.1.fees party.fee)
  filled ← apply_fill released.0 moved.1 fill.price terms.multiplier
  traded ← overflow (checked_add i64 filled.traded fill.quantity)
  let balance = record released.1 { balance = net; fees = fees }
  let position = record filled { traded = traded }
  insufficient (is_buy side && party.enforce_funding) (available_cash balance) insufficient_cash
  insufficient (not (is_buy side) && not terms.shortable) (available_lots position)
      insufficient_inventory
  ok (position, balance)
  where
    is_buy : Side → Bool
    is_buy buy = true
    is_buy sell = false

-- The balances and positions the loop of `settle` has staged.
abbrev pub Staged : Type 0
Staged = Map ℕ Position × Map ℕ CashBalance

unfoldable pub stage_party :
    Ledger
    → InstrumentTerms
    → Fill
    → MoneyMinor
    → Side
    → Option FillParty
    → Staged
    → Result LedgerError Staged
unfolding settle_party
stage_party l terms fill value side none staged = ok staged
stage_party l terms fill value side (some party) staged = do
  settled ←
      settle_party terms fill value side party
        (unwrap_or (get party.participant staged.0)
          (position_of l party.participant fill.instrument))
        (unwrap_or (get party.participant staged.1) (cash_of l party.participant terms.currency))
  ok (
    Map.insert party.participant settled.0 staged.0,
    Map.insert party.participant settled.1 staged.1,
  )

-- Writes staged entries under a fixed second key.
unfoldable pub write_all {ℓ} : {A : Type ℓ} → ℕ → Map ℕ A → Map (ℕ × ℕ) A → Map (ℕ × ℕ) A
write_all second [] m = m
write_all second ((participant, a) ∷ staged) m =
    write_all second staged (Map.insert (participant, second) a m)

unfoldable pub settle : Fill → Ledger → Result LedgerError Ledger
unfolding terms_of notional stage_party write_all
settle fill l = do
  terms ← terms_of l fill.instrument
  reject_if (leb_ℤ fill.quantity (pos 0) || leb_ℤ fill.price (pos 0)) invalid_posting
  value ← notional fill.price fill.quantity terms.multiplier
  bought ← stage_party l terms fill value buy fill.buyer ([], [])
  sold ← stage_party l terms fill value sell fill.seller bought
  ok (record l {
    cash = write_all terms.currency sold.1 l.cash;
    positions = write_all fill.instrument sold.0 l.positions;
    marks = if fill.set_mark then Map.insert fill.instrument fill.price l.marks else l.marks;
  })
