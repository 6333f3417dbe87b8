-- ===== src/Risk.antt =====
-- packages/risk-engine/src/lib.rs: pre-trade admission over the ledger.
pub mod Admitted
use bunting.Prelude.{
  ℕ, Bool, true, false, ◌&&◌, not, Option, none, some, ◌≡◌, if◌then◌else◌, ltb, leb, ◌==◌, Result,
  ok, err, ◌>>=◌, ◌>>◌, reject_if, ok_or,
}
use bunting.Prelude.Int.{
  ℤ, pos, magnitude, tdiv, ltb_ℤ, leb_ℤ, eqb_ℤ, i64, i128, checked_add, checked_sub, checked_mul,
  ◌*ℤ◌, ◌-ℤ◌,
}
use bunting.Market.{
  PriceTicks, QuantityLots, MoneyMinor, PriceBounds, Side, buy, sell, OrderKind, limit, market,
  limit_with_policy, SubmitOrder, RejectCode, validate, NumericError,
}
use bunting.Market
use bunting.Ledger.{
  LedgerError, Ledger, InstrumentTerms, Position, Reservation, no_reservation, available_cash,
  available_lots, terms_of, cash_of, position_of, cash_per_lot,
}

pub record RiskLimits : Type 0 where
  pub max_order_quantity : QuantityLots
  pub max_open_order_quantity : QuantityLots
  pub max_absolute_position : QuantityLots
  pub cash_constrained : Bool
  pub max_live_orders : ℕ

abbrev pub u32_max : ℕ
u32_max = 4294967295

abbrev pub new : QuantityLots → QuantityLots → QuantityLots → RiskLimits
new max_order max_open max_position = record {
  max_order_quantity = max_order;
  max_open_order_quantity = max_open;
  max_absolute_position = max_position;
  cash_constrained = true;
  max_live_orders = u32_max;
}

unfoldable pub admit_live_order_count : RiskLimits → ℕ → Result RejectCode (Unit {0})
admit_live_order_count limits live_orders =
    if leb limits.max_live_orders live_orders then err Market.max_live_orders else ok tt

pub record ListingTerms : Type 0 where
  pub price_bounds : PriceBounds
  pub fee_bound : MoneyMinor
  pub tick_size : ℤ

pub record Admission : Type 0 where
  pub reservation_price : PriceTicks
  pub reservation : Reservation

-- `map_err`: the failure is replaced.
abbrev pub or_reject {ℓ} : {E : Type 0} {A : Type ℓ} → Result E A → RejectCode → Result RejectCode A
or_reject (ok a) code = ok a
or_reject (err e) code = err code

-- `price % tick_size != 0`, for a tick size above one.
abbrev pub off_tick : PriceTicks → ℤ → Bool
off_tick price tick_size =
    ltb_ℤ (pos 1) tick_size
    && not (eqb_ℤ (price -ℤ tdiv price (magnitude tick_size) *ℤ tick_size) (pos 0))

unfoldable pub limit_checked : ListingTerms → PriceTicks → Result RejectCode PriceTicks
limit_checked listing price = do
  or_reject (validate listing.price_bounds price) Market.price_out_of_bounds
  reject_if (off_tick price listing.tick_size) Market.price_not_on_tick
  ok price

unfoldable pub price_of :
    ListingTerms → OrderKind → Option PriceTicks → Result RejectCode PriceTicks
unfolding limit_checked
price_of listing (limit price) market_price = limit_checked listing price
price_of listing (limit_with_policy price tif post_only display) market_price =
    limit_checked listing price
price_of listing market market_price = ok_or market_price Market.insufficient_liquidity

abbrev pub add3 : ℤ → ℤ → ℤ → Option ℤ
add3 a b c = elim (checked_add i64 a b) [ none ↦ none | some d ↦ checked_add i64 d c ]

abbrev pub sub3 : ℤ → ℤ → ℤ → Option ℤ
sub3 a b c = elim (checked_sub i64 a b) [ none ↦ none | some d ↦ checked_sub i64 d c ]

abbrev pub worst_case : Side → Position → QuantityLots → Option QuantityLots
worst_case buy position quantity = add3 position.quantity position.open_buy quantity
worst_case sell position quantity = sub3 position.quantity position.open_sell quantity

-- The `match` that computes the reservation.
unfoldable pub reservation_for :
    RiskLimits
    → SubmitOrder
    → ListingTerms
    → Ledger
    → InstrumentTerms
    → Position
    → PriceTicks
    → Side
    → Result RejectCode Reservation
reservation_for limits order listing ledger terms position price buy =
    if limits.cash_constrained
    then (do
      per_lot ←
          or_reject (cash_per_lot ledger order.instrument_id price listing.fee_bound)
            Market.arithmetic_overflow
      required ← ok_or (checked_mul i128 per_lot order.quantity) Market.arithmetic_overflow
      available ←
          ok_or (available_cash (cash_of ledger order.participant_id terms.currency))
            Market.arithmetic_overflow
      reject_if (ltb_ℤ available required) Market.insufficient_cash
      ok (record { cash_per_lot = per_lot; inventory = false }))
    else ok no_reservation
reservation_for limits order listing ledger terms position price sell =
    if terms.shortable then ok no_reservation else (do
      available ← ok_or (available_lots position) Market.arithmetic_overflow
      reject_if (ltb_ℤ available order.quantity) Market.insufficient_inventory
      ok (record { cash_per_lot = pos 0; inventory = true }))

unfoldable pub admit :
    RiskLimits
    → Bool
    → SubmitOrder
    → ListingTerms
    → Ledger
    → Option PriceTicks
    → Result RejectCode Admission
unfolding price_of reservation_for
admit limits enabled order listing ledger market_price = do
  reject_if (not enabled) Market.participant_disabled
  reject_if (leb_ℤ order.quantity (pos 0)) Market.invalid_quantity
  terms ← or_reject (terms_of ledger order.instrument_id) Market.invalid_instrument
  price ← price_of listing order.kind market_price
  reject_if (ltb_ℤ limits.max_order_quantity order.quantity) Market.max_order_quantity
  let position = position_of ledger order.participant_id order.instrument_id
  total ←
      ok_or (add3 position.open_buy position.open_sell order.quantity) Market.arithmetic_overflow
  reject_if (ltb_ℤ limits.max_open_order_quantity total) Market.max_open_order_quantity
  worst ← ok_or (worst_case order.side position order.quantity) Market.arithmetic_overflow
  reject_if (ltb (magnitude limits.max_absolute_position) (magnitude worst)) Market.position_limit
  reservation ← reservation_for limits order listing ledger terms position price order.side
  ok (record { reservation_price = price; reservation = reservation })
