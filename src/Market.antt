-- ===== src/Market.antt =====
-- packages/market-types/src/lib.rs and packages/market-events/src/lib.rs: fixed-point quantities,
-- checked constructors, sides, order kinds and rejection codes. A newtype over an integer is that
-- integer; `checked_add` and its like are those of Prelude/Int.
use bunting.Prelude.{
  ℕ, Bool, true, false, ◌||◌, Option, none, some, Result, ok, err, if◌then◌else◌, ◌==◌,
}
use bunting.Prelude.Int.{ℤ, pos, ltb_ℤ, leb_ℤ, i128, checked_mul}

pub data NumericError : Type 0 where
  non_positive_quantity invalid_price_bounds price_out_of_bounds overflow : NumericError

pub data IdentifierError : Type 0 where
  zero_identifier : IdentifierError

abbrev pub PriceTicks : Type 0
PriceTicks = ℤ

abbrev pub QuantityLots : Type 0
QuantityLots = ℤ

abbrev pub MoneyMinor : Type 0
MoneyMinor = ℤ

-- The identifiers are 128-bit numbers, zero being refused at an external boundary.
unfoldable pub try_new : ℕ → Result IdentifierError ℕ
try_new value = if value == 0 then err zero_identifier else ok value

pub record PriceBounds : Type 0 where
  pub low : PriceTicks
  pub high : PriceTicks

unfoldable pub price_bounds : PriceTicks → PriceTicks → Result NumericError PriceBounds
price_bounds low high =
    if leb_ℤ low (pos 0) || ltb_ℤ high low
    then err invalid_price_bounds
    else ok (record { low = low; high = high })

unfoldable pub validate : PriceBounds → PriceTicks → Result NumericError (Unit {0})
validate bounds price =
    if ltb_ℤ price bounds.low || ltb_ℤ bounds.high price then err price_out_of_bounds else ok tt

unfoldable pub positive : ℤ → Result NumericError QuantityLots
positive value = if leb_ℤ value (pos 0) then err non_positive_quantity else ok value

unfoldable pub checked_mul_price_quantity :
    PriceTicks → QuantityLots → Result NumericError MoneyMinor
checked_mul_price_quantity price quantity = elim (checked_mul i128 price quantity) [
  | none ↦ err overflow
  | some value ↦ ok value
]

pub data Side : Type 0 where
  buy sell : Side

unfoldable pub opposite : Side → Side
opposite buy = sell
opposite sell = buy

-- Derived equality.
abbrev pub same_side : Side → Side → Bool
same_side buy buy = true
same_side sell sell = true
same_side _ _ = false

pub data TimeInForcePolicy : Type 0 where
  gtc ioc fok day : TimeInForcePolicy
  gtd : ℕ → TimeInForcePolicy

pub data OrderKind : Type 0 where
  limit : PriceTicks → OrderKind
  market : OrderKind
  limit_with_policy : PriceTicks → TimeInForcePolicy → Bool → Option QuantityLots → OrderKind

unfoldable pub limit_price : OrderKind → Option PriceTicks
limit_price (limit price) = some price
limit_price market = none
limit_price (limit_with_policy price tif post_only display) = some price

unfoldable pub is_market : OrderKind → Bool
is_market market = true
is_market (limit price) = false
is_market (limit_with_policy price tif post_only display) = false

pub record SubmitOrder : Type 0 where
  pub order_id : ℕ
  pub instrument_id : ℕ
  pub participant_id : ℕ
  pub side : Side
  pub quantity : QuantityLots
  pub kind : OrderKind
  pub anonymous : Bool

pub data RejectCode : Type 0 where
  duplicate_order_id invalid_order_id unknown_order not_order_owner kill_switch_active : RejectCode
  run_not_active listing_halted participant_disabled invalid_quantity : RejectCode
  invalid_instrument price_out_of_bounds max_order_quantity : RejectCode
  max_open_order_quantity max_live_orders position_limit insufficient_cash : RejectCode
  insufficient_inventory insufficient_liquidity post_only_would_cross : RejectCode
  invalid_time_in_force market_closed call_phase_order_type logical_time_regression : RejectCode
  sequence_conflict arithmetic_overflow price_not_on_tick : RejectCode
