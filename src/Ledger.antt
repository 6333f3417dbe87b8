-- ===== src/Ledger.antt =====
-- packages/ledger/src/lib.rs: cash, positions, reservations, fees and marks of one run. Every
-- operation checks before it writes, so one that fails returns its error and no ledger.
pub mod Orders
pub mod Fills
pub mod Settled
pub mod Values
use bunting.Prelude.{
  unwrap_or, ℕ, zero, Bool, true, false, ◌||◌, Option, none, some, List, [], ◌∷◌, ◌≡◌,
  if◌then◌else◌, ◌==◌, Result, ok, err, ◌>>=◌, ◌>>◌, reject_if, ok_or,
}
use bunting.Prelude.Int.{
  ℤ, pos, leb_ℤ, ltb_ℤ, i128, i64, checked_add, checked_sub, checked_mul, neg, checked,
}
use bunting.Prelude.Ord.{nat_ord, pair_ord}
use bunting.Prelude.Map.{Map, get}
use bunting.Prelude.Map
use bunting.Market.{PriceTicks, QuantityLots, MoneyMinor}

pub data LedgerError : Type 0 where
  arithmetic_overflow invalid_release invalid_posting unknown_instrument : LedgerError
  insufficient_cash insufficient_inventory missing_fx_rate : LedgerError

pub record InstrumentTerms : Type 0 where
  pub currency : ℕ
  pub multiplier : ℤ
  pub shortable : Bool

pub record FxRate : Type 0 where
  pub currency : ℕ
  pub instrument_id : ℕ
  pub minor_units_per_lot : ℤ

pub record CashBalance : Type 0 where
  pub balance : MoneyMinor
  pub reserved : MoneyMinor
  pub fees : MoneyMinor

pub record Position : Type 0 where
  pub quantity : QuantityLots
  pub reserved : QuantityLots
  pub open_buy : QuantityLots
  pub open_sell : QuantityLots
  pub cost_basis : MoneyMinor
  pub realized_pnl : MoneyMinor
  pub traded : QuantityLots

pub record Reservation : Type 0 where
  pub cash_per_lot : MoneyMinor
  pub inventory : Bool

abbrev pub no_reservation : Reservation
no_reservation = record { cash_per_lot = pos 0; inventory = false }

pub record FillParty : Type 0 where
  pub participant : ℕ
  pub fee : MoneyMinor
  pub held : Option Reservation
  pub enforce_funding : Bool

pub record Fill : Type 0 where
  pub instrument : ℕ
  pub price : PriceTicks
  pub quantity : QuantityLots
  pub buyer : Option FillParty
  pub seller : Option FillParty
  pub set_mark : Bool

pub record Ledger : Type 0 where
  pub terms : Map ℕ InstrumentTerms
  pub cash : Map (ℕ × ℕ) CashBalance
  pub positions : Map (ℕ × ℕ) Position
  pub marks : Map ℕ PriceTicks

abbrev pub new : Ledger
new = record { terms = []; cash = []; positions = []; marks = [] }

abbrev pub no_cash : CashBalance
no_cash = record { balance = pos 0; reserved = pos 0; fees = pos 0 }

abbrev pub no_position : Position
no_position = record {
  quantity = pos 0;
  reserved = pos 0;
  open_buy = pos 0;
  open_sell = pos 0;
  cost_basis = pos 0;
  realized_pnl = pos 0;
  traded = pos 0;
}

abbrev pub available_cash : CashBalance → Option MoneyMinor
available_cash c = checked_sub i128 c.balance c.reserved

abbrev pub available_lots : Position → Option QuantityLots
available_lots p = checked_sub i64 p.quantity p.reserved

abbrev pub overflow : {A : Type 0} → Option A → Result LedgerError A
overflow o = ok_or o arithmetic_overflow

unfoldable pub negate : MoneyMinor → Result LedgerError MoneyMinor
negate value = overflow (checked i128 (neg value))

unfoldable pub notional : PriceTicks → QuantityLots → ℤ → Result LedgerError MoneyMinor
notional price quantity multiplier = do
  value ← overflow (checked_mul i128 price quantity)
  overflow (checked_mul i128 value multiplier)

unfoldable pub per_lot_total : MoneyMinor → QuantityLots → Result LedgerError MoneyMinor
per_lot_total per_lot quantity = overflow (checked_mul i128 per_lot quantity)

unfoldable pub configure_instrument : ℕ → InstrumentTerms → Ledger → Result LedgerError Ledger
configure_instrument instrument terms l =
    if instrument == 0 || terms.currency == 0 || leb_ℤ terms.multiplier (pos 0)
    then err invalid_posting
    else ok (record l { terms = Map.insert instrument terms l.terms })

unfoldable pub terms_of : Ledger → ℕ → Result LedgerError InstrumentTerms
terms_of l instrument = ok_or (get instrument l.terms) unknown_instrument

abbrev pub cash_of : Ledger → ℕ → ℕ → CashBalance
cash_of l participant currency = unwrap_or (get (participant, currency) l.cash) no_cash

abbrev pub position_of : Ledger → ℕ → ℕ → Position
position_of l participant instrument =
    unwrap_or (get (participant, instrument) l.positions) no_position

abbrev pub mark_of : Ledger → ℕ → Option PriceTicks
mark_of l instrument = get instrument l.marks

unfoldable pub set_mark : ℕ → PriceTicks → Ledger → Result LedgerError Ledger
unfolding terms_of
set_mark instrument mark l = do
  _ ← terms_of l instrument
  reject_if (leb_ℤ mark (pos 0)) invalid_posting
  ok (record l { marks = Map.insert instrument mark l.marks })

unfoldable pub post_cash : ℕ → ℕ → MoneyMinor → Ledger → Result LedgerError Ledger
post_cash participant currency amount l = do
  reject_if (currency == 0) invalid_posting
  let entry = cash_of l participant currency
  balance ← overflow (checked_add i128 entry.balance amount)
  ok (record l {
    cash = Map.insert (participant, currency) (record entry { balance = balance }) l.cash;
  })

unfoldable pub seed_position :
    ℕ → ℕ → QuantityLots → MoneyMinor → Ledger → Result LedgerError Ledger
unfolding terms_of
seed_position participant instrument quantity cost_basis l = do
  _ ← terms_of l instrument
  let entry = position_of l participant instrument
  ok (record l {
    positions =
        Map.insert (participant, instrument)
          (record entry { quantity = quantity; cost_basis = cost_basis }) l.positions;
  })

-- `value.max(0)`.
abbrev pub at_least_zero : ℤ → ℤ
at_least_zero a = if leb_ℤ a (pos 0) then pos 0 else a

unfoldable pub cash_per_lot : Ledger → ℕ → PriceTicks → MoneyMinor → Result LedgerError MoneyMinor
unfolding terms_of notional
cash_per_lot l instrument price fee_per_lot = do
  terms ← terms_of l instrument
  lot ← notional price (pos 1) terms.multiplier
  overflow (checked_add i128 lot (at_least_zero fee_per_lot))
