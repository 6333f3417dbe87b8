-- ===== src/Ledger/Orders.antt =====
-- packages/ledger/src/lib.rs: open orders, which reserve cash or inventory and count open lots.
use bunting.Prelude.{
  ℕ, Bool, true, false, ◌||◌, Option, some, if◌then◌else◌, Result, ok, ◌>>=◌, ◌>>◌, reject_if,
}
use bunting.Prelude.Int.{ℤ, pos, leb_ℤ, ltb_ℤ, i128, i64, checked_add, checked_sub}
use bunting.Prelude.Ord.{nat_ord, pair_ord}
use bunting.Prelude.Map
use bunting.Market.{QuantityLots, Side, buy, sell}
use bunting.Ledger.{
  LedgerError, invalid_posting, invalid_release, insufficient_cash, insufficient_inventory, Ledger,
  CashBalance, Position, Reservation, available_cash, available_lots, overflow, per_lot_total,
  terms_of, cash_of, position_of,
}

-- `if required && overflow(available)?.get() < 0 { return Err(error) }`.
unfoldable pub insufficient : Bool → Option ℤ → LedgerError → Result LedgerError (Unit {0})
insufficient false available error = ok tt
insufficient true available error = do a ← overflow available; reject_if (ltb_ℤ a (pos 0)) error

abbrev pub signed : Bool → QuantityLots → Option QuantityLots
signed true value = some value
signed false value = checked_sub i64 (pos 0) value

abbrev pub apply : Bool → ℤ → ℤ → Option ℤ
apply true reserved amount = checked_add i128 reserved amount
apply false reserved amount = checked_sub i128 reserved amount

-- The two arms of the `match side` of `change_open`.
unfoldable pub change_side :
    Side
    → QuantityLots
    → QuantityLots
    → Reservation
    → Bool
    → Position
    → CashBalance
    → Result LedgerError (Position × CashBalance)
unfolding per_lot_total insufficient
change_side buy quantity delta reservation opening position cash = do
  open_buy ← overflow (checked_add i64 position.open_buy delta)
  amount ← per_lot_total reservation.cash_per_lot quantity
  reserved ← overflow (apply opening cash.reserved amount)
  reject_if (ltb_ℤ reserved (pos 0)) invalid_release
  let cash = record cash { reserved = reserved }
  insufficient opening (available_cash cash) insufficient_cash
  ok (record position { open_buy = open_buy }, cash)
change_side sell quantity delta reservation opening position cash = do
  open_sell ← overflow (checked_add i64 position.open_sell delta)
  let position = record position { open_sell = open_sell }
  if reservation.inventory
      then (do
        reserved ← overflow (checked_add i64 position.reserved delta)
        reject_if (ltb_ℤ reserved (pos 0)) invalid_release
        let position = record position { reserved = reserved }
        insufficient opening (available_lots position) insufficient_inventory
        ok (position, cash))
      else ok (position, cash)

unfoldable pub change_open :
    ℕ → ℕ → Side → QuantityLots → Reservation → Bool → Ledger → Result LedgerError Ledger
unfolding terms_of change_side
change_open participant instrument side quantity reservation opening l = do
  terms ← terms_of l instrument
  reject_if (leb_ℤ quantity (pos 0)) invalid_posting
  delta ← overflow (signed opening quantity)
  changed ←
      change_side side quantity delta reservation opening (position_of l participant instrument)
        (cash_of l participant terms.currency)
  reject_if (ltb_ℤ changed.0.open_buy (pos 0) || ltb_ℤ changed.0.open_sell (pos 0)) invalid_release
  ok (record l {
    positions = Map.insert (participant, instrument) changed.0 l.positions;
    cash = Map.insert (participant, terms.currency) changed.1 l.cash;
  })

unfoldable pub open_order :
    ℕ → ℕ → Side → QuantityLots → Reservation → Ledger → Result LedgerError Ledger
unfolding change_open
open_order participant instrument side quantity reservation l =
    change_open participant instrument side quantity reservation true l

unfoldable pub close_order :
    ℕ → ℕ → Side → QuantityLots → Reservation → Ledger → Result LedgerError Ledger
unfolding change_open
close_order participant instrument side quantity reservation l =
    change_open participant instrument side quantity reservation false l
