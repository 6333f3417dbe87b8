-- ===== src/Ledger/Values.antt =====
-- packages/ledger/src/lib.rs: conversions between instruments, and valuation.
use bunting.Prelude.{
  unwrap_or, ℕ, Option, none, some, List, [], ◌∷◌, ◌++◌, map, if◌then◌else◌, ltb, ◌==◌, Result, ok,
  ◌>>=◌, ◌>>◌, reject_if, ok_or,
}
use bunting.Prelude.Int.{
  ℤ, pos, tdiv, magnitude, leb_ℤ, ltb_ℤ, eqb_ℤ, i128, i64, checked_add, checked_sub, checked_mul,
}
use bunting.Prelude.Ord.{nat_ord, pair_ord}
use bunting.Prelude.Map.{Map, get}
use bunting.Prelude.Map
use bunting.Market.{PriceTicks, QuantityLots, MoneyMinor}
use bunting.Ledger.{
  LedgerError, invalid_posting, insufficient_inventory, missing_fx_rate, Ledger, Position, FxRate,
  available_lots, overflow, notional, terms_of, cash_of, position_of, mark_of,
}

-- The basis that `quantity` lots of a holding carry away.
unfoldable pub transferred_basis : Position → QuantityLots → Result LedgerError MoneyMinor
transferred_basis position quantity =
    if ltb_ℤ (pos 0) position.quantity
    then (do
      product ← overflow (checked_mul i128 position.cost_basis quantity)
      ok (tdiv product (magnitude position.quantity)))
    else ok (pos 0)

-- The `input` half of `convert`: the basis it frees and the staged holding.
unfoldable pub convert_input :
    Ledger → ℕ → Option (ℕ × QuantityLots) → Result LedgerError (MoneyMinor × Map ℕ Position)
unfolding terms_of transferred_basis
convert_input l participant none = ok (pos 0, [])
convert_input l participant (some (instrument, quantity)) = do
  _ ← terms_of l instrument
  let position = position_of l participant instrument
  reject_if (leb_ℤ quantity (pos 0)) insufficient_inventory
  available ← overflow (available_lots position)
  reject_if (ltb_ℤ available quantity) insufficient_inventory
  transferred ← transferred_basis position quantity
  cost_basis ← overflow (checked_sub i128 position.cost_basis transferred)
  remaining ← overflow (checked_sub i64 position.quantity quantity)
  ok (
    transferred,
    (instrument, record position { quantity = remaining; cost_basis = cost_basis }) ∷ [],
  )

unfoldable pub convert_output :
    Ledger
    → ℕ
    → Option (ℕ × QuantityLots)
    → MoneyMinor
    → Map ℕ Position
    → Result LedgerError (Map ℕ Position)
unfolding terms_of
convert_output l participant none transferred staged = ok staged
convert_output l participant (some (instrument, quantity)) transferred staged = do
  _ ← terms_of l instrument
  reject_if (leb_ℤ quantity (pos 0)) invalid_posting
  let position = unwrap_or (get instrument staged) (position_of l participant instrument)
  total ← overflow (checked_add i64 position.quantity quantity)
  cost_basis ← overflow (checked_add i128 position.cost_basis transferred)
  ok (
      Map.remove instrument staged
      ++ (instrument, record position { quantity = total; cost_basis = cost_basis }) ∷ [])

unfoldable pub write_holdings : ℕ → Map ℕ Position → Map (ℕ × ℕ) Position → Map (ℕ × ℕ) Position
write_holdings participant [] m = m
write_holdings participant ((instrument, position) ∷ staged) m =
    write_holdings participant staged (Map.insert (participant, instrument) position m)

unfoldable pub convert :
    ℕ → Option (ℕ × QuantityLots) → Option (ℕ × QuantityLots) → Ledger → Result LedgerError Ledger
unfolding convert_input convert_output write_holdings
convert participant input output l = do
  taken ← convert_input l participant input
  staged ← convert_output l participant output taken.0 taken.1
  ok (record l { positions = write_holdings participant staged l.positions })

-- The entries of one participant, in order of the second key.
unfoldable pub range_of {ℓ} : {A : Type ℓ} → ℕ → Map (ℕ × ℕ) A → List (ℕ × A)
range_of participant [] = []
range_of participant (((owner, second), a) ∷ m) =
    let rest = range_of participant m in if owner == participant then (second, a) ∷ rest else rest

unfoldable pub position_value : Ledger → ℕ → Position → Result LedgerError MoneyMinor
unfolding terms_of notional
position_value l instrument position = do
  terms ← terms_of l instrument
  marked terms.multiplier (mark_of l instrument)
  where
    marked : ℤ → Option PriceTicks → Result LedgerError MoneyMinor
    marked multiplier none = ok position.cost_basis
    marked multiplier (some mark) = notional mark position.quantity multiplier

unfoldable pub unrealized_pnl : Ledger → ℕ → ℕ → Result LedgerError MoneyMinor
unfolding position_value
unrealized_pnl l participant instrument = do
  let position = position_of l participant instrument
  value ← position_value l instrument position
  overflow (checked_sub i128 value position.cost_basis)

-- The loop of `net_liquidation_value`.
unfoldable pub add_values :
    Ledger → ℕ → List (ℕ × Position) → MoneyMinor → Result LedgerError MoneyMinor
unfolding terms_of position_value
add_values l currency [] total = ok total
add_values l currency ((instrument, position) ∷ rest) total = do
  terms ← terms_of l instrument
  next ←
      (if terms.currency == currency
        then (do
          value ← position_value l instrument position
          overflow (checked_add i128 total value))
        else ok total)
  add_values l currency rest next

unfoldable pub net_liquidation_value : Ledger → ℕ → ℕ → Result LedgerError MoneyMinor
unfolding add_values range_of
net_liquidation_value l participant currency =
    add_values l currency (range_of participant l.positions)
      (cash_of l participant currency).balance

-- `sort_unstable` and `dedup` over identifiers.
unfoldable pub add_sorted : ℕ → List ℕ → List ℕ
add_sorted a [] = a ∷ []
add_sorted a (b ∷ rest) =
    if a == b then b ∷ rest else if ltb a b then a ∷ b ∷ rest else b ∷ add_sorted a rest

unfoldable pub sort_dedup : List ℕ → List ℕ
unfolding add_sorted
sort_dedup [] = []
sort_dedup (a ∷ rest) = add_sorted a (sort_dedup rest)

unfoldable pub find_rate : ℕ → List FxRate → Option FxRate
find_rate currency [] = none
find_rate currency (rate ∷ rates) =
    if rate.currency == currency then some rate else find_rate currency rates

-- One currency's value in the reporting currency.
unfoldable pub converted : Ledger → ℕ → List FxRate → ℕ → MoneyMinor → Result LedgerError MoneyMinor
unfolding find_rate
converted l reporting rates currency value =
    if currency == reporting then ok value else if eqb_ℤ value (pos 0) then ok (pos 0) else (do
      rate ← ok_or (find_rate currency rates) missing_fx_rate
      mark ← ok_or (mark_of l rate.instrument_id) missing_fx_rate
      reject_if (leb_ℤ rate.minor_units_per_lot (pos 0)) missing_fx_rate
      amount ← overflow (checked_mul i128 value mark)
      ok (tdiv amount (magnitude rate.minor_units_per_lot)))

unfoldable pub held_currencies : Ledger → List (ℕ × Position) → Result LedgerError (List ℕ)
unfolding terms_of
held_currencies l [] = ok []
held_currencies l ((instrument, position) ∷ rest) = do
  terms ← terms_of l instrument
  currencies ← held_currencies l rest
  ok (terms.currency ∷ currencies)

unfoldable pub add_converted :
    Ledger → ℕ → ℕ → List FxRate → List ℕ → MoneyMinor → Result LedgerError MoneyMinor
unfolding net_liquidation_value converted
add_converted l participant reporting rates [] total = ok total
add_converted l participant reporting rates (currency ∷ rest) total = do
  value ← net_liquidation_value l participant currency
  amount ← converted l reporting rates currency value
  next ← overflow (checked_add i128 total amount)
  add_converted l participant reporting rates rest next

unfoldable pub reporting_value : Ledger → ℕ → ℕ → List FxRate → Result LedgerError MoneyMinor
unfolding range_of held_currencies sort_dedup add_converted
reporting_value l participant reporting rates = do
  held ← held_currencies l (range_of participant l.positions)
  add_converted l participant reporting rates
      (sort_dedup (map (λ e. e.0) (range_of participant l.cash) ++ held)) (pos 0)

-- Participants with any balance, in identity order.
unfoldable pub participants : Ledger → List ℕ
unfolding sort_dedup
participants l =
    sort_dedup (map (λ e. e.0) (Map.keys l.cash) ++ map (λ e. e.0) (Map.keys l.positions))
