-- ===== src/Tests/Settled.antt =====
-- Books and a ledger at work: orders taken back and refused, and a fill that is settled.
use bunting.Prelude.{ℕ, ◌+◌, true, false, none, some, List, [], ◌∷◌, ◌≡◌, ◌⊎◌, refl, ok}
use bunting.Prelude.Int.{ℤ, pos, negsuc}
use bunting.Prelude.Ord.{nat_ord, int_ord, pair_ord}
use bunting.Prelude.Map.{get}
use bunting.Prelude.Map
use bunting.Prelude.Map.Sums.{sum_of}
use bunting.Market.{buy, sell}
use bunting.Book.{fail, contains, duplicate_order, invalid_order, overflow}
use bunting.Book.Orders.{rest, cancel}
use bunting.Book.Sound.{IsSound}
use bunting.Book.Resting.{newcomer, is_refused}
use bunting.Book.Record.{try_from_record, record_of}
use bunting.Book.Record.Kept.{try_from_record-record_of}
use bunting.Book.Resting.Undo.{cancel-rest}
use bunting.Book.Resting.Refused.{rest_fails}
use bunting.Ledger.{Ledger, Fill, FillParty, no_position}
use bunting.Ledger.Fills.{settle}
use bunting.Ledger.Settled.Conserved.{settle-conserves, money_in, lots_of}
use bunting.Tests.{one_order, two_orders, one_order-IsSound, two_orders-IsSound, rest_two, funded}

cancel-rest_example :
    ((cancel 2 two_orders).0 ≡ some (newcomer 2 buy (pos 102) (pos 6) none one_order.next_priority))
    × IsSound (cancel 2 two_orders).1
    × ((cancel 2 two_orders).1.orders ≡ one_order.orders)
    × ((cancel 2 two_orders).1.next_priority ≡ one_order.next_priority + 1)
cancel-rest_example =
    cancel-rest 2 buy (pos 102) (pos 6) none one_order two_orders one_order-IsSound rest_two

rest_again : rest 2 sell (pos 50) (pos 1) none two_orders ≡ fail duplicate_order two_orders
unfolding rest get
rest_again = refl

rest_fails_example :
    ((duplicate_order ≡ invalid_order)
      × (is_refused 2 sell (pos 50) (pos 1) none ≡ true)
      × (two_orders ≡ two_orders))
    ⊎ (((duplicate_order ≡ duplicate_order)
          × (contains two_orders 2 ≡ true)
          × (two_orders ≡ two_orders))
        ⊎ (duplicate_order ≡ overflow))
rest_fails_example =
    rest_fails 2 sell (pos 50) (pos 1) none two_orders two_orders duplicate_order two_orders-IsSound
      rest_again

-- The participant with a thousand buys five lots at 100, with a fee of ten, from one that holds them.
abbrev buyer : FillParty
buyer = record { participant = 7; fee = pos 10; held = none; enforce_funding = true }

abbrev seller : FillParty
seller = record { participant = 8; fee = pos 5; held = none; enforce_funding = true }

abbrev holder : Ledger
holder = record funded {
  positions = ((8, 10), record no_position { quantity = pos 20; cost_basis = pos 400 }) ∷ [];
}

abbrev five_lots : Fill
five_lots = record {
  instrument = 10;
  price = pos 100;
  quantity = pos 5;
  buyer = some buyer;
  seller = some seller;
  set_mark = true;
}

abbrev settled : Ledger
settled = record holder {
  cash =
      ((7, 1), record { balance = pos 490; reserved = pos 0; fees = pos 10 })
      ∷ ((8, 1), record { balance = pos 495; reserved = pos 0; fees = pos 5 })
      ∷ [];
  positions =
      ((7, 10), record no_position { quantity = pos 5; cost_basis = pos 500; traded = pos 5 })
      ∷ (
        (8, 10),
        record no_position {
          quantity = pos 15;
          cost_basis = pos 300;
          realized_pnl = pos 400;
          traded = pos 5;
        },
      )
      ∷ [];
  marks = (10, pos 100) ∷ [];
}

settles : settle five_lots holder ≡ ok settled
unfolding settle get bunting.Prelude.Int.checked_mul bunting.Prelude.Int.◌*ℤ◌
    bunting.Prelude.Int.neg bunting.Prelude.Int.checked_add bunting.Prelude.Int.◌+ℤ◌
    bunting.Prelude.Int.checked_sub bunting.Prelude.Int.◌-ℤ◌ Map.insert bunting.Prelude.Int.tdiv
settles = refl

settle-conserves_example :
    (sum_of (money_in 1) settled.cash ≡ sum_of (money_in 1) holder.cash)
    × (sum_of (lots_of 10) settled.positions ≡ sum_of (lots_of 10) holder.positions)
settle-conserves_example =
    settle-conserves five_lots holder settled buyer seller 1 10 (tt, tt) (tt, tt) refl refl settles

loads : try_from_record (record_of two_orders) ≡ ok two_orders
unfolding try_from_record record_of bunting.Book.insert get bunting.Book.add_to_level
    bunting.Prelude.Int.checked_add bunting.Prelude.Int.◌+ℤ◌ Map.insert
loads = refl

try_from_record-record_of_example :
    (two_orders.next_priority ≡ two_orders.next_priority)
    × ((id : ℕ) → get id two_orders.orders ≡ get id two_orders.orders)
try_from_record-record_of_example =
    try_from_record-record_of two_orders two_orders two_orders-IsSound loads
