-- ===== src/Tests/Runs/Trade.antt =====
-- A sale into the resting order of a run.
use bunting.Prelude.{ℕ, ◌+◌, true, false, none, some, [], ◌∷◌, ◌≡◌, refl, ok, err}
use bunting.Prelude.Int.{pos, checked_add, checked_sub, checked_mul, ◌+ℤ◌, ◌-ℤ◌, ◌*ℤ◌, neg, tdiv}
use bunting.Prelude.Ord.{nat_ord, int_ord, pair_ord}
use bunting.Prelude.Map.{get, first, remove}
use bunting.Prelude.Map
use bunting.Market.{SubmitOrder, sell, limit_with_policy, ioc}
use bunting.Book
use bunting.Risk
use bunting.Ledger.{no_position}
use bunting.Engine.{RunState}
use bunting.Engine.Clock.{expire_due}
use bunting.Engine.Commit.{Command, Applied, submit_order}
use bunting.Engine.Transition.{apply}
use bunting.Engine.Balanced.{Conserves}
use bunting.Engine.Balanced.Commands.{apply-conserves}
use bunting.Tests.Runs.{clock_only, live_run}

-- The second participant holds ten lots.
abbrev held_run : RunState clock_only
held_run = record live_run {
  ledger = record live_run.ledger {
    positions =
        ((7, 10), record no_position { open_buy = pos 5 })
        ∷ ((8, 10), record no_position { quantity = pos 10; cost_basis = pos 200 })
        ∷ [];
  };
}

abbrev three_sold : SubmitOrder
three_sold = record {
  order_id = 2;
  instrument_id = 10;
  participant_id = 8;
  side = sell;
  quantity = pos 3;
  kind = limit_with_policy (pos 99) ioc false none;
  anonymous = false;
}

abbrev sale_command : Command
sale_command = record {
  metadata = record {
    run_id = 1;
    command_id = 1;
    correlation_id = 1;
    logical_time = 2;
    expected_sequence = 0;
    actor = 8;
  };
  payload = submit_order three_sold;
}

abbrev nothing_applied : Applied ℕ
nothing_applied = record {
  events = [];
  accepted = false;
  reject_code = none;
  order_id = none;
  changed_listings = [];
}

-- What the sale comes to: three lots change hands at 100.
abbrev sale : Applied ℕ × RunState clock_only
sale = elim (apply sale_command held_run) [ err e ↦ (nothing_applied, held_run) | ok x ↦ x ]

sells : apply sale_command held_run ≡ ok sale
unfolding apply first get expire_due bunting.Engine.session_phase Risk.admit bunting.Ledger.terms_of
    bunting.Market.validate checked_add ◌+ℤ◌ checked_sub ◌-ℤ◌ bunting.Engine.with_ledger
    bunting.Ledger.Orders.open_order bunting.Engine.with_book bunting.Book.Orders.execute
    bunting.Book.Orders.execute_loop bunting.Book.Orders.next_price Book.best
    bunting.Market.opposite Map.insert remove Book.remove Book.remove_found Book.take_from_level
    Book.insert Book.take_priority Book.add_to_level bunting.Ledger.Fills.settle checked_mul ◌*ℤ◌
    neg tdiv bunting.Ledger.cash_per_lot bunting.Engine.fee_bound Map.last Book.crosses
    bunting.Book.Orders.match_front bunting.Book.Orders.front bunting.Prelude.Int.min_ℤ
    bunting.Book.Orders.reinsert bunting.Engine.Orders.per_lot_fee
sells = refl

apply-conserves_example : Conserves 1 10 held_run.ledger (sale.1).ledger
apply-conserves_example =
    apply-conserves 1 10 sale_command held_run (sale.1) (sale.0) [] 2
      (record { cash_sorted = (tt, tt); positions_sorted = ((refl, tt), (tt, tt)) }) refl sells
