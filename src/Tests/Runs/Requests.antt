-- ===== src/Tests/Runs/Requests.antt =====
-- A clock tick on a run of the engine, which passes the expiry of its order.
use bunting.Prelude.{ℕ, ◌++◌, some, arith, false, ◌+◌, length, true, none, [], ◌∷◌, ◌≡◌, refl, ok}
use bunting.Prelude.Int.{pos, checked_add, checked_sub, checked_mul, ◌+ℤ◌, ◌-ℤ◌, ◌*ℤ◌}
use bunting.Prelude.Ord.{nat_ord, int_ord, pair_ord}
use bunting.Prelude.Map.{get, first, remove}
use bunting.Prelude.Map
use bunting.Book
use bunting.Engine.{
  RunState, Work, OwnedOrder, is_active, canceled, order_canceled, expired, domain, clock_tick,
}
use bunting.Engine.Clock.{expire_due}
use bunting.Engine.Commit.{SimulationCommandRequest, Applied, event_of}
use bunting.Engine.Commit.Numbered.{sequences, numbers_after}
use bunting.Engine.Administer.{apply_simulation, mass_cancel_live}
use bunting.Engine.Stays.Requests.{apply_simulation-numbers}
use bunting.Tests.Runs.{clock_only, live_run, canceled_run, live, resting}
use bunting.Engine
use bunting.Engine.Switched.Mass.{mass_cancel_live-cancels}

abbrev tick : SimulationCommandRequest ℕ
tick = record {
  metadata = record {
    run_id = 1;
    command_id = 1;
    correlation_id = 1;
    logical_time = 5;
    expected_sequence = 0;
    actor = 0;
  };
  payload = clock_tick;
}

abbrev after_tick : RunState clock_only
after_tick = record canceled_run {
  sequence = 1;
  event_sequence = 2;
  retired = 1 ∷ [];
  live_orders = [];
  simulation = 5;
}

abbrev ticked : Applied ℕ
ticked = record {
  events =
      event_of tick.metadata 1 (domain 5)
      ∷ event_of tick.metadata 2 (order_canceled 1 7 (1, 10) (pos 5) expired)
      ∷ [];
  accepted = true;
  reject_code = none;
  order_id = none;
  changed_listings = ((1, 10), tt) ∷ [];
}

ticks : apply_simulation tick live_run ≡ ok (ticked, after_tick)
unfolding apply_simulation first get bunting.Engine.with_book bunting.Book.Orders.cancel Book.remove
    Book.remove_found Book.take_from_level checked_sub ◌-ℤ◌ remove bunting.Engine.with_ledger
    bunting.Ledger.Orders.close_order checked_add ◌+ℤ◌ checked_mul ◌*ℤ◌ Map.insert expire_due
ticks = refl

apply_simulation-numbers_example :
    (after_tick.run_id ≡ live_run.run_id)
    × (after_tick.sequence ≡ live_run.sequence + 1)
    × (sequences tick.metadata ticked.events
        ≡ numbers_after live_run.event_sequence (length ticked.events))
    × (after_tick.event_sequence ≡ live_run.event_sequence + length ticked.events)
apply_simulation-numbers_example = apply_simulation-numbers tick live_run after_tick ticked ticks

-- A mass cancel of the orders in one instrument.
abbrev mass_canceled : Work clock_only
mass_canceled = record {
  run = canceled_run;
  payloads =
      live.payloads
      ++ order_canceled 1 7 (1, 10) (pos 5) Engine.CancelReason.mass_cancel ∷ domain 0 ∷ [];
  changed = ((1, 10), tt) ∷ [];
}

mass_cancels : mass_cancel_live none (some 10) live ≡ ok (tt, mass_canceled)
unfolding mass_cancel_live get bunting.Engine.with_book bunting.Book.Orders.cancel Book.remove
    Book.remove_found Book.take_from_level checked_sub ◌-ℤ◌ remove bunting.Engine.with_ledger
    bunting.Ledger.Orders.close_order checked_add ◌+ℤ◌ checked_mul ◌*ℤ◌ Map.insert
mass_cancels = refl

live_keyed :
    (j : ℕ) (owned : OwnedOrder) → get j live.run.ownership ≡ some owned → owned.order_id ≡ j
unfolding get
live_keyed j owned h = ground arith

mass_cancel_live-cancels_example : is_active canceled ≡ false
unfolding get
mass_cancel_live-cancels_example =
    mass_cancel_live-cancels none (some 10) live mass_canceled tt live_keyed mass_cancels 1
      (record resting { state = canceled; remaining_quantity = pos 0 }) refl refl
