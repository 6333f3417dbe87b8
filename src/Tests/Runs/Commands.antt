-- ===== src/Tests/Runs/Commands.antt =====
-- Commands applied to a run of the engine.
use bunting.Prelude.{ℕ, ◌+◌, length, true, false, none, some, [], ◌∷◌, ◌≡◌, refl, ok}
use bunting.Prelude.Int.{pos, checked_add, checked_sub, checked_mul, ◌+ℤ◌, ◌-ℤ◌, ◌*ℤ◌}
use bunting.Prelude.Ord.{nat_ord, int_ord, pair_ord}
use bunting.Prelude.Map.{get, first, remove, contains_key}
use bunting.Prelude.Map
use bunting.Market.{SubmitOrder, kill_switch_active}
use bunting.Book.{Book}
use bunting.Book
use bunting.Ledger.{Ledger}
use bunting.Engine.{
  Simulation, RunState, Work, ListingDefinition, ListingState, ParticipantDefinition, EngineError,
  OwnedOrder, active, canceled, is_active, order_accepted, order_rested, order_canceled,
  kill_switch_activated, kill_switch, expired, diverged, max_retired_orders, order_received,
  order_rejected,
}
use bunting.Engine.Clock.{expire_due}
use bunting.Engine.Commit.{Command, Applied, event_of, retire, submit_order}
use bunting.Engine.Commit
use bunting.Engine.Commit.Numbered.{sequences, numbers_after}
use bunting.Engine.Committed.{apply-numbers}
use bunting.Engine.Committed.Barred.{apply-bars}
use bunting.Engine.Transition.{apply}
use bunting.Ledger.{no_position}
use bunting.Tests.Runs.{clock_only, five_until, live_run, canceled_run}

-- The switch as a command, and an order of the participant once it is on.
abbrev switch_command : Command
switch_command = record {
  metadata = record {
    run_id = 1;
    command_id = 1;
    correlation_id = 1;
    logical_time = 3;
    expected_sequence = 0;
    actor = 7;
  };
  payload = Commit.activate_kill_switch;
}

abbrev after_switch : RunState clock_only
after_switch = record canceled_run {
  sequence = 1;
  event_sequence = 2;
  kill_switched = (7, tt) ∷ [];
  retired = 1 ∷ [];
  live_orders = [];
  simulation = 3;
}

abbrev switch_applied : Applied ℕ
switch_applied = record {
  events =
      event_of switch_command.metadata 1 kill_switch_activated
      ∷ event_of switch_command.metadata 2 (order_canceled 1 7 (1, 10) (pos 5) kill_switch)
      ∷ [];
  accepted = true;
  reject_code = none;
  order_id = none;
  changed_listings = ((1, 10), tt) ∷ [];
}

applies : apply switch_command live_run ≡ ok (switch_applied, after_switch)
unfolding apply first get bunting.Engine.with_book bunting.Book.Orders.cancel Book.remove
    Book.remove_found Book.take_from_level checked_sub ◌-ℤ◌ remove bunting.Engine.with_ledger
    bunting.Ledger.Orders.close_order checked_add ◌+ℤ◌ checked_mul ◌*ℤ◌ Map.insert expire_due
applies = refl

apply-numbers_example :
    (after_switch.run_id ≡ live_run.run_id)
    × (after_switch.sequence ≡ live_run.sequence + 1)
    × (sequences switch_command.metadata switch_applied.events
        ≡ numbers_after live_run.event_sequence (length switch_applied.events))
    × (after_switch.event_sequence ≡ live_run.event_sequence + length switch_applied.events)
apply-numbers_example = apply-numbers switch_command live_run after_switch switch_applied applies

abbrev second_order : SubmitOrder
second_order = record five_until { order_id = 2 }

abbrev submit_command : Command
submit_command = record {
  metadata = record switch_command.metadata { logical_time = 4; expected_sequence = 1 };
  payload = submit_order second_order;
}

abbrev after_refusal : RunState clock_only
after_refusal = record after_switch { sequence = 2; event_sequence = 4; simulation = 4 }

abbrev refusal : Applied ℕ
refusal = record {
  events =
      event_of submit_command.metadata 3 (order_received second_order (1, 10))
      ∷ event_of submit_command.metadata 4 (order_rejected 2 kill_switch_active)
      ∷ [];
  accepted = false;
  reject_code = some kill_switch_active;
  order_id = some 2;
  changed_listings = [];
}

refuses : apply submit_command after_switch ≡ ok (refusal, after_refusal)
unfolding apply first get expire_due
refuses = refl

apply-bars_example : (refusal.accepted ≡ false) × (get 2 after_refusal.ownership ≡ none)
unfolding get
apply-bars_example =
    apply-bars submit_command after_switch after_refusal refusal second_order refl refl refuses 2
      refl
