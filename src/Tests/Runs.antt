-- ===== src/Tests/Runs.antt =====
-- Runs of the engine, with a simulation domain that only keeps the time.
mod Commands
mod Orders
mod Requests
mod Trade
use bunting.Prelude.{
  ℕ, ◌+◌, ◌≤◌, ◌<◌, ◌≢◌, err, length, if◌then◌else◌, true, false, none, some, List, [], ◌∷◌, ◌++◌,
  ◌≡◌, refl, ok, Result, ◌==◌, ◌||◌,
}
use bunting.Prelude.Int.{pos, checked_add, checked_sub, checked_mul, ◌+ℤ◌, ◌-ℤ◌, ◌*ℤ◌}
use bunting.Prelude.Ord.{nat_ord, int_ord, pair_ord}
use bunting.Prelude.Map.{get, first, remove, contains_key}
use bunting.Prelude.Map
use bunting.Market.{SubmitOrder, buy, limit_with_policy, gtd, kill_switch_active}
use bunting.Book.{Book}
use bunting.Book
use bunting.Ledger.{Ledger}
use bunting.Risk
use bunting.Engine.{
  Simulation, RunState, Work, ListingDefinition, ListingState, ParticipantDefinition, EngineError,
  OwnedOrder, active, canceled, is_active, order_accepted, order_rested, order_canceled,
  kill_switch_activated, kill_switch, expired, diverged, max_retired_orders, order_received,
  order_rejected,
}
use bunting.Engine.Clock.{expire_due}
use bunting.Engine.Expired.{expire_due-terminates}
use bunting.Engine.Commit.{Command, Applied, event_of, retire, submit_order}
use bunting.Engine.Commit
use bunting.Engine.Commit.Numbered.{sequences, numbers_after}
use bunting.Engine.Committed.{apply-numbers}
use bunting.Engine.Committed.Barred.{apply-bars}
use bunting.Engine.Orders.{own}
use bunting.Engine.Admission.{Passed}
use bunting.Engine.Transition.{activate_kill_switch, apply}
use bunting.Engine.Switched.{activate_kill_switch-cancels, owns_live, activate_kill_switch-spares}
use bunting.Engine.Stays.{Stays}
use bunting.Ledger.{no_position}
use bunting.Engine.Submit.{submit, owned_by}
use bunting.Tests.{funded}

abbrev clock_only : Simulation
clock_only = record {
  State = ℕ;
  Event = ℕ;
  now = λ t. t;
  is_running = λ t. true;
  is_halted = λ t i. false;
  has_due_actions = λ t to. false;
  catch_up = λ to sweep l t. some ([], l, to);
  project_event = λ to payload t. some t;
  Request = ℕ;
  apply = λ participants currency rates actor now payload l t. some ([], l, now);
  clock_advanced = λ start end. end;
  mass_cancel_completed = λ ids. 0;
}

abbrev stock : ListingDefinition
stock = record {
  listing_key = (1, 10);
  price_bounds = record { low = pos 1; high = pos 200 };
  fees = record { taker_per_lot = pos 2; maker_per_lot = pos 1 };
  primary = true;
  tick_size = pos 1;
}

abbrev trader : ParticipantDefinition
trader = record { enabled = true; limits = Risk.new (pos 10) (pos 10) (pos 10) }

abbrev pub opened : RunState clock_only
opened = record {
  run_id = 1;
  sequence = 0;
  event_sequence = 0;
  reporting_currency = 1;
  fx_rates = [];
  instruments = [];
  listings = ((1, 10), record { definition = stock; book = Book.new }) ∷ [];
  participants = (7, trader) ∷ (8, trader) ∷ [];
  ledger = funded;
  ownership = [];
  retired = [];
  expiries = [];
  live_orders = [];
  kill_switched = [];
  simulation = 0;
  calendar = none;
  session_steps = [];
  day_trades = [];
  closes = [];
}

-- Five lots at 100, until time 5.
abbrev pub five_until : SubmitOrder
five_until = record {
  order_id = 1;
  instrument_id = 10;
  participant_id = 7;
  side = buy;
  quantity = pos 5;
  kind = limit_with_policy (pos 100) (gtd 5) false none;
  anonymous = false;
}

abbrev pub start : Work clock_only
start = record { run = opened; payloads = []; changed = [] }

-- The run once the order rests.
abbrev resting : OwnedOrder
resting = record {
  order_id = 1;
  participant_id = 7;
  listing_key = (1, 10);
  side = buy;
  limit_price = pos 100;
  original_quantity = pos 5;
  remaining_quantity = pos 5;
  state = active;
  reservation = record { cash_per_lot = pos 102; inventory = false };
  expires_at = some 5;
  day = false;
  anonymous = false;
}

abbrev bid : Book
bid = record {
  bids = (pos 100, record { queue = (0, 1) ∷ []; visible = pos 5; total = pos 5 }) ∷ [];
  asks = [];
  orders =
      (
        1,
        record {
          order_id = 1;
          side = buy;
          price = pos 100;
          remaining = pos 5;
          visible = pos 5;
          display = none;
          priority = 0;
        },
      )
      ∷ [];
  next_priority = 1;
}

abbrev pub live_run : RunState clock_only
live_run = record opened {
  listings = ((1, 10), record { definition = stock; book = bid }) ∷ [];
  ledger = record funded {
    cash = ((7, 1), record { balance = pos 1000; reserved = pos 510; fees = pos 0 }) ∷ [];
    positions = ((7, 10), record no_position { open_buy = pos 5 }) ∷ [];
  };
  ownership = (1, resting) ∷ [];
  expiries = ((5, 1), tt) ∷ [];
  live_orders = (7, 1) ∷ [];
}

abbrev pub live : Work clock_only
live = record {
  run = live_run;
  payloads = order_accepted 1 ∷ order_rested 1 7 (1, 10) buy (pos 100) (pos 5) ∷ [];
  changed = [];
}

pub takes : submit five_until (1, 10) 0 start ≡ ok (ok tt, live)
unfolding submit get bunting.Engine.session_phase Risk.admit bunting.Ledger.terms_of
    bunting.Market.validate checked_add ◌+ℤ◌ bunting.Ledger.cash_per_lot checked_mul ◌*ℤ◌
    bunting.Engine.fee_bound checked_sub ◌-ℤ◌ Risk.admit_live_order_count bunting.Engine.with_ledger
    bunting.Ledger.Orders.open_order bunting.Engine.with_book bunting.Book.Orders.execute
    bunting.Book.Orders.rest Book.insert Book.take_priority Book.add_to_level Map.insert
    bunting.Book.Orders.execute_loop bunting.Book.Orders.next_price Book.best
    bunting.Market.opposite Map.first
takes = refl

-- The run once the order is canceled, as it is by the kill switch and when it expires.
abbrev pub canceled_run : RunState clock_only
canceled_run = record opened {
  listings =
      ((1, 10), record { definition = stock; book = record Book.new { next_priority = 1 } }) ∷ [];
  ledger = record funded { positions = ((7, 10), no_position) ∷ [] };
  ownership = (1, record resting { state = canceled; remaining_quantity = pos 0 }) ∷ [];
  live_orders = (7, 1) ∷ [];
}

abbrev switched_off : Work clock_only
switched_off = record {
  run = record canceled_run { kill_switched = (7, tt) ∷ [] };
  payloads =
      live.payloads ++ kill_switch_activated ∷ order_canceled 1 7 (1, 10) (pos 5) kill_switch ∷ [];
  changed = ((1, 10), tt) ∷ [];
}

switches : activate_kill_switch 7 live ≡ ok (tt, switched_off)
unfolding activate_kill_switch get bunting.Engine.with_book bunting.Book.Orders.cancel Book.remove
    Book.remove_found Book.take_from_level checked_sub ◌-ℤ◌ remove bunting.Engine.with_ledger
    bunting.Ledger.Orders.close_order checked_add ◌+ℤ◌ checked_mul ◌*ℤ◌ Map.insert
switches = refl

activate_kill_switch-cancels_example :
    ((p : ℕ)
      → contains_key p switched_off.run.kill_switched
        ≡ ((p == 7) || contains_key p live.run.kill_switched))
    × ((j : ℕ) → owns_live 7 (get j switched_off.run.ownership) ≡ false)
activate_kill_switch-cancels_example = activate_kill_switch-cancels 7 live switched_off tt switches

-- The participant's neighbour throws its own switch.
abbrev neighbour : Work clock_only
neighbour = record live {
  run = record live_run { kill_switched = (8, tt) ∷ [] };
  payloads = live.payloads ++ kill_switch_activated ∷ [];
}

switches_neighbour : activate_kill_switch 8 live ≡ ok (tt, neighbour)
unfolding activate_kill_switch Map.insert
switches_neighbour = refl

activate_kill_switch-spares_example : get 1 neighbour.run.ownership ≡ some resting
unfolding get
activate_kill_switch-spares_example =
    activate_kill_switch-spares 8 live neighbour tt (tt, tt) switches_neighbour 1 resting refl refl

-- At time 5 the order expires.
abbrev expired_run : Work clock_only
expired_run = record {
  run = canceled_run;
  payloads = live.payloads ++ order_canceled 1 7 (1, 10) (pos 5) expired ∷ [];
  changed = ((1, 10), tt) ∷ [];
}

expires : expire_due 5 live ≡ ok (tt, expired_run)
unfolding expire_due first get bunting.Engine.with_book bunting.Book.Orders.cancel Book.remove
    Book.remove_found Book.take_from_level checked_sub ◌-ℤ◌ remove bunting.Engine.with_ledger
    bunting.Ledger.Orders.close_order checked_add ◌+ℤ◌ checked_mul ◌*ℤ◌ Map.insert
expires = refl

expire_due-terminates_example : expire_due 5 live ≢ err diverged
expire_due-terminates_example = expire_due-terminates 5 live
