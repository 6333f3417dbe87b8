-- ===== src/Tests.antt =====
-- Concrete books, ledgers and queues: the properties at work on them.
mod Runs
mod Settled
use bunting.Prelude.{◌≤◌, ℕ, ◌+◌, true, false, none, some, List, [], ◌∷◌, ◌≡◌, refl, arith, ok}
use bunting.Prelude.Int.{
  ℤ, pos, negsuc, ◌+ℤ◌, ◌-ℤ◌, ◌*ℤ◌, checked_add, checked_sub, checked_mul, tdiv, neg,
}
use bunting.Prelude.Ord.{nat_ord, int_ord, pair_ord}
use bunting.Prelude.Map.{get, remove}
use bunting.Prelude.Map
use bunting.Market.{Side, buy, sell, QuantityLots}
use bunting.Book.{
  BookOrder, Match, Cross, Level, Book, side, new, done, take_priority, insert, add_to_level,
}
use bunting.Book.Orders.{rest, cancel, execute, uncross}
use bunting.Book.Sound.{IsSound}
use bunting.Book.Resting.{rest-IsSound, cancel_lem, newcomer, is_refused}
use bunting.Book.Execute.{Trades}
use bunting.Book.Execute.Refine.{execute_price_time}
use bunting.Book.Uncross.{Crosses}
use bunting.Book.Uncross.Refine.{uncross_settles}
use bunting.Book.Auction.{auction_price, auction_price_reference}
use bunting.Book.Auction.Sweep.{auction_price-reference}
use bunting.Market.{SubmitOrder, limit, validate}
use bunting.Ledger.{Ledger, Position, no_position, terms_of, position_of, cash_of, cash_per_lot}
use bunting.Ledger.Orders.{open_order}
use bunting.Ledger.Fills.{apply_fill}
use bunting.Ledger.Fills.Basis.{apply_fill-conserves}
use bunting.Ledger.Fills.Flat.{apply_fill-flat}
use bunting.Risk.{RiskLimits, ListingTerms, Admission, admit}
use bunting.Risk
use bunting.Risk.Admitted.{admit-open_order, IsCounted}
use bunting.Sequencer.{Sequencer, pop_due, AdmissionRecord, no_sample, venue}
use bunting.Sequencer
use bunting.Calendar.{Calendar, is_valid, boundary, closed, pre_open, phase_after}
use bunting.Calendar.Times.{boundaries_in_order}
use bunting.Sequencer.Released.{IsQueued, IsPast}
use bunting.Sequencer.Runs.{pop_due_lem, Op, admission, poll, run, run-Ascending, Ascending}

pub new-IsSound : IsSound new
unfolding get
new-IsSound = record {
  sides_sorted = sorted;
  orders_sorted = tt;
  levels = λ t price level h. absurd (no_level t price h);
  listed = λ id o h. absurd (ground arith);
}
  where
    sorted : (s : Side) → Map.IsSorted (side new s)
    sorted buy = tt
    sorted sell = tt

    no_level : (s : Side) (price : ℤ) {level : Level} → get price (side new s) ≡ some level → ⊥
    no_level buy price h = ground arith
    no_level sell price h = ground arith

-- An iceberg of ten lots that shows four.
abbrev iceberg : BookOrder
iceberg = record {
  order_id = 1;
  side = sell;
  price = pos 100;
  remaining = pos 10;
  visible = pos 4;
  display = some (pos 4);
  priority = 0;
}

abbrev bidder : BookOrder
bidder = record {
  order_id = 2;
  side = buy;
  price = pos 102;
  remaining = pos 6;
  visible = pos 6;
  display = none;
  priority = 1;
}

abbrev one_order : Book
one_order = record {
  bids = [];
  asks = (pos 100, record { queue = (0, 1) ∷ []; visible = pos 4; total = pos 10 }) ∷ [];
  orders = (1, iceberg) ∷ [];
  next_priority = 1;
}

abbrev two_orders : Book
two_orders = record {
  bids = (pos 102, record { queue = (1, 2) ∷ []; visible = pos 6; total = pos 6 }) ∷ [];
  asks = (pos 100, record { queue = (0, 1) ∷ []; visible = pos 4; total = pos 10 }) ∷ [];
  orders = (1, iceberg) ∷ (2, bidder) ∷ [];
  next_priority = 2;
}

rest_one : rest 1 sell (pos 100) (pos 10) (some (pos 4)) new ≡ done tt one_order
unfolding rest insert get take_priority add_to_level checked_add ◌+ℤ◌ Map.insert
rest_one = refl

rest_two : rest 2 buy (pos 102) (pos 6) none one_order ≡ done tt two_orders
unfolding rest insert get take_priority add_to_level checked_add ◌+ℤ◌ Map.insert
rest_two = refl

one_order-IsSound : IsSound one_order
one_order-IsSound =
    (rest-IsSound 1 sell (pos 100) (pos 10) (some (pos 4)) new one_order new-IsSound rest_one).0

two_orders-IsSound : IsSound two_orders
two_orders-IsSound =
    (rest-IsSound 2 buy (pos 102) (pos 6) none one_order two_orders one_order-IsSound rest_two).0

rest-IsSound_example :
    IsSound two_orders
    × (two_orders.orders
        ≡ Map.insert 2
            (newcomer 2 buy (pos 102) (pos 6) none one_order.next_priority)
            one_order.orders)
    × (two_orders.next_priority ≡ one_order.next_priority + 1)
    × (get 2 one_order.orders ≡ none)
    × (is_refused 2 buy (pos 102) (pos 6) none ≡ false)
rest-IsSound_example =
    rest-IsSound 2 buy (pos 102) (pos 6) none one_order two_orders one_order-IsSound rest_two

cancel_lem_example :
    IsSound (cancel 1 two_orders).1
    × ((cancel 1 two_orders).0 ≡ get 1 two_orders.orders)
    × ((cancel 1 two_orders).1.orders ≡ Map.remove 1 two_orders.orders)
    × ((cancel 1 two_orders).1.next_priority ≡ two_orders.next_priority)
cancel_lem_example = cancel_lem two_orders 1 two_orders-IsSound

execute_price_time_example :
    (ks : List Match) × (left : QuantityLots) × (b' : Book) × (execute buy
        (some (pos 101))
        (pos 7)
        two_orders
      ≡ done (ks, left) b')
    × IsSound b'
    × Trades buy
        (some (pos 101))
        ks
        two_orders.orders
        two_orders.next_priority
        (pos 7)
        b'.orders
        b'.next_priority
        left
execute_price_time_example =
    execute_price_time two_orders buy (some (pos 101)) (pos 7) two_orders-IsSound (ground arith)
      refl (ground arith)

uncross_settles_example :
    (cs : List Cross) × (b' : Book) × (uncross (pos 101) two_orders ≡ done cs b')
    × IsSound b'
    × Crosses (pos 101) cs two_orders.orders b'.orders
uncross_settles_example = uncross_settles (pos 101) two_orders two_orders-IsSound (ground arith)

auction_price-reference_example :
    auction_price two_orders (pos 101) ≡ auction_price_reference two_orders (pos 101)
auction_price-reference_example = auction_price-reference two_orders (pos 101) two_orders-IsSound

abbrev command : ℕ → AdmissionRecord
command release = record {
  received_us = release;
  measured_one_way_us = none;
  rtt_source = no_sample;
  destination = venue 1;
  path_latency_us = 0;
  jitter_position = none;
  release_us = release;
  arrival_sequence = 0;
}

-- A command due at 5 arrives when nine microseconds have passed, behind one due at 7 that has gone.
abbrev calls : List (Op ℕ)
calls =
    admission 1 (command 20) 100
    ∷ admission 2 (command 7) 101
    ∷ poll 9
    ∷ admission 3 (command 5) 102
    ∷ poll 9
    ∷ poll 30
    ∷ []

calls-run : run calls (Sequencer.new 4) ≡ (7, 1) ∷ (9, 2) ∷ (20, 0) ∷ []
unfolding run Map.insert get remove
calls-run = refl

run-Ascending_example : Ascending (run calls (Sequencer.new 4))
run-Ascending_example = run-Ascending calls (Sequencer.new 4) (tt, tt) (ground arith)

abbrev funded : Ledger
funded = record {
  terms = (10, record { currency = 1; multiplier = pos 1; shortable = false }) ∷ [];
  cash = ((7, 1), record { balance = pos 1000; reserved = pos 0; fees = pos 0 }) ∷ [];
  positions = [];
  marks = [];
}

abbrev buy_five : SubmitOrder
buy_five = record {
  order_id = 1;
  instrument_id = 10;
  participant_id = 7;
  side = buy;
  quantity = pos 5;
  kind = limit (pos 100);
  anonymous = false;
}

abbrev small_limits : RiskLimits
small_limits = Risk.new (pos 10) (pos 10) (pos 10)

abbrev stock_listing : ListingTerms
stock_listing = record {
  price_bounds = record { low = pos 1; high = pos 200 };
  fee_bound = pos 2;
  tick_size = pos 1;
}

abbrev five_admitted : Admission
five_admitted = record {
  reservation_price = pos 100;
  reservation = record { cash_per_lot = pos 102; inventory = false };
}

five_admits : admit small_limits true buy_five stock_listing funded none ≡ ok five_admitted
unfolding admit terms_of get validate checked_add ◌+ℤ◌ cash_per_lot checked_mul ◌*ℤ◌ checked_sub
    ◌-ℤ◌
five_admits = refl

terms_ten : terms_of funded 10 ≡ ok (record { currency = 1; multiplier = pos 1; shortable = false })
unfolding terms_of get
terms_ten = refl

five-IsCounted : IsCounted (position_of funded 7 10) (cash_of funded 7 1)
unfolding get
five-IsCounted = (ground arith, ground arith, ground arith, ground arith, refl, refl)

admit-open_order_example :
    (l' : Ledger) × (open_order 7 10 buy (pos 5) five_admitted.reservation funded ≡ ok l')
admit-open_order_example =
    admit-open_order small_limits true buy_five stock_listing funded none five_admitted _
      five_admits terms_ten refl (ground arith) (ground arith) five-IsCounted

-- Ten lots bought for 105, of which four are sold at 13: the basis divides with a remainder.
abbrev holding : Position
holding = record no_position { quantity = pos 10; cost_basis = pos 105 }

abbrev after_sale : Position
after_sale = record no_position { quantity = pos 6; cost_basis = pos 63; realized_pnl = pos 10 }

sale : apply_fill holding (negsuc 3) (pos 13) (pos 1) ≡ ok after_sale
unfolding apply_fill checked_add ◌+ℤ◌ checked_mul ◌*ℤ◌ neg checked_sub ◌-ℤ◌ tdiv
sale = refl

apply_fill-conserves_example :
    (after_sale.quantity ≡ holding.quantity +ℤ negsuc 3)
    × (after_sale.cost_basis -ℤ after_sale.realized_pnl
        ≡ holding.cost_basis -ℤ holding.realized_pnl +ℤ negsuc 3 *ℤ (pos 13 *ℤ pos 1))
    × (after_sale ≡ record holding {
      quantity = after_sale.quantity;
      cost_basis = after_sale.cost_basis;
      realized_pnl = after_sale.realized_pnl;
    })
apply_fill-conserves_example =
    apply_fill-conserves holding (negsuc 3) (pos 13) (pos 1) after_sale sale

-- Three days of a hundred units, the second of which is a holiday.
abbrev three_days : Calendar
three_days = record {
  day_ns = 100;
  days = 3;
  holidays = 1 ∷ [];
  sessions =
      record { venue_id = 1; pre_open_ns = 10; open_ns = 20; closing_call_ns = 80; close_ns = 90 }
      ∷ [];
}

three_days_valid : is_valid three_days (1 ∷ []) ≡ true
unfolding is_valid
three_days_valid = refl

close_one : boundary three_days 1 3 ≡ some (record { time = 90; phase = closed; day = 0 })
unfolding boundary
close_one = refl

open_two : boundary three_days 1 4 ≡ some (record { time = 210; phase = pre_open; day = 2 })
unfolding boundary
open_two = refl

boundaries_in_order_example : (90 ≤ 210) × (phase_after 4 ≡ closed)
boundaries_in_order_example =
    boundaries_in_order three_days (1 ∷ []) 1 3 (record { time = 90; phase = closed; day = 0 })
      (record { time = 210; phase = pre_open; day = 2 }) three_days_valid close_one open_two

-- The short position that the sale of ten lots at 13 leaves is bought back at 11.
abbrev short : Position
short = record no_position { quantity = negsuc 9; cost_basis = negsuc 129 }

abbrev bought_back : Position
bought_back = record no_position { realized_pnl = pos 20 }

buy_back : apply_fill short (pos 10) (pos 11) (pos 1) ≡ ok bought_back
unfolding apply_fill checked_add ◌+ℤ◌ checked_mul ◌*ℤ◌ neg checked_sub ◌-ℤ◌ tdiv
buy_back = refl

apply_fill-flat_example : bought_back.cost_basis ≡ pos 0
apply_fill-flat_example =
    apply_fill-flat short (pos 10) (pos 11) (pos 1) bought_back (λ e. ground arith) buy_back refl

abbrev waiting : Sequencer ℕ
waiting = record {
  capacity = 4;
  next_arrival = 1;
  floor_us = 3;
  heap = (5, 0) ∷ [];
  items = (0, (command 5, 100)) ∷ [];
}

waiting-IsQueued : IsQueued waiting
unfolding get
waiting-IsQueued = ((tt, tt), ((ground arith, command 5, 100, refl, refl, refl), tt))

abbrev emptied : Sequencer ℕ
emptied = record waiting { floor_us = 6; heap = []; items = [] }

waiting_pops : pop_due 6 waiting ≡ (some (command 5, 100), emptied)
unfolding pop_due get remove
waiting_pops = refl

pop_due_lem_example : (5 ≤ 6) × IsPast (5, 0) emptied × IsQueued emptied
pop_due_lem_example = pop_due_lem 6 waiting emptied (command 5) 100 waiting-IsQueued waiting_pops
