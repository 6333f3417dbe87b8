-- ===== src/Lib.antt =====
-- The core of the Bunting exchange simulator, modelled from its Rust sources.
--
-- A participant's command is delayed by a virtual path and queued until its release
-- (Sequencer) and applied to a run (Engine), which admits it by risk limits over the ledger (Risk),
-- opens it in the ledger (Ledger), and matches it on the book of its listing (Book) in continuous
-- trading or in a call auction, at the boundaries that the calendar gives (Calendar). Fills settle
-- in the ledger, and a committed command gives its events the run's next numbers.
--
-- Prelude      Boolean tests, results, signed integers with checked arithmetic (Int, Mul), key
--              orders (Ord), `BTreeMap` as a sorted list of entries (Map), strings (Names).
-- Market       packages/market-types/src/lib.rs and packages/market-events/src/lib.rs: numeric
--              newtypes, price bounds, sides, order kinds, rejection codes.
-- Book         packages/bunting-engine/src/book.rs: `Book` with `insert`, `remove`,
--              `take_priority`; Book/Orders has `rest`, `cancel`, `execute`, `uncross` and
--              `fill_resting`, Book/Views `executable`, `depth` and `orders`, Book/Record the
--              persisted form, Book/Auction `auction_price` and its test oracle. An operation
--              returns the book also where it fails. Book/Sound is the consistency of a book,
--              Book/Priority price-time priority, Book/Execute and Book/Uncross the
--              specifications over the orders alone, and their Refine modules the refinement.
-- Ledger       packages/ledger/src/lib.rs: `Ledger` and its accounts; Ledger/Orders has
--              `open_order` and `close_order`, Ledger/Fills `settle` and `apply_fill`,
--              Ledger/Values `convert` and the valuations. The source writes nothing before its
--              last check, so a failing operation returns its error and no ledger.
-- Risk         packages/risk-engine/src/lib.rs: `admit` and the limits.
-- Sequencer    packages/admission-sequencer/src/lib.rs: `DelayEstimator`, `Sequencer`;
--              Sequencer/Latency has `LatencyMap` and `LatencyModel`. The binary heap is the
--              ascending list of its pairs. Sequencer/Runs has sequences of calls.
-- Calendar     packages/bunting-engine/src/calendar.rs: sessions, trading days, boundaries.
-- Engine       packages/bunting-engine/src/lib.rs: `RunState` and its transition, as steps on a
--              run with the events so far. Engine/Admission (with Terms, what it
--              gives an order) and Engine/Submit have `submit`,
--              Engine/Orders `settle_fill` and `cancel`, Engine/Clock `expire_due` and
--              `auction`, Engine/Sessions `cross_boundary`, `settle_day` and `catch_up`,
--              Engine/Commit `envelope`, `retire` and `finish`, Engine/Transition `apply`,
--              Engine/Administer `apply_simulation`. Engine/Stays is what no step before the
--              commit changes, Engine/Balanced the money and lots that a command conserves,
--              Engine/Switched the kill switch, Engine/Expired the loop of expiries and the
--              orders that it closes, Engine/Commit/Retired the window of terminal orders,
--              Engine/Committed what a committed command leaves.
-- Tests        concrete books, ledgers, queues and runs.
--
-- The simulation domain (packages/bunting-engine/src/simulation.rs) is a record of its calls,
-- `Simulation`, that the engine takes as a parameter. An event of that domain which the engine makes
-- itself is a constructor of `EventPayload`. The instrument of an event is that of its listing key.
-- The parts of `RunState` that no operation reads, such as the scenario's identity, are left out.
-- Where the source indexes the listings by a key that its callers have looked up, an absent key is
-- the error of an unknown listing. `?` on a book's error gives the error of the source and no run.
--
-- Machine integers: i64 and i128 values are integers, with the range test of each checked
-- operation written out; u64 counters are natural numbers with their overflow test or
-- wrap-around. Sums in i128 of i64 totals are exact.
-- Loops: `execute` runs on the quantity plus one as fuel, since a round fills at least one lot,
-- and `uncross` on the number of orders plus one, since a round uses up an order; `diverge` is the
-- value for fuel that runs out. The sweep of `auction_price` runs on the number of levels.
-- `expire_due` runs on the number of expiries plus two, since a round takes an entry away or is
-- followed by one that fails. `catch_up` runs on the number of boundaries of the calendar plus one,
-- since a round passes one; that it then never runs out is not proved. `diverged` is the error for
-- fuel that runs out.
--
-- Not modelled: the building of a run from a scenario, its snapshot and its checks, `next_due`; the
-- rules of the simulation domain; storage, hosting, wire protocols, clients, programs and bindings;
-- serialisation.
pub mod Prelude
pub mod Market
pub mod Book
pub mod Ledger
pub mod Sequencer
pub mod Calendar
pub mod Risk
pub mod Engine
pub mod Tests
