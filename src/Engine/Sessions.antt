-- ===== src/Engine/Sessions.antt =====
-- Session boundaries and the end of the trading day (packages/bunting-engine/src/lib.rs).
use bunting.Prelude.{
  ℕ, suc, zero, ◌+◌, ◌*◌, Bool, not, Option, none, some, List, [], ◌∷◌, ◌++◌, if◌then◌else◌, ltb,
  ◌==◌, Result, ok, err, length, map, all,
}
use bunting.Prelude.Ord.{nat_ord, pair_ord, pair_lt}
use bunting.Prelude.Map.{Map, get, keys}
use bunting.Prelude.Map
use bunting.Prelude.Names.{sort}
use bunting.Market.{PriceTicks, MoneyMinor}
use bunting.Ledger.{Ledger, mark_of, set_mark}
use bunting.Ledger.Values.{reporting_value}
use bunting.Calendar.{Calendar, Boundary, boundary}
use bunting.Engine.{
  Simulation, RunState, E, ◌>>=◌, ◌>>◌, ask, done, need, refuse_if, u64_limit, change, emit,
  with_ledger, EngineError, accounting, sequence_overflow, diverged, simulation, ListingKey,
  ListingState, ListingDefinition, domain, session_phase_changed, day_closed, day_settled,
  session_phase, EventPayload,
}
use bunting.Engine.Clock.{
  is_closed, after_auction, ranks_before, same_rank, ranked, first_price, keys_of_venue, day_orders,
  auction_all, expire_each, expire_due,
}

-- The listings of an instrument, and the one whose close is the day-end mark.
unfoldable pub listings_of : ℕ → Map ListingKey ListingState → List ListingDefinition
listings_of instrument [] = []
listings_of instrument ((key, listing) ∷ rest) =
    let more = listings_of instrument rest in
    if listing.definition.listing_key.1 == instrument then listing.definition ∷ more else more

unfoldable pub flagged : List ListingDefinition → Option ListingKey
flagged [] = none
flagged (d ∷ rest) = if d.primary then some d.listing_key else flagged rest

abbrev pub primary_of : List ListingDefinition → Option ListingKey
primary_of (only ∷ []) = some only.listing_key
primary_of [] = none
primary_of (a ∷ b ∷ rest) = flagged (a ∷ b ∷ rest)

abbrev pub close_of : Option ListingKey → Map ListingKey PriceTicks → Option PriceTicks
close_of none closes = none
close_of (some key) closes = get key closes

abbrev pub earlier : ℕ × ℕ × Boundary → Option (ℕ × ℕ × Boundary) → Option (ℕ × ℕ × Boundary)
earlier (venue, step, b) none = some (venue, step, b)
earlier (venue, step, b) (some (venue', step', b')) =
    if pair_lt (b'.time, venue') (b.time, venue)
    then some (venue', step', b')
    else some (venue, step, b)

-- The earliest boundary that a venue has yet to pass.
unfoldable pub next_of : Calendar → Map ℕ ℕ → Option (ℕ × ℕ × Boundary)
next_of c [] = none
next_of c ((venue, step) ∷ rest) =
    let later = next_of c rest in
    elim (boundary c venue step) [ none ↦ later | some b ↦ earlier (venue, step, b) later ]

module _ {sim : Simulation} where
  -- One listing's official close: its last trade of the day, else its previous close, else the
  -- instrument's mark.
  abbrev pub official_price : ListingKey → RunState sim → Option PriceTicks
  official_price key run =
      first_price (get key run.day_trades)
        (first_price (get key run.closes) (mark_of run.ledger key.1))

  unfoldable pub close_listing : ListingKey → RunState sim → RunState sim
  close_listing key run = elim (official_price key run) [
    | none ↦ record run { day_trades = Map.remove key run.day_trades }
    | some price ↦ record run {
      day_trades = Map.remove key run.day_trades;
      closes = Map.insert key price run.closes;
    }
  ]

  unfoldable pub close_listings :
      List ListingKey → RunState sim → List (ListingKey × PriceTicks) × RunState sim
  unfolding close_listing
  close_listings [] run = ([], run)
  close_listings (key ∷ rest) run =
      let later = close_listings rest (close_listing key run) in
      elim (official_price key run) [
        | none ↦ later
        | some price ↦ ((key, price) ∷ later.0, later.1)
      ]

  unfoldable pub close_day : ℕ → E sim (List (ListingKey × PriceTicks))
  unfolding close_listings keys_of_venue
  close_day venue w =
      let x = close_listings (keys_of_venue venue (keys w.run.listings)) w.run in
      ok (x.0, record w { run = x.1 })

  -- One instrument's mark, if it has a close, before those of the others.
  unfoldable pub mark_one :
      ℕ → Option PriceTicks → E sim (List (ℕ × PriceTicks)) → E sim (List (ℕ × PriceTicks))
  mark_one instrument none others = others
  mark_one instrument (some price) others = do
    with_ledger (set_mark instrument price)
    marks ← others
    done ((instrument, price) ∷ marks)

  unfoldable pub mark_instruments : List ℕ → E sim (List (ℕ × PriceTicks))
  unfolding listings_of flagged mark_one
  mark_instruments [] = done []
  mark_instruments (instrument ∷ rest) = do
    run ← ask
    mark_one instrument (close_of (primary_of (listings_of instrument run.listings)) run.closes)
        (mark_instruments rest)

  unfoldable pub day_values : RunState sim → List ℕ → Result EngineError (List (ℕ × MoneyMinor))
  day_values run [] = ok []
  day_values run (participant ∷ rest) =
      elim (reporting_value run.ledger participant run.reporting_currency run.fx_rates) [
        | err e ↦ err accounting
        | ok value ↦ elim (day_values run rest) [
          | err e ↦ err e
          | ok values ↦ ok ((participant, value) ∷ values)
        ]
      ]

  abbrev pub day_scores : E sim (List (ℕ × MoneyMinor))
  day_scores w = elim (day_values w.run (keys w.run.participants)) [
    | err e ↦ err e
    | ok xs ↦ ok (xs, w)
  ]

  unfoldable pub settle_day : ℕ → E sim (EventPayload sim.Event)
  unfolding mark_instruments day_values sort ranked
  settle_day day = do
    run ← ask
    marks ← mark_instruments (keys run.instruments)
    values ← day_scores
    scores ← need (ranked 1 (sort ranks_before same_rank values)) sequence_overflow
    done (day_settled day marks scores)

  unfoldable pub next_boundary : RunState sim → Option (ℕ × ℕ × Boundary)
  unfolding next_of
  next_boundary run = elim run.calendar [ none ↦ none | some c ↦ next_of c run.session_steps ]

  abbrev pub all_closed : RunState sim → Bool
  all_closed run = all (λ venue. is_closed (session_phase run venue)) (keys run.session_steps)

  unfoldable pub end_day : ℕ → Boundary → E sim (Unit {0})
  unfolding close_day settle_day
  end_day venue b = do
    closes ← close_day venue
    emit (day_closed venue b.day closes)
    run ← ask
    if all_closed run then announce else done tt
    where
      announce : E sim (Unit {0})
      announce = do payload ← settle_day b.day; emit payload

  abbrev pub step_venue : ℕ → ℕ → RunState sim → RunState sim
  step_venue venue step run = record run { session_steps = Map.insert venue step run.session_steps }

  unfoldable pub cross_boundary : ℕ → ℕ → Boundary → E sim (Unit {0})
  unfolding end_day day_orders
  cross_boundary venue step b = do
    refuse_if (not (ltb (step + 1) u64_limit)) sequence_overflow
    change (step_venue venue (step + 1))
    run ← ask
    if after_auction b.phase then auction_all (keys_of_venue venue (keys run.listings)) else done tt
    crossed ← ask
    if is_closed b.phase then expire_each (day_orders venue crossed.ownership) else done tt
    emit (session_phase_changed venue b.day b.phase)
    if is_closed b.phase then end_day venue b else done tt

  -- The `while let` of `catch_up`, on the number of boundaries that the calendar has.
  unfoldable pub boundary_loop : ℕ → ℕ → E sim (Unit {0})
  unfolding cross_boundary next_boundary
  boundary_loop zero to w = err diverged
  boundary_loop (suc fuel) to w = elim (next_boundary w.run) [
    | none ↦ ok (tt, w)
    | some (venue, step, b) ↦ if ltb to b.time then ok (tt, w) else (elim (expire_due b.time w) [
      | err e ↦ err e
      | ok x ↦ elim (cross_boundary venue step b x.1) [
        | err e ↦ err e
        | ok y ↦ boundary_loop fuel to y.1
      ]
    ])
  ]

  abbrev pub boundaries : RunState sim → ℕ
  boundaries run = elim run.calendar [ none ↦ 0 | some c ↦ 4 * c.days * length run.session_steps ]

  -- The outcome of a call of the simulation domain, which may have changed the ledger.
  unfoldable pub domain_step : Option (List sim.Event × Ledger × sim.State) → E sim (Unit {0})
  domain_step none w = err simulation
  domain_step (some (events, l, state)) w = ok (
    tt,
    record w {
      run = record w.run { ledger = l; simulation = state };
      payloads = w.payloads ++ map (λ e. domain e) events;
    },
  )

  unfoldable pub catch_up : ℕ → Bool → E sim (Unit {0})
  unfolding boundary_loop domain_step
  catch_up to sweep = do
    run ← ask
    domain_step (sim.catch_up to sweep run.ledger run.simulation)
    caught ← ask
    boundary_loop (suc (boundaries caught)) to
    expire_due to
