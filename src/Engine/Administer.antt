-- ===== src/Engine/Administer.antt =====
-- `RunState::apply_simulation` (packages/bunting-engine/src/lib.rs): clock ticks, mass cancels and the
-- requests of the simulation domain.
use bunting.Prelude.{
  ℕ, Bool, true, false, ◌&&◌, ◌||◌, not, Option, none, List, [], ◌∷◌, if◌then◌else◌, ltb, Result,
  ok, err, map,
}
use bunting.Prelude.Ord.{nat_ord, pair_ord}
use bunting.Prelude.Map.{values}
use bunting.Engine.{
  Simulation, RunState, Work, E, ◌>>=◌, ◌>>◌, ask, done, emit, EngineError, simulation, ListingKey,
  OwnedOrder, is_active, mass_cancel, domain, SimulationCommand, clock_tick, request, CancelReason,
}
use bunting.Engine
use bunting.Engine.Orders.{cancel_all}
use bunting.Engine.Clock.{expire_due}
use bunting.Engine.Sessions.{catch_up, domain_step}
use bunting.Engine.Commit.{SimulationCommandRequest, Applied, ApplyError, unchanged, finish}
use bunting.Engine.Transition.{is_for, classify, preflight, started}

abbrev pub is_tick : {R : Type 0} → SimulationCommand R → Bool
is_tick clock_tick = true
is_tick (Engine.SimulationCommand.mass_cancel participant instrument) = false
is_tick (request r) = false

abbrev pub is_mass_cancel : {R : Type 0} → SimulationCommand R → Bool
is_mass_cancel clock_tick = false
is_mass_cancel (Engine.SimulationCommand.mass_cancel participant instrument) = true
is_mass_cancel (request r) = false

abbrev pub selected_by : Option ℕ → Option ℕ → OwnedOrder → Bool
selected_by participant instrument owned =
    is_for participant owned.participant_id && is_for instrument owned.listing_key.1

-- The live orders that a mass cancel selects.
unfoldable pub live_owned : (OwnedOrder → Bool) → List OwnedOrder → List (ℕ × ListingKey)
live_owned selects [] = []
live_owned selects (owned ∷ rest) =
    let more = live_owned selects rest in
    if is_active owned.state && selects owned
    then (owned.order_id, owned.listing_key) ∷ more
    else more

module _ {sim : Simulation} where
  unfoldable pub mass_cancel_live : Option ℕ → Option ℕ → E sim (Unit {0})
  unfolding live_owned cancel_all
  mass_cancel_live participant instrument = do
    run ← ask
    let live = live_owned (selected_by participant instrument) (values run.ownership)
    cancel_all Engine.CancelReason.mass_cancel live
    emit (domain (sim.mass_cancel_completed (map (λ e. e.0) live)))

  unfoldable pub apply_domain : ℕ → ℕ → SimulationCommand sim.Request → E sim (Unit {0})
  unfolding domain_step
  apply_domain actor now payload = do
    run ← ask
    domain_step (
        sim.apply run.participants run.reporting_currency run.fx_rates actor now payload run.ledger
          run.simulation)

  unfoldable pub administer : ℕ → ℕ → SimulationCommand sim.Request → E sim (Unit {0})
  unfolding mass_cancel_live apply_domain expire_due
  administer actor now (Engine.SimulationCommand.mass_cancel participant instrument) =
      mass_cancel_live participant instrument
  administer actor now clock_tick = do
    apply_domain actor now clock_tick
    run ← ask
    expire_due (sim.now run.simulation)
  administer actor now (request r) = do
    apply_domain actor now (request r)
    run ← ask
    expire_due (sim.now run.simulation)

  abbrev pub tick_event : Bool → ℕ → E sim (Unit {0})
  tick_event tick to = do
    run ← ask
    if tick && ltb (sim.now run.simulation) to
        then emit (domain (sim.clock_advanced (sim.now run.simulation) to))
        else done tt

  unfoldable pub stage_request : SimulationCommandRequest sim.Request → E sim (Unit {0})
  unfolding administer catch_up
  stage_request command = do
    tick_event (is_tick command.payload) command.metadata.logical_time
    catch_up command.metadata.logical_time (is_tick command.payload)
    administer command.metadata.actor command.metadata.logical_time command.payload

  unfoldable pub apply_simulation_validated :
      SimulationCommandRequest sim.Request
      → ℕ
      → RunState sim
      → Result EngineError (Applied sim.Event × RunState sim)
  unfolding stage_request finish
  apply_simulation_validated command next_sequence run =
      elim (stage_request command (started run)) [
        | err e ↦ err e
        | ok x ↦ finish command.metadata next_sequence true none none x.1
      ]

  -- Requests that the domain can refuse part-way are staged on a copy.
  unfoldable pub apply_simulation :
      SimulationCommandRequest sim.Request
      → RunState sim
      → Result ApplyError (Applied sim.Event × RunState sim)
  unfolding preflight apply_simulation_validated
  apply_simulation command run =
      let now = command.metadata.logical_time in
      elim (preflight run command.metadata.run_id command.metadata.expected_sequence) [
        | err e ↦ err (unchanged e)
        | ok next_sequence ↦
            if ltb now (sim.now run.simulation)
            then err (unchanged simulation)
            else if is_tick command.payload && not (sim.is_running run.simulation)
            then err (unchanged simulation)
            else classify
                (not (
                  (is_tick command.payload || is_mass_cancel command.payload)
                  && not (sim.has_due_actions run.simulation now)))
                (apply_simulation_validated command next_sequence run)
      ]
