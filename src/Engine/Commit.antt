-- ===== src/Engine/Commit.antt =====
-- The commit of a transition (packages/bunting-engine/src/lib.rs): commands, the envelope of their
-- events, and the bounded window of terminal orders.
pub mod Numbered
pub mod Retired
use bunting.Prelude.{
  ℕ, suc, zero, ◌+◌, ◌-◌, Bool, true, false, Option, none, some, List, [], ◌∷◌, ◌++◌, ◌≡◌,
  if◌then◌else◌, ltb, leb, ◌==◌, Result, ok, err, length,
}
use bunting.Prelude.Ord.{nat_ord, pair_ord}
use bunting.Prelude.Map.{Map, get}
use bunting.Prelude.Map
use bunting.Market.{SubmitOrder, RejectCode}
use bunting.Engine.{
  Simulation, RunState, Work, E, EngineError, sequence_overflow, simulation, ListingKey, OwnedOrder,
  EventPayload, order_completed, order_canceled, max_retired_orders, SimulationCommand, u64_limit,
}

pub data CommandPayload : Type 0 where
  submit_order : SubmitOrder → CommandPayload
  submit_order_at_listing : ListingKey → SubmitOrder → CommandPayload
  cancel_order : ℕ → ℕ → CommandPayload
  activate_kill_switch reset_kill_switch : CommandPayload

-- The parts of a command that go into its events.
pub record Metadata : Type 0 where
  pub run_id : ℕ
  pub command_id : ℕ
  pub correlation_id : ℕ
  pub logical_time : ℕ
  pub expected_sequence : ℕ
  pub actor : ℕ

pub record Command : Type 0 where
  pub metadata : Metadata
  pub payload : CommandPayload

pub record SimulationCommandRequest (R : Type 0) : Type 0 where
  pub metadata : Metadata
  pub payload : SimulationCommand R

pub record EventEnvelope (D : Type 0) : Type 0 where
  pub schema_version : ℕ
  pub run_id : ℕ
  pub event_id : ℕ
  pub sequence : ℕ
  pub logical_time : ℕ
  pub actor : ℕ
  pub command_id : ℕ
  pub correlation_id : ℕ
  pub causation_sequence : Option ℕ
  pub payload : EventPayload D

pub record Applied (D : Type 0) : Type 0 where
  pub events : List (EventEnvelope D)
  pub accepted : Bool
  pub reject_code : Option RejectCode
  pub order_id : Option ℕ
  pub changed_listings : Map ListingKey (Unit {0})

-- `unchanged` leaves the state as it was; after `poisoned` the state must be discarded.
pub data ApplyError : Type 0 where
  unchanged poisoned : EngineError → ApplyError

-- The event numbered `sequence`, which is also its identity.
abbrev pub event_of : {D : Type 0} → Metadata → ℕ → EventPayload D → EventEnvelope D
event_of command sequence payload = record {
  schema_version = 1;
  run_id = command.run_id;
  event_id = sequence;
  sequence = sequence;
  logical_time = command.logical_time;
  actor = command.actor;
  command_id = command.command_id;
  correlation_id = command.correlation_id;
  causation_sequence = none;
  payload = payload;
}

-- The payloads of a batch, numbered from the one after `current`.
unfoldable pub envelope :
    {D : Type 0}
    → Metadata
    → ℕ
    → List (EventPayload D)
    → Result EngineError (List (EventEnvelope D))
envelope command current [] = ok []
envelope command current (payload ∷ rest) =
    if ltb (suc current) u64_limit
    then (elim (envelope command (suc current) rest) [
      | err e ↦ err e
      | ok events ↦ ok (event_of command (suc current) payload ∷ events)
    ])
    else err sequence_overflow

unfoldable pub last_sequence : {D : Type 0} → ℕ → List (EventEnvelope D) → ℕ
last_sequence current [] = current
last_sequence current (event ∷ events) = last_sequence event.sequence events

-- One live order fewer; a participant with none has no entry.
unfoldable pub release_live : ℕ → Map ℕ ℕ → Map ℕ ℕ
release_live owner live = elim (get owner live) [
  | none ↦ live
  | some count ↦ if count - 1 == 0 then Map.remove owner live else Map.insert owner (count - 1) live
]

-- Forgets the oldest retired orders while the window is over its bound.
unfoldable pub trim : ℕ → List ℕ → Map ℕ OwnedOrder → List ℕ × Map ℕ OwnedOrder
trim bound [] ownership = ([], ownership)
trim bound (oldest ∷ retired) ownership =
    let trimmed = trim bound retired (Map.remove oldest ownership) in
    if ltb bound (suc (length retired)) then trimmed else (oldest ∷ retired, ownership)

module _ {sim : Simulation} where
  unfoldable pub drop_live : ℕ → RunState sim → RunState sim
  unfolding release_live
  drop_live order_id run = elim (get order_id run.ownership) [
    | none ↦ run
    | some owned ↦ record run { live_orders = release_live owned.participant_id run.live_orders }
  ]

  unfoldable pub retire : ℕ → RunState sim → RunState sim
  unfolding drop_live trim
  retire order_id run =
      let dropped = drop_live order_id run in
      let kept = trim max_retired_orders (dropped.retired ++ order_id ∷ []) dropped.ownership in
      record dropped { retired = kept.0; ownership = kept.1 }

  unfoldable pub retire_event : EventPayload sim.Event → RunState sim → RunState sim
  unfolding retire
  retire_event (order_completed order_id) run = retire order_id run
  retire_event (order_canceled order_id participant key quantity reason) run = retire order_id run
  retire_event _ run = run

  unfoldable pub project :
      ℕ → List (EventPayload sim.Event) → RunState sim → Result EngineError (RunState sim)
  unfolding retire_event
  project now [] run = ok run
  project now (payload ∷ rest) run = elim (sim.project_event now payload run.simulation) [
    | none ↦ err simulation
    | some state ↦ project now rest (retire_event payload (record run { simulation = state }))
  ]

  -- What a command reports besides its events.
  unfoldable pub finish :
      Metadata
      → ℕ
      → Bool
      → Option RejectCode
      → Option ℕ
      → Work sim
      → Result EngineError (Applied sim.Event × RunState sim)
  unfolding project envelope last_sequence
  finish command next_sequence accepted code order_id w =
      elim (project command.logical_time w.payloads w.run) [
        | err e ↦ err e
        | ok run ↦ elim (envelope command run.event_sequence w.payloads) [
          | err e ↦ err e
          | ok events ↦ ok (
            record {
              events = events;
              accepted = accepted;
              reject_code = code;
              order_id = order_id;
              changed_listings = w.changed;
            },
            record run {
              sequence = next_sequence;
              event_sequence = last_sequence run.event_sequence events;
            },
          )
        ]
      ]
