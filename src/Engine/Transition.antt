-- ===== src/Engine/Transition.antt =====
-- `RunState::apply` and `apply_simulation` (packages/bunting-engine/src/lib.rs): one command as one
-- transition of the run.
use bunting.Prelude.{
  ℕ, ◌+◌, Bool, true, false, ◌&&◌, ◌||◌, not, Option, none, some, List, [], ◌∷◌, if◌then◌else◌, ltb,
  ◌==◌, Result, ok, err,
}
use bunting.Prelude.Ord.{nat_ord, pair_ord}
use bunting.Prelude.Map.{Map, get, contains_key, keys}
use bunting.Prelude.Map
use bunting.Market.{
  SubmitOrder, RejectCode, run_not_active, kill_switch_active, listing_halted, unknown_order,
  not_order_owner,
}
use bunting.Engine.{
  Simulation, RunState, Work, E, ◌>>=◌, ◌>>◌, ask, done, need, change, emit, touch, EngineError,
  unknown_listing, ambiguous_listing, sequence_conflict, sequence_overflow, simulation, ListingKey,
  OwnedOrder, is_active, requested, kill_switch, order_received, order_rejected,
  kill_switch_activated, kill_switch_reset, u64_limit,
}
use bunting.Engine.Orders.{cancel, cancel_all}
use bunting.Engine.Submit.{submit}
use bunting.Engine.Sessions.{catch_up}
use bunting.Engine.Commit.{
  CommandPayload, submit_order, submit_order_at_listing, cancel_order, reset_kill_switch, Metadata,
  Command, SimulationCommandRequest, Applied, ApplyError, unchanged, poisoned, finish,
}
use bunting.Engine.Commit

unfoldable pub keys_for_instrument : ℕ → List ListingKey → List ListingKey
keys_for_instrument instrument [] = []
keys_for_instrument instrument (key ∷ rest) =
    let more = keys_for_instrument instrument rest in
    if key.1 == instrument then key ∷ more else more

-- The only listing of an instrument.
abbrev pub sole : List ListingKey → Result EngineError ListingKey
sole [] = err unknown_listing
sole (key ∷ []) = ok key
sole (key ∷ key' ∷ rest) = err ambiguous_listing

-- The live orders that a kill switch selects.
unfoldable pub live_where : (OwnedOrder → Bool) → Map ℕ OwnedOrder → List (ℕ × ListingKey)
live_where selects [] = []
live_where selects ((order_id, owned) ∷ rest) =
    let more = live_where selects rest in
    if selects owned && is_active owned.state then (order_id, owned.listing_key) ∷ more else more

abbrev pub is_for : Option ℕ → ℕ → Bool
is_for none n = true
is_for (some m) n = n == m

-- What a command comes to: the rejection, if any, and the order it names.
abbrev pub Verdict : Type 0
Verdict = Option RejectCode × Option ℕ

abbrev pub accepts : Option RejectCode → Bool
accepts none = true
accepts (some code) = false

-- Whether an error leaves the run as it was: a command with due scheduled actions is staged on a
-- copy.
abbrev pub classify : {A : Type 0} → Bool → Result EngineError A → Result ApplyError A
classify copied (ok a) = ok a
classify true (err e) = err (unchanged e)
classify false (err e) = err (poisoned e)

module _ {sim : Simulation} where
  unfoldable pub listing_key_for_instrument : RunState sim → ℕ → Result EngineError ListingKey
  unfolding keys_for_instrument
  listing_key_for_instrument run instrument =
      sole (keys_for_instrument instrument (keys run.listings))

  unfoldable pub preflight : RunState sim → ℕ → ℕ → Result EngineError ℕ
  preflight run run_id expected_sequence =
      if not (run.run_id == run_id) || not (run.sequence == expected_sequence)
      then err (sequence_conflict run.sequence)
      else if ltb (run.sequence + 1) u64_limit
      then ok (run.sequence + 1)
      else err sequence_overflow

  unfoldable pub resolve : RunState sim → CommandPayload → Result EngineError (Option ListingKey)
  unfolding listing_key_for_instrument
  resolve run (submit_order_at_listing key order) =
      if not (key.1 == order.instrument_id) || not (contains_key key run.listings)
      then err unknown_listing
      else ok (some key)
  resolve run (submit_order order) = elim (listing_key_for_instrument run order.instrument_id) [
    | err e ↦ err e
    | ok key ↦ ok (some key)
  ]
  resolve run (cancel_order order_id participant) = ok none
  resolve run Commit.activate_kill_switch = ok none
  resolve run reset_kill_switch = ok none

  -- Why a run takes no order now.
  unfoldable pub gate : RunState sim → SubmitOrder → Option RejectCode
  gate run order =
      if not (sim.is_running run.simulation)
      then some run_not_active
      else if contains_key order.participant_id run.kill_switched
      then some kill_switch_active
      else if sim.is_halted run.simulation order.instrument_id
      then some listing_halted
      else none

  -- An order's or a cancel's result, with the event of a rejection.
  abbrev pub judge : ℕ → Result RejectCode (Unit {0}) → E sim Verdict
  judge order_id (ok x) = done (none, some order_id)
  judge order_id (err code) = do
    emit (order_rejected order_id code)
    done (some code, some order_id)

  unfoldable pub gated_submit :
      SubmitOrder → ListingKey → ℕ → Option RejectCode → E sim (Result RejectCode (Unit {0}))
  unfolding submit
  gated_submit order key now (some code) = done (err code)
  gated_submit order key now none = do touch key; submit order key now

  unfoldable pub take_submit : SubmitOrder → Option ListingKey → ℕ → E sim Verdict
  unfolding gate gated_submit
  take_submit order found now = do
    key ← need found unknown_listing
    emit (order_received order key)
    run ← ask
    outcome ← gated_submit order key now (gate run order)
    judge order.order_id outcome

  -- A cancel of the order that the identity names, if it names one.
  unfoldable pub cancel_found : ℕ → ℕ → Option OwnedOrder → E sim (Result RejectCode (Unit {0}))
  unfolding cancel
  cancel_found order_id participant none = done (err unknown_order)
  cancel_found order_id participant (some owned) =
      if not (owned.participant_id == participant)
      then done (err not_order_owner)
      else if not (is_active owned.state)
      then done (err unknown_order)
      else (do touch owned.listing_key; cancel order_id requested; done (ok tt))

  unfoldable pub cancel_of : ℕ → ℕ → E sim (Result RejectCode (Unit {0}))
  unfolding cancel_found
  cancel_of order_id participant = do
    run ← ask
    cancel_found order_id participant (get order_id run.ownership)

  abbrev pub switch_on : ℕ → RunState sim → RunState sim
  switch_on participant run = record run {
    kill_switched = Map.insert participant tt run.kill_switched;
  }

  abbrev pub switch_off : ℕ → RunState sim → RunState sim
  switch_off participant run = record run {
    kill_switched = Map.remove participant run.kill_switched;
  }

  unfoldable pub activate_kill_switch : ℕ → E sim (Unit {0})
  unfolding cancel_all live_where
  activate_kill_switch participant = do
    run ← ask
    change (switch_on participant)
    emit kill_switch_activated
    cancel_all kill_switch (live_where (λ owned. owned.participant_id == participant) run.ownership)

  unfoldable pub act : Command → Option ListingKey → CommandPayload → E sim Verdict
  unfolding take_submit cancel_of activate_kill_switch
  act command key (submit_order order) = take_submit order key command.metadata.logical_time
  act command key (submit_order_at_listing k order) =
      take_submit order key command.metadata.logical_time
  act command key (cancel_order order_id participant) = do
    outcome ← cancel_of order_id participant
    judge order_id outcome
  act command key Commit.activate_kill_switch = do
    activate_kill_switch command.metadata.actor
    done (none, none)
  act command key reset_kill_switch = do
    change (switch_off command.metadata.actor)
    emit kill_switch_reset
    done (none, none)

  abbrev pub started : RunState sim → Work sim
  started run = record { run = run; payloads = []; changed = [] }

  unfoldable pub stage : Command → Option ListingKey → E sim Verdict
  unfolding act catch_up
  stage command key = do
    catch_up command.metadata.logical_time false
    act command key command.payload

  unfoldable pub apply_validated :
      Command
      → ℕ
      → Option ListingKey
      → RunState sim
      → Result EngineError (Applied sim.Event × RunState sim)
  unfolding stage finish
  apply_validated command next_sequence key run = elim (stage command key (started run)) [
    | err e ↦ err e
    | ok ((code, order_id), w) ↦
        finish command.metadata next_sequence (accepts code) code order_id w
  ]

  unfoldable pub apply :
      Command → RunState sim → Result ApplyError (Applied sim.Event × RunState sim)
  unfolding preflight resolve apply_validated
  apply command run =
      elim (preflight run command.metadata.run_id command.metadata.expected_sequence) [
        | err e ↦ err (unchanged e)
        | ok next_sequence ↦ elim (resolve run command.payload) [
          | err e ↦ err (unchanged e)
          | ok key ↦
              if ltb command.metadata.logical_time (sim.now run.simulation)
              then err (unchanged simulation)
              else classify (sim.has_due_actions run.simulation command.metadata.logical_time)
                  (apply_validated command next_sequence key run)
        ]
      ]
