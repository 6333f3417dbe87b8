-- ===== src/Engine.antt =====
-- packages/bunting-engine/src/lib.rs: the state of a run, which composes the books of its listings,
-- the ledger and the risk limits. A failing operation returns its error and no state: its callers
-- discard the state or work on a copy.
pub mod Admission
pub mod Orders
pub mod Submit
pub mod Clock
pub mod Sessions
pub mod Commit
pub mod Transition
pub mod Administer
pub mod Canceled
pub mod Expired
pub mod Switched
pub mod Stays
pub mod Committed
pub mod Balanced
use bunting.Prelude.{
  ℕ, Bool, true, false, Option, none, some, List, [], ◌∷◌, ◌++◌, ◌≡◌, if◌then◌else◌, Result, ok,
  err, max,
}
use bunting.Prelude.Int.{ℤ, pos, leb_ℤ, ltb_ℤ, i128, checked_mul}
use bunting.Prelude.Ord.{nat_ord, pair_ord}
use bunting.Prelude.Map.{Map}
use bunting.Prelude.Map
use bunting.Market.{
  PriceTicks, QuantityLots, MoneyMinor, PriceBounds, Side, SubmitOrder, RejectCode,
}
use bunting.Book.{Book}
use bunting.Book
use bunting.Ledger.{Ledger, LedgerError, Reservation, FxRate, InstrumentTerms}
use bunting.Risk.{RiskLimits}
use bunting.Calendar.{Calendar, SessionPhase, continuous, phase_after}

pub data EngineError : Type 0 where
  invalid_scenario unknown_listing ambiguous_listing : EngineError
  sequence_conflict : ℕ → EngineError
  sequence_overflow ownership_invariant accounting simulation snapshot diverged : EngineError

pub record FeeSchedule : Type 0 where
  pub taker_per_lot : MoneyMinor
  pub maker_per_lot : MoneyMinor

abbrev pub max_ℤ : ℤ → ℤ → ℤ
max_ℤ a b = if leb_ℤ b a then a else b

unfoldable pub fee_bound : FeeSchedule → MoneyMinor
fee_bound fees = max_ℤ (max_ℤ fees.taker_per_lot fees.maker_per_lot) (pos 0)

-- A listing is known by its venue and its instrument.
abbrev pub ListingKey : Type 0
ListingKey = ℕ × ℕ

pub record ListingDefinition : Type 0 where
  pub listing_key : ListingKey
  pub price_bounds : PriceBounds
  pub fees : FeeSchedule
  pub primary : Bool
  pub tick_size : ℤ

pub record ParticipantDefinition : Type 0 where
  pub enabled : Bool
  pub limits : RiskLimits

pub data OwnedOrderState : Type 0 where
  active filled canceled : OwnedOrderState

abbrev pub is_active : OwnedOrderState → Bool
is_active active = true
is_active filled = false
is_active canceled = false

pub record OwnedOrder : Type 0 where
  pub order_id : ℕ
  pub participant_id : ℕ
  pub listing_key : ListingKey
  pub side : Side
  pub limit_price : PriceTicks
  pub original_quantity : QuantityLots
  pub remaining_quantity : QuantityLots
  pub state : OwnedOrderState
  pub reservation : Reservation
  pub expires_at : Option ℕ
  pub day : Bool
  pub anonymous : Bool

pub record ListingState : Type 0 where
  pub definition : ListingDefinition
  pub book : Book

pub data CancelReason : Type 0 where
  requested kill_switch market_remainder mass_cancel expired halt : CancelReason

-- The events that the operations below emit. An event of the simulation domain is of a type that
-- the domain gives.
pub data EventPayload (D : Type 0) : Type 0 where
  order_received : SubmitOrder → ListingKey → EventPayload D
  order_accepted : ℕ → EventPayload D
  order_rejected : ℕ → RejectCode → EventPayload D
  order_rested : ℕ → ℕ → ListingKey → Side → PriceTicks → QuantityLots → EventPayload D
  order_reduced : ℕ → QuantityLots → EventPayload D
  order_completed : ℕ → EventPayload D
  order_canceled : ℕ → ℕ → ListingKey → QuantityLots → CancelReason → EventPayload D
  trade_executed :
      ListingKey
      → ℕ
      → ℕ
      → ℕ
      → ℕ
      → PriceTicks
      → QuantityLots
      → MoneyMinor
      → MoneyMinor
      → EventPayload D
  kill_switch_activated kill_switch_reset : EventPayload D
  session_phase_changed : ℕ → ℕ → SessionPhase → EventPayload D
  auction_uncrossed : ListingKey → PriceTicks → QuantityLots → EventPayload D
  day_closed : ℕ → ℕ → List (ListingKey × PriceTicks) → EventPayload D
  day_settled : ℕ → List (ℕ × PriceTicks) → List (ℕ × MoneyMinor × ℕ) → EventPayload D
  domain : D → EventPayload D

-- The commands of the simulation domain, of which the engine tells two apart.
pub data SimulationCommand (R : Type 0) : Type 0 where
  clock_tick : SimulationCommand R
  mass_cancel : Option ℕ → Option ℕ → SimulationCommand R
  request : R → SimulationCommand R

-- What the engine uses of the simulation domain (packages/bunting-engine/src/simulation.rs). The
-- functions that return an `Option` have no result where the source returns an error.
pub record Simulation : Type 1 where
  pub State : Type 0
  pub Event : Type 0
  pub now : State → ℕ
  pub is_running : State → Bool
  pub is_halted : State → ℕ → Bool
  pub has_due_actions : State → ℕ → Bool
  pub catch_up : ℕ → Bool → Ledger → State → Option (List Event × Ledger × State)
  pub project_event : ℕ → EventPayload Event → State → Option State
  pub Request : Type 0
  pub apply :
      Map ℕ ParticipantDefinition
      → ℕ
      → List FxRate
      → ℕ
      → ℕ
      → SimulationCommand Request
      → Ledger
      → State
      → Option (List Event × Ledger × State)
  pub clock_advanced : ℕ → ℕ → Event
  pub mass_cancel_completed : List ℕ → Event

pub record RunState (sim : Simulation) : Type 0 where
  pub run_id : ℕ
  pub sequence : ℕ
  pub event_sequence : ℕ
  pub reporting_currency : ℕ
  pub fx_rates : List FxRate
  pub instruments : Map ℕ InstrumentTerms
  pub listings : Map ListingKey ListingState
  pub participants : Map ℕ ParticipantDefinition
  pub ledger : Ledger
  pub ownership : Map ℕ OwnedOrder
  pub retired : List ℕ
  pub expiries : Map (ℕ × ℕ) (Unit {0})
  pub live_orders : Map ℕ ℕ
  pub kill_switched : Map ℕ (Unit {0})
  pub simulation : sim.State
  pub calendar : Option Calendar
  pub session_steps : Map ℕ ℕ
  pub day_trades : Map ListingKey PriceTicks
  pub closes : Map ListingKey PriceTicks

-- A run in the middle of a transition, with the events and the changed listings so far.
pub record Work (sim : Simulation) : Type 0 where
  pub run : RunState sim
  pub payloads : List (EventPayload sim.Event)
  pub changed : Map ListingKey (Unit {0})

abbrev pub E : Simulation → Type 0 → Type 0
E sim A = Work sim → Result EngineError (A × Work sim)

infixl 5 ◌>>=◌ ◌>>◌
abbrev pub ◌>>=◌ : {sim : Simulation} {A B : Type 0} → E sim A → (A → E sim B) → E sim B
◌>>=◌ m f w = elim (m w) [ ok x ↦ f x.0 x.1 | err e ↦ err e ]

abbrev pub ◌>>◌ : {sim : Simulation} {B : Type 0} → E sim (Unit {0}) → E sim B → E sim B
m >> k = m >>= λ _. k

abbrev pub done : {sim : Simulation} {A : Type 0} → A → E sim A
done a w = ok (a, w)

-- The run as it stands.
abbrev pub ask : {sim : Simulation} → E sim (RunState sim)
ask w = ok (w.run, w)

-- `ok_or(e)?`.
abbrev pub need : {sim : Simulation} {A : Type 0} → Option A → EngineError → E sim A
need none e w = err e
need (some a) e w = ok (a, w)

abbrev pub refuse_if : {sim : Simulation} → Bool → EngineError → E sim (Unit {0})
refuse_if true e w = err e
refuse_if false e w = ok (tt, w)

-- A change of the run that cannot fail.
abbrev pub change : {sim : Simulation} → (RunState sim → RunState sim) → E sim (Unit {0})
change f w = ok (tt, record w { run = f w.run })

abbrev pub emit : {sim : Simulation} → EventPayload sim.Event → E sim (Unit {0})
emit payload w = ok (tt, record w { payloads = w.payloads ++ payload ∷ [] })

abbrev pub touch : {sim : Simulation} → ListingKey → E sim (Unit {0})
touch key w = ok (tt, record w { changed = Map.insert key tt w.changed })

-- `?` on a call of the ledger, whose errors become one.
unfoldable pub with_ledger :
    {sim : Simulation} → (Ledger → Result LedgerError Ledger) → E sim (Unit {0})
with_ledger f w = elim (f w.run.ledger) [
  | ok l ↦ ok (tt, record w { run = record w.run { ledger = l } })
  | err e ↦ err accounting
]

abbrev pub put_book : {sim : Simulation} → ListingKey → ListingState → Book → Work sim → Work sim
put_book key listing book w = record w {
  run = record w.run { listings = Map.insert key (record listing { book = book }) w.run.listings };
}

-- A call of one listing's book, whose errors break the ownership invariant.
unfoldable pub with_book : {sim : Simulation} {A : Type 0} → ListingKey → Book.M A → E sim A
with_book key m w = elim (Map.get key w.run.listings) [
  | none ↦ err unknown_listing
  | some listing ↦ elim (m listing.book) [
    | Book.done a book ↦ ok (a, put_book key listing book w)
    | Book.fail e book ↦ err ownership_invariant
    | Book.diverge ↦ err diverged
  ]
]

unfoldable pub live_order_count : {sim : Simulation} → RunState sim → ℕ → ℕ
live_order_count run participant = elim (Map.get participant run.live_orders) [
  | none ↦ 0
  | some n ↦ n
]

unfoldable pub session_phase : {sim : Simulation} → RunState sim → ℕ → SessionPhase
session_phase run venue = elim run.calendar [
  | none ↦ continuous
  | some c ↦ phase_after (elim (Map.get venue run.session_steps) [ none ↦ 0 | some n ↦ n ])
]

abbrev pub max_live_orders : ℕ
max_live_orders = 250000

abbrev pub max_retired_orders : ℕ
max_retired_orders = 65536

abbrev pub u32_limit : ℕ
u32_limit = 4294967296

abbrev pub u64_limit : ℕ
u64_limit = 18446744073709551616
