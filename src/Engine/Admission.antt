-- ===== src/Engine/Admission.antt =====
-- The tests of `RunState::submit` of packages/bunting-engine/src/lib.rs, up to its first change of
-- the run.
pub mod Terms
use bunting.Prelude.{
  ℕ, Bool, true, false, ◌&&◌, ◌||◌, not, Option, none, some, if◌then◌else◌, leb, ◌==◌, length, ◌-◌,
  Result, ok, err, ◌>>=◌, ◌>>◌, reject_if, ok_or,
}
use bunting.Prelude.Int.{pos, leb_ℤ}
use bunting.Prelude.Ord.{nat_ord, pair_ord}
use bunting.Prelude.Map.{get, contains_key}
use bunting.Market.{
  PriceTicks, QuantityLots, Side, buy, sell, opposite, TimeInForcePolicy, gtc, ioc, fok, day, gtd,
  OrderKind, limit, market, limit_with_policy, SubmitOrder, RejectCode, invalid_order_id,
  duplicate_order_id, max_open_order_quantity, invalid_quantity, participant_disabled,
  invalid_time_in_force, market_closed, call_phase_order_type, insufficient_liquidity,
  post_only_would_cross,
}
use bunting.Book.{Book, best, would_cross}
use bunting.Book.Orders.{bad_display}
use bunting.Calendar.{SessionPhase, closed, pre_open, continuous, closing_call}
use bunting.Risk.{Admission, admit, admit_live_order_count}
use bunting.Engine.{
  Simulation, RunState, ListingKey, ListingState, ListingDefinition, ParticipantDefinition,
  fee_bound, live_order_count, session_phase, max_live_orders,
}

-- The limit, lifetime, post-only mark and displayed peak of an order kind.
pub record Policy : Type 0 where
  pub limit_at : Option PriceTicks
  pub time_in_force : TimeInForcePolicy
  pub post_only : Bool
  pub display : Option QuantityLots

unfoldable pub policy_of : OrderKind → Policy
policy_of (limit price) = record {
  limit_at = some price;
  time_in_force = gtc;
  post_only = false;
  display = none;
}
policy_of market = record {
  limit_at = none;
  time_in_force = ioc;
  post_only = false;
  display = none;
}
policy_of (limit_with_policy price tif post_only display) = record {
  limit_at = some price;
  time_in_force = tif;
  post_only = post_only;
  display = display;
}

abbrev pub present {ℓ} : {A : Type ℓ} → Option A → Bool
present none = false
present (some a) = true

unfoldable pub expiry_of : TimeInForcePolicy → ℕ → Result RejectCode (Option ℕ)
expiry_of (gtd expires_at) now =
    if leb expires_at now then err invalid_time_in_force else ok (some expires_at)
expiry_of gtc now = ok none
expiry_of ioc now = ok none
expiry_of fok now = ok none
expiry_of day now = ok none

abbrev pub is_immediate : TimeInForcePolicy → Bool
is_immediate ioc = true
is_immediate fok = true
is_immediate gtc = false
is_immediate day = false
is_immediate (gtd at) = false

-- Whether the venue only collects orders; a closed venue takes none.
unfoldable pub call_phase : SessionPhase → Result RejectCode Bool
call_phase closed = err market_closed
call_phase pre_open = ok true
call_phase closing_call = ok true
call_phase continuous = ok false

abbrev pub crosses_now : Book → Side → Option PriceTicks → Bool
crosses_now b s none = false
crosses_now b s (some price) = would_cross b s price

abbrev pub market_bound : ListingDefinition → Side → PriceTicks
market_bound definition buy = definition.price_bounds.high
market_bound definition sell = definition.price_bounds.low

-- What an order that passes all tests goes on with.
pub record Passed : Type 0 where
  pub policy : Policy
  pub expires_at : Option ℕ
  pub call : Bool
  pub admission : Admission

module _ {sim : Simulation} where
  -- The tests of the order on one listing, with the terms of its kind.
  unfoldable pub check_listing :
      RunState sim
      → SubmitOrder
      → ListingKey
      → ListingState
      → ParticipantDefinition
      → Policy
      → ℕ
      → Result RejectCode Passed
  unfolding expiry_of call_phase
  check_listing run order key listing participant policy now = do
    expires_at ← expiry_of policy.time_in_force now
    reject_if
        (bad_display policy.display order.quantity
          || (is_immediate policy.time_in_force && (policy.post_only || present policy.display)))
        invalid_time_in_force
    call ← call_phase (session_phase run key.0)
    reject_if (call && (not (present policy.limit_at) || is_immediate policy.time_in_force))
        call_phase_order_type
    reject_if
        (not (present policy.limit_at) && not (present (best listing.book (opposite order.side))))
        insufficient_liquidity
    reject_if (policy.post_only && not call && crosses_now listing.book order.side policy.limit_at)
        post_only_would_cross
    admission ←
        admit participant.limits participant.enabled order
          (record {
            price_bounds = listing.definition.price_bounds;
            fee_bound = fee_bound listing.definition.fees;
            tick_size = listing.definition.tick_size;
          })
          run.ledger
          (if present policy.limit_at
            then none
            else some (market_bound listing.definition order.side))
    (if is_immediate policy.time_in_force
        then ok tt
        else admit_live_order_count participant.limits (live_order_count run order.participant_id))
    ok (record { policy = policy; expires_at = expires_at; call = call; admission = admission })

  -- The listing is one of the run's: the callers have resolved it. The difference of the two
  -- counts is 0 where the source's subtraction would overflow, with more retired orders than orders.
  unfoldable pub check_submit :
      RunState sim → SubmitOrder → ListingKey → ListingState → ℕ → Result RejectCode Passed
  unfolding check_listing policy_of
  check_submit run order key listing now = do
    reject_if (order.order_id == 0) invalid_order_id
    reject_if (contains_key order.order_id run.ownership) duplicate_order_id
    reject_if (leb max_live_orders (length run.ownership - length run.retired))
        max_open_order_quantity
    reject_if (leb_ℤ order.quantity (pos 0)) invalid_quantity
    participant ← ok_or (get order.participant_id run.participants) participant_disabled
    check_listing run order key listing participant (policy_of order.kind) now
