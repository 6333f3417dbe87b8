-- ===== src/Engine/Submit.antt =====
-- `RunState::submit` of packages/bunting-engine/src/lib.rs: admission, matching, and what becomes of
-- the remainder.
use bunting.Prelude.{
  ℕ, ◌+◌, Bool, true, false, ◌&&◌, ◌||◌, not, Option, none, some, if◌then◌else◌, ltb, Result, ok,
  err,
}
use bunting.Prelude.Int.{pos, leb_ℤ, eqb_ℤ}
use bunting.Prelude.Ord.{nat_ord, pair_ord}
use bunting.Prelude.Map.{Map, get}
use bunting.Prelude.Map
use bunting.Market.{
  PriceTicks, QuantityLots, TimeInForcePolicy, gtc, ioc, fok, day, gtd, SubmitOrder, RejectCode,
}
use bunting.Book.Orders.{rest, execute}
use bunting.Book.Views.{executable}
use bunting.Ledger.Orders.{open_order, close_order}
use bunting.Engine.{
  Simulation, RunState, E, ◌>>=◌, ◌>>◌, ask, done, need, change, emit, with_ledger, with_book,
  unknown_listing, ownership_invariant, ListingKey, OwnedOrder, active, market_remainder, expired,
  order_accepted, order_rested, order_completed, order_canceled, live_order_count, u32_limit,
}
use bunting.Engine.Admission.{Passed, check_submit, is_immediate, present}
use bunting.Engine.Orders.{own, settle_matches, closed_out}

abbrev pub is_day : TimeInForcePolicy → Bool
is_day day = true
is_day gtc = false
is_day ioc = false
is_day fok = false
is_day (gtd at) = false

abbrev pub is_fok : TimeInForcePolicy → Bool
is_fok fok = true
is_fok gtc = false
is_fok ioc = false
is_fok day = false
is_fok (gtd at) = false

-- The ownership record of an order that has been admitted.
abbrev pub owned_by : SubmitOrder → ListingKey → Passed → OwnedOrder
owned_by order key p = record {
  order_id = order.order_id;
  participant_id = order.participant_id;
  listing_key = key;
  side = order.side;
  limit_price = (p.admission).reservation_price;
  original_quantity = order.quantity;
  remaining_quantity = order.quantity;
  state = active;
  reservation = (p.admission).reservation;
  expires_at = p.expires_at;
  day = is_day (p.policy).time_in_force;
  anonymous = order.anonymous;
}

module _ {sim : Simulation} where
  -- `checked_add(1)` on the participant's count of live orders.
  unfoldable pub count_live : ℕ → E sim (Unit {0})
  unfolding live_order_count
  count_live participant w =
      let next = live_order_count w.run participant + 1 in
      if ltb next u32_limit
      then ok (
        tt,
        record w {
          run = record w.run { live_orders = Map.insert participant next w.run.live_orders };
        },
      )
      else err ownership_invariant

  -- Nothing matches in a call phase, nor for a fill-or-kill order that cannot be filled.
  unfoldable pub fillable : SubmitOrder → ListingKey → Passed → RunState sim → Bool
  fillable order key p run =
      not p.call
      && (not (is_fok (p.policy).time_in_force) || (elim (get key run.listings) [
        | none ↦ false
        | some listing ↦
            leb_ℤ order.quantity (executable listing.book order.side (p.policy).limit_at)
      ]))

  unfoldable pub match_order : SubmitOrder → ListingKey → Passed → E sim QuantityLots
  unfolding settle_matches
  match_order order key p = do
    matched ← with_book key (execute order.side (p.policy).limit_at order.quantity)
    settle_matches order.order_id key matched.0
    done matched.1

  abbrev pub note_expiry : Option ℕ → ℕ → RunState sim → RunState sim
  note_expiry none order_id run = run
  note_expiry (some at) order_id run = record run {
    expiries = Map.insert (at, order_id) tt run.expiries;
  }

  unfoldable pub rest_remainder :
      SubmitOrder → ListingKey → Passed → PriceTicks → QuantityLots → E sim (Unit {0})
  rest_remainder order key p price remaining = do
    with_book key (rest order.order_id order.side price remaining (p.policy).display)
    change (note_expiry p.expires_at order.order_id)
    emit (order_rested order.order_id order.participant_id key order.side price remaining)

  unfoldable pub cancel_remainder :
      SubmitOrder → ListingKey → Passed → QuantityLots → E sim (Unit {0})
  cancel_remainder order key p remaining = do
    with_ledger (
        close_order order.participant_id order.instrument_id order.side remaining
          (p.admission).reservation)
    run ← ask
    owned ← need (get order.order_id run.ownership) ownership_invariant
    change (own order.order_id (closed_out owned))
    emit (
        order_canceled order.order_id order.participant_id key remaining
          (if present (p.policy).limit_at then expired else market_remainder))

  unfoldable pub rest_or_cancel :
      SubmitOrder → ListingKey → Passed → Option PriceTicks → QuantityLots → E sim (Unit {0})
  unfolding rest_remainder cancel_remainder
  rest_or_cancel order key p none remaining = cancel_remainder order key p remaining
  rest_or_cancel order key p (some price) remaining = rest_remainder order key p price remaining

  -- A remainder rests if the order has a limit and may wait.
  unfoldable pub handle_remainder :
      SubmitOrder → ListingKey → Passed → QuantityLots → E sim (Unit {0})
  unfolding rest_or_cancel
  handle_remainder order key p remaining =
      if eqb_ℤ remaining (pos 0)
      then emit (order_completed order.order_id)
      else if is_immediate (p.policy).time_in_force
      then cancel_remainder order key p remaining
      else rest_or_cancel order key p (p.policy).limit_at remaining

  -- What follows once the order is on record.
  unfoldable pub after_open : SubmitOrder → ListingKey → Passed → E sim (Unit {0})
  unfolding count_live fillable match_order handle_remainder
  after_open order key p = do
    count_live order.participant_id
    emit (order_accepted order.order_id)
    run ← ask
    remaining ← if fillable order key p run then match_order order key p else done order.quantity
    handle_remainder order key p remaining

  unfoldable pub take_order : SubmitOrder → ListingKey → Passed → E sim (Unit {0})
  unfolding after_open
  take_order order key p = do
    with_ledger (
        open_order order.participant_id order.instrument_id order.side order.quantity
          (p.admission).reservation)
    change (own order.order_id (owned_by order key p))
    after_open order key p

  -- A rejection is a result; an error of the engine is an error.
  unfoldable pub submit : SubmitOrder → ListingKey → ℕ → E sim (Result RejectCode (Unit {0}))
  unfolding check_submit take_order
  submit order key now w = elim (get key w.run.listings) [
    | none ↦ err unknown_listing
    | some listing ↦ elim (check_submit w.run order key listing now) [
      | err code ↦ ok (err code, w)
      | ok p ↦ elim (take_order order key p w) [ err e ↦ err e | ok x ↦ ok (ok tt, x.1) ]
    ]
  ]
