-- ===== src/Engine/Orders.antt =====
-- The order operations of `RunState` of packages/bunting-engine/src/lib.rs: settlement of fills,
-- cancellation, submission.
use bunting.Prelude.{
  ℕ, Bool, true, false, ◌||◌, not, Option, none, some, List, [], ◌∷◌, if◌then◌else◌, ok,
}
use bunting.Prelude.Int.{pos, eqb_ℤ, i128, i64, checked_mul, checked_sub}
use bunting.Prelude.Ord.{nat_ord, pair_ord, pair_eq}
use bunting.Prelude.Map.{Map, get}
use bunting.Prelude.Map
use bunting.Market.{PriceTicks, QuantityLots, MoneyMinor, Side, buy, sell}
use bunting.Book.{Book, BookOrder, Match}
use bunting.Book
use bunting.Book.Orders.{non_negative, rest, execute}
use bunting.Book.Orders
use bunting.Ledger.{FillParty}
use bunting.Ledger.Fills.{settle}
use bunting.Ledger.Orders.{close_order}
use bunting.Engine.{
  Simulation, RunState, E, ◌>>=◌, ◌>>◌, ask, done, need, refuse_if, change, emit, touch,
  with_ledger, with_book, unknown_listing, ownership_invariant, accounting, FeeSchedule, ListingKey,
  OwnedOrder, filled, canceled, is_active, CancelReason, order_reduced, order_completed,
  order_canceled, trade_executed,
}

unfoldable pub per_lot_fee : MoneyMinor → QuantityLots → Option MoneyMinor
per_lot_fee per_lot quantity = checked_mul i128 per_lot quantity

abbrev pub same_key : ListingKey → ListingKey → Bool
same_key = pair_eq

abbrev pub is_none {ℓ} : {A : Type ℓ} → Option A → Bool
is_none none = true
is_none (some a) = false

-- An order after a fill of it.
abbrev pub reduced : OwnedOrder → QuantityLots → OwnedOrder
reduced owned left = record owned {
  remaining_quantity = left;
  state = if eqb_ℤ left (pos 0) then filled else owned.state;
}

abbrev pub closed_out : OwnedOrder → OwnedOrder
closed_out owned = record owned { state = canceled; remaining_quantity = pos 0 }

abbrev pub buyer_of : Side → FillParty → FillParty → FillParty
buyer_of buy taker maker = taker
buyer_of sell taker maker = maker

abbrev pub only_active : Option OwnedOrder → Option OwnedOrder
only_active none = none
only_active (some owned) = if is_active owned.state then some owned else none

-- `Book::cancel` as a call of a listing's book.
abbrev pub book_cancel : ℕ → Book.M (Option BookOrder)
book_cancel order_id b =
    Book.done (Book.Orders.cancel order_id b).0 (Book.Orders.cancel order_id b).1

module _ {sim : Simulation} where
  abbrev pub own : ℕ → OwnedOrder → RunState sim → RunState sim
  own id owned run = record run { ownership = Map.insert id owned run.ownership }

  -- The events of the reduction go out only if `report` is set.
  unfoldable pub reduce_order : ℕ → QuantityLots → Bool → E sim (Unit {0})
  reduce_order order_id quantity report = do
    run ← ask
    owned ← need (get order_id run.ownership) ownership_invariant
    left ← need (non_negative (checked_sub i64 owned.remaining_quantity quantity)) accounting
    change (own order_id (reduced owned left))
    if report
        then emit
            (if eqb_ℤ left (pos 0) then order_completed order_id else order_reduced order_id left)
        else done tt

  abbrev pub funded : RunState sim → ℕ → Bool
  funded run participant = elim (get participant run.participants) [
    | none ↦ false
    | some definition ↦ definition.limits.cash_constrained
  ]

  abbrev pub party : RunState sim → OwnedOrder → MoneyMinor → FillParty
  party run owned fee = record {
    participant = owned.participant_id;
    fee = fee;
    held = some owned.reservation;
    enforce_funding = funded run owned.participant_id;
  }

  -- The expiry of an order that is used up leaves the clock's index.
  unfoldable pub drop_expiry : ℕ → Option ℕ → E sim (Unit {0})
  drop_expiry order_id none w = ok (tt, w)
  drop_expiry order_id (some at) w = elim (get order_id w.run.ownership) [
    | none ↦ ok (tt, w)
    | some owned ↦
        if eqb_ℤ owned.remaining_quantity (pos 0)
        then ok (
          tt,
          record w { run = record w.run { expiries = Map.remove (at, order_id) w.run.expiries } },
        )
        else ok (tt, w)
  ]

  abbrev pub note_trade : ListingKey → PriceTicks → RunState sim → RunState sim
  note_trade key price run =
      if is_none run.calendar
      then run
      else record run { day_trades = Map.insert key price run.day_trades }

  -- The ledger's part of an execution, and the last trade of the day.
  unfoldable pub post_fill :
      ListingKey → PriceTicks → QuantityLots → FillParty → FillParty → E sim (Unit {0})
  post_fill key price quantity buyer seller = do
    with_ledger (
        settle (record {
          instrument = key.1;
          price = price;
          quantity = quantity;
          buyer = some buyer;
          seller = some seller;
          set_mark = true;
        }))
    change (note_trade key price)

  unfoldable pub settle_fill :
      ListingKey → ℕ → ℕ → PriceTicks → QuantityLots → Bool → E sim (Unit {0})
  unfolding reduce_order drop_expiry post_fill
  settle_fill key maker_id taker_id price quantity auction = do
    run ← ask
    listing ← need (get key run.listings) unknown_listing
    maker ← need (get maker_id run.ownership) ownership_invariant
    taker ← need (get taker_id run.ownership) ownership_invariant
    refuse_if
        (not (same_key maker.listing_key key)
          || not (is_active maker.state)
          || not (same_key taker.listing_key key))
        ownership_invariant
    let fees : FeeSchedule = listing.definition.fees
    maker_fee ←
        need (per_lot_fee (if auction then fees.taker_per_lot else fees.maker_per_lot) quantity)
          accounting
    taker_fee ← need (per_lot_fee fees.taker_per_lot quantity) accounting
    let maker_party = party run maker maker_fee
    let taker_party = party run taker taker_fee
    let buyer = buyer_of taker.side taker_party maker_party
    let seller = buyer_of taker.side maker_party taker_party
    post_fill key price quantity buyer seller
    reduce_order maker_id quantity true
    reduce_order taker_id quantity auction
    drop_expiry maker_id maker.expires_at
    if auction then drop_expiry taker_id taker.expires_at else done tt
    emit (
        trade_executed key maker_id taker_id buyer.participant seller.participant price quantity
          buyer.fee seller.fee)

  unfoldable pub settle_matches : ℕ → ListingKey → List Match → E sim (Unit {0})
  unfolding settle_fill
  settle_matches taker_id key [] = done tt
  settle_matches taker_id key (m ∷ matches) = do
    settle_fill key m.maker taker_id m.price m.quantity false
    settle_matches taker_id key matches

  abbrev pub drop_entry : Option ℕ → ℕ → RunState sim → RunState sim
  drop_entry none order_id run = run
  drop_entry (some at) order_id run = record run {
    expiries = Map.remove (at, order_id) run.expiries;
  }

  unfoldable pub cancel : ℕ → CancelReason → E sim (Unit {0})
  cancel order_id reason = do
    run ← ask
    owned ← need (only_active (get order_id run.ownership)) ownership_invariant
    found ← with_book owned.listing_key (book_cancel order_id)
    resting ← need found ownership_invariant
    refuse_if (not (eqb_ℤ resting.remaining owned.remaining_quantity)) ownership_invariant
    with_ledger (
        close_order owned.participant_id owned.listing_key.1 owned.side owned.remaining_quantity
          owned.reservation)
    change (drop_entry owned.expires_at order_id)
    change (own order_id (closed_out owned))
    emit (
        order_canceled order_id owned.participant_id owned.listing_key owned.remaining_quantity
          reason)

  -- Cancels orders one after the other, as the kill switch, mass cancels and the close do.
  unfoldable pub cancel_all : CancelReason → List (ℕ × ListingKey) → E sim (Unit {0})
  unfolding cancel
  cancel_all reason [] = done tt
  cancel_all reason ((order_id, key) ∷ rest) = do
    touch key
    cancel order_id reason
    cancel_all reason rest
