-- ===== src/Engine/Stays/Transition.antt =====
-- Catching up with the clock, and what a submission does to the orders that a run knows
-- (packages/bunting-engine/src/lib.rs).
use bunting.Prelude.{
  ℕ, zero, suc, Bool, Option, none, some, List, ◌≡◌, refl, ap, ◌∙◌, arith, Result, ok, err, inl,
  inr, Option-cases, Result-cases, Bool-cases, ltb,
}
use bunting.Prelude.Ord.{nat_ord, pair_ord}
use bunting.Prelude.Map.{get, insert}
use bunting.Market.{QuantityLots, PriceTicks, SubmitOrder, RejectCode}
use bunting.Engine.{
  Simulation, Work, ◌>>=◌, ◌>>◌, ask, need, change, emit, with_ledger, EngineError, EventPayload,
  ListingKey, ListingState,
}
use bunting.Engine.Orders.{own, closed_out}
use bunting.Engine.Admission.{Passed, check_submit}
use bunting.Engine.Submit.{
  owned_by, count_live, after_open, match_order, note_expiry, rest_or_cancel, rest_remainder,
  cancel_remainder, handle_remainder, take_order, submit,
}
use bunting.Engine.Sessions.{boundary_loop, catch_up, next_boundary, domain_step}
use bunting.Ledger.{Ledger, LedgerError}
use bunting.Ledger.Orders.{open_order}
use bunting.Engine.Stays.{
  Keeps, by_law, >>=-ok, law, keeps, Stays, Keeps->>=, Keeps-done, Keeps-same, Keeps-change,
  Keeps-with_ledger, own-Keeps, terms_if,
}
use bunting.Engine.Stays.Orders.{settle_matches-Keeps}
use bunting.Engine.Stays.Clock.{expire_due-Keeps, cross_boundary-Keeps}

module _ {sim : Simulation} where
  boundary_loop-Keeps : (fuel to : ℕ) → Keeps {sim = sim} (boundary_loop fuel to)
  unfolding boundary_loop
  boundary_loop-Keeps zero to = by_law (λ w w' u h. absurd (ground arith))
  boundary_loop-Keeps (suc fuel) to = by_law (λ w w' u h.
      elim (Option-cases (next_boundary w.run)) [
        | inl e ↦ law (Keeps-done tt) w w' u (ground arith)
        | inr ((venue, step, b), found) ↦ elim (Bool-cases (ltb to b.time)) [
          | inl later ↦ law (Keeps-done tt) w w' u (ground arith)
          | inr due ↦
              law
                (Keeps->>= (expire_due-Keeps b.time) (λ _.
                  Keeps->>= (cross_boundary-Keeps venue step b) (λ _. boundary_loop-Keeps fuel to)))
                w w' u (ground arith)
        ]
      ])

  pub domain_step-Keeps :
      (o : Option (List sim.Event × Ledger × sim.State)) → Keeps {sim = sim} (domain_step o)
  unfolding domain_step
  domain_step-Keeps none = by_law (λ w w' u h. absurd (ground arith))
  domain_step-Keeps (some (events, l, state)) =
      Keeps-same (domain_step (some (events, l, state))) (λ w w' u h. (ground arith, ground arith))

  pub catch_up-Keeps : (to : ℕ) (sweep : Bool) → Keeps {sim = sim} (catch_up to sweep)
  unfolding catch_up
  catch_up-Keeps to sweep =
      search (keeps, domain_step-Keeps, boundary_loop-Keeps, expire_due-Keeps) depth 20

  match_order-Keeps :
      (order : SubmitOrder) (key : ListingKey) (p : Passed)
      → Keeps {sim = sim} (match_order order key p)
  unfolding match_order
  match_order-Keeps order key p = search (keeps, settle_matches-Keeps)

  note_expiry-Keeps : (at : Option ℕ) (id : ℕ) → Keeps {sim = sim} (change (note_expiry at id))
  note_expiry-Keeps none id = Keeps-change (note_expiry none id) (λ run. (refl, refl))
  note_expiry-Keeps (some at) id = Keeps-change (note_expiry (some at) id) (λ run. (refl, refl))

  rest_remainder-Keeps :
      (order : SubmitOrder) (key : ListingKey) (p : Passed) (price : PriceTicks)
      (left : QuantityLots)
      → Keeps {sim = sim} (rest_remainder order key p price left)
  unfolding rest_remainder
  rest_remainder-Keeps order key p price left = search (keeps, note_expiry-Keeps)

  count_live-Keeps : (participant : ℕ) → Keeps {sim = sim} (count_live participant)
  unfolding count_live
  count_live-Keeps participant =
      Keeps-same (count_live participant) (λ w w' u h. (ground arith, ground arith))

  -- An order that the run knows is closed, and an event goes out.
  close-Keeps :
      (id : ℕ) (e : EngineError) (payload : EventPayload sim.Event)
      → Keeps {sim = sim} (do
        run ← ask
        owned ← need (get id run.ownership) e
        change (own id (closed_out owned))
        emit payload)
  close-Keeps id e payload = by_law (λ w w' u h. elim (Option-cases (get id w.run.ownership)) [
    | inl n ↦ absurd (ground arith)
    | inr (owned, o) ↦
        let s = own-Keeps id owned (closed_out owned) w.run o refl in
        record {
          numbers = ground arith;
          knows = λ j. ap terms_if (ap (get j) (ground arith)) ∙ s.knows j;
        }
  ])

  cancel_remainder-Keeps :
      (order : SubmitOrder) (key : ListingKey) (p : Passed) (left : QuantityLots)
      → Keeps {sim = sim} (cancel_remainder order key p left)
  unfolding cancel_remainder
  cancel_remainder-Keeps order key p left =
      Keeps->>= (Keeps-with_ledger _) (λ _. close-Keeps order.order_id _ _)

  rest_or_cancel-Keeps :
      (order : SubmitOrder) (key : ListingKey) (p : Passed) (at : Option PriceTicks)
      (left : QuantityLots)
      → Keeps {sim = sim} (rest_or_cancel order key p at left)
  unfolding rest_or_cancel
  rest_or_cancel-Keeps order key p none left = cancel_remainder-Keeps order key p left
  rest_or_cancel-Keeps order key p (some price) left = rest_remainder-Keeps order key p price left

  handle_remainder-Keeps :
      (order : SubmitOrder) (key : ListingKey) (p : Passed) (left : QuantityLots)
      → Keeps {sim = sim} (handle_remainder order key p left)
  unfolding handle_remainder
  handle_remainder-Keeps order key p left =
      search (keeps, cancel_remainder-Keeps, rest_or_cancel-Keeps)

  after_open-Keeps :
      (order : SubmitOrder) (key : ListingKey) (p : Passed)
      → Keeps {sim = sim} (after_open order key p)
  unfolding after_open
  after_open-Keeps order key p =
      search (keeps, count_live-Keeps, match_order-Keeps, handle_remainder-Keeps) depth 20

  with_ledger-ownership :
      (f : Ledger → Result LedgerError Ledger) (w w' : Work sim) (u : Unit {0})
      → with_ledger f w ≡ ok (u, w')
      → w'.run.ownership ≡ w.run.ownership
  unfolding with_ledger
  with_ledger-ownership f w w' u h = ground arith

  -- An order that is taken is known from then on with its terms, and nothing else changes.
  take_order-Keeps :
      (order : SubmitOrder) (key : ListingKey) (p : Passed) (w w' : Work sim) (u : Unit {0})
      → take_order order key p w ≡ ok (u, w')
      → Stays (own order.order_id (owned_by order key p) w.run) w'.run
  unfolding take_order
  take_order-Keeps order key p w w' u h =
      let opened : Ledger → Result LedgerError Ledger =
        open_order order.participant_id order.instrument_id order.side order.quantity
          (p.admission).reservation in
      let (v, next, c, h') =
        >>=-ok (with_ledger opened)
          (λ _. change (own order.order_id (owned_by order key p)) >> after_open order key p) w w' u
          h in
      let s = law (after_open-Keeps order key p) _ w' u h' in
      record {
        numbers = s.numbers ∙ (law (Keeps-with_ledger opened) w next v c).numbers;
        knows = λ id.
            s.knows id
            ∙ ap (λ own. terms_if (get id (insert order.order_id (owned_by order key p) own)))
                (with_ledger-ownership opened w next v c);
      }

  pub submit-refused :
      (order : SubmitOrder) (key : ListingKey) (now : ℕ) (w w' : Work sim) (code : RejectCode)
      → submit order key now w ≡ ok (err code, w')
      → w' ≡ w
  unfolding submit
  submit-refused order key now w w' code h = elim (Option-cases (get key w.run.listings)) [
    | inl e ↦ absurd (ground arith)
    | inr (l, e) ↦ elim (Result-cases (check_submit w.run order key l now)) [
      | inr (c, r) ↦ ground arith
      | inl (p, r) ↦ elim (Result-cases (take_order order key p w)) [
        | inr (x, t) ↦ absurd (ground arith)
        | inl ((u, next), t) ↦ absurd (ground arith)
      ]
    ]
  ]

  -- An accepted order has passed the tests on its listing.
  pub submit-passes :
      (order : SubmitOrder) (key : ListingKey) (now : ℕ) (w w' : Work sim) (u : Unit {0})
      → submit order key now w ≡ ok (ok u, w')
      → (l : ListingState) × (p : Passed) × (get key w.run.listings ≡ some l)
        × (check_submit w.run order key l now ≡ ok p)
        × Stays (own order.order_id (owned_by order key p) w.run) w'.run
  unfolding submit
  submit-passes order key now w w' u h = elim (Option-cases (get key w.run.listings)) [
    | inl e ↦ absurd (ground arith)
    | inr (l, e) ↦ elim (Result-cases (check_submit w.run order key l now)) [
      | inr (c, r) ↦ absurd (ground arith)
      | inl (p, r) ↦ elim (Result-cases (take_order order key p w)) [
        | inr (x, t) ↦ absurd (ground arith)
        | inl ((v, next), t) ↦ (l, p, e, r, take_order-Keeps order key p w w' v (ground arith))
      ]
    ]
  ]
