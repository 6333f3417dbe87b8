-- ===== src/Engine/Admission/Terms.antt =====
-- The terms that the tests of `RunState::submit` of packages/bunting-engine/src/lib.rs give an order.
use bunting.Prelude.{ℕ, none, some, ◌≡◌, arith, ok, inl, inr, Option-cases, if◌then◌else◌}
use bunting.Prelude.Ord.{nat_ord, pair_ord}
use bunting.Prelude.Map.{get}
use bunting.Market.{SubmitOrder}
use bunting.Risk.{admit}
use bunting.Engine.{
  Simulation, RunState, ListingKey, ListingState, ParticipantDefinition, fee_bound,
}
use bunting.Engine.Admission.{
  Passed, Policy, policy_of, expiry_of, present, market_bound, check_listing, check_submit,
}

module _ {sim : Simulation} where
  -- The limits that an order is admitted under, and what they give it.
  abbrev pub Admitted : RunState sim → SubmitOrder → ListingState → ℕ → Passed → Type 0
  Admitted run order listing now p =
      (trader : ParticipantDefinition) × (get order.participant_id run.participants ≡ some trader)
      × (get order.order_id run.ownership ≡ none)
      × (p.policy ≡ policy_of order.kind)
      × (expiry_of (policy_of order.kind).time_in_force now ≡ ok p.expires_at)
      × (admit trader.limits trader.enabled order
            (record {
              price_bounds = listing.definition.price_bounds;
              fee_bound = fee_bound listing.definition.fees;
              tick_size = listing.definition.tick_size;
            })
            run.ledger
            (if present (policy_of order.kind).limit_at
              then none
              else some (market_bound listing.definition order.side))
          ≡ ok p.admission)

  check_listing-terms :
      (run : RunState sim) (order : SubmitOrder) (key : ListingKey) (listing : ListingState)
      (trader : ParticipantDefinition) (policy : Policy) (now : ℕ) (p : Passed)
      → check_listing run order key listing trader policy now ≡ ok p
      → (p.policy ≡ policy)
        × (expiry_of policy.time_in_force now ≡ ok p.expires_at)
        × (admit trader.limits trader.enabled order
              (record {
                price_bounds = listing.definition.price_bounds;
                fee_bound = fee_bound listing.definition.fees;
                tick_size = listing.definition.tick_size;
              })
              run.ledger
              (if present policy.limit_at
                then none
                else some (market_bound listing.definition order.side))
            ≡ ok p.admission)
  unfolding check_listing
  check_listing-terms run order key listing trader policy now p h = ground arith

  pub check_submit-Admitted :
      (run : RunState sim) (order : SubmitOrder) (key : ListingKey) (listing : ListingState)
      (now : ℕ) (p : Passed)
      → check_submit run order key listing now ≡ ok p
      → Admitted run order listing now p
  unfolding check_submit
  check_submit-Admitted run order key listing now p h =
      elim (Option-cases (get order.order_id run.ownership)) [
        | inr (o, e) ↦ absurd (ground arith)
        | inl fresh ↦ elim (Option-cases (get order.participant_id run.participants)) [
          | inl e ↦ absurd (ground arith)
          | inr (trader, e) ↦
              let (a, b, c) =
                check_listing-terms run order key listing trader (policy_of order.kind) now p
                  (ground arith) in
              (trader, e, fresh, a, b, c)
        ]
      ]
