-- ===== src/Engine/Stays/Orders.antt =====
-- Settlement and cancellation (packages/bunting-engine/src/lib.rs) keep the numbering and the terms.
use bunting.Prelude.{
  ℕ, Bool, Option, none, some, List, [], ◌∷◌, ◌≡◌, refl, ap, ◌∙◌, arith, inl, inr, Option-cases,
}
use bunting.Prelude.Int.{i64, checked_sub}
use bunting.Prelude.Ord.{nat_ord, pair_ord}
use bunting.Prelude.Map.{get}
use bunting.Market.{QuantityLots, PriceTicks}
use bunting.Book.{Match}
use bunting.Book.Orders.{non_negative}
use bunting.Ledger.{FillParty}
use bunting.Engine.{Simulation, RunState, with_ledger, with_book, ListingKey, CancelReason}
use bunting.Engine.Orders.{
  reduce_order, drop_expiry, note_trade, post_fill, settle_fill, settle_matches, cancel, cancel_all,
  reduced, closed_out,
}
use bunting.Engine.Canceled.{cancel-owned, cancel-ok}
use bunting.Engine.Stays.{
  Keeps, by_law, keeps, Keeps->>=, Keeps-same, Keeps-with_ledger, Keeps-change, own-Keeps, terms_if,
  numbering,
}

module _ {sim : Simulation} where
  note_trade-keeps :
      (key : ListingKey) (price : PriceTicks) (run : RunState sim)
      → (numbering (note_trade key price run) ≡ numbering run)
        × ((note_trade key price run).ownership ≡ run.ownership)
  note_trade-keeps key price run = (ground arith, ground arith)

  post_fill-Keeps :
      (key : ListingKey) (price : PriceTicks) (quantity : QuantityLots) (buyer seller : FillParty)
      → Keeps {sim = sim} (post_fill key price quantity buyer seller)
  unfolding post_fill
  post_fill-Keeps key price quantity buyer seller =
      Keeps->>= (Keeps-with_ledger _)
        (λ _. Keeps-change (note_trade key price) (note_trade-keeps key price))

  drop_expiry-Keeps : (id : ℕ) (at : Option ℕ) → Keeps {sim = sim} (drop_expiry id at)
  unfolding drop_expiry
  drop_expiry-Keeps id none =
      Keeps-same (drop_expiry id none) (λ w w' x h. (ground arith, ground arith))
  drop_expiry-Keeps id (some at) =
      Keeps-same (drop_expiry id (some at)) (λ w w' x h. (ground arith, ground arith))

  reduce_order-Keeps :
      (id : ℕ) (quantity : QuantityLots) (report : Bool)
      → Keeps {sim = sim} (reduce_order id quantity report)
  unfolding reduce_order
  reduce_order-Keeps id quantity report = by_law (λ w w' u h.
      elim (Option-cases (get id w.run.ownership)) [
        | inl e ↦ absurd (ground arith)
        | inr (owned, e) ↦
            elim (Option-cases (non_negative (checked_sub i64 owned.remaining_quantity quantity))) [
              | inl n ↦ absurd (ground arith)
              | inr (left, n) ↦
                  let s = own-Keeps id owned (reduced owned left) w.run e refl in
                  record {
                    numbers = ground arith;
                    knows = λ j. ap terms_if (ap (get j) (ground arith)) ∙ s.knows j;
                  }
            ]
      ])

  pub settle_fill-Keeps :
      (key : ListingKey) (maker taker : ℕ) (price : PriceTicks) (quantity : QuantityLots)
      (auction : Bool)
      → Keeps {sim = sim} (settle_fill key maker taker price quantity auction)
  unfolding settle_fill
  settle_fill-Keeps key maker taker price quantity auction =
      search (keeps, post_fill-Keeps, reduce_order-Keeps, drop_expiry-Keeps) depth 40

  pub settle_matches-Keeps :
      (taker : ℕ) (key : ListingKey) (ms : List Match)
      → Keeps {sim = sim} (settle_matches taker key ms)
  unfolding settle_matches
  settle_matches-Keeps taker key [] = search keeps
  settle_matches-Keeps taker key (m ∷ ms) =
      search (keeps, settle_fill-Keeps, settle_matches-Keeps taker key ms)

  pub cancel-Keeps : (id : ℕ) (reason : CancelReason) → Keeps {sim = sim} (cancel id reason)
  unfolding cancel with_ledger with_book
  cancel-Keeps id reason = by_law (λ w w' u h.
      let (owned, e, a) = cancel-owned id reason w h in
      let (owns, _) = cancel-ok id reason w w' u owned e h in
      let s = own-Keeps id owned (closed_out owned) w.run e refl in
      record { numbers = ground arith; knows = λ j. ap terms_if (ap (get j) owns) ∙ s.knows j })

  pub cancel_all-Keeps :
      (reason : CancelReason) (xs : List (ℕ × ListingKey))
      → Keeps {sim = sim} (cancel_all reason xs)
  unfolding cancel_all
  cancel_all-Keeps reason [] = search keeps
  cancel_all-Keeps reason ((id, key) ∷ xs) =
      search (keeps, cancel-Keeps, cancel_all-Keeps reason xs)
