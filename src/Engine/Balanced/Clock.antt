-- ===== src/Engine/Balanced/Clock.antt =====
-- What the run clock brings makes no money and no lots (packages/bunting-engine/src/lib.rs).
use bunting.Prelude.{
  ℕ, zero, suc, Option, none, some, List, [], ◌∷◌, ◌≡◌, refl, ap, arith, inl, inr, Option-cases,
  Bool-cases, ltb, length,
}
use bunting.Prelude.Ord.{nat_ord, pair_ord}
use bunting.Prelude.Map.{get, first, keys}
use bunting.Market.{PriceTicks, QuantityLots}
use bunting.Calendar.{Boundary}
use bunting.Ledger.{set_mark}
use bunting.Prelude.Map.Sums.{sum_of}
use bunting.Ledger.Settled.Conserved.{money_in, lots_of}
use bunting.Engine.{Simulation, RunState, E, change, with_ledger, ListingKey, expired}
use bunting.Engine.Clock.{
  expire_loop, expire_due, cross_at, auction, auction_all, expire_each, keys_of_venue,
}
use bunting.Engine.Sessions.{
  close_listing, close_listings, close_day, mark_one, mark_instruments, day_scores, settle_day,
  end_day, step_venue, cross_boundary, boundary_loop, next_boundary,
}
use bunting.Engine.Balanced.Steps.{with_ledger-Balanced, cancel-Balanced}
use bunting.Engine.Balanced.{
  Balanced, by_sums, sums_law, Balanced->>=, Balanced-same, Balanced-done, Balanced-touch,
  Balanced-change, balanced, Balanced-settle_crosses,
}

module _ {sim : Simulation} (currency instrument : ℕ) where
  abbrev Steady : {A : Type 0} → E sim A → Type 0
  Steady m = Balanced currency instrument m

  cross_at-Balanced :
      (key : ListingKey) (o : Option (PriceTicks × QuantityLots)) → Steady (cross_at key o)
  unfolding cross_at
  cross_at-Balanced key none = search balanced
  cross_at-Balanced key (some (price, quantity)) = search (balanced, Balanced-settle_crosses)

  auction_all-Balanced : (xs : List ListingKey) → Steady (auction_all xs)
  unfolding auction_all auction
  auction_all-Balanced [] = search balanced
  auction_all-Balanced (key ∷ xs) =
      search (balanced, cross_at-Balanced, auction_all-Balanced xs) depth 20

  expire_each-Balanced : (xs : List ℕ) → Steady (expire_each xs)
  unfolding expire_each
  expire_each-Balanced [] = search balanced
  expire_each-Balanced (id ∷ xs) = search (balanced, cancel-Balanced, expire_each-Balanced xs)

  expire_loop-Balanced : (fuel now : ℕ) → Steady (expire_loop fuel now)
  unfolding expire_loop
  expire_loop-Balanced zero now = by_sums (λ w w' u v h. absurd (ground arith))
  expire_loop-Balanced (suc fuel) now = by_sums (λ w w' u v h.
      elim (Option-cases (first w.run.expiries)) [
        | inl e ↦
            sums_law currency instrument (Balanced-done currency instrument tt) w w' u v
              (ground arith)
        | inr (((at, id), x), found) ↦ elim (Bool-cases (ltb now at)) [
          | inl later ↦
              sums_law currency instrument (Balanced-done currency instrument tt) w w' u v
                (ground arith)
          | inr due ↦ elim (Option-cases (get id w.run.ownership)) [
            | inl e ↦ absurd (ground arith)
            | inr (owned, o) ↦
                sums_law currency instrument
                  (Balanced->>= currency instrument
                    (Balanced-touch currency instrument owned.listing_key)
                    (λ _.
                      Balanced->>= currency instrument
                        (cancel-Balanced currency instrument id expired)
                        (λ _. expire_loop-Balanced fuel now)))
                  w w' u v (ground arith)
          ]
        ]
      ])

  pub expire_due-Balanced : (now : ℕ) → Steady (expire_due now)
  unfolding expire_due
  expire_due-Balanced now = by_sums (λ w.
      sums_law currency instrument (expire_loop-Balanced (suc (suc (length w.run.expiries))) now) w)

  set_mark-Balanced : (i : ℕ) (price : PriceTicks) → Steady (with_ledger (set_mark i price))
  unfolding set_mark
  set_mark-Balanced i price =
      with_ledger-Balanced currency instrument (set_mark i price) (λ l l' v h.
        let c : l'.cash ≡ l.cash = ground arith in
        let p : l'.positions ≡ l.positions = ground arith in
        record {
          in_order = record {
            cash_sorted = rw c v.cash_sorted;
            positions_sorted = rw p v.positions_sorted;
          };
          money = ap (sum_of (money_in currency)) c;
          lots = ap (sum_of (lots_of instrument)) p;
        })

  mark_one-Balanced :
      (i : ℕ) (price : Option PriceTicks) (others : E sim (List (ℕ × PriceTicks)))
      → Steady others
      → Steady (mark_one i price others)
  unfolding mark_one
  mark_one-Balanced i none others k = k
  mark_one-Balanced i (some price) others k = search (balanced, set_mark-Balanced)

  mark_instruments-Balanced : (xs : List ℕ) → Steady (mark_instruments xs)
  unfolding mark_instruments
  mark_instruments-Balanced [] = search balanced
  mark_instruments-Balanced (i ∷ xs) =
      search (balanced, mark_one-Balanced, mark_instruments-Balanced xs)

  close_listings-ledger :
      (xs : List ListingKey) (run : RunState sim) → (close_listings xs run).1.ledger ≡ run.ledger
  unfolding close_listings close_listing
  close_listings-ledger [] run = refl
  close_listings-ledger (key ∷ xs) run =
      ground (arith, close_listings-ledger xs (close_listing key run))

  close_day-Balanced : (venue : ℕ) → Steady (close_day venue)
  unfolding close_day
  close_day-Balanced venue = Balanced-same currency instrument (close_day venue) (λ w w' x h.
      let l = close_listings-ledger (keys_of_venue venue (keys w.run.listings)) w.run in
      ground arith)

  day_scores-Balanced : Steady day_scores
  day_scores-Balanced = Balanced-same currency instrument day_scores (λ w w' x h. ground arith)

  end_day-Balanced : (venue : ℕ) (b : Boundary) → Steady (end_day venue b)
  unfolding end_day settle_day
  end_day-Balanced venue b =
      search (balanced, close_day-Balanced, mark_instruments-Balanced, day_scores-Balanced) depth 40

  step_venue-Balanced : (venue step : ℕ) → Steady (change (step_venue venue step))
  step_venue-Balanced venue step =
      Balanced-change currency instrument (step_venue venue step) (λ run. refl)

  cross_boundary-Balanced : (venue step : ℕ) (b : Boundary) → Steady (cross_boundary venue step b)
  unfolding cross_boundary
  cross_boundary-Balanced venue step b =
      search
        (
          balanced, step_venue-Balanced, auction_all-Balanced, expire_each-Balanced,
          end_day-Balanced,
        )
        depth 40

  pub boundary_loop-Balanced : (fuel to : ℕ) → Steady (boundary_loop fuel to)
  unfolding boundary_loop
  boundary_loop-Balanced zero to = by_sums (λ w w' u v h. absurd (ground arith))
  boundary_loop-Balanced (suc fuel) to = by_sums (λ w w' u v h.
      elim (Option-cases (next_boundary w.run)) [
        | inl e ↦
            sums_law currency instrument (Balanced-done currency instrument tt) w w' u v
              (ground arith)
        | inr ((venue, step, b), found) ↦ elim (Bool-cases (ltb to b.time)) [
          | inl later ↦
              sums_law currency instrument (Balanced-done currency instrument tt) w w' u v
                (ground arith)
          | inr due ↦
              sums_law currency instrument
                (Balanced->>= currency instrument (expire_due-Balanced b.time) (λ _.
                  Balanced->>= currency instrument (cross_boundary-Balanced venue step b)
                    (λ _. boundary_loop-Balanced fuel to)))
                w w' u v (ground arith)
        ]
      ])
