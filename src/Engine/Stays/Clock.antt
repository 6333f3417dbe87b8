-- ===== src/Engine/Stays/Clock.antt =====
-- What the run clock brings (packages/bunting-engine/src/lib.rs) keeps the numbering and the terms.
use bunting.Prelude.{
  ℕ, zero, suc, Option, none, some, List, [], ◌∷◌, ◌≡◌, refl, arith, inl, inr, Option-cases,
  Bool-cases, ltb, length,
}
use bunting.Prelude.Ord.{nat_ord, pair_ord}
use bunting.Prelude.Map.{get, first, keys}
use bunting.Market.{QuantityLots, PriceTicks}
use bunting.Book.{Cross}
use bunting.Calendar.{Boundary}
use bunting.Engine.{Simulation, RunState, E, change, ListingKey, expired}
use bunting.Engine.Clock.{
  expire_loop, expire_due, settle_crosses, cross_at, auction, auction_all, expire_each,
  keys_of_venue,
}
use bunting.Engine.Sessions.{
  close_listing, close_listings, close_day, mark_one, mark_instruments, day_scores, settle_day,
  end_day, step_venue, cross_boundary,
}
use bunting.Engine.Stays.{
  Keeps, by_law, law, keeps, Keeps->>=, Keeps-done, Keeps-touch, Keeps-same, Keeps-change,
  numbering,
}
use bunting.Engine.Stays.Orders.{settle_fill-Keeps, cancel-Keeps}

module _ {sim : Simulation} where
  settle_crosses-Keeps :
      (key : ListingKey) (price : PriceTicks) (cs : List Cross)
      → Keeps {sim = sim} (settle_crosses key price cs)
  unfolding settle_crosses
  settle_crosses-Keeps key price [] = search keeps
  settle_crosses-Keeps key price (c ∷ cs) =
      search (keeps, settle_fill-Keeps, settle_crosses-Keeps key price cs)

  cross_at-Keeps :
      (key : ListingKey) (o : Option (PriceTicks × QuantityLots))
      → Keeps {sim = sim} (cross_at key o)
  unfolding cross_at
  cross_at-Keeps key none = search keeps
  cross_at-Keeps key (some (price, quantity)) = search (keeps, settle_crosses-Keeps)

  auction-Keeps : (key : ListingKey) → Keeps {sim = sim} (auction key)
  unfolding auction
  auction-Keeps key = search (keeps, cross_at-Keeps)

  auction_all-Keeps : (xs : List ListingKey) → Keeps {sim = sim} (auction_all xs)
  unfolding auction_all
  auction_all-Keeps [] = search keeps
  auction_all-Keeps (key ∷ xs) = search (keeps, auction-Keeps, auction_all-Keeps xs)

  expire_each-Keeps : (xs : List ℕ) → Keeps {sim = sim} (expire_each xs)
  unfolding expire_each
  expire_each-Keeps [] = search keeps
  expire_each-Keeps (id ∷ xs) = search (keeps, cancel-Keeps, expire_each-Keeps xs)

  expire_loop-Keeps : (fuel now : ℕ) → Keeps {sim = sim} (expire_loop fuel now)
  unfolding expire_loop
  expire_loop-Keeps zero now = by_law (λ w w' u h. absurd (ground arith))
  expire_loop-Keeps (suc fuel) now = by_law (λ w w' u h.
      elim (Option-cases (first w.run.expiries)) [
        | inl e ↦ law (Keeps-done tt) w w' u (ground arith)
        | inr (((at, id), v), found) ↦ elim (Bool-cases (ltb now at)) [
          | inl later ↦ law (Keeps-done tt) w w' u (ground arith)
          | inr due ↦ elim (Option-cases (get id w.run.ownership)) [
            | inl e ↦ absurd (ground arith)
            | inr (owned, o) ↦
                law
                  (Keeps->>= (Keeps-touch owned.listing_key)
                    (λ _. Keeps->>= (cancel-Keeps id expired) (λ _. expire_loop-Keeps fuel now)))
                  w w' u (ground arith)
          ]
        ]
      ])

  pub expire_due-Keeps : (now : ℕ) → Keeps {sim = sim} (expire_due now)
  unfolding expire_due
  expire_due-Keeps now =
      by_law (λ w. law (expire_loop-Keeps (suc (suc (length w.run.expiries))) now) w)

  mark_one-Keeps :
      (instrument : ℕ) (price : Option PriceTicks) (others : E sim (List (ℕ × PriceTicks)))
      → Keeps others
      → Keeps (mark_one instrument price others)
  unfolding mark_one
  mark_one-Keeps instrument none others k = k
  mark_one-Keeps instrument (some price) others k = search keeps

  mark_instruments-Keeps : (xs : List ℕ) → Keeps {sim = sim} (mark_instruments xs)
  unfolding mark_instruments
  mark_instruments-Keeps [] = search keeps
  mark_instruments-Keeps (instrument ∷ xs) =
      search (keeps, mark_one-Keeps, mark_instruments-Keeps xs)

  close_listings-same :
      (xs : List ListingKey) (run : RunState sim)
      → (numbering (close_listings xs run).1 ≡ numbering run)
        × ((close_listings xs run).1.ownership ≡ run.ownership)
  unfolding close_listings close_listing
  close_listings-same [] run = (refl, refl)
  close_listings-same (key ∷ xs) run =
      let (n, o) = close_listings-same xs (close_listing key run) in (ground arith, ground arith)

  close_day-Keeps : (venue : ℕ) → Keeps {sim = sim} (close_day venue)
  unfolding close_day
  close_day-Keeps venue = Keeps-same (close_day venue) (λ w w' x h.
      let (n, o) = close_listings-same (keys_of_venue venue (keys w.run.listings)) w.run in
      (ground arith, ground arith))

  day_scores-Keeps : Keeps (day_scores {sim = sim})
  day_scores-Keeps = Keeps-same day_scores (λ w w' x h. (ground arith, ground arith))

  settle_day-Keeps : (day : ℕ) → Keeps {sim = sim} (settle_day day)
  unfolding settle_day
  settle_day-Keeps day = search (keeps, mark_instruments-Keeps, day_scores-Keeps)

  end_day-Keeps : (venue : ℕ) (b : Boundary) → Keeps {sim = sim} (end_day venue b)
  unfolding end_day
  end_day-Keeps venue b = search (keeps, close_day-Keeps, settle_day-Keeps) depth 20

  step_venue-Keeps : (venue step : ℕ) → Keeps {sim = sim} (change (step_venue venue step))
  step_venue-Keeps venue step = Keeps-change (step_venue venue step) (λ run. (refl, refl))

  pub cross_boundary-Keeps :
      (venue step : ℕ) (b : Boundary) → Keeps {sim = sim} (cross_boundary venue step b)
  unfolding cross_boundary
  cross_boundary-Keeps venue step b =
      search (keeps, step_venue-Keeps, auction_all-Keeps, expire_each-Keeps, end_day-Keeps) depth 40
