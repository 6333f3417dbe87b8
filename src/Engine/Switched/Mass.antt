-- ===== src/Engine/Switched/Mass.antt =====
-- What a mass cancel does to the orders of a run (packages/bunting-engine/src/lib.rs).
use bunting.Prelude.{
  ℕ, true, false, ◌&&◌, Option, some, List, [], ◌∷◌, ◌≡◌, refl, sym, ◌∙◌, arith, ok, inl, inr, Bool,
  Bool-cases, map,
}
use bunting.Prelude.Ord.{nat_ord, pair_ord}
use bunting.Prelude.Map.{Map, get, values}
use bunting.Engine.{Simulation, Work, OwnedOrder, is_active, ListingKey, emit, domain}
use bunting.Engine
use bunting.Engine.Orders.{cancel_all}
use bunting.Engine.Administer.{live_owned, mass_cancel_live, selected_by}
use bunting.Engine.Stays.{>>=-ok}
use bunting.Engine.Switched.{listed, cancel_all-others, cancel_all-listed}

listed-live_owned :
    (selects : OwnedOrder → Bool) (j : ℕ) (owned : OwnedOrder) (m : Map ℕ OwnedOrder)
    → get j m ≡ some owned
    → owned.order_id ≡ j
    → (is_active owned.state && selects owned) ≡ true
    → listed j (live_owned selects (values m)) ≡ true
unfolding get live_owned listed
listed-live_owned selects j owned [] h k picked = cc
listed-live_owned selects j owned ((i, o) ∷ m) h k picked =
    ground (arith, listed-live_owned selects j owned m)

module _ {sim : Simulation} where
  -- When a mass cancel succeeds on a run whose orders are on record under their own identities, no
  -- order of the participant and the instrument that it names, or of any where it names none, is
  -- live afterwards.
  pub mass_cancel_live-cancels :
      (participant instrument : Option ℕ) (w w' : Work sim) (u : Unit {0})
      → ((j : ℕ) (owned : OwnedOrder) → get j w.run.ownership ≡ some owned → owned.order_id ≡ j)
      → mass_cancel_live participant instrument w ≡ ok (u, w')
      → (j : ℕ) (left : OwnedOrder) → get j w'.run.ownership ≡ some left
      → selected_by participant instrument left ≡ true
      → is_active left.state ≡ false
  unfolding mass_cancel_live
  mass_cancel_live-cancels participant instrument w w' u keyed h j left g own =
      let xs : List (ℕ × ListingKey) =
        live_owned (selected_by participant instrument) (values w.run.ownership) in
      let (v, next, c, h') =
        >>=-ok (cancel_all Engine.CancelReason.mass_cancel xs)
          (λ _. emit (domain (sim.mass_cancel_completed (map (λ e. e.0) xs)))) w w' u h in
      let g' : get j next.run.ownership ≡ some left = ground arith in
      elim (Bool-cases (listed j xs)) [
        | inl l ↦ cancel_all-listed Engine.CancelReason.mass_cancel xs w next v j left c l g'
        | inr l ↦
            let before : get j w.run.ownership ≡ some left =
              sym (cancel_all-others Engine.CancelReason.mass_cancel xs w next v j c l) ∙ g' in
            elim (Bool-cases (is_active left.state)) [
              | inr e ↦ e
              | inl e ↦ absurd (
                  ground (
                    arith,
                    l,
                    listed-live_owned (selected_by participant instrument) j left w.run.ownership
                        before (keyed j left before) (rw (e, own) refl),
                  ))
            ]
      ]
