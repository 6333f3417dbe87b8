-- ===== src/Engine/Switched.antt =====
-- What a list of cancels does to the orders of a run, and the kill switch
-- (packages/bunting-engine/src/lib.rs).
pub mod Mass
use bunting.Prelude.{
  ℕ, Bool, true, false, ◌&&◌, ◌||◌, none, some, List, [], ◌∷◌, ◌++◌, ◌≡◌, refl, sym, ap, ◌∙◌, arith,
  ok, inl, inr, Option, Option-cases, Bool-cases, Result-cases, ◌==◌, ==_iff,
}
use bunting.Prelude.Ord.{nat_ord, pair_ord}
use bunting.Prelude.Map.{
  Map, get, insert, contains_key, get-insert, get-insert_self, IsSorted, Above, Above-get-none,
}
use bunting.Prelude.Map
use bunting.Engine.{
  Simulation, Work, OwnedOrder, is_active, CancelReason, ListingKey, kill_switch,
  kill_switch_activated,
}
use bunting.Engine.Orders.{cancel, cancel_all, closed_out}
use bunting.Engine.Transition.{live_where, activate_kill_switch}
use bunting.Engine.Canceled.{cancel-owned, cancel-ok, cancel-switches}

listed : ℕ → List (ℕ × ListingKey) → Bool
listed j [] = false
listed j ((id, key) ∷ rest) = (j == id) || listed j rest

listed-live_where :
    (selects : OwnedOrder → Bool) (j : ℕ) (owned : OwnedOrder) (m : Map ℕ OwnedOrder)
    → get j m ≡ some owned
    → (selects owned && is_active owned.state) ≡ true
    → listed j (live_where selects m) ≡ true
unfolding get live_where listed
listed-live_where selects j owned [] h picked = cc
listed-live_where selects j owned ((i, o) ∷ m) h picked =
    ground (arith, listed-live_where selects j owned m)

unlisted :
    (selects : OwnedOrder → Bool) (j : ℕ) (m : Map ℕ OwnedOrder)
    → get j m ≡ none
    → listed j (live_where selects m) ≡ false
unfolding get live_where listed
unlisted selects j [] h = refl
unlisted selects j ((i, o) ∷ m) h = ground (arith, unlisted selects j m)

unlisted-live_where :
    (selects : OwnedOrder → Bool) (j : ℕ) (owned : OwnedOrder) (m : Map ℕ OwnedOrder)
    → IsSorted m
    → get j m ≡ some owned
    → (selects owned && is_active owned.state) ≡ false
    → listed j (live_where selects m) ≡ false
unfolding get live_where listed
unlisted-live_where selects j owned [] s h passed = cc
unlisted-live_where selects j owned ((i, o) ∷ m) (a, s) h passed = elim (Bool-cases (j == i)) [
  | inl e ↦ ground (arith, unlisted selects j m, Above-get-none i m a, (==_iff j i).0 e)
  | inr e ↦ ground (arith, unlisted-live_where selects j owned m s)
]

abbrev owner_is : ℕ → OwnedOrder → Bool
owner_is participant owned = owned.participant_id == participant

-- Whether there is an order, it is the participant's and it is live.
abbrev pub owns_live : ℕ → Option OwnedOrder → Bool
owns_live participant none = false
owns_live participant (some owned) = owner_is participant owned && is_active owned.state

module _ {sim : Simulation} (reason : CancelReason) where
  abbrev touched : ListingKey → Work sim → Work sim
  touched key w = record w { changed = Map.insert key tt w.changed }

  cancel_all-splits :
      (id : ℕ) (key : ListingKey) (rest : List (ℕ × ListingKey)) (w w' : Work sim) (u : Unit {0})
      → cancel_all reason ((id, key) ∷ rest) w ≡ ok (u, w')
      → (next : Work sim) × (owned : OwnedOrder) × (next.run.ownership
          ≡ insert id (closed_out owned) w.run.ownership)
        × (next.run.kill_switched ≡ w.run.kill_switched)
        × (cancel_all reason rest next ≡ ok (u, w'))
  unfolding cancel_all
  cancel_all-splits id key rest w w' u h = elim (Result-cases (cancel id reason (touched key w))) [
    | inr (e, c) ↦ absurd (ground arith)
    | inl ((v, next), c) ↦
        let (owned, o, _) = cancel-owned id reason (touched key w) c in
        let (owns, _) = cancel-ok id reason (touched key w) next v owned o c in
        (
          next,
          owned,
          owns,
          cancel-switches id reason (touched key w) next v owned o c,
          ground arith,
        )
  ]

  cancel_all-others :
      (xs : List (ℕ × ListingKey)) (w w' : Work sim) (u : Unit {0}) (j : ℕ)
      → cancel_all reason xs w ≡ ok (u, w')
      → listed j xs ≡ false
      → get j w'.run.ownership ≡ get j w.run.ownership
  unfolding listed cancel_all
  cancel_all-others [] w w' u j h l = ground arith
  cancel_all-others ((id, key) ∷ rest) w w' u j h l =
      let (next, owned, owns, _, h') = cancel_all-splits id key rest w w' u h in
      ground (
        arith,
        cancel_all-others rest next w' u j h',
        ap (get j) owns,
        get-insert id j (closed_out owned) w.run.ownership,
      )

  cancel_all-listed :
      (xs : List (ℕ × ListingKey)) (w w' : Work sim) (u : Unit {0}) (j : ℕ) (left : OwnedOrder)
      → cancel_all reason xs w ≡ ok (u, w')
      → listed j xs ≡ true
      → get j w'.run.ownership ≡ some left
      → is_active left.state ≡ false
  unfolding listed
  cancel_all-listed [] w w' u j left h l g = cc
  cancel_all-listed ((id, key) ∷ rest) w w' u j left h l g =
      let (next, owned, owns, _, h') = cancel_all-splits id key rest w w' u h in
      elim (Bool-cases (listed j rest)) [
        | inl later ↦ cancel_all-listed rest next w' u j left h' later g
        | inr never ↦
            let same : get j next.run.ownership ≡ some left =
              sym (cancel_all-others rest next w' u j h' never) ∙ g in
            ground
              (arith, same, ap (get j) owns, get-insert id j (closed_out owned) w.run.ownership)
      ]

  cancel_all-switches :
      (xs : List (ℕ × ListingKey)) (w w' : Work sim) (u : Unit {0})
      → cancel_all reason xs w ≡ ok (u, w')
      → w'.run.kill_switched ≡ w.run.kill_switched
  unfolding cancel_all
  cancel_all-switches [] w w' u h = ground arith
  cancel_all-switches ((id, key) ∷ rest) w w' u h =
      let (next, _, _, same, h') = cancel_all-splits id key rest w w' u h in
      cancel_all-switches rest next w' u h' ∙ same

module _ {sim : Simulation} where
  none_live :
      (selects : OwnedOrder → Bool) (ready w' : Work sim) (u : Unit {0})
      → cancel_all kill_switch (live_where selects ready.run.ownership) ready ≡ ok (u, w')
      → (j : ℕ) (left : OwnedOrder) → get j w'.run.ownership ≡ some left
      → selects left ≡ true
      → is_active left.state ≡ false
  none_live selects ready w' u h j left g own =
      let xs : List (ℕ × ListingKey) = live_where selects ready.run.ownership in
      elim (Bool-cases (listed j xs)) [
        | inl l ↦ cancel_all-listed kill_switch xs ready w' u j left h l g
        | inr l ↦
            let before : get j ready.run.ownership ≡ some left =
              sym (cancel_all-others kill_switch xs ready w' u j h l) ∙ g in
            elim (Bool-cases (is_active left.state)) [
              | inr e ↦ e
              | inl e ↦ absurd (
                  ground (
                    arith,
                    l,
                    listed-live_where selects j left ready.run.ownership before (rw (own, e) refl),
                  ))
            ]
      ]

  abbrev switched : ℕ → Work sim → Work sim
  switched participant w = record w {
    run = record w.run { kill_switched = Map.insert participant tt w.run.kill_switched };
    payloads = w.payloads ++ kill_switch_activated ∷ [];
  }

  -- When a participant's kill switch is thrown without an error, the kill-switched participants are
  -- those of before and this one, whether it has orders or not, and no order on record is a live one
  -- of this participant.
  pub activate_kill_switch-cancels :
      (participant : ℕ) (w w' : Work sim) (u : Unit {0})
      → activate_kill_switch participant w ≡ ok (u, w')
      → ((p : ℕ)
          → contains_key p w'.run.kill_switched
            ≡ ((p == participant) || contains_key p w.run.kill_switched))
        × ((j : ℕ) → owns_live participant (get j w'.run.ownership) ≡ false)
  unfolding activate_kill_switch
  activate_kill_switch-cancels participant w w' u h =
      let xs : List (ℕ × ListingKey) = live_where (owner_is participant) w.run.ownership in
      let same : w'.run.kill_switched ≡ Map.insert participant tt w.run.kill_switched =
        cancel_all-switches kill_switch xs (switched participant w) w' u h in
      (
        λ p.
            ap (contains_key p) same
            ∙ ground (arith, get-insert participant p tt w.run.kill_switched),
        λ j. elim (Option-cases (get j w'.run.ownership)) [
          | inl n ↦ rw n refl
          | inr (left, g) ↦ elim (Bool-cases (owner_is participant left)) [
            | inl own ↦
                let dead =
                  none_live (owner_is participant) (switched participant w) w' u h j left g own in
                rw (g, own, dead) refl
            | inr other ↦ rw (g, other) refl
          ]
        ],
      )

  -- When a participant's kill switch is thrown without an error, on a run whose orders are in key
  -- order, an order of another participant, or one that was not live, is as it was.
  pub activate_kill_switch-spares :
      (participant : ℕ) (w w' : Work sim) (u : Unit {0})
      → IsSorted w.run.ownership
      → activate_kill_switch participant w ≡ ok (u, w')
      → (j : ℕ) (owned : OwnedOrder) → get j w.run.ownership ≡ some owned
      → ((owned.participant_id == participant) && is_active owned.state) ≡ false
      → get j w'.run.ownership ≡ some owned
  unfolding activate_kill_switch
  activate_kill_switch-spares participant w w' u s h j owned g passed =
      let xs : List (ℕ × ListingKey) = live_where (owner_is participant) w.run.ownership in
      cancel_all-others kill_switch xs (switched participant w) w' u j h
        (unlisted-live_where (owner_is participant) j owned w.run.ownership s g passed)
      ∙ g
