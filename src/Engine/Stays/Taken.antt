-- ===== src/Engine/Stays/Taken.antt =====
-- What a run knows of an order that `RunState::submit` of packages/bunting-engine/src/lib.rs accepts.
use bunting.Prelude.{ℕ, some, ◌≡◌, ap, ◌∙◌, ok, inl, inr, Bool-cases, if◌then◌else◌, ◌==◌, refl}
use bunting.Prelude.Ord.{nat_ord, pair_ord}
use bunting.Prelude.Map.{get, get-insert}
use bunting.Market.{SubmitOrder}
use bunting.Engine.{Simulation, Work, ListingKey, ListingState}
use bunting.Engine.Admission.{Passed, check_submit}
use bunting.Engine.Admission.Terms.{Admitted, check_submit-Admitted}
use bunting.Engine.Submit.{submit, owned_by}
use bunting.Engine.Stays.{Terms, terms_if, numbering, known}
use bunting.Engine.Stays.Transition.{submit-passes}

-- The terms of an order that has been admitted on a listing.
abbrev pub admitted_terms : SubmitOrder → ListingKey → Passed → Terms
admitted_terms order key p = record {
  order_id = order.order_id;
  participant_id = order.participant_id;
  listing_key = key;
  side = order.side;
  limit_price = (p.admission).reservation_price;
  original_quantity = order.quantity;
  reservation = (p.admission).reservation;
  expires_at = p.expires_at;
}

module _ {sim : Simulation} where
  -- When an order is accepted, it has passed the tests of `check_submit` on its listing: its identity
  -- was free, its expiry is that of its kind at the time, and its reservation and price are those
  -- that the risk engine admits it with, under its participant's limits. The run afterwards knows the
  -- order with exactly these terms; every other order on record keeps its terms, and the run its
  -- identity, counters, participants and kill switches.
  pub submit-taken :
      (order : SubmitOrder) (key : ListingKey) (now : ℕ) (w w' : Work sim) (u : Unit {0})
      → submit order key now w ≡ ok (ok u, w')
      → (listing : ListingState) × (p : Passed) × (get key w.run.listings ≡ some listing)
        × (check_submit w.run order key listing now ≡ ok p)
        × Admitted w.run order listing now p
        × (numbering w'.run ≡ numbering w.run)
        × ((id : ℕ)
            → known id w'.run ≡ (
                if id == order.order_id then some (admitted_terms order key p) else known id w.run))
  submit-taken order key now w w' u h =
      let (listing, p, e, c, s) = submit-passes order key now w w' u h in
      (
        listing,
        p,
        e,
        c,
        check_submit-Admitted w.run order key listing now p c,
        s.numbers,
        λ id.
            s.knows id
            ∙ ap terms_if (get-insert order.order_id id (owned_by order key p) w.run.ownership)
            ∙ elim (Bool-cases (id == order.order_id)) [
              | inl same ↦ rw same refl
              | inr other ↦ rw other refl
            ],
      )
