-- ===== src/Engine/Balanced/Steps.antt =====
-- Submission, cancellation and what the clock brings make no money and no lots
-- (packages/bunting-engine/src/lib.rs).
use bunting.Prelude.{
  ℕ, Bool, true, false, Option, none, some, List, [], ◌∷◌, ◌≡◌, refl, arith, Result, ok, inl, inr,
  Option-cases, Result-cases,
}
use bunting.Prelude.Ord.{nat_ord, pair_ord}
use bunting.Prelude.Map.{get}
use bunting.Market.{PriceTicks, QuantityLots, Side, SubmitOrder}
use bunting.Ledger.{Ledger, LedgerError, Reservation}
use bunting.Ledger.Orders.{open_order, close_order, change_open}
use bunting.Ledger.Settled.Opened.{change_open-conserves}
use bunting.Engine.{Simulation, E, change, with_ledger, ListingKey, CancelReason, OwnedOrder}
use bunting.Engine.Admission.{Passed, check_submit}
use bunting.Engine.Orders.{own, drop_entry, cancel, cancel_all}
use bunting.Engine.Submit.{
  count_live, match_order, note_expiry, rest_remainder, cancel_remainder, rest_or_cancel,
  handle_remainder, after_open, take_order, submit,
}
use bunting.Engine.Balanced.{
  InOrder, Conserves, Balanced, by_sums, sums_law, Balanced-same, Balanced-done, Balanced-change,
  balanced, Balanced-settle_matches,
}

change_open-Conserves :
    (currency instrument participant i : ℕ) (side : Side) (quantity : QuantityLots)
    (r : Reservation) (opening : Bool) (l l' : Ledger)
    → InOrder l
    → change_open participant i side quantity r opening l ≡ ok l'
    → Conserves currency instrument l l'
change_open-Conserves currency instrument participant i side quantity r opening l l' v h =
    let (cash, positions, money, lots) =
      change_open-conserves l l' participant i side quantity r opening currency instrument
        v.cash_sorted v.positions_sorted h in
    record {
      in_order = record { cash_sorted = cash; positions_sorted = positions };
      money = money;
      lots = lots;
    }

module _ {sim : Simulation} (currency instrument : ℕ) where
  abbrev Steady : {A : Type 0} → E sim A → Type 0
  Steady m = Balanced currency instrument m

  pub with_ledger-Balanced :
      (f : Ledger → Result LedgerError Ledger)
      → ((l l' : Ledger) → InOrder l → f l ≡ ok l' → Conserves currency instrument l l')
      → Steady (with_ledger f)
  unfolding with_ledger
  with_ledger-Balanced f law =
      by_sums (λ w w' u v h. law w.run.ledger w'.run.ledger v (ground arith))

  open_order-Balanced :
      (participant i : ℕ) (side : Side) (quantity : QuantityLots) (r : Reservation)
      → Steady (with_ledger (open_order participant i side quantity r))
  unfolding open_order
  open_order-Balanced participant i side quantity r =
      with_ledger-Balanced (open_order participant i side quantity r)
        (change_open-Conserves currency instrument participant i side quantity r true)

  close_order-Balanced :
      (participant i : ℕ) (side : Side) (quantity : QuantityLots) (r : Reservation)
      → Steady (with_ledger (close_order participant i side quantity r))
  unfolding close_order
  close_order-Balanced participant i side quantity r =
      with_ledger-Balanced (close_order participant i side quantity r)
        (change_open-Conserves currency instrument participant i side quantity r false)

  own-Balanced : (id : ℕ) (owned : OwnedOrder) → Steady (change (own id owned))
  own-Balanced id owned = Balanced-change currency instrument (own id owned) (λ run. refl)

  drop_entry-Balanced : (at : Option ℕ) (id : ℕ) → Steady (change (drop_entry at id))
  drop_entry-Balanced none id =
      Balanced-change currency instrument (drop_entry none id) (λ run. refl)
  drop_entry-Balanced (some at) id =
      Balanced-change currency instrument (drop_entry (some at) id) (λ run. refl)

  pub cancel-Balanced : (id : ℕ) (reason : CancelReason) → Steady (cancel id reason)
  unfolding cancel
  cancel-Balanced id reason =
      search (balanced, close_order-Balanced, own-Balanced, drop_entry-Balanced) depth 40

  pub cancel_all-Balanced :
      (reason : CancelReason) (xs : List (ℕ × ListingKey)) → Steady (cancel_all reason xs)
  unfolding cancel_all
  cancel_all-Balanced reason [] = search balanced
  cancel_all-Balanced reason ((id, key) ∷ xs) =
      search (balanced, cancel-Balanced, cancel_all-Balanced reason xs)

  count_live-Balanced : (participant : ℕ) → Steady (count_live participant)
  unfolding count_live
  count_live-Balanced participant =
      Balanced-same currency instrument (count_live participant) (λ w w' u h. ground arith)

  match_order-Balanced :
      (order : SubmitOrder) (key : ListingKey) (p : Passed) → Steady (match_order order key p)
  unfolding match_order
  match_order-Balanced order key p = search (balanced, Balanced-settle_matches)

  note_expiry-Balanced : (at : Option ℕ) (id : ℕ) → Steady (change (note_expiry at id))
  note_expiry-Balanced none id =
      Balanced-change currency instrument (note_expiry none id) (λ run. refl)
  note_expiry-Balanced (some at) id =
      Balanced-change currency instrument (note_expiry (some at) id) (λ run. refl)

  cancel_remainder-Balanced :
      (order : SubmitOrder) (key : ListingKey) (p : Passed) (left : QuantityLots)
      → Steady (cancel_remainder order key p left)
  unfolding cancel_remainder
  cancel_remainder-Balanced order key p left =
      search (balanced, close_order-Balanced, own-Balanced) depth 20

  rest_or_cancel-Balanced :
      (order : SubmitOrder) (key : ListingKey) (p : Passed) (at : Option PriceTicks)
      (left : QuantityLots)
      → Steady (rest_or_cancel order key p at left)
  unfolding rest_or_cancel rest_remainder
  rest_or_cancel-Balanced order key p none left = cancel_remainder-Balanced order key p left
  rest_or_cancel-Balanced order key p (some price) left = search (balanced, note_expiry-Balanced)

  handle_remainder-Balanced :
      (order : SubmitOrder) (key : ListingKey) (p : Passed) (left : QuantityLots)
      → Steady (handle_remainder order key p left)
  unfolding handle_remainder
  handle_remainder-Balanced order key p left =
      search (balanced, cancel_remainder-Balanced, rest_or_cancel-Balanced)

  take_order-Balanced :
      (order : SubmitOrder) (key : ListingKey) (p : Passed) → Steady (take_order order key p)
  unfolding take_order after_open
  take_order-Balanced order key p =
      search
        (
          balanced, open_order-Balanced, own-Balanced, count_live-Balanced, match_order-Balanced,
          handle_remainder-Balanced,
        )
        depth 40

  pub submit-Balanced :
      (order : SubmitOrder) (key : ListingKey) (now : ℕ) → Steady (submit order key now)
  unfolding submit
  submit-Balanced order key now = by_sums (λ w w' r v h.
      elim (Option-cases (get key w.run.listings)) [
        | inl e ↦ absurd (ground arith)
        | inr (l, e) ↦ elim (Result-cases (check_submit w.run order key l now)) [
          | inr (c, x) ↦
              sums_law currency instrument (Balanced-done currency instrument r) w w' r v
                (ground arith)
          | inl (p, x) ↦ elim (Result-cases (take_order order key p w)) [
            | inr (c, t) ↦ absurd (ground arith)
            | inl ((u, next), t) ↦
                sums_law currency instrument (take_order-Balanced order key p) w w' u v
                  (ground arith)
          ]
        ]
      ])
