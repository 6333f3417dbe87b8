-- ===== src/Ledger/Settled/Opened.antt =====
-- The totals of the ledger when an order is opened or closed (`change_open` of
-- packages/ledger/src/lib.rs).
use bunting.Prelude.{
  ℕ, Bool, true, false, ◌≡◌, refl, ap, ◌∙◌, arith, ok, inl, inr, Option-cases, Result-cases,
  if◌then◌else◌, ◌==◌,
}
use bunting.Prelude.Int.{ℤ, pos, ◌+ℤ◌, int_laws}
use bunting.Prelude.Ord.{nat_ord, pair_ord}
use bunting.Prelude.Map.{insert, IsSorted, insert-IsSorted}
use bunting.Prelude.Map.Sums.{sum_of}
use bunting.Prelude.Map.Over.{sum_of-insert_over, moved}
use bunting.Market.{QuantityLots, Side, buy, sell}
use bunting.Ledger.{
  Ledger, Position, CashBalance, Reservation, InstrumentTerms, cash_of, position_of, no_cash,
  no_position, terms_of,
}
use bunting.Ledger.Orders.{change_side, change_open, signed}
use bunting.Ledger.Settled.Party.{worth}
use bunting.Ledger.Settled.Conserved.{money_in, lots_of}

change_side-keeps :
    (side : Side) (quantity delta : QuantityLots) (r : Reservation) (opening : Bool)
    (p p' : Position) (b b' : CashBalance)
    → change_side side quantity delta r opening p b ≡ ok (p', b')
    → (p'.quantity ≡ p.quantity) × (worth b' ≡ worth b)
unfolding change_side
change_side-keeps buy quantity delta r opening p p' b b' h = (ground arith, ground arith)
change_side-keeps sell quantity delta r opening p p' b b' h = (ground arith, ground arith)

unmoved : (x y a b : ℤ) → x +ℤ b ≡ y +ℤ a → a ≡ b → x ≡ y
unmoved x y a b h e = moved x y a b h ∙ rw e (omega int_laws)

weigh : (here : Bool) (x y : ℤ) → x ≡ y → (if here then x else pos 0) ≡ (if here then y else pos 0)
weigh here x y h = rw h refl

nothing : (here : Bool) → (if here then pos 0 else pos 0) ≡ pos 0
nothing true = refl
nothing false = refl

module _ (l l' : Ledger) (participant instrument : ℕ) (side : Side) (quantity : QuantityLots)
    (r : Reservation) (opening : Bool) where
  change_open-steps :
      change_open participant instrument side quantity r opening l ≡ ok l'
      → (terms : InstrumentTerms) × (delta : QuantityLots) × (p : Position) × (b : CashBalance)
        × (change_side side quantity delta r opening
              (position_of l participant instrument)
              (cash_of l participant terms.currency)
            ≡ ok (p, b))
        × (l'.positions ≡ insert (participant, instrument) p l.positions)
        × (l'.cash ≡ insert (participant, terms.currency) b l.cash)
  unfolding change_open
  change_open-steps h = elim (Result-cases (terms_of l instrument)) [
    | inr (x, e) ↦ absurd (ground arith)
    | inl (terms, e) ↦ elim (Option-cases (signed opening quantity)) [
      | inl n ↦ absurd (ground arith)
      | inr (delta, n) ↦
          elim (Result-cases (
            change_side side quantity delta r opening (position_of l participant instrument)
              (cash_of l participant terms.currency))) [
                | inr (x, c) ↦ absurd (ground arith)
                | inl ((p, b), c) ↦ (terms, delta, p, b, c, ground arith, ground arith)
              ]
    ]
  ]

  pub change_open-conserves :
      (currency i : ℕ)
      → IsSorted l.cash
      → IsSorted l.positions
      → change_open participant instrument side quantity r opening l ≡ ok l'
      → IsSorted l'.cash
        × IsSorted l'.positions
        × (sum_of (money_in currency) l'.cash ≡ sum_of (money_in currency) l.cash)
        × (sum_of (lots_of i) l'.positions ≡ sum_of (lots_of i) l.positions)
  unfolding ◌+ℤ◌
  change_open-conserves currency i sc sp h =
      let (terms, delta, p, b, c, ep, eb) = change_open-steps h in
      let (same_lots, same_worth) = change_side-keeps side quantity delta r opening _ p _ b c in
      (
        rw eb (insert-IsSorted (participant, terms.currency) b l.cash sc),
        rw ep (insert-IsSorted (participant, instrument) p l.positions sp),
        ap (sum_of (money_in currency)) eb
            ∙ unmoved _ _ _ _
                (sum_of-insert_over (money_in currency) no_cash (participant, terms.currency) b
                  l.cash sc (nothing (terms.currency == currency)))
                (weigh (terms.currency == currency) _ _ same_worth),
        ap (sum_of (lots_of i)) ep
            ∙ unmoved _ _ _ _
                (sum_of-insert_over (lots_of i) no_position (participant, instrument) p l.positions
                  sp (nothing (instrument == i)))
                (weigh (instrument == i) _ _ same_lots),
      )
