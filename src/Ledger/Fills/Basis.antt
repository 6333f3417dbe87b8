-- ===== src/Ledger/Fills/Basis.antt =====
-- The cost basis under fills (`apply_fill` of packages/ledger/src/lib.rs).
use bunting.Prelude.{inl, inr, Option-cases, Result-cases, some, ◌≡◌, arith, ok}
use bunting.Prelude.Int.{
  ℤ, neg, i128, i64, checked, checked_add, checked_sub, checked_mul, ◌*ℤ◌, ◌+ℤ◌, ◌-ℤ◌, int_laws,
  checked_add-eq-some, checked_mul-eq-some,
}
use bunting.Prelude.Mul.{ -ℤ_*ℤ}
use bunting.Market.{PriceTicks, QuantityLots, MoneyMinor}
use bunting.Ledger.{Position}
use bunting.Ledger.Fills.{
  apply_fill, closed_lots, closed_change, removed_share, realized_gain, next_basis,
}

pub realized_gain-eq-ok :
    (c u r : ℤ) {v : MoneyMinor} → realized_gain c u r ≡ ok v → v ≡ neg (c *ℤ u) -ℤ r
unfolding realized_gain checked_mul checked_sub checked
realized_gain-eq-ok c u r h = ground arith

pub next_basis-eq-ok :
    (b r d c u : ℤ) {v : MoneyMinor} → next_basis b r d c u ≡ ok v → v ≡ b -ℤ r +ℤ (d -ℤ c) *ℤ u
unfolding next_basis checked_mul checked_sub checked_add checked
next_basis-eq-ok b r d c u h = ground arith

-- The checked steps of a fill that succeeds.
pub apply_fill_steps :
    (p : Position) (delta : QuantityLots) (price : PriceTicks) (multiplier : ℤ) (p' : Position)
    → apply_fill p delta price multiplier ≡ ok p'
    → (unit : ℤ) × (removed : ℤ) × (realized : ℤ) × (checked_add i64 p.quantity delta
        ≡ some p'.quantity)
      × (checked_mul i128 price multiplier ≡ some unit)
      × (removed_share p.cost_basis p.quantity (closed_lots p.quantity delta) ≡ ok removed)
      × (realized_gain (closed_change p.quantity (closed_lots p.quantity delta)) unit removed
          ≡ ok realized)
      × (next_basis p.cost_basis removed delta
            (closed_change p.quantity (closed_lots p.quantity delta))
            unit
          ≡ ok p'.cost_basis)
      × (checked_add i128 p.realized_pnl realized ≡ some p'.realized_pnl)
unfolding apply_fill
apply_fill_steps p delta price multiplier p' h =
    let closed = closed_lots p.quantity delta in
    elim (Option-cases (checked_mul i128 price multiplier)) [
      | inl e ↦ absurd (ground arith)
      | inr (unit, e) ↦ elim (Result-cases (removed_share p.cost_basis p.quantity closed)) [
        | inr (x, e') ↦ absurd (ground arith)
        | inl (removed, e') ↦
            elim (Result-cases (realized_gain (closed_change p.quantity closed) unit removed)) [
              | inr (x, e'') ↦ absurd (ground arith)
              | inl (realized, e'') ↦
                  (unit, removed, realized, ground arith, e, e', e'', ground arith, ground arith)
            ]
      ]
    ]

pub split_value :
    (b r g d c u : ℤ) → (b -ℤ r +ℤ (d -ℤ c) *ℤ u) -ℤ (g +ℤ (neg (c *ℤ u) -ℤ r)) ≡ b -ℤ g +ℤ d *ℤ u
split_value b r g d c u = rw (-ℤ_*ℤ d c u) (omega int_laws)

conserved :
    (b r g d c u w x y z : ℤ)
    → x ≡ b -ℤ r +ℤ (d -ℤ c) *ℤ u
    → y ≡ g +ℤ z
    → z ≡ neg (c *ℤ u) -ℤ r
    → u ≡ w
    → x -ℤ y ≡ b -ℤ g +ℤ d *ℤ w
conserved b r g d c u w x y z hx hy hz hu = rw (hx, hy, hz, ← hu) (split_value b r g d c u)

apply_fill_frame :
    (p : Position) (delta : QuantityLots) (price : PriceTicks) (multiplier : ℤ) (p' : Position)
    → apply_fill p delta price multiplier ≡ ok p'
    → p' ≡ record p {
      quantity = p'.quantity;
      cost_basis = p'.cost_basis;
      realized_pnl = p'.realized_pnl;
    }
unfolding apply_fill
apply_fill_frame p delta price multiplier p' h = ground arith

-- When a fill of `delta` signed lots succeeds, the quantity grows by `delta`, the cost basis less
-- the realized profit grows by exactly `delta * price * multiplier` whatever the division of the
-- basis rounds to, and no other field changes.
pub apply_fill-conserves :
    (p : Position) (delta : QuantityLots) (price : PriceTicks) (multiplier : ℤ) (p' : Position)
    → apply_fill p delta price multiplier ≡ ok p'
    → (p'.quantity ≡ p.quantity +ℤ delta)
      × (p'.cost_basis -ℤ p'.realized_pnl
          ≡ p.cost_basis -ℤ p.realized_pnl +ℤ delta *ℤ (price *ℤ multiplier))
      × (p' ≡ record p {
        quantity = p'.quantity;
        cost_basis = p'.cost_basis;
        realized_pnl = p'.realized_pnl;
      })
apply_fill-conserves p delta price multiplier p' h =
    let (unit, removed, realized, e, e1, e2, e3, e4, e5) =
      apply_fill_steps p delta price multiplier p' h in
    let c = closed_change p.quantity (closed_lots p.quantity delta) in
    let b = next_basis-eq-ok p.cost_basis removed delta c unit e4 in
    let g = checked_add-eq-some i128 p.realized_pnl realized e5 in
    let r = realized_gain-eq-ok c unit removed e3 in
    let u = checked_mul-eq-some i128 price multiplier e1 in
    (
      checked_add-eq-some i64 p.quantity delta e,
      conserved _ _ _ _ _ _ _ _ _ _ b g r u,
      apply_fill_frame p delta price multiplier p' h,
    )
