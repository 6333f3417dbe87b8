-- ===== src/Ledger/Fills/Flat.antt =====
-- Closing a position (`apply_fill` of packages/ledger/src/lib.rs).
use bunting.Prelude.{ℕ, suc, ◌*◌, ◌/◌, ◌<◌, ◌≡◌, ◌≢◌, ◌∙◌, sym, arith, ok}
use bunting.Prelude.Int.{
  ℤ, pos, negsuc, neg, magnitude, tdiv, checked, checked_mul, ◌*ℤ◌, ◌+ℤ◌, ◌-ℤ◌, int_laws,
  checked_add-eq-some, i64,
}
use bunting.Market.{PriceTicks, QuantityLots, MoneyMinor}
use bunting.Ledger.{Position}
use bunting.Ledger.Fills.{apply_fill, closed_lots, closed_change, removed_share}
use bunting.Ledger.Fills.Basis.{apply_fill_steps, next_basis-eq-ok}

closes_all :
    (q d : ℤ)
    → q ≢ pos 0
    → q +ℤ d ≡ pos 0
    → (closed_lots q d ≡ magnitude q) × (closed_change q (magnitude q) ≡ d) × (0 < magnitude q)
unfolding closed_lots closed_change ◌+ℤ◌ neg
closes_all q d h e = (ground arith, ground arith, ground arith)

div_whole : (k m : ℕ) → 0 < m → k * m / m ≡ k
div_whole k m h = grind arith

whole_share : (b : ℤ) (m : ℕ) → 0 < m → tdiv (b *ℤ pos m) m ≡ b
unfolding tdiv ◌*ℤ◌
whole_share (pos b) m h = ground (arith, div_whole b m h, div_whole 0 m h)
whole_share (negsuc b) m h = ground (arith, div_whole (suc b) m h, div_whole 0 m h)

removed_share-eq-ok :
    (b q : ℤ) (m : ℕ) {r : MoneyMinor}
    → 0 < m
    → removed_share b q m ≡ ok r
    → r ≡ tdiv (b *ℤ pos m) (magnitude q)
unfolding removed_share checked_mul checked
removed_share-eq-ok b q m h e = ground arith

zero_times : (u : ℤ) → pos 0 *ℤ u ≡ pos 0
unfolding ◌*ℤ◌
zero_times u = ground arith

nothing_left : (b d u : ℤ) → b -ℤ b +ℤ (d -ℤ d) *ℤ u ≡ pos 0
nothing_left b d u =
    let z : d -ℤ d ≡ pos 0 = omega int_laws in rw (z, zero_times u) (omega int_laws)

basis_of_rest : (b r d c u x : ℤ) → x ≡ b -ℤ r +ℤ (d -ℤ c) *ℤ u → r ≡ b → c ≡ d → x ≡ pos 0
basis_of_rest b r d c u x e hr hc = rw (e, hr, hc) (nothing_left b d u)

-- When a fill of a position that holds or owes lots succeeds and leaves it with none, its cost basis
-- is zero.
pub apply_fill-flat :
    (p : Position) (delta : QuantityLots) (price : PriceTicks) (multiplier : ℤ) (p' : Position)
    → p.quantity ≢ pos 0
    → apply_fill p delta price multiplier ≡ ok p'
    → p'.quantity ≡ pos 0
    → p'.cost_basis ≡ pos 0
apply_fill-flat p delta price multiplier p' held h flat =
    let (unit, removed, realized, e, e1, e2, e3, e4, e5) =
      apply_fill_steps p delta price multiplier p' h in
    let sum : p.quantity +ℤ delta ≡ pos 0 =
      sym (checked_add-eq-some i64 p.quantity delta e) ∙ flat in
    let (lots, change, some_lots) = closes_all p.quantity delta held sum in
    let share : removed ≡ p.cost_basis =
      removed_share-eq-ok p.cost_basis p.quantity (magnitude p.quantity) some_lots (rw lots at e2)
      ∙ whole_share p.cost_basis (magnitude p.quantity) some_lots in
    basis_of_rest p.cost_basis removed delta _ unit p'.cost_basis
      (next_basis-eq-ok p.cost_basis removed delta _ unit e4) share (rw lots change)
