-- ===== src/Ledger/Settled/Party.antt =====
-- One party of a fill (`settle` of packages/ledger/src/lib.rs): what its balance and position become.
use bunting.Prelude.{
  ◌≡◌, refl, ◌∙◌, arith, Option, none, some, Option-cases, Result-cases, inl, inr, ok,
}
use bunting.Prelude.Int.{
  ℤ, pos, neg, ◌+ℤ◌, ◌-ℤ◌, int_laws, i128, checked, checked_add, checked_sub, checked_add-eq-some,
  checked_sub-eq-some,
}
use bunting.Prelude.Ord.{nat_ord, pair_ord}
use bunting.Market.{QuantityLots, MoneyMinor, Side, buy, sell}
use bunting.Ledger.{Position, CashBalance, Reservation, InstrumentTerms, FillParty, Fill, negate}
use bunting.Ledger.Fills.{release_held, flow_of, settle_party, apply_fill}
use bunting.Ledger.Fills.Basis.{apply_fill-conserves}

-- The money and the lots that come to a side.
abbrev pub flow : Side → MoneyMinor → ℤ
flow buy value = neg value
flow sell value = value

abbrev pub lots : Side → QuantityLots → ℤ
lots buy quantity = quantity
lots sell quantity = pos 0 -ℤ quantity

abbrev pub worth : CashBalance → ℤ
worth b = b.balance +ℤ b.fees

release_held-keeps :
    (side : Side) (q : QuantityLots) (held : Option Reservation) (p : Position) (b : CashBalance)
    (p' : Position) (b' : CashBalance)
    → release_held side q held p b ≡ ok (p', b')
    → (p'.quantity ≡ p.quantity) × (b'.balance ≡ b.balance) × (b'.fees ≡ b.fees)
unfolding release_held
release_held-keeps side q none p b p' b' h = (ground arith, ground arith, ground arith)
release_held-keeps buy q (some r) p b p' b' h = (ground arith, ground arith, ground arith)
release_held-keeps sell q (some r) p b p' b' h = (ground arith, ground arith, ground arith)

flow_of-eq-ok :
    (side : Side) (value : MoneyMinor) (q : QuantityLots) (f d : ℤ)
    → flow_of side value q ≡ ok (f, d)
    → (f ≡ flow side value) × (d ≡ lots side q)
unfolding flow_of negate checked checked_sub
flow_of-eq-ok buy value q f d h = (ground arith, ground arith)
flow_of-eq-ok sell value q f d h = (ground arith, ground arith)

party_steps :
    (terms : InstrumentTerms) (fill : Fill) (value : MoneyMinor) (side : Side) (party : FillParty)
    (p : Position) (b : CashBalance) (p' : Position) (b' : CashBalance)
    → settle_party terms fill value side party p b ≡ ok (p', b')
    → (p₁ : Position) × (b₁ : CashBalance) × (f : ℤ) × (d : ℤ) × (gross : ℤ) × (p₂ : Position)
      × (release_held side fill.quantity party.held p b ≡ ok (p₁, b₁))
      × (flow_of side value fill.quantity ≡ ok (f, d))
      × (checked_add i128 b₁.balance f ≡ some gross)
      × (checked_sub i128 gross party.fee ≡ some b'.balance)
      × (checked_add i128 b₁.fees party.fee ≡ some b'.fees)
      × (apply_fill p₁ d fill.price terms.multiplier ≡ ok p₂)
      × (p'.quantity ≡ p₂.quantity)
unfolding settle_party
party_steps terms fill value side party p b p' b' h =
    elim (Result-cases (release_held side fill.quantity party.held p b)) [
      | inr (x, e) ↦ absurd (ground arith)
      | inl ((p₁, b₁), e) ↦ elim (Result-cases (flow_of side value fill.quantity)) [
        | inr (x, e1) ↦ absurd (ground arith)
        | inl ((f, d), e1) ↦ elim (Option-cases (checked_add i128 b₁.balance f)) [
          | inl e2 ↦ absurd (ground arith)
          | inr (gross, e2) ↦ elim (Result-cases (apply_fill p₁ d fill.price terms.multiplier)) [
            | inr (x, e3) ↦ absurd (ground arith)
            | inl (p₂, e3) ↦
                (p₁, b₁, f, d, gross, p₂, e, e1, e2, ground arith, ground arith, e3, ground arith)
          ]
        ]
      ]
    ]

net_worth :
    (b f g fee net fees fees' : ℤ)
    → g ≡ b +ℤ f
    → net ≡ g -ℤ fee
    → fees' ≡ fees +ℤ fee
    → net +ℤ fees' ≡ b +ℤ fees +ℤ f
net_worth b f g fee net fees fees' hg hn hf = rw (hn, hf, hg) (omega int_laws)

-- A party's money changes by the flow of its side, its fee having gone from the balance to the
-- fees, and its lots by those of its side.
pub settle_party-moves :
    (terms : InstrumentTerms) (fill : Fill) (value : MoneyMinor) (side : Side) (party : FillParty)
    (p : Position) (b : CashBalance) (p' : Position) (b' : CashBalance)
    → settle_party terms fill value side party p b ≡ ok (p', b')
    → (worth b' ≡ worth b +ℤ flow side value)
      × (p'.quantity ≡ p.quantity +ℤ lots side fill.quantity)
settle_party-moves terms fill value side party p b p' b' h =
    let (p₁, b₁, f, d, gross, p₂, e, e1, e2, e3, e4, e5, e6) =
      party_steps terms fill value side party p b p' b' h in
    let (kept, balance, fees) = release_held-keeps side fill.quantity party.held p b p₁ b₁ e in
    let (money, moved_lots) = flow_of-eq-ok side value fill.quantity f d e1 in
    let g = checked_add-eq-some i128 b₁.balance f e2 in
    let n = checked_sub-eq-some i128 gross party.fee e3 in
    let z = checked_add-eq-some i128 b₁.fees party.fee e4 in
    (
      net_worth b₁.balance f gross party.fee b'.balance b₁.fees b'.fees g n z
          ∙ rw (balance, fees, money) refl,
      e6
          ∙ ((apply_fill-conserves p₁ d fill.price terms.multiplier p₂ e5).0
              ∙ rw (kept, moved_lots) refl),
    )
