-- ===== src/Ledger/Settled/Conserved.antt =====
-- The totals of the ledger over a settlement (`settle` of packages/ledger/src/lib.rs).
use bunting.Prelude.{
  ℕ, ◌≡◌, refl, ap, ◌∙◌, arith, some, Bool, Result-cases, inl, inr, true, false, ok, unwrap_or,
  if◌then◌else◌, ◌==◌, [], ◌∷◌,
}
use bunting.Prelude.Int.{ℤ, pos, ◌+ℤ◌, ◌-ℤ◌, int_laws}
use bunting.Prelude.Ord.{nat_ord, pair_ord}
use bunting.Prelude.Map.{Map, get, insert, IsSorted, insert-IsSorted}
use bunting.Prelude.Map.Sums.{sum_of}
use bunting.Prelude.Map.Over.{sum_of-insert_over, moved}
use bunting.Market.{MoneyMinor, Side, buy, sell}
use bunting.Ledger.{
  Ledger, Position, CashBalance, InstrumentTerms, FillParty, Fill, cash_of, position_of, no_cash,
  no_position, notional, terms_of,
}
use bunting.Ledger.Fills.{settle_party, stage_party, Staged, settle, write_all}
use bunting.Ledger.Settled.{gain, sum_of-write_all}
use bunting.Ledger.Settled.Party.{flow, lots, worth, settle_party-moves}

-- An entry's balance and fees in one currency, and its lots of one instrument.
abbrev pub money_in : ℕ → ℕ × ℕ → CashBalance → ℤ
money_in currency (participant, c) b = if c == currency then worth b else pos 0

abbrev pub lots_of : ℕ → ℕ × ℕ → Position → ℤ
lots_of instrument (participant, i) p = if i == instrument then p.quantity else pos 0

picked :
    (here : Bool) (x y z w : ℤ)
    → x ≡ y +ℤ w
    → (if here then x else pos 0) -ℤ z
      ≡ (if here then y else pos 0) -ℤ z +ℤ (if here then w else pos 0)
picked true x y z w h = rw h (omega int_laws)
picked false x y z w h = omega int_laws

both_sides :
    (here : Bool) (x y : ℤ)
    → x +ℤ y ≡ pos 0
    → pos 0 +ℤ (if here then x else pos 0) +ℤ (if here then y else pos 0) ≡ pos 0
both_sides true x y h = let z : pos 0 +ℤ x +ℤ y ≡ x +ℤ y = omega int_laws in z ∙ h
both_sides false x y h = omega int_laws

weightless : (here : Bool) → (if here then pos 0 else pos 0) ≡ pos 0
weightless true = refl
weightless false = refl

own_gain : (x : ℤ) → x -ℤ x ≡ pos 0
own_gain x = omega int_laws

staged_gain : (x y a b w : ℤ) → x +ℤ b ≡ y +ℤ a → a ≡ b +ℤ w → x ≡ y +ℤ w
staged_gain x y a b w h e = moved x y a b h ∙ rw e (omega int_laws)

unchanged :
    (total x g g' g'' a b : ℤ)
    → total ≡ x +ℤ g''
    → g'' ≡ g' +ℤ b
    → g' ≡ g +ℤ a
    → g ≡ pos 0
    → pos 0 +ℤ a +ℤ b ≡ pos 0
    → total ≡ x
unchanged total x g g' g'' a b h h2 h1 h0 z = rw (h, h2, h1, h0, z) (omega int_laws)

lots_cancel : (q : ℤ) → lots buy q +ℤ lots sell q ≡ pos 0
lots_cancel q = omega int_laws

flows_cancel : (v : ℤ) → flow buy v +ℤ flow sell v ≡ pos 0
flows_cancel v = omega int_laws

module _ (l : Ledger) (terms : InstrumentTerms) (fill : Fill) (value : MoneyMinor) where
  abbrev cash_gain : ℕ → ℕ → CashBalance → ℤ
  cash_gain currency = gain (money_in currency) no_cash terms.currency l.cash

  abbrev lots_gain : ℕ → ℕ → Position → ℤ
  lots_gain instrument = gain (lots_of instrument) no_position fill.instrument l.positions

  -- What a side moves in a currency or an instrument that may not be the fill's.
  abbrev moved_money : ℕ → Side → ℤ
  moved_money currency side = if terms.currency == currency then flow side value else pos 0

  abbrev moved_lots : ℕ → Side → ℤ
  moved_lots instrument side =
      if fill.instrument == instrument then lots side fill.quantity else pos 0

  stage_steps :
      (side : Side) (party : FillParty) (staged staged' : Staged)
      → stage_party l terms fill value side (some party) staged ≡ ok staged'
      → (p : Position) × (b : CashBalance) × (settle_party terms fill value side party
            (unwrap_or
              (get party.participant staged.0)
              (position_of l party.participant fill.instrument))
            (unwrap_or
              (get party.participant staged.1)
              (cash_of l party.participant terms.currency))
          ≡ ok (p, b))
        × (staged'.0 ≡ insert party.participant p staged.0)
        × (staged'.1 ≡ insert party.participant b staged.1)
  unfolding stage_party
  stage_steps side party staged staged' h =
      elim (Result-cases (
        settle_party terms fill value side party
          (unwrap_or (get party.participant staged.0)
            (position_of l party.participant fill.instrument))
          (unwrap_or (get party.participant staged.1)
            (cash_of l party.participant terms.currency)))) [
              | inr (x, e) ↦ absurd (ground arith)
              | inl ((p, b), e) ↦ (p, b, e, ground arith, ground arith)
            ]

  stage-gains :
      (currency instrument : ℕ) (side : Side) (party : FillParty) (staged staged' : Staged)
      → IsSorted staged.0
      → IsSorted staged.1
      → stage_party l terms fill value side (some party) staged ≡ ok staged'
      → IsSorted staged'.0
        × IsSorted staged'.1
        × (sum_of (lots_gain instrument) staged'.0
            ≡ sum_of (lots_gain instrument) staged.0 +ℤ moved_lots instrument side)
        × (sum_of (cash_gain currency) staged'.1
            ≡ sum_of (cash_gain currency) staged.1 +ℤ moved_money currency side)
  stage-gains currency instrument side party staged staged' s t h =
      let (p, b, e, ep, eb) = stage_steps side party staged staged' h in
      let (money, quantity) = settle_party-moves terms fill value side party _ _ p b e in
      (
        rw ep (insert-IsSorted party.participant p staged.0 s),
        rw eb (insert-IsSorted party.participant b staged.1 t),
        rw ep (
            staged_gain _ _ _ _ (moved_lots instrument side)
              (sum_of-insert_over (lots_gain instrument)
                (position_of l party.participant fill.instrument) party.participant p staged.0 s
                (own_gain _))
              (picked (fill.instrument == instrument) _ _ _ _ quantity)),
        rw eb (
            staged_gain _ _ _ _ (moved_money currency side)
              (sum_of-insert_over (cash_gain currency) (cash_of l party.participant terms.currency)
                party.participant b staged.1 t (own_gain _))
              (picked (terms.currency == currency) _ _ _ _ money)),
      )

-- The calls that a settlement between two parties makes.
settle_steps :
    (fill : Fill) (l l' : Ledger) (b s : FillParty)
    → fill.buyer ≡ some b
    → fill.seller ≡ some s
    → settle fill l ≡ ok l'
    → (terms : InstrumentTerms) × (value : MoneyMinor) × (bought : Staged) × (sold : Staged)
      × (stage_party l terms fill value buy (some b) ([], []) ≡ ok bought)
      × (stage_party l terms fill value sell (some s) bought ≡ ok sold)
      × (l'.cash ≡ write_all terms.currency sold.1 l.cash)
      × (l'.positions ≡ write_all fill.instrument sold.0 l.positions)
unfolding settle
settle_steps fill l l' b s eb es h = elim (Result-cases (terms_of l fill.instrument)) [
  | inr (x, e) ↦ absurd (ground arith)
  | inl (terms, e) ↦ elim (Result-cases (notional fill.price fill.quantity terms.multiplier)) [
    | inr (x, e1) ↦ absurd (ground arith)
    | inl (value, e1) ↦ elim (Result-cases (stage_party l terms fill value buy (some b) ([], []))) [
      | inr (x, e2) ↦ absurd (ground arith)
      | inl (bought, e2) ↦
          elim (Result-cases (stage_party l terms fill value sell (some s) bought)) [
            | inr (x, e3) ↦ absurd (ground arith)
            | inl (sold, e3) ↦ (terms, value, bought, sold, e2, e3, ground arith, ground arith)
          ]
    ]
  ]
]

-- When a fill between two parties settles in a ledger whose maps are sorted, no money and no lots
-- are made or lost: in every currency the sum of all balances and collected fees stays as it was,
-- and so does the sum of all positions in every instrument, also where buyer and seller are one.
pub settle-conserves :
    (fill : Fill) (l l' : Ledger) (b s : FillParty) (currency instrument : ℕ)
    → IsSorted l.cash
    → IsSorted l.positions
    → fill.buyer ≡ some b
    → fill.seller ≡ some s
    → settle fill l ≡ ok l'
    → (sum_of (money_in currency) l'.cash ≡ sum_of (money_in currency) l.cash)
      × (sum_of (lots_of instrument) l'.positions ≡ sum_of (lots_of instrument) l.positions)
unfolding sum_of ◌+ℤ◌
settle-conserves fill l l' b s currency instrument sc sp eb es h =
    let (terms, value, bought, sold, e2, e3, ec, ep) = settle_steps fill l l' b s eb es h in
    let (s1, t1, q1, m1) =
      stage-gains l terms fill value currency instrument buy b ([], []) bought tt tt e2 in
    let (s2, t2, q2, m2) =
      stage-gains l terms fill value currency instrument sell s bought sold s1 t1 e3 in
    (
      unchanged _ _ _ _ _ _ _
          (ap (sum_of (money_in currency)) ec
            ∙ sum_of-write_all (money_in currency) no_cash terms.currency (λ k. weightless _) sold.1
                l.cash t2 sc)
          m2 m1 refl (both_sides (terms.currency == currency) _ _ (flows_cancel value)),
      unchanged _ _ _ _ _ _ _
          (ap (sum_of (lots_of instrument)) ep
            ∙ sum_of-write_all (lots_of instrument) no_position fill.instrument (λ k. weightless _)
                sold.0 l.positions s2 sp)
          q2 q1 refl (both_sides (fill.instrument == instrument) _ _ (lots_cancel fill.quantity)),
    )

write_all-IsSorted {ℓ} :
    {A : Type ℓ} (second : ℕ) (staged : Map ℕ A) (m : Map (ℕ × ℕ) A)
    → IsSorted m
    → IsSorted (write_all second staged m)
unfolding write_all
write_all-IsSorted second [] m t = t
write_all-IsSorted second ((p, v) ∷ staged) m t =
    write_all-IsSorted second staged (insert (p, second) v m) (insert-IsSorted (p, second) v m t)

pub settle-IsSorted :
    (fill : Fill) (l l' : Ledger) (b s : FillParty)
    → IsSorted l.cash
    → IsSorted l.positions
    → fill.buyer ≡ some b
    → fill.seller ≡ some s
    → settle fill l ≡ ok l'
    → IsSorted l'.cash × IsSorted l'.positions
settle-IsSorted fill l l' b s sc sp eb es h =
    let (terms, value, bought, sold, e2, e3, ec, ep) = settle_steps fill l l' b s eb es h in
    (
      rw ec (write_all-IsSorted terms.currency sold.1 l.cash sc),
      rw ep (write_all-IsSorted fill.instrument sold.0 l.positions sp),
    )
