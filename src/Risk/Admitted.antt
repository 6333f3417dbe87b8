-- ===== src/Risk/Admitted.antt =====
-- What an admitted order satisfies (`admit` of packages/risk-engine/src/lib.rs), and that the
-- ledger opens it.
use bunting.Prelude.{
  ℕ, ◌≤◌, Bool, true, false, inl, inr, Option-cases, Result-cases, Bool-cases, Option, some, ◌≡◌,
  subst, arith, ok,
}
use bunting.Prelude.Int.{
  ℤ, pos, magnitude, i64, i128, ltb_ℤ, ◌≤ℤ◌, ◌<ℤ◌, checked_add, checked_sub, checked_mul, ◌*ℤ◌,
  ◌-ℤ◌, ◌+ℤ◌, checked, fits, negsuc,
}
use bunting.Market.{PriceTicks, SubmitOrder, Side, buy, sell, MoneyMinor, QuantityLots}
use bunting.Prelude.Ord.{nat_ord, pair_ord}
use bunting.Prelude.Map
use bunting.Ledger.{
  Ledger, InstrumentTerms, Position, CashBalance, Reservation, terms_of, cash_of, position_of,
  available_cash, available_lots, per_lot_total, cash_per_lot, notional,
}
use bunting.Ledger.Orders.{open_order, change_open, change_side, insufficient}
use bunting.Risk.{
  RiskLimits, ListingTerms, Admission, admit, price_of, reservation_for, add3, worst_case,
}

-- The steps of an admission that succeeds.
pub admit_steps :
    (limits : RiskLimits) (enabled : Bool) (order : SubmitOrder) (listing : ListingTerms)
    (l : Ledger) (market_price : Option PriceTicks) (a : Admission)
    → admit limits enabled order listing l market_price ≡ ok a
    → let position = position_of l order.participant_id order.instrument_id in
      (terms : InstrumentTerms) × (total : ℤ) × (worst : ℤ) × (enabled ≡ true)
      × (pos 0 <ℤ order.quantity)
      × (terms_of l order.instrument_id ≡ ok terms)
      × (price_of listing order.kind market_price ≡ ok a.reservation_price)
      × (order.quantity ≤ℤ limits.max_order_quantity)
      × (add3 position.open_buy position.open_sell order.quantity ≡ some total)
      × (total ≤ℤ limits.max_open_order_quantity)
      × (worst_case order.side position order.quantity ≡ some worst)
      × (magnitude worst ≤ magnitude limits.max_absolute_position)
      × (reservation_for limits order listing l terms position a.reservation_price order.side
          ≡ ok a.reservation)
unfolding admit
admit_steps limits enabled order listing l market_price a h =
    let position = position_of l order.participant_id order.instrument_id in
    elim (Result-cases (terms_of l order.instrument_id)) [
      | inr (x, e) ↦ absurd (ground arith)
      | inl (terms, e) ↦ elim (Result-cases (price_of listing order.kind market_price)) [
        | inr (x, e') ↦ absurd (ground arith)
        | inl (price, e') ↦
            elim (Option-cases (add3 position.open_buy position.open_sell order.quantity)) [
              | inl e1 ↦ absurd (ground arith)
              | inr (total, e1) ↦
                  elim (Option-cases (worst_case order.side position order.quantity)) [
                    | inl e2 ↦ absurd (ground arith)
                    | inr (worst, e2) ↦ (
                      terms,
                      total,
                      worst,
                      ground arith,
                      ground arith,
                      e,
                      ground arith,
                      ground arith,
                      e1,
                      ground arith,
                      e2,
                      ground arith,
                      ground arith,
                    )
                  ]
            ]
      ]
    ]

-- What an operation that opens an order finds: a participant's counters and reservations are not
-- negative, and its holding and balance are machine integers.
abbrev pub IsCounted : Position → CashBalance → Type 0
IsCounted p c =
    (pos 0 ≤ℤ p.open_buy)
    × (pos 0 ≤ℤ p.open_sell)
    × (pos 0 ≤ℤ p.reserved)
    × (pos 0 ≤ℤ c.reserved)
    × (fits i64 p.quantity ≡ true)
    × (fits i128 c.balance ≡ true)

counters :
    (b s q t : ℤ)
    → add3 b s q ≡ some t
    → pos 0 ≤ℤ b
    → pos 0 ≤ℤ s
    → pos 0 <ℤ q
    → (checked_add i64 b q ≡ some (b +ℤ q))
      × (checked_add i64 s q ≡ some (s +ℤ q))
      × (pos 0 ≤ℤ b +ℤ q)
      × (pos 0 ≤ℤ s +ℤ q)
unfolding checked_add checked ◌+ℤ◌
counters (pos b) (pos s) (pos q) t h hb hs hq =
    (ground arith, ground arith, ground arith, ground arith)
counters (negsuc b) s q t h hb hs hq = absurd (omega arith)
counters (pos b) (negsuc s) q t h hb hs hq = absurd (omega arith)
counters (pos b) (pos s) (negsuc q) t h hb hs hq = absurd (omega arith)

room :
    (m : ℕ) (x r q v : ℤ)
    → checked_sub m x r ≡ some v
    → ltb_ℤ v q ≡ false
    → pos 0 ≤ℤ r
    → pos 0 ≤ℤ q
    → fits m x ≡ true
    → (checked_add m r q ≡ some (r +ℤ q))
      × (checked_sub m x (r +ℤ q) ≡ some (x -ℤ (r +ℤ q)))
      × (pos 0 ≤ℤ r +ℤ q)
      × (pos 0 ≤ℤ x -ℤ (r +ℤ q))
unfolding checked_add checked_sub checked ◌+ℤ◌ ◌-ℤ◌
room m (negsuc x) (pos r) (pos q) v h l hr hq f = absurd (ground arith)
room m x (negsuc r) q v h l hr hq f = absurd (omega arith)
room m x (pos r) (negsuc q) v h l hr hq f = absurd (omega arith)
room m (pos x) (pos r) (pos q) v h l hr hq f =
    (ground arith, ground arith, ground arith, ground arith)

-- One side's change that the ledger accepts.
abbrev Opens : Side → QuantityLots → Reservation → Position → CashBalance → Type 0
Opens side q r p c =
    (x : Position × CashBalance) × (change_side side q q r true p c ≡ ok x)
    × (pos 0 ≤ℤ x.0.open_buy)
    × (pos 0 ≤ℤ x.0.open_sell)

Opens-plain :
    (q : QuantityLots) (r : Reservation) (p : Position) (c : CashBalance) (s : ℤ)
    → r.inventory ≡ false
    → checked_add i64 p.open_sell q ≡ some s
    → pos 0 ≤ℤ s
    → pos 0 ≤ℤ p.open_buy
    → Opens sell q r p c
unfolding change_side
Opens-plain q r p c s i e hs hb = ((record p { open_sell = s }, c), ground arith, hb, hs)

Opens-inventory :
    (q : QuantityLots) (r : Reservation) (p : Position) (c : CashBalance) (s t v : ℤ)
    → r.inventory ≡ true
    → checked_add i64 p.open_sell q ≡ some s
    → checked_add i64 p.reserved q ≡ some t
    → checked_sub i64 p.quantity t ≡ some v
    → pos 0 ≤ℤ s
    → pos 0 ≤ℤ p.open_buy
    → pos 0 ≤ℤ t
    → pos 0 ≤ℤ v
    → Opens sell q r p c
unfolding change_side insufficient
Opens-inventory q r p c s t v i e et ev hs hb ht hv =
    ((record p { open_sell = s; reserved = t }, c), ground arith, hb, hs)

Opens-buy :
    (q : QuantityLots) (r : Reservation) (p : Position) (c : CashBalance) (b k t v : ℤ)
    → checked_add i64 p.open_buy q ≡ some b
    → checked_mul i128 r.cash_per_lot q ≡ some k
    → checked_add i128 c.reserved k ≡ some t
    → checked_sub i128 c.balance t ≡ some v
    → pos 0 ≤ℤ b
    → pos 0 ≤ℤ p.open_sell
    → pos 0 ≤ℤ t
    → pos 0 ≤ℤ v
    → Opens buy q r p c
unfolding change_side insufficient per_lot_total
Opens-buy q r p c b k t v e ek et ev hb hs ht hv =
    ((record p { open_buy = b }, record c { reserved = t }), ground arith, hb, hs)

admitted_sell :
    (limits : RiskLimits) (order : SubmitOrder) (listing : ListingTerms) (l : Ledger)
    (terms : InstrumentTerms) (price : PriceTicks) (r : Reservation) (p : Position)
    (c : CashBalance) (total : ℤ)
    → IsCounted p c
    → pos 0 <ℤ order.quantity
    → add3 p.open_buy p.open_sell order.quantity ≡ some total
    → reservation_for limits order listing l terms p price sell ≡ ok r
    → Opens sell order.quantity r p c
unfolding reservation_for
admitted_sell limits order listing l terms price r p c total (hb, hs, hr, hc, fq, fc) q t h =
    let (eb, es, nb, ns) = counters p.open_buy p.open_sell order.quantity total t hb hs q in
    elim (Bool-cases terms.shortable) [
      | inl e ↦ Opens-plain order.quantity r p c _ (ground arith) es ns hb
      | inr e ↦ elim (Option-cases (available_lots p)) [
        | inl e' ↦ absurd (ground arith)
        | inr (v, e') ↦
            let (er, ex, nr, nx) =
              room i64 p.quantity p.reserved order.quantity v e' (ground arith) hr (omega arith)
                fq in
            Opens-inventory order.quantity r p c _ _ _ (ground arith) es er ex ns hb nr nx
      ]
    ]

per_lot_nonneg :
    (l : Ledger) (instrument : ℕ) (price : PriceTicks) (fee : MoneyMinor) {terms : InstrumentTerms}
    {v : MoneyMinor}
    → terms_of l instrument ≡ ok terms
    → cash_per_lot l instrument price fee ≡ ok v
    → pos 0 ≤ℤ price
    → pos 0 ≤ℤ terms.multiplier
    → pos 0 ≤ℤ v
unfolding cash_per_lot notional checked_add checked_mul checked ◌+ℤ◌ ◌*ℤ◌
per_lot_nonneg l instrument price fee e h hp hm = ground arith

mul_nonneg :
    (m : ℕ) (a b : ℤ) {v : ℤ} → checked_mul m a b ≡ some v → pos 0 ≤ℤ a → pos 0 ≤ℤ b → pos 0 ≤ℤ v
unfolding checked_mul checked ◌*ℤ◌
mul_nonneg m (pos a) (pos b) h ha hb = ground arith
mul_nonneg m (pos a) (negsuc b) h ha hb = absurd (omega arith)
mul_nonneg m (negsuc a) b h ha hb = absurd (omega arith)

admitted_buy :
    (limits : RiskLimits) (order : SubmitOrder) (listing : ListingTerms) (l : Ledger)
    (terms : InstrumentTerms) (price : PriceTicks) (r : Reservation) (p : Position) (total : ℤ)
    → let c = cash_of l order.participant_id terms.currency in
      IsCounted p c
      → limits.cash_constrained ≡ true
      → terms_of l order.instrument_id ≡ ok terms
      → pos 0 ≤ℤ price
      → pos 0 ≤ℤ terms.multiplier
      → pos 0 <ℤ order.quantity
      → add3 p.open_buy p.open_sell order.quantity ≡ some total
      → reservation_for limits order listing l terms p price buy ≡ ok r
      → Opens buy order.quantity r p c
unfolding reservation_for
admitted_buy limits order listing l terms price r p total (hb, hs, hr, hc, fq, fc) cc' et hp hm q t
      h =
    let c = cash_of l order.participant_id terms.currency in
    let (eb, es, nb, ns) = counters p.open_buy p.open_sell order.quantity total t hb hs q in
    elim (Result-cases (cash_per_lot l order.instrument_id price listing.fee_bound)) [
      | inr (x, e) ↦ absurd (ground arith)
      | inl (per_lot, e) ↦ elim (Option-cases (checked_mul i128 per_lot order.quantity)) [
        | inl e' ↦ absurd (ground arith)
        | inr (required, e') ↦ elim (Option-cases (available_cash c)) [
          | inl e'' ↦ absurd (ground arith)
          | inr (v, e'') ↦
              let nk =
                mul_nonneg i128 per_lot order.quantity e'
                  (per_lot_nonneg l order.instrument_id price listing.fee_bound et e hp hm)
                  (omega arith) in
              let (er, ex, nr, nx) =
                room i128 c.balance c.reserved required v e'' (ground arith) hc nk fc in
              Opens-buy order.quantity r p c _ required _ _ eb (ground arith) er ex nb hs nr nx
        ]
      ]
    ]

admitted-Opens :
    (limits : RiskLimits) (order : SubmitOrder) (listing : ListingTerms) (l : Ledger)
    (terms : InstrumentTerms) (price : PriceTicks) (r : Reservation) (p : Position) (total : ℤ)
    (side : Side)
    → let c = cash_of l order.participant_id terms.currency in
      IsCounted p c
      → limits.cash_constrained ≡ true
      → terms_of l order.instrument_id ≡ ok terms
      → pos 0 ≤ℤ price
      → pos 0 ≤ℤ terms.multiplier
      → pos 0 <ℤ order.quantity
      → add3 p.open_buy p.open_sell order.quantity ≡ some total
      → reservation_for limits order listing l terms p price side ≡ ok r
      → Opens side order.quantity r p c
admitted-Opens limits order listing l terms price r p total buy w c et hp hm q t h =
    admitted_buy limits order listing l terms price r p total w c et hp hm q t h
admitted-Opens limits order listing l terms price r p total sell w c et hp hm q t h =
    admitted_sell limits order listing l terms price r p _ total w q t h

opened :
    (l : Ledger) (participant instrument : ℕ) (side : Side) (q : QuantityLots) (r : Reservation)
    {terms : InstrumentTerms}
    → terms_of l instrument ≡ ok terms
    → pos 0 <ℤ q
    → Opens side q r (position_of l participant instrument) (cash_of l participant terms.currency)
    → (l' : Ledger) × (open_order participant instrument side q r l ≡ ok l')
unfolding open_order change_open
opened l participant instrument side q r {terms} e hq (x, h, hb, hs) = (
  record l {
    positions = Map.insert (participant, instrument) x.0 l.positions;
    cash = Map.insert (participant, terms.currency) x.1 l.cash;
  },
  ground arith,
)

-- An order that risk admission accepts is one whose reservation the ledger opens: for a
-- cash-constrained participant whose open counters and reservations are not negative and whose
-- holding and balance fit their machine types, if `admit` returns an admission at a price that is
-- not negative, on an instrument whose multiplier is not negative, then `open_order` with the
-- order's side and quantity and the admission's reservation returns a ledger.
pub admit-open_order :
    (limits : RiskLimits) (enabled : Bool) (order : SubmitOrder) (listing : ListingTerms)
    (l : Ledger) (market_price : Option PriceTicks) (a : Admission) (terms : InstrumentTerms)
    → admit limits enabled order listing l market_price ≡ ok a
    → terms_of l order.instrument_id ≡ ok terms
    → limits.cash_constrained ≡ true
    → pos 0 ≤ℤ a.reservation_price
    → pos 0 ≤ℤ terms.multiplier
    → IsCounted
        (position_of l order.participant_id order.instrument_id)
        (cash_of l order.participant_id terms.currency)
    → (l' : Ledger) × (open_order order.participant_id order.instrument_id order.side order.quantity
          a.reservation l
        ≡ ok l')
admit-open_order limits enabled order listing l market_price a terms h et cc' hp hm w =
    let (terms', total, worst, x, q, e, ep, ex, et', eo, ew, el, er) =
      admit_steps limits enabled order listing l market_price a h in
    let same : terms' ≡ terms = ground (arith, et, e) in
    opened l order.participant_id order.instrument_id order.side order.quantity a.reservation et q (
      admitted-Opens limits order listing l terms a.reservation_price a.reservation
        (position_of l order.participant_id order.instrument_id) total order.side w cc' et hp hm q
        et'
        (subst
          (λ z.
            reservation_for limits order listing l z
              (position_of l order.participant_id order.instrument_id) a.reservation_price
              order.side
            ≡ ok a.reservation)
          same er))
