-- ===== src/Book/Auction/Sweep.antt =====
-- The sweep of `auction_price` against the quadratic definition (packages/bunting-engine/src/book.rs).
use bunting.Prelude.{
  ℕ, zero, suc, ◌+◌, ◌≤◌, ◌<◌, true, false, none, some, [], ◌∷◌, ◌≡◌, refl, sym, ap, ◌∙◌, fun_ext,
  arith, Bool-cases, Option-cases, inl, inr, length,
}
use bunting.Prelude.Int.{ℤ, pos, ◌+ℤ◌, ◌-ℤ◌, ltb_ℤ, leb_ℤ, eqb_ℤ, eqb_ℤ_iff, int_laws, +ℤ_assoc}
use bunting.Prelude.Ord.{int_ord}
use bunting.Prelude.Map.{Map, IsSorted, Above, Above-trans}
use bunting.Prelude.Map.Sums.{sum_of}
use bunting.Market.{PriceTicks, buy, sell}
use bunting.Book.{Level, Book}
use bunting.Book.Sound.{IsSound}
use bunting.Book.Auction.{
  Choice, consider, next_candidate, total_at, skip_at, level_total, sweep, answer, auction_price,
  at_or_above, at_or_below, price_set, add_keys, choose_from, auction_price_reference,
}
use bunting.Book.Auction.Candidates.{
  NotBelow, skip_at-IsSorted, candidate, price_set-next, price_set-Above,
}

-- A side that lies above a price has nothing at or below it.
Above-none :
    (price : PriceTicks) (m : Map PriceTicks Level)
    → Above price m
    → sum_of (at_or_below price) m ≡ pos 0
unfolding sum_of
Above-none price [] a = refl
Above-none price ((p, l) ∷ m) (a, r) =
    let far : leb_ℤ p price ≡ false = ground arith in
    rw (far, Above-none price m r) (omega int_laws)

Above-all :
    (price : PriceTicks) (m : Map PriceTicks Level)
    → Above price m
    → sum_of (at_or_above price) m ≡ sum_of level_total m
unfolding sum_of
Above-all price [] a = refl
Above-all price ((p, l) ∷ m) (a, r) =
    let near : leb_ℤ price p ≡ true = ground arith in rw (near, Above-all price m r) refl

module _ (price : PriceTicks) (p : PriceTicks) (l : Level) (m : Map PriceTicks Level) where
  Above-head : ltb_ℤ p price ≡ false → Above p m → Above price m
  Above-head n a = elim (Bool-cases (eqb_ℤ p price)) [
    | inl e ↦ rw (← (eqb_ℤ_iff p price).0 e) a
    | inr e ↦ Above-trans price p m (int_ord.lt_total p price n e) a
  ]

-- At the candidate, demand is all that the sweep has not left behind.
demand_now :
    (price : PriceTicks) (m : Map PriceTicks Level)
    → IsSorted m
    → NotBelow price m
    → sum_of (at_or_above price) m ≡ sum_of level_total m
unfolding sum_of
demand_now price [] s n = refl
demand_now price ((p, l) ∷ m) (a, s) n =
    let near : leb_ℤ price p ≡ true = ground arith in
    rw (near, Above-all price m (Above-head price p l m n a)) refl

-- And supply grows by the level at the candidate.
supply_now :
    (price : PriceTicks) (m : Map PriceTicks Level)
    → IsSorted m
    → NotBelow price m
    → sum_of (at_or_below price) m ≡ total_at price m
unfolding sum_of
supply_now price [] s n = refl
supply_now price ((p, l) ∷ m) (a, s) n =
    let rest : sum_of (at_or_below price) m ≡ pos 0 =
      Above-none price m (Above-head price p l m n a) in
    elim (Bool-cases (eqb_ℤ p price)) [
      | inl e ↦
          let near : leb_ℤ p price ≡ true = ground arith in rw (near, e, rest) (omega int_laws)
      | inr e ↦ let far : leb_ℤ p price ≡ false = ground arith in rw (far, e, rest) (omega int_laws)
    ]

total_split :
    (price : PriceTicks) (m : Map PriceTicks Level)
    → sum_of level_total m ≡ total_at price m +ℤ sum_of level_total (skip_at price m)
unfolding sum_of
total_split price [] = omega int_laws
total_split price ((p, l) ∷ m) = elim (Bool-cases (eqb_ℤ p price)) [
  | inl e ↦ rw e refl
  | inr e ↦ rw e (omega int_laws)
]

module _ (price c : PriceTicks) (later : ltb_ℤ price c ≡ true) where
  demand_later :
      (m : Map PriceTicks Level)
      → sum_of (at_or_above c) m ≡ sum_of (at_or_above c) (skip_at price m)
  unfolding sum_of
  demand_later [] = refl
  demand_later ((p, l) ∷ m) = elim (Bool-cases (eqb_ℤ p price)) [
    | inl e ↦ let far : leb_ℤ c p ≡ false = ground arith in rw (e, far) (omega int_laws)
    | inr e ↦ rw e refl
  ]

  supply_later :
      (m : Map PriceTicks Level)
      → sum_of (at_or_below c) m ≡ total_at price m +ℤ sum_of (at_or_below c) (skip_at price m)
  unfolding sum_of
  supply_later [] = omega int_laws
  supply_later ((p, l) ∷ m) = elim (Bool-cases (eqb_ℤ p price)) [
    | inl e ↦ let near : leb_ℤ p c ≡ true = ground arith in rw (e, near) refl
    | inr e ↦ rw e (omega int_laws)
  ]

-- The oracle's loop reads its sums at the prices of the set only.
choose_from-agree :
    (reference price : PriceTicks) (d d' s s' : PriceTicks → ℤ)
    → ((c : PriceTicks) → ltb_ℤ price c ≡ true → d c ≡ d' c)
    → ((c : PriceTicks) → ltb_ℤ price c ≡ true → s c ≡ s' c)
    → (set : Map PriceTicks (Unit {0})) (best : Choice) → Above price set
    → choose_from reference d s set best ≡ choose_from reference d' s' set best
unfolding choose_from
choose_from-agree reference price d d' s s' h k [] best a = refl
choose_from-agree reference price d d' s s' h k ((c, _) ∷ set) best (a, r) =
    rw (h c a, k c a) (choose_from-agree reference price d d' s s' h k set _ r)

skip_length :
    (bids asks : Map PriceTicks Level) {price : PriceTicks}
    → next_candidate bids asks ≡ some price
    → length (skip_at price bids) + length (skip_at price asks) < length bids + length asks
skip_length [] [] e = cc
skip_length ((p, l) ∷ bids) [] e = ground arith
skip_length [] ((q, r) ∷ asks) e = ground arith
skip_length ((p, l) ∷ bids) ((q, r) ∷ asks) e = ground arith

sweep_run :
    (fuel : ℕ) (reference total : ℤ) (bids asks : Map PriceTicks Level) (below supply : ℤ)
    (best : Choice) {price : PriceTicks}
    → next_candidate bids asks ≡ some price
    → sweep (suc fuel) reference total bids asks below supply best
      ≡ sweep fuel reference total
          (skip_at price bids)
          (skip_at price asks)
          (below +ℤ total_at price bids)
          (supply +ℤ total_at price asks)
          (consider reference (total -ℤ below) (supply +ℤ total_at price asks) price best)
unfolding sweep
sweep_run fuel reference total [] [] below supply best e = cc
sweep_run fuel reference total ((p, l) ∷ bids) [] below supply best e = ground arith
sweep_run fuel reference total [] ((q, r) ∷ asks) below supply best e = ground arith
sweep_run fuel reference total ((p, l) ∷ bids) ((q, r) ∷ asks) below supply best e = ground arith

sweep_stop :
    (fuel : ℕ) (reference total : ℤ) (bids asks : Map PriceTicks Level) (below supply : ℤ)
    (best : Choice) (d s : PriceTicks → ℤ)
    → next_candidate bids asks ≡ none
    → sweep fuel reference total bids asks below supply best
      ≡ choose_from reference d s (price_set bids asks) best
unfolding sweep choose_from add_keys
sweep_stop zero reference total [] [] below supply best d s e = refl
sweep_stop (suc fuel) reference total [] [] below supply best d s e = refl
sweep_stop fuel reference total ((p, l) ∷ bids) [] below supply best d s e = cc
sweep_stop fuel reference total [] ((q, r) ∷ asks) below supply best d s e = cc
sweep_stop fuel reference total ((p, l) ∷ bids) ((q, r) ∷ asks) below supply best d s e = cc

no_fuel :
    (bids asks : Map PriceTicks Level) {price : PriceTicks}
    → next_candidate bids asks ≡ some price
    → length bids + length asks ≤ 0
    → ⊥
no_fuel bids asks e h = absurd (let l = skip_length bids asks e in omega arith)

sub_move : (a b t r : ℤ) → a -ℤ b ≡ t +ℤ r → a -ℤ (b +ℤ t) ≡ r
sub_move a b t r e =
    let regroup : a -ℤ (b +ℤ t) ≡ a -ℤ b -ℤ t = omega int_laws in
    let cancel : t +ℤ r -ℤ t ≡ r = omega int_laws in regroup ∙ ap (λ x. x -ℤ t) e ∙ cancel

module _ (reference price : PriceTicks) (bids asks : Map PriceTicks Level)
    (sorted_bids : IsSorted bids) (sorted_asks : IsSorted asks)
    (next : next_candidate bids asks ≡ some price) where
  -- One round of the oracle, at the candidate.
  oracle_step :
      (d s : PriceTicks → ℤ) (best : Choice)
      → choose_from reference d s (price_set bids asks) best
        ≡ choose_from reference d s
            (price_set (skip_at price bids) (skip_at price asks))
            (consider reference (d price) (s price) price best)
  unfolding choose_from
  oracle_step d s best =
      ap (λ set. choose_from reference d s set best)
        (price_set-next price bids asks sorted_bids sorted_asks next)

  rounds_agree :
      (total below supply : ℤ) (best : Choice)
      → total -ℤ below ≡ sum_of level_total bids
      → choose_from reference
          (λ c. sum_of (at_or_above c) (skip_at price bids))
          (λ c. supply +ℤ total_at price asks +ℤ sum_of (at_or_below c) (skip_at price asks))
          (price_set (skip_at price bids) (skip_at price asks))
          (consider reference (total -ℤ below) (supply +ℤ total_at price asks) price best)
        ≡ choose_from reference
            (λ c. sum_of (at_or_above c) bids)
            (λ c. supply +ℤ sum_of (at_or_below c) asks)
            (price_set bids asks)
            best
  rounds_agree total below supply best h =
      let (low_bids, low_asks, _) = candidate bids asks next in
      let demand : total -ℤ below ≡ sum_of (at_or_above price) bids =
        h ∙ sym (demand_now price bids sorted_bids low_bids) in
      let supplied : total_at price asks ≡ sum_of (at_or_below price) asks =
        sym (supply_now price asks sorted_asks low_asks) in
      let chosen : consider reference (total -ℤ below) (supply +ℤ total_at price asks) price best
          ≡ consider reference (sum_of (at_or_above price) bids)
              (supply +ℤ sum_of (at_or_below price) asks) price best =
        cc (demand, supplied) in
      choose_from-agree reference price _ _ _ _ (λ c l. sym (demand_later price c l bids))
        (λ c l. +ℤ_assoc _ _ _ ∙ ap (λ x. supply +ℤ x) (sym (supply_later price c l asks)))
        (price_set (skip_at price bids) (skip_at price asks)) _
        (price_set-Above price bids asks sorted_bids sorted_asks next)
      ∙ ap
          (choose_from reference (λ c. sum_of (at_or_above c) bids)
            (λ c. supply +ℤ sum_of (at_or_below c) asks)
            (price_set (skip_at price bids) (skip_at price asks)))
          chosen
      ∙ sym (oracle_step _ _ best)

module _ (reference : PriceTicks) (total : ℤ) where
  -- From any point of the sweep on, it chooses as the oracle would over what is left.
  sweep_lem :
      (fuel : ℕ) (bids asks : Map PriceTicks Level) (below supply : ℤ) (best : Choice)
      → IsSorted bids
      → IsSorted asks
      → total -ℤ below ≡ sum_of level_total bids
      → length bids + length asks ≤ fuel
      → sweep fuel reference total bids asks below supply best
        ≡ choose_from reference
            (λ c. sum_of (at_or_above c) bids)
            (λ c. supply +ℤ sum_of (at_or_below c) asks)
            (price_set bids asks)
            best
  sweep_lem zero bids asks below supply best s t h enough =
      elim (Option-cases (next_candidate bids asks)) [
        | inl e ↦ sweep_stop zero reference total bids asks below supply best _ _ e
        | inr (price, e) ↦ absurd (no_fuel bids asks e enough)
      ]
  sweep_lem (suc fuel) bids asks below supply best s t h enough =
      elim (Option-cases (next_candidate bids asks)) [
        | inl e ↦ sweep_stop (suc fuel) reference total bids asks below supply best _ _ e
        | inr (price, e) ↦
            sweep_run fuel reference total bids asks below supply best e
            ∙ (sweep_lem fuel (skip_at price bids) (skip_at price asks) _ _ _
                  (skip_at-IsSorted price bids s) (skip_at-IsSorted price asks t)
                  (sub_move total below (total_at price bids) _ (h ∙ total_split price bids))
                  (let l = skip_length bids asks e in omega arith)
                ∙ rounds_agree reference price bids asks s t e total below supply best h)
      ]

-- On a sound book the one-pass sweep of `auction_price` returns what the quadratic definition that
-- the source keeps as its test oracle returns, whatever the reference price.
pub auction_price-reference :
    (b : Book) (reference : PriceTicks)
    → IsSound b
    → auction_price b reference ≡ auction_price_reference b reference
unfolding auction_price auction_price_reference
auction_price-reference b reference v = ap answer (
    sweep_lem reference (sum_of level_total b.bids) (length b.bids + length b.asks) b.bids b.asks
      (pos 0) (pos 0) none (v.sides_sorted buy) (v.sides_sorted sell) (omega int_laws) (omega arith)
    ∙ ap
        (λ s.
          choose_from reference (λ c. sum_of (at_or_above c) b.bids) s (price_set b.bids b.asks)
            none)
        (fun_ext λ c. omega int_laws))
