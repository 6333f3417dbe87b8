-- ===== src/Book/Auction.antt =====
-- The call-auction price of packages/bunting-engine/src/book.rs: the one-pass sweep over both sides
-- and the quadratic definition that the source keeps as its test oracle.
pub mod Candidates
pub mod Sweep
use bunting.Prelude.{
  ℕ, zero, suc, ◌+◌, Bool, true, false, ◌&&◌, ◌||◌, none, some, Option, List, [], ◌∷◌, ◌++◌, ◌≡◌,
  if◌then◌else◌, length,
}
use bunting.Prelude.Int.{
  ℤ, pos, ◌+ℤ◌, ◌-ℤ◌, neg, ltb_ℤ, leb_ℤ, eqb_ℤ, min_ℤ, pos_part, neg_part, fits, i64,
}
use bunting.Prelude.Ord.{int_ord}
use bunting.Prelude.Map.{Map, keys}
use bunting.Prelude.Map
use bunting.Prelude.Map.Sums.{sum_of}
use bunting.Market.{PriceTicks, QuantityLots}
use bunting.Book.{Level, Book}

-- The chosen price with its volume and imbalance.
abbrev pub Choice : Type 0
Choice = Option (PriceTicks × ℤ × ℤ)

abbrev pub abs_diff : ℤ → ℤ → ℤ
abs_diff a b = pos (pos_part (a -ℤ b) + neg_part (a -ℤ b))

-- Whether the first triple (volume, -imbalance, -distance) is the greater.
abbrev pub exceeds : ℤ × ℤ × ℤ → ℤ × ℤ × ℤ → Bool
exceeds (a, b, c) (a', b', c') =
    ltb_ℤ a' a || (eqb_ℤ a a' && (ltb_ℤ b' b || (eqb_ℤ b b' && ltb_ℤ c' c)))

-- The volume, the balance and the nearness of a price, as compared.
unfoldable pub merit : PriceTicks → PriceTicks × ℤ × ℤ → ℤ × ℤ × ℤ
merit reference (price, volume, imbalance) = (volume, neg imbalance, neg (abs_diff price reference))

unfoldable pub is_better : PriceTicks → PriceTicks × ℤ × ℤ → Choice → Bool
unfolding merit
is_better reference found none = true
is_better reference found (some chosen) = exceeds (merit reference found) (merit reference chosen)

-- One candidate price, from its cumulative demand and supply.
unfoldable pub consider : PriceTicks → ℤ → ℤ → PriceTicks → Choice → Choice
unfolding is_better
consider reference demand supply price best =
    let volume = min_ℤ demand supply in
    let found : PriceTicks × ℤ × ℤ = (price, volume, abs_diff demand supply) in
    if ltb_ℤ (pos 0) volume
    then if is_better reference found best then some found else best
    else best

-- The lower of the two peeked prices.
abbrev pub next_candidate : Map PriceTicks Level → Map PriceTicks Level → Option PriceTicks
next_candidate [] [] = none
next_candidate ((p, l) ∷ bids) [] = some p
next_candidate [] ((q, r) ∷ asks) = some q
next_candidate ((p, l) ∷ bids) ((q, r) ∷ asks) = some (if leb_ℤ p q then p else q)

-- `next()` if the peeked price is the candidate: its total, and what is left of the side.
abbrev pub total_at : PriceTicks → Map PriceTicks Level → ℤ
total_at price [] = pos 0
total_at price ((p, l) ∷ m) = if eqb_ℤ p price then l.total else pos 0

abbrev pub skip_at : PriceTicks → Map PriceTicks Level → Map PriceTicks Level
skip_at price [] = []
skip_at price ((p, l) ∷ m) = if eqb_ℤ p price then m else (p, l) ∷ m

abbrev pub level_total : PriceTicks → Level → ℤ
level_total price level = level.total

-- The loop of the sweep. Each round takes a level, so their number bounds the rounds.
unfoldable pub sweep :
    ℕ → PriceTicks → ℤ → Map PriceTicks Level → Map PriceTicks Level → ℤ → ℤ → Choice → Choice
unfolding consider
sweep zero reference total bids asks below supply best = best
sweep (suc fuel) reference total bids asks below supply best = elim (next_candidate bids asks) [
  | none ↦ best
  | some price ↦
      sweep fuel reference total (skip_at price bids) (skip_at price asks)
        (below +ℤ total_at price bids) (supply +ℤ total_at price asks)
        (consider reference (total -ℤ below) (supply +ℤ total_at price asks) price best)
]

-- `i64::try_from(volume).ok()`.
abbrev pub answer : Choice → Option (PriceTicks × QuantityLots)
answer none = none
answer (some (price, volume, imbalance)) = if fits i64 volume then some (price, volume) else none

unfoldable pub auction_price : Book → PriceTicks → Option (PriceTicks × QuantityLots)
unfolding sweep
auction_price b reference = answer (
    sweep (length b.bids + length b.asks) reference (sum_of level_total b.bids) b.bids b.asks
      (pos 0) (pos 0) none)

-- The oracle: demand and supply summed anew for each price of a sorted set.
abbrev pub at_or_above : PriceTicks → PriceTicks → Level → ℤ
at_or_above price p level = if leb_ℤ price p then level.total else pos 0

abbrev pub at_or_below : PriceTicks → PriceTicks → Level → ℤ
at_or_below price p level = if leb_ℤ p price then level.total else pos 0

-- Collecting the keys into a sorted set.
unfoldable pub add_keys :
    Map PriceTicks Level → Map PriceTicks (Unit {0}) → Map PriceTicks (Unit {0})
add_keys [] s = s
add_keys ((p, l) ∷ m) s = add_keys m (Map.insert p tt s)

abbrev pub price_set : Map PriceTicks Level → Map PriceTicks Level → Map PriceTicks (Unit {0})
price_set bids asks = add_keys asks (add_keys bids [])

-- The oracle's loop over the prices, from cumulative demand and supply as functions of a price.
unfoldable pub choose_from :
    PriceTicks → (PriceTicks → ℤ) → (PriceTicks → ℤ) → Map PriceTicks (Unit {0}) → Choice → Choice
unfolding consider
choose_from reference demand supply [] best = best
choose_from reference demand supply ((price, _) ∷ s) best =
    choose_from reference demand supply s
      (consider reference (demand price) (supply price) price best)

unfoldable pub auction_price_reference : Book → PriceTicks → Option (PriceTicks × QuantityLots)
unfolding choose_from add_keys
auction_price_reference b reference = answer (
    choose_from reference (λ price. sum_of (at_or_above price) b.bids)
      (λ price. sum_of (at_or_below price) b.asks) (price_set b.bids b.asks) none)
