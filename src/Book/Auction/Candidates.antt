-- ===== src/Book/Auction/Candidates.antt =====
-- The candidate prices of the auction: the set of all prices, and its least one taken off.
use bunting.Prelude.{
  true, false, ◌||◌, none, some, [], ◌∷◌, ◌≡◌, refl, arith, if◌then◌else◌, Bool-cases, Option-cases,
  inl, inr,
}
use bunting.Prelude.Int.{ltb_ℤ, eqb_ℤ, eqb_ℤ_iff}
use bunting.Prelude.Ord.{int_ord}
use bunting.Prelude.Map.{
  Map, get, contains_key, IsSorted, Above, Above-trans, Above-get, Above-get-none, insert-IsSorted,
  get-insert,
}
use bunting.Prelude.Map
use bunting.Prelude.Map.Ext.{map_ext}
use bunting.Market.{PriceTicks}
use bunting.Book.{Level}
use bunting.Book.Auction.{next_candidate, skip_at, add_keys, price_set}

add_keys-IsSorted :
    (m : Map PriceTicks Level) (s : Map PriceTicks (Unit {0}))
    → IsSorted s
    → IsSorted (add_keys m s)
unfolding add_keys
add_keys-IsSorted [] s h = h
add_keys-IsSorted ((p, l) ∷ m) s h =
    add_keys-IsSorted m (Map.insert p tt s) (insert-IsSorted p tt s h)

-- The set holds the keys and what it held before.
get-add_keys :
    (c : PriceTicks) (m : Map PriceTicks Level) (s : Map PriceTicks (Unit {0}))
    → get c (add_keys m s) ≡ (if contains_key c m then some tt else get c s)
unfolding add_keys get
get-add_keys c [] s = refl
get-add_keys c ((p, l) ∷ m) s =
    ground (arith, get-add_keys c m (Map.insert p tt s), get-insert p c tt s)

-- The first key of a sorted side is not below the price.
abbrev pub NotBelow : PriceTicks → Map PriceTicks Level → Type 0
NotBelow price [] = Unit
NotBelow price ((p, l) ∷ m) = ltb_ℤ p price ≡ false

pub skip_at-IsSorted :
    (price : PriceTicks) (m : Map PriceTicks Level) → IsSorted m → IsSorted (skip_at price m)
skip_at-IsSorted price [] h = h
skip_at-IsSorted price ((p, l) ∷ m) (a, h) = elim (Bool-cases (eqb_ℤ p price)) [
  | inl e ↦ rw e h
  | inr e ↦ rw e (a, h)
]

pub skip_at-Above :
    (price : PriceTicks) (m : Map PriceTicks Level)
    → IsSorted m
    → NotBelow price m
    → Above price (skip_at price m)
skip_at-Above price [] h n = tt
skip_at-Above price ((p, l) ∷ m) (a, h) n = elim (Bool-cases (eqb_ℤ p price)) [
  | inl e ↦ rw (e, ← (eqb_ℤ_iff p price).0 e) a
  | inr e ↦
      let above : ltb_ℤ price p ≡ true = int_ord.lt_total p price n e in
      rw e (above, Above-trans price p m above a)
]

get-skip_other :
    (c price : PriceTicks) (m : Map PriceTicks Level)
    → eqb_ℤ c price ≡ false
    → get c (skip_at price m) ≡ get c m
unfolding get
get-skip_other c price [] h = refl
get-skip_other c price ((p, l) ∷ m) h = elim (Bool-cases (eqb_ℤ p price)) [
  | inl e ↦ rw (e, (eqb_ℤ_iff p price).0 e, h) refl
  | inr e ↦ rw e refl
]

get-skip_at :
    (c price : PriceTicks) (m : Map PriceTicks Level)
    → IsSorted m
    → NotBelow price m
    → get c (skip_at price m) ≡ (if eqb_ℤ c price then none else get c m)
get-skip_at c price m h n = elim (Bool-cases (eqb_ℤ c price)) [
  | inl e ↦
      rw (e, (eqb_ℤ_iff c price).0 e)
        (Above-get-none price (skip_at price m) (skip_at-Above price m h n))
  | inr e ↦ rw e (get-skip_other c price m e)
]

-- The candidate is a key of one side, and below no key.
pub candidate :
    (bids asks : Map PriceTicks Level) {price : PriceTicks}
    → next_candidate bids asks ≡ some price
    → NotBelow price bids
      × NotBelow price asks
      × ((contains_key price bids || contains_key price asks) ≡ true)
unfolding get
candidate [] [] e = cc
candidate ((p, l) ∷ bids) [] e = ground arith
candidate [] ((q, r) ∷ asks) e = ground arith
candidate ((p, l) ∷ bids) ((q, r) ∷ asks) e = ground arith

Above-intro :
    (price : PriceTicks) (m : Map PriceTicks (Unit {0}))
    → IsSorted m
    → ((c : PriceTicks) → get c m ≡ some tt → ltb_ℤ price c ≡ true)
    → Above price m
unfolding get
Above-intro price [] h k = tt
Above-intro price ((p, _) ∷ m) (a, h) k =
    let first : ltb_ℤ price p ≡ true = k p (ground (arith, (eqb_ℤ_iff p p).1 refl)) in
    (first, Above-trans price p m first a)

contained-Above :
    (price c : PriceTicks) (m : Map PriceTicks Level)
    → Above price m
    → contains_key c m ≡ true
    → ltb_ℤ price c ≡ true
contained-Above price c m a h = elim (Option-cases (get c m)) [
  | inl miss ↦ absurd (ground arith)
  | inr (l, found) ↦ Above-get price c m a found
]

module _ (price : PriceTicks) (bids asks : Map PriceTicks Level) (sorted_bids : IsSorted bids)
    (sorted_asks : IsSorted asks) (next : next_candidate bids asks ≡ some price) where
  rest_set : Map PriceTicks (Unit {0})
  rest_set = price_set (skip_at price bids) (skip_at price asks)

  price_set-IsSorted : (m n : Map PriceTicks Level) → IsSorted (price_set m n)
  price_set-IsSorted m n = add_keys-IsSorted n (add_keys m []) (add_keys-IsSorted m [] tt)

  get-price_set :
      (c : PriceTicks) (m n : Map PriceTicks Level)
      → get c (price_set m n) ≡ (if contains_key c n || contains_key c m then some tt else none)
  unfolding get
  get-price_set c m n = ground (arith, get-add_keys c n (add_keys m []), get-add_keys c m [])

  rest-Above : Above price rest_set
  unfolding rest_set
  rest-Above =
      Above-intro price _ (price_set-IsSorted (skip_at price bids) (skip_at price asks)) λ c h.
        let asks_above = skip_at-Above price asks sorted_asks (candidate bids asks next).1 in
        let bids_above = skip_at-Above price bids sorted_bids (candidate bids asks next).0 in
        ground (
          arith,
          get-price_set c (skip_at price bids) (skip_at price asks),
          contained-Above price c (skip_at price bids) bids_above,
          contained-Above price c (skip_at price asks) asks_above,
        )

  pub price_set-Above : Above price (price_set (skip_at price bids) (skip_at price asks))
  unfolding rest_set
  price_set-Above = rest-Above

  same_entries :
      (c : PriceTicks)
      → get c (price_set bids asks)
        ≡ get c ((price, tt) ∷ price_set (skip_at price bids) (skip_at price asks))
  unfolding get
  same_entries c = elim (Bool-cases (eqb_ℤ c price)) [
    | inl e ↦
        ground
          (arith, (eqb_ℤ_iff c price).0 e, get-price_set c bids asks, (candidate bids asks next).2)
    | inr e ↦ ground (
      arith,
      get-price_set c bids asks,
      get-price_set c (skip_at price bids) (skip_at price asks),
      get-skip_other c price bids e,
      get-skip_other c price asks e,
    )
  ]

  -- Taking the candidate off the set leaves the set of what the sweep has not read.
  pub price_set-next :
      price_set bids asks ≡ (price, tt) ∷ price_set (skip_at price bids) (skip_at price asks)
  unfolding rest_set
  price_set-next =
      map_ext (price_set bids asks)
        ((price, tt) ∷ price_set (skip_at price bids) (skip_at price asks))
        (price_set-IsSorted bids asks)
        (rest-Above, price_set-IsSorted (skip_at price bids) (skip_at price asks)) same_entries
