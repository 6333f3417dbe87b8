-- ===== src/Book/Sound/Places.antt =====
-- Levels by side and price after one level has been written or dropped, and amounts after an order
-- has been added or taken out.
use bunting.Prelude.{ℕ, true, false, ◌&&◌, none, some, Option, ◌≡◌, refl, sym, arith, if◌then◌else◌}
use bunting.Prelude.Int.{ℤ, pos, ◌+ℤ◌, eqb_ℤ, int_laws}
use bunting.Prelude.Ord.{nat_ord, int_ord}
use bunting.Prelude.Map.{Map, get, insert, remove, get-insert, get-remove, IsSorted}
use bunting.Prelude.Map.Sums.{sum_of-insert, sum_of-remove}
use bunting.Market.{PriceTicks, QuantityLots, Side, buy, sell, same_side}
use bunting.Book.{BookOrder, Level, Book, side, set_side, put_level}
use bunting.Book.Sound.{resting, amount, here}

-- `b'` has at one place the given level, and elsewhere the levels of `b`.
abbrev pub Differs : Book → Book → BookOrder → Option Level → Type 0
Differs b b' o l =
    (s : Side) (price : PriceTicks)
    → get price (side b' s) ≡ (if here s price o then l else get price (side b s))

pub put_level-Differs :
    (b : Book) (o : BookOrder) (l : Level) → Differs b (put_level b o.side o.price l) o (some l)
put_level-Differs b o l s price = go o.side s
  where
    go :
        (t s : Side)
        → get price (side (put_level b t o.price l) s)
          ≡ (if same_side s t && eqb_ℤ price o.price then some l else get price (side b s))
    go buy buy = get-insert o.price price l b.bids
    go sell sell = get-insert o.price price l b.asks
    go buy sell = refl
    go sell buy = refl

pub drop_level-Differs :
    (b : Book) (o : BookOrder)
    → Differs b (set_side b o.side (remove o.price (side b o.side))) o none
drop_level-Differs b o s price = go o.side s
  where
    go :
        (t s : Side)
        → get price (side (set_side b t (remove o.price (side b t))) s)
          ≡ (if same_side s t && eqb_ℤ price o.price then none else get price (side b s))
    go buy buy = get-remove o.price price b.bids
    go sell sell = get-remove o.price price b.asks
    go buy sell = refl
    go sell buy = refl

-- `orders` is apart from the two sides, and writing a side leaves `orders` and the priorities.
pub side-orders :
    (b : Book) (m : Map ℕ BookOrder) (s : Side) → side (record b { orders = m }) s ≡ side b s
side-orders b m buy = refl
side-orders b m sell = refl

pub set_side-fields :
    (b : Book) (s : Side) (m : Map PriceTicks Level)
    → ((set_side b s m).orders ≡ b.orders) × ((set_side b s m).next_priority ≡ b.next_priority)
set_side-fields b buy m = (refl, refl)
set_side-fields b sell m = (refl, refl)

pub set_side-IsSorted :
    (b : Book) (t : Side) (m : Map PriceTicks Level)
    → ((s : Side) → IsSorted (side b s))
    → IsSorted m
    → (s : Side) → IsSorted (side (set_side b t m) s)
set_side-IsSorted b buy m h k buy = k
set_side-IsSorted b buy m h k sell = h sell
set_side-IsSorted b sell m h k buy = h buy
set_side-IsSorted b sell m h k sell = k

pub zero_plus : (a b : ℤ) → a ≡ pos 0 +ℤ b → b ≡ a
zero_plus a b e = rw e (omega int_laws)

module _ (s : Side) (price : PriceTicks) (f : BookOrder → QuantityLots) where
  -- Taking an order out lowers the amount where it rests, and nowhere else.
  pub amount-remove :
      (id : ℕ) (o : BookOrder) (m : Map ℕ BookOrder)
      → IsSorted m
      → get id m ≡ some o
      → amount s price f m
        ≡ (if here s price o then f o else pos 0) +ℤ amount s price f (remove id m)
  unfolding amount
  amount-remove id o m h e = sum_of-remove (resting s price f) id o m h e

  pub amount-insert :
      (id : ℕ) (o : BookOrder) (m : Map ℕ BookOrder)
      → get id m ≡ none
      → amount s price f (insert id o m)
        ≡ (if here s price o then f o else pos 0) +ℤ amount s price f m
  unfolding amount
  amount-insert id o m e = sum_of-insert (resting s price f) id o m e

  pub amount-remove-here :
      (id : ℕ) (o : BookOrder) (m : Map ℕ BookOrder)
      → IsSorted m
      → get id m ≡ some o
      → here s price o ≡ true
      → amount s price f m ≡ f o +ℤ amount s price f (remove id m)
  amount-remove-here id o m h e t = ground (arith, amount-remove id o m h e)

  pub amount-remove_away :
      (id : ℕ) (o : BookOrder) (m : Map ℕ BookOrder)
      → IsSorted m
      → get id m ≡ some o
      → here s price o ≡ false
      → amount s price f (remove id m) ≡ amount s price f m
  amount-remove_away id o m h e t = zero_plus _ _ (ground (arith, amount-remove id o m h e))

  pub amount-insert-here :
      (id : ℕ) (o : BookOrder) (m : Map ℕ BookOrder)
      → get id m ≡ none
      → here s price o ≡ true
      → amount s price f (insert id o m) ≡ f o +ℤ amount s price f m
  amount-insert-here id o m e t = ground (arith, amount-insert id o m e)

  pub amount-insert_away :
      (id : ℕ) (o : BookOrder) (m : Map ℕ BookOrder)
      → get id m ≡ none
      → here s price o ≡ false
      → amount s price f (insert id o m) ≡ amount s price f m
  amount-insert_away id o m e t = sym (zero_plus _ _ (ground (arith, amount-insert id o m e)))
