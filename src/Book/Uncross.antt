-- ===== src/Book/Uncross.antt =====
-- The specification of the call auction's `uncross`: it trades the two fronts of the book while
-- both can trade at the auction price, and leaves a sound book.
pub mod Refine
use bunting.Prelude.{
  ℕ, zero, suc, ◌+◌, ◌*◌, ◌<◌, ◌≤◌, ◌^◌, true, false, ◌||◌, none, some, Option, List, [], ◌∷◌, ◌++◌,
  ◌≡◌, refl, sym, ap, subst, ◌∙◌, arith, if◌then◌else◌, Bool-cases, Option-cases, inl, inr, ◌≢◌,
  ◌⊎◌, unwrap_or, length,
}
use bunting.Prelude.Int.{
  ℤ, pos, ◌+ℤ◌, ◌-ℤ◌, ◌≤ℤ◌, ◌<ℤ◌, ltb_ℤ, leb_ℤ, min_ℤ, int_laws, fits, i64, checked_sub,
}
use bunting.Prelude.Ord.{nat_ord, int_ord}
use bunting.Prelude.Map.{Map, get, remove-IsSorted, get-insert_ne, get-remove}
use bunting.Prelude.Map
use bunting.Prelude.Map.Sums.{length-remove, length-insert}
use bunting.Market.{PriceTicks, QuantityLots, Side, buy, sell}
use bunting.Book.{
  BookOrder, Cross, Level, Book, Outcome, done, fail, diverge, ◌>>=◌, side, best, take_priority,
  insert, remove,
}
use bunting.Book.Orders.{
  refill, put_back, fill_resting, front, front_order, crossing, cross_fronts, uncross_loop, uncross,
  non_negative,
}
use bunting.Book.Sound.{IsSound, OrderOk}
use bunting.Book.Sound.Remove.{level_of, remove_lem}
use bunting.Book.Sound.Insert.{with_order, with_order-fields}
use bunting.Book.Sound.Reinsert.{bump, bump-IsSound, insert_ok}
use bunting.Book.Priority.{FirstInLine, front-FirstInLine}
use bunting.Book.Execute.Fill.{
  rest, put_rest-IsSound, rest_orders, rest_counter, reduced, renewed, reduced-Joins, renewed-Joins,
  room_left, total_fits, less, maker_fits, shown_fits, sub_fits, min_bounds,
}

-- An order after `q` lots of it have traded in the auction, hidden ones included.
unfoldable pub crossed : BookOrder → QuantityLots → ℕ → BookOrder
crossed o q n =
    let left = o.remaining -ℤ q in
    if leb_ℤ o.visible q
    then record o {
      remaining = left;
      visible = min_ℤ (unwrap_or o.display left) left;
      priority = n;
    }
    else record o { remaining = left; visible = o.visible -ℤ q }

unfoldable pub after_cross : ℕ → BookOrder → QuantityLots → Map ℕ BookOrder → ℕ → Map ℕ BookOrder
unfolding crossed
after_cross id o q m n =
    if ltb_ℤ (pos 0) (o.remaining -ℤ q)
    then Map.insert id (crossed o q n) (Map.remove id m)
    else Map.remove id m

fill_resting_run :
    (b b₁ b' : Book) (o : BookOrder) (q left : QuantityLots)
    → remove o.order_id b ≡ done tt b₁
    → non_negative (checked_sub i64 o.remaining q) ≡ some left
    → put_back o q left b₁ ≡ done tt b'
    → fill_resting o q b ≡ done left b'
unfolding fill_resting
fill_resting_run b b₁ b' o q left r l p = ground arith

module _ (b : Book) (v : IsSound b) (id : ℕ) (o : BookOrder) (e : get id b.orders ≡ some o)
    (q : QuantityLots) (some_filled : pos 0 <ℤ q) (enough : q ≤ℤ o.remaining)
    (space : b.next_priority + 1 < 2 ^ 64) where
  visible_left : leb_ℤ o.visible q ≡ false → pos 0 <ℤ o.visible -ℤ q
  visible_left h = let more : q <ℤ o.visible = ground arith in omega int_laws

  slice_left : leb_ℤ o.visible q ≡ false → checked_sub i64 o.visible q ≡ some (o.visible -ℤ q)
  slice_left h =
      let more : q ≤ℤ o.visible = ground arith in
      (sub_fits o.visible q (omega arith) more (shown_fits b v id o e)).0

  put_back_lem :
      (b' : Book) × (put_back o q (o.remaining -ℤ q) (rest b v id o e) ≡ done tt b')
      × IsSound b'
      × (b'.orders ≡ after_cross id o q b.orders b.next_priority)
      × (b'.next_priority ≤ b.next_priority + 1)
  unfolding put_back take_priority after_cross crossed
  put_back_lem = elim (Bool-cases (ltb_ℤ (pos 0) (o.remaining -ℤ q))) [
    | inl more ↦ elim (Bool-cases (leb_ℤ o.visible q)) [
      | inl used ↦
          let B : Book = bump (rest b v id o e) in
          let new : BookOrder = renewed b v id o e q some_filled (rest b v id o e).next_priority in
          let (inserted, sound) =
            insert_ok B (bump-IsSound (rest b v id o e) (put_rest-IsSound b v id o e)) new
              (renewed-Joins b v id o e q some_filled (ground arith)) (level_of b v id o e).total
              (total_fits b v id o e q some_filled)
              (room_left b v id o e q some_filled (o.remaining -ℤ q)
                (less b v id o e q some_filled)) in
          (
            with_order new B,
            ground (arith, inserted, rest_counter b v id o e),
            sound,
            ground (
              arith,
              with_order-fields B new,
              rest_orders b v id o e,
              rest_counter b v id o e,
              (v.listed id o e).same_id,
            ),
            ground (arith, with_order-fields B new, rest_counter b v id o e),
          )
      | inr some_shown ↦
          let B : Book = rest b v id o e in
          let new : BookOrder = reduced b v id o e q some_filled in
          let (inserted, sound) =
            insert_ok B (put_rest-IsSound b v id o e) new
              (reduced-Joins b v id o e q some_filled (ground arith) (visible_left some_shown))
              (level_of b v id o e).total (total_fits b v id o e q some_filled)
              (room_left b v id o e q some_filled (o.remaining -ℤ q)
                (less b v id o e q some_filled)) in
          (
            with_order new B,
            ground (arith, inserted, slice_left some_shown),
            sound,
            ground
                (arith, with_order-fields B new, rest_orders b v id o e, (v.listed id o e).same_id),
            ground (arith, with_order-fields B new, rest_counter b v id o e),
          )
    ]
    | inr all_filled ↦ (
      rest b v id o e,
      ground arith,
      put_rest-IsSound b v id o e,
      ground (arith, rest_orders b v id o e),
      ground (arith, rest_counter b v id o e),
    )
  ]

  pub fill_resting_lem :
      (b' : Book) × (fill_resting o q b ≡ done (o.remaining -ℤ q) b')
      × IsSound b'
      × (b'.orders ≡ after_cross id o q b.orders b.next_priority)
      × (b'.next_priority ≤ b.next_priority + 1)
  fill_resting_lem =
      let (b', back, sound, orders, counter) = put_back_lem in
      let taken : checked_sub i64 o.remaining q ≡ some (o.remaining -ℤ q) =
        (sub_fits o.remaining q (omega arith) enough (maker_fits b v id o e)).0 in
      let not_over : pos 0 ≤ℤ o.remaining -ℤ q = omega int_laws in
      (
        b',
        fill_resting_run b (rest b v id o e) b' o q (o.remaining -ℤ q)
            (ap (λ x. remove x b) (v.listed id o e).same_id ∙ remove_lem b v id o e)
            (ground (arith, taken)) back,
        sound,
        orders,
        counter,
      )

-- A cross never adds an order, and one that uses an order up takes it away.
module _ (id : ℕ) (o : BookOrder) (q : QuantityLots) (m : Map ℕ BookOrder) (n : ℕ) where
  pub after_cross-length :
      Map.IsSorted m
      → get id m ≡ some o
      → (length (after_cross id o q m n) ≤ length m)
        × ((o.remaining -ℤ q ≤ℤ pos 0) → length (after_cross id o q m n) < length m)
  unfolding after_cross
  after_cross-length s e =
      let gone : get id (Map.remove id m) ≡ none = ground (arith, get-remove id id m) in
      (
        ground (
          arith,
          length-remove id o m s e,
          length-insert id (crossed o q n) (Map.remove id m) gone,
        ),
        λ h. ground (arith, length-remove id o m s e),
      )

  pub get-after_cross : (j : ℕ) → j ≢ id → get j (after_cross id o q m n) ≡ get j m
  unfolding after_cross
  get-after_cross j h =
      ground (arith, get-remove id j m, get-insert_ne id j (crossed o q n) (Map.remove id m) h)

used_up : (a c : ℤ) → (a -ℤ min_ℤ a c ≤ℤ pos 0) ⊎ (c -ℤ min_ℤ a c ≤ℤ pos 0)
unfolding min_ℤ ◌-ℤ◌
used_up a c = ground arith

-- Of two crossing orders at least one goes.
pub shorter :
    (i j : ℕ) (o p : BookOrder) (m m₁ m' : Map ℕ BookOrder) (n n₁ : ℕ)
    → Map.IsSorted m
    → Map.IsSorted m₁
    → get i m ≡ some o
    → get j m₁ ≡ some p
    → m₁ ≡ after_cross i o (min_ℤ o.remaining p.remaining) m n
    → m' ≡ after_cross j p (min_ℤ o.remaining p.remaining) m₁ n₁
    → length m' < length m
shorter i j o p m m₁ m' n n₁ s s₁ e f a c =
    let q : QuantityLots = min_ℤ o.remaining p.remaining in
    let (len, less_len) = after_cross-length i o q m n s e in
    let (len₁, less_len₁) = after_cross-length j p q m₁ n₁ s₁ f in
    let first : length m₁ ≡ length (after_cross i o q m n) = ap length a in
    let second : length m' ≡ length (after_cross j p q m₁ n₁) = ap length c in
    elim (used_up o.remaining p.remaining) [
      | inl h ↦ let l = less_len h in omega arith
      | inr h ↦ let l = less_len₁ h in omega arith
    ]

-- One cross: the fronts of both sides trade what the smaller of them has.
pub record Crossed (price : PriceTicks) (m : Map ℕ BookOrder) (n : ℕ) (c : Cross)
    (m' : Map ℕ BookOrder) : Type 0 where
  pub buyer : BookOrder
  pub seller : BookOrder
  pub first_buyer : FirstInLine m buy c.buy_id buyer
  pub first_seller : FirstInLine m sell c.sell_id seller
  pub buyer_pays : price ≤ℤ buyer.price
  pub seller_takes : seller.price ≤ℤ price
  pub traded : c.quantity ≡ min_ℤ buyer.remaining seller.remaining
  pub bought : c.buy_remaining ≡ buyer.remaining -ℤ c.quantity
  pub sold : c.sell_remaining ≡ seller.remaining -ℤ c.quantity
  pub buyer_priority : c.buy_priority ≡ buyer.priority
  pub seller_priority : c.sell_priority ≡ seller.priority
  pub counter : ℕ
  pub orders :
      m'
      ≡ after_cross c.sell_id seller c.quantity (after_cross c.buy_id buyer c.quantity m n) counter

-- No buyer and seller are left who both accept the price.
abbrev pub Settled : PriceTicks → Map ℕ BookOrder → Type 0
Settled price m =
    (i j : ℕ) (o p : BookOrder)
    → get i m ≡ some o
    → get j m ≡ some p
    → o.side ≡ buy
    → p.side ≡ sell
    → price ≤ℤ o.price
    → ¬ (p.price ≤ℤ price)

-- The crosses, in order, lead from the first orders to the last, where the auction is settled.
abbrev pub Crosses : PriceTicks → List Cross → Map ℕ BookOrder → Map ℕ BookOrder → Type 0
Crosses price [] m m' = (m' ≡ m) × Settled price m
Crosses price (c ∷ cs) m m' =
    (m₁ : Map ℕ BookOrder) × (n : ℕ) × Crossed price m n c m₁ × Crosses price cs m₁ m'
