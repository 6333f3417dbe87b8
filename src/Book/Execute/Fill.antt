-- ===== src/Book/Execute/Fill.antt =====
-- On a sound book one round of `execute` fills the order that is first in line.
use bunting.Prelude.{
  ℕ, ◌+◌, ◌<◌, ◌^◌, true, false, none, some, ◌≡◌, refl, sym, arith, Bool-cases, inl, inr, ◌≢◌,
  unwrap_or,
}
use bunting.Prelude.Int.{
  ℤ, pos, ◌+ℤ◌, ◌-ℤ◌, -ℤ_parts, ◌≤ℤ◌, ◌<ℤ◌, ltb_ℤ, leb_ℤ, eqb_ℤ, min_ℤ, int_laws, fits, i64,
  checked_sub,
}
use bunting.Prelude.Ord.{nat_ord, int_ord}
use bunting.Prelude.Map.{Map, get, IsSorted, get-remove, remove-IsSorted}
use bunting.Prelude.Map
use bunting.Market.{PriceTicks, QuantityLots, Side}
use bunting.Book.{BookOrder, Match, Book, done, take_priority, remove, best}
use bunting.Book.Orders.{reinsert, match_front, front}
use bunting.Book.Sound.{amount, here, here_eq, OrderOk, IsSound}
use bunting.Book.Sound.Remove.{
  amount_nonneg, remaining_nonneg, without, level_of, remove_lem, get-removed, total_part, fits_sub,
}
use bunting.Book.Sound.Without.{without-IsSound, without-fields}
use bunting.Book.Sound.Insert.{Joins, with_order, with_order-fields}
use bunting.Book.Sound.Reinsert.{bump, bump-IsSound, insert_ok, fits_between, valid_of, peak_bounds}
use bunting.Book.Priority.{in_queue, front-FirstInLine}
use bunting.Book.Execute.{refreshed, orders_after, counter_after, Filled}

le_of_sub : (a p r : ℤ) → a -ℤ p ≡ r → pos 0 ≤ℤ r → p ≤ℤ a
le_of_sub a p r e h = let rest : pos 0 ≤ℤ a -ℤ p = rw e h in omega int_laws

-- The calls that one round makes, when none fails.
match_front_run :
    (b b₁ b' : Book) (s : Side) (price : PriceTicks) (q : QuantityLots) (id : ℕ) (o : BookOrder)
    → front s price b ≡ some id
    → get id b.orders ≡ some o
    → leb_ℤ (min_ℤ q o.visible) (pos 0) ≡ false
    → checked_sub i64 q (min_ℤ q o.visible) ≡ some (q -ℤ min_ℤ q o.visible)
    → checked_sub i64 o.remaining (min_ℤ q o.visible) ≡ some (o.remaining -ℤ min_ℤ q o.visible)
    → checked_sub i64 o.visible (min_ℤ q o.visible) ≡ some (o.visible -ℤ min_ℤ q o.visible)
    → remove id b ≡ done tt b₁
    → reinsert
        (record o {
          remaining = o.remaining -ℤ min_ℤ q o.visible;
          visible = o.visible -ℤ min_ℤ q o.visible;
        })
        b₁
      ≡ done tt b'
    → match_front s price q b
      ≡ done
          (
            record {
              maker = id;
              price = price;
              quantity = min_ℤ q o.visible;
              maker_remaining = o.remaining -ℤ min_ℤ q o.visible;
            },
            q -ℤ min_ℤ q o.visible,
          )
          b'
unfolding match_front
match_front_run b b₁ b' s price q id o f g h l r w d i = ground arith

module _ (b : Book) (v : IsSound b) (id : ℕ) (o : BookOrder) (e : get id b.orders ≡ some o) where
  abbrev pub rest : Book
  rest = without id o (level_of b v id o e) b

  pub put_rest-IsSound : IsSound rest
  put_rest-IsSound = without-IsSound b v id o e

  ok : OrderOk b id o
  ok = v.listed id o e

  -- Another order of the maker's place has another priority.
  twin_free :
      (j : ℕ) (p : BookOrder)
      → get j rest.orders ≡ some p
      → here p.side p.price o ≡ true
      → p.priority ≢ o.priority
  unfolding ok
  twin_free j p g h q =
      let found : get j (Map.remove id b.orders) ≡ some p =
        rw (without-fields b id o (level_of b v id o e)).0 at g in
      let (other, there) = get-removed id j b.orders p found in
      let (same, cost) = here_eq p.side p.price o h in
      let mine = in_queue b v o.side o.price (level_of b v id o e) ok.at_level id o e refl refl in
      let theirs =
        in_queue b v o.side o.price (level_of b v id o e) ok.at_level j p there same cost in
      other (ground arith)

  pub rest_orders : rest.orders ≡ Map.remove id b.orders
  rest_orders = (without-fields b id o (level_of b v id o e)).0

  pub rest_counter : rest.next_priority ≡ b.next_priority
  rest_counter = (without-fields b id o (level_of b v id o e)).1

  gone : get o.order_id rest.orders ≡ none
  gone = rw (rest_orders, ok.same_id) (ground (arith, get-remove id id b.orders))

  module _ (q : QuantityLots) (some_filled : pos 0 <ℤ q) where
    abbrev pub left : QuantityLots
    left = o.remaining -ℤ q

    abbrev pub reduced : BookOrder
    reduced = record o { remaining = o.remaining -ℤ q; visible = o.visible -ℤ q }

    abbrev pub renewed : ℕ → BookOrder
    renewed n = record o {
      remaining = o.remaining -ℤ q;
      visible = min_ℤ (unwrap_or o.display (o.remaining -ℤ q)) (o.remaining -ℤ q);
      priority = n;
    }

    pub reduced-Joins : pos 0 <ℤ left → pos 0 <ℤ o.visible -ℤ q → Joins rest reduced
    reduced-Joins h w = record {
      valid = valid_of reduced h w (omega (int_laws, ok.within)) ok.priced;
      absent = gone;
      peaked = ok.peaked;
      past = rw rest_counter ok.past;
      no_twin = twin_free;
    }

    pub renewed-Joins : pos 0 <ℤ left → Joins (bump rest) (renewed rest.next_priority)
    renewed-Joins h = record {
      valid =
          let (shown, within) = peak_bounds o.display left h ok.peaked in
          valid_of (renewed rest.next_priority) h shown within ok.priced;
      absent = gone;
      peaked = ok.peaked;
      past = omega arith;
      no_twin = λ j p g t x. absurd (omega (arith, (put_rest-IsSound.listed j p g).past));
    }

    pub room_left :
        (r : ℤ)
        → r ≤ℤ o.remaining
        → amount o.side o.price (λ p. p.remaining) rest.orders +ℤ r ≤ℤ (level_of b v id o e).total
    room_left r h = rw (rest_orders, ← (total_part b v id o e).0) (omega int_laws)

    pub total_fits : fits i64 (level_of b v id o e).total ≡ true
    total_fits =
        (v.levels o.side o.price (level_of b v id o e) (v.listed id o e).at_level).total_fits

    pub less : left ≤ℤ o.remaining
    less = omega int_laws

    -- Putting the maker back leaves a sound book with the orders and the counter of the fill.
    pub reinsert_lem :
        q ≤ℤ o.visible
        → b.next_priority + 1 < 2 ^ 64
        → (b' : Book) × (reinsert reduced rest ≡ done tt b')
          × IsSound b'
          × (b'.orders ≡ orders_after id o q b.orders b.next_priority)
          × (b'.next_priority ≡ counter_after o q b.next_priority)
    unfolding reinsert take_priority orders_after counter_after refreshed
    reinsert_lem shown_enough space = elim (Bool-cases (ltb_ℤ (pos 0) left)) [
      | inl more ↦ elim (Bool-cases (eqb_ℤ (o.visible -ℤ q) (pos 0))) [
        | inl used ↦
            let (inserted, sound) =
              insert_ok (bump rest) (bump-IsSound rest put_rest-IsSound)
                (renewed rest.next_priority) (renewed-Joins (ground arith))
                (level_of b v id o e).total total_fits (room_left left less) in
            (
              with_order (renewed rest.next_priority) (bump rest),
              ground (arith, inserted, rest_counter),
              sound,
              ground (
                arith,
                with_order-fields (bump rest) (renewed rest.next_priority),
                rest_orders,
                rest_counter,
                ok.same_id,
              ),
              ground
                  (arith, with_order-fields (bump rest) (renewed rest.next_priority), rest_counter),
            )
        | inr some_shown ↦
            let (inserted, sound) =
              insert_ok rest put_rest-IsSound reduced
                (reduced-Joins (ground arith) (ground (arith, -ℤ_parts o.visible q)))
                (level_of b v id o e).total total_fits (room_left left less) in
            (
              with_order reduced rest,
              ground (arith, inserted),
              sound,
              ground (arith, with_order-fields rest reduced, rest_orders, rest_counter, ok.same_id),
              ground (arith, with_order-fields rest reduced, rest_counter),
            )
      ]
      | inr all_filled ↦ (
        rest,
        ground arith,
        put_rest-IsSound,
        ground (arith, rest_orders),
        ground (arith, rest_counter),
      )
    ]

  -- What rests of the maker is representable.
  pub maker_fits : fits i64 o.remaining ≡ true
  maker_fits =
      let level_fits =
        (v.levels o.side o.price (level_of b v id o e) (v.listed id o e).at_level).total_fits in
      let others =
        amount_nonneg b o.side o.price (λ p. p.remaining) (Map.remove id b.orders)
          (remove-IsSorted id b.orders v.orders_sorted)
          (λ j p g. remaining_nonneg b v j p (get-removed id j b.orders p g).1) in
      fits_between o.remaining (level_of b v id o e).total (omega (int_laws, ok.shown, ok.within))
        (le_of_sub _ _ _ (total_part b v id o e).0 others) level_fits

  pub shown_fits : fits i64 o.visible ≡ true
  shown_fits = fits_between o.visible o.remaining (omega (arith, ok.shown)) ok.within maker_fits

-- Less of a representable quantity is representable.
pub sub_fits :
    (a p : ℤ)
    → pos 0 ≤ℤ p
    → p ≤ℤ a
    → fits i64 a ≡ true
    → (checked_sub i64 a p ≡ some (a -ℤ p)) × (fits i64 (a -ℤ p) ≡ true)
sub_fits a p h k f =
    let (same, taken, fit) = fits_sub a p (a -ℤ p) (omega int_laws) h (omega int_laws) f in
    (taken, fit)

pub min_bounds :
    (a c : ℤ) → pos 0 <ℤ a → pos 0 <ℤ c → (pos 0 <ℤ min_ℤ a c) × (min_ℤ a c ≤ℤ a) × (min_ℤ a c ≤ℤ c)
unfolding min_ℤ
min_bounds a c h k = ground arith

module _ (b : Book) (v : IsSound b) (s : Side) (price : PriceTicks) (q : QuantityLots)
    (positive : pos 0 <ℤ q) (representable : fits i64 q ≡ true)
    (space : b.next_priority + 1 < 2 ^ 64) where
  -- One round, at the best price of the other side.
  pub match_front_lem :
      best b s ≡ some price
      → (k : Match) × (q' : QuantityLots) × (b' : Book) × (match_front s price q b
          ≡ done (k, q') b')
        × IsSound b'
        × Filled b.orders b.next_priority s q k b'.orders b'.next_priority q'
        × (k.price ≡ price)
        × (pos 0 <ℤ k.quantity)
        × (q' ≡ q -ℤ k.quantity)
        × (pos 0 ≤ℤ q')
        × (fits i64 q' ≡ true)
  match_front_lem e =
      let (id, o, at_front, first, cost) = front-FirstInLine b v s e in
      let ok : OrderOk b id o = v.listed id o first.found in
      let fill : QuantityLots = min_ℤ q o.visible in
      let (some_filled, in_q, in_slice) = min_bounds q o.visible positive ok.shown in
      let (b', back, sound, orders, counter) =
        reinsert_lem b v id o first.found fill some_filled in_slice space in
      let (left, left_fits) = sub_fits q fill (omega arith) in_q representable in
      (
        record {
          maker = id;
          price = price;
          quantity = fill;
          maker_remaining = o.remaining -ℤ fill;
        },
        q -ℤ fill,
        b',
        match_front_run b _ b' s price q id o at_front first.found (ground (arith, some_filled))
            left
            (sub_fits o.remaining fill (omega arith) (omega (arith, ok.within))
              (maker_fits b v id o first.found)).0
            (sub_fits o.visible fill (omega arith) in_slice (shown_fits b v id o first.found)).0
            (remove_lem b v id o first.found) back,
        sound,
        record {
          maker = o;
          first = first;
          maker_price = sym cost;
          fill = refl;
          unfilled = refl;
          left = refl;
          orders = orders;
          counter = counter;
        },
        refl,
        some_filled,
        refl,
        omega int_laws,
        left_fits,
      )
