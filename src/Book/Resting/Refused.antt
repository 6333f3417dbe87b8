-- ===== src/Book/Resting/Refused.antt =====
-- How `rest` of packages/bunting-engine/src/book.rs fails.
use bunting.Prelude.{ℕ, true, false, Option, none, ◌≡◌, ◌⊎◌, inl, inr, arith, Bool-cases}
use bunting.Prelude.Ord.{nat_ord, int_ord}
use bunting.Prelude.Map.{get}
use bunting.Market.{PriceTicks, QuantityLots, Side}
use bunting.Book.{
  Book, BookOrder, BookError, duplicate_order, invalid_order, overflow, fail, contains, insert,
  add_to_level, is_invalid,
}
use bunting.Book.Orders.{rest}
use bunting.Book.Sound.{IsSound}
use bunting.Book.Sound.Insert.{level_for, priority_free}
use bunting.Book.Sound.Reinsert.{bump, bump-IsSound}
use bunting.Book.Resting.{newcomer, is_refused, newcomer-Joins, take_priority-cases}

-- On a sound book an order that joins it can only overflow a level's totals.
insert-fails :
    (o : BookOrder) (b b' : Book) (e : BookError)
    → is_invalid o ≡ false
    → get o.order_id b.orders ≡ none
    → get o.priority (level_for b o).queue ≡ none
    → insert o b ≡ fail e b'
    → e ≡ overflow
unfolding insert add_to_level
insert-fails o b b' e i a q h = ground arith

module _ (id : ℕ) (s : Side) (price : PriceTicks) (quantity : QuantityLots)
    (display : Option QuantityLots) where
  rest-refuses :
      (b b' : Book) (e : BookError)
      → is_refused id s price quantity display ≡ true
      → rest id s price quantity display b ≡ fail e b'
      → (e ≡ invalid_order) × (b' ≡ b)
  unfolding rest
  rest-refuses b b' e r h = (ground arith, ground arith)

  rest-repeats :
      (b b' : Book) (e : BookError)
      → is_refused id s price quantity display ≡ false
      → contains b id ≡ true
      → rest id s price quantity display b ≡ fail e b'
      → (e ≡ duplicate_order) × (b' ≡ b)
  unfolding rest
  rest-repeats b b' e r c h = (ground arith, ground arith)

  rest-inserts :
      (b b' : Book) (e : BookError)
      → is_refused id s price quantity display ≡ false
      → contains b id ≡ false
      → rest id s price quantity display b ≡ fail e b'
      → (e ≡ overflow)
        ⊎ (insert (newcomer id s price quantity display b.next_priority) (bump b) ≡ fail e b')
  unfolding rest
  rest-inserts b b' e r c h = elim (take_priority-cases b) [
    | inl (t, space) ↦ inr (ground arith)
    | inr t ↦ inl (ground arith)
  ]

  -- On a sound book `rest` fails in three ways: an order it refuses as invalid is reported so, an
  -- identifier that rests already is reported as a duplicate, and in both cases the book is as it
  -- was; any other failure is an overflow.
  pub rest_fails :
      (b b' : Book) (e : BookError)
      → IsSound b
      → rest id s price quantity display b ≡ fail e b'
      → ((e ≡ invalid_order) × (is_refused id s price quantity display ≡ true) × (b' ≡ b))
        ⊎ (((e ≡ duplicate_order) × (contains b id ≡ true) × (b' ≡ b)) ⊎ (e ≡ overflow))
  rest_fails b b' e v h = elim (Bool-cases (is_refused id s price quantity display)) [
    | inl r ↦ let (code, same) = rest-refuses b b' e r h in inl (code, r, same)
    | inr r ↦ elim (Bool-cases (contains b id)) [
      | inl c ↦ let (code, same) = rest-repeats b b' e r c h in inr (inl (code, c, same))
      | inr c ↦ elim (rest-inserts b b' e r c h) [
        | inl o ↦ inr (inr o)
        | inr i ↦
            let new = newcomer id s price quantity display b.next_priority in
            let j = newcomer-Joins id s price quantity display b v r c in
            inr (
              inr (
                insert-fails new (bump b) b' e j.valid j.absent
                  (priority_free (bump b) (bump-IsSound b v) new j) i))
      ]
    ]
  ]
