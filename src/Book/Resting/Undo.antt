-- ===== src/Book/Resting/Undo.antt =====
-- Taking back an order that has just been rested (`rest` and `cancel` of
-- packages/bunting-engine/src/book.rs).
use bunting.Prelude.{ℕ, ◌+◌, Option, some, ◌≡◌, ap, ◌∙◌}
use bunting.Prelude.Ord.{nat_ord}
use bunting.Prelude.Map.{Map, get, get-insert_self}
use bunting.Prelude.Map
use bunting.Prelude.Map.Ext.{remove-insert}
use bunting.Market.{PriceTicks, QuantityLots, Side}
use bunting.Book.{Book, done}
use bunting.Book.Orders.{rest, cancel}
use bunting.Book.Sound.{IsSound}
use bunting.Book.Resting.{newcomer, rest-IsSound, cancel_lem}

-- When an order rests on a sound book, cancelling it at once returns that order, with all it was
-- given, and leaves a sound book with the orders of before; only the priority counter has moved.
pub cancel-rest :
    (id : ℕ) (s : Side) (price : PriceTicks) (quantity : QuantityLots)
    (display : Option QuantityLots) (b b' : Book)
    → IsSound b
    → rest id s price quantity display b ≡ done tt b'
    → ((cancel id b').0 ≡ some (newcomer id s price quantity display b.next_priority))
      × IsSound (cancel id b').1
      × ((cancel id b').1.orders ≡ b.orders)
      × ((cancel id b').1.next_priority ≡ b.next_priority + 1)
cancel-rest id s price quantity display b b' v h =
    let (v', orders, counter, absent, fine) = rest-IsSound id s price quantity display b b' v h in
    let (v'', found, left, same) = cancel_lem b' id v' in
    (
      found ∙ (ap (get id) orders ∙ get-insert_self id _ b.orders),
      v'',
      left ∙ (ap (Map.remove id) orders ∙ remove-insert id _ b.orders absent),
      same ∙ counter,
    )
