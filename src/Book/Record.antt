-- ===== src/Book/Record.antt =====
-- The persisted form of a book (`BookRecord` of packages/bunting-engine/src/book.rs).
pub mod Kept
use bunting.Prelude.{
  ℕ, ◌≤◌, Bool, true, false, ◌&&◌, ◌||◌, Option, none, some, List, [], ◌∷◌, ◌≡◌, refl, sym, ap, ◌∙◌,
  arith, if◌then◌else◌, leb, ltb, ◌==◌, Result, ok, err, inl, inr, Bool-cases, ==_iff, not,
  Result-cases, Option-cases,
}
use bunting.Prelude.Int.{ℤ, ltb_ℤ, eqb_ℤ}
use bunting.Prelude.Ord.{nat_ord}
use bunting.Prelude.Map.{Map, get, values, get-insert, IsSorted, Above, Above-get-none}
use bunting.Prelude.Map
use bunting.Market.{Side, buy, sell}
use bunting.Book.{BookOrder, BookError, Book, M, done, fail, diverge, insert}
use bunting.Book
use bunting.Book.Sound.Insert.{insert-eq-done, with_order}

pub record BookRecord : Type 0 where
  pub next_priority : ℕ
  pub orders : List BookOrder

-- The messages of `try_from`.
pub data RecordError : Type 0 where
  beyond_sequence : RecordError
  refused : BookError → RecordError

-- The derived order of sides.
abbrev pub side_before : Side → Side → Bool
side_before buy sell = true
side_before _ _ = false

-- `(side, price, priority)` in lexicographic order.
abbrev pub sorts_before : BookOrder → BookOrder → Bool
sorts_before o p =
    side_before o.side p.side
    || (not (side_before p.side o.side)
        && (ltb_ℤ o.price p.price || (not (ltb_ℤ p.price o.price) && ltb o.priority p.priority)))

unfoldable pub place : BookOrder → List BookOrder → List BookOrder
place o [] = o ∷ []
place o (p ∷ rest) =
    let later = place o rest in if sorts_before p o then p ∷ later else o ∷ p ∷ rest

unfoldable pub sort_by_key : List BookOrder → List BookOrder
unfolding place
sort_by_key [] = []
sort_by_key (o ∷ rest) = place o (sort_by_key rest)

unfoldable pub record_of : Book → BookRecord
unfolding sort_by_key
record_of b = record { next_priority = b.next_priority; orders = sort_by_key (values b.orders) }

-- `insert` does not diverge; its type has the case.
unfoldable pub load : ℕ → List BookOrder → Book → Result RecordError Book
load bound [] b = ok b
load bound (o ∷ rest) b = if leb bound o.priority then err beyond_sequence else elim (insert o b) [
  | done x b' ↦ load bound rest b'
  | fail e b' ↦ err (refused e)
  | diverge ↦ err beyond_sequence
]

unfoldable pub try_from_record : BookRecord → Result RecordError Book
unfolding load
try_from_record r =
    load r.next_priority r.orders (record Book.new { next_priority = r.next_priority })
