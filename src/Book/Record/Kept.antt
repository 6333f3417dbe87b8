-- ===== src/Book/Record/Kept.antt =====
-- A book that is saved and loaded again has the orders it had (packages/bunting-engine/src/book.rs).
use bunting.Prelude.{
  ℕ, Option, none, some, List, [], ◌∷◌, ◌≡◌, ◌⊎◌, refl, ap, ◌∙◌, arith, if◌then◌else◌, ◌==◌, ok,
  inl, inr, ==_iff,
}
use bunting.Prelude.Ord.{nat_ord}
use bunting.Prelude.Map.{Map, get, values, get-insert, eq_self, IsSorted, Above, Above-get-none}
use bunting.Prelude.Map
use bunting.Book.{
  BookOrder, BookError, Book, Outcome, done, fail, diverge, insert, contains, put_level,
  add_to_level,
}
use bunting.Book
use bunting.Book.Sound.{IsSound}
use bunting.Book.Record.{place, sort_by_key, record_of, load, try_from_record}

-- The first order of a list that has an identity.
find : ℕ → List BookOrder → Option BookOrder
find id [] = none
find id (o ∷ rest) = if id == o.order_id then some o else find id rest

find-place :
    (id : ℕ) (o : BookOrder) (xs : List BookOrder)
    → find o.order_id xs ≡ none
    → find id (place o xs) ≡ (if id == o.order_id then some o else find id xs)
unfolding find place
find-place id o [] h = refl
find-place id o (x ∷ xs) h = ground (arith, find-place id o xs)

-- Saving loses no order and makes none.
find-sort_by_key :
    (id : ℕ) (m : Map ℕ BookOrder)
    → IsSorted m
    → ((j : ℕ) (o : BookOrder) → get j m ≡ some o → o.order_id ≡ j)
    → find id (sort_by_key (values m)) ≡ get id m
unfolding find sort_by_key get
find-sort_by_key id [] s keyed = refl
find-sort_by_key id ((k, o) ∷ m) (a, s) keyed =
    let id_of : o.order_id ≡ k = keyed k o (rw (eq_self k) refl) in
    let others : (j : ℕ) (p : BookOrder) → get j m ≡ some p → p.order_id ≡ j =
      λ j p g. keyed j p (ground (arith, g, Above-get-none k m a)) in
    let rest : (j : ℕ) → find j (sort_by_key (values m)) ≡ get j m =
      λ j. find-sort_by_key j m s others in
    ground (
      arith,
      id_of,
      rest id,
      find-place id o (sort_by_key (values m))
          (ap (λ j. find j (sort_by_key (values m))) id_of ∙ (rest k ∙ Above-get-none k m a)),
    )

insert-keeps :
    (o : BookOrder) (b b' : Book) (u : Unit {0})
    → insert o b ≡ done u b'
    → (get o.order_id b.orders ≡ none)
      × (b'.next_priority ≡ b.next_priority)
      × (b'.orders ≡ Map.insert o.order_id o b.orders)
unfolding insert add_to_level
insert-keeps o b b' u h = ground arith

-- The first order that a lookup gives, else the second.
abbrev pub either : Option BookOrder → Option BookOrder → Option BookOrder
either none p = p
either (some o) p = some o

Outcome-cases :
    (r : Outcome (Unit {0}))
    → ((u : Unit {0}) × (b : Book) × (r ≡ done u b))
      ⊎ (((e : BookError) × (b : Book) × (r ≡ fail e b)) ⊎ (r ≡ diverge))
Outcome-cases (done u b) = inl (u, b, refl)
Outcome-cases (fail e b) = inr (inl (e, b, refl))
Outcome-cases diverge = inr (inr refl)

load-steps :
    (bound : ℕ) (o : BookOrder) (os : List BookOrder) (b b' : Book)
    → load bound (o ∷ os) b ≡ ok b'
    → (next : Book) × (insert o b ≡ done tt next) × (load bound os next ≡ ok b')
unfolding load
load-steps bound o os b b' h = elim (Outcome-cases (insert o b)) [
  | inl (u, next, e) ↦ (next, e, ground arith)
  | inr (inl (x, c, e)) ↦ absurd (ground arith)
  | inr (inr e) ↦ absurd (ground arith)
]

load-keeps :
    (bound : ℕ) (os : List BookOrder) (b b' : Book)
    → load bound os b ≡ ok b'
    → (b'.next_priority ≡ b.next_priority)
      × ((id : ℕ) → get id b'.orders ≡ either (get id b.orders) (find id os))
unfolding load find
load-keeps bound [] b b' h =
    let same : b' ≡ b = ground arith in
    (ap (λ x. x.next_priority) same, λ id. ap (λ x. get id x.orders) same ∙ alone (get id b.orders))
  where
    alone : (o : Option BookOrder) → o ≡ either o none
    alone none = refl
    alone (some o) = refl
load-keeps bound (o ∷ os) b b' h =
    let (next, e, h') = load-steps bound o os b b' h in
    let (absent, counter, orders) = insert-keeps o b next tt e in
    let (counter', kept) = load-keeps bound os next b' h' in
    (
      counter' ∙ counter,
      λ id. ground (
        arith,
        kept id,
        ap (get id) orders,
        absent,
        get-insert o.order_id id o b.orders,
        (==_iff id o.order_id).0,
      ),
    )

-- When a consistent book is saved and the saved form is loaded without an error, the loaded book has
-- the orders of the book, each under its identity as it was, and the same priority counter.
pub try_from_record-record_of :
    (b b' : Book)
    → IsSound b
    → try_from_record (record_of b) ≡ ok b'
    → (b'.next_priority ≡ b.next_priority) × ((id : ℕ) → get id b'.orders ≡ get id b.orders)
unfolding try_from_record record_of find get
try_from_record-record_of b b' v h =
    let (counter, kept) =
      load-keeps b.next_priority (sort_by_key (values b.orders))
        (record Book.new { next_priority = b.next_priority }) b' h in
    (
      counter,
      λ id.
          kept id
          ∙ find-sort_by_key id b.orders v.orders_sorted (λ j o g. (v.listed j o g).same_id),
    )
