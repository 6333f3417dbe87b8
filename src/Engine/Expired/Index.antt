-- ===== src/Engine/Expired/Index.antt =====
-- The index of expiries of packages/bunting-engine/src/lib.rs, against the orders on record.
use bunting.Prelude.{
  ℕ, Bool, true, false, ◌&&◌, Option, none, some, [], ◌∷◌, ◌≡◌, refl, arith, inl, inr, Option-cases,
  Bool-cases, leb, ltb, if◌then◌else◌, ◌==◌, ==_iff,
}
use bunting.Prelude.Ord.{nat_ord, pair_ord}
use bunting.Prelude.Map.{
  Map, get, insert, remove, first, contains_key, get-insert, get-remove, IsSorted, Above-get,
  remove-IsSorted,
}
use bunting.Prelude.Int.{pos}
use bunting.Engine.{OwnedOrder, is_active, canceled}
use bunting.Engine.Orders.{closed_out}

-- Whether an order is live and expires at the time.
abbrev pub expires_then : ℕ → Option OwnedOrder → Bool
expires_then at none = false
expires_then at (some owned) =
    is_active owned.state && (elim owned.expires_at [ none ↦ false | some t ↦ at == t ])

-- Whether an order is live and its expiry is not after the time.
abbrev pub overdue : ℕ → Option OwnedOrder → Bool
overdue now none = false
overdue now (some owned) =
    is_active owned.state && (elim owned.expires_at [ none ↦ false | some t ↦ leb t now ])

-- An order on record once the overdue ones are closed.
abbrev pub after_expiry : ℕ → Option OwnedOrder → Option OwnedOrder
after_expiry now none = none
after_expiry now (some owned) =
    if overdue now (some owned)
    then some (record owned { state = canceled; remaining_quantity = pos 0 })
    else some owned

-- The index of expiries is in order, and holds exactly the expiries of the live orders.
abbrev pub Indexed : Map (ℕ × ℕ) (Unit {0}) → Map ℕ OwnedOrder → Type 0
Indexed expiries orders =
    IsSorted expiries
    × ((at j : ℕ) → contains_key (at, j) expiries ≡ expires_then at (get j orders))

pub close_entry :
    (at id : ℕ) (owned : OwnedOrder) (e : Map (ℕ × ℕ) (Unit {0})) (own : Map ℕ OwnedOrder)
    → get id own ≡ some owned
    → owned.expires_at ≡ some at
    → Indexed e own
    → Indexed (remove (at, id) e) (insert id (closed_out owned) own)
close_entry at id owned e own o x (s, exact) = (
  remove-IsSorted (at, id) e s,
  λ t j. ground (
    arith,
    exact t j,
    get-remove (at, id) (t, j) e,
    get-insert id j (closed_out owned) own,
    ==_iff j id,
  ),
)

pub none_overdue :
    (now : ℕ) (e : Map (ℕ × ℕ) (Unit {0})) (own : Map ℕ OwnedOrder)
    → Indexed e own
    → ((at j : ℕ) → leb at now ≡ true → contains_key (at, j) e ≡ false)
    → (j : ℕ) → get j own ≡ after_expiry now (get j own)
none_overdue now e own (s, exact) later j = elim (Option-cases (get j own)) [
  | inl n ↦ rw n refl
  | inr (owned, o) ↦ elim (Option-cases owned.expires_at) [
    | inl n ↦ ground arith
    | inr (at, x) ↦ elim (Bool-cases (leb at now)) [
      | inr h ↦ ground arith
      | inl h ↦ ground (arith, exact at j, later at j h)
    ]
  ]
]

-- The first entry of an index in order is the earliest.
pub none_earlier :
    (now at id : ℕ) (v : Unit {0}) (m : Map (ℕ × ℕ) (Unit {0}))
    → IsSorted (((at, id), v) ∷ m)
    → ltb now at ≡ true
    → (t j : ℕ) → leb t now ≡ true
    → contains_key (t, j) (((at, id), v) ∷ m) ≡ false
unfolding get
none_earlier now at id v m (a, s) later t j h = elim (Option-cases (get (t, j) m)) [
  | inl n ↦ ground arith
  | inr (x, f) ↦ ground (arith, Above-get (at, id) (t, j) m a f)
]

pub none_first :
    (m : Map (ℕ × ℕ) (Unit {0})) (t j : ℕ) → first m ≡ none → contains_key (t, j) m ≡ false
unfolding first get
none_first [] t j h = refl
none_first (e ∷ m) t j h = cc

pub contains_first :
    (at id : ℕ) (v : Unit {0}) (m : Map (ℕ × ℕ) (Unit {0}))
    → first m ≡ some ((at, id), v)
    → contains_key (at, id) m ≡ true
unfolding first get
contains_first at id v [] h = cc
contains_first at id v (((t, j), x) ∷ m) h = ground arith

-- A live order that expires at a time that is not after `now` is overdue.
pub first_overdue :
    (now at : ℕ) (o : Option OwnedOrder)
    → expires_then at o ≡ true
    → ltb now at ≡ false
    → (owned : OwnedOrder) × (o ≡ some owned)
      × (owned.expires_at ≡ some at)
      × (overdue now o ≡ true)
first_overdue now at none h d = cc
first_overdue now at (some owned) h d = elim (Option-cases owned.expires_at) [
  | inl n ↦ absurd (ground arith)
  | inr (t, x) ↦ (owned, refl, ground arith, ground arith)
]

-- Closing one overdue order changes nothing of what is left once all of them are closed.
pub after_close :
    (now id j : ℕ) (owned : OwnedOrder) (own : Map ℕ OwnedOrder)
    → get id own ≡ some owned
    → overdue now (some owned) ≡ true
    → after_expiry now (get j (insert id (closed_out owned) own)) ≡ after_expiry now (get j own)
after_close now id j owned own o d = elim (Bool-cases (j == id)) [
  | inl e ↦ rw (get-insert id j (closed_out owned) own, e, (==_iff j id).0 e, o, d) refl
  | inr e ↦ rw (get-insert id j (closed_out owned) own, e) refl
]

pub overdue_before :
    (now id j : ℕ) (owned : OwnedOrder) (own : Map ℕ OwnedOrder)
    → get id own ≡ some owned
    → overdue now (get j (insert id (closed_out owned) own)) ≡ true
    → get j (insert id (closed_out owned) own) ≡ get j own
overdue_before now id j owned own o d = ground (arith, get-insert id j (closed_out owned) own)
