-- ===== src/Prelude/Map.antt =====
-- Rust's `BTreeMap`, as a list of entries in ascending key order, and its laws.
pub mod Sums
pub mod Ends
pub mod Ext
pub mod Over
use mathlib.Core.Path.{◌≡◌, refl}
use mathlib.Core.Bool.{Bool, true, false}
use mathlib.Core.List.{List, [], ◌∷◌, map}
use mathlib.Core.Option.{Option, none, some}
use mathlib.Core.Logic.{◌≢◌, inl, inr}
use native.Mathlib.Omega.{arith}
use bunting.Prelude.Tests.{if◌then◌else◌, Bool-cases}
use bunting.Prelude.Ord.{Ord}

abbrev pub Map {ℓ κ} : Type ℓ → Type κ → Type (ℓ ⊔ κ)
Map K V = List (K × V)

module _ {ℓ κ} {K : Type ℓ} {V : Type κ} where
  abbrev pub keys : Map K V → List K
  keys m = map (λ e. e.0) m

  abbrev pub values : Map K V → List V
  values m = map (λ e. e.1) m

  -- The entry of the least key.
  unfoldable pub first : Map K V → Option (K × V)
  first [] = none
  first (e ∷ m) = some e

  -- The entry of the greatest key.
  unfoldable pub last : Map K V → Option (K × V)
  last [] = none
  last (e ∷ []) = some e
  last (e ∷ e' ∷ m) = last (e' ∷ m)

  abbrev pub is_empty : Map K V → Bool
  is_empty [] = true
  is_empty (e ∷ m) = false

module _ {ℓ} {K : Type ℓ} ⦃o : Ord K⦄ where
  pub eq_self : (k : K) → o.eq k k ≡ true
  eq_self k = (o.eq_iff k k).1 refl

  pub ne-eq_false : (k j : K) → k ≢ j → o.eq k j ≡ false
  ne-eq_false k j h = ground (arith, o.eq_iff k j)

  pub eq_of_true : (k j : K) → o.eq k j ≡ true → k ≡ j
  eq_of_true k j h = (o.eq_iff k j).0 h

  pub lt-ne : (k j : K) → o.lt k j ≡ true → o.eq k j ≡ false
  lt-ne k j h = elim (Bool-cases (o.eq k j)) [
    | inl e ↦ absurd (ground (arith, o.eq_iff k j, o.lt_irrefl k))
    | inr e ↦ e
  ]

module _ {ℓ κ} {K : Type ℓ} {V : Type κ} ⦃o : Ord K⦄ where
  unfoldable pub get : K → Map K V → Option V
  get k [] = none
  get k ((j, v) ∷ m) = if o.eq k j then some v else get k m

  unfoldable pub insert : K → V → Map K V → Map K V
  insert k v [] = (k, v) ∷ []
  insert k v ((j, w) ∷ m) =
      if o.eq k j
      then (k, v) ∷ m
      else if o.lt k j
      then (k, v) ∷ (j, w) ∷ m
      else (j, w) ∷ insert k v m

  unfoldable pub remove : K → Map K V → Map K V
  remove k [] = []
  remove k ((j, v) ∷ m) = if o.eq k j then remove k m else (j, v) ∷ remove k m

  abbrev pub contains_key : K → Map K V → Bool
  contains_key k m = elim (get k m) [ none ↦ false | some _ ↦ true ]

  pub get-insert :
      (k j : K) (v : V) (m : Map K V)
      → get j (insert k v m) ≡ (if o.eq j k then some v else get j m)
  unfolding get insert
  get-insert k j v [] = refl
  get-insert k j v ((i, w) ∷ m) =
      ground (arith, o.eq_iff k j, o.eq_iff j k, o.eq_iff k i, o.eq_iff j i, get-insert k j v m)

  pub get-remove :
      (k j : K) (m : Map K V) → get j (remove k m) ≡ (if o.eq j k then none else get j m)
  unfolding get remove
  get-remove k j [] = ground arith
  get-remove k j ((i, w) ∷ m) =
      ground (arith, o.eq_iff j k, o.eq_iff k i, o.eq_iff j i, get-remove k j m)

  -- Every key of the map is above `k`.
  abbrev pub Above : K → Map K V → Type 0
  Above k [] = Unit
  Above k ((j, v) ∷ m) = (o.lt k j ≡ true) × Above k m

  abbrev pub IsSorted : Map K V → Type 0
  IsSorted [] = Unit
  IsSorted ((k, v) ∷ m) = Above k m × IsSorted m

  pub get-insert_self : (k : K) (v : V) (m : Map K V) → get k (insert k v m) ≡ some v
  get-insert_self k v m = ground (arith, get-insert k k v m, eq_self k)

  pub get-insert_ne : (k j : K) (v : V) (m : Map K V) → j ≢ k → get j (insert k v m) ≡ get j m
  get-insert_ne k j v m h = ground (arith, get-insert k j v m, ne-eq_false j k)

  pub Above-trans : (k j : K) (m : Map K V) → o.lt k j ≡ true → Above j m → Above k m
  Above-trans k j [] h a = tt
  Above-trans k j ((i, v) ∷ m) h (a, r) = (o.lt_trans k j i h a, Above-trans k j m h r)

  Above-insert :
      (k j : K) (v : V) (m : Map K V) → o.lt k j ≡ true → Above k m → Above k (insert j v m)
  unfolding insert
  Above-insert k j v [] h a = (h, tt)
  Above-insert k j v ((i, w) ∷ m) h (a, r) = elim (Bool-cases (o.eq j i)) [
    | inl e ↦ rw e (h, r)
    | inr e ↦ rw e (elim (Bool-cases (o.lt j i)) [
      | inl l ↦ rw l (h, (a, r))
      | inr l ↦ rw l (a, Above-insert k j v m h r)
    ])
  ]

  pub insert-IsSorted : (k : K) (v : V) (m : Map K V) → IsSorted m → IsSorted (insert k v m)
  unfolding insert
  insert-IsSorted k v [] s = (tt, tt)
  insert-IsSorted k v ((i, w) ∷ m) (a, s) = elim (Bool-cases (o.eq k i)) [
    | inl e ↦ rw e (rw (← (o.eq_iff k i).0 e) at a, s)
    | inr e ↦ rw e (elim (Bool-cases (o.lt k i)) [
      | inl l ↦ rw l ((l, Above-trans k i m l a), (a, s))
      | inr l ↦ rw l (Above-insert i k v m (o.lt_total k i l e) a, insert-IsSorted k v m s)
    ])
  ]

  Above-remove : (k j : K) (m : Map K V) → Above k m → Above k (remove j m)
  unfolding remove
  Above-remove k j [] a = tt
  Above-remove k j ((i, w) ∷ m) (a, r) = elim (Bool-cases (o.eq j i)) [
    | inl e ↦ rw e (Above-remove k j m r)
    | inr e ↦ rw e (a, Above-remove k j m r)
  ]

  pub remove-IsSorted : (k : K) (m : Map K V) → IsSorted m → IsSorted (remove k m)
  unfolding remove
  remove-IsSorted k [] s = tt
  remove-IsSorted k ((i, w) ∷ m) (a, s) = elim (Bool-cases (o.eq k i)) [
    | inl e ↦ rw e (remove-IsSorted k m s)
    | inr e ↦ rw e (Above-remove i k m a, remove-IsSorted k m s)
  ]

  pub Above-get : (k j : K) (m : Map K V) {v : V} → Above k m → get j m ≡ some v → o.lt k j ≡ true
  unfolding get
  Above-get k j [] a h = cc
  Above-get k j ((i, w) ∷ m) {v} (a, r) h = elim (Bool-cases (o.eq j i)) [
    | inl e ↦ rw (eq_of_true j i e) a
    | inr e ↦ let found : get j m ≡ some v = rw e at h in Above-get k j m r found
  ]

  pub Above-get-none : (k : K) (m : Map K V) → Above k m → get k m ≡ none
  unfolding get
  Above-get-none k [] a = refl
  Above-get-none k ((i, w) ∷ m) (a, r) =
      ground (arith, o.eq_iff k i, o.lt_irrefl k, Above-get-none k m r)

  pub remove_absent : (k : K) (m : Map K V) → get k m ≡ none → remove k m ≡ m
  unfolding get remove
  remove_absent k [] h = refl
  remove_absent k ((i, w) ∷ m) h = ground (arith, remove_absent k m)

  -- A map with an entry is not empty.
  pub get-is_empty : (k : K) (m : Map K V) {v : V} → get k m ≡ some v → is_empty m ≡ false
  unfolding get
  get-is_empty k [] h = cc
  get-is_empty k (e ∷ m) h = refl
