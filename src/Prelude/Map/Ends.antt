-- ===== src/Prelude/Map/Ends.antt =====
-- The first and the last entry of a sorted map, and maps that agree everywhere.
use mathlib.Core.Path.{◌≡◌, refl}
use mathlib.Core.Bool.{true, false}
use mathlib.Core.List.{[], ◌∷◌}
use mathlib.Core.Option.{none, some}
use mathlib.Core.Logic.{inl, inr}
use native.Mathlib.Omega.{arith}
use bunting.Prelude.Tests.{Bool-cases}
use bunting.Prelude.Ord.{Ord}
use bunting.Prelude.Map.{Map, is_empty, get, first, last, IsSorted, Above-get, eq_of_true, eq_self}

module _ {ℓ} {K : Type ℓ} ⦃o : Ord K⦄ where
  pub asym : (k j : K) → o.lt k j ≡ true → o.lt j k ≡ false
  asym k j h = elim (Bool-cases (o.lt j k)) [
    | inl l ↦ absurd (ground (arith, o.lt_trans k j k, o.lt_irrefl k))
    | inr l ↦ l
  ]

module _ {ℓ κ} {K : Type ℓ} {V : Type κ} ⦃o : Ord K⦄ where
  pub get-first : (m : Map K V) {k : K} {v : V} → first m ≡ some (k, v) → get k m ≡ some v
  unfolding first get
  get-first [] h = cc
  get-first ((j, w) ∷ m) {k} h = ground (arith, eq_self k)

  -- No key of the map is below the first one.
  pub first-least :
      (m : Map K V) {k : K} {v : V} (j : K) {w : V}
      → IsSorted m
      → first m ≡ some (k, v)
      → get j m ≡ some w
      → o.lt j k ≡ false
  unfolding first get
  first-least [] j s h g = cc
  first-least ((i, u) ∷ m) {k} j {w} (a, s) h g = elim (Bool-cases (o.eq j i)) [
    | inl e ↦ ground (arith, eq_of_true j i e, o.lt_irrefl i)
    | inr e ↦
        let there : get j m ≡ some w = rw e at g in
        ground (arith, asym i j, Above-get i j m a there)
  ]

  pub get-last :
      (m : Map K V) {k : K} {v : V} → IsSorted m → last m ≡ some (k, v) → get k m ≡ some v
  unfolding last get
  get-last [] s h = cc
  get-last ((j, w) ∷ []) {k} s h = ground (arith, eq_self k)
  get-last ((j, w) ∷ (i, u) ∷ m) {k} {v} (a, s) h =
      let rest : get k ((i, u) ∷ m) ≡ some v = get-last ((i, u) ∷ m) s h in
      ground (arith, o.eq_iff k j, Above-get j k ((i, u) ∷ m) a rest, o.lt_irrefl k, rest)

  -- No key of the map is above the last one.
  pub last-greatest :
      (m : Map K V) {k : K} {v : V} (j : K) {w : V}
      → IsSorted m
      → last m ≡ some (k, v)
      → get j m ≡ some w
      → o.lt k j ≡ false
  unfolding last get
  last-greatest [] j s h g = cc
  last-greatest ((i, u) ∷ []) j s h g = ground (arith, o.eq_iff j i, o.lt_irrefl i)
  last-greatest ((i, u) ∷ (i', u') ∷ m) {k} {v} j {w} (a, s) h g = elim (Bool-cases (o.eq j i)) [
    | inl e ↦
        let at_end : get k ((i', u') ∷ m) ≡ some v = get-last ((i', u') ∷ m) s h in
        ground (arith, eq_of_true j i e, asym i k, Above-get i k ((i', u') ∷ m) a at_end)
    | inr e ↦
        let there : get j ((i', u') ∷ m) ≡ some w = rw e at g in
        last-greatest ((i', u') ∷ m) j s h there
  ]

  pub get-first_none : (m : Map K V) (k : K) → first m ≡ none → get k m ≡ none
  unfolding first get
  get-first_none [] k h = refl
  get-first_none (e ∷ m) k h = cc

  pub get-last-none : (m : Map K V) (k : K) → last m ≡ none → get k m ≡ none
  unfolding last get
  get-last-none [] k h = refl
  get-last-none (e ∷ []) k h = cc
  get-last-none (e ∷ e' ∷ m) k h = absurd (
      let none_left : get e'.0 (e' ∷ m) ≡ none = get-last-none (e' ∷ m) e'.0 h in
      ground (arith, eq_self e'.0))

  pub first-some : (m : Map K V) → is_empty m ≡ false → (e : K × V) × (first m ≡ some e)
  unfolding first
  first-some [] h = cc
  first-some (e ∷ m) h = (e, refl)
