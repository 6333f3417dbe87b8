-- ===== src/Prelude/Map/Ext.antt =====
-- Sorted maps that hold the same entries are equal.
use mathlib.Core.Path.{◌≡◌, refl, sym, ◌∙◌}
use mathlib.Core.Bool.{false}
use mathlib.Core.List.{[], ◌∷◌}
use mathlib.Core.Option.{none, some}
use mathlib.Core.Logic.{inl, inr}
use native.Mathlib.Omega.{arith}
use bunting.Prelude.Tests.{Bool-cases}
use bunting.Prelude.Ord.{Ord}
use bunting.Prelude.Map.{
  Map, get, insert, remove, remove_absent, IsSorted, Above, Above-get, Above-get-none, eq_of_true,
  eq_self,
}

module _ {ℓ κ} {K : Type ℓ} {V : Type κ} ⦃o : Ord K⦄ where
  get_head : (k : K) (v : V) (m : Map K V) → get k ((k, v) ∷ m) ≡ some v
  unfolding get
  get_head k v m = ground (arith, eq_self k)

  get_tail : (k j : K) (v : V) (m : Map K V) → o.eq j k ≡ false → get j ((k, v) ∷ m) ≡ get j m
  unfolding get
  get_tail k j v m h = ground arith

  -- Two heads that each find the other are one.
  heads_eq :
      (k j : K) (v w : V) (m n : Map K V)
      → Above k m
      → Above j n
      → get k ((j, w) ∷ n) ≡ some v
      → get j ((k, v) ∷ m) ≡ some w
      → k ≡ j
  unfolding get
  heads_eq k j v w m n a c g h = elim (Bool-cases (o.eq k j)) [
    | inl e ↦ eq_of_true k j e
    | inr e ↦ elim (Bool-cases (o.eq j k)) [
      | inl f ↦ ground (arith, eq_of_true j k f)
      | inr f ↦
          let in_n : get k n ≡ some v = ground arith in
          let in_m : get j m ≡ some w = ground arith in
          absurd (
            ground (
              arith,
              o.lt_trans k j k (Above-get k j m a in_m) (Above-get j k n c in_n),
              o.lt_irrefl k,
            ))
    ]
  ]

  tails_agree :
      (k : K) (v w : V) (m n : Map K V)
      → Above k m
      → Above k n
      → ((j : K) → get j ((k, v) ∷ m) ≡ get j ((k, w) ∷ n))
      → (j : K) → get j m ≡ get j n
  unfolding get
  tails_agree k v w m n a c h j = elim (Bool-cases (o.eq j k)) [
    | inl e ↦ ground (arith, eq_of_true j k e, Above-get-none k m a, Above-get-none k n c)
    | inr e ↦ ground (arith, h j)
  ]

  not_empty : (k : K) (v : V) (m : Map K V) → get k ((k, v) ∷ m) ≡ none → ⊥
  not_empty k v m h = let found = get_head k v m in cc

  get_nil : (k : K) → get {V = V} k [] ≡ none
  unfolding get
  get_nil k = refl

  pub map_ext : (m n : Map K V) → IsSorted m → IsSorted n → ((j : K) → get j m ≡ get j n) → m ≡ n
  map_ext [] [] s t h = refl
  map_ext [] ((j, w) ∷ n) s t h = absurd (not_empty j w n (sym (h j) ∙ get_nil j))
  map_ext ((k, v) ∷ m) [] s t h = absurd (not_empty k v m (h k ∙ get_nil k))
  map_ext ((k, v) ∷ m) ((j, w) ∷ n) (a, s) (c, t) h =
      let same : k ≡ j =
        heads_eq k j v w m n a c (sym (h k) ∙ get_head k v m) (h j ∙ get_head j w n) in
      let found : get k ((k, w) ∷ n) ≡ some v = rw (← same) at (sym (h k) ∙ get_head k v m) in
      let one : v ≡ w = let there = get_head k w n in cc in
      let agree : (i : K) → get i ((k, v) ∷ m) ≡ get i ((k, w) ∷ n) = λ i. rw (← same) at (h i) in
      let above : Above k n = rw (← same) at c in
      let rest : m ≡ n = map_ext m n s t (tails_agree k v w m n a above agree) in cc

module _ {ℓ κ} {K : Type ℓ} {V : Type κ} ⦃o : Ord K⦄ where
  -- Removing an entry that has just been added.
  pub remove-insert : (k : K) (v : V) (m : Map K V) → get k m ≡ none → remove k (insert k v m) ≡ m
  unfolding remove insert get
  remove-insert k v [] h = ground (arith, eq_self k)
  remove-insert k v ((j, w) ∷ m) h = elim (Bool-cases (o.eq k j)) [
    | inl e ↦ absurd (let bad : some w ≡ none = rw e at h in cc)
    | inr e ↦
        let miss : get k m ≡ none = rw e at h in
        elim (Bool-cases (o.lt k j)) [
          | inl l ↦ ground (arith, eq_self k, remove_absent k m miss)
          | inr l ↦ ground (arith, remove-insert k v m miss)
        ]
  ]
