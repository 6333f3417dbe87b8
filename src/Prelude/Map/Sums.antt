-- ===== src/Prelude/Map/Sums.antt =====
-- Totals over the entries of a map, and the number of entries.
use Prim.Native.Nat.{suc}
use mathlib.Core.Path.{◌≡◌, refl}
use mathlib.Core.List.{[], ◌∷◌}
use mathlib.Core.Option.{none, some}
use mathlib.Core.Logic.{inl, inr}
use native.Mathlib.Omega.{arith}
use bunting.Prelude.Tests.{Bool-cases}
use bunting.Prelude.Lists.{length}
use bunting.Prelude.Int.{ℤ, pos, ◌+ℤ◌, ◌≤ℤ◌, int_laws}
use bunting.Prelude.Ord.{Ord}
use bunting.Prelude.Map.{
  Map, get, insert, remove, Above, Above-get, eq_self, IsSorted, Above-get-none, remove_absent,
  eq_of_true,
}

-- The total of a weight over the entries.
unfoldable pub sum_of {ℓ κ} : {K : Type ℓ} {V : Type κ} → (K → V → ℤ) → Map K V → ℤ
sum_of f [] = pos 0
sum_of f ((k, v) ∷ m) = f k v +ℤ sum_of f m

module _ {ℓ κ} {K : Type ℓ} {V : Type κ} ⦃o : Ord K⦄ (f : K → V → ℤ) where
  pub sum_of-insert :
      (k : K) (v : V) (m : Map K V) → get k m ≡ none → sum_of f (insert k v m) ≡ f k v +ℤ sum_of f m
  unfolding sum_of insert get
  sum_of-insert k v [] h = refl
  sum_of-insert k v ((j, w) ∷ m) h = elim (Bool-cases (o.eq k j)) [
    | inl e ↦ absurd (let bad : some w ≡ none = rw e at h in cc)
    | inr e ↦
        let miss : get k m ≡ none = rw e at h in
        rw e (elim (Bool-cases (o.lt k j)) [
          | inl l ↦ rw l refl
          | inr l ↦ rw (l, sum_of-insert k v m miss) (omega int_laws)
        ])
  ]

  pub sum_of-remove :
      (k : K) (v : V) (m : Map K V)
      → IsSorted m
      → get k m ≡ some v
      → sum_of f m ≡ f k v +ℤ sum_of f (remove k m)
  unfolding sum_of remove get
  sum_of-remove k v [] s h = cc
  sum_of-remove k v ((j, w) ∷ m) (a, s) h = elim (Bool-cases (o.eq k j)) [
    | inl e ↦
        let miss : get k m ≡ none = rw (eq_of_true k j e) (Above-get-none j m a) in
        ground (arith, eq_of_true k j e, remove_absent k m miss)
    | inr e ↦
        let there : get k m ≡ some v = rw e at h in
        rw (e, sum_of-remove k v m s there) (omega int_laws)
  ]

module _ {ℓ κ} {K : Type ℓ} {V : Type κ} ⦃o : Ord K⦄ where
  pub length-insert :
      (k : K) (v : V) (m : Map K V) → get k m ≡ none → length (insert k v m) ≡ suc (length m)
  unfolding insert get
  length-insert k v [] h = refl
  length-insert k v ((j, w) ∷ m) h = ground (arith, length-insert k v m)

  pub length-remove :
      (k : K) (v : V) (m : Map K V)
      → IsSorted m
      → get k m ≡ some v
      → length m ≡ suc (length (remove k m))
  unfolding remove get
  length-remove k v [] s h = cc
  length-remove k v ((j, w) ∷ m) (a, s) h = elim (Bool-cases (o.eq k j)) [
    | inl e ↦
        let miss : get k m ≡ none = rw (eq_of_true k j e) (Above-get-none j m a) in
        ground (arith, remove_absent k m miss)
    | inr e ↦ let there : get k m ≡ some v = rw e at h in rw (e, length-remove k v m s there) refl
  ]

  -- What holds at every entry holds at the head and at every entry of the tail.
  pub entries_head {μ} :
      (P : K → V → Type μ) (k : K) (v : V) (m : Map K V)
      → ((j : K) (w : V) → get j ((k, v) ∷ m) ≡ some w → P j w)
      → P k v
  unfolding get
  entries_head P k v m h = h k v (ground (arith, eq_self k))

  pub entries_tail {μ} :
      (P : K → V → Type μ) (k : K) (v : V) (m : Map K V)
      → Above k m
      → ((j : K) (w : V) → get j ((k, v) ∷ m) ≡ some w → P j w)
      → (j : K) (w : V) → get j m ≡ some w
      → P j w
  unfolding get
  entries_tail P k v m a h j w e =
      h j w (ground (arith, o.eq_iff j k, o.lt_irrefl k, Above-get k j m a e))

module _ {ℓ κ} {K : Type ℓ} {V : Type κ} ⦃o : Ord K⦄ (f : K → V → ℤ) where
  -- Weights that are nowhere negative have no negative total.
  pub sum_of_nonneg :
      (m : Map K V)
      → IsSorted m
      → ((k : K) (v : V) → get k m ≡ some v → pos 0 ≤ℤ f k v)
      → pos 0 ≤ℤ sum_of f m
  unfolding sum_of
  sum_of_nonneg [] s h = omega arith
  sum_of_nonneg ((k, v) ∷ m) (a, s) h = omega (
    int_laws,
    entries_head (λ k v. pos 0 ≤ℤ f k v) k v m h,
    sum_of_nonneg m s (entries_tail (λ k v. pos 0 ≤ℤ f k v) k v m a h),
  )

  pub sum_of_zero :
      (m : Map K V)
      → IsSorted m
      → ((k : K) (v : V) → get k m ≡ some v → f k v ≡ pos 0)
      → sum_of f m ≡ pos 0
  unfolding sum_of
  sum_of_zero [] s h = refl
  sum_of_zero ((k, v) ∷ m) (a, s) h =
      rw
        (
          entries_head (λ k v. f k v ≡ pos 0) k v m h,
          sum_of_zero m s (entries_tail (λ k v. f k v ≡ pos 0) k v m a h),
        )
        (omega int_laws)

module _ {ℓ κ} {K : Type ℓ} {V : Type κ} ⦃o : Ord K⦄ (f g : K → V → ℤ) where
  pub sum_of_mono :
      (m : Map K V)
      → IsSorted m
      → ((k : K) (v : V) → get k m ≡ some v → f k v ≤ℤ g k v)
      → sum_of f m ≤ℤ sum_of g m
  unfolding sum_of
  sum_of_mono [] s h = omega arith
  sum_of_mono ((k, v) ∷ m) (a, s) h = omega (
    int_laws,
    entries_head (λ k v. f k v ≤ℤ g k v) k v m h,
    sum_of_mono m s (entries_tail (λ k v. f k v ≤ℤ g k v) k v m a h),
  )
