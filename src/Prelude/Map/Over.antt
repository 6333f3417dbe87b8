-- ===== src/Prelude/Map/Over.antt =====
-- Totals over a map when an entry is written over an earlier one or over a default.
use bunting.Prelude.Tests.{Bool-cases, unwrap_or}
use mathlib.Core.Path.{◌≡◌, ap, sym, ◌∙◌}
use mathlib.Core.List.{[], ◌∷◌}
use mathlib.Core.Logic.{inl, inr}
use bunting.Prelude.Int.{ℤ, pos, ◌+ℤ◌, ◌-ℤ◌, int_laws, +ℤ_assoc}
use bunting.Prelude.Ord.{Ord, nat_ord, pair_ord}
use bunting.Prelude.Map.{Map, get, insert, IsSorted, Above-get-none, eq_of_true, Above-trans}
use bunting.Prelude.Map.Sums.{sum_of}

under_add : (w x y a b : ℤ) → x +ℤ b ≡ y +ℤ a → w +ℤ x +ℤ b ≡ w +ℤ y +ℤ a
under_add w x y a b h = +ℤ_assoc w x b ∙ (ap (λ z. w +ℤ z) h ∙ sym (+ℤ_assoc w y a))

pub moved : (x y a b : ℤ) → x +ℤ b ≡ y +ℤ a → x ≡ y +ℤ (a -ℤ b)
moved x y a b h =
    let back : x ≡ x +ℤ b -ℤ b = omega int_laws in back ∙ (ap (λ z. z -ℤ b) h ∙ omega int_laws)

module _ {ℓ κ} {K : Type ℓ} {V : Type κ} ⦃o : Ord K⦄ (f : K → V → ℤ) (d : V) where
  -- The default weighs nothing at the key, as an absent entry does.
  pub sum_of-insert_over :
      (k : K) (v : V) (m : Map K V)
      → IsSorted m
      → f k d ≡ pos 0
      → sum_of f (insert k v m) +ℤ f k (unwrap_or (get k m) d) ≡ sum_of f m +ℤ f k v
  unfolding sum_of insert get
  sum_of-insert_over k v [] s z = rw z (omega int_laws)
  sum_of-insert_over k v ((j, w) ∷ m) (a, s) z = elim (Bool-cases (o.eq k j)) [
    | inl e ↦ rw (e, eq_of_true k j e) (omega int_laws)
    | inr e ↦ elim (Bool-cases (o.lt k j)) [
      | inl l ↦ rw (e, l, Above-get-none k m (Above-trans k j m l a), z) (omega int_laws)
      | inr l ↦ rw (e, l) (under_add (f j w) _ _ (f k v) _ (sum_of-insert_over k v m s z))
    ]
  ]
