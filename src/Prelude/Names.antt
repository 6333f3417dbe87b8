-- ===== src/Prelude/Names.antt =====
-- Rust's `&str` as its bytes, with the lexicographic order, and sorted duplicates.
use bunting.Prelude.Tests.{ltb, ◌==◌, if◌then◌else◌}
use bunting.Prelude.Ord.{Ord, nat_ord}
use Prim.Native.Nat.{ℕ}
use mathlib.Core.Path.{◌≡◌}
use mathlib.Core.Bool.{Bool, true, false, ◌&&◌, ◌||◌}
use mathlib.Core.Logic.{◌↔◌}
use mathlib.Core.List.{List, [], ◌∷◌}
use native.Mathlib.Omega.{arith}

abbrev pub Name : Type 0
Name = List ℕ

abbrev pub name_lt : Name → Name → Bool
name_lt [] [] = false
name_lt [] (b ∷ bs) = true
name_lt (a ∷ s) [] = false
name_lt (a ∷ s) (b ∷ bs) = ltb a b || ((a == b) && name_lt s bs)

abbrev pub name_eq : Name → Name → Bool
name_eq [] [] = true
name_eq [] (b ∷ bs) = false
name_eq (a ∷ s) [] = false
name_eq (a ∷ s) (b ∷ bs) = (a == b) && name_eq s bs

pub name_eq_iff : (s t : Name) → (name_eq s t ≡ true) ↔ (s ≡ t)
name_eq_iff [] [] = (λ h. ground arith, λ e. ground arith)
name_eq_iff [] (b ∷ t) = (λ h. ground arith, λ e. ground arith)
name_eq_iff (a ∷ s) [] = (λ h. ground arith, λ e. ground arith)
name_eq_iff (a ∷ s) (b ∷ t) =
    (λ h. ground (arith, name_eq_iff s t), λ e. ground (arith, name_eq_iff s t))

pub name_irrefl : (s : Name) → name_lt s s ≡ false
name_irrefl [] = ground arith
name_irrefl (a ∷ s) = ground (arith, name_irrefl s)

pub name_trans : (s t u : Name) → name_lt s t ≡ true → name_lt t u ≡ true → name_lt s u ≡ true
name_trans [] [] u h k = ground arith
name_trans (a ∷ s) [] u h k = ground arith
name_trans [] (b ∷ t) [] h k = ground arith
name_trans (a ∷ s) (b ∷ t) [] h k = ground arith
name_trans [] (b ∷ t) (c ∷ u) h k = ground arith
name_trans (a ∷ s) (b ∷ t) (c ∷ u) h k = ground (arith, name_trans s t u)

pub name_total : (s t : Name) → name_lt s t ≡ false → name_eq s t ≡ false → name_lt t s ≡ true
name_total [] [] h k = ground arith
name_total [] (b ∷ t) h k = ground arith
name_total (a ∷ s) [] h k = ground arith
name_total (a ∷ s) (b ∷ t) h k = ground (arith, name_total s t)

instance abbrev pub name_ord : Ord Name
name_ord = record {
  lt = name_lt;
  eq = name_eq;
  eq_iff = name_eq_iff;
  lt_irrefl = name_irrefl;
  lt_trans = name_trans;
  lt_total = name_total;
}

module _ {ℓ} {A : Type ℓ} (less same : A → A → Bool) where
  unfoldable pub put_sorted : A → List A → List A
  put_sorted a [] = a ∷ []
  put_sorted a (b ∷ rest) =
      let later = put_sorted a rest in if less b a then b ∷ later else a ∷ b ∷ rest

  -- `sort_unstable`.
  unfoldable pub sort : List A → List A
  unfolding put_sorted
  sort [] = []
  sort (a ∷ rest) = put_sorted a (sort rest)

  -- `windows(2).any(|pair| pair[0] == pair[1])`.
  abbrev pub has_equal_neighbours : List A → Bool
  has_equal_neighbours [] = false
  has_equal_neighbours (a ∷ []) = false
  has_equal_neighbours (a ∷ b ∷ rest) = same a b || has_equal_neighbours (b ∷ rest)
