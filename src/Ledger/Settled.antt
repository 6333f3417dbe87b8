-- ===== src/Ledger/Settled.antt =====
-- What `settle` does to the totals of the ledger (packages/ledger/src/lib.rs): first the staged
-- entries, and how writing them changes a total.
pub mod Party
pub mod Conserved
pub mod Opened
use bunting.Prelude.{
  ℕ, ◌≡◌, refl, sym, ap, ◌∙◌, [], ◌∷◌, arith, unwrap_or, Bool, true, ltb, ◌==◌, ◌&&◌,
}
use bunting.Prelude.Int.{ℤ, pos, ◌+ℤ◌, ◌-ℤ◌, int_laws, +ℤ_assoc}
use bunting.Prelude.Ord.{nat_ord, pair_ord}
use bunting.Prelude.Map.{Map, get, insert, Above, IsSorted, get-insert_ne, insert-IsSorted}
use bunting.Prelude.Map.Sums.{sum_of}
use bunting.Prelude.Map.Over.{sum_of-insert_over, moved}
use bunting.Ledger.Fills.{write_all}

module _ {ℓ} {A : Type ℓ} (f : ℕ × ℕ → A → ℤ) (d : A) (second : ℕ) where
  -- How much a staged entry weighs above the one it is written over.
  abbrev pub gain : Map (ℕ × ℕ) A → ℕ → A → ℤ
  gain m p v = f (p, second) v -ℤ f (p, second) (unwrap_or (get (p, second) m) d)

  gain-Above :
      (p : ℕ) (v : A) (m : Map (ℕ × ℕ) A) (staged : Map ℕ A)
      → Above p staged
      → sum_of (gain (insert (p, second) v m)) staged ≡ sum_of (gain m) staged
  unfolding sum_of
  gain-Above p v m [] a = refl
  gain-Above p v m ((q, w) ∷ staged) (h, a) =
      rw
        (
          get-insert_ne (p, second) (q, second) v m (λ e. ground (arith, h)),
          gain-Above p v m staged a,
        )
        refl

  pub sum_of-write_all :
      ((k : ℕ × ℕ) → f k d ≡ pos 0)
      → (staged : Map ℕ A) (m : Map (ℕ × ℕ) A) → IsSorted staged
      → IsSorted m
      → sum_of f (write_all second staged m) ≡ sum_of f m +ℤ sum_of (gain m) staged
  unfolding write_all sum_of
  sum_of-write_all z [] m s t = omega int_laws
  sum_of-write_all z ((p, v) ∷ staged) m (a, s) t =
      sum_of-write_all z staged (insert (p, second) v m) s (insert-IsSorted (p, second) v m t)
      ∙ rw
          (
            gain-Above p v m staged a,
            moved _ _ _ _ (sum_of-insert_over f d (p, second) v m t (z (p, second))),
          )
          (+ℤ_assoc _ _ _)
