-- ===== src/Prelude/Mul.antt =====
-- Products of signed integers.
use mathlib.Core.Path.{ap, ◌∙◌}
use bunting.Prelude.{ℕ, ◌+◌, ◌*◌, ◌≡◌, arith}
use bunting.Prelude.Int.{ℤ, pos_part, neg_part, neg, ◌*ℤ◌, ◌-ℤ◌, -ℤ_parts, eq_of_parts}

pub *ℤ_parts :
    (a b : ℤ)
    → pos_part (a *ℤ b) + (pos_part a * neg_part b + neg_part a * pos_part b)
      ≡ neg_part (a *ℤ b) + (pos_part a * pos_part b + neg_part a * neg_part b)
unfolding ◌*ℤ◌
*ℤ_parts a b = ground arith

spread :
    (p n x y u v c d : ℕ)
    → p + n + x ≡ y + u + v
    → (p * c + n * c + x * c ≡ y * c + u * c + v * c)
      × (p * d + n * d + x * d ≡ y * d + u * d + v * d)
spread p n x y u v c d h = (
  omega arith ∙ (ap (λ z. z * c) h ∙ omega arith),
  omega arith ∙ (ap (λ z. z * d) h ∙ omega arith),
)

pub -ℤ_*ℤ : (a b c : ℤ) → (a -ℤ b) *ℤ c ≡ a *ℤ c -ℤ b *ℤ c
-ℤ_*ℤ a b c =
    let s =
      spread (pos_part (a -ℤ b)) (neg_part a) (pos_part b) (neg_part (a -ℤ b)) (pos_part a)
        (neg_part b) (pos_part c) (neg_part c) (-ℤ_parts a b) in
    eq_of_parts _ _ (
      omega (arith, *ℤ_parts (a -ℤ b) c, *ℤ_parts a c, *ℤ_parts b c, -ℤ_parts (a *ℤ c) (b *ℤ c), s))

pub neg_*ℤ : (a b : ℤ) → neg a *ℤ b ≡ neg (a *ℤ b)
unfolding neg ◌*ℤ◌
neg_*ℤ a b = ground arith
