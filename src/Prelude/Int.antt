-- ===== src/Prelude/Int.antt =====
-- Signed integers over the native numbers, under the library's names (its ℤ stands on the unary ℕ),
-- and the checked arithmetic of Rust's signed types. `omega int_laws` reads an integer by its parts.
use Prim.Native.Nat.{ℕ, suc, ◌+◌, ◌-◌, ◌*◌, ◌/◌, ◌^◌, ◌≤◌, ◌<◌}
use mathlib.Core.Path.{◌≡◌}
use mathlib.Core.Bool.{Bool, true}
use mathlib.Core.Option.{Option, none, some}
use mathlib.Core.Logic.{◌↔◌}
use native.Mathlib.Omega.{arith}
use bunting.Prelude.Tests.{ltb, leb, ◌==◌, if◌then◌else◌}

-- `negsuc n` is -(n + 1).
pub data ℤ : Type 0 where
  pos : ℕ → ℤ
  negsuc : ℕ → ℤ

abbrev pub pos_part : ℤ → ℕ
pos_part (pos n) = n
pos_part (negsuc n) = 0

abbrev pub neg_part : ℤ → ℕ
neg_part (pos n) = 0
neg_part (negsuc n) = suc n

abbrev pub sub_ℕ : ℕ → ℕ → ℤ
sub_ℕ a b = if leb b a then pos (a - b) else negsuc (b - a - 1)

infixl 65 ◌+ℤ◌ ◌-ℤ◌
infixl 70 ◌*ℤ◌
infix 50 ◌≤ℤ◌ ◌<ℤ◌
unfoldable pub ◌+ℤ◌ : ℤ → ℤ → ℤ
a +ℤ b = sub_ℕ (pos_part a + pos_part b) (neg_part a + neg_part b)

unfoldable pub ◌-ℤ◌ : ℤ → ℤ → ℤ
a -ℤ b = sub_ℕ (pos_part a + neg_part b) (neg_part a + pos_part b)

unfoldable pub ◌*ℤ◌ : ℤ → ℤ → ℤ
a *ℤ b =
    sub_ℕ (pos_part a * pos_part b + neg_part a * neg_part b)
      (pos_part a * neg_part b + neg_part a * pos_part b)

unfoldable pub neg : ℤ → ℤ
neg a = sub_ℕ (neg_part a) (pos_part a)

-- `unsigned_abs`.
abbrev pub magnitude : ℤ → ℕ
magnitude a = pos_part a + neg_part a

-- Rust's `/` rounds toward zero.
unfoldable pub tdiv : ℤ → ℕ → ℤ
tdiv a n = sub_ℕ (pos_part a / n) (neg_part a / n)

abbrev pub ◌≤ℤ◌ : ℤ → ℤ → Type 0
a ≤ℤ b = pos_part a + neg_part b ≤ pos_part b + neg_part a

abbrev pub ◌<ℤ◌ : ℤ → ℤ → Type 0
a <ℤ b = pos_part a + neg_part b < pos_part b + neg_part a

abbrev pub ltb_ℤ : ℤ → ℤ → Bool
ltb_ℤ a b = ltb (pos_part a + neg_part b) (pos_part b + neg_part a)

abbrev pub leb_ℤ : ℤ → ℤ → Bool
leb_ℤ a b = leb (pos_part a + neg_part b) (pos_part b + neg_part a)

abbrev pub eqb_ℤ : ℤ → ℤ → Bool
eqb_ℤ a b = pos_part a + neg_part b == pos_part b + neg_part a

unfoldable pub min_ℤ : ℤ → ℤ → ℤ
min_ℤ a b = if leb_ℤ a b then a else b

pub +ℤ_parts :
    (a b : ℤ)
    → pos_part (a +ℤ b) + neg_part a + neg_part b ≡ neg_part (a +ℤ b) + pos_part a + pos_part b
unfolding ◌+ℤ◌
+ℤ_parts a b = ground arith

pub -ℤ_parts :
    (a b : ℤ)
    → pos_part (a -ℤ b) + neg_part a + pos_part b ≡ neg_part (a -ℤ b) + pos_part a + neg_part b
unfolding ◌-ℤ◌
-ℤ_parts a b = ground arith

pub neg_parts : (a : ℤ) → pos_part (neg a) + pos_part a ≡ neg_part (neg a) + neg_part a
unfolding neg
neg_parts a = ground arith

pub eq_of_parts : (a b : ℤ) → pos_part a + neg_part b ≡ pos_part b + neg_part a → a ≡ b
eq_of_parts (pos m) (pos n) h = ground arith
eq_of_parts (pos m) (negsuc n) h = absurd (omega arith)
eq_of_parts (negsuc m) (pos n) h = absurd (omega arith)
eq_of_parts (negsuc m) (negsuc n) h = ground arith

pub eqb_ℤ_iff : (a b : ℤ) → (eqb_ℤ a b ≡ true) ↔ (a ≡ b)
eqb_ℤ_iff a b = (λ h. eq_of_parts a b (ground arith), λ e. ground arith)

pub ruleset int_laws = (arith, +ℤ_parts, -ℤ_parts, neg_parts, eq_of_parts)

-- The signed type whose largest value is `m - 1` and smallest is `- m`.
abbrev pub fits : ℕ → ℤ → Bool
fits m (pos n) = ltb n m
fits m (negsuc n) = ltb n m

abbrev pub i64 : ℕ
i64 = 2 ^ 63

abbrev pub i128 : ℕ
i128 = 2 ^ 127

-- The result of an operation on the signed type, if it is representable.
unfoldable pub checked : ℕ → ℤ → Option ℤ
checked m a = if fits m a then some a else none

unfoldable pub checked_add : ℕ → ℤ → ℤ → Option ℤ
unfolding checked
checked_add m a b = checked m (a +ℤ b)

unfoldable pub checked_sub : ℕ → ℤ → ℤ → Option ℤ
unfolding checked
checked_sub m a b = checked m (a -ℤ b)

unfoldable pub checked_mul : ℕ → ℤ → ℤ → Option ℤ
unfolding checked
checked_mul m a b = checked m (a *ℤ b)

pub checked-eq-some : (m : ℕ) (a : ℤ) {b : ℤ} → checked m a ≡ some b → (b ≡ a) × (fits m a ≡ true)
unfolding checked
checked-eq-some m a h = ground arith

pub checked_add-eq-some : (m : ℕ) (a b : ℤ) {c : ℤ} → checked_add m a b ≡ some c → c ≡ a +ℤ b
unfolding checked_add
checked_add-eq-some m a b h = ground arith

pub checked_sub-eq-some : (m : ℕ) (a b : ℤ) {c : ℤ} → checked_sub m a b ≡ some c → c ≡ a -ℤ b
unfolding checked_sub
checked_sub-eq-some m a b h = ground arith

pub checked_mul-eq-some : (m : ℕ) (a b : ℤ) {c : ℤ} → checked_mul m a b ≡ some c → c ≡ a *ℤ b
unfolding checked_mul
checked_mul-eq-some m a b h = ground arith

pub +ℤ_comm : (a b : ℤ) → a +ℤ b ≡ b +ℤ a
+ℤ_comm a b = omega int_laws

pub +ℤ_assoc : (a b c : ℤ) → a +ℤ b +ℤ c ≡ a +ℤ (b +ℤ c)
+ℤ_assoc a b c = omega int_laws
