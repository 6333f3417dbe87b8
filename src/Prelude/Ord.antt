-- ===== src/Prelude/Ord.antt =====
-- Key orders as instances: identifiers and times (ℕ), prices (ℤ) and pairs of identifiers.
use Prim.Native.Nat.{ℕ}
use mathlib.Core.Path.{◌≡◌}
use mathlib.Core.Bool.{Bool, true, false, ◌&&◌, ◌||◌}
use mathlib.Core.Logic.{◌↔◌}
use native.Mathlib.Omega.{arith}
use bunting.Prelude.Tests.{ltb, ◌==◌, ==_iff}
use bunting.Prelude.Int.{ℤ, ltb_ℤ, eqb_ℤ, eqb_ℤ_iff}

pub record Ord {ℓ} (K : Type ℓ) : Type ℓ where
  pub lt : K → K → Bool
  pub eq : K → K → Bool
  pub eq_iff : (a b : K) → (eq a b ≡ true) ↔ (a ≡ b)
  pub lt_irrefl : (a : K) → lt a a ≡ false
  pub lt_trans : (a b c : K) → lt a b ≡ true → lt b c ≡ true → lt a c ≡ true
  pub lt_total : (a b : K) → lt a b ≡ false → eq a b ≡ false → lt b a ≡ true

pub nat_irrefl : (a : ℕ) → ltb a a ≡ false
nat_irrefl a = ground arith

pub nat_trans : (a b c : ℕ) → ltb a b ≡ true → ltb b c ≡ true → ltb a c ≡ true
nat_trans a b c p q = ground arith

pub nat_total : (a b : ℕ) → ltb a b ≡ false → (a == b) ≡ false → ltb b a ≡ true
nat_total a b p q = ground arith

instance abbrev pub nat_ord : Ord ℕ
nat_ord = record {
  lt = ltb;
  eq = ◌==◌;
  eq_iff = ==_iff;
  lt_irrefl = nat_irrefl;
  lt_trans = nat_trans;
  lt_total = nat_total;
}

pub int_irrefl : (a : ℤ) → ltb_ℤ a a ≡ false
int_irrefl a = ground arith

pub int_trans : (a b c : ℤ) → ltb_ℤ a b ≡ true → ltb_ℤ b c ≡ true → ltb_ℤ a c ≡ true
int_trans a b c p q = ground arith

pub int_total : (a b : ℤ) → ltb_ℤ a b ≡ false → eqb_ℤ a b ≡ false → ltb_ℤ b a ≡ true
int_total a b p q = ground arith

instance abbrev pub int_ord : Ord ℤ
int_ord = record {
  lt = ltb_ℤ;
  eq = eqb_ℤ;
  eq_iff = eqb_ℤ_iff;
  lt_irrefl = int_irrefl;
  lt_trans = int_trans;
  lt_total = int_total;
}

-- Rust's derived order on a pair of identifiers.
abbrev pub pair_lt : ℕ × ℕ → ℕ × ℕ → Bool
pair_lt (a, b) (c, d) = ltb a c || ((a == c) && ltb b d)

abbrev pub pair_eq : ℕ × ℕ → ℕ × ℕ → Bool
pair_eq (a, b) (c, d) = (a == c) && (b == d)

pub pair_eq_iff : (p q : ℕ × ℕ) → (pair_eq p q ≡ true) ↔ (p ≡ q)
pair_eq_iff (a, b) (c, d) = (λ h. ground arith, λ e. ground arith)

pub pair_irrefl : (p : ℕ × ℕ) → pair_lt p p ≡ false
pair_irrefl (a, b) = ground arith

pub pair_trans : (p q r : ℕ × ℕ) → pair_lt p q ≡ true → pair_lt q r ≡ true → pair_lt p r ≡ true
pair_trans (a, b) (c, d) (e, f) h k = ground arith

pub pair_total : (p q : ℕ × ℕ) → pair_lt p q ≡ false → pair_eq p q ≡ false → pair_lt q p ≡ true
pair_total (a, b) (c, d) h k = ground arith

instance abbrev pub pair_ord : Ord (ℕ × ℕ)
pair_ord = record {
  lt = pair_lt;
  eq = pair_eq;
  eq_iff = pair_eq_iff;
  lt_irrefl = pair_irrefl;
  lt_trans = pair_trans;
  lt_total = pair_total;
}
