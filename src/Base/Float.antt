-- ===== src/Base/Float.antt =====
-- `f64`, which the code computes with and does not implement: the operations that it uses, and
-- the laws of IEEE 754 that the proofs rely on.
use Prim.Native.Nat.{ℕ, ◌+◌, ◌≤◌, ◌<◌, ◌^◌}
use mathlib.Core.Path.{◌≡◌}
use mathlib.Core.Bool.{Bool, true, false}

pub record Float : Type 1 where
  pub F : Type 0
  pub of_ℕ : ℕ → F
  pub add : F → F → F
  pub sub : F → F → F
  pub mul : F → F → F
  pub div : F → F → F
  pub neg : F → F
  -- `a.mul_add(b, c)` is a * b + c, rounded once
  pub mul_add : F → F → F → F
  -- `f64::min`, and `x.clamp(lo, hi)` as `clamp x lo hi`
  pub min : F → F → F
  pub clamp : F → F → F → F
  pub exp : F → F
  pub log10 : F → F
  pub infinity : F
  pub lt : F → F → Bool
  pub le : F → F → Bool

-- The laws. The code converts machine integers alone, so `of_ℕ` of a number past 2 ^ 64 stands
-- for that of the largest one. `of_ℕ` is exact on the integers that an `f64` holds exactly, and rounding keeps the
-- order; a value that compares with a number is no NaN.
pub record FloatLaws (fl : Float) : Type 0 where
  pub le_trans : (a b c : fl.F) → fl.le a b ≡ true → fl.le b c ≡ true → fl.le a c ≡ true
  pub of_ℕ-le : (m n : ℕ) → m ≤ n → fl.le (fl.of_ℕ m) (fl.of_ℕ n) ≡ true
  pub le-of_ℕ : (m n : ℕ) → m < 2 ^ 53 → n < 2 ^ 53 → fl.le (fl.of_ℕ m) (fl.of_ℕ n) ≡ true → m ≤ n
  -- what is not below a value that compares with a number is at most it
  pub le_of_not_lt :
      (n m : ℕ) (a : fl.F)
      → fl.le (fl.of_ℕ m) a ≡ true
      → fl.lt (fl.of_ℕ n) a ≡ false
      → fl.le a (fl.of_ℕ n) ≡ true
  -- the smaller of anything and a number is at most the number
  pub min-le : (a : fl.F) (n : ℕ) → fl.le (fl.min a (fl.of_ℕ n)) (fl.of_ℕ n) ≡ true
  pub sub-le :
      (a : fl.F) (n : ℕ)
      → fl.le a (fl.of_ℕ n) ≡ true
      → fl.le (fl.sub a (fl.of_ℕ 1)) (fl.of_ℕ n) ≡ true
  pub div_nonneg : (m n : ℕ) → 0 < n → fl.le (fl.of_ℕ 0) (fl.div (fl.of_ℕ m) (fl.of_ℕ n)) ≡ true
  -- a value of at least 0 clamped to the unit interval, and what is left of 1
  pub clamp-unit :
      (a : fl.F)
      → fl.le (fl.of_ℕ 0) a ≡ true
      → (fl.le (fl.of_ℕ 0) (fl.clamp a (fl.of_ℕ 0) (fl.of_ℕ 1)) ≡ true)
        × (fl.le (fl.clamp a (fl.of_ℕ 0) (fl.of_ℕ 1)) (fl.of_ℕ 1) ≡ true)
  pub one_sub-unit :
      (a : fl.F)
      → fl.le (fl.of_ℕ 0) a ≡ true
      → fl.le a (fl.of_ℕ 1) ≡ true
      → (fl.le (fl.of_ℕ 0) (fl.sub (fl.of_ℕ 1) a) ≡ true)
        × (fl.le (fl.sub (fl.of_ℕ 1) a) (fl.of_ℕ 1) ≡ true)
  pub le-mul_add :
      (p c : ℕ) (w : fl.F)
      → fl.le (fl.of_ℕ 0) w ≡ true
      → fl.le w (fl.of_ℕ 1) ≡ true
      → fl.le (fl.of_ℕ c) (fl.mul_add (fl.of_ℕ p) w (fl.of_ℕ c)) ≡ true
  pub add-one-le :
      (c : ℕ) (a : fl.F)
      → c < 2 ^ 32
      → fl.le (fl.of_ℕ c) a ≡ true
      → fl.le (fl.of_ℕ (c + 1)) (fl.add a (fl.of_ℕ 1)) ≡ true
