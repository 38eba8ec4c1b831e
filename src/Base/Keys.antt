-- ===== src/Base/Keys.antt =====
-- Keys of maps and sets: types with a Boolean equality that decides `≡`.
use text.Mathlib.Text
use text.Mathlib.TextEquality
use Prim.Native.Nat.{ℕ}
use Prim.Native.String.{String}
use mathlib.Core.Path.{◌≡◌, refl}
use mathlib.Core.Logic.{◌↔◌}
use mathlib.Core.Bool.{Bool, true}
use waf.Base.Tests

pub record Eq {κ} (K : Type κ) : Type κ where
  pub beq : K → K → Bool
  pub beq_iff : (j k : K) → (beq j k ≡ true) ↔ (j ≡ k)

module _ {κ} {K : Type κ} ⦃keys : Eq K⦄ where
  infix 50 ◌==◌
  abbrev pub ◌==◌ : K → K → Bool
  j == k = keys.beq j k

  pub eq_refl : (k : K) → keys.beq k k ≡ true
  eq_refl k = (keys.beq_iff k k).1 refl

instance abbrev pub string_eq : Eq String
string_eq = record { beq = λ s t. Text.◌==◌ s t; beq_iff = TextEquality.eq_iff }

instance abbrev pub nat_eq : Eq ℕ
nat_eq = record { beq = λ m n. Tests.◌==◌ m n; beq_iff = λ m n. Tests.==_iff m n }
