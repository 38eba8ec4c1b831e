-- ===== src/Base/Split.antt =====
-- Texts with a separator: where `split_once` and `split` cut them.
use Prim.Native.Char.{Char, code}
use Prim.Native.String.{String, ◌++◌}
use text.Mathlib.TextLemmas.{nil-append, cons-append}
use Prim.Native.Nat.{ℕ}
use mathlib.Core.Path.{◌≡◌, refl}
use mathlib.Core.Logic.{inl, inr}
use mathlib.Core.Bool.{false, ◌||◌}
use mathlib.Core.Option.{none, some}
use native.Mathlib.Omega.{arith}
use waf.Base.Tests
use waf.Base.Tests.{Bool-cases}
use waf.Base.Text.{has_char, split_once}

-- A text without the separator, then the separator.
pub split_once-append :
    (c : Char) (s t : String)
    → has_char (code c) s ≡ false
    → split_once (code c) (s ++ String.◌∷◌ c t) ≡ some (s, t)
split_once-append c String.[] t h =
    rw (nil-append (String.◌∷◌ c t), (Tests.==_iff (code c) (code c)).1 refl)
split_once-append c (String.◌∷◌ d s) t h =
    rw (cons-append d s (String.◌∷◌ c t)) (elim (Bool-cases (Tests.◌==◌ (code d) (code c))) [
      | inl e ↦ absurd (ground (arith, e))
      | inr e ↦
          let rest : has_char (code c) s ≡ false = ground (arith, e) in
          rw (e, split_once-append c s t rest)
    ])

pub split_once_absent : (n : ℕ) (s : String) → has_char n s ≡ false → split_once n s ≡ none
split_once_absent n String.[] h = refl
split_once_absent n (String.◌∷◌ d s) h = elim (Bool-cases (Tests.◌==◌ (code d) n)) [
  | inl e ↦ absurd (ground (arith, e))
  | inr e ↦
      let rest : has_char n s ≡ false = ground (arith, e) in rw (e, split_once_absent n s rest)
]

pub has_char-append : (n : ℕ) (s t : String) → has_char n (s ++ t) ≡ (has_char n s || has_char n t)
has_char-append n String.[] t = rw (nil-append t)
has_char-append n (String.◌∷◌ d s) t = rw (cons-append d s t, has_char-append n s t) (ground arith)

pub single-append : (c : Char) (s : String) → (String.◌∷◌ c String.[] ++ s) ≡ String.◌∷◌ c s
single-append c s = rw (cons-append c String.[] s, nil-append s)
