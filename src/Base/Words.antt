-- ===== src/Base/Words.antt =====
-- Unsigned machine words as native numbers: the wrap of `+` in a release build, and the
-- saturating operations.
use Prim.Native.Nat.{ℕ, ◌+◌, ◌*◌, ◌%◌, ◌^◌, ◌-◌, min}

abbrev pub u32_mod : ℕ
u32_mod = 2 ^ 32

abbrev pub u64_mod : ℕ
u64_mod = 2 ^ 64

abbrev pub wrap_u32 : ℕ → ℕ
wrap_u32 n = n % 2 ^ 32

abbrev pub wrap_u64 : ℕ → ℕ
wrap_u64 n = n % 2 ^ 64

-- `u32::saturating_add`, `u64::saturating_mul`; `saturating_sub` is the `-` of ℕ.
abbrev pub saturating_add_u32 : ℕ → ℕ → ℕ
saturating_add_u32 a b = min (a + b) (2 ^ 32 - 1)

abbrev pub saturating_mul_u64 : ℕ → ℕ → ℕ
saturating_mul_u64 a b = min (a * b) (2 ^ 64 - 1)
