-- ===== src/Base/Text.antt =====
-- The operations of `str` that the code uses, on the native texts.
use text.Mathlib.Text.{◌==◌, find?}
use Prim.Native.Nat.{ℕ, zero, suc, ◌+◌, ◌-◌, ◌*◌, ◌/◌, ◌%◌, ◌^◌}
use Prim.Native.Char.{Char, code}
use Prim.Native.String.{String, [], ◌∷◌, ◌++◌, len, slice, char_at}
use mathlib.Core.Bool.{Bool, true, false, ◌&&◌, ◌||◌}
use mathlib.Core.Option.{Option, none, some}
use mathlib.Core.List.{List}
use waf.Base.Tests.{ltb, leb, if◌then◌else◌}
use waf.Base.Tests
use waf.Base.Int.{ℤ, pos, sub_ℕ}
pub use text.Mathlib.Text.{starts_with}

abbrev pub ends_with : String → String → Bool
ends_with s t = leb (len t) (len s) && (slice s (len s - len t) (len s) == t)

abbrev pub lower : Char → Char
lower c =
    if leb 65 (code c) && leb (code c) 90
    then char_at "abcdefghijklmnopqrstuvwxyz" (code c - 65)
    else c

abbrev pub to_ascii_lowercase : String → String
to_ascii_lowercase [] = []
to_ascii_lowercase (c ∷ s) = lower c ∷ to_ascii_lowercase s

abbrev between : ℕ → ℕ → ℕ → Bool
between a b n = leb a n && leb n b

-- Unicode's White_Space, which `trim` goes by.
abbrev pub is_whitespace : Char → Bool
is_whitespace c =
    let n = code c in
    between 9 13 n
    || between 32 32 n
    || between 133 133 n
    || between 160 160 n
    || between 5760 5760 n
    || between 8192 8202 n
    || between 8232 8233 n
    || between 8239 8239 n
    || between 8287 8287 n
    || between 12288 12288 n

abbrev pub trim_start : String → String
trim_start [] = []
trim_start (c ∷ s) = let rest = trim_start s in if is_whitespace c then rest else c ∷ s

abbrev pub is_empty : String → Bool
is_empty [] = true
is_empty (_ ∷ _) = false

abbrev pub trim_end : String → String
trim_end [] = []
trim_end (c ∷ s) =
    let rest = trim_end s in if is_empty rest && is_whitespace c then [] else c ∷ rest

abbrev pub trim : String → String
trim s = trim_end (trim_start s)

-- The text before the first occurrence of a character: `s.split(c).next()`.
abbrev pub before : ℕ → String → String
before n [] = []
before n (c ∷ s) =
    let rest = before n s in if leb n (code c) && leb (code c) n then [] else c ∷ rest

-- A character of that code stands in the text.
abbrev pub has_char : ℕ → String → Bool
has_char n [] = false
has_char n (c ∷ s) = Tests.◌==◌ (code c) n || has_char n s

abbrev pub cons_before : Char → Option (String × String) → Option (String × String)
cons_before c none = none
cons_before c (some (a, b)) = some (c ∷ a, b)

-- `s.split_once(c)`.
abbrev pub split_once : ℕ → String → Option (String × String)
split_once n [] = none
split_once n (c ∷ s) =
    if Tests.◌==◌ (code c) n then some ([], s) else cons_before c (split_once n s)

abbrev pub cons_first : Char → List String → List String
cons_first c List.[] = List.◌∷◌ (c ∷ []) List.[]
cons_first c (List.◌∷◌ a rest) = List.◌∷◌ (c ∷ a) rest

-- `s.split(c)`: one text more than there are separators.
abbrev pub split : ℕ → String → List String
split n [] = List.◌∷◌ [] List.[]
split n (c ∷ s) =
    let rest = split n s in if Tests.◌==◌ (code c) n then List.◌∷◌ [] rest else cons_first c rest

-- `s.contains(t)` of a text.
abbrev pub has_text : String → String → Bool
has_text s t = elim (find? s t) [ none ↦ false | some _ ↦ true ]

abbrev pub strip_prefix : String → String → Option String
strip_prefix s t = if starts_with s t then some (slice s (len t) (len s)) else none

abbrev pub eq_ignore_ascii_case : String → String → Bool
eq_ignore_ascii_case s t = to_ascii_lowercase s == to_ascii_lowercase t

abbrev digits : ℕ → String → Option ℕ
digits acc [] = some acc
digits acc (c ∷ s) =
    let next = acc * 10 + (code c - 48) in
    let rest = digits next s in if between 48 57 (code c) && ltb next (2 ^ 64) then rest else none

abbrev unsigned : String → Option ℕ
unsigned [] = none
unsigned (c ∷ s) = digits 0 (c ∷ s)

-- `s.parse::<u64>()`: decimal digits after an optional plus sign, of a value in range.
abbrev pub parse_u64 : String → Option ℕ
parse_u64 [] = none
parse_u64 (c ∷ s) = if Tests.◌==◌ (code c) 43 then unsigned s else unsigned (c ∷ s)

abbrev within_i64 : Bool → Option ℕ → Option ℤ
within_i64 minus none = none
within_i64 minus (some n) =
    let a = if minus then sub_ℕ 0 n else pos n in
    if leb n (2 ^ 63 - 1) || (minus && Tests.◌==◌ n (2 ^ 63)) then some a else none

-- `s.parse::<i64>()`: decimal digits after an optional sign, of a value in range.
abbrev pub parse_i64 : String → Option ℤ
parse_i64 [] = none
parse_i64 (c ∷ s) =
    if Tests.◌==◌ (code c) 45
    then within_i64 true (unsigned s)
    else within_i64 false (parse_u64 (c ∷ s))

abbrev decimal : ℕ → ℕ → String
decimal zero n = []
decimal (suc fuel) n =
    let front = decimal fuel (n / 10) in
    (if ltb n 10 then [] else front) ++ (char_at "0123456789" (n % 10) ∷ [])

-- `n.to_string()` of a `u64`, which has at most twenty digits.
abbrev pub show_u64 : ℕ → String
show_u64 n = decimal 20 n
