-- ===== src/Cache/Key/Parts.antt =====
-- The parts of a key against what it was made of.
use Prim.Native.String.{◌++◌}
use waf.Base.{◌≡◌, false, String, some, Bool-cases, if◌then◌else◌, inl, inr}
use waf.Base.Text.{has_char, split_once, is_empty}
use waf.Base.Split.{split_once-append, split_once_absent, has_char-append, single-append}
use waf.Cache.Key.{make_key, parse_cache_key, main_part, parts_of}

-- A field that can be told from the separators `:` and `?`.
pub record IsPlain (s : String) : Type 0 where
  pub colons : has_char 58 s ≡ false
  pub marks : has_char 63 s ≡ false

main_key : String → String → String → String
main_key method host path = method ++ (":" ++ (host ++ (":" ++ path)))

main_key-marks :
    (method host path : String)
    → IsPlain method
    → IsPlain host
    → has_char 63 path ≡ false
    → has_char 63 (main_key method host path) ≡ false
unfolding main_key
main_key-marks method host path m h p = rw (
  has_char-append 63 method (":" ++ (host ++ (":" ++ path))),
  has_char-append 63 ":" (host ++ (":" ++ path)),
  has_char-append 63 host (":" ++ path),
  has_char-append 63 ":" path,
  m.marks,
  h.marks,
  p,
)

main_key-parts :
    (method host path : String)
    → IsPlain method
    → IsPlain host
    → parts_of (split_once 58 (main_key method host path)) ≡ some (method, host, path)
unfolding main_key parts_of
main_key-parts method host path m h = rw (
  single-append ":" (host ++ (":" ++ path)),
  split_once-append ":" method (host ++ (":" ++ path)) m.colons,
  parts_of,
  single-append ":" path,
  split_once-append ":" host path h.colons,
)

make_key_lem :
    (method host path query : String)
    → make_key method host path query ≡ (
        if is_empty query
        then main_key method host path
        else main_key method host path ++ String.◌∷◌ "?" query)
unfolding make_key main_key
make_key_lem method host path query = rw (single-append "?" query)

-- With a query or without it, what stands before the question mark is the main part.
main_part-make_key :
    (method host path query : String)
    → has_char 63 (main_key method host path) ≡ false
    → main_part (make_key method host path query) (split_once 63 (make_key method host path query))
      ≡ main_key method host path
unfolding main_part
main_part-make_key method host path query m =
    rw (make_key_lem method host path query) (elim (Bool-cases (is_empty query)) [
      | inl e ↦ rw (e, split_once_absent 63 (main_key method host path) m)
      | inr e ↦ rw (e, split_once-append "?" (main_key method host path) query m)
    ])

-- `parse_cache_key` finds the method, the host and the path that a key was made of, with any query,
-- where the method and the host have neither a colon nor a question mark and the path has no
-- question mark.
pub parse_cache_key-make_key :
    (method host path query : String)
    → IsPlain method
    → IsPlain host
    → has_char 63 path ≡ false
    → parse_cache_key (make_key method host path query) ≡ some (method, host, path)
unfolding parse_cache_key
parse_cache_key-make_key method host path query m h p =
    rw (main_part-make_key method host path query (main_key-marks method host path m h p))
      (main_key-parts method host path m h)
