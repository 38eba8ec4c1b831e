-- ===== src/Cache/Key.antt =====
-- crates/gateway/src/cache/store.rs: the keys of the response cache, made and taken apart.
pub mod Parts
use Prim.Native.String.{◌++◌}
use waf.Base.{String, Option, none, some, if◌then◌else◌}
use waf.Base.Text.{is_empty, split_once}

unfoldable pub make_key : String → String → String → String → String
make_key method host path query =
    let main = method ++ (":" ++ (host ++ (":" ++ path))) in
    if is_empty query then main else main ++ ("?" ++ query)

-- What stands before the question mark, or the whole key: `map_or(key, |(a, _)| a)`.
unfoldable pub main_part : String → Option (String × String) → String
main_part key none = key
main_part key (some (a, _)) = a

unfoldable pub parts_after : String → Option (String × String) → Option (String × String × String)
parts_after method none = none
parts_after method (some (host, path)) = some (method, host, path)

unfoldable pub parts_of : Option (String × String) → Option (String × String × String)
unfolding parts_after
parts_of none = none
parts_of (some (method, rest)) = parts_after method (split_once 58 rest)

-- The method, the host and the path of a key: `splitn(3, ':')`.
unfoldable pub parse_cache_key : String → Option (String × String × String)
unfolding main_part parts_of
parse_cache_key key = parts_of (split_once 58 (main_part key (split_once 63 key)))
