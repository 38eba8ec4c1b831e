-- ===== src/Tests.antt =====
-- Runs at concrete inputs, and the instances of the parameters that they use: natural numbers for
-- `f64`, and a codec that keeps the values it is given.
mod ClusterRuns
mod SyncRuns
mod DdosRuns
mod LimitRuns
mod GatewayRuns
mod CacheRuns
mod ClientRuns
mod RuleRuns
mod InspectRuns
use waf.Base.{
  ℕ, ◌+◌, ◌-◌, ◌*◌, ◌/◌, ◌≡◌, refl, sym, Bool, true, false, min, max, ltb, leb, Option, none, some,
  List, [], ◌∷◌, arith,
}
use waf.Base.Float.{Float, FloatLaws}
use waf.Rules.Registry.{Rule}
use waf.Cluster.Sync.{Codec, CodecLaws}

abbrev pub natural : Float
natural = record {
  F = ℕ;
  of_ℕ = λ n. n;
  add = λ a b. a + b;
  sub = λ a b. a - b;
  mul = λ a b. a * b;
  div = λ a b. a / b;
  neg = λ a. 0;
  mul_add = λ a b c. a * b + c;
  min = min;
  clamp = λ a lo hi. max lo (min a hi);
  exp = λ a. 1;
  log10 = λ a. 0;
  infinity = 18446744073709551616;
  lt = ltb;
  le = leb;
}

pub natural_laws : FloatLaws natural
natural_laws = record {
  le_trans = λ a b c h k. ground (arith, h, k);
  of_ℕ-le = λ m n h. ground (arith, h);
  le-of_ℕ = λ m n _ _ h. ground (arith, h);
  le_of_not_lt = λ n m a _ h. ground (arith, h);
  min-le = λ a n. ground arith;
  sub-le = λ a n h. ground (arith, h);
  div_nonneg = λ m n h. ground arith;
  clamp-unit = λ a h. (ground arith, ground arith);
  one_sub-unit = λ a h k. (ground arith, ground arith);
  le-mul_add = λ p c w h k. ground arith;
  add-one-le = λ c a h k. ground (arith, k);
}

abbrev pub plain : Codec
plain = record {
  Json = Rule;
  Bytes = List Rule;
  to_value = λ r. some r;
  from_value = λ j. some j;
  snapshot_rules = λ rs. some rs;
  restore_snapshot = λ b. some b;
  no_bytes = [];
}

pub plain_laws : CodecLaws plain
plain_laws = record { value_roundtrip = λ r j h. sym h; snapshot_roundtrip = λ rs b h. sym h }
