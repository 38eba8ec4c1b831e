-- ===== src/Ddos/Median.antt =====
-- crates/waf-engine/src/checks/ddos/detector/baseline.rs: the counts of the last 60 seconds and
-- their median. A call of `record` is one step.
use waf.Base.{
  ℕ, zero, suc, ◌+◌, ◌-◌, ◌%◌, Option, none, some, List, [], ◌∷◌, leb, get_elem?, set, replicate,
  if◌then◌else◌,
}
use waf.Base.Int.{ℤ, pos, negsuc, ◌+ℤ◌, ltb_ℤ, leb_ℤ, saturating_sub, quot, pos_part}
use waf.Base.Words.{wrap_u64}

pub record MovingMedian : Type 0 where
  pub buckets : List ℕ
  pub last_epoch_s : ℤ

unfoldable pub new : MovingMedian
new = record { buckets = replicate 60 0; last_epoch_s = negsuc 0 }

-- `rem_euclid(60)`.
unfoldable pub bucket_of : ℤ → ℕ
bucket_of (pos n) = n % 60
bucket_of (negsuc n) = 59 - n % 60

-- The buckets of the n seconds after `prev`, cleared.
unfoldable pub clear_after : ℤ → ℕ → List ℕ → List ℕ
unfolding bucket_of
clear_after prev zero bs = bs
clear_after prev (suc n) bs = set (clear_after prev n bs) (bucket_of (prev +ℤ pos (suc n))) 0

unfoldable pub clear_stale_buckets : ℤ → ℤ → List ℕ → List ℕ
unfolding clear_after
clear_stale_buckets prev now bs =
    let advance = saturating_sub now prev in
    if leb_ℤ (pos 60) advance
    then replicate 60 0
    else if leb_ℤ (pos 0) prev
    then clear_after prev (pos_part advance) bs
    else bs

unfoldable pub count_in : Option ℕ → ℕ
count_in none = 0
count_in (some n) = n

-- `fetch_add(1) + 1`, and 0 where there is no bucket.
unfoldable pub count_up : Option ℕ → ℕ
count_up none = 0
count_up (some n) = wrap_u64 (n + 1)

-- The bucket of the second, counted up.
unfoldable pub bump : ℕ → MovingMedian → MovingMedian × ℕ
unfolding count_up
bump i m = let n = count_up (get_elem? m.buckets i) in (record m { buckets = set m.buckets i n }, n)

unfoldable pub record_at : ℤ → MovingMedian → MovingMedian × ℕ
unfolding bump clear_stale_buckets bucket_of
record_at now m =
    let epoch_s = quot now 1000 in
    if ltb_ℤ m.last_epoch_s epoch_s
    then bump (bucket_of epoch_s) (record {
      buckets = clear_stale_buckets m.last_epoch_s epoch_s m.buckets;
      last_epoch_s = epoch_s;
    })
    else bump (bucket_of epoch_s) m

unfoldable pub insert_sorted : ℕ → List ℕ → List ℕ
insert_sorted x [] = x ∷ []
insert_sorted x (y ∷ ys) = let rest = insert_sorted x ys in if leb x y then x ∷ y ∷ ys else y ∷ rest

-- `sort_unstable`, of numbers.
unfoldable pub sorted : List ℕ → List ℕ
unfolding insert_sorted
sorted [] = []
sorted (x ∷ xs) = insert_sorted x (sorted xs)

unfoldable pub median : MovingMedian → ℕ
unfolding sorted count_in
median m = count_in (get_elem? (sorted m.buckets) 30)
