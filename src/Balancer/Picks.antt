-- ===== src/Balancer/Picks.antt =====
-- What the strategies pick.
use waf.Base.{
  ℕ, zero, suc, ◌+◌, ◌-◌, ◌%◌, ◌^◌, ◌<◌, ◌≡◌, ◌++◌, refl, ap, ◌∙◌, sym, inl, inr, true, false, some,
  List, [], ◌∷◌, ltb, lt→ltb, length, length-append, length-replicate, replicate, get_elem?, arith,
  Bool-cases,
}
use native.Mathlib.Nat.{mod-lt}
use waf.Base.Words.{wrap_u32}
use waf.Balancer.{
  Backend, Addr, LoadBalancer, weight_of, total_weight, walk, or_first, weighted, tick,
}

-- Each backend as often as its weight says, and once where its weight is 0.
abbrev pub expanded : List Backend → List Addr
expanded [] = []
expanded (b ∷ bs) = replicate (weight_of b) (b.host, b.port) ++ expanded bs

-- The sum of the weights.
abbrev pub sum_weights : List Backend → ℕ
sum_weights [] = 0
sum_weights (b ∷ bs) = weight_of b + sum_weights bs

get_elem-replicate_low :
    (a : Addr) (n i : ℕ) (rest : List Addr) → i < n → get_elem? (replicate n a ++ rest) i ≡ some a
get_elem-replicate_low a zero i rest h = ground (arith, h)
get_elem-replicate_low a (suc n) zero rest h = refl
get_elem-replicate_low a (suc n) (suc i) rest h =
    get_elem-replicate_low a n i rest (omega (arith, h))

get_elem-replicate_high :
    (a : Addr) (n i : ℕ) (rest : List Addr)
    → get_elem? (replicate n a ++ rest) (n + i) ≡ get_elem? rest i
get_elem-replicate_high a zero i rest = ap (get_elem? rest) (omega arith)
get_elem-replicate_high a (suc n) i rest =
    let e : suc n + i ≡ suc (n + i) = omega arith in
    ap (get_elem? (a ∷ (replicate n a ++ rest))) e ∙ get_elem-replicate_high a n i rest

walk-expanded :
    (bs : List Backend) (i done : ℕ)
    → done + sum_weights bs < 2 ^ 32
    → walk (done + i) done bs ≡ get_elem? (expanded bs) i
unfolding walk
walk-expanded [] i done small = refl
walk-expanded (b ∷ bs) i done small =
    let w = weight_of b in
    let e : wrap_u32 (done + w) ≡ done + w = omega (arith, small) in
    elim (Bool-cases (ltb i w)) [
      | inl here ↦
          let low : ltb (done + i) (done + w) ≡ true = ground (arith, here) in
          rw (e, low)
            (sym (get_elem-replicate_low (b.host, b.port) w i (expanded bs) (ground (arith, here))))
      | inr later ↦
          let high : ltb (done + i) (done + w) ≡ false = ground (arith, later) in
          let split : i ≡ w + (i - w) = ground (arith, later) in
          let far : done + i ≡ done + w + (i - w) = ground (arith, later) in
          let rest : walk (done + i) (done + w) bs ≡ get_elem? (expanded bs) (i - w) =
            ap (λ p. walk p (done + w) bs) far
            ∙ walk-expanded bs (i - w) (done + w) (omega (arith, small)) in
          let there : get_elem? (expanded (b ∷ bs)) i ≡ get_elem? (expanded bs) (i - w) =
            ap (get_elem? (expanded (b ∷ bs))) split
            ∙ get_elem-replicate_high (b.host, b.port) w (i - w) (expanded bs) in
          rw (e, high) (rest ∙ sym there)
    ]

total-sum : (bs : List Backend) → sum_weights bs < 2 ^ 32 → total_weight bs ≡ sum_weights bs
unfolding total_weight
total-sum [] small = refl
total-sum (b ∷ bs) small =
    let rest = total-sum bs (omega (arith, small)) in omega (arith, rest, small)

length-expanded : (bs : List Backend) → length (expanded bs) ≡ sum_weights bs
length-expanded [] = refl
length-expanded (b ∷ bs) =
    let own : List Addr = replicate (weight_of b) (b.host, b.port) in
    let size : length own ≡ weight_of b = length-replicate (weight_of b) (b.host, b.port) in
    length-append own (expanded bs) ∙ omega (arith, size, length-expanded bs)

sum-positive : (bs : List Backend) → 0 < length bs → 0 < sum_weights bs
sum-positive [] h = omega (arith, h)
sum-positive (b ∷ bs) h = omega arith

get_elem-some :
    {A : Type 0} (xs : List A) (i : ℕ) → i < length xs → (a : A) × (get_elem? xs i ≡ some a)
get_elem-some [] i h = absurd (omega (arith, h))
get_elem-some (x ∷ xs) zero h = (x, refl)
get_elem-some (x ∷ xs) (suc i) h = get_elem-some xs i (omega (arith, h))

-- The weighted strategy picks from the list in which each backend appears as often as its weight
-- says, and once where its weight is 0, at the place that the counter has modulo its length, where
-- there is a backend and the length and the counter are in the range of a `u32`; the counter goes
-- on by one.
pub weighted-expanded :
    (bs : List Backend) (lb : LoadBalancer)
    → 0 < length bs
    → sum_weights bs < 2 ^ 32
    → lb.rr_counter < 2 ^ 32
    → ((weighted bs lb).1 ≡ get_elem? (expanded bs) (lb.rr_counter % length (expanded bs)))
      × ((weighted bs lb).0 ≡ tick lb)
unfolding weighted
weighted-expanded bs lb some_backend small counter =
    let total = total-sum bs small in
    let positive : ltb 0 (sum_weights bs) ≡ true =
      lt→ltb 0 (sum_weights bs) (sum-positive bs some_backend) in
    let i = lb.rr_counter % sum_weights bs in
    let whole : wrap_u32 lb.rr_counter ≡ lb.rr_counter = omega (arith, counter) in
    let inside : i < sum_weights bs = mod-lt lb.rr_counter (sum-positive bs some_backend) in
    let (a, found) = get_elem-some (expanded bs) i (omega (arith, inside, length-expanded bs)) in
    let same : walk i 0 bs ≡ some a =
      ap (λ p. walk p 0 bs) (omega arith) ∙ walk-expanded bs i 0 (omega (arith, small)) ∙ found in
    rw (total, positive, whole, same, length-expanded bs) (unfold or_first in sym found, refl)
