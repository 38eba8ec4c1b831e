-- ===== src/Ddos/Detect/Runs.antt =====
-- The verdicts of the fingerprint detector over a run of requests.
use waf.Base.{
  ◌+◌, ◌^◌, ◌*◌, ◌<◌, ◌≡◌, refl, ap, ◌∙◌, false, String, none, some, List, [], ◌∷◌, map, ltb,
  length, if◌then◌else◌,
}
use Prim.Native.String.{◌++◌}
use waf.Base.Keys.{string_eq, ◌==◌}
use waf.Base.Int.{ℤ, pos}
use waf.Base.Map
use waf.Tier.{Tier}
use waf.Ddos.Counter.{MemoryCounterStore, incr_get}
use waf.Ddos.Counter.Runs.{hits, Dense, counted_from, incr_get_run}
use waf.Ddos.Ban.{memory_store, DetectorVerdict, hard_burst}
use waf.Ddos.Ban
use waf.Ddos.Detect.{DdosTierCfg, over, tier_str, evaluate_with_fp}

-- Requests of one fingerprint at these times, and the verdicts.
unfoldable pub fp_run :
    String → Tier → DdosTierCfg → List ℤ → MemoryCounterStore → List DetectorVerdict
fp_run fp tier cfg [] s = []
fp_run fp tier cfg (t ∷ ts) s =
    let (s', v) = evaluate_with_fp memory_store (some fp) tier cfg t s in
    v ∷ fp_run fp tier cfg ts s'

fp_run-hits :
    (fp : String) (tier : Tier) (cfg : DdosTierCfg) (ts : List ℤ) (s : MemoryCounterStore)
    → (fp == "") ≡ false
    → fp_run fp tier cfg ts s
      ≡ map
          (λ n. over "fp_burst" "per_fp" cfg.per_fp_threshold (some n))
          (hits
            ("ddos:fp:" ++ tier_str tier ++ ":" ++ fp)
            (pos (cfg.per_fp_window_s * 1000))
            ts
            s).1
unfolding fp_run hits evaluate_with_fp
fp_run-hits fp tier cfg [] s named = refl
fp_run-hits fp tier cfg (t ∷ ts) s named =
    let s' =
      (incr_get ("ddos:fp:" ++ tier_str tier ++ ":" ++ fp) (pos (cfg.per_fp_window_s * 1000)) t
        s).0 in
    rw (named, fp_run-hits fp tier cfg ts s' named) refl

-- Of the requests of a fingerprint without a counter, each of which comes before the window that
-- the one before it began again has ended, the first `per_fp_threshold` pass and all later ones
-- are bursts, however slowly they come.
pub fp_run_lem :
    (fp : String) (tier : Tier) (cfg : DdosTierCfg) (t : ℤ) (ts : List ℤ) (s : MemoryCounterStore)
    → (fp == "") ≡ false
    → Map.get ("ddos:fp:" ++ tier_str tier ++ ":" ++ fp) s.map ≡ none
    → Dense (pos (cfg.per_fp_window_s * 1000)) t ts
    → length ts + 1 < 2 ^ 64
    → fp_run fp tier cfg (t ∷ ts) s
      ≡ map
          (λ n. if ltb cfg.per_fp_threshold n then hard_burst "fp_burst" "per_fp" else Ban.allow)
          (counted_from 1 (t ∷ ts))
unfolding over
fp_run_lem fp tier cfg t ts s named fresh dense small =
    fp_run-hits fp tier cfg (t ∷ ts) s named
    ∙ ap (map (λ n. over "fp_burst" "per_fp" cfg.per_fp_threshold (some n))) (
        incr_get_run ("ddos:fp:" ++ tier_str tier ++ ":" ++ fp) (pos (cfg.per_fp_window_s * 1000)) t
          ts s fresh dense small)
