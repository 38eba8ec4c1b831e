-- ===== src/Cluster/Detector/Window.antt =====
-- The window of the detector against the heartbeats of its run.
use waf.Base.{
  ℕ, suc, zero, ◌-◌, ◌≤◌, ◌≡◌, refl, String, List, [], ◌∷◌, ◌++◌, arith, leb, length, drop,
  length-append, length-drop, ◌∙◌, ap, sym, Bool-cases, inl, inr, true, false,
}
use mathlib.Core.List.{append_assoc, append-nil}
use waf.Base.Float.{Float}
use waf.Cluster.Detector.{PhiAccrualDetector, new, record_heartbeat}

drop-append : (n : ℕ) (xs ys : List ℕ) → n ≤ length xs → drop n (xs ++ ys) ≡ drop n xs ++ ys
drop-append zero xs ys h = refl
drop-append (suc n) [] ys h = absurd (omega arith)
drop-append (suc n) (x ∷ xs) ys h = drop-append n xs ys (omega arith)

drop-one-drop : (n : ℕ) (xs : List ℕ) → drop 1 (drop n xs) ≡ drop (suc n) xs
drop-one-drop zero xs = refl
drop-one-drop (suc n) [] = refl
drop-one-drop (suc n) (x ∷ xs) = drop-one-drop n xs

-- The last hundred of a history.
abbrev latest : List ℕ → List ℕ
latest h = drop (length h - 100) h

module _ (t : ℕ) (h : List ℕ) where
  latest_full :
      leb 100 (length (latest h)) ≡ true → drop 1 (latest h) ++ t ∷ [] ≡ latest (h ++ t ∷ [])
  latest_full full =
      let l = length-drop (length h - 100) h in
      let a = length-append h (t ∷ []) in
      let n : length (h ++ t ∷ []) - 100 ≡ suc (length h - 100) = ground (arith, l, a) in
      rw (n, drop-one-drop (length h - 100) h)
        (sym (drop-append (suc (length h - 100)) h (t ∷ []) (ground (arith, l))))

  latest_room : leb 100 (length (latest h)) ≡ false → latest h ++ t ∷ [] ≡ latest (h ++ t ∷ [])
  latest_room room =
      let l = length-drop (length h - 100) h in
      let a = length-append h (t ∷ []) in
      let n : length (h ++ t ∷ []) - 100 ≡ 0 = ground (arith, l, a) in
      let k : length h - 100 ≡ 0 = ground (arith, l) in rw (n, k)

module _ (fl : Float) where
  -- Heartbeats in the order of their arrival.
  pub record_all : List ℕ → PhiAccrualDetector fl → PhiAccrualDetector fl
  record_all [] d = d
  record_all (t ∷ ts) d = record_all ts (record_heartbeat fl t d)

  window-record_heartbeat :
      (t : ℕ) (h : List ℕ) (d : PhiAccrualDetector fl)
      → d.max_window ≡ 100
      → d.window ≡ latest h
      → (record_heartbeat fl t d).window ≡ latest (h ++ t ∷ [])
  unfolding record_heartbeat
  window-record_heartbeat t h d m w =
      rw (m, w)
        (elim (Bool-cases (leb 100 (length (latest h)))) [
          | inl full ↦ rw full (latest_full t h full)
          | inr room ↦ rw room (latest_room t h room)
        ])

  window-record_all :
      (ts h : List ℕ) (d : PhiAccrualDetector fl)
      → d.max_window ≡ 100
      → d.window ≡ latest h
      → (record_all ts d).window ≡ latest (h ++ ts)
  unfolding record_all record_heartbeat
  window-record_all [] h d m w = rw (append-nil h) w
  window-record_all (t ∷ ts) h d m w =
      window-record_all ts (h ++ t ∷ []) (record_heartbeat fl t d) m
        (window-record_heartbeat t h d m w)
      ∙ ap latest (append_assoc h (t ∷ []) ts)

  -- After any heartbeats, a new detector's window is the last hundred of them, in their order.
  pub window-is_latest :
      (id : String) (suspect dead : fl.F) (ts : List ℕ)
      → (record_all ts (new fl id suspect dead)).window ≡ drop (length ts - 100) ts
  unfolding new
  window-is_latest id suspect dead ts = window-record_all ts [] (new fl id suspect dead) refl refl
