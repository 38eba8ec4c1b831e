-- ===== src/Relay/Real.antt =====
-- The address of the client against the chain.
use native.Mathlib.Nat.{zero-add}
use waf.Base.{
  ℕ, suc, ◌+◌, ◌≡◌, refl, ap, ◌⊎◌, inl, inr, true, false, none, some, List, [], ◌∷◌, ◌++◌, length,
  take, any, min, arith, Bool-cases,
}
use waf.Relay.{
  IpAddr, Libraries, has_error, parse_xff_chain, is_trusted, walk, derive_real_ip, populate_derived,
  is_private_like, last_or,
}

take-length-append :
    (before : List IpAddr) (x : IpAddr) (after : List IpAddr)
    → take (suc (length before)) (before ++ x ∷ after) ≡ before ++ x ∷ []
take-length-append [] x after = refl
take-length-append (y ∷ before) x after = ap (λ l. y ∷ l) (take-length-append before x after)

last_or-append : (d : IpAddr) (before : List IpAddr) (x : IpAddr) → last_or d (before ++ x ∷ []) ≡ x
last_or-append d [] x = refl
last_or-append d (y ∷ before) x = last_or-append y before x

module _ (lib : Libraries) (trusted : List lib.IpNet) where
  -- Every address is in a trusted network.
  abbrev pub AllTrusted : List IpAddr → Type 0
  AllTrusted [] = Unit
  AllTrusted (x ∷ xs) = (is_trusted lib trusted x ≡ true) × AllTrusted xs

  walk_trusted :
      (i : ℕ) (xs : List IpAddr)
      → AllTrusted xs
      → walk lib trusted i xs ≡ (min (length xs) 255, none)
  unfolding walk
  walk_trusted i [] h = refl
  walk_trusted i (x ∷ xs) h = rw (walk_trusted (suc i) xs h.1, h.0) (ground arith)

  walk_untrusted :
      (i : ℕ) (before : List IpAddr) (x : IpAddr) (after : List IpAddr)
      → is_trusted lib trusted x ≡ false
      → AllTrusted after
      → walk lib trusted i (before ++ x ∷ after)
        ≡ (min (length after) 255, some (i + length before))
  unfolding walk
  walk_untrusted i [] x after n h = rw (walk_trusted (suc i) after h, n) (ground arith)
  walk_untrusted i (y ∷ before) x after n h =
      rw (walk_untrusted (suc i) before x after n h) (ground arith)

  -- Of a chain that ends with an address in no trusted network and then only addresses in trusted
  -- networks, `derive_real_ip` gives that address whatever stands before it, counts those after it
  -- up to 255, and flags a spoof exactly where one of the addresses up to it is private.
  pub derive_real_ip_lem :
      (before : List IpAddr) (x : IpAddr) (after : List IpAddr) (peer_ip : IpAddr)
      → is_trusted lib trusted x ≡ false
      → AllTrusted after
      → derive_real_ip lib (before ++ x ∷ after) trusted peer_ip ≡ record {
        real_ip = x;
        stripped_count = min (length after) 255;
        spoof_private_mid_chain = any is_private_like (before ++ x ∷ []);
      }
  unfolding derive_real_ip
  derive_real_ip_lem before x after peer_ip n h = rw (
    walk_untrusted 0 before x after n h,
    zero-add (length before),
    take-length-append before x after,
    last_or-append peer_ip before x,
  )

  data Ending (xs : List IpAddr) : Type 0 where
    trusted_all : AllTrusted xs → Ending xs
    untrusted_at :
        (before : List IpAddr) (x : IpAddr) (after : List IpAddr)
        → xs ≡ before ++ x ∷ after
        → is_trusted lib trusted x ≡ false
        → AllTrusted after
        → Ending xs

  ending : (xs : List IpAddr) → Ending xs
  ending [] = trusted_all tt
  ending (x ∷ xs) = add_first (ending xs) (Bool-cases (is_trusted lib trusted x))
    where
      add_first :
          Ending xs
          → ((is_trusted lib trusted x ≡ true) ⊎ (is_trusted lib trusted x ≡ false))
          → Ending (x ∷ xs)
      add_first (untrusted_at before y after e n h) _ =
          untrusted_at (x ∷ before) y after (ap (λ l. x ∷ l) e) n h
      add_first (trusted_all h) (inl t) = trusted_all (t, h)
      add_first (trusted_all h) (inr t) = untrusted_at [] x xs refl t h

  -- The cases of the address that is derived from a chain.
  abbrev RealIn : List IpAddr → IpAddr → Type 0
  RealIn xs ip =
      (before : List IpAddr) × (after : List IpAddr) × (xs ≡ before ++ ip ∷ after)
      × (is_trusted lib trusted ip ≡ false)
      × AllTrusted after

  real_ip-cases :
      (xs : List IpAddr) (peer_ip : IpAddr)
      → Ending xs
      → (((derive_real_ip lib xs trusted peer_ip).real_ip ≡ peer_ip) × AllTrusted xs)
        ⊎ RealIn xs (derive_real_ip lib xs trusted peer_ip).real_ip
  real_ip-cases xs peer_ip (trusted_all h) =
      inl (unfold derive_real_ip in rw (walk_trusted 0 xs h), h)
  real_ip-cases xs peer_ip (untrusted_at before x after e n h) =
      let real : (derive_real_ip lib xs trusted peer_ip).real_ip ≡ x =
        rw e (rw (derive_real_ip_lem before x after peer_ip n h)) in
      inr (before, after, rw real e, rw real n, h)

  -- The address that is derived from the headers is the peer's where the chain is in error or has
  -- addresses in trusted networks only, and else the last address of the chain that no trusted
  -- network has.
  pub populate_derived_lem :
      (headers : lib.HeaderMap) (peer_ip : IpAddr) (names : List lib.HeaderName)
      → let d = populate_derived lib headers peer_ip names trusted in
        ((d.real_ip ≡ peer_ip) × ((has_error d.parsed ≡ true) ⊎ AllTrusted d.parsed.entries))
        ⊎ ((before : List IpAddr) × (after : List IpAddr) × (has_error d.parsed ≡ false)
            × (d.parsed.entries ≡ before ++ d.real_ip ∷ after)
            × (is_trusted lib trusted d.real_ip ≡ false)
            × AllTrusted after)
  unfolding populate_derived walk
  populate_derived_lem headers peer_ip names =
      elim (Bool-cases (has_error (parse_xff_chain lib headers names))) [
        | inl bad ↦ rw bad (inl (unfold derive_real_ip in refl, inl refl))
        | inr fine ↦
            let chain = (parse_xff_chain lib headers names).entries in
            rw fine (elim (real_ip-cases chain peer_ip (ending chain)) [
              | inl (e, h) ↦ inl (e, inr h)
              | inr (before, after, e, n, h) ↦ inr (before, after, refl, e, n, h)
            ])
      ]
