-- ===== src/Cache/Capture/Body.antt =====
-- The body that is cached against the body that was sent.
use waf.Base.{
  ℕ, zero, suc, ◌-◌, ◌≡◌, refl, sym, ◌∙◌, true, false, Option, none, some, List, [], ◌∷◌, ◌++◌,
  length, take, arith,
}
use mathlib.Core.List.{append_assoc, append-nil}
use waf.Cache.Capture.{
  ResponseCachePending, response_cache_body_limit, append_chunk, cache_store_on_body_chunk,
}

-- Room is left for what comes after the first bytes.
take-append :
    {A : Type 0} (n : ℕ) (xs ys : List A)
    → take n xs ++ take (n - length (take n xs)) ys ≡ take n (xs ++ ys)
take-append zero xs ys = refl
take-append (suc n) [] ys = let e : suc n - 0 ≡ suc n = omega arith in rw e
take-append (suc n) (x ∷ xs) ys =
    let e : suc n - suc (length (take n xs)) ≡ n - length (take n xs) = omega arith in
    rw (e, take-append n xs ys)

take-nil : (n : ℕ) → take {A = ℕ} n [] ≡ []
take-nil zero = refl
take-nil (suc n) = refl

-- The bytes of a chunk.
abbrev pub bytes : Option (List ℕ) → List ℕ
bytes none = []
bytes (some chunk) = chunk

-- The bytes of chunks in a row.
unfoldable pub sent : List (Option (List ℕ)) → List ℕ
sent [] = []
sent (c ∷ cs) = bytes c ++ sent cs

-- The chunks before the last one.
unfoldable pub feed :
    List (Option (List ℕ)) → Option ResponseCachePending → Option ResponseCachePending
feed [] p = p
feed (c ∷ cs) p = feed cs (cache_store_on_body_chunk c false p).0

append_chunk_lem :
    (c : Option (List ℕ)) (bs : List ℕ) (p : ResponseCachePending)
    → p.body ≡ take response_cache_body_limit bs
    → append_chunk c p ≡ record p { body = take response_cache_body_limit (bs ++ bytes c) }
unfolding append_chunk
append_chunk_lem none bs p e = rw (append-nil bs, ← e)
append_chunk_lem (some chunk) bs p e = rw (e, take-append response_cache_body_limit bs chunk)

chunk_started :
    (c : Option (List ℕ)) (p : ResponseCachePending)
    → p.capture_started ≡ true
    → cache_store_on_body_chunk c false (some p) ≡ (some (append_chunk c p), none)
unfolding cache_store_on_body_chunk
chunk_started c p s = rw s

chunk_final :
    (c : Option (List ℕ)) (p : ResponseCachePending)
    → p.capture_started ≡ true
    → cache_store_on_body_chunk c true (some p) ≡ (none, some (append_chunk c p))
unfolding cache_store_on_body_chunk
chunk_final c p s = rw s

feed_lem :
    (cs : List (Option (List ℕ))) (bs : List ℕ) (p : ResponseCachePending)
    → p.capture_started ≡ true
    → p.body ≡ take response_cache_body_limit bs
    → feed cs (some p) ≡ some (record p { body = take response_cache_body_limit (bs ++ sent cs) })
unfolding feed sent
feed_lem [] bs p s e = rw (append-nil bs, ← e)
feed_lem (c ∷ cs) bs p s e =
    rw (chunk_started c p s, append_chunk_lem c bs p e, ← append_assoc bs (bytes c) (sent cs))
      (feed_lem cs (bs ++ bytes c)
        (record p { body = take response_cache_body_limit (bs ++ bytes c) }) s refl)

-- The body that a capture hands to the cache at the end of the stream is what the upstream sent, in
-- order, cut at `response_cache_body_limit`; nothing is left pending.
pub capture_lem :
    (cs : List (Option (List ℕ))) (final : Option (List ℕ)) (p : ResponseCachePending)
    → p.capture_started ≡ true
    → p.body ≡ []
    → cache_store_on_body_chunk final true (feed cs (some p))
      ≡ (none, some (record p { body = take response_cache_body_limit (sent cs ++ bytes final) }))
capture_lem cs final p s e =
    let empty : p.body ≡ take response_cache_body_limit [] =
      e ∙ sym (take-nil response_cache_body_limit) in
    let filled = record p { body = take response_cache_body_limit (sent cs) } in
    rw (
      feed_lem cs [] p s empty,
      chunk_final final filled s,
      append_chunk_lem final (sent cs) filled refl,
    )
