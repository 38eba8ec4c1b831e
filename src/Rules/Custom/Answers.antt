-- ===== src/Rules/Custom/Answers.antt =====
-- The answers of the custom rules after any calls of the engine.
use waf.Base.{
  ◌≡◌, ◌≢◌, refl, ap, ◌∙◌, Bool, false, not, String, List, [], ◌∷◌, ◌++◌, map, select, inl, inr,
  arith, Bool-cases, Option-cases,
}
use waf.Base.Keys.{string_eq, ◌==◌}
use waf.Base.Map
use waf.Base.Map.{Map, get-insert, get-insert_self}
use waf.Rules.Custom.{CustomRule, RequestCtx, Libraries}
use waf.Rules.Custom.Engine.{
  RuleEntry, Engine, RuleSource, db, file, is_file, or_else, from_rule_with_source,
  sort_by_priority, bucket_of, load_host, insert_rule, map_buckets, clear_file_rules, remove_rule,
  remove_from, add_rule, add_file_rule, eval_list, check,
}
use waf.Rules.Custom.Order.{
  applies, better, best, answer, IsAscending, sort_by_priority-IsAscending, select-IsAscending,
  eval_list-best, best-sort_by_priority,
}

-- The calls of the engine that change its rules.
pub data Call : Type 0 where
  load : String → List CustomRule → Call
  add add_file : CustomRule → Call
  clear_files : Call
  delete : String → String → Call

module _ (lib : Libraries) where
  abbrev pub entries : List CustomRule → List (RuleEntry lib)
  entries rules = map (λ r. from_rule_with_source lib r db) rules

  abbrev pub step : Call → Engine lib → Engine lib
  step (load host_code rules) m = load_host lib host_code rules m
  step (add rule) m = add_rule lib rule m
  step (add_file rule) m = add_file_rule lib rule m
  step clear_files m = clear_file_rules lib m
  step (delete host_code rule_id) m = remove_rule lib host_code rule_id m

  abbrev pub run : List Call → Engine lib → Engine lib
  run [] m = m
  run (c ∷ cs) m = run cs (step c m)

  abbrev pub bucket : String → Engine lib → List (RuleEntry lib)
  bucket h m = bucket_of lib (Map.get h m)

  -- Every bucket ascends in its priorities.
  abbrev IsSorted : Engine lib → Type 0
  IsSorted m = (h : String) → IsAscending lib (bucket h m)

  insert-IsSorted :
      (k : String) (es : List (RuleEntry lib)) (m : Engine lib)
      → IsAscending lib es
      → IsSorted m
      → IsSorted (Map.insert k es m)
  insert-IsSorted k es m d s h =
      rw (get-insert k h es m)
        (elim (Bool-cases (k == h)) [ inl same ↦ rw same d | inr other ↦ rw other (s h) ])

  bucket-map_buckets :
      (p : RuleEntry lib → Bool) (h : String) (m : Engine lib)
      → bucket h (map_buckets lib (select p) m) ≡ select p (bucket h m)
  unfolding map_buckets Map.get
  bucket-map_buckets p h [] = refl
  bucket-map_buckets p h ((j, es) ∷ m) = elim (Bool-cases (j == h)) [
    | inl same ↦ rw same refl
    | inr other ↦ rw other (bucket-map_buckets p h m)
  ]

  sort-IsSorted :
      (k : String) (es : List (RuleEntry lib)) (m : Engine lib)
      → IsSorted m
      → IsSorted (Map.insert k (sort_by_priority lib es) m)
  sort-IsSorted k es m s =
      insert-IsSorted k (sort_by_priority lib es) m (sort_by_priority-IsAscending lib es) s

  insert_rule-IsSorted :
      (r : CustomRule) (source : RuleSource) (m : Engine lib)
      → IsSorted m
      → IsSorted (insert_rule lib r source m)
  unfolding insert_rule
  insert_rule-IsSorted r source m s =
      sort-IsSorted r.host_code (bucket r.host_code m ++ from_rule_with_source lib r source ∷ []) m
        s

  step-IsSorted : (c : Call) (m : Engine lib) → IsSorted m → IsSorted (step c m)
  unfolding load_host add_rule add_file_rule clear_file_rules remove_rule remove_from
  step-IsSorted (load host_code rules) m s =
      sort-IsSorted host_code (entries (select (λ r. r.enabled) rules)) m s
  step-IsSorted (add rule) m s = insert_rule-IsSorted rule db m s
  step-IsSorted (add_file rule) m s = insert_rule-IsSorted rule file m s
  step-IsSorted clear_files m s =
      let keep : RuleEntry lib → Bool = λ e. not (is_file e.source) in
      λ h. rw (bucket-map_buckets keep h m) (select-IsAscending lib keep (bucket h m) (s h))
  step-IsSorted (delete host_code rule_id) m s = elim (Option-cases (Map.get host_code m)) [
    | inl absent ↦ rw absent s
    | inr (es, held) ↦
        let d : IsAscending lib es = rw held at (s host_code) in
        let keep : RuleEntry lib → Bool = λ e. not (e.raw.id == rule_id) in
        rw held (insert-IsSorted host_code (select keep es) m (select-IsAscending lib keep es d) s)
  ]

  run-IsSorted : (cs : List Call) (m : Engine lib) → IsSorted m → IsSorted (run cs m)
  run-IsSorted [] m s = s
  run-IsSorted (c ∷ cs) m s = run-IsSorted cs (step c m) (step-IsSorted c m s)

  -- After any calls of a new engine, `check` answers with the best rule that applies of those that
  -- it holds for the host of the request, and where none applies, of those for all hosts: the one of
  -- the lowest priority, and of two of one priority the one that is held first.
  pub check-best :
      (cs : List Call) (ctx : RequestCtx)
      → check lib ctx (run cs [])
        ≡ or_else
            (answer lib (best lib ctx (bucket ctx.host_code (run cs []))))
            (answer lib (best lib ctx (bucket "*" (run cs []))))
  unfolding check
  check-best cs ctx =
      let s : IsSorted (run cs []) = run-IsSorted cs [] (λ h. unfold Map.get in tt) in
      rw (
        eval_list-best lib ctx (bucket ctx.host_code (run cs [])) (s ctx.host_code),
        eval_list-best lib ctx (bucket "*" (run cs [])) (s "*"),
      )

  best-select :
      (ctx : RequestCtx) (p : CustomRule → Bool) (rules : List CustomRule)
      → ((r : CustomRule) → p r ≡ false → applies lib ctx (from_rule_with_source lib r db) ≡ false)
      → best lib ctx (entries (select p rules)) ≡ best lib ctx (entries rules)
  best-select ctx p [] out = refl
  best-select ctx p (r ∷ rs) out = elim (Bool-cases (p r)) [
    | inl on ↦
        rw on (ap (better lib ctx (from_rule_with_source lib r db)) (best-select ctx p rs out))
    | inr off ↦
        rw (off, best-select ctx p rs out)
          (elim (Option-cases (best lib ctx (entries rs))) [
            | inl absent ↦ rw (absent, out r off) refl
            | inr (b, found) ↦ rw (found, out r off) refl
          ])
  ]

  best-enabled :
      (ctx : RequestCtx) (rules : List CustomRule)
      → best lib ctx (entries (select (λ r. r.enabled) rules)) ≡ best lib ctx (entries rules)
  unfolding from_rule_with_source
  best-enabled ctx rules = best-select ctx (λ r. r.enabled) rules (λ r off. ground (arith, off))

  -- After the rules of a host are loaded, `check` answers a request of the host with the best of
  -- them that applies, disabled ones left out, whatever the order they came in: the one of the
  -- lowest priority, and of two of one priority the one that came first; where none applies, with
  -- the answer of the rules for all hosts.
  pub check-load_host :
      (ctx : RequestCtx) (rules : List CustomRule) (m : Engine lib)
      → ctx.host_code ≢ "*"
      → check lib ctx (load_host lib ctx.host_code rules m)
        ≡ or_else (answer lib (best lib ctx (entries rules))) (eval_list lib ctx (bucket "*" m))
  unfolding check load_host
  check-load_host ctx rules m n =
      let es = entries (select (λ r. r.enabled) rules) in
      let first : eval_list lib ctx (sort_by_priority lib es)
          ≡ answer lib (best lib ctx (entries rules)) =
        eval_list-best lib ctx (sort_by_priority lib es) (sort_by_priority-IsAscending lib es)
        ∙ ap (answer lib) (best-sort_by_priority lib ctx es ∙ best-enabled ctx rules) in
      rw
        (
          get-insert_self ctx.host_code (sort_by_priority lib es) m,
          get-insert ctx.host_code "*" (sort_by_priority lib es) m,
          first,
        )
        (elim (Bool-cases (ctx.host_code == "*")) [
          | inl same ↦ absurd (n ((string_eq.beq_iff ctx.host_code "*").0 same))
          | inr other ↦ rw other
        ])
