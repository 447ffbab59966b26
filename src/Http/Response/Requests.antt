-- ===== src/Http/Response/Requests.antt =====
-- The cache policy of a request, hitbox-http/src/request.rs, of a chain of extractors of its
-- head and a chain of predicates on it.
use hitbox.Prelude.{ℕ, String, Bool, List, if◌then◌else◌, ◌≡◌, refl, ap, ◌∙◌}
use hitbox.Core.Policy.{cacheable, non_cacheable}
use hitbox.Core.Predicate.{PredicateResult, Predicate, neutral}
use hitbox.Key.{CacheKey, KeyParts, new, into_cache_key}
use hitbox.Http.Plain.Laws.{is_cacheable, subject}
use hitbox.Http.Heads.{Headers, StatusClasses, Head}
use hitbox.Http.Heads.Laws.{HeadOperation, all_tests, chain_of-all_tests}
use hitbox.Http.Heads.Laws as Heads
use hitbox.Http.Extractors.{Texts, Request, neutral_extractor}
use hitbox.Http.Extractors.Laws.{Part, all_parts, chain_of-lem}
use hitbox.Http.Extractors.Laws as Extractors
use hitbox.Http.Response.{request_checked, request_cache_policy}

module _ {S : Type 0} where
  checked-lem :
      (key : CacheKey) (r : PredicateResult S) (b : Bool) (s : S)
      → is_cacheable r ≡ b
      → subject r ≡ s
      → request_checked key r ≡ (if b then cacheable (key, s) else non_cacheable s)
  unfolding request_checked
  checked-lem key (PredicateResult.cacheable x) b s e h =
      ap (λ y. cacheable (key, y)) h ∙ ap (λ c. if c then cacheable (key, s) else non_cacheable s) e
  checked-lem key (PredicateResult.non_cacheable x) b s e h =
      ap non_cacheable h ∙ ap (λ c. if c then cacheable (key, s) else non_cacheable s) e

  into_cache_key-new :
      (len : String → ℕ) (k : KeyParts S) → (into_cache_key len k).1 ≡ new len "" 0 k.parts
  unfolding into_cache_key new
  into_cache_key-new len k = refl

  pub policy-lem :
      (len : String → ℕ) (predicates : Predicate S) (k : KeyParts S) (b : Bool) (s came : S)
      → is_cacheable (predicates s) ≡ b
      → subject (predicates s) ≡ s
      → k.subject ≡ s
      → request_cache_policy len predicates (λ x. k) came
        ≡ (if b then cacheable (new len "" 0 k.parts, s) else non_cacheable s)
  unfolding request_cache_policy into_cache_key new
  policy-lem len predicates k b s came e h same =
      ap (λ x. request_checked (new len "" 0 k.parts) (predicates x)) same
      ∙ checked-lem (new len "" 0 k.parts) (predicates s) b s e h

module _ {S Method Resource Version Map Name Value Regex : Type 0}
    (head : Head S Method Resource Version Map) (h : Headers Map Name Value Regex)
    (classes : StatusClasses) (req : Request S Resource) (t : Texts Regex) (len : String → ℕ) where
  -- The cache policy of a request under a chain of predicates on its head and a chain of extractors
  -- of its head, that of bodies not being among them:
  -- it is cacheable just if every operation's test passes on the request as it came in; its key has
  -- no prefix, the version 0 and the parts of every extractor in order; and the request is handed on
  -- as it came in, in both cases.
  pub request_cache_policy-heads :
      (ops : List (HeadOperation Method Resource Version Name Value Regex))
      (ps : List (Part Resource Regex)) (s : S)
      → request_cache_policy len
          (Heads.chain_of head h classes ops neutral)
          (Extractors.chain_of req t ps (neutral_extractor req t))
          s
        ≡ (if all_tests head h classes ops s
            then cacheable (new len "" 0 (all_parts req t ps s), s)
            else non_cacheable s)
  unfolding request_cache_policy neutral neutral_extractor
  request_cache_policy-heads ops ps s =
      let (kept, parts) = chain_of-lem req t ps (neutral_extractor req t) s in
      let (answer, same) = chain_of-all_tests head h classes ops neutral s in
      policy-lem len (Heads.chain_of head h classes ops neutral)
        (Extractors.chain_of req t ps (neutral_extractor req t) s) (all_tests head h classes ops s)
        s s answer same kept
      ∙ ap
          (λ x.
            if all_tests head h classes ops s
            then cacheable (new len "" 0 x, s)
            else non_cacheable s)
          parts
