-- ===== src/Http/Response/Chains.antt =====
-- The cache policy of a request, hitbox-http/src/request.rs, of a chain of extractors of any kind, with
-- those of bodies (hitbox-http/src/extractors/body.rs), and a chain of predicates on its head.
use hitbox.Prelude.{ℕ, String, Bool, ◌&&◌, List, [], ◌∷◌, if◌then◌else◌, ◌≡◌, refl, ap, ◌∙◌}
use hitbox.Core.Policy.{cacheable, non_cacheable}
use hitbox.Core.Predicate.{neutral}
use hitbox.Key.{new}
use hitbox.Http.Body.{HttpBody, BufferedBody}
use hitbox.Http.Body.Collect.{collect}
use hitbox.Http.Heads.{Headers, StatusClasses, Head}
use hitbox.Http.Heads.Laws.{HeadOperation, all_tests, chain_of-all_tests}
use hitbox.Http.Heads.Laws as Heads
use hitbox.Http.Extractors.{Texts, Request, neutral_extractor}
use hitbox.Http.Extractors.Laws.{of_head}
use hitbox.Http.BodyExtractor.{BodyText}
use hitbox.Http.BodyExtractor.Chains.{
  Step, settled, reads_body, all_parts, chain_of, chain_of-Hands,
}
use hitbox.Http.Response.{request_cache_policy}
use hitbox.Http.Response.Requests.{policy-lem}

-- What the predicates on heads read of a request is its head.
abbrev pub on_head :
    {Parts Method Resource Version Map B : Type 0}
    → Head Parts Method Resource Version Map
    → Head (Parts × B) Method Resource Version Map
on_head h = record {
  method = λ s. h.method s.0;
  same_method = h.same_method;
  path = λ s. h.path s.0;
  is_match_path = h.is_match_path;
  query = λ s. h.query s.0;
  parse_query = h.parse_query;
  headers = λ s. h.headers s.0;
  version = λ s. h.version s.0;
  same_version = h.same_version;
  status = λ s. h.status s.0;
}

module _ {Parts B Method Resource Version Map Name Value Regex : Type 0}
    (head : Head Parts Method Resource Version Map) (h : Headers Map Name Value Regex)
    (classes : StatusClasses) where
  test-head :
      (op : HeadOperation Method Resource Version Name Value Regex) (parts : Parts) (b : B)
      → Heads.test (on_head head) h classes op (parts, b) ≡ Heads.test head h classes op parts
  test-head (HeadOperation.header op) parts b = refl
  test-head (HeadOperation.method op) parts b = refl
  test-head (HeadOperation.path resource) parts b = refl
  test-head (HeadOperation.query op) parts b = refl
  test-head (HeadOperation.status op) parts b = refl
  test-head (HeadOperation.version op) parts b = refl

  all_tests-head :
      (ops : List (HeadOperation Method Resource Version Name Value Regex)) (parts : Parts) (b : B)
      → all_tests (on_head head) h classes ops (parts, b) ≡ all_tests head h classes ops parts
  all_tests-head [] parts b = refl
  all_tests-head (op ∷ ops) parts b =
      ap (λ x. x && all_tests (on_head head) h classes ops (parts, b)) (test-head op parts b)
      ∙ ap (λ x. Heads.test head h classes op parts && x) (all_tests-head ops parts b)

module _
    {E Parts Method Resource Version Map Name Value Regex Json Filter BytesRegex Captures : Type 0}
    {R : Type 0} (http : HttpBody E) (head : Head Parts Method Resource Version Map)
    (h : Headers Map Name Value Regex) (classes : StatusClasses) (r : Request Parts Resource)
    (t : Texts R) (t' : Texts BytesRegex) (text : BodyText Json Filter BytesRegex Captures)
    (len : String → ℕ) where
  -- The cache policy of a request under a chain of predicates on its head and a chain of extractors
  -- of any kind, those of bodies among them: it is cacheable just if every operation's test passes
  -- on the head; its key has no prefix, the version 0 and the parts of every extractor in order,
  -- those of a body being made of what reading the body gives, or one part without a value where it
  -- cannot be read. The request is handed on with its head, in both cases, and with the body as it
  -- came in, or, if an extractor reads bodies, as reading it left it.
  pub request_cache_policy-chains :
      (ops : List (HeadOperation Method Resource Version Name Value Regex))
      (steps : List (Step Resource R Filter BytesRegex)) (parts : Parts) (b : BufferedBody E)
      → request_cache_policy len
          (Heads.chain_of (on_head head) h classes ops neutral)
          (chain_of http r t t' text steps (neutral_extractor (of_head r) t))
          (parts, b)
        ≡ (if all_tests head h classes ops parts
            then cacheable (
              new len "" 0 (all_parts http r t t' text parts (collect http b) steps),
              (parts, settled http (reads_body steps) b),
            )
            else non_cacheable (parts, settled http (reads_body steps) b))
  unfolding request_cache_policy neutral neutral_extractor
  request_cache_policy-chains ops steps parts b =
      let came : Parts × BufferedBody E = (parts, settled http (reads_body steps) b) in
      let k = chain_of http r t t' text steps (neutral_extractor (of_head r) t) (parts, b) in
      let (kept, own) =
        chain_of-Hands http r t t' text parts steps Bool.false (λ res. [])
          (neutral_extractor (of_head r) t) (λ b'. (refl, refl)) b in
      let (answer, same) = chain_of-all_tests (on_head head) h classes ops neutral came in
      policy-lem len (Heads.chain_of (on_head head) h classes ops neutral) k
        (all_tests head h classes ops parts) came (parts, b)
        (answer ∙ all_tests-head head h classes ops parts (settled http (reads_body steps) b)) same
        kept
      ∙ ap
          (λ x.
            if all_tests head h classes ops parts
            then cacheable (new len "" 0 x, came)
            else non_cacheable came)
          own
