-- ===== src/Config/Endpoint/Laws.antt =====
-- What an endpoint caches, hitbox-configuration/src/{config,endpoint}.rs.
use hitbox.Prelude.{
  ℕ, String, Bool, true, ◌&&◌, some, [], ◌∷◌, ◌++◌, ◌≡◌, refl, ap, ◌∙◌, if◌then◌else◌,
}
use mathlib.Core.List.{append-nil}
use hitbox.Core.Policy.{PolicyConfig, cacheable, non_cacheable}
use hitbox.Core.Predicate.{neutral}
use hitbox.Core.Response.{ok}
use hitbox.Key.{new_part, new}
use hitbox.Http.Body.{BufferedBody}
use hitbox.Http.Heads.{
  OneOf, StatusOperation, same_status, status_matches, status_predicate, method_predicate,
}
use hitbox.Http.Heads.Laws as Heads
use hitbox.Http.Extractors.{
  Texts, Request, captured_parts, neutral_extractor, method_extractor, path_extractor,
}
use hitbox.Http.Extractors.Laws as KeySteps
use hitbox.Http.BodyExtractor.{BodyText}
use hitbox.Http.Response.{request_cache_policy}
use hitbox.Http.Response.Requests.{request_cache_policy-heads}
use hitbox.Config.Answer.{answer}
use hitbox.Config.Gives.{guard-tested}
use hitbox.Config.Leaves.{Libraries}
use hitbox.Config.Extractors.{Compilers}
use hitbox.Config.Endpoint.{Endpoint, new_builder, with_policy, build}

and_true : (b : Bool) → (b && true) ≡ b
and_true true = refl
and_true Bool.false = refl

module _ {E Parts Method Resource Map Name Value Regex Json Filter BytesRegex Captures : Type 0}
    {E' Parts' Method' Resource' Map' : Type 0}
    (lib : Libraries E Parts Method Resource Map Name Value Regex Json Filter BytesRegex)
    (lib' : Libraries E' Parts' Method' Resource' Map' Name Value Regex Json Filter BytesRegex)
    (get : Method) (c : Compilers Resource Regex Filter)
    (req : Request (Parts × BufferedBody E) Resource) (t : Texts Regex)
    (text : BodyText Json Filter Regex Captures) (len : String → ℕ) (policy : PolicyConfig) where
  on_request :
      (s : Parts × BufferedBody E)
      → request_cache_policy len
          (method_predicate lib.head lib.map_ lib.classes (OneOf.eq get) neutral)
          (path_extractor req t
            (c.resource "{path}*")
            (method_extractor req t (neutral_extractor req t)))
          s
        ≡ (if lib.head.same_method (lib.head.method s) get
            then cacheable (
              new len "" 0 (
                  new_part "method" (some (req.method s))
                  ∷ captured_parts (req.captured (c.resource "{path}*") s)),
              s,
            )
            else non_cacheable s)
  on_request s =
      let captured = captured_parts (req.captured (c.resource "{path}*") s) in
      let own = new_part "method" (some (req.method s)) in
      let is_get = lib.head.same_method (lib.head.method s) get in
      request_cache_policy-heads lib.head lib.map_ lib.classes req t len
        (Heads.method (OneOf.eq get) ∷ [])
        (KeySteps.method ∷ (KeySteps.path (c.resource "{path}*") ∷ [])) s
      ∙ ap
          (λ b. if b then cacheable (new len "" 0 (own ∷ (captured ++ [])), s) else non_cacheable s)
          (and_true is_get)
      ∙ ap (λ more. if is_get then cacheable (new len "" 0 (own ∷ more), s) else non_cacheable s)
          (append-nil captured)

  -- An endpoint that is built with a policy alone can be built. It takes a request for cacheable just
  -- if its method is GET, under a key of the method and of what the pattern `{path}*` captures, with
  -- no prefix and the version 0; it takes a response for cacheable just if its status is 200; it
  -- hands both on as they came, and has the policy.
  pub build-new_builder :
      (endpoint : Endpoint (Parts × BufferedBody E) (Parts' × BufferedBody E')) × (build lib lib'
          get c req t text
          (with_policy new_builder policy)
        ≡ ok endpoint)
      × ((s : Parts × BufferedBody E)
          → request_cache_policy len endpoint.request_predicates endpoint.extractors s ≡ (
              if lib.head.same_method (lib.head.method s) get
              then cacheable (
                new len "" 0 (
                    new_part "method" (some (req.method s))
                    ∷ captured_parts (req.captured (c.resource "{path}*") s)),
                s,
              )
              else non_cacheable s))
      × ((s : Parts' × BufferedBody E')
          → endpoint.response_predicates s ≡ answer s (same_status (lib'.head.status s) 200))
      × (endpoint.policy ≡ policy)
  unfolding build neutral method_predicate status_predicate neutral_extractor status_matches
  build-new_builder = (
    record {
      request_predicates = method_predicate lib.head lib.map_ lib.classes (OneOf.eq get) neutral;
      response_predicates =
          status_predicate lib'.head lib'.map_ lib'.classes (StatusOperation.eq 200) neutral;
      extractors =
          path_extractor req t (c.resource "{path}*")
            (method_extractor req t (neutral_extractor req t));
      policy = policy;
    },
    refl,
    on_request,
    (λ s.
        guard-tested
          (λ x. status_matches lib'.classes (StatusOperation.eq 200) (lib'.head.status x)) s neutral
          true (same_status (lib'.head.status s) 200) refl refl),
    refl,
  )
