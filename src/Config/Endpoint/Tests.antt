-- ===== src/Config/Endpoint/Tests.antt =====
-- A configured key of a header and a body, and the endpoint that is configured by a policy alone.
use hitbox.Prelude.{ℕ, some, List, [], ◌∷◌, ◌≡◌, refl, if◌then◌else◌}
use hitbox.Core.Policy.{disabled, cacheable, non_cacheable}
use hitbox.Core.Response.{ok}
use hitbox.Key.{new, new_part}
use hitbox.Http.Body.{BufferedBody}
use hitbox.Http.Body.Collect.{collect}
use hitbox.Http.Heads.{same_status}
use hitbox.Http.Extractors.{
  Extractor, captured_parts, header_extractor, neutral_extractor, exact, full,
}
use hitbox.Http.BodyExtractor.{BodyExtraction, body_extractor}
use hitbox.Http.Response.{request_cache_policy}
use hitbox.Config.Answer.{answer}
use hitbox.Config.Extractors.{
  Step, body, header, HeaderOperation, BodyOperation, BodyTransform, fold_extractors,
}
use hitbox.Http.Extractors.Laws.{of_head}
use hitbox.Config.Extractors.Laws.{parts_of, fold_extractors-parts_of}
use hitbox.Config.Endpoint.{Endpoint, new_builder, with_policy, build}
use hitbox.Config.Endpoint.Laws.{build-new_builder}
use hitbox.Config.Samples.{Parts, lib, subject, texts, body_text, compilers, request}

abbrev steps : List Step
steps =
    body (BodyOperation.transforms_ (BodyTransform.hash ∷ []))
    ∷ (header (HeaderOperation.simple "Accept") ∷ [])

abbrev made : Extractor (Parts × BufferedBody ℕ)
made = body_extractor texts body_text lib.http BodyExtraction.hash (
    header_extractor (of_head request) texts (exact "Accept") full []
      (neutral_extractor (of_head request) texts))

converts_to : fold_extractors compilers (of_head request) texts body_text lib.http steps ≡ ok made
unfolding fold_extractors
converts_to = refl

read_subject : collect lib.http subject.1 ≡ ok (1 ∷ 2 ∷ [])
unfolding collect
read_subject = refl

fold_extractors-parts_of_example :
    ((made subject).subject.0 ≡ subject.0)
    × (collect lib.http (made subject).subject.1 ≡ ok (1 ∷ 2 ∷ []))
    × ((made subject).parts
        ≡ parts_of compilers request texts body_text lib.http subject.0 (1 ∷ 2 ∷ []) steps)
fold_extractors-parts_of_example =
    fold_extractors-parts_of compilers request texts body_text lib.http subject.0 (1 ∷ 2 ∷ []) steps
      made subject.1 converts_to read_subject

build-new_builder_example :
    (endpoint : Endpoint (Parts × BufferedBody ℕ) (Parts × BufferedBody ℕ)) × (build lib lib "GET"
        compilers
        (of_head request)
        texts
        body_text
        (with_policy new_builder disabled)
      ≡ ok endpoint)
    × ((s : Parts × BufferedBody ℕ)
        → request_cache_policy (λ t. 3) endpoint.request_predicates endpoint.extractors s ≡ (
            if lib.head.same_method (lib.head.method s) "GET"
            then cacheable (
              new
                  (λ t. 3)
                  ""
                  0
                  (new_part "method" (some s.0.0) ∷ captured_parts (("path", "/books") ∷ [])),
              s,
            )
            else non_cacheable s))
    × ((s : Parts × BufferedBody ℕ)
        → endpoint.response_predicates s ≡ answer s (same_status s.0.1 200))
    × (endpoint.policy ≡ disabled)
build-new_builder_example =
    build-new_builder lib lib "GET" compilers (of_head request) texts body_text (λ t. 3) disabled
