-- ===== src/Config/Extractors.antt =====
-- hitbox-configuration/src/extractors: the configured parts of a cache key. Compiled expressions and
-- the patterns of paths are parameters.
pub mod Laws
use hitbox.Prelude.{String, Bool, Option, none, some, List, [], ◌∷◌, map}
use hitbox.Core.Response.{Result, ok, err}
use hitbox.Http.Body.{HttpBody, BufferedBody}
use hitbox.Http.Extractors.{
  Texts, Request, Extractor, method_extractor, version_extractor, path_extractor, header_extractor,
  query_extractor, neutral_extractor,
}
use hitbox.Http.Extractors as Http
use hitbox.Http.BodyExtractor.{BodyText, BodyExtraction, body_extractor}
use hitbox.Http.BodyExtractor as HttpBodies
use hitbox.Config.Error.{ConfigError, invalid_regex, invalid_predicate, or_error}
use hitbox.Config.Answer.{bind, try_rfold}

pub data Transform : Type 0 where
  hash lowercase uppercase : Transform

unfoldable pub into_http : Transform → Http.Transform
into_http hash = Http.Transform.hash
into_http lowercase = Http.Transform.lowercase
into_http uppercase = Http.Transform.uppercase

unfoldable pub into_http_transforms : List Transform → List Http.Transform
unfolding into_http
into_http_transforms transforms = map into_http transforms

pub data NameOperation : Type 0 where
  eq : String → NameOperation
  starts : String → NameOperation

-- `NameSelector` of headers and of queries.
pub data NameSelector : Type 0 where
  exact : String → NameSelector
  operation : NameOperation → NameSelector

-- `ValueExtractor` of headers; that of queries has the first form alone.
pub data ValueExtractor : Type 0 where
  regex : String → ValueExtractor
  regex_operation : String → ValueExtractor

-- `HeaderConfig`
pub record HeaderConfig : Type 0 where
  pub name : NameSelector
  pub value : Option ValueExtractor
  pub transforms : List Transform

pub data HeaderOperation : Type 0 where
  simple : String → HeaderOperation
  extended : HeaderConfig → HeaderOperation

-- `QueryConfig`, whose value is the pattern of `ValueExtractor::Regex`.
pub record QueryConfig : Type 0 where
  pub name : NameSelector
  pub value : Option String
  pub transforms : List Transform

pub data QueryOperation : Type 0 where
  simple : String → QueryOperation
  extended : QueryConfig → QueryOperation

pub data TransformChain : Type 0 where
  single : Transform → TransformChain
  chain : List Transform → TransformChain

pub data Transforms : Type 0 where
  full_body : List Transform → Transforms
  per_key : List (String × TransformChain) → Transforms
  none_ : Transforms

pub record RegexOperation : Type 0 where
  pub regex : String
  pub key : Option String
  pub global : Bool
  pub transforms : Transforms

-- `BodyTransform`
pub data BodyTransform : Type 0 where
  hash : BodyTransform

pub data BodyOperation : Type 0 where
  transforms_ : List BodyTransform → BodyOperation
  jq : String → BodyOperation
  regex_ : RegexOperation → BodyOperation

-- `Extractor` of mod.rs.
pub data Step : Type 0 where
  path : String → Step
  method : Step
  query : QueryOperation → Step
  body : BodyOperation → Step
  header : HeaderOperation → Step
  version : Step

-- `NameSelector::into_extractor_selector`, and the match of headers that does the same.
unfoldable pub into_extractor_selector : NameSelector → Http.NameSelector
into_extractor_selector (exact name) = Http.exact name
into_extractor_selector (operation (eq name)) = Http.exact name
into_extractor_selector (operation (starts prefix)) = Http.starts prefix

unfoldable pub into_vec : TransformChain → List Transform
into_vec (single t) = t ∷ []
into_vec (chain v) = v

per_key_chains : List (String × TransformChain) → List (String × List Http.Transform)
unfolding into_http_transforms into_vec
per_key_chains [] = []
per_key_chains ((key, c) ∷ more) = (key, into_http_transforms (into_vec c)) ∷ per_key_chains more

unfoldable pub http_transforms : Transforms → HttpBodies.Transforms
unfolding into_http_transforms per_key_chains
http_transforms none_ = HttpBodies.none_
http_transforms (full_body c) = HttpBodies.full_body (into_http_transforms c)
http_transforms (per_key chains) = HttpBodies.per_key (per_key_chains chains)

-- `Regex::new`, `JqExtraction::compile` and the pattern of a path.
pub record Compilers (Resource Regex Filter : Type 0) : Type 0 where
  pub new_regex : String → Option Regex
  pub compile : String → Result String Filter
  pub resource : String → Resource

module _ {Resource Regex Filter : Type 0} (c : Compilers Resource Regex Filter) where
  abbrev pub compiled : Result String Filter → Result ConfigError Filter
  compiled (ok filter) = ok filter
  compiled (err message) = err (invalid_predicate message)

  unfoldable pub compile_regex : String → Result ConfigError Regex
  compile_regex source = or_error (invalid_regex source) (c.new_regex source)

  pattern_value : String → Result ConfigError (Http.ValueExtractor Regex)
  unfolding compile_regex
  pattern_value source = bind (compile_regex source) (λ r. ok (Http.regex r))

  -- The match on `config.value` of headers.
  unfoldable pub header_value :
      Option ValueExtractor → Result ConfigError (Http.ValueExtractor Regex)
  unfolding pattern_value
  header_value none = ok Http.full
  header_value (some (regex source)) = pattern_value source
  header_value (some (regex_operation source)) = pattern_value source

  -- `.map(ValueExtractor::try_into_extractor).transpose()?.unwrap_or(Full)`
  unfoldable pub query_value : Option String → Result ConfigError (Http.ValueExtractor Regex)
  unfolding pattern_value
  query_value none = ok Http.full
  query_value (some source) = pattern_value source

  unfoldable pub body_extraction : BodyOperation → Result ConfigError (BodyExtraction Filter Regex)
  unfolding compile_regex http_transforms
  body_extraction (transforms_ ts) = ok BodyExtraction.hash
  body_extraction (jq expression) =
      bind (compiled (c.compile expression)) (λ filter. ok (BodyExtraction.jq filter))
  body_extraction (regex_ op) = bind (compile_regex op.regex) (λ r. ok (
      BodyExtraction.regex_ (record {
        regex = r;
        key = op.key;
        global = op.global;
        transforms = http_transforms op.transforms;
      })))

  module _ {E Parts Json Captures : Type 0} (req : Request (Parts × BufferedBody E) Resource)
      (t : Texts Regex) (text : BodyText Json Filter Regex Captures) (http : HttpBody E) where
    unfoldable pub header_into_extractors :
        HeaderOperation
        → Extractor (Parts × BufferedBody E)
        → Result ConfigError (Extractor (Parts × BufferedBody E))
    unfolding header_value into_extractor_selector into_http_transforms
    header_into_extractors (HeaderOperation.simple name) inner =
        ok (header_extractor req t (Http.exact name) Http.full [] inner)
    header_into_extractors (HeaderOperation.extended config) inner =
        bind (header_value config.value) (λ v. ok (
          header_extractor req t (into_extractor_selector config.name) v
            (into_http_transforms config.transforms) inner))

    unfoldable pub query_into_extractors :
        QueryOperation
        → Extractor (Parts × BufferedBody E)
        → Result ConfigError (Extractor (Parts × BufferedBody E))
    unfolding query_value into_extractor_selector into_http_transforms
    query_into_extractors (QueryOperation.simple name) inner =
        ok (query_extractor req t (Http.exact name) Http.full [] inner)
    query_into_extractors (QueryOperation.extended config) inner =
        bind (query_value config.value) (λ v. ok (
          query_extractor req t (into_extractor_selector config.name) v
            (into_http_transforms config.transforms) inner))

    unfoldable pub body_into_extractors :
        BodyOperation
        → Extractor (Parts × BufferedBody E)
        → Result ConfigError (Extractor (Parts × BufferedBody E))
    unfolding body_extraction
    body_into_extractors op inner =
        bind (body_extraction op) (λ extraction. ok (body_extractor t text http extraction inner))

    -- `Extractor::into_extractors`
    unfoldable pub into_extractors :
        Step
        → Extractor (Parts × BufferedBody E)
        → Result ConfigError (Extractor (Parts × BufferedBody E))
    unfolding header_into_extractors query_into_extractors body_into_extractors
    into_extractors method inner = ok (method_extractor req t inner)
    into_extractors (path p) inner = ok (path_extractor req t (c.resource p) inner)
    into_extractors (query op) inner = query_into_extractors op inner
    into_extractors (body op) inner = body_into_extractors op inner
    into_extractors (header op) inner = header_into_extractors op inner
    into_extractors version inner = ok (version_extractor req t inner)

    -- The `try_rfold` of `ConfigEndpoint::extractors`.
    unfoldable pub fold_extractors :
        List Step → Result ConfigError (Extractor (Parts × BufferedBody E))
    unfolding try_rfold into_extractors neutral_extractor
    fold_extractors steps =
        try_rfold (λ inner step. into_extractors step inner) (neutral_extractor req t) steps
