-- ===== src/Config/Endpoint.antt =====
-- hitbox-configuration/src/{types,config,endpoint}.rs: the endpoint of a configuration, with the
-- defaults of what is not configured. An `Arc` is the value that it shares.
pub mod Laws
mod Tests
use hitbox.Prelude.{String, Option, none, some, List}
use hitbox.Core.Policy.{PolicyConfig}
use hitbox.Core.Policy as Policy
use hitbox.Core.Predicate.{Predicate, neutral}
use hitbox.Core.Response.{Result, ok, err}
use hitbox.Http.Body.{BufferedBody}
use hitbox.Http.Heads.{OneOf, StatusOperation, method_predicate, status_predicate}
use hitbox.Http.Extractors.{
  Texts, Request, Extractor, method_extractor, path_extractor, neutral_extractor,
}
use hitbox.Http.BodyExtractor.{BodyText}
use hitbox.Config.Error.{ConfigError}
use hitbox.Config.Answer.{bind}
use hitbox.Config.Leaves.{RequestLeaf, ResponseLeaf, Libraries, request_leaf, response_leaf}
use hitbox.Config.Request as Requests
use hitbox.Config.Response as Responses
use hitbox.Config.Extractors.{Step, Compilers, fold_extractors}

pub data MaybeUndefined (T : Type 0) : Type 0 where
  null : MaybeUndefined T
  undefined : MaybeUndefined T
  value : T → MaybeUndefined T

module _ {T : Type 0} where
  abbrev pub of_option : Option T → MaybeUndefined T
  of_option none = null
  of_option (some v) = value v

  unfoldable pub unwrap_or_default : T → MaybeUndefined T → T
  unwrap_or_default default (value v) = v
  unwrap_or_default default null = default
  unwrap_or_default default undefined = default

-- `MaybeUndefined::map`
unfoldable pub map_maybe :
    {T U : Type 0} → (Option T → Option U) → MaybeUndefined T → MaybeUndefined U
map_maybe f (value v) = of_option (f (some v))
map_maybe f null = of_option (f none)
map_maybe f undefined = undefined

pub record ConfigEndpoint (Json : Type 0) : Type 0 where
  pub request : MaybeUndefined (Requests.Request (RequestLeaf Json))
  pub response : MaybeUndefined (Responses.Response (ResponseLeaf Json))
  pub extractors : MaybeUndefined (List Step)
  pub policy : PolicyConfig

pub record Endpoint (Req Res : Type 0) : Type 0 where
  pub request_predicates : Predicate Req
  pub response_predicates : Predicate Res
  pub extractors : Extractor Req
  pub policy : PolicyConfig

pub record EndpointBuilder (Req Res : Type 0) : Type 0 where
  pub request_predicates : Option (Predicate Req)
  pub response_predicates : Option (Predicate Res)
  pub extractors : Option (Extractor Req)
  pub policy : PolicyConfig

-- `ConfigEndpoint::default()`
abbrev pub default_config : {Json : Type 0} → ConfigEndpoint Json
default_config = record {
  request = undefined;
  response = undefined;
  extractors = undefined;
  policy = Policy.default_policy_config;
}

module _ {Req Res : Type 0} where
  abbrev pub new_builder : EndpointBuilder Req Res
  new_builder = record {
    request_predicates = none;
    response_predicates = none;
    extractors = none;
    policy = Policy.default_policy_config;
  }

  abbrev pub with_request_predicate :
      EndpointBuilder Req Res → Predicate Req → EndpointBuilder Req Res
  with_request_predicate b p = record b { request_predicates = some p }

  abbrev pub with_response_predicate :
      EndpointBuilder Req Res → Predicate Res → EndpointBuilder Req Res
  with_response_predicate b p = record b { response_predicates = some p }

  abbrev pub with_extractor : EndpointBuilder Req Res → Extractor Req → EndpointBuilder Req Res
  with_extractor b x = record b { extractors = some x }

  abbrev pub with_policy : EndpointBuilder Req Res → PolicyConfig → EndpointBuilder Req Res
  with_policy b policy = record b { policy = policy }

-- `Option::unwrap_or`
abbrev pub unwrap_or : {A : Type 0} → Option A → A → A
unwrap_or none a = a
unwrap_or (some x) a = x

module _ {E Parts Method Resource Map Name Value Regex Json Filter BytesRegex Captures : Type 0}
    {E' Parts' Method' Resource' Map' : Type 0}
    (lib : Libraries E Parts Method Resource Map Name Value Regex Json Filter BytesRegex)
    (lib' : Libraries E' Parts' Method' Resource' Map' Name Value Regex Json Filter BytesRegex)
    (get : Method) (c : Compilers Resource Regex Filter)
    (req : Request (Parts × BufferedBody E) Resource) (t : Texts Regex)
    (text : BodyText Json Filter Regex Captures) where
  -- `ConfigEndpoint::extractors`
  unfoldable pub configured_extractors :
      MaybeUndefined (List Step) → Result ConfigError (Extractor (Parts × BufferedBody E))
  configured_extractors null = ok (neutral_extractor req t)
  configured_extractors undefined = ok (
      path_extractor req t (c.resource "{path}*")
        (method_extractor req t (neutral_extractor req t)))
  configured_extractors (value steps) = fold_extractors c req t text lib.http steps

  -- The two matches of `into_endpoint`.
  unfoldable pub configured_response :
      MaybeUndefined (Responses.Response (ResponseLeaf Json))
      → Result ConfigError (Predicate (Parts' × BufferedBody E'))
  configured_response (value response) = Responses.into_predicates (response_leaf lib') response
  configured_response null = ok neutral
  configured_response undefined =
      ok (status_predicate lib'.head lib'.map_ lib'.classes (StatusOperation.eq 200) neutral)

  unfoldable pub configured_request :
      MaybeUndefined (Requests.Request (RequestLeaf Json))
      → Result ConfigError (Predicate (Parts × BufferedBody E))
  configured_request (value request) = Requests.into_predicates (request_leaf lib) request
  configured_request null = ok neutral
  configured_request undefined =
      ok (method_predicate lib.head lib.map_ lib.classes (OneOf.eq get) neutral)

  unfoldable pub into_endpoint :
      ConfigEndpoint Json
      → Result ConfigError (Endpoint (Parts × BufferedBody E) (Parts' × BufferedBody E'))
  unfolding configured_extractors configured_response configured_request
  into_endpoint config = bind (configured_extractors config.extractors) (λ extractors.
      bind (configured_response config.response) (λ response.
        bind (configured_request config.request) (λ request. ok (record {
          request_predicates = request;
          response_predicates = response;
          extractors = extractors;
          policy = config.policy;
        }))))

  -- `EndpointBuilder::build`, whose `expect` of the default endpoint is the error of `bind`.
  unfoldable pub build :
      EndpointBuilder (Parts × BufferedBody E) (Parts' × BufferedBody E')
      → Result ConfigError (Endpoint (Parts × BufferedBody E) (Parts' × BufferedBody E'))
  unfolding into_endpoint
  build b = bind (into_endpoint default_config) (λ default. ok (record {
    request_predicates = unwrap_or b.request_predicates default.request_predicates;
    response_predicates = unwrap_or b.response_predicates default.response_predicates;
    extractors = unwrap_or b.extractors default.extractors;
    policy = b.policy;
  }))
