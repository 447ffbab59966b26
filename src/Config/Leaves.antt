-- ===== src/Config/Leaves.antt =====
-- hitbox-configuration/src/predicates/request/predicate.rs and response/mod.rs: the leaves of the
-- trees, with the configured operation of each kind.
pub mod Laws
use hitbox.Prelude.{ℕ, String, Bool, Option, List}
use hitbox.Core.Predicate.{Predicate}
use hitbox.Core.Response.{Result}
use hitbox.Http.Body.{Bytes, HttpBody, BufferedBody}
use hitbox.Http.Operation.{Jaq}
use hitbox.Http.Response.{Version}
use hitbox.Http.Heads.{Headers, OneOf, StatusClasses, Head}
use hitbox.Config.Error.{ConfigError}
use hitbox.Config.Heads.{
  Parsers, PathOperation, ParamOperation, HeaderValue, method_into_predicates,
  version_into_predicates, path_into_predicates, query_into_predicates, header_into_predicates,
}
use hitbox.Config.Status.{status_into_predicates}
use hitbox.Config.Status as Status
use hitbox.Config.Body.{BodyParsers, BodyOperationConfig, body_into_predicates}

pub data RequestLeaf (Json : Type 0) : Type 0 where
  method : OneOf String → RequestLeaf Json
  path : PathOperation → RequestLeaf Json
  query : List (String × ParamOperation) → RequestLeaf Json
  header : List (String × HeaderValue) → RequestLeaf Json
  body : BodyOperationConfig Json → RequestLeaf Json
  version : OneOf String → RequestLeaf Json

pub data ResponseLeaf (Json : Type 0) : Type 0 where
  status : Status.Operation → ResponseLeaf Json
  body : BodyOperationConfig Json → ResponseLeaf Json
  header : List (String × HeaderValue) → ResponseLeaf Json
  version : OneOf String → ResponseLeaf Json

-- What the libraries give to heads and bodies.
pub record Libraries (E Parts Method Resource Map Name Value Regex Json Filter BytesRegex : Type 0)
    : Type 0 where
  pub heads : Parsers Method Resource Name Value Regex
  pub head : Head (Parts × BufferedBody E) Method Resource Version Map
  pub map_ : Headers Map Name Value Regex
  pub classes : StatusClasses
  pub from_u16 : ℕ → Option ℕ
  pub bodies : BodyParsers Json Filter BytesRegex
  pub http : HttpBody E
  pub jaq : Jaq Json Filter
  pub is_match : BytesRegex → Bytes → Bool

module _ {E Parts Method Resource Map Name Value Regex Json Filter BytesRegex : Type 0}
    (lib : Libraries E Parts Method Resource Map Name Value Regex Json Filter BytesRegex) where
  -- `Predicate::into_predicates` of requests.
  unfoldable pub request_leaf :
      RequestLeaf Json
      → Predicate (Parts × BufferedBody E)
      → Result ConfigError (Predicate (Parts × BufferedBody E))
  request_leaf (RequestLeaf.method op) inner =
      method_into_predicates lib.heads lib.head lib.map_ lib.classes op inner
  request_leaf (RequestLeaf.path op) inner =
      path_into_predicates lib.heads lib.head lib.map_ lib.classes op inner
  request_leaf (RequestLeaf.query op) inner =
      query_into_predicates lib.heads lib.head lib.map_ lib.classes op inner
  request_leaf (RequestLeaf.header op) inner =
      header_into_predicates lib.heads lib.head lib.map_ lib.classes op inner
  request_leaf (RequestLeaf.body op) inner =
      body_into_predicates lib.bodies lib.http lib.jaq lib.is_match op inner
  request_leaf (RequestLeaf.version op) inner =
      version_into_predicates lib.heads lib.head lib.map_ lib.classes op inner

  -- `Predicate::into_predicates` of responses.
  unfoldable pub response_leaf :
      ResponseLeaf Json
      → Predicate (Parts × BufferedBody E)
      → Result ConfigError (Predicate (Parts × BufferedBody E))
  response_leaf (ResponseLeaf.status op) inner =
      status_into_predicates lib.from_u16 lib.head lib.map_ lib.classes op inner
  response_leaf (ResponseLeaf.body op) inner =
      body_into_predicates lib.bodies lib.http lib.jaq lib.is_match op inner
  response_leaf (ResponseLeaf.header op) inner =
      header_into_predicates lib.heads lib.head lib.map_ lib.classes op inner
  response_leaf (ResponseLeaf.version op) inner =
      version_into_predicates lib.heads lib.head lib.map_ lib.classes op inner
