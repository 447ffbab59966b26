-- ===== src/Config/Transparency.antt =====
-- What configured predicates hand on, whatever their kinds of leaf,
-- hitbox-configuration/src/predicates.
use hitbox.Prelude.{String, List, [], ◌∷◌, ◌≡◌}
use mathlib.Core.Path.{subst}
use hitbox.Core.Response.{ok}
use hitbox.Core.Predicate.{Predicate, or_, neutral}
use hitbox.Http.Body.{Stream, BufferedBody}
use hitbox.Http.Body.Content.{stream_content}
use hitbox.Http.Body.Whole.{outcome}
use hitbox.Http.Operation.Transparency.{Forwards, body_predicate-Forwards}
use hitbox.Http.Operation.{body_predicate}
use hitbox.Http.Heads.{
  OneOf, header_predicate, method_predicate, path_predicate, query_predicate, status_predicate,
  version_predicate, check_header, is_one_of, or_false, query_matches, parsed, status_matches,
}
use hitbox.Config.Answer.{bind}
use hitbox.Config.Gives.{Gives, bind-Gives, any-Gives}
use hitbox.Config.Meaning.{IsKept}
use hitbox.Config.Clear.{IsClear, guard-Forwards, neutral-IsClear, or-IsClear, not-IsClear}
use hitbox.Config.Heads.{
  PathOperation, pattern_, ParamOperation, HeaderValue, to_operation, query_operation, parse_method,
  parse_version, one_of, named_operation, method_into_predicates, version_into_predicates,
  reduce_paths, path_into_predicates, query_fold, query_into_predicates, header_into_predicates,
}
use hitbox.Config.Body.{BodyOperationConfig, into_body_operation, body_into_predicates}
use hitbox.Config.Status as Status
use hitbox.Config.Status.{status_into_predicates}
use hitbox.Config.Leaves.{RequestLeaf, ResponseLeaf, Libraries, request_leaf, response_leaf}
use hitbox.Config.Request as Request
use hitbox.Config.Request.{Request}
use hitbox.Config.Request.Kept as RequestKept
use hitbox.Config.Response as Response
use hitbox.Config.Response.{Response}
use hitbox.Config.Response.Kept as ResponseKept

module _ {E Parts Method Resource Map Name Value Regex Json Filter BytesRegex : Type 0}
    (lib : Libraries E Parts Method Resource Map Name Value Regex Json Filter BytesRegex)
    (collects : (s : Stream E) → lib.http.collect s ≡ outcome (stream_content s)) where
  method-Gives :
      (op : OneOf String) (inner : Predicate (Parts × BufferedBody E))
      → IsClear inner
      → Gives IsClear (method_into_predicates lib.heads lib.head lib.map_ lib.classes op inner)
  unfolding method_into_predicates method_predicate
  method-Gives op inner h =
      bind-Gives (λ o. Unit {0}) IsClear (one_of (parse_method lib.heads) op)
        (λ o. ok (method_predicate lib.head lib.map_ lib.classes o inner))
        (any-Gives (one_of (parse_method lib.heads) op))
        (λ o t s.
          guard-Forwards (λ x. is_one_of lib.head.same_method o (lib.head.method x)) s (inner s)
            (h s))

  version-Gives :
      (op : OneOf String) (inner : Predicate (Parts × BufferedBody E))
      → IsClear inner
      → Gives IsClear (version_into_predicates lib.heads lib.head lib.map_ lib.classes op inner)
  unfolding version_into_predicates version_predicate
  version-Gives op inner h =
      bind-Gives (λ o. Unit {0}) IsClear (one_of (parse_version lib.heads) op)
        (λ o. ok (version_predicate lib.head lib.map_ lib.classes o inner))
        (any-Gives (one_of (parse_version lib.heads) op))
        (λ o t s.
          guard-Forwards (λ x. is_one_of lib.head.same_version o (lib.head.version x)) s (inner s)
            (h s))

  status-Gives :
      (op : Status.Operation) (inner : Predicate (Parts × BufferedBody E))
      → IsClear inner
      → Gives IsClear (status_into_predicates lib.from_u16 lib.head lib.map_ lib.classes op inner)
  unfolding status_into_predicates status_predicate
  status-Gives op inner h =
      bind-Gives (λ o. Unit {0}) IsClear (Status.into_operation lib.from_u16 op)
        (λ o. ok (status_predicate lib.head lib.map_ lib.classes o inner))
        (any-Gives (Status.into_operation lib.from_u16 op))
        (λ o t s.
          guard-Forwards (λ x. status_matches lib.classes o (lib.head.status x)) s (inner s) (h s))

  path-IsClear :
      (p : String) (inner : Predicate (Parts × BufferedBody E))
      → IsClear inner
      → IsClear (path_predicate lib.head lib.map_ lib.classes (lib.heads.resource p) inner)
  unfolding path_predicate
  path-IsClear p inner h s =
      guard-Forwards (λ x. lib.head.is_match_path (lib.heads.resource p) (lib.head.path x)) s
        (inner s) (h s)

  reduce_paths-IsClear :
      (ps : List String) (acc : Predicate (Parts × BufferedBody E))
      → IsClear acc
      → IsClear (reduce_paths lib.heads lib.head lib.map_ lib.classes acc ps)
  unfolding reduce_paths
  reduce_paths-IsClear [] acc h = h
  reduce_paths-IsClear (p ∷ ps) acc h =
      let one = path_predicate lib.head lib.map_ lib.classes (lib.heads.resource p) neutral in
      reduce_paths-IsClear ps (or_ one acc)
        (or-IsClear one acc (path-IsClear p neutral neutral-IsClear) h)

  path-Gives :
      (op : PathOperation) (inner : Predicate (Parts × BufferedBody E))
      → IsClear inner
      → Gives IsClear (path_into_predicates lib.heads lib.head lib.map_ lib.classes op inner)
  unfolding path_into_predicates
  path-Gives (pattern_ p) inner h = path-IsClear p inner h
  path-Gives (PathOperation.in_ []) inner h = tt
  path-Gives (PathOperation.in_ (p ∷ ps)) inner h =
      reduce_paths-IsClear ps
        (path_predicate lib.head lib.map_ lib.classes (lib.heads.resource p) neutral)
        (path-IsClear p neutral neutral-IsClear)

  query-IsClear :
      (params : List (String × ParamOperation)) (inner : Predicate (Parts × BufferedBody E))
      → IsClear inner
      → IsClear (query_fold lib.heads lib.head lib.map_ lib.classes inner params)
  unfolding query_fold query_predicate
  query-IsClear [] inner h s = h s
  query-IsClear ((key, op) ∷ params) inner h s =
      guard-Forwards
        (λ x.
          or_false (query_matches (query_operation key (to_operation op)))
            (parsed lib.head.parse_query (lib.head.query x)))
        s (query_fold lib.heads lib.head lib.map_ lib.classes inner params s)
        (query-IsClear params inner h s)

  header-Gives :
      (headers : List (String × HeaderValue)) (inner : Predicate (Parts × BufferedBody E))
      → IsClear inner
      → Gives IsClear (header_into_predicates lib.heads lib.head lib.map_ lib.classes headers inner)
  unfolding header_into_predicates header_predicate
  header-Gives [] inner h = h
  header-Gives (header ∷ headers) inner h =
      bind-Gives IsClear IsClear
        (header_into_predicates lib.heads lib.head lib.map_ lib.classes headers inner)
        (λ p.
          bind (named_operation lib.heads header)
            (λ o. ok (header_predicate lib.head lib.map_ lib.classes o p)))
        (header-Gives headers inner h)
        (λ p k.
          bind-Gives (λ o. Unit {0}) IsClear (named_operation lib.heads header)
            (λ o. ok (header_predicate lib.head lib.map_ lib.classes o p))
            (any-Gives (named_operation lib.heads header))
            (λ o t s.
              guard-Forwards (λ x. check_header lib.map_ o (lib.head.headers x)) s (p s) (k s)))

  body-Gives :
      (op : BodyOperationConfig Json) (inner : Predicate (Parts × BufferedBody E))
      → IsClear inner
      → Gives IsClear (body_into_predicates lib.bodies lib.http lib.jaq lib.is_match op inner)
  unfolding body_into_predicates
  body-Gives op inner h =
      bind-Gives (λ o. Unit {0}) IsClear (into_body_operation lib.bodies op)
        (λ o. ok (body_predicate lib.http lib.jaq lib.is_match o inner))
        (any-Gives (into_body_operation lib.bodies op))
        (λ o t s. body_predicate-Forwards lib.http lib.jaq lib.is_match collects o inner s (h s))

  request_leaf-Gives :
      (p : RequestLeaf Json) (inner : Predicate (Parts × BufferedBody E))
      → IsClear inner
      → Gives IsClear (request_leaf lib p inner)
  unfolding request_leaf query_into_predicates
  request_leaf-Gives (RequestLeaf.method op) inner h = method-Gives op inner h
  request_leaf-Gives (RequestLeaf.path op) inner h = path-Gives op inner h
  request_leaf-Gives (RequestLeaf.query op) inner h = query-IsClear op inner h
  request_leaf-Gives (RequestLeaf.header op) inner h = header-Gives op inner h
  request_leaf-Gives (RequestLeaf.body op) inner h = body-Gives op inner h
  request_leaf-Gives (RequestLeaf.version op) inner h = version-Gives op inner h

  request_leaf-IsKept : IsKept (request_leaf lib) IsClear
  request_leaf-IsKept = record {
    neutral-Good = neutral-IsClear;
    or-Good = or-IsClear;
    not-Good = not-IsClear;
    leaf-Good = request_leaf-Gives;
  }

  response_leaf-Gives :
      (p : ResponseLeaf Json) (inner : Predicate (Parts × BufferedBody E))
      → IsClear inner
      → Gives IsClear (response_leaf lib p inner)
  unfolding response_leaf
  response_leaf-Gives (ResponseLeaf.status op) inner h = status-Gives op inner h
  response_leaf-Gives (ResponseLeaf.body op) inner h = body-Gives op inner h
  response_leaf-Gives (ResponseLeaf.header op) inner h = header-Gives op inner h
  response_leaf-Gives (ResponseLeaf.version op) inner h = version-Gives op inner h

  response_leaf-IsKept : IsKept (response_leaf lib) IsClear
  response_leaf-IsKept = record {
    neutral-Good = neutral-IsClear;
    or-Good = or-IsClear;
    not-Good = not-IsClear;
    leaf-Good = response_leaf-Gives;
  }

  -- Whatever predicates a configuration has, on requests and on responses, and however they are put
  -- together: if they can be converted, every request and every response is handed on with its parts
  -- and a body of the first bytes of its own, or all, accepted or not. The library's collecting is
  -- taken to give a stream's bytes or its first error.
  pub into_predicates-Forwards :
      (request : Request (RequestLeaf Json)) (response : Response (ResponseLeaf Json))
      (p q : Predicate (Parts × BufferedBody E)) (s : Parts × BufferedBody E)
      → Request.into_predicates (request_leaf lib) request ≡ ok p
      → Response.into_predicates (response_leaf lib) response ≡ ok q
      → Forwards s (p s) × Forwards s (q s)
  into_predicates-Forwards request response p q s e e' = (
    subst (Gives IsClear) e
        (RequestKept.into_predicates-Gives (request_leaf lib) IsClear request_leaf-IsKept request)
        s,
    subst (Gives IsClear) e'
        (ResponseKept.into_predicates-Gives (response_leaf lib) IsClear response_leaf-IsKept
          response)
        s,
  )
