-- ===== src/Config/Leaves/Laws.antt =====
-- What the leaves of configured predicates do, hitbox-configuration/src/predicates.
use hitbox.Prelude.{ℕ, String, Bool, some, List, [], ◌∷◌, ◌≡◌, arith}
use mathlib.Core.Path.{subst}
use hitbox.Core.Predicate.{Predicate}
use hitbox.Core.Response.{ok}
use hitbox.Http.Body.{BufferedBody}
use hitbox.Http.Heads.{OneOf}
use hitbox.Config.Answer.{answer}
use hitbox.Config.Gives.{Gives}
use hitbox.Config.Meaning.{IsTested}
use hitbox.Config.Request as Request
use hitbox.Config.Heads.{PathOperation, ParamOperation, HeaderValue, path_into_predicates}
use hitbox.Config.Heads.Laws.{
  method_holds, version_holds, path_holds, query_holds, header_holds, method_into_predicates-Gives,
  version_into_predicates-Gives, path_into_predicates-Gives, query_into_predicates-Gives,
  header_into_predicates-Gives,
}
use hitbox.Config.Status as Status
use hitbox.Config.Status.Laws.{status_holds, status_into_predicates-Gives}
use hitbox.Config.Leaves.{RequestLeaf, ResponseLeaf, Libraries, request_leaf, response_leaf}

-- The leaves that read the head of a request, or of a response.
pub data RequestHead : Type 0 where
  method : OneOf String → RequestHead
  path : PathOperation → RequestHead
  query : List (String × ParamOperation) → RequestHead
  header : List (String × HeaderValue) → RequestHead
  version : OneOf String → RequestHead

pub data ResponseHead : Type 0 where
  status : Status.Operation → ResponseHead
  header : List (String × HeaderValue) → ResponseHead
  version : OneOf String → ResponseHead

module _ {Json : Type 0} where
  abbrev pub of_request : RequestHead → RequestLeaf Json
  of_request (RequestHead.method op) = RequestLeaf.method op
  of_request (RequestHead.path op) = RequestLeaf.path op
  of_request (RequestHead.query op) = RequestLeaf.query op
  of_request (RequestHead.header op) = RequestLeaf.header op
  of_request (RequestHead.version op) = RequestLeaf.version op

  abbrev pub of_response : ResponseHead → ResponseLeaf Json
  of_response (ResponseHead.status op) = ResponseLeaf.status op
  of_response (ResponseHead.header op) = ResponseLeaf.header op
  of_response (ResponseHead.version op) = ResponseLeaf.version op

module _ {E Parts Method Resource Map Name Value Regex Json Filter BytesRegex : Type 0}
    (lib : Libraries E Parts Method Resource Map Name Value Regex Json Filter BytesRegex)
    (s : Parts × BufferedBody E) where
  unfoldable pub request_holds : RequestHead → Bool → Bool
  request_holds (RequestHead.method op) b =
      method_holds lib.heads lib.head lib.map_ lib.classes s op b
  request_holds (RequestHead.path op) b = path_holds lib.heads lib.head lib.map_ lib.classes s op b
  request_holds (RequestHead.query op) b =
      query_holds lib.heads lib.head lib.map_ lib.classes s op b
  request_holds (RequestHead.header op) b =
      header_holds lib.heads lib.head lib.map_ lib.classes s op b
  request_holds (RequestHead.version op) b =
      version_holds lib.heads lib.head lib.map_ lib.classes s op b

  request_leaf-Gives :
      (p : RequestHead) (b : Bool) (inner : Predicate (Parts × BufferedBody E))
      → inner s ≡ answer s b
      → Gives (λ q. q s ≡ answer s (request_holds p b)) (request_leaf lib (of_request p) inner)
  unfolding request_leaf request_holds
  request_leaf-Gives (RequestHead.method op) b inner e =
      method_into_predicates-Gives lib.heads lib.head lib.map_ lib.classes s b inner e op
  request_leaf-Gives (RequestHead.path op) b inner e =
      path_into_predicates-Gives lib.heads lib.head lib.map_ lib.classes s op b inner e
  request_leaf-Gives (RequestHead.query op) b inner e =
      query_into_predicates-Gives lib.heads lib.head lib.map_ lib.classes s b inner e op
  request_leaf-Gives (RequestHead.header op) b inner e =
      header_into_predicates-Gives lib.heads lib.head lib.map_ lib.classes s b inner e op
  request_leaf-Gives (RequestHead.version op) b inner e =
      version_into_predicates-Gives lib.heads lib.head lib.map_ lib.classes s b inner e op

  pub request_leaf-IsTested : IsTested (λ p. request_leaf lib (of_request p)) request_holds s
  request_leaf-IsTested = record {
    tested = λ p inner q b converted e.
        subst (Gives (λ r. r s ≡ answer s (request_holds p b))) converted
          (request_leaf-Gives p b inner e);
  }

  module _ (same : (code status : ℕ) → lib.from_u16 code ≡ some status → status ≡ code) where
    unfoldable pub response_holds : ResponseHead → Bool → Bool
    response_holds (ResponseHead.status op) b =
        status_holds lib.from_u16 same lib.head lib.map_ lib.classes s op b
    response_holds (ResponseHead.header op) b =
        header_holds lib.heads lib.head lib.map_ lib.classes s op b
    response_holds (ResponseHead.version op) b =
        version_holds lib.heads lib.head lib.map_ lib.classes s op b

    response_leaf-Gives :
        (p : ResponseHead) (b : Bool) (inner : Predicate (Parts × BufferedBody E))
        → inner s ≡ answer s b
        → Gives (λ q. q s ≡ answer s (response_holds p b)) (response_leaf lib (of_response p) inner)
    unfolding response_leaf response_holds
    response_leaf-Gives (ResponseHead.status op) b inner e =
        status_into_predicates-Gives lib.from_u16 same lib.head lib.map_ lib.classes s op b inner e
    response_leaf-Gives (ResponseHead.header op) b inner e =
        header_into_predicates-Gives lib.heads lib.head lib.map_ lib.classes s b inner e op
    response_leaf-Gives (ResponseHead.version op) b inner e =
        version_into_predicates-Gives lib.heads lib.head lib.map_ lib.classes s b inner e op

    pub response_leaf-IsTested : IsTested (λ p. response_leaf lib (of_response p)) response_holds s
    response_leaf-IsTested = record {
      tested = λ p inner q b converted e.
          subst (Gives (λ r. r s ≡ answer s (response_holds p b))) converted
            (response_leaf-Gives p b inner e);
    }

module _ {E Parts Method Resource Map Name Value Regex Json Filter BytesRegex : Type 0}
    (lib : Libraries E Parts Method Resource Map Name Value Regex Json Filter BytesRegex) where
  -- In a flat list of tests on a request, a list of paths that is not empty does not look at the
  -- tests that stand after it: where these can be converted, the predicate is that of the list of
  -- paths alone.
  pub into_predicates-path :
      (p : String) (ps : List String) (rest : List (RequestLeaf Json))
      (q : Predicate (Parts × BufferedBody E))
      → Request.into_predicates (request_leaf lib) (Request.flat rest) ≡ ok q
      → Request.into_predicates
          (request_leaf lib)
          (Request.flat (RequestLeaf.path (PathOperation.in_ (p ∷ ps)) ∷ rest))
        ≡ Request.into_predicates
            (request_leaf lib)
            (Request.flat (RequestLeaf.path (PathOperation.in_ (p ∷ ps)) ∷ []))
  unfolding Request.into_predicates request_leaf path_into_predicates
  into_predicates-path p ps rest q e = ground (arith, e)
