-- ===== src/Config/Heads.antt =====
-- hitbox-configuration/src/predicates/{version,header}.rs and request/{method,path,query}.rs: the
-- configured tests of a head. What the crates http, regex and actix_router parse is a parameter.
pub mod Laws
use text.Mathlib.Text.{◌==◌}
use hitbox.Prelude.{
  String, Bool, true, false, ◌||◌, Option, none, some, List, [], ◌∷◌, map, if◌then◌else◌,
}
use hitbox.Core.Predicate.{Predicate, or_, neutral}
use hitbox.Core.Response.{Result, ok, err}
use hitbox.Http.Response.{Version, http_09, http_10, http_11, http_2, http_3}
use hitbox.Http.Heads.{
  Headers, HeaderOperation, OneOf, QueryOperation, StatusClasses, Head, header_predicate,
  method_predicate, path_predicate, query_predicate, version_predicate,
}
use hitbox.Config.Error.{
  ConfigError, invalid_header_name, invalid_header_value, invalid_method, invalid_version,
  invalid_regex, empty_path_list, or_error,
}
use hitbox.Config.Answer.{bind, collect_all, try_rfold}

-- `str::parse`, `Regex::new`, the pattern of a path and `to_uppercase`.
pub record Parsers (Method Resource Name Value Regex : Type 0) : Type 0 where
  pub parse_method : String → Option Method
  pub parse_name : String → Option Name
  pub parse_value : String → Option Value
  pub new_regex : String → Option Regex
  pub resource : String → Resource
  pub to_uppercase : String → String

-- `MethodOperation` and `VersionOperationConfig` are `OneOf String`.

pub data PathOperation : Type 0 where
  pattern_ : String → PathOperation
  in_ : List String → PathOperation

-- `QueryParamValue`; an integer is its printed form.
pub data QueryParamValue : Type 0 where
  string : String → QueryParamValue
  integer : String → QueryParamValue
  boolean : Bool → QueryParamValue

-- The value of `exists` is not looked at.
pub data ParamOperation : Type 0 where
  explicit_eq : QueryParamValue → ParamOperation
  explicit_in : List QueryParamValue → ParamOperation
  explicit_exists : ParamOperation
  implicit_in : List QueryParamValue → ParamOperation
  implicit_eq : QueryParamValue → ParamOperation

-- The canonical `Operation` of query.rs.
pub data ParamTest : Type 0 where
  eq : String → ParamTest
  in_ : List String → ParamTest
  exists : ParamTest

unfoldable pub to_string : QueryParamValue → String
to_string (string s) = s
to_string (integer i) = i
to_string (boolean true) = "true"
to_string (boolean false) = "false"

unfoldable pub to_operation : ParamOperation → ParamTest
unfolding to_string
to_operation (explicit_eq v) = ParamTest.eq (to_string v)
to_operation (implicit_eq v) = ParamTest.eq (to_string v)
to_operation (explicit_in vs) = ParamTest.in_ (map to_string vs)
to_operation (implicit_in vs) = ParamTest.in_ (map to_string vs)
to_operation explicit_exists = exists

-- The match of the closure of `QueryOperation::into_predicates`.
unfoldable pub query_operation : String → ParamTest → QueryOperation
query_operation key (ParamTest.eq value) = QueryOperation.eq key value
query_operation key (ParamTest.in_ values) = QueryOperation.in_ key values
query_operation key exists = QueryOperation.exist key

pub data HeaderValueOperation : Type 0 where
  eq : String → HeaderValueOperation
  in_ : List String → HeaderValueOperation
  contains : String → HeaderValueOperation
  regex : String → HeaderValueOperation
  exist : HeaderValueOperation

pub data HeaderValue : Type 0 where
  eq : String → HeaderValue
  in_ : List String → HeaderValue
  operation : HeaderValueOperation → HeaderValue

-- The match of `parse_version` on the text in upper case.
unfoldable pub version_of : String → Option Version
version_of v =
    if (v == "HTTP/0.9") || (v == "0.9")
    then some http_09
    else (if (v == "HTTP/1.0") || (v == "1.0")
        then some http_10
        else (if (v == "HTTP/1.1") || (v == "1.1")
            then some http_11
            else (if (v == "HTTP/2") || ((v == "HTTP/2.0") || ((v == "2") || (v == "2.0")))
                then some http_2
                else (if (v == "HTTP/3") || ((v == "HTTP/3.0") || ((v == "3") || (v == "3.0")))
                    then some http_3
                    else none))))

-- `VersionOperationConfig::into_operation`, and the operations of `MethodOperation`.
unfoldable pub one_of :
    {A : Type 0} → (String → Result ConfigError A) → OneOf String → Result ConfigError (OneOf A)
unfolding collect_all
one_of parse (OneOf.eq text) = bind (parse text) (λ a. ok (OneOf.eq a))
one_of parse (OneOf.in_ texts) = bind (collect_all parse texts) (λ as_. ok (OneOf.in_ as_))

module _ {Method Resource Name Value Regex : Type 0}
    (lib : Parsers Method Resource Name Value Regex) where
  unfoldable pub parse_method : String → Result ConfigError Method
  parse_method m = or_error (invalid_method m) (lib.parse_method m)

  unfoldable pub parse_version : String → Result ConfigError Version
  unfolding version_of
  parse_version v = or_error (invalid_version v) (version_of (lib.to_uppercase v))

  unfoldable pub parse_header_name : String → Result ConfigError Name
  parse_header_name n = or_error (invalid_header_name n) (lib.parse_name n)

  unfoldable pub parse_header_value : String → Result ConfigError Value
  parse_header_value v = or_error (invalid_header_value v) (lib.parse_value v)

  eq_value : Name → String → Result ConfigError (HeaderOperation Name Value Regex)
  unfolding parse_header_value
  eq_value name value = bind (parse_header_value value) (λ v. ok (HeaderOperation.eq name v))

  in_values : Name → List String → Result ConfigError (HeaderOperation Name Value Regex)
  unfolding parse_header_value collect_all
  in_values name values =
      bind (collect_all parse_header_value values) (λ vs. ok (HeaderOperation.in_ name vs))

  unfoldable pub header_value_to_operation :
      Name → HeaderValue → Result ConfigError (HeaderOperation Name Value Regex)
  unfolding eq_value in_values
  header_value_to_operation name (HeaderValue.eq value) = eq_value name value
  header_value_to_operation name (HeaderValue.in_ values) = in_values name values
  header_value_to_operation name (operation (HeaderValueOperation.eq value)) = eq_value name value
  header_value_to_operation name (operation (HeaderValueOperation.in_ values)) =
      in_values name values
  header_value_to_operation name (operation (HeaderValueOperation.contains substring)) =
      ok (HeaderOperation.contains name substring)
  header_value_to_operation name (operation (HeaderValueOperation.regex source)) =
      bind (or_error (invalid_regex source) (lib.new_regex source))
        (λ r. ok (HeaderOperation.regex name r))
  header_value_to_operation name (operation HeaderValueOperation.exist) =
      ok (HeaderOperation.exist name)

  -- The two lines of the closure of `into_predicates` that can fail.
  unfoldable pub named_operation :
      String × HeaderValue → Result ConfigError (HeaderOperation Name Value Regex)
  unfolding parse_header_name header_value_to_operation
  named_operation (name, value) =
      bind (parse_header_name name) (λ n. header_value_to_operation n value)

  module _ {S Map : Type 0} (head : Head S Method Resource Version Map)
      (h : Headers Map Name Value Regex) (classes : StatusClasses) where
    unfoldable pub method_into_predicates :
        OneOf String → Predicate S → Result ConfigError (Predicate S)
    unfolding one_of parse_method
    method_into_predicates op inner =
        bind (one_of parse_method op) (λ o. ok (method_predicate head h classes o inner))

    unfoldable pub version_into_predicates :
        OneOf String → Predicate S → Result ConfigError (Predicate S)
    unfolding one_of parse_version
    version_into_predicates op inner =
        bind (one_of parse_version op) (λ o. ok (version_predicate head h classes o inner))

    -- The `reduce` of `PathOperation::In`, whose predicates begin with neutral ones.
    unfoldable pub reduce_paths : Predicate S → List String → Predicate S
    reduce_paths acc [] = acc
    reduce_paths acc (p ∷ patterns) =
        reduce_paths (or_ (path_predicate head h classes (lib.resource p) neutral) acc) patterns

    unfoldable pub path_into_predicates :
        PathOperation → Predicate S → Result ConfigError (Predicate S)
    unfolding reduce_paths
    path_into_predicates (pattern_ p) inner =
        ok (path_predicate head h classes (lib.resource p) inner)
    path_into_predicates (PathOperation.in_ []) inner = err empty_path_list
    path_into_predicates (PathOperation.in_ (p ∷ patterns)) inner =
        ok (reduce_paths (path_predicate head h classes (lib.resource p) neutral) patterns)

    -- The `rfold` of `QueryOperation`.
    unfoldable pub query_fold : Predicate S → List (String × ParamOperation) → Predicate S
    unfolding to_operation query_operation
    query_fold inner [] = inner
    query_fold inner ((key, op) ∷ params) =
        query_predicate head h classes (query_operation key (to_operation op))
          (query_fold inner params)

    unfoldable pub query_into_predicates :
        List (String × ParamOperation) → Predicate S → Result ConfigError (Predicate S)
    unfolding query_fold
    query_into_predicates params inner = ok (query_fold inner params)

    -- request/header.rs and response/header.rs.
    unfoldable pub header_into_predicates :
        List (String × HeaderValue) → Predicate S → Result ConfigError (Predicate S)
    unfolding named_operation try_rfold
    header_into_predicates headers inner =
        try_rfold
          (λ p header.
            bind (named_operation header) (λ o. ok (header_predicate head h classes o p)))
          inner headers
