-- ===== src/Http/Heads.antt =====
-- hitbox-http/src/predicates/{header,request,response,version}: the predicates on the heads of
-- requests and responses. The header map, the methods, the router's patterns, the query parser and
-- the status classes are the crates http's, actix_router's and serde_qs's: parameters.
pub mod Laws
use text.Mathlib.Text.{◌==◌}
use hitbox.Prelude.{
  ℕ, String, Bool, true, false, ◌&&◌, ◌||◌, Option, none, some, List, [], ◌∷◌, leb, if◌then◌else◌,
}
use hitbox.Core.Predicate.{PredicateResult, cacheable, non_cacheable, Predicate}

-- `HeaderMap` with its values, `str::contains` and the regular expressions.
pub record Headers (Map Name Value Regex : Type 0) : Type 0 where
  pub get : Map → Name → Option Value
  pub get_all : Map → Name → List Value
  pub same_header : Value → Value → Bool
  pub to_str : Value → Option String
  pub has_text : String → String → Bool
  pub is_match : Regex → String → Bool

pub data HeaderOperation (Name Value Regex : Type 0) : Type 0 where
  eq : Name → Value → HeaderOperation Name Value Regex
  exist : Name → HeaderOperation Name Value Regex
  in_ : Name → List Value → HeaderOperation Name Value Regex
  contains : Name → String → HeaderOperation Name Value Regex
  regex : Name → Regex → HeaderOperation Name Value Regex

abbrev pub any : {A : Type 0} → (A → Bool) → List A → Bool
any test [] = false
any test (x ∷ xs) = test x || any test xs

abbrev pub is_some : {A : Type 0} → Option A → Bool
is_some none = false
is_some (some a) = true

-- `.map(...).unwrap_or(false)`
abbrev pub or_false : {A : Type 0} → (A → Bool) → Option A → Bool
or_false test none = false
or_false test (some a) = test a

module _ {Map Name Value Regex : Type 0} (h : Headers Map Name Value Regex) where
  unfoldable pub check_header : HeaderOperation Name Value Regex → Map → Bool
  check_header (eq name value) m = any (λ v. h.same_header value v) (h.get_all m name)
  check_header (exist name) m = is_some (h.get m name)
  check_header (in_ name values) m =
      any (λ v. any (λ w. h.same_header w v) values) (h.get_all m name)
  check_header (contains name substring) m =
      any (λ v. or_false (λ s. h.has_text s substring) (h.to_str v)) (h.get_all m name)
  check_header (regex name expression) m =
      any (λ v. or_false (λ s. h.is_match expression s) (h.to_str v)) (h.get_all m name)

-- `Operation` of the method and of the version: equal to one, or to one of some.
pub data OneOf (A : Type 0) : Type 0 where
  eq : A → OneOf A
  in_ : List A → OneOf A

abbrev pub is_one_of : {A : Type 0} → (A → A → Bool) → OneOf A → A → Bool
is_one_of same (OneOf.eq a) b = same b a
is_one_of same (OneOf.in_ as_) b = any (λ a. same a b) as_

-- hitbox-http/src/query.rs
pub data QueryValue : Type 0 where
  scalar : String → QueryValue
  array : List String → QueryValue

abbrev pub inner_values : QueryValue → List String
inner_values (scalar value) = value ∷ []
inner_values (array values) = values

abbrev pub has_value : QueryValue → String → Bool
has_value v value = any (λ w. w == value) (inner_values v)

abbrev pub get_value : String → List (String × QueryValue) → Option QueryValue
get_value name [] = none
get_value name ((n, v) ∷ m) = if n == name then some v else get_value name m

pub data QueryOperation : Type 0 where
  eq : String → String → QueryOperation
  exist : String → QueryOperation
  in_ : String → List String → QueryOperation

unfoldable pub query_matches : QueryOperation → List (String × QueryValue) → Bool
query_matches (QueryOperation.eq name value) m =
    or_false (λ v. has_value v value) (get_value name m)
query_matches (QueryOperation.exist name) m = is_some (get_value name m)
query_matches (QueryOperation.in_ name values) m =
    or_false (λ v. any (λ w. has_value v w) values) (get_value name m)

pub data StatusClass : Type 0 where
  informational success redirect client_error server_error : StatusClass

-- `StatusCode::is_informational` and its kin, by the number of the status.
pub record StatusClasses : Type 0 where
  pub is_informational : ℕ → Bool
  pub is_success : ℕ → Bool
  pub is_redirection : ℕ → Bool
  pub is_client_error : ℕ → Bool
  pub is_server_error : ℕ → Bool

pub data StatusOperation : Type 0 where
  eq : ℕ → StatusOperation
  in_ : List ℕ → StatusOperation
  range : ℕ → ℕ → StatusOperation
  class : StatusClass → StatusOperation

abbrev pub same_status : ℕ → ℕ → Bool
same_status a b = leb a b && leb b a

module _ (s : StatusClasses) where
  unfoldable pub class_matches : StatusClass → ℕ → Bool
  class_matches informational code = s.is_informational code
  class_matches success code = s.is_success code
  class_matches redirect code = s.is_redirection code
  class_matches client_error code = s.is_client_error code
  class_matches server_error code = s.is_server_error code

  unfoldable pub status_matches : StatusOperation → ℕ → Bool
  unfolding class_matches
  status_matches (StatusOperation.eq expected) status = same_status status expected
  status_matches (StatusOperation.in_ codes) status = any (λ c. same_status c status) codes
  status_matches (range start end) status = leb start status && leb status end
  status_matches (class c) status = class_matches c status

-- The match of the predicates on what their inner predicate gave.
module _ {S : Type 0} where
  unfoldable pub guard : (S → Bool) → PredicateResult S → PredicateResult S
  guard test (cacheable s) = if test s then cacheable s else non_cacheable s
  guard test (non_cacheable s) = non_cacheable s

-- What the predicates read of a subject's head, and the libraries' parts of their tests.
pub record Head (S Method Resource Version Map : Type 0) : Type 0 where
  pub method : S → Method
  pub same_method : Method → Method → Bool
  pub path : S → String
  pub is_match_path : Resource → String → Bool
  pub query : S → Option String
  pub parse_query : String → Option (List (String × QueryValue))
  pub headers : S → Map
  pub version : S → Version
  pub same_version : Version → Version → Bool
  pub status : S → ℕ

-- `uri.query().and_then(crate::query::parse)`
abbrev pub parsed :
    (String → Option (List (String × QueryValue)))
    → Option String
    → Option (List (String × QueryValue))
parsed parse none = none
parsed parse (some q) = parse q

module _ {S Method Resource Version Map Name Value Regex : Type 0}
    (head : Head S Method Resource Version Map) (h : Headers Map Name Value Regex)
    (classes : StatusClasses) where
  unfoldable pub header_predicate : HeaderOperation Name Value Regex → Predicate S → Predicate S
  unfolding guard
  header_predicate op inner s = guard (λ x. check_header h op (head.headers x)) (inner s)

  unfoldable pub method_predicate : OneOf Method → Predicate S → Predicate S
  unfolding guard
  method_predicate op inner s = guard (λ x. is_one_of head.same_method op (head.method x)) (inner s)

  unfoldable pub path_predicate : Resource → Predicate S → Predicate S
  unfolding guard
  path_predicate resource inner s = guard (λ x. head.is_match_path resource (head.path x)) (inner s)

  unfoldable pub query_predicate : QueryOperation → Predicate S → Predicate S
  unfolding guard
  query_predicate op inner s =
      guard (λ x. or_false (query_matches op) (parsed head.parse_query (head.query x))) (inner s)

  unfoldable pub status_predicate : StatusOperation → Predicate S → Predicate S
  unfolding guard
  status_predicate op inner s = guard (λ x. status_matches classes op (head.status x)) (inner s)

  unfoldable pub version_predicate : OneOf Version → Predicate S → Predicate S
  unfolding guard
  version_predicate op inner s =
      guard (λ x. is_one_of head.same_version op (head.version x)) (inner s)
