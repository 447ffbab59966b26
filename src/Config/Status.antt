-- ===== src/Config/Status.antt =====
-- hitbox-configuration/src/predicates/response/status.rs: the configured tests of a status.
-- `StatusCode::from_u16` is the crate http's: a parameter.
pub mod Laws
use hitbox.Prelude.{ℕ, String, Bool, Option, none, some, List, [], ◌∷◌, leb, if◌then◌else◌}
use hitbox.Core.Predicate.{Predicate}
use hitbox.Core.Response.{Result, ok, err}
use hitbox.Http.Heads.{StatusClass, StatusOperation, StatusClasses, Headers, Head, status_predicate}
use hitbox.Config.Error.{ConfigError, invalid_status_code, or_error}
use hitbox.Config.Answer.{bind, collect_all}

-- The enums `Eq`, `In` and `Class`: with a field's name, or without.
pub data Form (A : Type 0) : Type 0 where
  explicit : A → Form A
  implicit : A → Form A

-- `Eq::status`, `In::statuses` and `Class::class`
abbrev pub form_value : {A : Type 0} → Form A → A
form_value (explicit a) = a
form_value (implicit a) = a

pub record Range : Type 0 where
  pub start : ℕ
  pub end_ : ℕ

-- `Range::deserialize`, of two numbers that were read; the error has the first words of its text.
unfoldable pub read_range : ℕ → ℕ → Result String Range
read_range start end_ =
    if leb start end_
    then ok (record { start = start; end_ = end_ })
    else err "Invalid status code range"

pub data Operation : Type 0 where
  range_of : Range → Operation
  class_of : Form StatusClass → Operation
  eq_of : Form ℕ → Operation
  in_of : Form (List ℕ) → Operation

module _ (from_u16 : ℕ → Option ℕ) where
  unfoldable pub parse_status_code : ℕ → Result ConfigError ℕ
  parse_status_code code = or_error (invalid_status_code code) (from_u16 code)

  unfoldable pub parse_status_codes : List ℕ → Result ConfigError (List ℕ)
  unfolding collect_all parse_status_code
  parse_status_codes codes = collect_all parse_status_code codes

  -- What the predicate that `into_predicates` makes looks for.
  unfoldable pub into_operation : Operation → Result ConfigError StatusOperation
  unfolding parse_status_code parse_status_codes
  into_operation (eq_of e) =
      bind (parse_status_code (form_value e)) (λ status. ok (StatusOperation.eq status))
  into_operation (in_of i) =
      bind (parse_status_codes (form_value i)) (λ codes. ok (StatusOperation.in_ codes))
  into_operation (range_of r) =
      bind (parse_status_code r.start)
        (λ start. bind (parse_status_code r.end_) (λ end_. ok (StatusOperation.range start end_)))
  into_operation (class_of c) = ok (StatusOperation.class (form_value c))

  module _ {S Method Resource Version Map Name Value Regex : Type 0}
      (head : Head S Method Resource Version Map) (h : Headers Map Name Value Regex)
      (classes : StatusClasses) where
    unfoldable pub status_into_predicates :
        Operation → Predicate S → Result ConfigError (Predicate S)
    unfolding into_operation
    status_into_predicates op inner =
        bind (into_operation op) (λ o. ok (status_predicate head h classes o inner))
