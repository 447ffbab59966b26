-- ===== src/Config/Body.antt =====
-- hitbox-configuration/src/predicates/body/operation.rs: the configured operations on a body. The
-- bytes of a text, and what the crates regex, serde_json and jaq read and compile, are parameters.
use hitbox.Prelude.{ℕ, String, Bool, Option, List}
use hitbox.Core.Predicate.{Predicate}
use hitbox.Core.Response.{Result, ok, err}
use hitbox.Http.Body.{Bytes, HttpBody, BufferedBody}
use hitbox.Http.Plain.{PlainOperation, reg_exp}
use hitbox.Http.Operation.{Jaq, JqOperation, Operation, body_predicate}
use hitbox.Config.Error.{ConfigError, invalid_regex, invalid_predicate, or_error}
use hitbox.Config.Answer.{bind}

-- `JqExpression::compile` gives the text of its error.
pub record BodyParsers (Json Filter Regex : Type 0) : Type 0 where
  pub bytes_of : String → Bytes
  pub new_regex : String → Option Regex
  pub compile : String → Result String Filter
  pub json_true : Json

pub data JqOperationConfig (Json : Type 0) : Type 0 where
  eq : Json → JqOperationConfig Json
  exist : Bool → JqOperationConfig Json
  in_ : List Json → JqOperationConfig Json

pub data JqConfig (Json : Type 0) : Type 0 where
  implicit : String → JqConfig Json
  explicit : String → JqOperationConfig Json → JqConfig Json

pub data BodyOperationConfig (Json : Type 0) : Type 0 where
  contains : String → BodyOperationConfig Json
  starts : String → BodyOperationConfig Json
  ends : String → BodyOperationConfig Json
  eq : String → BodyOperationConfig Json
  regex : String → BodyOperationConfig Json
  limit : ℕ → BodyOperationConfig Json
  jq : JqConfig Json → BodyOperationConfig Json

unfoldable pub jq_operation : {Json : Type 0} → JqOperationConfig Json → JqOperation Json
jq_operation (JqOperationConfig.eq value) = JqOperation.eq value
jq_operation (JqOperationConfig.exist b) = JqOperation.exist
jq_operation (JqOperationConfig.in_ values) = JqOperation.in_ values

module _ {Json Filter Regex : Type 0} (lib : BodyParsers Json Filter Regex) where
  -- `JqExpression::compile(...).map_err(ConfigError::InvalidPredicate)`
  abbrev pub compiled : Result String Filter → Result ConfigError Filter
  compiled (ok filter) = ok filter
  compiled (err message) = err (invalid_predicate message)

  -- The expression and the operation of a `JqConfig`.
  unfoldable pub jq_parts : JqConfig Json → String × JqOperation Json
  unfolding jq_operation
  jq_parts (implicit expression) = (expression, JqOperation.eq lib.json_true)
  jq_parts (explicit expression operation) = (expression, jq_operation operation)

  unfoldable pub into_body_operation :
      BodyOperationConfig Json → Result ConfigError (Operation Json Filter Regex)
  unfolding jq_parts
  into_body_operation (BodyOperationConfig.contains s) =
      ok (Operation.plain (PlainOperation.contains_ (lib.bytes_of s)))
  into_body_operation (BodyOperationConfig.starts s) =
      ok (Operation.plain (PlainOperation.starts (lib.bytes_of s)))
  into_body_operation (BodyOperationConfig.ends s) =
      ok (Operation.plain (PlainOperation.ends (lib.bytes_of s)))
  into_body_operation (BodyOperationConfig.eq s) =
      ok (Operation.plain (PlainOperation.eq (lib.bytes_of s)))
  into_body_operation (BodyOperationConfig.regex source) =
      bind (or_error (invalid_regex source) (lib.new_regex source))
        (λ r. ok (Operation.plain (reg_exp r)))
  into_body_operation (BodyOperationConfig.limit bytes) = ok (Operation.limit bytes)
  into_body_operation (BodyOperationConfig.jq config) =
      let (expression, operation) = jq_parts config in
      bind (compiled (lib.compile expression)) (λ filter. ok (Operation.jq filter operation))

  module _ {E Parts : Type 0} (http : HttpBody E) (jaq : Jaq Json Filter)
      (is_match : Regex → Bytes → Bool) where
    unfoldable pub body_into_predicates :
        BodyOperationConfig Json
        → Predicate (Parts × BufferedBody E)
        → Result ConfigError (Predicate (Parts × BufferedBody E))
    unfolding into_body_operation
    body_into_predicates config inner =
        bind (into_body_operation config) (λ op. ok (body_predicate http jaq is_match op inner))
