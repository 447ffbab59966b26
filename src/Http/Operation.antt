-- ===== src/Http/Operation.antt =====
-- hitbox-http/src/predicates/body/{operation,jq,predicate}.rs: the operations on a body and the
-- predicate `Body` that runs one behind an inner predicate. The JSON values and the runs of jq
-- filters are the crates serde_json's and jaq's: parameters.
pub mod Laws
pub mod Transparency
use hitbox.Prelude.{
  ℕ, ◌+◌, ◌%◌, ◌^◌, Bool, true, false, ◌||◌, Option, none, some, List, [], ◌∷◌, ltb, if◌then◌else◌,
}
use hitbox.Core.Response.{Result, ok, err}
use hitbox.Core.Predicate.{PredicateResult, cacheable, non_cacheable, Predicate}
use hitbox.Http.Body.{Bytes, HttpBody, BufferedBody, complete, size_hint}
use hitbox.Http.Body.Collect.{
  CollectExactResult, at_least, incomplete, into_buffered_body, collect_exact, collect,
}
use hitbox.Http.Plain.{PlainOperation, answer, check_plain}

-- `serde_json::from_slice`, the run of a compiled filter (none where one of its results is an
-- error), the null of the results, the array of JSON values and their equality.
pub record Jaq (Json Filter : Type 0) : Type 0 where
  pub from_slice : Bytes → Option Json
  pub run : Filter → Json → Option (List Json)
  pub is_null : Json → Bool
  pub array : List Json → Json
  pub same_json : Json → Json → Bool

pub data JqOperation (Json : Type 0) : Type 0 where
  eq : Json → JqOperation Json
  exist : JqOperation Json
  in_ : List Json → JqOperation Json

-- `Operation` with its two types of compiled expressions.
pub data Operation (Json Filter Regex : Type 0) : Type 0 where
  limit : ℕ → Operation Json Filter Regex
  plain : PlainOperation Regex → Operation Json Filter Regex
  jq : Filter → JqOperation Json → Operation Json Filter Regex

module _ {Json Filter : Type 0} (jaq : Jaq Json Filter) where
  -- The match of `JqExpression::apply` on the results of the filter.
  unfoldable pub found_value : Option (List Json) → Option Json
  found_value none = none
  found_value (some []) = none
  found_value (some (v ∷ [])) = if jaq.is_null v then none else some v
  found_value (some (v ∷ w ∷ vs)) = some (jaq.array (v ∷ w ∷ vs))

  unfoldable pub apply : Filter → Json → Option Json
  unfolding found_value
  apply filter input = found_value (jaq.run filter input)

  -- `values.contains(v)`
  abbrev pub has_json : List Json → Json → Bool
  has_json [] v = false
  has_json (x ∷ xs) v = jaq.same_json x v || has_json xs v

  unfoldable pub jq_matches : JqOperation Json → Option Json → Bool
  jq_matches (eq expected) (some v) = jaq.same_json v expected
  jq_matches exist (some v) = true
  jq_matches (in_ values) (some v) = has_json values v
  jq_matches operation none = false

  module _ {E : Type 0} where
    unfoldable pub jq_json :
        JqOperation Json → Filter → Bytes → Option Json → PredicateResult (BufferedBody E)
    unfolding jq_matches
    jq_json operation filter bytes none = non_cacheable (complete (some bytes))
    jq_json operation filter bytes (some json) =
        answer (jq_matches operation (apply filter json)) (complete (some bytes))

    unfoldable pub jq_bytes :
        JqOperation Json → Filter → Result (BufferedBody E) Bytes → PredicateResult (BufferedBody E)
    unfolding jq_json
    jq_bytes operation filter (ok bytes) = jq_json operation filter bytes (jaq.from_slice bytes)
    jq_bytes operation filter (err b) = non_cacheable b

-- `if let Some(upper) = body.size_hint().upper() && upper > *bytes as u64`
abbrev pub over : ℕ → Option ℕ → Bool
over bytes none = false
over bytes (some upper) = ltb bytes upper

module _ {E : Type 0} where
  unfoldable pub limit_result : CollectExactResult E → PredicateResult (BufferedBody E)
  limit_result (at_least buffered remaining) =
      non_cacheable (into_buffered_body (at_least buffered remaining))
  limit_result (incomplete buffered (some e)) =
      non_cacheable (into_buffered_body (incomplete buffered (some e)))
  limit_result (incomplete buffered none) =
      cacheable (into_buffered_body (incomplete buffered none))

  -- A usize has 64 bits, and `*bytes + 1` wraps around.
  unfoldable pub check_limit : HttpBody E → ℕ → BufferedBody E → PredicateResult (BufferedBody E)
  check_limit http bytes b =
      if over bytes (size_hint http b).upper
      then non_cacheable b
      else limit_result (collect_exact b ((bytes + 1) % 2 ^ 64))

module _ {E Parts : Type 0} where
  -- A subject is its parts and its body: `into_parts` and `from_parts` of `CacheableSubject`.
  abbrev pub rebuild :
      Bool → Parts → PredicateResult (BufferedBody E) → PredicateResult (Parts × BufferedBody E)
  rebuild true parts (cacheable b) = cacheable (parts, b)
  rebuild false parts (cacheable b) = non_cacheable (parts, b)
  rebuild was_cacheable parts (non_cacheable b) = non_cacheable (parts, b)

module _ {E Json Filter Regex : Type 0} (http : HttpBody E) (jaq : Jaq Json Filter)
    (is_match : Regex → Bytes → Bool) where
  unfoldable pub check :
      Operation Json Filter Regex → BufferedBody E → PredicateResult (BufferedBody E)
  check (limit bytes) b = check_limit http bytes b
  check (plain op) b = check_plain http is_match op b
  check (jq filter operation) b = jq_bytes jaq operation filter (collect http b)

  unfoldable pub after_inner :
      {Parts : Type 0}
      → Operation Json Filter Regex
      → PredicateResult (Parts × BufferedBody E)
      → PredicateResult (Parts × BufferedBody E)
  unfolding check
  after_inner op (cacheable (parts, b)) = rebuild true parts (check op b)
  after_inner op (non_cacheable (parts, b)) = rebuild false parts (check op b)

  unfoldable pub body_predicate :
      {Parts : Type 0}
      → Operation Json Filter Regex
      → Predicate (Parts × BufferedBody E)
      → Predicate (Parts × BufferedBody E)
  unfolding after_inner
  body_predicate op inner subject = after_inner op (inner subject)
