-- ===== src/Http/Plain.antt =====
-- hitbox-http/src/predicates/body/plain.rs: matching the raw bytes of a body. Regular expressions
-- are the crate regex's: a parameter.
pub mod Search
pub mod Streams
pub mod Laws
use hitbox.Prelude.{
  ℕ, suc, ◌-◌, Bool, true, false, ◌&&◌, ◌||◌, Option, none, some, List, [], ◌∷◌, ◌++◌, ◌==◌, leb,
  if◌then◌else◌, length, take, drop,
}
use hitbox.Core.Response.{Result, ok, err}
use hitbox.Core.Predicate.{PredicateResult, cacheable, non_cacheable}
use hitbox.Http.Body.{
  Bytes, data_, trailers, Stream, ended, frame, failed, HttpBody, Remaining, body, error,
  BufferedBody, complete, partial, passthrough, new_partial,
}
use hitbox.Http.Body.Collect.{
  CollectExactResult, at_least, incomplete, into_buffered_body, freeze, collect_exact, collect,
}

-- Equality, windows, prefixes and suffixes of slices.
abbrev pub same : Bytes → Bytes → Bool
same [] [] = true
same [] (y ∷ ys) = false
same (x ∷ xs) [] = false
same (x ∷ xs) (y ∷ ys) = (x == y) && same xs ys

abbrev pub windows : ℕ → Bytes → List Bytes
windows n [] = []
windows n (x ∷ xs) =
    let rest = windows n xs in if leb n (suc (length xs)) then take n (x ∷ xs) ∷ rest else []

abbrev pub any_same : Bytes → List Bytes → Bool
any_same pattern [] = false
any_same pattern (w ∷ ws) = same w pattern || any_same pattern ws

-- `bytes.windows(pattern.len()).any(|w| w == pattern)`
abbrev pub contains : Bytes → Bytes → Bool
contains pattern bytes = any_same pattern (windows (length pattern) bytes)

abbrev pub starts_with : Bytes → Bytes → Bool
starts_with prefix bytes =
    leb (length prefix) (length bytes) && same (take (length prefix) bytes) prefix

abbrev pub ends_with : Bytes → Bytes → Bool
ends_with suffix bytes =
    leb (length suffix) (length bytes) && same (drop (length bytes - length suffix) bytes) suffix

-- `buffered.as_ref().map(...).unwrap_or(false)`
abbrev pub contained : Bytes → Option Bytes → Bool
contained pattern none = false
contained pattern (some bytes) = contains pattern bytes

module _ {E : Type 0} where
  -- The loop of `streaming_search_body`, at the buffer it has read so far.
  unfoldable pub search_loop : Stream E → Bytes → Bytes → Bool × BufferedBody E
  search_loop ended buffer pattern = (contained pattern (freeze buffer), complete (freeze buffer))
  search_loop (frame (data_ d) rest) buffer pattern =
      let more = search_loop rest (buffer ++ d) pattern in
      let search_start = length buffer - (length pattern - 1) in
      if contains pattern (drop search_start (buffer ++ d))
      then (true, complete (some (buffer ++ d)))
      else more
  search_loop (frame (trailers t) rest) buffer pattern = search_loop rest buffer pattern
  search_loop (failed e rest) buffer pattern =
      (contained pattern (freeze buffer), partial (new_partial (freeze buffer) (error (some e))))

  unfoldable pub streaming_search_body : Option Bytes → Stream E → Bytes → Bool × BufferedBody E
  unfolding search_loop
  streaming_search_body none stream pattern = search_loop stream [] pattern
  streaming_search_body (some prefix) stream pattern = search_loop stream prefix pattern

  unfoldable pub search_remaining : Option Bytes → Remaining E → Bytes → Bool × BufferedBody E
  unfolding streaming_search_body
  search_remaining prefix (body stream) pattern = streaming_search_body prefix stream pattern
  search_remaining prefix (error e) pattern =
      (contained pattern prefix, partial (new_partial prefix (error e)))

  unfoldable pub streaming_search : BufferedBody E → Bytes → Bool × BufferedBody E
  unfolding search_remaining streaming_search_body
  streaming_search b [] = (true, b)
  streaming_search (complete (some bytes)) (x ∷ xs) =
      (contains (x ∷ xs) bytes, complete (some bytes))
  streaming_search (complete none) (x ∷ xs) = (false, complete none)
  streaming_search (partial p) (x ∷ xs) = search_remaining p.prefix p.remaining (x ∷ xs)
  streaming_search (passthrough stream) (x ∷ xs) = streaming_search_body none stream (x ∷ xs)

pub data PlainOperation (Regex : Type 0) : Type 0 where
  eq : Bytes → PlainOperation Regex
  contains_ : Bytes → PlainOperation Regex
  starts : Bytes → PlainOperation Regex
  ends : Bytes → PlainOperation Regex
  reg_exp : Regex → PlainOperation Regex

module _ {E : Type 0} where
  -- `if matches { Cacheable(body) } else { NonCacheable(body) }`
  abbrev pub answer : Bool → BufferedBody E → PredicateResult (BufferedBody E)
  answer matches b = if matches then cacheable b else non_cacheable b

  -- `.map(...).unwrap_or_else(PredicateResult::NonCacheable)`, by the test of the bytes.
  unfoldable pub on_bytes :
      (Bytes → Bool) → Result (BufferedBody E) Bytes → PredicateResult (BufferedBody E)
  on_bytes test (ok bytes) = answer (test bytes) (complete (some bytes))
  on_bytes test (err b) = non_cacheable b

  abbrev pub starts_result : Bytes → CollectExactResult E → Bool
  starts_result prefix (at_least buffered remaining) = starts_with prefix buffered
  starts_result prefix (incomplete buffered e) = false

  unfoldable pub check_starts : Bytes → BufferedBody E → PredicateResult (BufferedBody E)
  check_starts [] b = cacheable b
  check_starts (x ∷ xs) b =
      let result = collect_exact b (length (x ∷ xs)) in
      answer (starts_result (x ∷ xs) result) (into_buffered_body result)

module _ {E Regex : Type 0} (http : HttpBody E) (is_match : Regex → Bytes → Bool) where
  unfoldable pub check_plain :
      PlainOperation Regex → BufferedBody E → PredicateResult (BufferedBody E)
  unfolding on_bytes check_starts
  check_plain (starts prefix) b = check_starts prefix b
  check_plain (eq expected) b = on_bytes (λ bytes. same bytes expected) (collect http b)
  check_plain (contains_ sequence) b =
      let (found, b') = streaming_search b sequence in answer found b'
  check_plain (ends suffix) b = on_bytes (ends_with suffix) (collect http b)
  check_plain (reg_exp regex) b = on_bytes (is_match regex) (collect http b)
