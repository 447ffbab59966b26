-- ===== src/Http/Body/Collect.antt =====
-- hitbox-http/src/body.rs: reading a body, whole by `collect` or its first bytes by `collect_exact`,
-- and the body that is put together again.
use hitbox.Prelude.{ℕ, ◌-◌, Option, none, some, [], ◌∷◌, ◌++◌, leb, ltb, if◌then◌else◌, length}
use hitbox.Core.Response.{Result, ok, err}
use hitbox.Http.Body.{
  Bytes, data_, trailers, Stream, ended, frame, failed, HttpBody, Remaining, body, error,
  BufferedBody, complete, partial, passthrough, new_partial, prefix_len,
}

-- The fields of the constructors, `at_least buffered remaining` and `incomplete buffered error`.
pub data CollectExactResult (E : Type 0) : Type 0 where
  at_least : Bytes → Option (Remaining E) → CollectExactResult E
  incomplete : Option Bytes → Option E → CollectExactResult E

module _ {E : Type 0} where
  unfoldable pub into_buffered_body : CollectExactResult E → BufferedBody E
  into_buffered_body (at_least buffered (some rem)) = partial (new_partial (some buffered) rem)
  into_buffered_body (at_least buffered none) = complete (some buffered)
  into_buffered_body (incomplete buffered (some e)) =
      partial (new_partial buffered (error (some e)))
  into_buffered_body (incomplete buffered none) = complete buffered

-- Empty data leaves the prefix, to which nothing is added then.
unfoldable pub combine_bytes : Option Bytes → Bytes → Bytes
combine_bytes (some prefix) [] = prefix
combine_bytes (some prefix) (b ∷ bs) = prefix ++ (b ∷ bs)
combine_bytes none bytes = bytes

-- `if buffer.is_empty() { None } else { Some(buffer.freeze()) }`
abbrev pub freeze : Bytes → Option Bytes
freeze [] = none
freeze (b ∷ bs) = some (b ∷ bs)

module _ {E : Type 0} where
  -- The loop of `collect_exact_from_stream`, at the buffer it has read so far.
  unfoldable pub collect_loop : Stream E → Bytes → ℕ → CollectExactResult E
  collect_loop ended buffer limit =
      if ltb (length buffer) limit
      then incomplete (freeze buffer) none
      else at_least buffer (some (body ended))
  collect_loop (frame (data_ d) rest) buffer limit =
      let more = collect_loop rest (buffer ++ d) limit in
      if ltb (length buffer) limit
      then more
      else at_least buffer (some (body (frame (data_ d) rest)))
  collect_loop (frame (trailers t) rest) buffer limit =
      let more = collect_loop rest buffer limit in
      if ltb (length buffer) limit
      then more
      else at_least buffer (some (body (frame (trailers t) rest)))
  collect_loop (failed e rest) buffer limit =
      if ltb (length buffer) limit
      then incomplete (freeze buffer) (some e)
      else at_least buffer (some (body (failed e rest)))

  unfoldable pub collect_exact_from_stream : Stream E → ℕ → CollectExactResult E
  unfolding collect_loop
  collect_exact_from_stream stream limit = collect_loop stream [] limit

  -- What was read is put behind the prefix.
  unfoldable pub behind : Option Bytes → CollectExactResult E → CollectExactResult E
  unfolding combine_bytes
  behind prefix (at_least new remaining) = at_least (combine_bytes prefix new) remaining
  behind prefix (incomplete (some new) e) = incomplete (some (combine_bytes prefix new)) e
  behind prefix (incomplete none e) = incomplete prefix e

  -- The match on what remains, where the prefix is shorter than the limit.
  unfoldable pub read_more : Option Bytes → Remaining E → ℕ → CollectExactResult E
  unfolding behind collect_exact_from_stream
  read_more prefix (body stream) limit =
      behind prefix (collect_exact_from_stream stream (limit - prefix_len prefix))
  read_more prefix (error e) limit = incomplete prefix e

  unfoldable pub exact_partial : Option Bytes → Remaining E → ℕ → CollectExactResult E
  unfolding read_more
  exact_partial (some buffered) remaining limit =
      if leb limit (length buffered)
      then at_least buffered (some remaining)
      else read_more (some buffered) remaining limit
  exact_partial none remaining limit = read_more none remaining limit

  unfoldable pub collect_exact : BufferedBody E → ℕ → CollectExactResult E
  unfolding exact_partial collect_exact_from_stream
  collect_exact (complete (some d)) limit =
      if leb limit (length d) then at_least d none else incomplete (some d) none
  collect_exact (complete none) limit = incomplete none none
  collect_exact (partial p) limit = exact_partial p.prefix p.remaining limit
  collect_exact (passthrough stream) limit = collect_exact_from_stream stream limit

module _ {E : Type 0} (http : HttpBody E) where
  unfoldable pub collected : Option Bytes → Result E Bytes → Result (BufferedBody E) Bytes
  collected (some prefix) (ok bytes) = ok (prefix ++ bytes)
  collected none (ok bytes) = ok bytes
  collected prefix (err e) = err (partial (new_partial prefix (error (some e))))

  unfoldable pub collect_remaining : Option Bytes → Remaining E → Result (BufferedBody E) Bytes
  unfolding collected
  collect_remaining prefix (body stream) = collected prefix (http.collect stream)
  collect_remaining prefix (error e) = err (partial (new_partial prefix (error e)))

  unfoldable pub collect : BufferedBody E → Result (BufferedBody E) Bytes
  unfolding collect_remaining collected
  collect (complete (some bytes)) = ok bytes
  collect (complete none) = ok []
  collect (partial p) = collect_remaining p.prefix p.remaining
  collect (passthrough stream) = collected none (http.collect stream)
