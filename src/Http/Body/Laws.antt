-- ===== src/Http/Body/Laws.antt =====
-- What `collect_exact` of hitbox-http/src/body.rs promises of a body's content.
use hitbox.Prelude.{
  ℕ, ◌+◌, ◌-◌, ◌≤◌, ◌<◌, Bool-cases, Option, none, some, [], ◌∷◌, ◌++◌, leb, length, length-append,
  ◌≡◌, refl, sym, inl, inr, arith,
}
use mathlib.Core.List.{append_assoc, append-nil}
use hitbox.Http.Body.{
  Bytes, data_, trailers, Stream, ended, frame, failed, Remaining, body, error, BufferedBody,
  complete, partial, passthrough, new_partial, prefix_len,
}
use hitbox.Http.Body.Content.{prefix_bytes, stream_content, remaining_content, content}
use hitbox.Http.Body.Collect.{
  CollectExactResult, at_least, incomplete, into_buffered_body, combine_bytes, freeze, collect_loop,
  collect_exact_from_stream, collect_exact, behind, read_more, exact_partial,
}

pub freeze-bytes : (b : Bytes) → prefix_bytes (freeze b) ≡ b
freeze-bytes [] = refl
freeze-bytes (x ∷ b) = refl

freeze-len : (b : Bytes) → prefix_len (freeze b) ≡ length b
freeze-len [] = refl
freeze-len (x ∷ b) = refl

combine-bytes :
    (prefix : Option Bytes) (new : Bytes) → combine_bytes prefix new ≡ prefix_bytes prefix ++ new
unfolding combine_bytes
combine-bytes (some b) [] = sym (append-nil b)
combine-bytes (some b) (x ∷ new) = refl
combine-bytes none new = refl

combine-len :
    (prefix : Option Bytes) (new : Bytes)
    → length (combine_bytes prefix new) ≡ prefix_len prefix + length new
unfolding combine_bytes
combine-len (some b) [] = omega arith
combine-len (some b) (x ∷ new) = length-append b (x ∷ new)
combine-len none new = omega arith

module _ {E : Type 0} where
  collect_loop-content :
      (s : Stream E) (buffer : Bytes) (limit : ℕ)
      → content (into_buffered_body (collect_loop s buffer limit))
        ≡ (buffer ++ (stream_content s).0, (stream_content s).1)
  unfolding into_buffered_body collect_loop
  collect_loop-content ended buffer limit = ground (arith, freeze-bytes buffer, append-nil buffer)
  collect_loop-content (frame (data_ d) rest) buffer limit = ground (
    arith,
    collect_loop-content rest (buffer ++ d) limit,
    append_assoc buffer d (stream_content rest).0,
  )
  collect_loop-content (frame (trailers t) rest) buffer limit =
      ground (arith, collect_loop-content rest buffer limit)
  collect_loop-content (failed e rest) buffer limit =
      ground (arith, freeze-bytes buffer, append-nil buffer)

  behind-content :
      (prefix : Option Bytes) (r : CollectExactResult E)
      → content (into_buffered_body (behind prefix r)) ≡ (
        prefix_bytes prefix ++ (content (into_buffered_body r)).0,
        (content (into_buffered_body r)).1,
      )
  unfolding into_buffered_body behind
  behind-content prefix (at_least new none) = ground (arith, combine-bytes prefix new)
  behind-content prefix (at_least new (some rem)) = ground (
    arith,
    combine-bytes prefix new,
    append_assoc (prefix_bytes prefix) new (remaining_content rem).0,
  )
  behind-content prefix (incomplete none none) = ground (arith, append-nil (prefix_bytes prefix))
  behind-content prefix (incomplete none (some e)) =
      ground (arith, append-nil (prefix_bytes prefix))
  behind-content prefix (incomplete (some new) none) = ground (arith, combine-bytes prefix new)
  behind-content prefix (incomplete (some new) (some e)) =
      ground (arith, combine-bytes prefix new, append_assoc (prefix_bytes prefix) new [])

  read_more-content :
      (prefix : Option Bytes) (remaining : Remaining E) (limit : ℕ)
      → content (into_buffered_body (read_more prefix remaining limit))
        ≡ content (partial (new_partial prefix remaining))
  unfolding read_more collect_exact_from_stream into_buffered_body
  read_more-content prefix (body s) limit = ground (
    arith,
    behind-content prefix (collect_loop s [] (limit - prefix_len prefix)),
    collect_loop-content s [] (limit - prefix_len prefix),
  )
  read_more-content prefix (error none) limit = ground (arith, append-nil (prefix_bytes prefix))
  read_more-content prefix (error (some e)) limit = ground arith

  exact_partial-content :
      (prefix : Option Bytes) (remaining : Remaining E) (limit : ℕ)
      → content (into_buffered_body (exact_partial prefix remaining limit))
        ≡ content (partial (new_partial prefix remaining))
  unfolding exact_partial into_buffered_body
  exact_partial-content none remaining limit = read_more-content none remaining limit
  exact_partial-content (some d) remaining limit =
      ground (arith, read_more-content (some d) remaining limit)

  -- To collect the first bytes of a body, and to put the body together again, keeps its content:
  -- the same bytes in the same order, and the same error behind them or none.
  pub collect_exact-content :
      (b : BufferedBody E) (limit : ℕ)
      → content (into_buffered_body (collect_exact b limit)) ≡ content b
  unfolding collect_exact into_buffered_body collect_exact_from_stream
  collect_exact-content (complete none) limit = refl
  collect_exact-content (complete (some d)) limit = ground arith
  collect_exact-content (passthrough s) limit = ground (arith, collect_loop-content s [] limit)
  collect_exact-content (partial p) limit = exact_partial-content p.prefix p.remaining limit

  -- What the documentation states of the two results, for a limit of a byte or more.
  abbrev pub Sized : ℕ → CollectExactResult E → Type 0
  Sized limit (at_least buffered remaining) = limit ≤ length buffered
  Sized limit (incomplete buffered e) = prefix_len buffered < limit

  collect_loop-Sized :
      (s : Stream E) (buffer : Bytes) (limit : ℕ) → Sized limit (collect_loop s buffer limit)
  unfolding collect_loop
  collect_loop-Sized ended buffer limit = ground (arith, freeze-len buffer)
  collect_loop-Sized (frame (data_ d) rest) buffer limit =
      ground (arith, collect_loop-Sized rest (buffer ++ d) limit)
  collect_loop-Sized (frame (trailers t) rest) buffer limit =
      ground (arith, collect_loop-Sized rest buffer limit)
  collect_loop-Sized (failed e rest) buffer limit = ground (arith, freeze-len buffer)

  behind-Sized :
      (prefix : Option Bytes) (limit : ℕ) (r : CollectExactResult E)
      → prefix_len prefix < limit
      → Sized (limit - prefix_len prefix) r
      → Sized limit (behind prefix r)
  unfolding behind
  behind-Sized prefix limit (at_least new remaining) short h =
      omega (arith, combine-len prefix new, short, h)
  behind-Sized prefix limit (incomplete (some new) e) short h =
      omega (arith, combine-len prefix new, short, h)
  behind-Sized prefix limit (incomplete none e) short h = short

  read_more-Sized :
      (prefix : Option Bytes) (remaining : Remaining E) (limit : ℕ)
      → prefix_len prefix < limit
      → Sized limit (read_more prefix remaining limit)
  unfolding read_more collect_exact_from_stream
  read_more-Sized prefix (body s) limit short =
      behind-Sized prefix limit (collect_loop s [] (limit - prefix_len prefix)) short
        (collect_loop-Sized s [] (limit - prefix_len prefix))
  read_more-Sized prefix (error e) limit short = short

  exact_partial-Sized :
      (prefix : Option Bytes) (remaining : Remaining E) (limit : ℕ)
      → 0 < limit
      → Sized limit (exact_partial prefix remaining limit)
  unfolding exact_partial
  exact_partial-Sized none remaining limit h = read_more-Sized none remaining limit h
  exact_partial-Sized (some d) remaining limit h = elim (Bool-cases (leb limit (length d))) [
    | inl e ↦ ground (arith, e)
    | inr e ↦ ground (arith, e, read_more-Sized (some d) remaining limit (ground (arith, e)))
  ]

  -- For a limit of one byte or more: the result that says it has at least the limit's bytes holds
  -- that many, and the one that says it is incomplete holds fewer.
  pub collect_exact-Sized :
      (b : BufferedBody E) (limit : ℕ) → 0 < limit → Sized limit (collect_exact b limit)
  unfolding collect_exact collect_exact_from_stream
  collect_exact-Sized (complete none) limit h = h
  collect_exact-Sized (complete (some d)) limit h = ground arith
  collect_exact-Sized (passthrough s) limit h = collect_loop-Sized s [] limit
  collect_exact-Sized (partial p) limit h = exact_partial-Sized p.prefix p.remaining limit h
