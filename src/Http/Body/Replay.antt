-- ===== src/Http/Body/Replay.antt =====
-- What the polls of a body of hitbox-http/src/body.rs give: its content, and then nothing.
use hitbox.Prelude.{ℕ, zero, suc, true, Option, none, some, [], ◌++◌, ◌≡◌, refl, arith}
use mathlib.Core.List.{append-nil}
use hitbox.Core.Response.{Result, ok, err}
use hitbox.Http.Body.{
  Bytes, Frame, data_, trailers, Stream, ended, frame, failed, HttpBody, poll_stream, Remaining,
  body, error, BufferedBody, complete, partial, passthrough, poll_prefix, poll_partial,
  poll_remaining, ended_partial, ended_remaining, poll_frame, is_end_stream, ended_prefix,
}
use hitbox.Http.Body.Content.{stream_content, remaining_content, content}

-- A prefix takes a poll more.
abbrev prefix_polls : Option Bytes → ℕ → ℕ
prefix_polls none n = n
prefix_polls (some d) n = suc n

module _ {E : Type 0} where
  -- The contents before and after a poll, by what it gives.
  abbrev pub Polls : Option (Result E Frame) → Bytes × Option E → Bytes × Option E → Type 0
  Polls none before after = (before ≡ ([], none)) × (after ≡ ([], none))
  Polls (some (ok (data_ d))) before after = before ≡ (d ++ after.0, after.1)
  Polls (some (ok (trailers t))) before after = before ≡ after
  Polls (some (err e)) before after = before ≡ ([], some e)

  poll_stream-Polls :
      (s : Stream E) → Polls (poll_stream s).0 (stream_content s) (stream_content (poll_stream s).1)
  poll_stream-Polls ended = (refl, refl)
  poll_stream-Polls (frame (data_ d) rest) = refl
  poll_stream-Polls (frame (trailers t) rest) = refl
  poll_stream-Polls (failed e rest) = refl

  poll_prefix-Polls :
      (prefix : Option Bytes) (remaining : Remaining E)
      → Polls
          (poll_prefix prefix remaining).0
          (content (partial (record { prefix = prefix; remaining = remaining })))
          (content (partial (poll_prefix prefix remaining).1))
  unfolding poll_prefix
  poll_prefix-Polls (some d) remaining = refl
  poll_prefix-Polls none (body s) = poll_stream-Polls s
  poll_prefix-Polls none (error none) = (refl, refl)
  poll_prefix-Polls none (error (some e)) = refl

  -- A poll of a body refines a step on its content: data are the first bytes of what is left, in
  -- order; trailers leave the content as it is; an error stands for a content without bytes that
  -- ends with it; and the end is given where nothing is left, and nothing is left then.
  pub poll_frame-Polls :
      (b : BufferedBody E) → Polls (poll_frame b).0 (content b) (content (poll_frame b).1)
  unfolding poll_frame poll_partial
  poll_frame-Polls (complete none) = (refl, refl)
  poll_frame-Polls (complete (some d)) = ground (arith, append-nil d)
  poll_frame-Polls (partial p) = poll_prefix-Polls p.prefix p.remaining
  poll_frame-Polls (passthrough s) = poll_stream-Polls s

  -- A reader, which polls until the end or the first error, `fuel` times at most.
  abbrev consume : Option (Result E Frame) → Option (Bytes × Option E) → Option (Bytes × Option E)
  consume none rest = some ([], none)
  consume (some (err e)) rest = some ([], some e)
  consume (some (ok (trailers t))) rest = rest
  consume (some (ok (data_ d))) none = none
  consume (some (ok (data_ d))) (some (bytes, e)) = some (d ++ bytes, e)

  abbrev pub read_all : ℕ → BufferedBody E → Option (Bytes × Option E)
  read_all zero b = none
  read_all (suc fuel) b = let rest = read_all fuel (poll_frame b).1 in consume (poll_frame b).0 rest

  -- The polls that a reader makes at most.
  abbrev pub stream_polls : Stream E → ℕ
  stream_polls ended = 1
  stream_polls (frame f rest) = suc (stream_polls rest)
  stream_polls (failed e rest) = 1

  abbrev remaining_polls : Remaining E → ℕ
  remaining_polls (body s) = stream_polls s
  remaining_polls (error e) = 1

  abbrev pub polls : BufferedBody E → ℕ
  polls (complete d) = prefix_polls d 1
  polls (partial p) = prefix_polls p.prefix (remaining_polls p.remaining)
  polls (passthrough s) = stream_polls s

  read_all-stream :
      (s : Stream E) → read_all (stream_polls s) (passthrough s) ≡ some (stream_content s)
  unfolding poll_frame
  read_all-stream ended = refl
  read_all-stream (frame (data_ d) rest) = ground (arith, read_all-stream rest)
  read_all-stream (frame (trailers t) rest) = read_all-stream rest
  read_all-stream (failed e rest) = refl

  read_all-body :
      (s : Stream E)
      → read_all (stream_polls s) (partial (record { prefix = none; remaining = body s }))
        ≡ some (stream_content s)
  unfolding poll_frame poll_partial poll_prefix poll_remaining
  read_all-body ended = refl
  read_all-body (frame (data_ d) rest) = ground (arith, read_all-body rest)
  read_all-body (frame (trailers t) rest) = read_all-body rest
  read_all-body (failed e rest) = refl

  read_all-remaining :
      (remaining : Remaining E)
      → read_all
          (remaining_polls remaining)
          (partial (record { prefix = none; remaining = remaining }))
        ≡ some (remaining_content remaining)
  unfolding poll_frame poll_partial poll_prefix poll_remaining
  read_all-remaining (body s) = read_all-body s
  read_all-remaining (error none) = refl
  read_all-remaining (error (some e)) = refl

  read_all-prefix :
      (prefix : Option Bytes) (remaining : Remaining E)
      → read_all
          (prefix_polls prefix (remaining_polls remaining))
          (partial (record { prefix = prefix; remaining = remaining }))
        ≡ some (content (partial (record { prefix = prefix; remaining = remaining })))
  unfolding poll_frame poll_partial poll_prefix
  read_all-prefix none remaining = read_all-remaining remaining
  read_all-prefix (some d) remaining = ground (arith, read_all-remaining remaining)

  -- Whoever polls a body until its end or its first error gets its content, within the number of
  -- polls that `polls` counts: the frames of the stream, the prefix and the end.
  pub read_all-content : (b : BufferedBody E) → read_all (polls b) b ≡ some (content b)
  unfolding poll_frame
  read_all-content (complete none) = refl
  read_all-content (complete (some d)) = ground (arith, append-nil d)
  read_all-content (partial p) = read_all-prefix p.prefix p.remaining
  read_all-content (passthrough s) = read_all-stream s

module _ {E : Type 0} (http : HttpBody E)
    (ends : (s : Stream E) → http.is_end_stream s ≡ true → stream_content s ≡ ([], none)) where
  ended_prefix-content :
      (prefix : Option Bytes) (remaining : Remaining E)
      → ended_prefix http prefix remaining ≡ true
      → content (partial (record { prefix = prefix; remaining = remaining })) ≡ ([], none)
  unfolding ended_prefix ended_remaining
  ended_prefix-content (some d) remaining h = ground (arith, h)
  ended_prefix-content none (body s) h = ends s h
  ended_prefix-content none (error none) h = refl
  ended_prefix-content none (error (some e)) h = ground (arith, h)

  -- A body that says its end is reached has no byte and no error left, where that holds of the
  -- stream under it.
  pub is_end_stream-content :
      (b : BufferedBody E) → is_end_stream http b ≡ true → content b ≡ ([], none)
  unfolding is_end_stream ended_partial
  is_end_stream-content (complete none) h = refl
  is_end_stream-content (complete (some d)) h = ground (arith, h)
  is_end_stream-content (partial p) h = ended_prefix-content p.prefix p.remaining h
  is_end_stream-content (passthrough s) h = ends s h
