-- ===== src/Http/Body.antt =====
-- hitbox-http/src/body.rs: bodies that are buffered in part. The body `B` of the server or client is
-- the crate http_body's: what its polls give in order, up to its end, and a record of the rest of
-- its interface. A poll that is pending changes nothing and is left out.
pub mod Collect
pub mod Content
pub mod Laws
pub mod Replay
pub mod Whole
use hitbox.Prelude.{
  ℕ, zero, suc, ◌+◌, ◌-◌, ◌^◌, Bool, true, false, not, Option, none, some, List, [], ◌++◌, leb, ltb,
  if◌then◌else◌, length, String,
}
use hitbox.Core.Response.{Result, ok, err}

abbrev pub Bytes : Type 0
Bytes = List ℕ

-- `http_body::Frame`, its data read out as bytes.
pub data Frame : Type 0 where
  data_ : Bytes → Frame
  trailers : List (String × String) → Frame

-- What the polls of a body give.
pub data Stream (E : Type 0) : Type 0 where
  ended : Stream E
  frame : Frame → Stream E → Stream E
  failed : E → Stream E → Stream E

-- `http_body::SizeHint`
pub record SizeHint : Type 0 where
  pub lower : ℕ
  pub upper : Option ℕ

-- The rest of `http_body::Body`, and `BodyExt::collect` with `Collected::to_bytes`.
pub record HttpBody (E : Type 0) : Type 0 where
  pub size_hint : Stream E → SizeHint
  pub is_end_stream : Stream E → Bool
  pub collect : Stream E → Result E Bytes

abbrev pub with_exact : ℕ → SizeHint
with_exact n = record { lower = n; upper = some n }

-- The largest u64, and `u64::saturating_add`.
abbrev pub u64_max : ℕ
u64_max = 2 ^ 64 - 1

abbrev pub saturating_add : ℕ → ℕ → ℕ
saturating_add a b = if leb (a + b) u64_max then a + b else u64_max

abbrev pub max : ℕ → ℕ → ℕ
max a b = if leb a b then b else a

module _ {E : Type 0} where
  -- `poll_frame` of the body itself.
  abbrev pub poll_stream : Stream E → Option (Result E Frame) × Stream E
  poll_stream ended = (none, ended)
  poll_stream (frame f rest) = (some (ok f), rest)
  poll_stream (failed e rest) = (some (err e), rest)

pub data Remaining (E : Type 0) : Type 0 where
  body : Stream E → Remaining E
  error : Option E → Remaining E

pub record PartialBufferedBody (E : Type 0) : Type 0 where
  pub prefix : Option Bytes
  pub remaining : Remaining E

pub data BufferedBody (E : Type 0) : Type 0 where
  complete : Option Bytes → BufferedBody E
  partial : PartialBufferedBody E → BufferedBody E
  passthrough : Stream E → BufferedBody E

module _ {E : Type 0} where
  abbrev pub new_partial : Option Bytes → Remaining E → PartialBufferedBody E
  new_partial prefix remaining = record { prefix = prefix; remaining = remaining }

  abbrev pub into_parts : PartialBufferedBody E → Option Bytes × Remaining E
  into_parts p = (p.prefix, p.remaining)

  unfoldable pub poll_remaining : Remaining E → Option (Result E Frame) × Remaining E
  poll_remaining (body b) = let (polled, b') = poll_stream b in (polled, body b')
  poll_remaining (error (some e)) = (some (err e), error none)
  poll_remaining (error none) = (none, error none)

  unfoldable pub poll_prefix :
      Option Bytes → Remaining E → Option (Result E Frame) × PartialBufferedBody E
  unfolding poll_remaining
  poll_prefix (some prefix) remaining = (some (ok (data_ prefix)), new_partial none remaining)
  poll_prefix none remaining =
      let (polled, remaining') = poll_remaining remaining in (polled, new_partial none remaining')

  unfoldable pub poll_partial :
      PartialBufferedBody E → Option (Result E Frame) × PartialBufferedBody E
  unfolding poll_prefix
  poll_partial p = poll_prefix p.prefix p.remaining

  unfoldable pub poll_frame : BufferedBody E → Option (Result E Frame) × BufferedBody E
  unfolding poll_partial
  poll_frame (complete (some bytes)) = (some (ok (data_ bytes)), complete none)
  poll_frame (complete none) = (none, complete none)
  poll_frame (partial p) = let (polled, p') = poll_partial p in (polled, partial p')
  poll_frame (passthrough b) = let (polled, b') = poll_stream b in (polled, passthrough b')

-- `prefix.as_ref().map(|b| b.len()).unwrap_or(0)`
abbrev pub prefix_len : Option Bytes → ℕ
prefix_len none = 0
prefix_len (some b) = length b

-- The upper bound that `PartialBufferedBody::size_hint` sets.
abbrev pub raise_upper : ℕ → ℕ → Option ℕ → Option ℕ
raise_upper len lower none = none
raise_upper len lower (some u) = some (max (saturating_add u len) lower)

module _ {E : Type 0} (http : HttpBody E) where
  unfoldable pub hint_remaining : ℕ → Remaining E → SizeHint
  hint_remaining len (body b) =
      let hint = http.size_hint b in
      let lower = saturating_add hint.lower len in
      record { lower = lower; upper = raise_upper len lower hint.upper }
  hint_remaining len (error e) = with_exact len

  unfoldable pub hint_partial : PartialBufferedBody E → SizeHint
  unfolding hint_remaining
  hint_partial p = hint_remaining (prefix_len p.prefix) p.remaining

  unfoldable pub size_hint : BufferedBody E → SizeHint
  unfolding hint_partial
  size_hint (complete (some bytes)) = with_exact (length bytes)
  size_hint (complete none) = with_exact 0
  size_hint (partial p) = hint_partial p
  size_hint (passthrough b) = http.size_hint b

  unfoldable pub ended_remaining : Remaining E → Bool
  ended_remaining (body b) = http.is_end_stream b
  ended_remaining (error none) = true
  ended_remaining (error (some e)) = false

  unfoldable pub ended_prefix : Option Bytes → Remaining E → Bool
  unfolding ended_remaining
  ended_prefix (some b) remaining = false
  ended_prefix none remaining = ended_remaining remaining

  unfoldable pub ended_partial : PartialBufferedBody E → Bool
  unfolding ended_prefix
  ended_partial p = ended_prefix p.prefix p.remaining

  unfoldable pub is_end_stream : BufferedBody E → Bool
  unfolding ended_partial
  is_end_stream (complete none) = true
  is_end_stream (complete (some b)) = false
  is_end_stream (partial p) = ended_partial p
  is_end_stream (passthrough b) = http.is_end_stream b
