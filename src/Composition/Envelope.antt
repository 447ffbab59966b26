-- ===== src/Composition/Envelope.antt =====
-- hitbox-backend/src/composition/envelope.rs: the bytes of an envelope, a header of 48 bytes before
-- the data of one layer or of both. A `Vec<u8>` is a list of numbers below 256; the header is laid
-- out as its comment says, little-endian. An instant is a number of nanoseconds since the epoch, and
-- chrono's `DateTime::from_timestamp` is a parameter.
pub mod Laws
use hitbox.Prelude.{
  ℕ, zero, suc, ◌+◌, ◌*◌, ◌/◌, ◌%◌, ◌^◌, String, Bool, Option, none, some, List, [], ◌∷◌, ◌++◌, ltb,
  ◌==◌, ◌&&◌, if◌then◌else◌, length, take, drop,
}
use hitbox.Core.Value.{CacheValue, nanos_per_second}
use hitbox.Core.Response.{Result, ok, err}
use hitbox.Composition.Error.{BackendError, internal_error}

abbrev pub Raw : Type 0
Raw = List ℕ

pub data CompositionEnvelope : Type 0 where
  l1 : CacheValue Raw → CompositionEnvelope
  l2 : CacheValue Raw → CompositionEnvelope
  both : CacheValue Raw → CacheValue Raw → CompositionEnvelope

-- The padding is left out.
pub record EnvelopeHeader : Type 0 where
  pub discriminant : ℕ  -- u8
  pub l1_len : ℕ  -- u32
  pub l2_len : ℕ  -- u32
  pub expire_secs : ℕ  -- i64
  pub expire_nanos : ℕ  -- u32
  pub stale_secs : ℕ  -- i64
  pub stale_nanos : ℕ  -- u32

abbrev pub header_size : ℕ
header_size = 48

-- The low `w` bytes of `x`, the lowest first.
unfoldable pub to_bytes : ℕ → ℕ → Raw
to_bytes zero x = []
to_bytes (suc w) x = (x % 256) ∷ to_bytes w (x / 256)

unfoldable pub of_bytes : Raw → ℕ
of_bytes [] = 0
of_bytes (b ∷ bs) = b + 256 * of_bytes bs

unfoldable pub encode_timestamp : Option ℕ → ℕ × ℕ
encode_timestamp (some t) = (t / nanos_per_second, t % nanos_per_second)
encode_timestamp none = (0, 0)

-- `len as u32`
abbrev as_u32 : ℕ → ℕ
as_u32 n = n % 2 ^ 32

-- `new_l1`, `new_l2` and `new_both`
unfoldable pub new_header : ℕ → ℕ → ℕ → Option ℕ → Option ℕ → EnvelopeHeader
unfolding encode_timestamp
new_header discriminant l1_len l2_len expire stale = record {
  discriminant = discriminant;
  l1_len = as_u32 l1_len;
  l2_len = as_u32 l2_len;
  expire_secs = (encode_timestamp expire).0;
  expire_nanos = (encode_timestamp expire).1;
  stale_secs = (encode_timestamp stale).0;
  stale_nanos = (encode_timestamp stale).1;
}

unfoldable pub as_bytes : EnvelopeHeader → Raw
unfolding to_bytes
as_bytes h =
    h.discriminant ∷ to_bytes 3 0
    ++ to_bytes 4 h.l1_len
    ++ to_bytes 4 h.l2_len
    ++ to_bytes 4 0
    ++ to_bytes 8 h.expire_secs
    ++ to_bytes 4 h.expire_nanos
    ++ to_bytes 4 0
    ++ to_bytes 8 h.stale_secs
    ++ to_bytes 4 h.stale_nanos
    ++ to_bytes 4 0

-- The `w` bytes from the offset `i` on.
abbrev field_at : ℕ → ℕ → Raw → ℕ
field_at i w bytes = of_bytes (take w (drop i bytes))

unfoldable pub from_bytes : Raw → Result BackendError EnvelopeHeader
unfolding of_bytes
from_bytes bytes =
    if ltb (length bytes) header_size
    then err (internal_error "Envelope header too short")
    else ok (record {
      discriminant = field_at 0 1 bytes;
      l1_len = field_at 4 4 bytes;
      l2_len = field_at 8 4 bytes;
      expire_secs = field_at 16 8 bytes;
      expire_nanos = field_at 24 4 bytes;
      stale_secs = field_at 32 8 bytes;
      stale_nanos = field_at 40 4 bytes;
    })

unfoldable pub serialize : CompositionEnvelope → Raw
unfolding new_header
serialize (l1 v) = as_bytes (new_header 0 (length v.data_) 0 v.expire v.stale_at) ++ v.data_
serialize (l2 v) = as_bytes (new_header 1 0 (length v.data_) v.expire v.stale_at) ++ v.data_
serialize (both v1 v2) =
    as_bytes (new_header 2 (length v1.data_) (length v2.data_) v1.expire v1.stale_at)
    ++ v1.data_
    ++ v2.data_

module _ (from_timestamp : ℕ → ℕ → Option ℕ) where
  unfoldable pub decode_timestamp : ℕ → ℕ → Option ℕ
  decode_timestamp secs nanos = if secs == 0 && nanos == 0 then none else from_timestamp secs nanos

  unfoldable pub value_with : EnvelopeHeader → Raw → CacheValue Raw
  unfolding decode_timestamp
  value_with h bytes = record {
    data_ = bytes;
    expire = decode_timestamp h.expire_secs h.expire_nanos;
    stale_at = decode_timestamp h.stale_secs h.stale_nanos;
  }

  -- The match on the discriminant, for the bytes behind the header.
  unfoldable pub payload : EnvelopeHeader → Raw → Result BackendError CompositionEnvelope
  unfolding value_with
  payload h rest =
      if h.discriminant == 0
      then if ltb (length rest) h.l1_len
        then err (internal_error "L1 envelope data too short")
        else ok (l1 (value_with h (take h.l1_len rest)))
      else if h.discriminant == 1
      then if ltb (length rest) h.l2_len
        then err (internal_error "L2 envelope data too short")
        else ok (l2 (value_with h (take h.l2_len rest)))
      else if h.discriminant == 2
      then if ltb (length rest) (h.l1_len + h.l2_len)
        then err (internal_error "Both envelope data too short")
        else ok (
            both (value_with h (take h.l1_len rest))
              (value_with h (take h.l2_len (drop h.l1_len rest))))
      else err (internal_error "Invalid envelope discriminant")

  abbrev of_header :
      Result BackendError EnvelopeHeader → Raw → Result BackendError CompositionEnvelope
  of_header (ok h) bytes = payload h (drop header_size bytes)
  of_header (err e) bytes = err e

  unfoldable pub deserialize : Raw → Result BackendError CompositionEnvelope
  deserialize bytes = of_header (from_bytes bytes) bytes
