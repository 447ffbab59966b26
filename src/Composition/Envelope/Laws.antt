-- ===== src/Composition/Envelope/Laws.antt =====
-- hitbox-backend/src/composition/envelope.rs: what is serialized is read back.
use hitbox.Prelude.{
  ℕ, ◌/◌, ◌%◌, ◌^◌, ◌<◌, Option, none, some, List, [], ◌∷◌, ◌++◌, ◌≡◌, refl, ap, ◌∙◌, arith, ltb,
  false, length, take, drop, length-append,
}
use mathlib.Core.List.{append_assoc, append-nil}
use mathlib.Core.Path.{ap₂}
use hitbox.Core.Value.{CacheValue, nanos_per_second}
use hitbox.Core.Response.{ok}
use hitbox.Composition.Envelope.{
  Raw, CompositionEnvelope, l1, l2, both, payload, value_with, new_header, to_bytes, of_bytes,
  encode_timestamp, decode_timestamp, serialize, deserialize, EnvelopeHeader, as_bytes, from_bytes,
  header_size,
}

bytes4 : (x : ℕ) → x < 2 ^ 32 → of_bytes (to_bytes 4 x) ≡ x
unfolding of_bytes to_bytes
bytes4 x h = omega arith

bytes8 : (x : ℕ) → x < 2 ^ 63 → of_bytes (to_bytes 8 x) ≡ x
unfolding of_bytes to_bytes
bytes8 x h = omega arith

record Fits (h : EnvelopeHeader) : Type 0 where
  d : h.discriminant < 256
  len1 : h.l1_len < 2 ^ 32
  len2 : h.l2_len < 2 ^ 32
  exp_s : h.expire_secs < 2 ^ 63
  exp_n : h.expire_nanos < 2 ^ 32
  sta_s : h.stale_secs < 2 ^ 63
  sta_n : h.stale_nanos < 2 ^ 32

byte1 : (x : ℕ) → of_bytes (x ∷ []) ≡ x
unfolding of_bytes
byte1 x = omega arith

not_short :
    (h : EnvelopeHeader) (rest : Raw) → ltb (length (as_bytes h ++ rest)) header_size ≡ false
unfolding as_bytes
not_short h rest = ground arith

drop-as_bytes : (h : EnvelopeHeader) (rest : Raw) → drop header_size (as_bytes h ++ rest) ≡ rest
unfolding as_bytes
drop-as_bytes h rest = refl

from_bytes-as_bytes :
    (h : EnvelopeHeader) (rest : Raw) → Fits h → from_bytes (as_bytes h ++ rest) ≡ ok h
unfolding from_bytes as_bytes
from_bytes-as_bytes h rest f = rw (not_short h rest) λ i. ok (record {
  discriminant = byte1 h.discriminant i;
  l1_len = bytes4 h.l1_len f.len1 i;
  l2_len = bytes4 h.l2_len f.len2 i;
  expire_secs = bytes8 h.expire_secs f.exp_s i;
  expire_nanos = bytes4 h.expire_nanos f.exp_n i;
  stale_secs = bytes8 h.stale_secs f.sta_s i;
  stale_nanos = bytes4 h.stale_nanos f.sta_n i;
})

module _ {A : Type 0} where
  take-append : (xs ys : List A) → take (length xs) (xs ++ ys) ≡ xs
  take-append [] ys = refl
  take-append (x ∷ xs) ys = ap (λ l. x ∷ l) (take-append xs ys)

  drop-append : (xs ys : List A) → drop (length xs) (xs ++ ys) ≡ ys
  drop-append [] ys = refl
  drop-append (x ∷ xs) ys = drop-append xs ys

module _ (from_timestamp : ℕ → ℕ → Option ℕ) where
  -- An instant that the header keeps: after the epoch, in seconds that an i64 holds, and known to
  -- chrono.
  abbrev pub IsKept : Option ℕ → Type 0
  IsKept none = Unit
  IsKept (some t) =
      (0 < t)
      × (t / nanos_per_second < 2 ^ 63)
      × (from_timestamp (t / nanos_per_second) (t % nanos_per_second) ≡ some t)

  decode-encode :
      (o : Option ℕ)
      → IsKept o
      → decode_timestamp from_timestamp (encode_timestamp o).0 (encode_timestamp o).1 ≡ o
  unfolding decode_timestamp encode_timestamp
  decode-encode none k = refl
  decode-encode (some t) k = ground (arith, k.2)

  -- A value whose length an u32 holds and whose instants are kept.
  pub record IsStorable (v : CacheValue Raw) : Type 0 where
    pub short : length v.data_ < 2 ^ 32
    pub expire_kept : IsKept v.expire
    pub stale_kept : IsKept v.stale_at

  module _ (h : EnvelopeHeader) (d rest : Raw) where
    payload-l1 :
        h.discriminant ≡ 0
        → h.l1_len ≡ length d
        → payload from_timestamp h (d ++ rest) ≡ ok (l1 (value_with from_timestamp h d))
    unfolding payload
    payload-l1 e0 e1 = ground (arith, length-append d rest, take-append d rest)

    payload-l2 :
        h.discriminant ≡ 1
        → h.l2_len ≡ length d
        → payload from_timestamp h (d ++ rest) ≡ ok (l2 (value_with from_timestamp h d))
    unfolding payload
    payload-l2 e0 e1 = ground (arith, length-append d rest, take-append d rest)

    payload-both :
        (d2 : Raw)
        → h.discriminant ≡ 2
        → h.l1_len ≡ length d
        → h.l2_len ≡ length d2
        → payload from_timestamp h (d ++ (d2 ++ rest))
          ≡ ok (both (value_with from_timestamp h d) (value_with from_timestamp h d2))
    unfolding payload
    payload-both d2 e0 e1 e2 = ground (
      arith,
      length-append d (d2 ++ rest),
      length-append d2 rest,
      take-append d (d2 ++ rest),
      drop-append d (d2 ++ rest),
      take-append d2 rest,
    )

  secs_lt : (o : Option ℕ) → IsKept o → (encode_timestamp o).0 < 2 ^ 63
  unfolding encode_timestamp
  secs_lt none k = omega arith
  secs_lt (some t) k = k.1

  nanos_lt : (o : Option ℕ) → (encode_timestamp o).1 < 2 ^ 32
  unfolding encode_timestamp
  nanos_lt none = omega arith
  nanos_lt (some t) = omega arith

  module _ (kind n1 n2 : ℕ) (expire stale_at : Option ℕ) (ke : IsKept expire)
      (ks : IsKept stale_at) where
    new_header-Fits : kind < 256 → Fits (new_header kind n1 n2 expire stale_at)
    unfolding new_header
    new_header-Fits k = record {
      d = k;
      len1 = omega arith;
      len2 = omega arith;
      exp_s = secs_lt expire ke;
      exp_n = nanos_lt expire;
      sta_s = secs_lt stale_at ks;
      sta_n = nanos_lt stale_at;
    }

    value_with-new_header :
        (d : Raw)
        → value_with from_timestamp (new_header kind n1 n2 expire stale_at) d
          ≡ record { data_ = d; expire = expire; stale_at = stale_at }
    unfolding value_with new_header
    value_with-new_header d = λ i. record {
      data_ = d;
      expire = decode-encode expire ke i;
      stale_at = decode-encode stale_at ks i;
    }

    deserialize-header :
        (rest : Raw)
        → kind < 256
        → deserialize from_timestamp (as_bytes (new_header kind n1 n2 expire stale_at) ++ rest)
          ≡ payload from_timestamp (new_header kind n1 n2 expire stale_at) rest
    unfolding deserialize
    deserialize-header rest k =
        rw (from_bytes-as_bytes (new_header kind n1 n2 expire stale_at) rest (new_header-Fits k))
          (rw (drop-as_bytes (new_header kind n1 n2 expire stale_at) rest))

  module _ (kind n1 n2 : ℕ) (expire stale_at : Option ℕ) where
    new_header-kind : (new_header kind n1 n2 expire stale_at).discriminant ≡ kind
    unfolding new_header
    new_header-kind = refl

    new_header-l1_len : n1 < 2 ^ 32 → (new_header kind n1 n2 expire stale_at).l1_len ≡ n1
    unfolding new_header
    new_header-l1_len h = omega arith

    new_header-l2_len : n2 < 2 ^ 32 → (new_header kind n1 n2 expire stale_at).l2_len ≡ n2
    unfolding new_header
    new_header-l2_len h = omega arith

  -- What is read back: an envelope of both layers has room for the instants of the first alone.
  abbrev pub as_read : CompositionEnvelope → CompositionEnvelope
  as_read (l1 v) = l1 v
  as_read (l2 v) = l2 v
  as_read (both v1 v2) = both v1 (record v2 { expire = v1.expire; stale_at = v1.stale_at })

  abbrev pub Storable : CompositionEnvelope → Type 0
  Storable (l1 v) = IsStorable v
  Storable (l2 v) = IsStorable v
  Storable (both v1 v2) = IsStorable v1 × (length v2.data_ < 2 ^ 32)

  -- A storable envelope is read back from its bytes, whatever bytes come after them; of an envelope
  -- of both layers the second value comes back with the instants of the first.
  pub deserialize-serialize :
      (envelope : CompositionEnvelope) (rest : Raw)
      → Storable envelope
      → deserialize from_timestamp (serialize envelope ++ rest) ≡ ok (as_read envelope)
  unfolding serialize
  deserialize-serialize (l1 v) rest s =
      let n = length v.data_ in
      let h = new_header 0 n 0 v.expire v.stale_at in
      rw (append_assoc (as_bytes h) v.data_ rest) (
        deserialize-header 0 n 0 v.expire v.stale_at s.expire_kept s.stale_kept (v.data_ ++ rest)
          (omega arith)
        ∙ payload-l1 h v.data_ rest (new_header-kind 0 n 0 v.expire v.stale_at)
            (new_header-l1_len 0 n 0 v.expire v.stale_at s.short)
        ∙ ap (λ u. ok (l1 u))
            (value_with-new_header 0 n 0 v.expire v.stale_at s.expire_kept s.stale_kept v.data_))
  deserialize-serialize (l2 v) rest s =
      let n = length v.data_ in
      let h = new_header 1 0 n v.expire v.stale_at in
      rw (append_assoc (as_bytes h) v.data_ rest) (
        deserialize-header 1 0 n v.expire v.stale_at s.expire_kept s.stale_kept (v.data_ ++ rest)
          (omega arith)
        ∙ payload-l2 h v.data_ rest (new_header-kind 1 0 n v.expire v.stale_at)
            (new_header-l2_len 1 0 n v.expire v.stale_at s.short)
        ∙ ap (λ u. ok (l2 u))
            (value_with-new_header 1 0 n v.expire v.stale_at s.expire_kept s.stale_kept v.data_))
  deserialize-serialize (both v1 v2) rest s =
      let n1 = length v1.data_ in
      let n2 = length v2.data_ in
      let h = new_header 2 n1 n2 v1.expire v1.stale_at in
      let e1 = s.0.expire_kept in
      let e2 = s.0.stale_kept in
      simp append_assoc (
        deserialize-header 2 n1 n2 v1.expire v1.stale_at e1 e2 (v1.data_ ++ (v2.data_ ++ rest))
          (omega arith)
        ∙ payload-both h v1.data_ rest v2.data_ (new_header-kind 2 n1 n2 v1.expire v1.stale_at)
            (new_header-l1_len 2 n1 n2 v1.expire v1.stale_at s.0.short)
            (new_header-l2_len 2 n1 n2 v1.expire v1.stale_at s.1)
        ∙ ap₂ (λ u1 u2. ok (both u1 u2))
            (value_with-new_header 2 n1 n2 v1.expire v1.stale_at e1 e2 v1.data_)
            (value_with-new_header 2 n1 n2 v1.expire v1.stale_at e1 e2 v2.data_))

  pub deserialize-serialize_whole :
      (envelope : CompositionEnvelope)
      → Storable envelope
      → deserialize from_timestamp (serialize envelope) ≡ ok (as_read envelope)
  deserialize-serialize_whole envelope s =
      rw (append-nil (serialize envelope)) at (deserialize-serialize envelope [] s)
