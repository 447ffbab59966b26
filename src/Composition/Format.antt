-- ===== src/Composition/Format.antt =====
-- hitbox-backend/src/composition/format.rs: the formats of both layers as one.
pub mod Laws
use hitbox.Prelude.{ℕ, String, Bool, false, Option, none, ◌==◌, if◌then◌else◌}
use hitbox.Core.Context.{
  BoxContext, cache_context, composition_context, CompositionLayer, l1, l2, LayerLabels,
  should_refill, upgrade_context,
}
use hitbox.Core.Value.{CacheValue}
use hitbox.Core.Response.{Result, ok, err, chain}
use hitbox.Composition.Error.{BackendError, message}
use hitbox.Composition.Envelope.{Raw, CompositionEnvelope, both, serialize, deserialize}
use hitbox.Composition.Envelope
use hitbox.Backend.{Format, Compressor, Decoded}

pub record CompositionFormat (C : Type 0) : Type 0 where
  pub l1_format : Format C
  pub l2_format : Format C
  pub l1_compressor : Compressor
  pub l2_compressor : Compressor
  pub labels : LayerLabels

-- `FormatTypeId::Custom("composition")`
abbrev composition_id : ℕ
composition_id = 4

-- `CacheValue::new(bytes, None, None)`
abbrev pub without_instants : Raw → CacheValue Raw
without_instants bytes = record { data_ = bytes; expire = none; stale_at = none }

module _ {C : Type 0} (f : CompositionFormat C) where
  abbrev pub format_of : CompositionLayer → Format C
  format_of l1 = f.l1_format
  format_of l2 = f.l2_format

  abbrev pub compressor_of : CompositionLayer → Compressor
  compressor_of l1 = f.l1_compressor
  compressor_of l2 = f.l2_compressor

  unfoldable pub same_format : Bool
  same_format = f.l1_format.format_type_id == f.l2_format.format_type_id

  unfoldable pub serialize_layer : CompositionLayer → C → BoxContext → Result String Raw
  serialize_layer layer v ctx =
      chain ((format_of layer).with_serializer v ctx) λ s. (compressor_of layer).compress s

  -- The serialized data of L1 serves L2, too, if their formats are the same.
  unfoldable pub serialize_parts : C → BoxContext → Result String (Raw × Raw)
  unfolding same_format
  serialize_parts v ctx = chain (f.l1_format.with_serializer v ctx) λ s1.
      chain (f.l1_compressor.compress s1) λ c1.
        chain (if same_format then ok s1 else f.l2_format.with_serializer v ctx)
          λ s2. chain (f.l2_compressor.compress s2) λ c2. ok (c1, c2)

  decompressed : CompositionLayer → Result String Raw → BoxContext → Decoded C
  decompressed layer (ok bytes) ctx = (format_of layer).with_deserializer bytes ctx
  decompressed layer (err e) ctx = (err e, none, ctx)

  unfoldable pub deserialize_layer : Raw → CompositionLayer → BoxContext → Decoded C
  unfolding decompressed
  deserialize_layer bytes layer ctx =
      decompressed layer ((compressor_of layer).decompress bytes) ctx

  -- A composition context whose read mode is Refill.
  abbrev refilling : BoxContext → Bool
  refilling (composition_context inner layer labels) = should_refill layer
  refilling (cache_context c) = false

  abbrev in_l1 : Raw → Result String Raw
  in_l1 bytes = ok (serialize (Envelope.l1 (without_instants bytes)))

  abbrev in_both : Raw × Raw → Result String Raw
  in_both bytes = ok (serialize (both (without_instants bytes.0) (without_instants bytes.1)))

  -- Past the test for a refill the source repeats the code of `serialize_parts`.
  unfoldable pub with_serializer : C → BoxContext → Result String Raw
  unfolding serialize_layer serialize_parts should_refill
  with_serializer v ctx =
      if refilling ctx
      then chain (serialize_layer l1 v ctx) in_l1
      else chain (serialize_parts v ctx) in_both

  -- The context is upgraded after a success alone.
  upgraded : CompositionLayer → Decoded C → Decoded C
  unfolding upgrade_context
  upgraded layer (ok u, d, ctx) = (ok u, d, upgrade_context ctx layer f.labels)
  upgraded layer (err e, d, ctx) = (err e, d, ctx)

  of_envelope : Result BackendError CompositionEnvelope → BoxContext → Decoded C
  unfolding upgraded deserialize_layer
  of_envelope (ok (Envelope.l1 v)) ctx = upgraded l1 (deserialize_layer v.data_ l1 ctx)
  of_envelope (ok (Envelope.l2 v)) ctx = upgraded l2 (deserialize_layer v.data_ l2 ctx)
  of_envelope (ok (both v1 v2)) ctx = upgraded l1 (deserialize_layer v1.data_ l1 ctx)
  of_envelope (err e) ctx = (err (message e), none, ctx)

  module _ (from_timestamp : ℕ → ℕ → Option ℕ) where
    unfoldable pub with_deserializer : Raw → BoxContext → Decoded C
    unfolding of_envelope
    with_deserializer bytes ctx = of_envelope (deserialize from_timestamp bytes) ctx

    abbrev pub as_format : Format C
    as_format = record {
      with_serializer = with_serializer;
      with_deserializer = with_deserializer;
      format_type_id = composition_id;
    }
