-- ===== src/Composition/Format/Laws.antt =====
-- What the format of a composition promises (hitbox-backend/src/composition/format.rs).
use hitbox.Prelude.{ℕ, String, ◌^◌, ◌<◌, true, Option, none, some, ◌≡◌, arith, length}
use hitbox.Core.Context.{BoxContext, l1, l2, upgrade_context}
use hitbox.Core.Response.{Result, ok, err, chain}
use hitbox.Composition.Envelope.{Raw, CompositionEnvelope, both, serialize, deserialize}
use hitbox.Composition.Envelope
use hitbox.Composition.Envelope.Laws.{IsStorable, deserialize-serialize_whole}
use hitbox.Backend.{Decoded}
use hitbox.Composition.Format.{
  CompositionFormat, without_instants, same_format, serialize_layer, serialize_parts,
  deserialize_layer, with_serializer, with_deserializer,
}

module _ {C : Type 0} (f : CompositionFormat C) (v : C) (ctx : BoxContext)
    (agree : same_format f ≡ true
      → f.l1_format.with_serializer v ctx ≡ f.l2_format.with_serializer v ctx) where
  -- That formats with the same identifier serialize once changes nothing: `serialize_parts` gives
  -- what serializing each layer on its own gives, errors included and those of L1 first, where
  -- formats with the same identifier agree.
  pub serialize_parts-serialize_layer :
      serialize_parts f v ctx
      ≡ chain
          (serialize_layer f l1 v ctx)
          λ c1. chain (serialize_layer f l2 v ctx) λ c2. ok (c1, c2)
  unfolding serialize_parts serialize_layer
  serialize_parts-serialize_layer = ground (arith, agree)

module _ {C : Type 0} (f : CompositionFormat C) (from_timestamp : ℕ → ℕ → Option ℕ) where
  -- What is read back from bytes that were just written.
  abbrev pub reread : Result String Raw → BoxContext → Decoded C
  reread (ok bytes) ctx = with_deserializer f from_timestamp bytes ctx
  reread (err e) ctx = (err e, none, ctx)

  pub kept :
      (bytes : Raw) → length bytes < 2 ^ 32 → IsStorable from_timestamp (without_instants bytes)
  kept bytes h = record { short = h; expire_kept = tt; stale_kept = tt }

  -- A value written by the format of a composition, in a refill or not, is read back through the
  -- envelope, and the context is marked as coming from L1. Formats with the same identifier agree,
  -- the bytes of the layers have lengths that an u32 holds, and L1 reads what it wrote.
  pub reread-with_serializer :
      (v : C) (ctx ctx' ctx'' : BoxContext) (c1 c2 : Raw)
      → (same_format f ≡ true
          → f.l1_format.with_serializer v ctx ≡ f.l2_format.with_serializer v ctx)
      → serialize_layer f l1 v ctx ≡ ok c1
      → serialize_layer f l2 v ctx ≡ ok c2
      → length c1 < 2 ^ 32
      → length c2 < 2 ^ 32
      → deserialize_layer f c1 l1 ctx' ≡ (ok tt, some v, ctx'')
      → reread (with_serializer f v ctx) ctx' ≡ (ok tt, some v, upgrade_context ctx'' l1 f.labels)
  unfolding with_serializer with_deserializer
  reread-with_serializer v ctx ctx' ctx'' c1 c2 agree w1 w2 s1 s2 reads = ground (
    arith,
    w1,
    w2,
    reads,
    serialize_parts-serialize_layer f v ctx agree,
    deserialize-serialize_whole from_timestamp (Envelope.l1 (without_instants c1)) (kept c1 s1),
    deserialize-serialize_whole from_timestamp (both (without_instants c1) (without_instants c2))
        (kept c1 s1, s2),
  )
