-- ===== src/Storage/Moka/Builder/Laws.antt =====
-- What a built moka backend is made of, hitbox-moka/src/builder.rs: the settings count by what was set
-- last, before or after the capacity, and the weight of an entry fits its type.
use hitbox.Prelude.{
  ℕ, ◌+◌, ◌-◌, ◌≤◌, ◌^◌, Option, none, some, List, [], ◌∷◌, ◌++◌, ◌≡◌, refl, ◌∙◌, ap, arith,
}
use hitbox.Core.Context.{BackendLabel}
use hitbox.Core.Value.{CacheValue}
use hitbox.Composition.Envelope.{Raw}
use hitbox.Composition.Backend.Packed.{passthrough}
use hitbox.Key.{CacheKey, memory_size}
use hitbox.Key.Format.{CacheKeyFormat, bitcode}
use hitbox.Backend.{Format, Compressor}
use hitbox.Storage.Moka.Builder.{
  CacheBuilder, MokaBackendBuilder, Sizes, byte_weigher, value_memory_size, new, max_entries,
  max_bytes, with_label, with_key_format, with_eviction_policy, value_format, with_compressor,
  entry_cache, byte_cache, build_entries, build_bytes,
}

-- The weight of an entry is the size of its key and its value, as far as an u32 holds it.
pub byte_weigher-exact :
    (sizes : Sizes) (key : CacheKey) (value : CacheValue Raw)
    → memory_size sizes.usize sizes.key_inner sizes.key_part key
        + value_memory_size sizes.value value
      ≤ 2 ^ 32 - 1
    → byte_weigher sizes key value
      ≡ memory_size sizes.usize sizes.key_inner sizes.key_part key
        + value_memory_size sizes.value value
unfolding byte_weigher
byte_weigher-exact sizes key value small = ground (arith, small)

-- An entry too large for an u32 weighs as much as an u32 can say.
pub byte_weigher-largest :
    (sizes : Sizes) (key : CacheKey) (value : CacheValue Raw)
    → 2 ^ 32 - 1
      ≤ memory_size sizes.usize sizes.key_inner sizes.key_part key
        + value_memory_size sizes.value value
    → byte_weigher sizes key value ≡ 2 ^ 32 - 1
unfolding byte_weigher
byte_weigher-largest sizes key value large = ground (arith, large)

-- One call that sets an option of the builder.
pub data Setting (C Policy : Type 0) : Type 0 where
  labelled : BackendLabel → Setting C Policy
  keyed : CacheKeyFormat → Setting C Policy
  evicting : Policy → Setting C Policy
  formatted : Format C → Setting C Policy
  compressed : Compressor → Setting C Policy

abbrev pub or_before : {A : Type 0} → Option A → A → A
or_before none a = a
or_before (some b) a = b

module _ {C Policy : Type 0} where
  abbrev pub label_set : Setting C Policy → Option BackendLabel
  label_set (labelled l) = some l
  label_set s = none

  abbrev pub key_format_set : Setting C Policy → Option CacheKeyFormat
  key_format_set (keyed f) = some f
  key_format_set s = none

  abbrev pub policy_set : Setting C Policy → Option (Option Policy)
  policy_set (evicting p) = some (some p)
  policy_set s = none

  abbrev pub format_set : Setting C Policy → Option (Format C)
  format_set (formatted f) = some f
  format_set s = none

  abbrev pub compressor_set : Setting C Policy → Option Compressor
  compressor_set (compressed c) = some c
  compressor_set s = none

  -- What was set last, or what there was before.
  abbrev pub last_set :
      {A : Type 0} → (Setting C Policy → Option A) → List (Setting C Policy) → A → A
  last_set pick [] before = before
  last_set pick (s ∷ settings) before = last_set pick settings (or_before (pick s) before)

  module _ {Cap : Type 0} where
    abbrev pub configure :
        Setting C Policy → MokaBackendBuilder Cap C Policy → MokaBackendBuilder Cap C Policy
    unfolding with_label with_key_format with_eviction_policy value_format with_compressor
    configure (labelled l) b = with_label l b
    configure (keyed f) b = with_key_format f b
    configure (evicting p) b = with_eviction_policy p b
    configure (formatted f) b = value_format f b
    configure (compressed c) b = with_compressor c b

    abbrev pub configure_all :
        List (Setting C Policy) → MokaBackendBuilder Cap C Policy → MokaBackendBuilder Cap C Policy
    configure_all [] b = b
    configure_all (s ∷ settings) b = configure_all settings (configure s b)

    abbrev pub configured :
        List (Setting C Policy) → MokaBackendBuilder Cap C Policy → MokaBackendBuilder Cap C Policy
    configured settings b = record {
      capacity = b.capacity;
      key_format = last_set key_format_set settings b.key_format;
      serializer = last_set format_set settings b.serializer;
      compressor = last_set compressor_set settings b.compressor;
      label = last_set label_set settings b.label;
      eviction_policy = last_set policy_set settings b.eviction_policy;
    }

    configure_all-last_set :
        (settings : List (Setting C Policy)) (b : MokaBackendBuilder Cap C Policy)
        → configure_all settings b ≡ configured settings b
    unfolding configure
    configure_all-last_set [] b = refl
    configure_all-last_set (labelled l ∷ settings) b =
        configure_all-last_set settings (configure (labelled l) b)
    configure_all-last_set (keyed f ∷ settings) b =
        configure_all-last_set settings (configure (keyed f) b)
    configure_all-last_set (evicting p ∷ settings) b =
        configure_all-last_set settings (configure (evicting p) b)
    configure_all-last_set (formatted f ∷ settings) b =
        configure_all-last_set settings (configure (formatted f) b)
    configure_all-last_set (compressed c ∷ settings) b =
        configure_all-last_set settings (configure (compressed c) b)

  last_set-append :
      {A : Type 0} (pick : Setting C Policy → Option A) (xs ys : List (Setting C Policy)) (a : A)
      → last_set pick ys (last_set pick xs a) ≡ last_set pick (xs ++ ys) a
  last_set-append pick [] ys a = refl
  last_set-append pick (x ∷ xs) ys a = last_set-append pick xs ys (or_before (pick x) a)

  -- The options of a new builder, after settings.
  abbrev pub settled :
      {Cap : Type 0} → Cap → Format C → List (Setting C Policy) → MokaBackendBuilder Cap C Policy
  settled capacity json settings = record {
    capacity = capacity;
    key_format = last_set key_format_set settings bitcode;
    serializer = last_set format_set settings json;
    compressor = last_set compressor_set settings passthrough;
    label = last_set label_set settings (record { name = "moka" });
    eviction_policy = last_set policy_set settings none;
  }

  module _ {Cap : Type 0} (capacity : Cap) (json : Format C) (xs ys : List (Setting C Policy)) where
    settled-append : configured ys (settled capacity json xs) ≡ settled capacity json (xs ++ ys)
    settled-append = λ i. record {
      capacity = capacity;
      key_format = last_set-append key_format_set xs ys bitcode i;
      serializer = last_set-append format_set xs ys json i;
      compressor = last_set-append compressor_set xs ys passthrough i;
      label = last_set-append label_set xs ys (record { name = "moka" }) i;
      eviction_policy = last_set-append policy_set xs ys none i;
    }

  -- A built backend has of each option what was set last, whether before or after the capacity,
  -- and where nothing was set: the key format Bitcode, the serializer Json, no compression, the
  -- label "moka", and the eviction policy TinyLFU for a number of entries and LRU for a number of
  -- bytes.
  pub build-last_set :
      {W B : Type 0} (moka : CacheBuilder W Policy B) (sizes : Sizes) (json : Format C) (n : ℕ)
      (xs ys : List (Setting C Policy))
      → (build_entries moka (configure_all ys (max_entries n (configure_all xs (new json))))
          ≡ record {
            cache = entry_cache moka n (last_set policy_set (xs ++ ys) none);
            key_format = last_set key_format_set (xs ++ ys) bitcode;
            serializer = last_set format_set (xs ++ ys) json;
            compressor = last_set compressor_set (xs ++ ys) passthrough;
            label = last_set label_set (xs ++ ys) (record { name = "moka" });
          })
        × (build_bytes moka sizes (configure_all ys (max_bytes n (configure_all xs (new json))))
            ≡ record {
              cache = byte_cache moka sizes n (last_set policy_set (xs ++ ys) none);
              key_format = last_set key_format_set (xs ++ ys) bitcode;
              serializer = last_set format_set (xs ++ ys) json;
              compressor = last_set compressor_set (xs ++ ys) passthrough;
              label = last_set label_set (xs ++ ys) (record { name = "moka" });
            })
  unfolding new max_entries max_bytes build_entries build_bytes
  build-last_set moka sizes json n xs ys = (
    ap (λ b. build_entries moka (configure_all ys (max_entries n b)))
          (configure_all-last_set xs (new json))
        ∙ ap (build_entries moka)
            (configure_all-last_set ys (settled (record { entries = n }) json xs))
        ∙ ap (build_entries moka) (settled-append (record { entries = n }) json xs ys),
    ap (λ b. build_bytes moka sizes (configure_all ys (max_bytes n b)))
          (configure_all-last_set xs (new json))
        ∙ ap (build_bytes moka sizes)
            (configure_all-last_set ys (settled (record { bytes = n }) json xs))
        ∙ ap (build_bytes moka sizes) (settled-append (record { bytes = n }) json xs ys),
  )
