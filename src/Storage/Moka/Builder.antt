-- ===== src/Storage/Moka/Builder.antt =====
-- hitbox-moka/src/builder.rs: the builder of a moka backend, its two kinds of capacity, and the weight
-- of an entry. The builder of moka's caches and its eviction policies are parameters, and so are the
-- sizes of the structs in memory; the serializer that a builder starts with is one too.
pub mod Laws
use hitbox.Prelude.{ℕ, ◌+◌, ◌-◌, ◌%◌, ◌^◌, Option, none, some, length, leb, if◌then◌else◌}
use hitbox.Core.Context.{BackendLabel}
use hitbox.Core.Value.{CacheValue}
use hitbox.Composition.Envelope.{Raw}
use hitbox.Composition.Backend.Packed.{passthrough}
use hitbox.Key.{CacheKey, memory_size}
use hitbox.Key.Format.{CacheKeyFormat, bitcode}
use hitbox.Backend.{Format, Compressor}
use hitbox.Storage.Moka.{Cache, MokaBackend, calculate_ttl}

-- The capacities, which a builder has one of.
pub data NoCapacity : Type 0 where
  no_capacity : NoCapacity

pub record EntryCapacity : Type 0 where
  pub entries : ℕ  -- u64

pub record ByteCapacity : Type 0 where
  pub bytes : ℕ  -- u64

-- The sizes that `size_of` gives.
pub record Sizes : Type 0 where
  pub usize : ℕ
  pub key_inner : ℕ
  pub key_part : ℕ
  pub value : ℕ

-- `moka::future::CacheBuilder` and `moka::policy::EvictionPolicy`. The expiry policy is asked for the
-- time to live of a value that is created or updated, by its instant of expiry and the clock.
pub record CacheBuilder (W Policy B : Type 0) : Type 1 where
  pub new : ℕ → B
  pub weigher : (CacheKey → CacheValue Raw → ℕ) → B → B
  pub eviction_policy : Policy → B → B
  pub expire_after : (Option ℕ → ℕ → Option ℕ) → B → B
  pub build : B → Cache W CacheKey
  pub tiny_lfu : Policy
  pub lru : Policy

pub record MokaBackendBuilder (Cap C Policy : Type 0) : Type 0 where
  pub capacity : Cap
  pub key_format : CacheKeyFormat
  pub serializer : Format C
  pub compressor : Compressor
  pub label : BackendLabel
  pub eviction_policy : Option Policy

abbrev u32_max : ℕ
u32_max = 2 ^ 32 - 1

-- `CacheValue::memory_size`, with the size of the struct.
unfoldable pub value_memory_size : ℕ → CacheValue Raw → ℕ
value_memory_size fixed_overhead value = fixed_overhead + length value.data_

abbrev pub min : ℕ → ℕ → ℕ
min a b = if leb a b then a else b

unfoldable pub byte_weigher : Sizes → CacheKey → CacheValue Raw → ℕ
byte_weigher sizes key value =
    min
      (memory_size sizes.usize sizes.key_inner sizes.key_part key
        + value_memory_size sizes.value value)
      u32_max
    % 2 ^ 32

abbrev pub unwrap_or : {Policy : Type 0} → Option Policy → Policy → Policy
unwrap_or none default_policy = default_policy
unwrap_or (some policy) default_policy = policy

module _ {Policy W B : Type 0} (moka : CacheBuilder W Policy B) where
  -- The caches of the two builds, by the capacity and the policy that was set, if one was.
  unfoldable pub entry_cache : ℕ → Option Policy → Cache W CacheKey
  unfolding calculate_ttl
  entry_cache capacity policy = moka.build (
      moka.expire_after calculate_ttl
        (moka.eviction_policy (unwrap_or policy moka.tiny_lfu) (moka.new capacity)))

  unfoldable pub byte_cache : Sizes → ℕ → Option Policy → Cache W CacheKey
  unfolding byte_weigher calculate_ttl
  byte_cache sizes capacity policy = moka.build (
      moka.expire_after calculate_ttl (
        moka.eviction_policy (unwrap_or policy moka.lru)
          (moka.weigher (byte_weigher sizes) (moka.new capacity))))

module _ {C Policy : Type 0} where
  unfoldable pub new : Format C → MokaBackendBuilder NoCapacity C Policy
  new json = record {
    capacity = no_capacity;
    key_format = bitcode;
    serializer = json;
    compressor = passthrough;
    label = record { name = "moka" };
    eviction_policy = none;
  }

  unfoldable pub max_entries :
      ℕ → MokaBackendBuilder NoCapacity C Policy → MokaBackendBuilder EntryCapacity C Policy
  max_entries capacity b = record {
    capacity = record { entries = capacity };
    key_format = b.key_format;
    serializer = b.serializer;
    compressor = b.compressor;
    label = b.label;
    eviction_policy = b.eviction_policy;
  }

  unfoldable pub max_bytes :
      ℕ → MokaBackendBuilder NoCapacity C Policy → MokaBackendBuilder ByteCapacity C Policy
  max_bytes bytes b = record {
    capacity = record { bytes = bytes };
    key_format = b.key_format;
    serializer = b.serializer;
    compressor = b.compressor;
    label = b.label;
    eviction_policy = b.eviction_policy;
  }

  module _ {Cap : Type 0} where
    unfoldable pub with_label :
        BackendLabel → MokaBackendBuilder Cap C Policy → MokaBackendBuilder Cap C Policy
    with_label label b = record b { label = label }

    unfoldable pub with_key_format :
        CacheKeyFormat → MokaBackendBuilder Cap C Policy → MokaBackendBuilder Cap C Policy
    with_key_format format b = record b { key_format = format }

    unfoldable pub with_eviction_policy :
        Policy → MokaBackendBuilder Cap C Policy → MokaBackendBuilder Cap C Policy
    with_eviction_policy policy b = record b { eviction_policy = some policy }

    unfoldable pub value_format :
        Format C → MokaBackendBuilder Cap C Policy → MokaBackendBuilder Cap C Policy
    value_format serializer b = record b { serializer = serializer }

    unfoldable pub with_compressor :
        Compressor → MokaBackendBuilder Cap C Policy → MokaBackendBuilder Cap C Policy
    with_compressor compressor b = record b { compressor = compressor }

    abbrev backend_of :
        {W : Type 0} → Cache W CacheKey → MokaBackendBuilder Cap C Policy → MokaBackend W CacheKey C
    backend_of cache b = record {
      cache = cache;
      key_format = b.key_format;
      serializer = b.serializer;
      compressor = b.compressor;
      label = b.label;
    }

  module _ {W B : Type 0} (moka : CacheBuilder W Policy B) where
    unfoldable pub build_entries :
        MokaBackendBuilder EntryCapacity C Policy → MokaBackend W CacheKey C
    build_entries b = backend_of (entry_cache moka b.capacity.entries b.eviction_policy) b

    unfoldable pub build_bytes :
        Sizes → MokaBackendBuilder ByteCapacity C Policy → MokaBackend W CacheKey C
    build_bytes sizes b = backend_of (byte_cache moka sizes b.capacity.bytes b.eviction_policy) b
