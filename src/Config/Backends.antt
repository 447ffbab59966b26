-- ===== src/Config/Backends.antt =====
-- hitbox-configuration/src/backend: the backend that a configuration file asks for. With every feature
-- on; the formats and compressors of libraries, the builders of other crates, the clock and the offload
-- of a race's loser are parameters, and so is the view of a FeOxDB or Redis backend as a trait object.
pub mod Laws
use Prim.Native.String.{◌++◌}
use hitbox.Prelude.{ℕ, String, Option, none, some}
use hitbox.Core.Context.{BackendLabel, CompositionLayer}
use hitbox.Core.Response.{Result, ok, err}
use hitbox.Key.{CacheKey}
use hitbox.Key.Format.{CacheKeyFormat, url_encoded, bitcode}
use hitbox.Backend.{Format, Compressor, Backend, provided}
use hitbox.Composition.Write
use hitbox.Composition.Backend.{CompositionBackend, sequential_reads, always, never, with_label}
use hitbox.Composition.Backend as Composed
use hitbox.Composition.Backend.Packed.{passthrough, as_backend}
use hitbox.Composition.Compose.{
  CompositionPolicy, new_policy, with_read, with_write, with_refill, compose_with,
}
use hitbox.Storage.Moka as MokaStore
use hitbox.Storage.Moka.Builder as MokaBuilder
use hitbox.Storage.Feoxdb.Builder as FeoxdbBuilder
use hitbox.Storage.Redis.Builder as RedisBuilder
use hitbox.Config.Error.{ConfigError, backend_not_available}
use hitbox.Config.Answer.{bind}

pub data KeySerialization : Type 0 where
  url_encoded_keys bitcode_keys : KeySerialization

pub data ValueSerialization : Type 0 where
  json bincode rkyv : ValueSerialization

-- The levels are an u32 and an i32.
pub data Compression (I32 : Type 0) : Type 0 where
  disabled : Compression I32
  gzip : ℕ → Compression I32
  zstd : I32 → Compression I32

pub data ReadPolicy : Type 0 where
  sequential_read race_read parallel_read : ReadPolicy

pub data WritePolicy : Type 0 where
  sequential_write optimistic_parallel_write race_write : WritePolicy

pub data RefillPolicyConfig : Type 0 where
  always_refill never_refill : RefillPolicyConfig

pub record CompositionPolicyConfig : Type 0 where
  pub read : ReadPolicy
  pub write : WritePolicy
  pub refill : RefillPolicyConfig

pub record BackendConfig (I32 T : Type 0) : Type 0 where
  pub key_format : KeySerialization
  pub value_format : ValueSerialization
  pub compression : Compression I32
  pub backend : T

pub record Moka : Type 0 where
  pub max_capacity : ℕ
  pub label : Option String

pub record Redis : Type 0 where
  pub connection_string : String
  pub label : Option String

pub record FeOxDb : Type 0 where
  pub path : Option String
  pub label : Option String

-- `Backend`; a composition holds the fields of `CompositionConfig`.
pub data Configured (I32 : Type 0) : Type 0 where
  moka : BackendConfig I32 Moka → Configured I32
  feoxdb : BackendConfig I32 FeOxDb → Configured I32
  redis : BackendConfig I32 Redis → Configured I32
  composition :
      Configured I32 → Configured I32 → CompositionPolicyConfig → Option String → Configured I32

abbrev pub to_cache_key_format : KeySerialization → CacheKeyFormat
to_cache_key_format url_encoded_keys = url_encoded
to_cache_key_format bitcode_keys = bitcode

-- What configured backends are made with.
pub record Parts (I32 W C P B S F MP MB : Type 0) : Type 1 where
  pub json : Format C
  pub bincode : Format C
  pub rkyv : Format C
  pub gzip : ℕ → Compressor
  pub zstd : I32 → Compressor
  pub moka : MokaBuilder.CacheBuilder W MP MB
  pub stores : FeoxdbBuilder.StoreBuilder P B S
  pub to_path : String → P
  pub two : F
  pub of_feoxdb : FeoxdbBuilder.FeOxDbBackend S C → Backend W CacheKey C
  pub of_redis : RedisBuilder.RedisBackend F C → Backend W CacheKey C
  pub from_timestamp : ℕ → ℕ → Option ℕ
  pub order : CompositionLayer
  pub race_reads : Composed.ReadPolicy W
  pub parallel_reads : Composed.ReadPolicy W
  pub race_writes : Composed.WritePolicy W

abbrev pub labelled {ℓ} : {A : Type ℓ} → Option String → (BackendLabel → A → A) → A → A
labelled none set builder = builder
labelled (some label) set builder = set (record { name = label }) builder

abbrev pub available : {E A B : Type 0} → (E → String) → (A → B) → Result E A → Result ConfigError B
available text f (ok a) = ok (f a)
available text f (err e) = err (backend_not_available (text e))

-- The text of `hitbox_redis::Error`.
abbrev pub redis_text : RedisBuilder.Error → String
redis_text (RedisBuilder.redis e) = "Redis: Redis backend error: " ++ e
redis_text RedisBuilder.missing_connection_mode =
    "Redis: Connection mode not specified. Call .connection() before .build()"

abbrev pub to_refill : RefillPolicyConfig → Composed.RefillPolicy
to_refill always_refill = always
to_refill never_refill = never

module _ {I32 W C P B S F MP MB : Type 0} (parts : Parts I32 W C P B S F MP MB) where
  abbrev pub to_serializer : ValueSerialization → Format C
  to_serializer json = parts.json
  to_serializer bincode = parts.bincode
  to_serializer rkyv = parts.rkyv

  abbrev pub to_compressor : Compression I32 → Compressor
  to_compressor disabled = passthrough
  to_compressor (gzip level) = parts.gzip level
  to_compressor (zstd level) = parts.zstd level

  unfoldable pub into_moka : BackendConfig I32 Moka → Backend W CacheKey C
  into_moka config = MokaStore.backend (
      MokaBuilder.build_entries parts.moka (
        labelled config.backend.label MokaBuilder.with_label (
          MokaBuilder.max_entries config.backend.max_capacity (
            MokaBuilder.with_compressor (to_compressor config.compression) (
              MokaBuilder.value_format (to_serializer config.value_format) (
                MokaBuilder.with_key_format (to_cache_key_format config.key_format)
                  (MokaBuilder.new parts.json)))))))

  unfoldable pub into_redis : BackendConfig I32 Redis → Result ConfigError (Backend W CacheKey C)
  into_redis config = available redis_text parts.of_redis (
      RedisBuilder.build (
        labelled config.backend.label RedisBuilder.with_label (
          RedisBuilder.with_compressor (to_compressor config.compression) (
            RedisBuilder.with_value_format (to_serializer config.value_format) (
              RedisBuilder.with_key_format (to_cache_key_format config.key_format) (
                RedisBuilder.with_mode
                  (RedisBuilder.new_single parts.two config.backend.connection_string)
                  (RedisBuilder.default_builder parts.bincode)))))))

  abbrev at_path :
      Option String
      → FeoxdbBuilder.FeOxDbBackendBuilder P C
      → FeoxdbBuilder.FeOxDbBackendBuilder P C
  at_path none builder = builder
  at_path (some path) builder = FeoxdbBuilder.with_path (parts.to_path path) builder

  unfoldable pub into_feoxdb : BackendConfig I32 FeOxDb → Result ConfigError (Backend W CacheKey C)
  into_feoxdb config =
      available (λ e. "FeOxDb: " ++ e) parts.of_feoxdb
        (FeoxdbBuilder.build parts.stores (
          labelled config.backend.label FeoxdbBuilder.with_label (
            at_path config.backend.path (
              FeoxdbBuilder.with_compressor (to_compressor config.compression) (
                FeoxdbBuilder.with_value_format (to_serializer config.value_format) (
                  FeoxdbBuilder.with_key_format (to_cache_key_format config.key_format)
                    (FeoxdbBuilder.default_builder parts.json)))))))

  -- The policy of each of the nine branches, before its refill.
  unfoldable pub branch_policy : ReadPolicy → WritePolicy → CompositionPolicy W
  branch_policy sequential_read sequential_write =
      with_write Write.sequential (with_read sequential_reads (new_policy parts.order))
  branch_policy sequential_read optimistic_parallel_write =
      with_write (Write.optimistic_parallel parts.order)
        (with_read sequential_reads (new_policy parts.order))
  branch_policy sequential_read race_write =
      with_write parts.race_writes (with_read sequential_reads (new_policy parts.order))
  branch_policy race_read sequential_write =
      with_write Write.sequential (with_read parts.race_reads (new_policy parts.order))
  branch_policy race_read optimistic_parallel_write =
      with_write (Write.optimistic_parallel parts.order)
        (with_read parts.race_reads (new_policy parts.order))
  branch_policy race_read race_write =
      with_write parts.race_writes (with_read parts.race_reads (new_policy parts.order))
  branch_policy parallel_read sequential_write =
      with_write Write.sequential (with_read parts.parallel_reads (new_policy parts.order))
  branch_policy parallel_read optimistic_parallel_write =
      with_write (Write.optimistic_parallel parts.order)
        (with_read parts.parallel_reads (new_policy parts.order))
  branch_policy parallel_read race_write =
      with_write parts.race_writes (with_read parts.parallel_reads (new_policy parts.order))

  -- The trait object of a composition of two trait objects.
  unfoldable pub composed :
      CompositionPolicyConfig
      → Option String
      → Backend W CacheKey C
      → Backend W CacheKey C
      → Backend W CacheKey C
  composed policy label l1 l2 =
      as_backend
        (labelled label (λ l b. with_label b l)
          (compose_with parts.order (provided l1) (provided l2)
            (with_refill (to_refill policy.refill) (branch_policy policy.read policy.write))))
        parts.from_timestamp parts.order

  unfoldable pub into_backend : Configured I32 → Result ConfigError (Backend W CacheKey C)
  into_backend (moka config) = ok (into_moka config)
  into_backend (feoxdb config) = into_feoxdb config
  into_backend (redis config) = into_redis config
  into_backend (composition l1 l2 policy label) =
      bind (into_backend l1) (λ b1. bind (into_backend l2) (λ b2. ok (composed policy label b1 b2)))
