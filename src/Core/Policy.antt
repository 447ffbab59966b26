-- ===== src/Core/Policy.antt =====
-- hitbox-core/src/policy.rs and hitbox/src/policy.rs: what to cache, and for how long.
-- A duration is a number of nanoseconds.
pub mod Builder
use hitbox.Prelude.{ℕ, ◌*◌, Option, none, some}
use hitbox.Core.Value.{nanos_per_second}

pub data CachePolicy (C N : Type 0) : Type 0 where
  cacheable : C → CachePolicy C N
  non_cacheable : N → CachePolicy C N

pub record EntityPolicyConfig : Type 0 where
  pub ttl : Option ℕ
  pub stale_ttl : Option ℕ

-- `EntityPolicyConfig::default()`
abbrev pub default_entity_config : EntityPolicyConfig
default_entity_config = record { ttl = none; stale_ttl = none }

pub data StalePolicy : Type 0 where
  return revalidate offload_revalidate : StalePolicy

-- `policy` is the field `policy.stale` of the source; a concurrency limit is from 1 to 255.
pub record EnabledCacheConfig : Type 0 where
  pub ttl : Option ℕ
  pub stale : Option ℕ
  pub policy : StalePolicy
  pub concurrency : Option ℕ

-- `EnabledCacheConfig::default()`
abbrev pub default_enabled_config : EnabledCacheConfig
default_enabled_config = record {
  ttl = some (5 * nanos_per_second);
  stale = none;
  policy = return;
  concurrency = none;
}

pub data PolicyConfig : Type 0 where
  enabled : EnabledCacheConfig → PolicyConfig
  disabled : PolicyConfig

-- `PolicyConfig::default()`
abbrev pub default_policy_config : PolicyConfig
default_policy_config = enabled default_enabled_config

pub record PolicyConfigBuilder : Type 0 where
  pub ttl : Option ℕ
  pub stale : Option ℕ
  pub stale_policy : StalePolicy
  pub concurrency : Option ℕ
