-- ===== src/Offload/Config.antt =====
-- hitbox/src/offload/policy.rs: the configuration of the offload manager and its builder. A duration
-- is a number of nanoseconds.
use hitbox.Prelude.{ℕ, Bool, true, Option, none, some}

pub data TimeoutPolicy : Type 0 where
  none_ : TimeoutPolicy
  cancel_ : ℕ → TimeoutPolicy
  warn : ℕ → TimeoutPolicy

pub record OffloadConfig : Type 0 where
  pub max_concurrent_tasks : Option ℕ
  pub timeout_policy : TimeoutPolicy
  pub deduplicate : Bool

-- `OffloadConfig::default()`
abbrev pub default_config : OffloadConfig
default_config = record { max_concurrent_tasks = none; timeout_policy = none_; deduplicate = true }

pub record OffloadConfigBuilder : Type 0 where
  pub max_concurrent_tasks : Option ℕ
  pub timeout_policy : TimeoutPolicy
  pub deduplicate : Bool

abbrev pub new_builder : OffloadConfigBuilder
new_builder = record { max_concurrent_tasks = none; timeout_policy = none_; deduplicate = true }

abbrev pub with_max : OffloadConfigBuilder → ℕ → OffloadConfigBuilder
with_max b max = record b { max_concurrent_tasks = some max }

abbrev pub with_policy : OffloadConfigBuilder → TimeoutPolicy → OffloadConfigBuilder
with_policy b policy = record b { timeout_policy = policy }

abbrev pub with_timeout : OffloadConfigBuilder → ℕ → OffloadConfigBuilder
with_timeout b duration = with_policy b (cancel_ duration)

abbrev pub with_deduplicate : OffloadConfigBuilder → Bool → OffloadConfigBuilder
with_deduplicate b enabled = record b { deduplicate = enabled }

abbrev pub build : OffloadConfigBuilder → OffloadConfig
build b = record {
  max_concurrent_tasks = b.max_concurrent_tasks;
  timeout_policy = b.timeout_policy;
  deduplicate = b.deduplicate;
}
