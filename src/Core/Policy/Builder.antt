-- ===== src/Core/Policy/Builder.antt =====
-- hitbox/src/policy.rs: `PolicyConfigBuilder`.
use hitbox.Prelude.{ℕ, none, some}
use hitbox.Core.Policy.{PolicyConfigBuilder, StalePolicy, return, PolicyConfig, enabled}

abbrev pub new : PolicyConfigBuilder
new = record { ttl = none; stale = none; stale_policy = return; concurrency = none }

unfoldable pub with_ttl : PolicyConfigBuilder → ℕ → PolicyConfigBuilder
with_ttl b d = record b { ttl = some d }

unfoldable pub with_stale : PolicyConfigBuilder → ℕ → PolicyConfigBuilder
with_stale b d = record b { stale = some d }

unfoldable pub with_stale_policy : PolicyConfigBuilder → StalePolicy → PolicyConfigBuilder
with_stale_policy b p = record b { stale_policy = p }

unfoldable pub with_concurrency : PolicyConfigBuilder → ℕ → PolicyConfigBuilder
with_concurrency b n = record b { concurrency = some n }

unfoldable pub build : PolicyConfigBuilder → PolicyConfig
build b =
    enabled (record {
      ttl = b.ttl;
      stale = b.stale;
      policy = b.stale_policy;
      concurrency = b.concurrency;
    })
