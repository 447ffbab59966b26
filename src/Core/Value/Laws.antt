-- ===== src/Core/Value/Laws.antt =====
-- The life of a cached value (hitbox-core/src/value.rs): actual, then stale, then expired.
use hitbox.Prelude.{ℕ, suc, ◌+◌, ◌*◌, ◌≤◌, ◌<◌, some, ◌≡◌, ◌≢◌, arith}
use hitbox.Core.Value.{
  CacheValue, CacheState, stale, actual, expired, cache_state, ttl, nanos_per_second,
}

module _ {A : Type 0} where
  -- How far along its life a value is.
  abbrev pub phase : CacheState A → ℕ
  phase (actual a) = 0
  phase (stale a) = 1
  phase (expired a) = 2

module _ {A : Type 0} (v : CacheValue A) (now : ℕ) where
  -- As time goes by a value never grows younger: what is stale does not become actual again, and
  -- what has expired stays so.
  pub cache_state-monotone :
      (later : ℕ) → now ≤ later → phase (cache_state v now) ≤ phase (cache_state v later)
  unfolding cache_state
  cache_state-monotone later h = ground arith

  -- A value that expires at `t` and has `secs` whole seconds left has not expired, and `t` is that
  -- many seconds away, and less than one more.
  pub ttl_sound :
      (secs t : ℕ)
      → v.expire ≡ some t
      → ttl v now ≡ some secs
      → (now + secs * nanos_per_second ≤ t)
        × (t < now + suc secs * nanos_per_second)
        × (cache_state v now ≢ expired v)
  unfolding ttl cache_state
  ttl_sound secs t at h = ground (arith, at, h)
