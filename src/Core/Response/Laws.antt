-- ===== src/Core/Response/Laws.antt =====
-- What the cache policy of a response decides (hitbox-core/src/response.rs).
use hitbox.Prelude.{ℕ, ◌+◌, some, ◌≡◌, arith, leb, if◌then◌else◌}
use hitbox.Core.Value.{CacheValue, stale, actual, expired, cache_state}
use hitbox.Core.Policy.{cacheable, EntityPolicyConfig}
use hitbox.Core.Predicate.{PredicateResult, Predicate}
use hitbox.Core.Response.{Result, ok, err, CacheableResponse, cache_policy}

module _ {T Cached : Type 0} (inner : CacheableResponse T Cached) where
  -- What a successful response is cached as, by its own type's conversion.
  abbrev pub IsCachedAs : Cached → PredicateResult T → Type 0
  IsCachedAs c (PredicateResult.cacheable r) = inner.into_cached r ≡ cacheable c
  IsCachedAs c (PredicateResult.non_cacheable r) = ⊥

module _ {T E Cached : Type 0} (inner : CacheableResponse T Cached) (predicates : Predicate T) where
  abbrev pub IsStorable : Cached → Result E T → Type 0
  IsStorable c (ok r) = IsCachedAs inner c (predicates r)
  IsStorable c (err e) = ⊥

module _ {T E Cached : Type 0} (inner : CacheableResponse T Cached) (now : ℕ)
    (response : Result E T) (predicates : Predicate T) (config : EntityPolicyConfig) where
  -- What is cached is a successful response that the predicates accept and that its own type makes
  -- a cached value of, and the cached value is that one.
  pub cacheable_only :
      (v : CacheValue Cached)
      → cache_policy inner now response predicates config ≡ cacheable v
      → IsStorable inner predicates v.data_ response
  unfolding cache_policy
  cacheable_only v h = ground (arith, h)

  -- A response cached now, with a time to live and a time to staleness, is `k` nanoseconds later
  -- expired if its time to live is over, else stale if the other time is, else actual.
  pub cached_life :
      (v : CacheValue Cached) (d s k : ℕ)
      → cache_policy inner now response predicates config ≡ cacheable v
      → config.ttl ≡ some d
      → config.stale_ttl ≡ some s
      → cache_state v (now + k)
        ≡ (if leb d k then expired v else if leb s k then stale v else actual v)
  unfolding cache_policy cache_state
  cached_life v d s k h hd hs = ground (arith, h, hd, hs)
