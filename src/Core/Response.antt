-- ===== src/Core/Response.antt =====
-- hitbox-core/src/response.rs: the impl of `CacheableResponse` for `Result<T, E>`, over the impl
-- for `T`, which is a parameter.
pub mod Laws
use hitbox.Prelude.{ℕ, ◌+◌, Option, none, some}
use hitbox.Core.Value.{CacheValue}
use hitbox.Core.Policy.{CachePolicy, cacheable, non_cacheable, EntityPolicyConfig}
use hitbox.Core.Predicate.{PredicateResult, Predicate}

pub data Result (E A : Type 0) : Type 0 where
  ok : A → Result E A
  err : E → Result E A

-- `into_cached` and `from_cached` of the type `T` of a successful response.
pub record CacheableResponse (T Cached : Type 0) : Type 0 where
  pub into_cached : T → CachePolicy Cached T
  pub from_cached : Cached → T

-- `duration.map(|duration| Utc::now() + duration)`
abbrev pub after : ℕ → Option ℕ → Option ℕ
after now none = none
after now (some d) = some (now + d)

module _ {T E Cached : Type 0} (inner : CacheableResponse T Cached) (now : ℕ) where
  store : EntityPolicyConfig → CachePolicy Cached T → CachePolicy (CacheValue Cached) (Result E T)
  store config (cacheable res) =
      cacheable (record {
        data_ = res;
        expire = after now config.ttl;
        stale_at = after now config.stale_ttl;
      })
  store config (non_cacheable res) = non_cacheable (ok res)

  decide_ : EntityPolicyConfig → PredicateResult T → CachePolicy (CacheValue Cached) (Result E T)
  unfolding store
  decide_ config (PredicateResult.cacheable r) = store config (inner.into_cached r)
  decide_ config (PredicateResult.non_cacheable r) = non_cacheable (ok r)

  unfoldable pub cache_policy :
      Result E T → Predicate T → EntityPolicyConfig → CachePolicy (CacheValue Cached) (Result E T)
  unfolding decide_
  cache_policy (ok response) predicates config = decide_ config (predicates response)
  cache_policy (err e) predicates config = non_cacheable (err e)

module _ {T E Cached : Type 0} (inner : CacheableResponse T Cached) where
  wrap : CachePolicy Cached T → CachePolicy Cached (Result E T)
  wrap (cacheable res) = cacheable res
  wrap (non_cacheable res) = non_cacheable (ok res)

  unfoldable pub into_cached : Result E T → CachePolicy Cached (Result E T)
  unfolding wrap
  into_cached (ok response) = wrap (inner.into_cached response)
  into_cached (err e) = non_cacheable (err e)

  unfoldable pub from_cached : Cached → Result E T
  from_cached c = ok (inner.from_cached c)

module _ {E A B : Type 0} where
  -- The operator `?` of the language.
  abbrev pub chain : Result E A → (A → Result E B) → Result E B
  chain (ok a) f = f a
  chain (err e) f = err e
