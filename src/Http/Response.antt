-- ===== src/Http/Response.antt =====
-- hitbox-http/src/{request,response,cache_status}.rs: requests and responses as the cache sees them.
-- The header map, the extensions and the bodies' streams are libraries': parameters.
pub mod Laws
pub mod Requests
pub mod Chains
use hitbox.Prelude.{ℕ, String, Bool, Option, none, some, ◌==◌, if◌then◌else◌}
use hitbox.Core.Context.{CacheStatus, hit, miss, stale}
use hitbox.Core.Value.{CacheValue}
use hitbox.Core.Policy.{CachePolicy, cacheable, non_cacheable, EntityPolicyConfig}
use hitbox.Core.Predicate.{PredicateResult, Predicate}
use hitbox.Core.Response.{Result, ok, err, after}
use hitbox.Fsm.World.{CacheablePolicyData}
use hitbox.Key.{CacheKey, KeyParts, into_cache_key}
use hitbox.Http.Body.{Bytes, HttpBody, BufferedBody, complete}
use hitbox.Http.Body.Collect.{collect}
use hitbox.Http.Extractors.{Extractor}

-- `http::Version`
pub data Version : Type 0 where
  http_09 http_10 http_11 http_2 http_3 : Version

-- `http::response::Parts`
pub record Parts (Map Ext : Type 0) : Type 0 where
  pub status : ℕ
  pub version : Version
  pub headers : Map
  pub extensions : Ext

pub record CacheableHttpResponse (E Map Ext : Type 0) : Type 0 where
  pub parts : Parts Map Ext
  pub body : BufferedBody E

pub record SerializableHttpResponse (Map : Type 0) : Type 0 where
  pub status : ℕ
  pub version : Version
  pub body : Bytes
  pub headers : Map

module _ {E Map Ext : Type 0} (http : HttpBody E) where
  -- The match of `into_cached` on what `collect` gives.
  unfoldable pub cached :
      Parts Map Ext
      → Result (BufferedBody E) Bytes
      → CachePolicy (SerializableHttpResponse Map) (CacheableHttpResponse E Map Ext)
  cached parts (ok bytes) = cacheable (record {
    status = parts.status;
    version = parts.version;
    body = bytes;
    headers = parts.headers;
  })
  cached parts (err b) = non_cacheable (record { parts = parts; body = b })

  unfoldable pub into_cached :
      CacheableHttpResponse E Map Ext
      → CachePolicy (SerializableHttpResponse Map) (CacheableHttpResponse E Map Ext)
  unfolding cached
  into_cached response = cached response.parts (collect http response.body)

  -- A response is new: its extensions are the empty ones, a parameter.
  unfoldable pub from_cached : Ext → SerializableHttpResponse Map → CacheableHttpResponse E Map Ext
  from_cached empty c = record {
    parts = record {
      status = c.status;
      version = c.version;
      headers = c.headers;
      extensions = empty;
    };
    body = complete (some c.body);
  }

  module _ (now : ℕ) (config : EntityPolicyConfig) where
    store :
        CachePolicy (SerializableHttpResponse Map) (CacheableHttpResponse E Map Ext)
        → CachePolicy (CacheValue (SerializableHttpResponse Map)) (CacheableHttpResponse E Map Ext)
    store (cacheable res) = cacheable (record {
      data_ = res;
      expire = after now config.ttl;
      stale_at = after now config.stale_ttl;
    })
    store (non_cacheable res) = non_cacheable res

    unfoldable pub on_checked :
        PredicateResult (CacheableHttpResponse E Map Ext)
        → CachePolicy (CacheValue (SerializableHttpResponse Map)) (CacheableHttpResponse E Map Ext)
    unfolding store into_cached
    on_checked (PredicateResult.cacheable res) = store (into_cached res)
    on_checked (PredicateResult.non_cacheable res) = non_cacheable res

    unfoldable pub cache_policy :
        Predicate (CacheableHttpResponse E Map Ext)
        → CacheableHttpResponse E Map Ext
        → CachePolicy (CacheValue (SerializableHttpResponse Map)) (CacheableHttpResponse E Map Ext)
    unfolding on_checked
    cache_policy predicates response = on_checked (predicates response)

module _ {S : Type 0} where
  -- The end of `cache_policy` of a request.
  unfoldable pub request_checked : CacheKey → PredicateResult S → CachePolicy (CacheKey × S) S
  request_checked key (PredicateResult.cacheable s) = cacheable (key, s)
  request_checked key (PredicateResult.non_cacheable s) = non_cacheable s

  unfoldable pub request_cache_policy :
      (String → ℕ) → Predicate S → Extractor S → S → CachePolicy (CacheKey × S) S
  unfolding request_checked into_cache_key
  request_cache_policy len predicates extractors s =
      let (request, key) = into_cache_key len (extractors s) in
      request_checked key (predicates request)

-- The number of a version in the archived form of a response, and back. Other numbers are 1.1.
unfoldable pub version_to_u8 : Version → ℕ
version_to_u8 http_09 = 9
version_to_u8 http_10 = 10
version_to_u8 http_11 = 11
version_to_u8 http_2 = 20
version_to_u8 http_3 = 30

unfoldable pub u8_to_version : ℕ → Version
u8_to_version n =
    if n == 9
    then http_09
    else (if n == 10
        then http_10
        else (if n == 11
            then http_11
            else (if n == 20 then http_2 else (if n == 30 then http_3 else http_11))))

-- `cache_status`: the value of the header, which `insert` puts in the map in place of any other.
abbrev pub status_value : CacheStatus → String
status_value hit = "HIT"
status_value miss = "MISS"
status_value stale = "STALE"

module _ {E Map Ext Name : Type 0} (insert : Name → String → Map → Map) where
  unfoldable pub cache_status :
      CacheStatus → Name → CacheableHttpResponse E Map Ext → CacheableHttpResponse E Map Ext
  cache_status status config response = record response {
    parts = record (response.parts) {
      headers = insert config (status_value status) response.parts.headers;
    };
  }
