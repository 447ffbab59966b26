-- ===== src/Http/Response/Laws.antt =====
-- What requests and responses keep on their way into the cache and out of it,
-- hitbox-http/src/{request,response,cache_status}.rs.
use hitbox.Prelude.{◌≡◌, refl, sym}
use hitbox.Core.Policy.{CachePolicy, cacheable, non_cacheable}
use hitbox.Core.Response.{Result, ok, err}
use hitbox.Http.Body.{Bytes, Stream, HttpBody, BufferedBody}
use hitbox.Http.Body.Content.{content, stream_content}
use hitbox.Http.Body.Collect.{collect}
use hitbox.Http.Body.Whole.{outcome, KeepsContent, collect-KeepsContent}
use hitbox.Http.Response.{
  Version, http_09, http_10, http_11, http_2, http_3, CacheableHttpResponse,
  SerializableHttpResponse, cached, into_cached, from_cached, version_to_u8, u8_to_version,
}

module _ {E Map Ext : Type 0} (http : HttpBody E)
    (collects : (s : Stream E) → http.collect s ≡ outcome (stream_content s)) (empty : Ext) where
  -- What a response is kept as: either its cached form, out of which comes a response of the same
  -- status, version, headers and bytes, without extensions, and the bytes had no error; or a response
  -- of the same parts whose body has the same error and the first bytes of what it had.
  abbrev pub Kept :
      CacheableHttpResponse E Map Ext
      → CachePolicy (SerializableHttpResponse Map) (CacheableHttpResponse E Map Ext)
      → Type 0
  Kept r (cacheable c) =
      ((from_cached http empty c).parts ≡ record (r.parts) { extensions = empty })
      × (content (from_cached http empty c).body ≡ content r.body)
  Kept r (non_cacheable r') = (r'.parts ≡ r.parts) × KeepsContent (content r.body) (err r'.body)

  cached-Kept :
      (r : CacheableHttpResponse E Map Ext) (res : Result (BufferedBody E) Bytes)
      → KeepsContent (content r.body) res
      → Kept r (cached http r.parts res)
  unfolding cached from_cached
  cached-Kept r (ok bytes) h = (refl, sym h)
  cached-Kept r (err b) h = (refl, h)

  -- A response that is put in its cached form and taken out of it again has the same status,
  -- version, headers and bytes; where its body fails, it is not cached and has the same parts, the
  -- same error and the first of its bytes. The library's collecting is taken to give a stream's
  -- bytes or its first error.
  pub from_cached-into_cached : (r : CacheableHttpResponse E Map Ext) → Kept r (into_cached http r)
  unfolding into_cached
  from_cached-into_cached r =
      cached-Kept r (collect http r.body) (collect-KeepsContent http collects r.body)

-- A version is read back from the number it is archived as.
pub u8_to_version-version_to_u8 : (v : Version) → u8_to_version (version_to_u8 v) ≡ v
unfolding u8_to_version version_to_u8
u8_to_version-version_to_u8 http_09 = refl
u8_to_version-version_to_u8 http_10 = refl
u8_to_version-version_to_u8 http_11 = refl
u8_to_version-version_to_u8 http_2 = refl
u8_to_version-version_to_u8 http_3 = refl
