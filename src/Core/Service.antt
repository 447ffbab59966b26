-- ===== src/Core/Service.antt =====
-- hitbox/src/config.rs: the configuration that a service is given, and its builder. A shared pointer
-- is what it points to.
use hitbox.Prelude.{◌≡◌, refl}
use hitbox.Core.Policy.{PolicyConfig, default_policy_config}

-- The trait `CacheConfig`, with the types of its three parts.
pub record CacheConfig (Req Res Ext : Type 0) : Type 0 where
  pub request_predicates : Req
  pub response_predicates : Res
  pub extractors : Ext
  pub policy : PolicyConfig

pub record Config (Req Res Ext : Type 0) : Type 0 where
  pub request_predicate : Req
  pub response_predicate : Res
  pub extractor : Ext
  pub policy : PolicyConfig

pub record ConfigBuilder (Req Res Ext : Type 0) : Type 0 where
  pub request_predicate : Req
  pub response_predicate : Res
  pub extractor : Ext
  pub policy : PolicyConfig

pub data NotSet : Type 0 where
  not_set : NotSet

abbrev pub new_builder : ConfigBuilder NotSet NotSet NotSet
new_builder = record {
  request_predicate = not_set;
  response_predicate = not_set;
  extractor = not_set;
  policy = default_policy_config;
}

module _ {Req Res Ext : Type 0} where
  unfoldable pub clone : Config Req Res Ext → Config Req Res Ext
  clone c = record {
    request_predicate = c.request_predicate;
    response_predicate = c.response_predicate;
    extractor = c.extractor;
    policy = c.policy;
  }

  unfoldable pub as_cache_config : Config Req Res Ext → CacheConfig Req Res Ext
  as_cache_config c = record {
    request_predicates = c.request_predicate;
    response_predicates = c.response_predicate;
    extractors = c.extractor;
    policy = c.policy;
  }

  -- The configuration behind a shared pointer.
  unfoldable pub shared : CacheConfig Req Res Ext → CacheConfig Req Res Ext
  shared c = record {
    request_predicates = c.request_predicates;
    response_predicates = c.response_predicates;
    extractors = c.extractors;
    policy = c.policy;
  }

  unfoldable pub with_request_predicate :
      {New : Type 0} → New → ConfigBuilder Req Res Ext → ConfigBuilder New Res Ext
  with_request_predicate predicate b = record {
    request_predicate = predicate;
    response_predicate = b.response_predicate;
    extractor = b.extractor;
    policy = b.policy;
  }

  unfoldable pub with_response_predicate :
      {New : Type 0} → New → ConfigBuilder Req Res Ext → ConfigBuilder Req New Ext
  with_response_predicate predicate b = record {
    request_predicate = b.request_predicate;
    response_predicate = predicate;
    extractor = b.extractor;
    policy = b.policy;
  }

  unfoldable pub with_extractor :
      {New : Type 0} → New → ConfigBuilder Req Res Ext → ConfigBuilder Req Res New
  with_extractor extractor b = record {
    request_predicate = b.request_predicate;
    response_predicate = b.response_predicate;
    extractor = extractor;
    policy = b.policy;
  }

  unfoldable pub with_policy : PolicyConfig → ConfigBuilder Req Res Ext → ConfigBuilder Req Res Ext
  with_policy policy b = record b { policy = policy }

  unfoldable pub build : ConfigBuilder Req Res Ext → Config Req Res Ext
  build b = record {
    request_predicate = b.request_predicate;
    response_predicate = b.response_predicate;
    extractor = b.extractor;
    policy = b.policy;
  }

-- A service sees of a configuration what was given to its builder, in whatever order, also
-- through a copy and through a shared pointer.
pub build-new_builder_order :
    {Req Res Ext : Type 0} (request : Req) (response : Res) (extractor : Ext)
    (policy : PolicyConfig)
    → (as_cache_config (
          clone (
            build (
              with_policy policy (
                with_extractor extractor (
                  with_response_predicate response (with_request_predicate request new_builder))))))
        ≡ record {
          request_predicates = request;
          response_predicates = response;
          extractors = extractor;
          policy = policy;
        })
      × (shared (
            as_cache_config (
              build (
                with_request_predicate request (
                  with_response_predicate response
                    (with_extractor extractor (with_policy policy new_builder))))))
          ≡ record {
            request_predicates = request;
            response_predicates = response;
            extractors = extractor;
            policy = policy;
          })
unfolding shared as_cache_config clone build with_policy with_extractor with_response_predicate
    with_request_predicate
build-new_builder_order request response extractor policy = (refl, refl)
