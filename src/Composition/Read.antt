-- ===== src/Composition/Read.antt =====
-- hitbox-backend/src/composition/policy/read: the three read policies.
pub mod Laws
use hitbox.Prelude.{ℕ, Bool, Option, none, some, ltb, if◌then◌else◌}
use hitbox.Core.Context.{BoxContext, cache_context, default_context, CompositionLayer, l1, l2}
use hitbox.Core.Value.{CacheValue, ttl}
use hitbox.Core.Response.{Result, ok, err}
use hitbox.Composition.Task.{Task, join, RaceLoserPolicy, loser}

pub record ReadResult (A : Type 0) : Type 0 where
  pub value : Option (CacheValue A)
  pub source : CompositionLayer
  pub context : BoxContext

-- What the read of one layer gives.
abbrev pub LayerRead : Type 0 → Type 0 → Type 0
LayerRead E A = Result E (Option (CacheValue A)) × BoxContext

-- Both layers gave nothing: no value, and a context made anew.
abbrev pub no_value : {A : Type 0} → ReadResult A
no_value = record { value = none; source = l2; context = cache_context default_context }

abbrev pub value_of : {A : Type 0} → CacheValue A → CompositionLayer → BoxContext → ReadResult A
value_of v layer ctx = record { value = some v; source = layer; context = ctx }

-- The match on the two remaining times, both layers having a value.
prefer : Option ℕ → Option ℕ → CompositionLayer
prefer (some t1) (some t2) = if ltb t1 t2 then l2 else l1
prefer (some t1) none = l2
prefer none (some t2) = l1
prefer none none = l1

module _ {A : Type 0} where
  pick : CompositionLayer → CacheValue A → BoxContext → CacheValue A → BoxContext → ReadResult A
  pick l1 v1 ctx1 v2 ctx2 = value_of v1 l1 ctx1
  pick l2 v1 ctx1 v2 ctx2 = value_of v2 l2 ctx2

module _ {E A : Type 0} where
  -- The match on the result of L2.
  second : LayerRead E A → Result E (ReadResult A)
  second (ok value, ctx) = ok (record { value = value; source = l2; context = ctx })
  second (err e, ctx) = err e

module _ {W E A : Type 0} where
  first : LayerRead E A → Task W (LayerRead E A) → Task W (Result E (ReadResult A))
  unfolding second
  first (ok (some v), ctx) read_l2 w = (ok (value_of v l1 ctx), w)
  first (ok none, ctx) read_l2 w = let (r, w') = read_l2 w in (second r, w')
  first (err e, ctx) read_l2 w = let (r, w') = read_l2 w in (second r, w')

  unfoldable pub sequential :
      Task W (LayerRead E A) → Task W (LayerRead E A) → Task W (Result E (ReadResult A))
  unfolding first
  sequential read_l1 read_l2 w = let (r, w') = read_l1 w in first r read_l2 w'

module _ {E A : Type 0} where
  -- The match on both results of `RaceReadPolicy`, which stands in it twice.
  aggregate : LayerRead E A → LayerRead E A → Result E (ReadResult A)
  aggregate (ok (some v), ctx1) r2 = ok (value_of v l1 ctx1)
  aggregate (ok none, ctx1) (ok (some v), ctx2) = ok (value_of v l2 ctx2)
  aggregate (err e1, ctx1) (ok (some v), ctx2) = ok (value_of v l2 ctx2)
  aggregate (ok none, ctx1) (ok none, ctx2) = ok no_value
  aggregate (err e1, ctx1) (err e2, ctx2) = err e2
  aggregate (ok none, ctx1) (err e2, ctx2) = ok no_value
  aggregate (err e1, ctx1) (ok none, ctx2) = ok no_value

  freshest : ℕ → LayerRead E A → LayerRead E A → Result E (ReadResult A)
  unfolding prefer pick ttl
  freshest now (ok (some v1), ctx1) (ok (some v2), ctx2) =
      ok (pick (prefer (ttl v1 now) (ttl v2 now)) v1 ctx1 v2 ctx2)
  freshest now (ok (some v1), ctx1) (ok none, ctx2) = ok (value_of v1 l1 ctx1)
  freshest now (ok (some v1), ctx1) (err e2, ctx2) = ok (value_of v1 l1 ctx1)
  freshest now (ok none, ctx1) (ok (some v), ctx2) = ok (value_of v l2 ctx2)
  freshest now (err e1, ctx1) (ok (some v), ctx2) = ok (value_of v l2 ctx2)
  freshest now (ok none, ctx1) (ok none, ctx2) = ok no_value
  freshest now (err e1, ctx1) (err e2, ctx2) = err e2
  freshest now (ok none, ctx1) (err e2, ctx2) = ok no_value
  freshest now (err e1, ctx1) (ok none, ctx2) = ok no_value

module _ {W E A : Type 0} where
  -- `select` gave the result of L1 first.
  l1_won :
      RaceLoserPolicy
      → LayerRead E A
      → Task W (LayerRead E A)
      → Task W (Result E (ReadResult A) × Option CompositionLayer)
  unfolding aggregate loser
  l1_won policy (ok (some v), ctx) read_l2 w = ((ok (value_of v l1 ctx), loser policy l2), w)
  l1_won policy (ok none, ctx) read_l2 w =
      let (r, w') = read_l2 w in ((aggregate (ok none, ctx) r, none), w')
  l1_won policy (err e, ctx) read_l2 w =
      let (r, w') = read_l2 w in ((aggregate (err e, ctx) r, none), w')

  l2_won :
      RaceLoserPolicy
      → LayerRead E A
      → Task W (LayerRead E A)
      → Task W (Result E (ReadResult A) × Option CompositionLayer)
  unfolding aggregate loser
  l2_won policy (ok (some v), ctx) read_l1 w = ((ok (value_of v l2 ctx), loser policy l1), w)
  l2_won policy (ok none, ctx) read_l1 w =
      let (r, w') = read_l1 w in ((aggregate r (ok none, ctx), none), w')
  l2_won policy (err e, ctx) read_l1 w =
      let (r, w') = read_l1 w in ((aggregate r (err e, ctx), none), w')

  -- The second result is the loser that was offloaded.
  unfoldable pub race :
      RaceLoserPolicy
      → CompositionLayer
      → Task W (LayerRead E A)
      → Task W (LayerRead E A)
      → Task W (Result E (ReadResult A) × Option CompositionLayer)
  unfolding l1_won l2_won
  race policy l1 read_l1 read_l2 w = let (r, w') = read_l1 w in l1_won policy r read_l2 w'
  race policy l2 read_l1 read_l2 w = let (r, w') = read_l2 w in l2_won policy r read_l1 w'

  unfoldable pub parallel :
      ℕ
      → CompositionLayer
      → Task W (LayerRead E A)
      → Task W (LayerRead E A)
      → Task W (Result E (ReadResult A))
  unfolding join freshest
  parallel now order read_l1 read_l2 w =
      let ((r1, r2), w') = join order read_l1 read_l2 w in (freshest now r1 r2, w')
