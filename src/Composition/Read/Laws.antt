-- ===== src/Composition/Read/Laws.antt =====
-- What the read policies of hitbox-backend/src/composition/policy/read promise, for layers whose
-- reads give `r1` and `r2` and leave the marks `t1` and `t2` on the state.
use hitbox.Prelude.{
  ℕ, Bool, true, false, not, ◌&&◌, ◌||◌, Option, none, some, ◌≡◌, arith, ltb, if◌then◌else◌,
}
use hitbox.Core.Context.{CompositionLayer, l1, l2}
use hitbox.Core.Value.{CacheValue, expired, cache_state, ttl}
use hitbox.Core.Response.{Result, ok, err}
use hitbox.Composition.Task.{leaving, RaceLoserPolicy}
use hitbox.Composition.Read.{ReadResult, LayerRead, value_of, sequential, race, parallel}

module _ {E A : Type 0} where
  abbrev pub has_value : Result E (Option A) → Bool
  has_value (ok (some a)) = true
  has_value (ok none) = false
  has_value (err e) = false

abbrev pub fails : {E A : Type 0} → Result E A → Bool
fails (ok a) = false
fails (err e) = true

abbrev pub value_found : {E A : Type 0} → Result E (ReadResult A) → Bool
value_found (ok r) = elim r.value [ none ↦ false | some v ↦ true ]
value_found (err e) = false

module _ {W E A : Type 0} (r1 r2 : LayerRead E A) (t1 t2 : W → W) (now : ℕ)
    (order : CompositionLayer) (policy : RaceLoserPolicy) (w : W) where
  -- Each of the three policies gives a value exactly when one of the layers has one, whichever layer
  -- answers first.
  pub value_found_iff :
      (value_found (sequential (leaving r1 t1) (leaving r2 t2) w).0
        ≡ (has_value r1.0 || has_value r2.0))
      × (value_found (race policy order (leaving r1 t1) (leaving r2 t2) w).0.0
          ≡ (has_value r1.0 || has_value r2.0))
      × (value_found (parallel now order (leaving r1 t1) (leaving r2 t2) w).0
          ≡ (has_value r1.0 || has_value r2.0))
  unfolding sequential race parallel
  value_found_iff = ground arith

  -- The sequential policy fails when L1 has no value and L2 fails, also where L1 was a miss; the
  -- other two fail only when both layers do.
  pub fails_iff :
      (fails (sequential (leaving r1 t1) (leaving r2 t2) w).0
        ≡ (not (has_value r1.0) && fails r2.0))
      × (fails (race policy order (leaving r1 t1) (leaving r2 t2) w).0.0
          ≡ (fails r1.0 && fails r2.0))
      × (fails (parallel now order (leaving r1 t1) (leaving r2 t2) w).0
          ≡ (fails r1.0 && fails r2.0))
  unfolding sequential race parallel
  fails_iff = ground arith

  -- Which layer answers first decides the race only where both layers have a value.
  pub race-order :
      has_value r1.0 && has_value r2.0 ≡ false
      → (race policy l1 (leaving r1 t1) (leaving r2 t2) w).0.0
        ≡ (race policy l2 (leaving r1 t1) (leaving r2 t2) w).0.0
  unfolding race
  race-order h = ground arith

  -- Of two values that have whole seconds left the parallel policy gives the one that has more, and
  -- that of L1 where they have as many.
  pub parallel-freshest :
      (v1 v2 : CacheValue A) (s1 s2 : ℕ)
      → r1.0 ≡ ok (some v1)
      → r2.0 ≡ ok (some v2)
      → ttl v1 now ≡ some s1
      → ttl v2 now ≡ some s2
      → (parallel now order (leaving r1 t1) (leaving r2 t2) w).0
        ≡ ok (if ltb s1 s2 then value_of v2 l2 r2.1 else value_of v1 l1 r1.1)
  unfolding parallel
  parallel-freshest v1 v2 s1 s2 h1 h2 left1 left2 = ground (arith, h1, h2, left1, left2)

  -- The parallel policy takes a value that has expired for one that never does: an expired value of
  -- L2 is given in place of one of L1 that has whole seconds left.
  pub parallel-expired_l2 :
      (v1 v2 : CacheValue A) (s1 : ℕ)
      → r1.0 ≡ ok (some v1)
      → r2.0 ≡ ok (some v2)
      → ttl v1 now ≡ some s1
      → cache_state v2 now ≡ expired v2
      → (parallel now order (leaving r1 t1) (leaving r2 t2) w).0 ≡ ok (value_of v2 l2 r2.1)
  unfolding parallel cache_state
  parallel-expired_l2 v1 v2 s1 h1 h2 left gone = ground (arith, h1, h2, left, gone)
