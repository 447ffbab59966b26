-- ===== src/Composition/Write/Laws.antt =====
-- What the write policies of hitbox-backend/src/composition/policy/write promise, for layers whose
-- writes give `r1` and `r2` and leave the marks `t1` and `t2` on the state.
use hitbox.Prelude.{Bool, true, false, ◌&&◌, ◌||◌, ◌≡◌, arith}
use hitbox.Core.Context.{CompositionLayer}
use hitbox.Core.Response.{ok, err}
use hitbox.Composition.Task.{leaving, RaceLoserPolicy}
use hitbox.Composition.Write.{Written, sequential, optimistic_parallel, race}

abbrev pub succeeds : Written → Bool
succeeds (ok u) = true
succeeds (err e) = false

module _ {W : Type 0} (r1 r2 : Written) (t1 t2 : W → W) (order : CompositionLayer)
    (policy : RaceLoserPolicy) (w : W) where
  -- The sequential policy succeeds exactly when both layers do, the other two when one does.
  pub succeeds_iff :
      (succeeds (sequential (leaving r1 t1) (leaving r2 t2) w).0 ≡ (succeeds r1 && succeeds r2))
      × (succeeds (optimistic_parallel order (leaving r1 t1) (leaving r2 t2) w).0
          ≡ (succeeds r1 || succeeds r2))
      × (succeeds (race policy order (leaving r1 t1) (leaving r2 t2) w).0.0
          ≡ (succeeds r1 || succeeds r2))
  unfolding sequential optimistic_parallel race
  succeeds_iff = ground arith

  -- A race answers as the optimistic policy does, whichever layer is first; so an error names both
  -- layers' errors, in their order.
  pub race-eq-optimistic_parallel :
      (race policy order (leaving r1 t1) (leaving r2 t2) w).0.0
      ≡ (optimistic_parallel order (leaving r1 t1) (leaving r2 t2) w).0
  unfolding race optimistic_parallel
  race-eq-optimistic_parallel = ground arith
