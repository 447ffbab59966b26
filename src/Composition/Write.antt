-- ===== src/Composition/Write.antt =====
-- hitbox-backend/src/composition/policy/write: the three write policies.
pub mod Laws
use hitbox.Prelude.{Option, none}
use hitbox.Core.Context.{CompositionLayer, l1, l2}
use hitbox.Core.Response.{Result, ok, err}
use hitbox.Composition.Error.{BackendError, both_layers_failed}
use hitbox.Composition.Task.{Task, join, RaceLoserPolicy, loser}

-- `Result<(), BackendError>`
abbrev pub Written : Type 0
Written = Result BackendError (Unit {0})

-- The match on both results of `OptimisticParallelWritePolicy`.
one_succeeded : Written → Written → Written
one_succeeded (ok u) r2 = ok tt
one_succeeded (err e1) (ok u) = ok tt
one_succeeded (err e1) (err e2) = err (both_layers_failed e1 e2)

module _ {W : Type 0} where
  then : Written → Task W Written → Task W Written
  then (ok u) write_l2 w = write_l2 w
  then (err e) write_l2 w = (err e, w)

  unfoldable pub sequential : Task W Written → Task W Written → Task W Written
  unfolding then
  sequential write_l1 write_l2 w = let (r, w') = write_l1 w in then r write_l2 w'

  unfoldable pub optimistic_parallel :
      CompositionLayer → Task W Written → Task W Written → Task W Written
  unfolding join one_succeeded
  optimistic_parallel order write_l1 write_l2 w =
      let ((r1, r2), w') = join order write_l1 write_l2 w in (one_succeeded r1 r2, w')

  -- `select` gave the result of L1 first, and L2's is awaited only after a failure.
  l1_won : RaceLoserPolicy → Written → Task W Written → Task W (Written × Option CompositionLayer)
  unfolding one_succeeded loser
  l1_won policy (ok u) write_l2 w = ((ok tt, loser policy l2), w)
  l1_won policy (err e1) write_l2 w =
      let (r2, w') = write_l2 w in ((one_succeeded (err e1) r2, none), w')

  -- `select` gave the result of L2 first; the errors are reported in the order of the layers.
  l2_won : RaceLoserPolicy → Written → Task W Written → Task W (Written × Option CompositionLayer)
  unfolding one_succeeded loser
  l2_won policy (ok u) write_l1 w = ((ok tt, loser policy l1), w)
  l2_won policy (err e2) write_l1 w =
      let (r1, w') = write_l1 w in ((one_succeeded r1 (err e2), none), w')

  -- The second result is the loser that was offloaded.
  unfoldable pub race :
      RaceLoserPolicy
      → CompositionLayer
      → Task W Written
      → Task W Written
      → Task W (Written × Option CompositionLayer)
  unfolding l1_won l2_won
  race policy l1 write_l1 write_l2 w = let (r, w') = write_l1 w in l1_won policy r write_l2 w'
  race policy l2 write_l1 write_l2 w = let (r, w') = write_l2 w in l2_won policy r write_l1 w'
