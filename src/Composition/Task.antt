-- ===== src/Composition/Task.antt =====
-- The closures that hitbox-backend/src/composition hands to its policies. A task works on the state
-- `W` of the two layers in one piece; where the source joins or races two tasks, an argument says
-- which completes first. A task runs in one piece, so the loser of a race has not run yet when the
-- winner completes.
use hitbox.Prelude.{Option}
use hitbox.Core.Context.{CompositionLayer, l1, l2}

abbrev pub Task : Type 0 → Type 0 → Type 0
Task W A = W → A × W

module _ {W A B : Type 0} where
  -- `futures::join!`
  unfoldable pub join : CompositionLayer → Task W A → Task W B → Task W (A × B)
  join l1 f g w = let (a, w') = f w in let (b, w'') = g w' in ((a, b), w'')
  join l2 f g w = let (b, w') = g w in let (a, w'') = f w' in ((a, b), w'')

module _ {W A : Type 0} where
  -- A task that gives `r` and changes the state by `t`.
  abbrev pub leaving : A → (W → W) → Task W A
  leaving r t w = (r, t w)

-- What a losing future does once its race is decided.
pub data RaceLoserPolicy : Type 0 where
  offload drop : RaceLoserPolicy

-- The layer whose future is handed to `offload.spawn`, to run later; a dropped one never does.
unfoldable pub loser : RaceLoserPolicy → CompositionLayer → Option CompositionLayer
loser offload layer = Option.some layer
loser drop layer = Option.none
