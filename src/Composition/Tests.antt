-- ===== src/Composition/Tests.antt =====
-- The envelope and the policies at small inputs. The state of the two layers is the list of the
-- layers that were asked, the latest first.
use hitbox.Prelude.{ℕ, ◌+◌, ◌*◌, true, Option, none, some, List, [], ◌∷◌, ◌++◌, ◌≡◌, refl, arith}
use hitbox.Core.Context.{BoxContext, cache_context, CompositionLayer, l1, l2, default_context}
use hitbox.Core.Value.{CacheValue, nanos_per_second}
use hitbox.Core.Response.{ok, err}
use hitbox.Composition.Task.{offload, leaving}
use hitbox.Composition.Envelope.{Raw, both, serialize, deserialize}
use hitbox.Composition.Envelope.Laws.{deserialize-serialize}
use hitbox.Composition.Read.{LayerRead, sequential, race, parallel}
use hitbox.Composition.Read.Laws.{value_found, value_found_iff}

-- Seconds and nanoseconds make an instant.
abbrev from_timestamp : ℕ → ℕ → Option ℕ
from_timestamp secs nanos = some (secs * nanos_per_second + nanos)

-- It expires after one second and a half, and is never stale.
abbrev stored : CacheValue Raw
stored = record { data_ = 3 ∷ 1 ∷ []; expire = some 1_500_000_000; stale_at = none }

deserialize-serialize_example :
    deserialize from_timestamp (serialize (both stored stored) ++ 9 ∷ []) ≡ ok (both stored stored)
deserialize-serialize_example = deserialize-serialize from_timestamp (both stored stored) (9 ∷ []) (
  record { short = omega arith; expire_kept = (omega arith, omega arith, refl); stale_kept = tt },
  omega arith,
)

abbrev start : BoxContext
start = cache_context default_context

abbrev entry : ℕ → Option ℕ → CacheValue ℕ
entry x expire = record { data_ = x; expire = expire; stale_at = none }

abbrev Read : Type 0
Read = LayerRead ℕ ℕ

abbrev found : ℕ → Option ℕ → Read
found x expire = (ok (some (entry x expire)), start)

abbrev missing : Read
missing = (ok none, start)

abbrev broken : Read
broken = (err 5, start)

abbrev Mark : Type 0
Mark = List CompositionLayer → List CompositionLayer

abbrev ask1 : Mark
ask1 w = l1 ∷ w

abbrev ask2 : Mark
ask2 w = l2 ∷ w

value_found_iff_example :
    (value_found (sequential (leaving missing ask1) (leaving (found 2 none) ask2) []).0 ≡ true)
    × (value_found (race offload l2 (leaving missing ask1) (leaving (found 2 none) ask2) []).0.0
        ≡ true)
    × (value_found (parallel 0 l2 (leaving missing ask1) (leaving (found 2 none) ask2) []).0 ≡ true)
value_found_iff_example = value_found_iff missing (found 2 none) ask1 ask2 0 l2 offload []

abbrev soon : Option ℕ
soon = some (3 * nanos_per_second)

abbrev later : Option ℕ
later = some (8 * nanos_per_second)
