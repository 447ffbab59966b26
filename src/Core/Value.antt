-- ===== src/Core/Value.antt =====
-- hitbox-core/src/value.rs and `CacheState` of hitbox-core/src/response.rs: cached data with its
-- two instants. An instant is a number of nanoseconds since the epoch, and `Utc::now()` an argument.
pub mod Laws
use hitbox.Prelude.{ℕ, ◌-◌, ◌/◌, Bool, false, Option, none, some, leb, ltb, if◌then◌else◌}

abbrev pub nanos_per_second : ℕ
nanos_per_second = 1_000_000_000

pub record CacheValue (A : Type 0) : Type 0 where
  pub data_ : A
  pub expire : Option ℕ
  pub stale_at : Option ℕ

pub data CacheState (A : Type 0) : Type 0 where
  stale : A → CacheState A
  actual : A → CacheState A
  expired : A → CacheState A

abbrev pub passed : Option ℕ → ℕ → Bool
passed none now = false
passed (some t) now = leb t now

-- The whole seconds left until `t`; `none` if there is not one.
abbrev seconds_left : Option ℕ → ℕ → Option ℕ
seconds_left none now = none
seconds_left (some t) now =
    let secs : ℕ = (t - now) / nanos_per_second in if ltb 0 secs then some secs else none

module _ {A : Type 0} where
  unfoldable pub cache_state : CacheValue A → ℕ → CacheState (CacheValue A)
  cache_state v now =
      if passed v.expire now then expired v else if passed v.stale_at now then stale v else actual v

  -- The subtraction stops at 0, where the source has a number that is not positive and the same
  -- answer.
  unfoldable pub ttl : CacheValue A → ℕ → Option ℕ
  ttl v now = seconds_left v.expire now
