-- ===== src/Storage/Moka/Laws.antt =====
-- When moka lets a value expire, hitbox-moka/src/builder.rs.
use hitbox.Prelude.{ℕ, ◌+◌, ◌≤◌, ◌<◌, some, ◌≡◌, arith}
use hitbox.Storage.Moka.{nanos_per_milli, calculate_ttl}

-- moka drops a value at its expiry or less than a millisecond earlier, and never later; a value that
-- is past its expiry when it is written is dropped at once.
pub calculate_ttl-left_millis :
    (expiration now left : ℕ)
    → calculate_ttl (some expiration) now ≡ some left
    → now ≤ expiration
    → (now + left ≤ expiration) × expiration < now + left + nanos_per_milli
unfolding calculate_ttl
calculate_ttl-left_millis expiration now left h valid = ground (arith, h, valid)

pub calculate_ttl-past :
    (expiration now : ℕ) → expiration ≤ now → calculate_ttl (some expiration) now ≡ some 0
unfolding calculate_ttl
calculate_ttl-past expiration now past = ground (arith, past)
