-- ===== src/Storage.antt =====
-- The storage backends: what hitbox-redis, hitbox-feoxdb and hitbox-moka make of the stores that
-- they rest on.
pub mod Redis
pub mod Feoxdb
pub mod Moka
mod Tests
