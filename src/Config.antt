-- ===== src/Config.antt =====
-- hitbox-configuration/src: how what is written in a configuration file becomes the predicates and
-- the extractors of an endpoint.
pub mod Error
pub mod Answer
pub mod Gives
pub mod Meaning
pub mod Response
pub mod Request
pub mod Heads
pub mod Body
pub mod Status
pub mod Leaves
pub mod Clear
pub mod Transparency
pub mod Extractors
pub mod Endpoint
pub mod Backends
mod Samples
mod Tests
