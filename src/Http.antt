-- ===== src/Http.antt =====
-- The crate hitbox-http: bodies that are read in part and replayed, the predicates on requests and
-- responses, the extractors of cache keys, and the cached form of a response.
pub mod Body
pub mod Plain
pub mod Operation
pub mod Heads
pub mod Extractors
pub mod Response
pub mod BodyExtractor
mod Tests
mod Samples
