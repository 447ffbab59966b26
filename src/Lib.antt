-- ===== src/Lib.antt =====
-- A model of hitbox, an asynchronous caching framework in Rust, and the theorems that make it
-- correct. Paths are from the root of the repository.
--
-- The program. A service is wrapped by a cache: for each request a state machine
-- (hitbox/src/fsm) decides whether the request is cacheable, reads the cache, judges the value
-- by its age, waits for another request or calls the upstream service, and stores what came
-- back. The types that it works with are in hitbox-core. The cache is a backend;
-- hitbox-backend/src/composition makes one backend of two layers, by a policy for reads, one for
-- writes and one for refills of the first layer. hitbox-http makes HTTP requests and responses
-- cacheable: predicates look at their heads and read a part of their bodies, extractors gather the
-- parts of the cache key, and a body that was read in part is replayed. Work in the background is
-- given to the offload manager of hitbox/src/offload.
--
-- The modules.
--   Prelude: names of the library that are passed on, Boolean tests of numbers, and lists.
--   Core.Context: hitbox-core/src/context.rs, hitbox-core/src/label.rs and
--     hitbox-backend/src/composition/context.rs. `Box<dyn Context>` is a data type with a constructor
--     for each implementation; a method of the trait is a function by clauses.
--   Core.Value, Core.Policy, Core.Predicate, Core.Response: the files of these names in
--     hitbox-core/src, and hitbox/src/policy.rs and config.rs. `Utc::now()` is an argument.
--   Fsm.World: what the machine calls, as one record of functions (the backend, the upstream, the
--     predicates, the concurrency manager, the clock), and the log of its effects.
--   Fsm.States, Fsm.Transitions, Fsm.Steps, Fsm.Future: hitbox/src/fsm/states.rs, transitions.rs and
--     future.rs. A `transition` method is a function of Fsm.Steps of the name of its state, an
--     `into_state` one of Fsm.Transitions, and a round of the loop of `CacheFuture::poll` is `step`.
--   Fsm.Runs, Fsm.Counts, Fsm.Keys, Fsm.Progress, Fsm.Source, Fsm.Answers: proofs about runs.
--   Fsm.Sequence: requests one after another, over a backend that keeps what was written.
--   Backend: the traits of hitbox-backend/src/backend.rs with the methods that they provide.
--   Composition.Task, Composition.Read, Composition.Write: the policies under
--     hitbox-backend/src/composition/policy; which of two tasks completes first is an argument.
--   Composition.Compose: hitbox-backend/src/composition/compose.rs and policy/builder.rs.
--   Composition.Envelope: hitbox-backend/src/composition/envelope.rs, byte by byte.
--   Composition.Format: hitbox-backend/src/composition/format.rs.
--   Composition.Backend: hitbox-backend/src/composition/mod.rs; its child Packed has the interface
--     that a trait object calls. Both give again what Backend asks of a layer, so that layers nest.
--   Concurrency: `BroadcastConcurrencyManager` of hitbox/src/concurrency.rs; the semaphore and the
--     channel of tokio are a parameter, and a theorem names what it asks of them.
--   Key: hitbox-core/src/key.rs; Key.Columns is its encoding of the parts field by field, and
--     Key.Format the formats of hitbox-backend/src/key.rs.
--   Offload: hitbox/src/offload/manager.rs, with its keys and map in Offload.Tasks and policy.rs in
--     Offload.Config. Offload.Races has the steps of a manager, with the ends of tasks between them.
--   Http.Body: hitbox-http/src/body.rs; Http.Body.Collect reads bodies, and Http.Body.Content is the
--     abstract view of a body, its bytes and the error that ends it.
--   Http.Plain, Http.Operation: hitbox-http/src/predicates/body. Http.Heads: the other predicates.
--   Http.Extractors: hitbox-http/src/extractors, of which Http.BodyExtractor has body.rs and its
--     child Chains the chains of extractors of every kind.
--     Http.Response: hitbox-http/src/request.rs, response.rs and cache_status.rs.
--   Storage.Redis, Storage.Feoxdb, Storage.Moka: the backends of hitbox-redis, hitbox-feoxdb and
--     hitbox-moka, over the client, the store and the cache of others; their children Builder are the
--     builders, and Storage.Redis.Connection is the connection that the first operation opens.
--   Config: hitbox-configuration/src. Config.Request and Config.Response have the trees of
--     predicates/request and predicates/response, Config.Heads, Config.Status and Config.Body their
--     leaves, which Config.Leaves puts together; their children Meaning say what a tree stands for.
--     Config.Extractors is extractors, Config.Endpoint is config.rs, endpoint.rs and types.rs, and
--     Config.Backends is backend.
--
-- How the code is read. An async call is a function of the state and gives its result at once;
-- where a future is polled, `run` takes a schedule, a list of Booleans that says for each round
-- whether the awaited future is ready. So every order in which the futures become ready is some
-- schedule. Eight rounds that are ready suffice: each brings the machine nearer to its response.
-- The answers of the services may depend on all that the request has done so far, and are
-- otherwise arbitrary. Durations and instants are natural numbers of nanoseconds; machine words
-- keep their wrap-around where the code casts to them. Formats, compressors and storage are
-- parameters. The body of a server or client is what its polls give in order, up to its end; so it
-- has an end, and a poll that is pending changes nothing. Regular expressions, jq filters, header
-- maps, routers and runtimes are records of functions, and a theorem names the laws it asks of them.
-- `wait_all` takes fuel for the turns of its loop: one more than the turn at which no task is active
-- is enough.
--
-- What is not modelled: tracing and metrics; the release of a permit when it is dropped, and
-- requests that are dropped before they complete; the errors' message texts, of which the first
-- words stand; the displayed text of cache keys; the archived form of header maps and statuses;
-- the Tarantool backend and the middleware, which rest on crates of others; first operations on a
-- Redis backend that open its connection at once; and what serde reads of a configuration
-- file; and the alignment that bytemuck asks of the bytes of an envelope.
pub mod Prelude
pub mod Core
pub mod Backend
pub mod Fsm
pub mod Composition
pub mod Storage
pub mod Config
pub mod Offload
pub mod Key
pub mod Http
pub mod Concurrency
